-- ===== src/SendBuf/Tests.antt =====
-- The send buffer on small inputs.
use gm_quic.Prelude.{
  ℕ, ◌+◌, min, if◌then◌else◌, ◌≤◌, ◌<◌, ◌≡◌, ◌⊎◌, refl, List, [], ◌∷◌, Option, some, arith, Bool,
  true, false, ltb, le→ltb, lt→ltb, take, drop,
}
use mathlib.Core.Option.{some-injective}
use gm_quic.SendBuf.Pack.{encode, decode, decode-encode_state}
use gm_quic.SendBuf.Map.{Color, recved, pending, flighting, lost, ◌is◌, State, BufMap, search}
use gm_quic.SendBuf.Pick.{picked, pick}
use gm_quic.SendBuf.Buffer.{SendBuf, on_data_acked, may_loss_data}
use gm_quic.SendBuf.Colors.{color_at}
use gm_quic.SendBuf.Assemble.{marked}
use gm_quic.SendBuf.Ends.{IsSent}
use gm_quic.SendBuf.Losses.{lose}
use gm_quic.SendBuf.Found.{is_ready}
use gm_quic.SendBuf.Holding.{IsHolding, color_of}
use gm_quic.SendBuf.MayLoss.{loss_starts}
use gm_quic.SendBuf.Acked.{on_data_acked-IsHolding, may_loss_data-IsHolding, is_all_rcvd-recved}
use gm_quic.SendBuf.Sending.{pick-colors, pick-first, pick-live}

abbrev at : ℕ → Color → State
at offset color = record { offset = offset; color = color }

abbrev six : List ℕ
six = 11 ∷ 12 ∷ 13 ∷ 14 ∷ 15 ∷ 16 ∷ []

-- Of six bytes four are in flight.
abbrev in_flight : SendBuf
in_flight = record {
  offset = 0;
  bytes = six;
  state = record { states = at 0 flighting ∷ at 4 pending ∷ []; size = 6 };
}

-- Of the four two are lost.
abbrev half_lost : BufMap
half_lost = record { states = at 0 flighting ∷ at 2 lost ∷ at 4 pending ∷ []; size = 6 }

abbrev after_loss : SendBuf
after_loss = record { offset = 0; bytes = six; state = half_lost }

abbrev done : SendBuf
done = record { offset = 6; bytes = []; state = record { states = []; size = 6 } }

-- Three bytes at a time.
abbrev three : ℕ → Option ℕ
three x = some 3

three-positive : (x n : ℕ) → three x ≡ some n → 0 < n
three-positive x n e = omega (arith, some-injective _ _ e)

-- Acknowledged in front: the buffer lets go of two bytes.
acked_front :
    on_data_acked in_flight 0 2
    ≡ some (record {
      offset = 2;
      bytes = 13 ∷ 14 ∷ 15 ∷ 16 ∷ [];
      state = record { states = at 2 flighting ∷ at 4 pending ∷ []; size = 6 };
    })
unfolding on_data_acked
acked_front = refl

lost_back : may_loss_data in_flight 2 4 ≡ some after_loss
unfolding may_loss_data
lost_back = refl

-- The lost bytes go in flight again and join those in front of them.
picked_lost : pick half_lost three 1 ≡ (in_flight.state, picked 2 4 false)
unfolding pick
picked_lost = refl

in_flight-IsHolding : IsHolding six in_flight
in_flight-IsHolding = record {
  ordered = (omega arith, omega arith, (omega arith, omega arith, tt));
  size = refl;
  within = omega arith;
  left = refl;
  acked = λ x h. absurd (omega arith);
  first = λ h. refl;
}

after_loss-IsHolding : IsHolding six after_loss
after_loss-IsHolding = record {
  ordered = (omega arith, omega arith, (omega arith, omega arith, (omega arith, omega arith, tt)));
  size = refl;
  within = omega arith;
  left = refl;
  acked = λ x h. absurd (omega arith);
  first = λ h. refl;
}

done-IsHolding : IsHolding six done
done-IsHolding = record {
  ordered = tt;
  size = refl;
  within = omega arith;
  left = refl;
  acked = λ x h. refl;
  first = λ h. absurd (omega arith);
}

in_flight-IsSent : (start end : ℕ) → end ≤ 4 → IsSent start end (color_of in_flight)
in_flight-IsSent start end h x from inside =
    let behind : ltb x 0 ≡ false = le→ltb x 0 (omega arith) in
    let before : ltb x 4 ≡ true = lt→ltb x 4 (omega arith) in rw behind (rw before refl)

on_data_acked-IsHolding_example :
    (b' : SendBuf) × (on_data_acked in_flight 0 2 ≡ some b')
    × IsHolding six b'
    × (color_of b' 1 ≡ marked (λ _. recved) 0 2 (color_of in_flight) 1)
on_data_acked-IsHolding_example =
    on_data_acked-IsHolding six in_flight 0 2 1 in_flight-IsHolding (omega arith) (omega arith)
      (in_flight-IsSent 0 2 (omega arith)) (omega arith)

starts_behind : loss_starts in_flight.state.states (search in_flight.state.states 2) ≡ true
unfolding search
starts_behind = refl

may_loss_data-IsHolding_example :
    (b' : SendBuf) × (may_loss_data in_flight 2 4 ≡ some b')
    × IsHolding six b'
    × (color_of b' 3 ≡ marked lose 2 4 (color_of in_flight) 3)
may_loss_data-IsHolding_example =
    may_loss_data-IsHolding six in_flight 2 4 3 in_flight-IsHolding (omega arith) (omega arith)
      (in_flight-IsSent 2 4 (omega arith)) starts_behind (omega arith)

is_all_rcvd-recved_example : color_of done 3 ≡ recved
is_all_rcvd-recved_example = is_all_rcvd-recved six done 3 done-IsHolding refl (omega arith)

pick-colors_example :
    color_at recved in_flight.state.states 3
    ≡ marked (λ _. flighting) 2 4 (color_at recved half_lost.states) 3
pick-colors_example =
    pick-colors half_lost three 1 after_loss-IsHolding.ordered three-positive in_flight.state 2 4
      false 3 picked_lost (omega arith)

pick-first_example :
    let color = color_at recved half_lost.states in
    (n : ℕ) × (three 2 ≡ some n)
    × (false ≡ (color 2 is pending))
    × (4 ≤ 2 + (if color 2 is pending then min n 1 else n))
    × (2 < 4)
    × (is_ready 1 (color 2) ≡ true)
    × (((3 < 2) × (is_ready 1 (color 3) ≡ false)) ⊎ ((2 ≤ 3) × ((4 ≤ 3) ⊎ (color 3 ≡ color 2))))
pick-first_example =
    pick-first half_lost three 1 after_loss-IsHolding.ordered three-positive in_flight.state 2 4
      false 3 picked_lost

pick-live_example :
    (m' : BufMap) × (start : ℕ) × (end : ℕ) × (fresh : Bool) × (pick half_lost three 1
      ≡ (m', picked start end fresh))
    × (start ≤ 5)
pick-live_example =
    pick-live half_lost three 1 after_loss-IsHolding.ordered three-positive 5 (λ y. (3, refl)) refl

-- A ring buffer whose first two bytes stand at the end of its memory.
abbrev two_first : List ℕ → List ℕ × List ℕ
two_first l = (take 2 l, drop 2 l)

decode-encode_state_example : decode (encode 40 lost) ≡ some (40, lost)
decode-encode_state_example = decode-encode_state 40 lost (omega arith)
