-- ===== src/RcvdJournal/Tests.antt =====
-- The journal of received packets on small inputs.
use gm_quic.Prelude.{ℕ, ◌≡◌, ◌≢◌, refl, List, [], ◌∷◌, Option, some, none, true, false}
use gm_quic.PacketNumber.{u8}
use gm_quic.Ack.{AckFrame}
use gm_quic.RcvdJournal.{
  State, empty, packet_received, ack_sent, ack_confirmed, RcvdJournal, with_capacity, decoded,
  decode_pn, on_rcvd_pn, on_rcvd_ack, trigger_ack_frame,
}
use gm_quic.RcvdJournal.Generate.{generated, gen_ack_frame_util}
use gm_quic.RcvdJournal.Replay.{
  receives, hears, reports, Steps, stay, go_on, on_rcvd_pn-once, trigger_ack_frame-none,
}

abbrev with_states : List State → List ℕ → Option (ℕ × ℕ) → RcvdJournal
with_states states acks waiting = record {
  queue = record { deque = states; offset = 0 };
  max_ack_delay = none;
  packet_include_ack = acks;
  earliest_not_ack_time = waiting;
}

-- The packet 2 came, then the packet 0.
abbrev one_came : RcvdJournal
one_came = with_states (empty ∷ empty ∷ packet_received 100 (some 100) 130 ∷ []) [] (some (2, 100))

abbrev two_came : RcvdJournal
two_came =
    with_states (packet_received 110 none 140 ∷ empty ∷ packet_received 100 (some 100) 130 ∷ []) []
      (some (2, 100))

abbrev reported : RcvdJournal
reported =
    with_states (ack_sent false 110 140 (7 ∷ []) ∷ empty ∷ ack_sent true 100 130 (7 ∷ []) ∷ [])
      (7 ∷ []) none

-- What is left when the packet 7, with both in its frame, is acknowledged.
abbrev confirmed : RcvdJournal
confirmed = record {
  queue = record { deque = ack_confirmed true 100 130 ∷ []; offset = 2 };
  max_ack_delay = none;
  packet_include_ack = [];
  earliest_not_ack_time = none;
}

abbrev of_two : AckFrame
of_two = record { largest = 2; delay = 20; first_range = 0; ranges = (0, 0) ∷ []; ecn = none }

abbrev of_seven : AckFrame
of_seven = record { largest = 7; delay = 0; first_range = 0; ranges = []; ecn = none }

first_comes : on_rcvd_pn 100 (with_capacity none) 2 true 10 ≡ some one_came
unfolding on_rcvd_pn
first_comes = refl

second_comes : on_rcvd_pn 110 one_came 0 false 10 ≡ some two_came
unfolding on_rcvd_pn
second_comes = refl

both_reported : gen_ack_frame_util 120 two_came 7 2 100 100 ≡ some (reported, generated of_two)
unfolding gen_ack_frame_util
both_reported = refl

seven_acked : on_rcvd_ack 120 reported of_seven ≡ some confirmed
unfolding on_rcvd_ack
seven_acked = refl

to_the_end : Steps one_came confirmed
to_the_end =
    go_on one_came two_came confirmed (receives 110 one_came 0 false 10 two_came second_comes) (
      go_on two_came reported confirmed
        (reports 120 two_came 7 2 100 100 reported (generated of_two) both_reported)
        (go_on reported confirmed confirmed (hears 120 reported of_seven confirmed seven_acked)
          (stay confirmed)))

on_rcvd_pn-once_example : decode_pn confirmed (u8 2) ≢ decoded 2
on_rcvd_pn-once_example =
    on_rcvd_pn-once 100 (with_capacity none) 2 true 10 one_came confirmed (u8 2) first_comes
      to_the_end

trigger_ack_frame-none_example : trigger_ack_frame 5000 two_came ≡ none
trigger_ack_frame-none_example = trigger_ack_frame-none 5000 two_came
