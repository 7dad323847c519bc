-- ===== src/SentJournal/Refine.antt =====
-- The operations of the journal of sent packets, against the packets with their frames.
use gm_quic.Prelude.{
  ℕ, zero, suc, ◌+◌, ◌-◌, ◌≤◌, ◌<◌, ◌≡◌, ◌⊎◌, inl, inr, refl, ap, List, [], ◌∷◌, Option, none, some,
  arith, ltb, ◌==◌, ◌>>=◌, if◌then◌else◌, length, get_elem?, get_elem?-some, set, take, Bool-cases,
  ltb→lt, ltb→le, false,
}
use gm_quic.IndexDeque.{get, update}
use gm_quic.SentJournal.{
  SentPktState, skipped, flighting, retransmitted, acked, SentJournal, nframes, frames_before,
  range, be_acked, maybe_lost, on_packet_acked, may_loss_packet,
}
use gm_quic.SentJournal.Packets.{
  Packet, states, all_frames, IsCounted, journal, length-states, frames_before_lem,
  frames_before-le, get_elem?-states, set_state, states-set_state, all_frames-set_state,
  take-frames, count-frames,
}

-- What is done to one packet: its new state, and the frames that are handed back; `none`
-- is a panic.
abbrev pub Action {ℓ} : Type ℓ → Type ℓ
Action T = Packet T → Option (SentPktState × List T)

module _ {ℓ} {T : Type ℓ} where
  -- `act` on the packet with number `pn`, if there is one; `i` is the number of the first.
  abbrev pub at_number : Action T → ℕ → List (Packet T) → ℕ → Option (List (Packet T) × List T)
  at_number act i [] pn = some ([], [])
  at_number act i (p ∷ ps) pn =
      let rest = at_number act (i + 1) ps pn in
      if i == pn
      then (act p >>= λ r. some (record p { state = r.0 } ∷ ps, r.1))
      else (rest >>= λ r. some (p ∷ r.0, r.1))

  -- An acknowledged packet hands back its frames, the first time.
  abbrev pub acknowledge : Action T
  acknowledge p = elim (p.state) [
    | skipped ↦ some (skipped, [])
    | flighting n sent_time expire_time _ ↦ some (acked n sent_time expire_time, p.frames)
    | retransmitted n sent_time expire_time ↦ some (acked n sent_time expire_time, p.frames)
    | acked n sent_time expire_time ↦ some (acked n sent_time expire_time, [])
  ]

  -- A packet that may be lost hands back its frames; it must not have been acknowledged.
  abbrev pub lose : Action T
  lose p = elim (p.state) [
    | skipped ↦ some (skipped, [])
    | flighting n sent_time expire_time _ ↦ some (retransmitted n sent_time expire_time, p.frames)
    | retransmitted n sent_time expire_time ↦ some (retransmitted n sent_time expire_time, p.frames)
    | acked n sent_time expire_time ↦ none
  ]

  -- The packets after an action on packet `k`.
  abbrev applied :
      List (Packet T) → ℕ → Option (SentPktState × List T) → Option (List (Packet T) × List T)
  applied ps k none = none
  applied ps k (some r) = some (set_state ps k r.0, r.1)

  -- The journal that holds the packets that an action leaves.
  abbrev pub in_journal :
      ℕ → ℕ → Option (List (Packet T) × List T) → Option (SentJournal T × List T)
  in_journal offset largest_acked none = none
  in_journal offset largest_acked (some r) = some (journal offset r.0 largest_acked, r.1)

  at_number-known :
      (act : Action T) (i : ℕ) (ps : List (Packet T)) (k : ℕ) (p : Packet T)
      → get_elem? ps k ≡ some p
      → at_number act i ps (i + k) ≡ applied ps k (act p)
  at_number-known act i [] k p e = cc
  at_number-known act i (q ∷ ps) zero p e = ground arith
  at_number-known act i (q ∷ ps) (suc k) p e =
      let n : i + suc k ≡ i + 1 + k = omega arith in
      let later : (i == i + suc k) ≡ false = ground arith in
      rw later (rw n (rw (at_number-known act (i + 1) ps k p e) (twice (act p))))
    where
      twice :
          (o : Option (SentPktState × List T))
          → (applied ps k o >>= λ r. some (q ∷ r.0, r.1)) ≡ applied (q ∷ ps) (suc k) o
      twice none = refl
      twice (some r) = refl

  at_number-unknown :
      (act : Action T) (i : ℕ) (ps : List (Packet T)) (pn : ℕ)
      → (pn < i) ⊎ (i + length ps ≤ pn)
      → at_number act i ps pn ≡ some (ps, [])
  at_number-unknown act i [] pn h = refl
  at_number-unknown act i (q ∷ ps) pn h =
      let other : (i == pn) ≡ false = ground arith in
      rw other (rw (at_number-unknown act (i + 1) ps pn (omega arith)))

  IsCounted-get :
      (ps : List (Packet T)) (k : ℕ) (p : Packet T)
      → IsCounted ps
      → get_elem? ps k ≡ some p
      → nframes p.state ≡ length p.frames
  IsCounted-get [] k p c e = cc
  IsCounted-get (q ∷ ps) zero p c e = ground (arith, c.0)
  IsCounted-get (q ∷ ps) (suc k) p c e = IsCounted-get ps k p c.1 e

  module _ (offset largest_acked : ℕ) (ps : List (Packet T)) (counted : IsCounted ps) where
    get-known :
        (k : ℕ) (p : Packet T)
        → get_elem? ps k ≡ some p
        → k < length ps
        → get (journal offset ps largest_acked).sent_packets (offset + k) ≡ some p.state
    unfolding get
    get-known k p e h =
        let n : offset + k - offset ≡ k = omega arith in
        ground (arith, length-states ps, get_elem?-states ps k p e, ap (get_elem? (states ps)) n)

    get-unknown :
        (pn : ℕ)
        → (pn < offset) ⊎ (offset + length ps ≤ pn)
        → get (journal offset ps largest_acked).sent_packets pn ≡ none
    unfolding get
    get-unknown pn h = ground (arith, length-states ps)

    update-known :
        (k : ℕ) (s : SentPktState)
        → k < length ps
        → update (journal offset ps largest_acked).sent_packets (offset + k) s
          ≡ (journal offset (set_state ps k s) largest_acked).sent_packets
    unfolding update
    update-known k s h =
        let n : offset + k - offset ≡ k = omega arith in
        ground (arith, length-states ps, ap (λ j. set (states ps) j s) n, states-set_state ps k s)

    range-known :
        (k : ℕ) (p : Packet T) (count : ℕ)
        → get_elem? ps k ≡ some p
        → k < length ps
        → count ≡ length p.frames
        → range
            (all_frames ps)
            (frames_before offset (states ps) (offset + k))
            (frames_before offset (states ps) (offset + k) + count)
          ≡ some p.frames
    unfolding range
    range-known k p count e h c =
        let before = length (all_frames (take k ps)) in
        let n : before + length p.frames - before ≡ length p.frames = omega arith in
        rw (frames_before_lem offset ps (offset + k) k counted refl (omega arith), c, n)
          (ground (arith, count-frames ps k p e, take-frames ps k p e))

    -- A range of no frames.
    range-nothing :
        (pn : ℕ)
        → range
            (all_frames ps)
            (frames_before offset (states ps) pn)
            (frames_before offset (states ps) pn + 0)
          ≡ some []
    unfolding range
    range-nothing pn =
        let before = frames_before offset (states ps) pn in
        let n : before + 0 - before ≡ 0 = omega arith in
        rw n (ground (arith, frames_before-le offset ps pn counted))

    -- What is left of an operation once the range of the frames is known.
    after :
        (k : ℕ) (s : SentPktState) (frames : List T)
        → k < length ps
        → ◌≡◌ {A = Option (SentJournal T × List T)}
            (some (
              record (journal offset ps largest_acked) {
                sent_packets = update (journal offset ps largest_acked).sent_packets (offset + k) s;
              },
              frames,
            ))
            (some (journal offset (set_state ps k s) largest_acked, frames))
    after k s frames h = ground (arith, update-known k s h, all_frames-set_state ps k s)

    acked-known :
        (k : ℕ) (s : SentPktState) (fs : List T)
        → get_elem? ps k ≡ some (record { state = s; frames = fs })
        → k < length ps
        → nframes s ≡ length fs
        → on_packet_acked (journal offset ps largest_acked) (offset + k)
          ≡ in_journal offset largest_acked
              (applied ps k (acknowledge (record { state = s; frames = fs })))
    unfolding on_packet_acked be_acked nframes
    acked-known k skipped fs e h c =
        rw (get-known k (record { state = skipped; frames = fs }) e h, on_packet_acked)
          (rw (range-nothing (offset + k)) (after k skipped [] h))
    acked-known k (flighting n t x r) fs e h c =
        rw (get-known k (record { state = flighting n t x r; frames = fs }) e h, on_packet_acked)
          (rw (range-known k (record { state = flighting n t x r; frames = fs }) n e h c)
            (after k (acked n t x) fs h))
    acked-known k (retransmitted n t x) fs e h c =
        rw (get-known k (record { state = retransmitted n t x; frames = fs }) e h, on_packet_acked)
          (rw (range-known k (record { state = retransmitted n t x; frames = fs }) n e h c)
            (after k (acked n t x) fs h))
    acked-known k (acked n t x) fs e h c =
        rw (get-known k (record { state = acked n t x; frames = fs }) e h, on_packet_acked)
          (rw (range-nothing (offset + k)) (after k (acked n t x) [] h))

    lost-known :
        (k : ℕ) (s : SentPktState) (fs : List T)
        → get_elem? ps k ≡ some (record { state = s; frames = fs })
        → k < length ps
        → nframes s ≡ length fs
        → may_loss_packet (journal offset ps largest_acked) (offset + k)
          ≡ in_journal offset largest_acked
              (applied ps k (lose (record { state = s; frames = fs })))
    unfolding may_loss_packet maybe_lost nframes
    lost-known k skipped fs e h c =
        rw (get-known k (record { state = skipped; frames = fs }) e h, may_loss_packet)
          (rw (range-nothing (offset + k)) (after k skipped [] h))
    lost-known k (flighting n t x r) fs e h c =
        rw (get-known k (record { state = flighting n t x r; frames = fs }) e h, may_loss_packet)
          (rw (range-known k (record { state = flighting n t x r; frames = fs }) n e h c)
            (after k (retransmitted n t x) fs h))
    lost-known k (retransmitted n t x) fs e h c =
        rw (get-known k (record { state = retransmitted n t x; frames = fs }) e h, may_loss_packet)
          (rw (range-known k (record { state = retransmitted n t x; frames = fs }) n e h c)
            (after k (retransmitted n t x) fs h))
    lost-known k (acked n t x) fs e h c =
        rw (get-known k (record { state = acked n t x; frames = fs }) e h, may_loss_packet)

    acked-unknown :
        (pn : ℕ)
        → (pn < offset) ⊎ (offset + length ps ≤ pn)
        → on_packet_acked (journal offset ps largest_acked) pn
          ≡ some (journal offset ps largest_acked, [])
    unfolding on_packet_acked
    acked-unknown pn h = rw (get-unknown pn h, on_packet_acked) (rw (range-nothing pn))

    lost-unknown :
        (pn : ℕ)
        → (pn < offset) ⊎ (offset + length ps ≤ pn)
        → may_loss_packet (journal offset ps largest_acked) pn
          ≡ some (journal offset ps largest_acked, [])
    unfolding may_loss_packet
    lost-unknown pn h = rw (get-unknown pn h, may_loss_packet) (rw (range-nothing pn))

    -- Whether there is a packet with this number.
    locate :
        (pn : ℕ)
        → ((k : ℕ) × (p : Packet T) × (pn ≡ offset + k)
            × (k < length ps)
            × (get_elem? ps k ≡ some p))
          ⊎ ((pn < offset) ⊎ (offset + length ps ≤ pn))
    locate pn = elim (Bool-cases (ltb pn offset)) [
      | inl below ↦ inr (inl (ltb→lt _ _ below))
      | inr above ↦ elim (Bool-cases (ltb (pn - offset) (length ps))) [
        | inl inside ↦
            let (p, e) = get_elem?-some ps (pn - offset) (ltb→lt _ _ inside) in
            inl (pn - offset, p, omega (arith, ltb→le _ _ above), ltb→lt _ _ inside, e)
        | inr after_last ↦ inr (inr (omega (arith, ltb→le _ _ above, ltb→le _ _ after_last)))
      ]
    ]

    -- On a journal whose packets count their frames, an acknowledgement of `pn` changes the state
    -- of packet `pn` alone and returns the frames of that packet, in order, if it was sent with
    -- frames and not acknowledged before; otherwise, also for a number that the journal does not
    -- hold, it returns none. It does not panic.
    pub on_packet_acked_lem :
        (pn : ℕ)
        → on_packet_acked (journal offset ps largest_acked) pn
          ≡ in_journal offset largest_acked (at_number acknowledge offset ps pn)
    on_packet_acked_lem pn = elim (locate pn) [
      | inl (k, p, n, h, e) ↦
          rw (n, at_number-known acknowledge offset ps k p e)
            (acked-known k p.state p.frames e h (IsCounted-get ps k p counted e))
      | inr h ↦ rw (at_number-unknown acknowledge offset ps pn h) (acked-unknown pn h)
    ]

    -- On a journal whose packets count their frames, the report that packet `pn` may be lost
    -- changes the state of packet `pn` alone and returns the frames of that packet, in order; it
    -- panics if that packet has been acknowledged. A number that the journal does not hold changes
    -- nothing and returns no frames.
    pub may_loss_packet_lem :
        (pn : ℕ)
        → may_loss_packet (journal offset ps largest_acked) pn
          ≡ in_journal offset largest_acked (at_number lose offset ps pn)
    may_loss_packet_lem pn = elim (locate pn) [
      | inl (k, p, n, h, e) ↦
          rw (n, at_number-known lose offset ps k p e)
            (lost-known k p.state p.frames e h (IsCounted-get ps k p counted e))
      | inr h ↦ rw (at_number-unknown lose offset ps pn h) (lost-unknown pn h)
    ]
