-- ===== src/SentJournal/Safety.antt =====
-- What no operation on a journal does, whatever came before it.
use gm_quic.Prelude.{
  ℕ, ◌+◌, ◌≡◌, refl, length-append, ap, sym, ◌∙◌, List, [], ◌∷◌, some, arith, ◌==◌, length,
  Bool-cases, inl, inr,
}
use gm_quic.SentJournal.{
  SentPktState, skipped, flighting, retransmitted, acked, SentJournal, nframes, on_packet_acked,
  resize, fast_retransmit,
}
use gm_quic.SentJournal.Packets.{Packet, states, all_frames, IsCounted, journal}
use gm_quic.SentJournal.Refine.{at_number, acknowledge, in_journal, on_packet_acked_lem}
use gm_quic.SentJournal.Rotate.{resize_lem}
use gm_quic.SentJournal.Retransmit.{fast_retransmit_lem}
use gm_quic.SentJournal.Reach.{Reach, reachable, acknowledge-IsKeeping, at_number-IsCounted}

-- The frames that the packets count together.
abbrev pub frame_count : List SentPktState → ℕ
frame_count [] = 0
frame_count (s ∷ rest) = nframes s + frame_count rest

module _ {ℓ} {T : Type ℓ} where
  acknowledge-again :
      (s : SentPktState) (fs : List T)
      → (r : SentPktState × List T) × (acknowledge (record { state = s; frames = fs }) ≡ some r)
        × (acknowledge (record { state = r.0; frames = fs }) ≡ some (r.0, []))
  acknowledge-again skipped fs = ((skipped, []), refl, refl)
  acknowledge-again (flighting n t x y) fs = ((acked n t x, fs), refl, refl)
  acknowledge-again (retransmitted n t x) fs = ((acked n t x, fs), refl, refl)
  acknowledge-again (acked n t x) fs = ((acked n t x, []), refl, refl)

  at_number-again :
      (i : ℕ) (ps : List (Packet T)) (pn : ℕ)
      → (r : List (Packet T) × List T) × (at_number acknowledge i ps pn ≡ some r)
        × (at_number acknowledge i r.0 pn ≡ some (r.0, []))
  at_number-again i [] pn = (([], []), refl, refl)
  at_number-again i (p ∷ ps) pn =
      let (r, once, twice) = acknowledge-again p.state p.frames in
      let (rest, later, again) = at_number-again (i + 1) ps pn in
      elim (Bool-cases (i == pn)) [
        | inl here ↦ ((record p { state = r.0 } ∷ ps, r.1), rw here (rw once), rw here (rw twice))
        | inr other ↦ ((p ∷ rest.0, rest.1), rw other (rw later), rw other (rw again))
      ]

  -- On a journal that comes from the empty one by whole packets, each with a number below 2 ^ 62 and
  -- built to the end so that no guard is dropped after a frame is recorded, and by the other
  -- operations: an acknowledgement of any packet number at all does not panic, and when the same
  -- number is acknowledged again, the journal stays as it is and no frame is handed back a second
  -- time.
  pub on_packet_acked-twice :
      (j : SentJournal T)
      → Reach j
      → (pn : ℕ)
      → (j' : SentJournal T) × (frames : List T) × (on_packet_acked j pn ≡ some (j', frames))
        × (on_packet_acked j' pn ≡ some (j', []))
  on_packet_acked-twice j reach pn =
      let (offset, a, ps, e, c) = reachable j reach in
      let (r, once, twice) = at_number-again offset ps pn in
      let c' = at_number-IsCounted acknowledge acknowledge-IsKeeping offset ps pn r c once in
      (
        journal offset r.0 a,
        r.1,
        ap (λ k. on_packet_acked k pn) e
            ∙ on_packet_acked_lem offset a ps c pn
            ∙ ap (in_journal offset a) once,
        on_packet_acked_lem offset a r.0 c' pn ∙ ap (in_journal offset a) twice,
      )

  -- On a journal that comes from the empty one by whole packets, each with a number below 2 ^ 62 and
  -- built to the end so that no guard is dropped after a frame is recorded, and by the other
  -- operations: the queue holds just as many frames as its packets count together, and neither
  -- dropping the old packets nor looking for frames to retransmit panics, whatever the time.
  pub fast_retransmit-IsSafe :
      (j : SentJournal T)
      → Reach j
      → (now : ℕ)
      → (length j.queue ≡ frame_count j.sent_packets.deque)
        × ((j' : SentJournal T) × (resize j now ≡ some j'))
        × ((j' : SentJournal T) × (frames : List T) × (fast_retransmit j now ≡ some (j', frames)))
  fast_retransmit-IsSafe j reach now =
      let (offset, a, ps, e, c) = reachable j reach in
      let (done, _) = resize_lem now offset a ps c in
      let (repeated, _, _) = fast_retransmit_lem now offset a ps c in
      (
        ap (λ (k : SentJournal T). length k.queue) e
            ∙ counted ps c
            ∙ ap (λ (k : SentJournal T). frame_count k.sent_packets.deque) (sym e),
        (_, ap (λ k. resize k now) e ∙ done),
        (_, _, ap (λ k. fast_retransmit k now) e ∙ repeated),
      )
    where
      counted :
          (ps : List (Packet T)) → IsCounted ps → length (all_frames ps) ≡ frame_count (states ps)
      counted [] c = refl
      counted (p ∷ ps) c =
          omega (arith, length-append p.frames (all_frames ps), c.0, counted ps c.1)
