-- ===== src/SentJournal/Rotate.antt =====
-- The packets that the journal drops.
use gm_quic.Prelude.{
  ℕ, Bool, true, false, not, leb, sym, zero, suc, ◌+◌, ◌≤◌, ◌≡◌, refl, ap, ◌∙◌, List, [], ◌∷◌, some,
  arith, if◌then◌else◌, length, take, drop, length-append, drop-append, Bool-cases, inl, inr,
}
use gm_quic.IndexDeque.{advance}
use gm_quic.SentJournal.{
  SentPktState, skipped, flighting, retransmitted, acked, expired, should_remain_after, resize,
}
use gm_quic.SentJournal.Packets.{Packet, states, all_frames, IsCounted, journal, length-states}

-- A packet may still be acknowledged or lost: it is in flight, or it was retransmitted and `now` is
-- in front of its expiry.
abbrev pub stays : ℕ → SentPktState → Bool
stays now skipped = false
stays now (flighting n sent_time expire_time retran_time) = true
stays now (retransmitted n sent_time expire_time) = not (leb expire_time now)
stays now (acked n sent_time expire_time) = false

should_remain_after-stays : (now : ℕ) (s : SentPktState) → should_remain_after now s ≡ stays now s
unfolding should_remain_after
should_remain_after-stays now skipped = refl
should_remain_after-stays now (flighting n sent_time expire_time retran_time) = refl
should_remain_after-stays now (retransmitted n sent_time expire_time) = ground arith
should_remain_after-stays now (acked n sent_time expire_time) = refl

module _ {ℓ} {T : Type ℓ} where
  -- The packets that stay, with the number of the first of them: those at the front are dropped that
  -- have no frames to wait for, were acknowledged, or were retransmitted and have expired.
  abbrev pub rotate : ℕ → ℕ → List (Packet T) → ℕ × List (Packet T)
  rotate now offset [] = (offset, [])
  rotate now offset (p ∷ ps) =
      let rest = rotate now (offset + 1) ps in if stays now p.state then (offset, p ∷ ps) else rest

  states-drop : (n : ℕ) (ps : List (Packet T)) → states (drop n ps) ≡ drop n (states ps)
  states-drop zero ps = refl
  states-drop (suc n) [] = refl
  states-drop (suc n) (p ∷ ps) = states-drop n ps

  all_frames-drop :
      (n : ℕ) (ps : List (Packet T))
      → drop (length (all_frames (take n ps))) (all_frames ps) ≡ all_frames (drop n ps)
  all_frames-drop zero ps = refl
  all_frames-drop (suc n) [] = refl
  all_frames-drop (suc n) (p ∷ ps) =
      drop-append p.frames (all_frames (take n ps)) (all_frames ps) ∙ all_frames-drop n ps

  count-take :
      (n : ℕ) (ps : List (Packet T)) → length (all_frames (take n ps)) ≤ length (all_frames ps)
  count-take zero ps = omega arith
  count-take (suc n) [] = omega arith
  count-take (suc n) (p ∷ ps) = omega (
    arith,
    count-take n ps,
    length-append p.frames (all_frames (take n ps)),
    length-append p.frames (all_frames ps),
  )

  expired_lem :
      (now : ℕ) (ps : List (Packet T))
      → IsCounted ps
      → let (n, f) = expired now (states ps) in
        (n ≤ length ps) × (f ≡ length (all_frames (take n ps)))
  unfolding expired
  expired_lem now [] c = (omega arith, refl)
  expired_lem now (p ∷ ps) c =
      let n = (expired now (states ps)).0 in
      elim (Bool-cases (should_remain_after now p.state)) [
        | inl remains ↦ rw remains (omega arith, refl)
        | inr goes ↦
            let e : n + 1 ≡ suc n = omega arith in
            rw (goes, e)
              (
                omega (arith, expired_lem now ps c.1),
                omega (
                  arith,
                  c.0,
                  expired_lem now ps c.1,
                  length-append p.frames (all_frames (take n ps)),
                ),
              )
      ]

  rotate-expired :
      (now offset : ℕ) (ps : List (Packet T))
      → let n = (expired now (states ps)).0 in rotate now offset ps ≡ (offset + n, drop n ps)
  unfolding expired
  rotate-expired now offset [] = ground arith
  rotate-expired now offset (p ∷ ps) =
      let n = (expired now (states ps)).0 in
      elim (Bool-cases (should_remain_after now p.state)) [
        | inl remains ↦
            let e : stays now p.state ≡ true =
              sym (should_remain_after-stays now p.state) ∙ remains in
            rw (remains, e) (ground arith)
        | inr goes ↦
            let f : stays now p.state ≡ false =
              sym (should_remain_after-stays now p.state) ∙ goes in
            let e : n + 1 ≡ suc n = omega arith in
            let o : offset + 1 + n ≡ offset + suc n = omega arith in
            rw (goes, f, e) (rotate-expired now (offset + 1) ps ∙ ap (λ (t : ℕ). (t, drop n ps)) o)
      ]

  IsCounted-drop : (n : ℕ) (ps : List (Packet T)) → IsCounted ps → IsCounted (drop n ps)
  IsCounted-drop zero ps c = c
  IsCounted-drop (suc n) [] c = tt
  IsCounted-drop (suc n) (p ∷ ps) c = IsCounted-drop n ps c.1

  -- `resize` drops the packets at the front that have been acknowledged, are trivial or were
  -- retransmitted and have expired by `now`, and their frames with them; from the first packet on
  -- that is in flight, or was retransmitted and has not expired, each keeps its number, its state and
  -- its frames, and nothing panics. The packets count just the frames that they have.
  pub resize_lem :
      (now offset largest_acked : ℕ) (ps : List (Packet T))
      → IsCounted ps
      → let (offset', ps') = rotate now offset ps in
        (resize (journal offset ps largest_acked) now ≡ some (journal offset' ps' largest_acked))
        × IsCounted ps'
  unfolding resize advance
  resize_lem now offset largest_acked ps c =
      let n = (expired now (states ps)).0 in
      let (small, frames) = expired_lem now ps c in
      rw (rotate-expired now offset ps) (
        ground (
          arith,
          small,
          frames,
          length-states ps,
          states-drop n ps,
          all_frames-drop n ps,
          count-take n ps,
        ),
        IsCounted-drop n ps c,
      )
