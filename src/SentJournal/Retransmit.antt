-- ===== src/SentJournal/Retransmit.antt =====
-- The packets of the journal whose frames are sent again.
use gm_quic.Prelude.{
  ℕ, Bool, false, not, leb, ◌+◌, ◌-◌, ◌≡◌, refl, ap, sym, ◌∙◌, List, [], ◌∷◌, ◌++◌, some, arith,
  ltb, if◌then◌else◌, length, length-append, take-append_left, drop-append_left, Bool-cases, inl,
  inr,
}
use mathlib.Core.List.{append_assoc}
use gm_quic.SentJournal.{
  SentPktState, skipped, flighting, retransmitted, acked, nframes, range, should_retransmit_after,
  retransmit_from, fast_retransmit,
}
use gm_quic.SentJournal.Packets.{Packet, states, all_frames, IsCounted, journal}
use gm_quic.SentJournal.Rotate.{rotate, resize_lem}

nframes-retransmit :
    (now : ℕ) (s : SentPktState) → nframes (should_retransmit_after now s).0 ≡ nframes s
unfolding should_retransmit_after nframes
nframes-retransmit now skipped = refl
nframes-retransmit now (flighting n t x r) = ground arith
nframes-retransmit now (retransmitted n t x) = refl
nframes-retransmit now (acked n t x) = refl

-- A packet is due when it is in flight and its retransmission time lies behind `now`.
abbrev pub is_due : ℕ → SentPktState → Bool
is_due now skipped = false
is_due now (flighting n sent_time expire_time retran_time) = not (leb now retran_time)
is_due now (retransmitted n sent_time expire_time) = false
is_due now (acked n sent_time expire_time) = false

-- Then it counts as retransmitted, with its frames and its expiry as they were.
abbrev pub after : ℕ → SentPktState → SentPktState
after now skipped = skipped
after now (flighting n sent_time expire_time retran_time) =
    if not (leb now retran_time)
    then retransmitted n sent_time expire_time
    else flighting n sent_time expire_time retran_time
after now (retransmitted n sent_time expire_time) = retransmitted n sent_time expire_time
after now (acked n sent_time expire_time) = acked n sent_time expire_time

should_retransmit_after-is_due :
    (now : ℕ) (s : SentPktState) → should_retransmit_after now s ≡ (after now s, is_due now s)
unfolding should_retransmit_after
should_retransmit_after-is_due now skipped = refl
should_retransmit_after-is_due now (flighting n t x r) = ground arith
should_retransmit_after-is_due now (retransmitted n t x) = refl
should_retransmit_after-is_due now (acked n t x) = refl

nframes-after : (now : ℕ) (s : SentPktState) → nframes (after now s) ≡ nframes s
nframes-after now s =
    ap (λ (r : SentPktState × Bool). nframes r.0) (sym (should_retransmit_after-is_due now s))
    ∙ nframes-retransmit now s

module _ {ℓ} {T : Type ℓ} where
  -- The packets below `largest_acked` that are due at `now` count as retransmitted, and their
  -- frames are handed back in order.
  abbrev pub retransmit_due : ℕ → ℕ → ℕ → List (Packet T) → List (Packet T) × List T
  retransmit_due now largest_acked i [] = ([], [])
  retransmit_due now largest_acked i (p ∷ ps) =
      let rest = retransmit_due now largest_acked (i + 1) ps in
      let frames = if is_due now p.state then p.frames else [] in
      if ltb i largest_acked
      then (record p { state = after now p.state } ∷ rest.0, frames ++ rest.1)
      else (p ∷ ps, [])

  range-middle :
      (front frames back : List T) (start n : ℕ)
      → start ≡ length front
      → n ≡ length frames
      → range (front ++ frames ++ back) start (start + n) ≡ some frames
  unfolding range
  range-middle front frames back start n e f =
      let m : start + n - start ≡ n = omega arith in
      rw (append_assoc front frames back) (
        rw (m, drop-append_left front (frames ++ back) start e, take-append_left frames back n f)
          (ground (arith, length-append front (frames ++ back), length-append frames back)))

  retransmit_due-IsCounted :
      (now largest_acked i : ℕ) (ps : List (Packet T))
      → IsCounted ps
      → IsCounted (retransmit_due now largest_acked i ps).0
  retransmit_due-IsCounted now largest_acked i [] c = tt
  retransmit_due-IsCounted now largest_acked i (p ∷ ps) c =
      elim (Bool-cases (ltb i largest_acked)) [
        | inl below ↦ rw below (
          nframes-after now p.state ∙ c.0,
          retransmit_due-IsCounted now largest_acked (i + 1) ps c.1,
        )
        | inr beyond ↦ rw beyond c
      ]

  all_frames-retransmit_due :
      (now largest_acked i : ℕ) (ps : List (Packet T))
      → all_frames (retransmit_due now largest_acked i ps).0 ≡ all_frames ps
  all_frames-retransmit_due now largest_acked i [] = refl
  all_frames-retransmit_due now largest_acked i (p ∷ ps) = elim (Bool-cases (ltb i largest_acked)) [
    | inl below ↦
        rw below (ap (λ t. p.frames ++ t) (all_frames-retransmit_due now largest_acked (i + 1) ps))
    | inr beyond ↦ rw beyond
  ]

  retransmit_from_lem :
      (now largest_acked i start : ℕ) (front : List T) (ps : List (Packet T))
      → IsCounted ps
      → start ≡ length front
      → retransmit_from now largest_acked (front ++ all_frames ps) i start (states ps)
        ≡ some (
          states (retransmit_due now largest_acked i ps).0,
          (retransmit_due now largest_acked i ps).1,
        )
  unfolding retransmit_from
  retransmit_from_lem now largest_acked i start front [] c e = refl
  retransmit_from_lem now largest_acked i start front (p ∷ ps) c e =
      let n = nframes p.state in
      let ih =
        retransmit_from_lem now largest_acked (i + 1) (start + n) (front ++ p.frames) ps c.1
          (omega (arith, c.0, length-append front p.frames)) in
      let ih' =
        ap (λ q. retransmit_from now largest_acked q (i + 1) (start + n) (states ps))
          (sym (append_assoc front p.frames (all_frames ps)))
        ∙ ih in
      let middle =
        ap (λ q. range q start (start + n)) (sym (append_assoc front p.frames (all_frames ps)))
        ∙ range-middle front p.frames (all_frames ps) start n e c.0 in
      let tested = should_retransmit_after-is_due now p.state in
      elim (Bool-cases (ltb i largest_acked)) [
        | inl below ↦ elim (Bool-cases (is_due now p.state)) [
          | inl due ↦ rw (below, tested, due) (rw middle (rw ih'))
          | inr not_due ↦ rw (below, tested, not_due) (rw ih')
        ]
        | inr beyond ↦ rw beyond
      ]

  -- `fast_retransmit`, run to its end, first drops what `resize` drops; then each packet with a
  -- number below the largest acknowledged one that is in flight and whose retransmission time lies
  -- behind `now` counts as retransmitted, and it returns the frames of just these packets, in order.
  -- No packet loses its number or its frames by this, and nothing panics. The packets count just the
  -- frames that they have.
  pub fast_retransmit_lem :
      (now offset largest_acked : ℕ) (ps : List (Packet T))
      → IsCounted ps
      → let (offset', kept) = rotate now offset ps in
        let (ps', frames) = retransmit_due now largest_acked offset' kept in
        (fast_retransmit (journal offset ps largest_acked) now
          ≡ some (journal offset' ps' largest_acked, frames))
        × (all_frames ps' ≡ all_frames kept)
        × IsCounted ps'
  unfolding fast_retransmit
  fast_retransmit_lem now offset largest_acked ps c =
      let offset' = (rotate now offset ps).0 in
      let kept = (rotate now offset ps).1 in
      let (e, c') = resize_lem now offset largest_acked ps c in
      let same = all_frames-retransmit_due now largest_acked offset' kept in
      (
        rw (e, fast_retransmit)
            (rw (retransmit_from_lem now largest_acked offset' 0 [] kept c' refl)
              (ground (arith, same))),
        same,
        retransmit_due-IsCounted now largest_acked offset' kept c',
      )
