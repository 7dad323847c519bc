-- ===== src/RecvBuf/Recv.antt =====
-- The loop of `recv`, and `recv`, against the bytes that are held.
use gm_quic.Prelude.{
  ℕ, zero, suc, ◌+◌, ◌-◌, ◌≤◌, ◌≡◌, refl, ap, sym, ◌∙◌, List, Option, none, some, arith, true,
  false, ltb, ◌==◌, length, drop, if◌then◌else◌, Bool-cases, inl, inr, min, max, length-drop,
  get_elem?-drop, get_elem?-none,
}
use gm_quic.Bytes.{BytesOps}
use gm_quic.RecvBuf.{Round, round, recv_loop, search_from, RecvBuf, recv}
use gm_quic.RecvBuf.Segments.{IsOrdered, EndsBy, fragment_at, or_else, byte_at, or_else-none}
use gm_quic.RecvBuf.Gaps.{search_from_lem}
use gm_quic.RecvBuf.Steps.{IsGood, IsDone, fragment-none}
use gm_quic.RecvBuf.Rounds.{round_lem}

-- The segments are in order, do not overlap, are not empty, and none starts below what has been
-- read; `largest_offset` is at the end of the last one and of what has been read, or behind it.
abbrev pub IsValid : RecvBuf → Type 0
IsValid r =
    IsOrdered r.nread r.segments × EndsBy r.largest_offset r.segments × (r.nread ≤ r.largest_offset)

-- The byte of a fragment at `x`, which counts only from `nread` on.
abbrev pub fresh_at : ℕ → ℕ → List ℕ → ℕ → Option ℕ
fresh_at nread offset bytes x = if ltb x nread then none else fragment_at offset bytes x

fragment_at-advance :
    (nread offset : ℕ) (bytes : List ℕ) (x : ℕ)
    → fragment_at (max offset nread) (drop (min (length bytes) (max offset nread - offset)) bytes) x
      ≡ fresh_at nread offset bytes x
unfolding fragment_at
fragment_at-advance nread offset bytes x =
    let start = max offset nread in
    let k = min (length bytes) (start - offset) in
    ground (
      arith,
      get_elem?-drop k bytes (x - start),
      get_elem?-none bytes (k + (x - start)),
      get_elem?-none bytes (x - offset),
    )

module _ (b : BytesOps) where
  recv_loop-done :
      (fuel : ℕ) (r : Round) → (length r.bytes == 0) ≡ true → recv_loop b fuel r ≡ some r
  unfolding recv_loop
  recv_loop-done zero r h = ground arith
  recv_loop-done (suc fuel) r h = ground arith

  recv_loop-step :
      (fuel : ℕ) (r : Round)
      → (length r.bytes == 0) ≡ false
      → recv_loop b (suc fuel) r ≡ recv_loop b fuel (round b r (search_from r.segments r.start))
  unfolding recv_loop
  recv_loop-step fuel r h = ground arith

  recv_loop-done_lem : (r : Round) → (length r.bytes == 0) ≡ true → IsDone r r
  unfolding fragment_at
  recv_loop-done_lem r h = (
    λ x. sym (
        ap (or_else (byte_at r.segments x)) (fragment-none r.start r.bytes x h)
        ∙ or_else-none (byte_at r.segments x)),
    ground arith,
  )

  -- A round for each byte is enough, and the loop ends with the data held.
  pub recv_loop_lem :
      (lo fuel : ℕ) (r : Round)
      → IsGood lo r
      → length r.bytes ≤ fuel
      → (done : Round) × (recv_loop b fuel r ≡ some done) × IsGood lo done × IsDone r done
  recv_loop_lem lo zero r good h =
      let empty : (length r.bytes == 0) ≡ true = ground arith in
      (r, recv_loop-done zero r empty, good, recv_loop-done_lem r empty)
  recv_loop_lem lo (suc fuel) r good h = elim (Bool-cases (length r.bytes == 0)) [
    | inl empty ↦ (r, recv_loop-done (suc fuel) r empty, good, recv_loop-done_lem r empty)
    | inr full ↦
        let next = round b r (search_from r.segments r.start) in
        let step =
          round_lem b lo r (search_from r.segments r.start) good
            (search_from_lem r.segments r.start) (ground arith) in
        let (done, e, done_good, is_done) =
          recv_loop_lem lo fuel next step.0 (omega (arith, step.1)) in
        (done, recv_loop-step fuel r full ∙ e, done_good, step.2 done is_done)
  ]

  -- For any buffer in order and any fragment, `recv` ends without a panic. The buffer stays in
  -- order, and what has been read stays as it is. Afterwards it holds the bytes it held and, where
  -- it held none, those of the fragment that are not below what has been read. What it returns for
  -- flow control is the growth of `largest_offset`.
  pub recv_lem :
      (r : RecvBuf) (offset : ℕ) (bytes : List ℕ)
      → IsValid r
      → (r' : RecvBuf) × (credit : ℕ) × (recv b r offset bytes ≡ some (r', credit))
        × IsValid r'
        × (r'.nread ≡ r.nread)
        × ((x : ℕ)
            → byte_at r'.segments x
              ≡ or_else (byte_at r.segments x) (fresh_at r.nread offset bytes x))
        × (r'.largest_offset ≡ r.largest_offset + credit)
        × (credit ≡ (if length bytes == 0 then 0 else offset + length bytes - r.largest_offset))
  unfolding recv
  recv_lem r offset bytes valid =
      let start = max offset r.nread in
      let fresh = drop (min (length bytes) (start - offset)) bytes in
      let first : Round = record {
        segments = r.segments;
        largest = r.largest_offset;
        start = start;
        bytes = fresh;
      } in
      let (done, e, good, is_done) =
        recv_loop_lem r.nread (length fresh) first (valid.0, valid.1, omega arith) (omega arith) in
      (
        record r { segments = done.segments; largest_offset = done.largest },
        done.largest - r.largest_offset,
        rw (b.advance_lem (min (length bytes) (start - offset)) bytes (omega arith)) (rw e refl),
        (good.0, good.1, ground (arith, is_done.1)),
        refl,
        λ x.
            is_done.0 x
            ∙ ap (or_else (byte_at r.segments x)) (fragment_at-advance r.nread offset bytes x),
        ground (arith, is_done.1),
        ground (arith, is_done.1, length-drop (min (length bytes) (start - offset)) bytes),
      )
