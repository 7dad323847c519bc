-- ===== src/RecvBuf/Rounds.antt =====
-- One round of the loop of `recv` in each of its branches.
use gm_quic.Prelude.{
  ℕ, zero, suc, ◌+◌, ◌-◌, ◌≤◌, ◌<◌, ◌≡◌, refl, ap, subst, sym, ◌∙◌, List, [], Option, none, some,
  arith, false, ltb, leb, ◌==◌, length, get_elem?, take, drop, Bool-cases, ltb→lt, ltb→le, inl, inr,
  ◌⊎◌, min, max, length-take, length-drop,
}
use gm_quic.Bytes.{BytesOps}
use gm_quic.RecvBuf.{
  Segment, seg_end, Round, place, place_before, on_found, after_previous, on_missing, round, Search,
  found, missing,
}
use gm_quic.RecvBuf.Segments.{
  IsGap, fragment_at, or_else, byte_at, or_else_assoc, insert_at-IsOrdered, insert_at-EndsBy,
  EndsBy-mono, byte_at-insert_at, Splits, take-drop-Splits, whole-Splits, IsOrdered-full,
}
use gm_quic.RecvBuf.Gaps.{Missed, Before, Located, IsGap-front, IsGap-behind, Missed-previous}
use gm_quic.RecvBuf.Steps.{
  IsGood, Step, Step-trans, cut_lem, drop_lem, Before-end, Before-next, Before-mono,
}

module _ (b : BytesOps) where
  -- Data that goes into a gap becomes a segment.
  place_lem :
      (lo : ℕ) (r : Round) (i : ℕ) (front back : List ℕ)
      → IsGood lo r
      → IsGap r.segments i r.start (length front)
      → Splits r.start r.bytes front back
      → 0 < length front
      → Step lo (length r.bytes) r (place b r i front back)
  place_lem lo r i front back good gap split p =
      let segment : Segment = record { offset = r.start; bytes = front } in
      (
        (
          insert_at-IsOrdered lo r.segments i segment good.0 good.2 p gap,
          insert_at-EndsBy (max r.largest (seg_end segment)) r.segments i segment
              (EndsBy-mono r.largest (max r.largest (seg_end segment)) r.segments (omega arith)
                good.1)
              (omega arith),
          omega (arith, good.2),
        ),
        omega (arith, split.0),
        λ done d. (
          λ x.
              d.0 x
              ∙ ap (λ o. or_else o (fragment_at (r.start + length front) back x))
                  (byte_at-insert_at lo r.segments i segment x good.0 gap)
              ∙ or_else_assoc (byte_at r.segments x) _ _
              ∙ ap (or_else (byte_at r.segments x)) (sym (split.1 x)),
          ground (arith, d.1, split.0),
        ),
      )

  -- Where the data starts in a gap, the part of it in front of the next segment goes in.
  place_before_lem :
      (lo : ℕ) (r : Round) (i : ℕ) (o : Option Segment)
      → IsGood lo r
      → ((n : ℕ) → Before (r.start + n) o → IsGap r.segments i r.start n)
      → Before (suc r.start) o
      → 0 < length r.bytes
      → Step lo (length r.bytes) r (place_before b r i o)
  unfolding place_before
  place_before_lem lo r i none good gap ahead p =
      place_lem lo r i r.bytes [] good (gap (length r.bytes) tt) (whole-Splits r.start r.bytes) p
  place_before_lem lo r i (some next) good gap ahead p =
      elim (Bool-cases (ltb next.offset (r.start + length r.bytes))) [
        | inl h ↦
            let k = next.offset - r.start in
            let fits : k ≤ length r.bytes = omega (arith, ltb→lt _ _ h) in
            let e : length (take k r.bytes) ≡ k = omega (arith, length-take k r.bytes) in
            rw h (
              rw (b.split_to_lem k r.bytes fits) (
                place_lem lo r i (take k r.bytes) (drop k r.bytes) good
                  (gap (length (take k r.bytes)) (omega (arith, ahead)))
                  (take-drop-Splits r.start k r.bytes fits) (omega (arith, ahead))))
        | inr h ↦ rw h (
            place_lem lo r i r.bytes [] good (gap (length r.bytes) (ltb→le _ _ h))
              (whole-Splits r.start r.bytes) p)
      ]

  -- `m` bounds the bytes left where nothing is put in.
  after_previous_lem :
      (lo m : ℕ) (r : Round) (i : ℕ) (o : Option Segment)
      → IsGood lo r
      → ((n : ℕ) → Before (r.start + n) o → IsGap r.segments i r.start n)
      → Before r.start o
      → (length r.bytes < m) ⊎ (Before (suc r.start) o × (length r.bytes ≤ m))
      → 0 < length r.bytes
      → Step lo m r (after_previous b r i o)
  unfolding after_previous
  after_previous_lem lo m r i none good gap at k p =
      let step = place_before_lem lo r i none good gap tt p in
      (step.0, omega (arith, step.1, k), step.2)
  after_previous_lem lo m r i (some next) good gap at (inl k) p =
      elim (Bool-cases (r.start == next.offset)) [
        | inl h ↦ rw h (good, k, λ done d. d)
        | inr h ↦
            let step = place_before_lem lo r i (some next) good gap (ground arith) p in
            rw h (step.0, omega (arith, step.1, k), step.2)
      ]
  after_previous_lem lo m r i (some next) good gap at (inr k) p =
      let step = place_before_lem lo r i (some next) good gap k.0 p in
      let h : (r.start == next.offset) ≡ false = ground (arith, k.0) in
      rw h (step.0, omega (arith, step.1, k.1), step.2)

  -- `cut_lem` with the number of bytes that are cut off.
  cut-take :
      (lo : ℕ) (r : Round) (i : ℕ) (s : Segment) (k : ℕ)
      → IsGood lo r
      → get_elem? r.segments i ≡ some s
      → s.offset ≤ r.start
      → r.start + k ≤ seg_end s
      → k ≤ length r.bytes
      → 0 < k
      → Step lo (length r.bytes) r (record r { start = r.start + k; bytes = drop k r.bytes })
  cut-take lo r i s k good e h fits le p =
      let n : length (take k r.bytes) ≡ k = omega (arith, length-take k r.bytes) in
      subst
        (λ j. Step lo (length r.bytes) r (record r { start = r.start + j; bytes = drop k r.bytes }))
        n
        (cut_lem lo r i s (take k r.bytes) (drop k r.bytes) good e h (omega (arith, n))
          (take-drop-Splits r.start k r.bytes le) (omega (arith, n)))

  on_found_lem :
      (lo : ℕ) (r : Round) (i : ℕ) (s : Segment)
      → IsGood lo r
      → get_elem? r.segments i ≡ some s
      → s.offset ≡ r.start
      → 0 < length s.bytes
      → 0 < length r.bytes
      → Step lo (length r.bytes) r (on_found b r (some s))
  unfolding on_found
  on_found_lem lo r i s good e same full p =
      let k = min (length r.bytes) (length s.bytes) in
      rw (b.advance_lem k r.bytes (omega arith))
        (cut-take lo r i s k good e (omega arith) (omega arith) (omega arith) (omega arith))

  on_missing_lem :
      (lo : ℕ) (r : Round) (i : ℕ) (prev : Segment)
      → IsGood lo r
      → get_elem? r.segments i ≡ some prev
      → Missed r.start r.segments (suc i)
      → prev.offset < r.start
      → 0 < length r.bytes
      → Step lo (length r.bytes) r (on_missing b r (suc i) (some prev))
  unfolding on_missing
  on_missing_lem lo r i prev good e m below p =
      let next = get_elem? r.segments (suc i) in
      let gap : (q n : ℕ)
          → r.start ≤ q
          → seg_end prev ≤ q
          → Before (q + n) next
          → IsGap r.segments (suc i) q n =
        λ q n l. IsGap-behind lo r.segments i r.start q n prev good.0 m l e in
      elim (Bool-cases (leb (r.start + length r.bytes) (seg_end prev))) [
        | inl h ↦ rw h (drop_lem lo r i prev good e (omega arith) (ground arith) p)
        | inr h ↦ elim (Bool-cases (ltb r.start (seg_end prev))) [
          | inl h' ↦
              let k = seg_end prev - r.start in
              let fits : r.start + k ≡ seg_end prev = omega (arith, ltb→lt _ _ h') in
              let le : k < length r.bytes = ground (arith, fits) in
              let cut =
                cut-take lo r i prev k good e (omega arith) (omega (arith, fits))
                  (omega (arith, le)) (omega (arith, ltb→lt _ _ h')) in
              let rest : Round = record r { start = r.start + k; bytes = drop k r.bytes } in
              rw (h, h', b.split_off_lem k r.bytes (omega (arith, le)))
                (Step-trans lo (length r.bytes) (length r.bytes) r rest _ cut (
                  after_previous_lem lo (length r.bytes) rest (suc i) next cut.0
                    (λ n. gap rest.start n (omega arith) (omega (arith, fits)))
                    (subst (λ q. Before q next) (sym fits)
                      (Before-end lo r.segments i prev next good.0 e refl))
                    (inl cut.1) (omega (arith, le, length-drop k r.bytes))))
          | inr h' ↦
              let bound : seg_end prev ≤ r.start = ltb→le _ _ h' in
              let ahead : Before (suc r.start) next =
                Before-next r.segments (suc i) r.start next m refl in
              rw (h, h')
                (after_previous_lem lo (length r.bytes) r (suc i) next good
                  (λ n. gap r.start n (omega arith) bound)
                  (Before-mono r.start (suc r.start) next (omega arith) ahead)
                  (inr (ahead, omega arith)) p)
        ]
      ]

  -- Each round takes a byte at least.
  pub round_lem :
      (lo : ℕ) (r : Round) (found_at : Search)
      → IsGood lo r
      → Located r.segments r.start found_at
      → 0 < length r.bytes
      → Step lo (length r.bytes) r (round b r found_at)
  unfolding round
  round_lem lo r (found i) good (s, e, same) p =
      rw e (on_found_lem lo r i s good e same (IsOrdered-full lo r.segments i s good.0 e) p)
  round_lem lo r (missing zero) good m p =
      place_before_lem lo r 0 (get_elem? r.segments 0) good (λ n. IsGap-front r.segments r.start n)
        (Before-next r.segments 0 r.start _ m refl) p
  round_lem lo r (missing (suc i)) good m p =
      let (prev, e, below) = Missed-previous r.segments i r.start m in
      rw e (on_missing_lem lo r i prev good e m below p)
