-- ===== src/RecvBuf/Available.antt =====
-- What is available for reading: the bytes that are held without a gap.
use gm_quic.Prelude.{
  false, none, some, refl, subst, ==→eq, ltb, ◌<◌, ℕ, ◌+◌, ◌-◌, ◌≤◌, ◌≡◌, List, [], ◌∷◌, arith,
  ◌==◌, length, Bool-cases, ltb→le, inl, inr, ◌≢◌,
}
use gm_quic.RecvBuf.{RecvBuf, Segment, is_readable, continuous_end, available}
use gm_quic.RecvBuf.Segments.{
  IsOrdered, EndsBy, fragment_at, byte_at, byte_at-before, byte_at-segment, fragment-after,
  or_else_held,
}
use gm_quic.RecvBuf.Recv.{IsValid}

pub continuous_end-here :
    (nread : ℕ) (seg : Segment) (rest : List Segment)
    → seg.offset ≡ nread
    → continuous_end nread (seg ∷ rest) ≡ continuous_end (nread + length seg.bytes) rest
unfolding continuous_end
continuous_end-here nread seg rest h = ground arith

pub continuous_end-gap :
    (nread : ℕ) (seg : Segment) (rest : List Segment)
    → seg.offset ≢ nread
    → continuous_end nread (seg ∷ rest) ≡ nread
unfolding continuous_end
continuous_end-gap nread seg rest h = ground arith

pub continuous_end-ge : (nread : ℕ) (segs : List Segment) → nread ≤ continuous_end nread segs
unfolding continuous_end
continuous_end-ge nread [] = omega arith
continuous_end-ge nread (seg ∷ rest) =
    ground (arith, continuous_end-ge (nread + length seg.bytes) rest)

pub continuous_end-le :
    (hi nread : ℕ) (segs : List Segment)
    → EndsBy hi segs
    → nread ≤ hi
    → continuous_end nread segs ≤ hi
unfolding continuous_end
continuous_end-le hi nread [] k h = h
continuous_end-le hi nread (seg ∷ rest) k h = elim (Bool-cases (seg.offset == nread)) [
  | inl here ↦
      rw here (continuous_end-le hi (nread + length seg.bytes) rest k.1 (ground (arith, k.0)))
  | inr gap ↦ rw gap h
]

pub here-IsOrdered :
    (nread : ℕ) (seg : Segment) (rest : List Segment)
    → IsOrdered nread (seg ∷ rest)
    → seg.offset ≡ nread
    → IsOrdered (nread + length seg.bytes) rest
here-IsOrdered nread seg rest h here = subst (λ o. IsOrdered (o + length seg.bytes) rest) here h.2

continuous_end-held :
    (nread : ℕ) (segs : List Segment) (x : ℕ)
    → IsOrdered nread segs
    → nread ≤ x
    → x < continuous_end nread segs
    → (v : ℕ) × (byte_at segs x ≡ some v)
unfolding continuous_end
continuous_end-held nread [] x h l k = absurd (omega arith)
continuous_end-held nread (seg ∷ rest) x h l k = elim (Bool-cases (seg.offset == nread)) [
  | inl here ↦ elim (Bool-cases (ltb x (nread + length seg.bytes))) [
    | inl inside ↦ byte_at-segment (seg ∷ rest) 0 seg x refl (ground arith) (ground arith)
    | inr after ↦ or_else_held (fragment_at seg.offset seg.bytes x) (
        continuous_end-held (nread + length seg.bytes) rest x
          (here-IsOrdered nread seg rest h (==→eq _ _ here)) (ltb→le _ _ after) (ground arith))
  ]
  | inr gap ↦ absurd (ground arith)
]

continuous_end-gone :
    (nread : ℕ) (segs : List Segment)
    → IsOrdered nread segs
    → byte_at segs (continuous_end nread segs) ≡ none
unfolding continuous_end
continuous_end-gone nread [] h = refl
continuous_end-gone nread (seg ∷ rest) h = elim (Bool-cases (seg.offset == nread)) [
  | inl here ↦
      let ge = continuous_end-ge (nread + length seg.bytes) rest in
      rw here (
        rw
          (fragment-after seg.offset seg.bytes (continuous_end (nread + length seg.bytes) rest)
            (ground (arith, ge)))
          (continuous_end-gone (nread + length seg.bytes) rest
            (here-IsOrdered nread seg rest h (==→eq _ _ here))))
  | inr gap ↦
      rw gap
        (byte_at-before seg.offset (seg ∷ rest) nread (omega arith, h.1, h.2) (ground (arith, h.0)))
]

readable_segments :
    (nread : ℕ) (segs : List Segment)
    → IsOrdered nread segs
    → elim segs [ [] ↦ false | seg ∷ _ ↦ seg.offset == nread ]
      ≡ ltb 0 (continuous_end nread segs - nread)
unfolding continuous_end
readable_segments nread [] h = ground arith
readable_segments nread (seg ∷ rest) h =
    ground (arith, h.1, continuous_end-ge (nread + length seg.bytes) rest)

readable : (r : RecvBuf) → IsValid r → is_readable r ≡ ltb 0 (available r)
unfolding is_readable available
readable r valid = readable_segments r.nread r.segments valid.0

-- `available` counts the bytes that are held without a gap behind what has been read: for a buffer
-- in order each of them is held, the next one is not, and `is_readable` says whether there is one.
pub available_lem :
    (r : RecvBuf)
    → IsValid r
    → ((x : ℕ)
        → r.nread ≤ x
        → x < r.nread + available r
        → (v : ℕ) × (byte_at r.segments x ≡ some v))
      × (byte_at r.segments (r.nread + available r) ≡ none)
      × (is_readable r ≡ ltb 0 (available r))
unfolding available
available_lem r valid =
    let ge = continuous_end-ge r.nread r.segments in
    let e : r.nread + (continuous_end r.nread r.segments - r.nread)
        ≡ continuous_end r.nread r.segments =
      omega (arith, ge) in
    (
      λ x h k. continuous_end-held r.nread r.segments x valid.0 h (omega (arith, e, k)),
      rw e (continuous_end-gone r.nread r.segments valid.0),
      readable r valid,
    )

-- What can be read has arrived.
pub available-le : (r : RecvBuf) → IsValid r → r.nread + available r ≤ r.largest_offset
unfolding available
available-le r (ordered, ends, bounded) = omega (
  arith,
  continuous_end-le r.largest_offset r.nread r.segments ends bounded,
  continuous_end-ge r.nread r.segments,
)
