-- ===== src/RecvBuf/Steps.antt =====
-- One step of the loop of `recv`: what the cuts that each branch makes do to the bytes that are held.
use gm_quic.Prelude.{
  ℕ, zero, suc, ◌+◌, ◌≤◌, ◌<◌, ◌≡◌, ap, sym, ◌∙◌, List, [], ◌∷◌, Option, none, some, arith, true,
  ltb, ◌==◌, length, get_elem?, if◌then◌else◌, Bool-cases, ltb→lt, ltb→le, inl, inr, ◌⊎◌, max,
}
use gm_quic.RecvBuf.{Segment, seg_end, Round}
use gm_quic.RecvBuf.Segments.{
  IsOrdered, EndsBy, fragment_at, or_else, byte_at, fragment-before, fragment-after,
  byte_at-segment, Splits, whole-Splits, fragment-nil,
}
use gm_quic.RecvBuf.Gaps.{Missed, Before, Missed-next, IsOrdered-next}

-- The segments are in order from `lo` on and end by `largest`, and the data starts at `lo` or later.
abbrev pub IsGood : ℕ → Round → Type 0
IsGood lo r = IsOrdered lo r.segments × EndsBy r.largest r.segments × (lo ≤ r.start)

-- The largest offset after `n` bytes at `start`.
abbrev pub grown : ℕ → ℕ → ℕ → ℕ
grown largest start n = if n == 0 then largest else max largest (start + n)

-- `done` holds what `r` holds and the data of `r`, and has its largest offset.
abbrev pub IsDone : Round → Round → Type 0
IsDone r done =
    ((x : ℕ)
      → byte_at done.segments x ≡ or_else (byte_at r.segments x) (fragment_at r.start r.bytes x))
    × (done.largest ≡ grown r.largest r.start (length r.bytes))

-- From `r` to `r'`, with fewer than `m` bytes left to do.
abbrev pub Step : ℕ → ℕ → Round → Round → Type 0
Step lo m r r' =
    IsGood lo r' × (length r'.bytes < m) × ((done : Round) → IsDone r' done → IsDone r done)

pub Step-trans : (lo m m' : ℕ) (a b c : Round) → Step lo m a b → Step lo m' b c → Step lo m' a c
Step-trans lo m m' a b c s t = (t.0, t.1, λ done h. s.2 done (t.2 done h))

EndsBy-get :
    (hi : ℕ) (segs : List Segment) (i : ℕ) (s : Segment)
    → EndsBy hi segs
    → get_elem? segs i ≡ some s
    → seg_end s ≤ hi
EndsBy-get hi [] i s h e = cc
EndsBy-get hi (t ∷ rest) zero s h e = ground (arith, h.0)
EndsBy-get hi (t ∷ rest) (suc i) s h e = EndsBy-get hi rest i s h.1 e

covered-front :
    (o f g w : Option ℕ)
    → w ≡ or_else f g
    → (f ≡ none) ⊎ ((v : ℕ) × (o ≡ some v))
    → or_else o g ≡ or_else o w
covered-front o f g w e (inl n) = cc
covered-front o f g w e (inr (v, k)) = cc

-- Data that a segment holds already is cut off.
pub cut_lem :
    (lo : ℕ) (r : Round) (i : ℕ) (s : Segment) (front back : List ℕ)
    → IsGood lo r
    → get_elem? r.segments i ≡ some s
    → s.offset ≤ r.start
    → r.start + length front ≤ seg_end s
    → Splits r.start r.bytes front back
    → 0 < length front
    → Step lo (length r.bytes) r (record r { start = r.start + length front; bytes = back })
cut_lem lo r i s front back good e h k split p = (
  (good.0, good.1, omega (arith, good.2)),
  omega (arith, split.0),
  λ done d. (
    λ x.
        d.0 x
        ∙ covered-front (byte_at r.segments x) _ _ _ (split.1 x)
            (elim (Bool-cases (ltb x r.start)) [
              | inl below ↦ inl (fragment-before r.start front x (ltb→lt _ _ below))
              | inr above ↦ elim (Bool-cases (ltb x (r.start + length front))) [
                | inl inside ↦ inr (
                    byte_at-segment r.segments i s x e (omega (arith, ltb→le _ _ above))
                      (omega (arith, ltb→lt _ _ inside)))
                | inr after ↦ inl (fragment-after r.start front x (ltb→le _ _ after))
              ]
            ]),
    ground (arith, d.1, split.0, EndsBy-get r.largest r.segments i s good.1 e),
  ),
)

-- Data that a segment holds whole is dropped.
pub drop_lem :
    (lo : ℕ) (r : Round) (i : ℕ) (s : Segment)
    → IsGood lo r
    → get_elem? r.segments i ≡ some s
    → s.offset ≤ r.start
    → r.start + length r.bytes ≤ seg_end s
    → 0 < length r.bytes
    → Step lo (length r.bytes) r (record r { bytes = [] })
drop_lem lo r i s good e h k p =
    let (cut_good, _, cut_done) =
      cut_lem lo r i s r.bytes [] good e h k (whole-Splits r.start r.bytes) p in
    (
      good,
      p,
      λ done d. cut_done done (
        λ x.
            d.0 x
            ∙ ap (or_else (byte_at r.segments x))
                (fragment-nil r.start x ∙ sym (fragment-nil (r.start + length r.bytes) x)),
        ground (arith, d.1, EndsBy-get r.largest r.segments i s good.1 e),
      ),
    )

pub Before-end :
    (lo : ℕ) (segs : List Segment) (i : ℕ) (prev : Segment) (o : Option Segment)
    → IsOrdered lo segs
    → get_elem? segs i ≡ some prev
    → get_elem? segs (suc i) ≡ o
    → Before (seg_end prev) o
Before-end lo segs i prev none h e k = tt
Before-end lo segs i prev (some next) h e k = IsOrdered-next lo segs i prev next h e k

pub Before-next :
    (segs : List Segment) (i start : ℕ) (o : Option Segment)
    → Missed start segs i
    → get_elem? segs i ≡ o
    → Before (suc start) o
Before-next segs i start none m e = tt
Before-next segs i start (some next) m e = Missed-next segs i start next m e

pub Before-mono : (p q : ℕ) (o : Option Segment) → p ≤ q → Before q o → Before p o
Before-mono p q none h k = tt
Before-mono p q (some s) h k = omega arith

pub fragment-none :
    (start : ℕ) (bytes : List ℕ) (x : ℕ)
    → (length bytes == 0) ≡ true
    → fragment_at start bytes x ≡ none
fragment-none start [] x h = fragment-nil start x
fragment-none start (v ∷ bytes) x h = ground arith
