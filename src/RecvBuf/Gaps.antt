-- ===== src/RecvBuf/Gaps.antt =====
-- What the search for an offset finds among the segments, and the gap that it leaves.
use gm_quic.Prelude.{
  ℕ, zero, suc, ◌+◌, ◌≤◌, ◌<◌, ◌≡◌, refl, List, [], ◌∷◌, Option, none, some, arith, ltb, ◌==◌,
  get_elem?, Bool-cases, ltb→lt, ==→eq, inl, inr,
}
use gm_quic.RecvBuf.{Segment, seg_end, Search, found, missing, search_from, bump}
use gm_quic.RecvBuf.Segments.{IsOrdered, IsGap}

-- `i` is where a segment at `start` would stand.
abbrev pub Missed : ℕ → List Segment → ℕ → Type 0
Missed start [] zero = Unit {0}
Missed start (s ∷ rest) zero = start < s.offset
Missed start [] (suc i) = ⊥
Missed start (s ∷ rest) (suc i) = (s.offset < start) × Missed start rest i

abbrev pub Located : List Segment → ℕ → Search → Type 0
Located segs start (found i) = (s : Segment) × (get_elem? segs i ≡ some s) × (s.offset ≡ start)
Located segs start (missing i) = Missed start segs i

bump-Located :
    (s : Segment) (rest : List Segment) (start : ℕ) (r : Search)
    → s.offset < start
    → Located rest start r
    → Located (s ∷ rest) start (bump r)
bump-Located s rest start (found i) h l = l
bump-Located s rest start (missing i) h l = (h, l)

-- The search finds the segment that starts there, or where one would stand.
pub search_from_lem :
    (segs : List Segment) (start : ℕ) → Located segs start (search_from segs start)
unfolding search_from
search_from_lem [] start = tt
search_from_lem (s ∷ rest) start = elim (Bool-cases (s.offset == start)) [
  | inl e ↦ rw e (s, refl, ==→eq s.offset start e)
  | inr ne ↦ rw ne (elim (Bool-cases (ltb start s.offset)) [
    | inl h ↦ rw h (ltb→lt _ _ h)
    | inr h ↦
        let below : s.offset < start = ground arith in
        rw h (bump-Located s rest start (search_from rest start) below (search_from_lem rest start))
  ])
]

abbrev pub Before : ℕ → Option Segment → Type 0
Before p none = Unit {0}
Before p (some s) = p ≤ s.offset

pub IsGap-front :
    (segs : List Segment) (p n : ℕ) → Before (p + n) (get_elem? segs 0) → IsGap segs 0 p n
IsGap-front [] p n h = tt
IsGap-front (s ∷ rest) p n h = h

pub IsGap-behind :
    (lo : ℕ) (segs : List Segment) (i start p n : ℕ) (prev : Segment)
    → IsOrdered lo segs
    → Missed start segs (suc i)
    → start ≤ p
    → get_elem? segs i ≡ some prev
    → seg_end prev ≤ p
    → Before (p + n) (get_elem? segs (suc i))
    → IsGap segs (suc i) p n
IsGap-behind lo [] i start p n prev h m l e a b = absurd m
IsGap-behind lo (s ∷ rest) zero start p n prev h m l e a b = (ground arith, IsGap-front rest p n b)
IsGap-behind lo (s ∷ []) (suc i) start p n prev h m l e a b = absurd m.1
IsGap-behind lo (s ∷ t ∷ rest) (suc i) start p n prev h m l e a b = (
  omega (arith, h.2.0, m.1.0),
  IsGap-behind (seg_end s) (t ∷ rest) i start p n prev h.2 m.1 l e a b,
)

-- The segment in front of the place.
pub Missed-previous :
    (segs : List Segment) (i start : ℕ)
    → Missed start segs (suc i)
    → (s : Segment) × (get_elem? segs i ≡ some s) × (s.offset < start)
Missed-previous [] i start m = absurd m
Missed-previous (s ∷ rest) zero start m = (s, refl, m.0)
Missed-previous (s ∷ rest) (suc i) start m = Missed-previous rest i start m.1

pub Missed-next :
    (segs : List Segment) (i start : ℕ) (t : Segment)
    → Missed start segs i
    → get_elem? segs i ≡ some t
    → start < t.offset
Missed-next [] zero start t m e = cc
Missed-next [] (suc i) start t m e = absurd m
Missed-next (s ∷ rest) zero start t m e = ground arith
Missed-next (s ∷ rest) (suc i) start t m e = Missed-next rest i start t m.1 e

pub IsOrdered-next :
    (lo : ℕ) (segs : List Segment) (i : ℕ) (s t : Segment)
    → IsOrdered lo segs
    → get_elem? segs i ≡ some s
    → get_elem? segs (suc i) ≡ some t
    → seg_end s ≤ t.offset
IsOrdered-next lo [] i s t h e k = cc
IsOrdered-next lo (u ∷ []) i s t h e k = cc
IsOrdered-next lo (u ∷ v ∷ rest) zero s t h e k = ground (arith, h.2.0)
IsOrdered-next lo (u ∷ v ∷ rest) (suc i) s t h e k =
    IsOrdered-next (seg_end u) (v ∷ rest) i s t h.2 e k
