-- ===== src/Ack/Ranges.antt =====
-- The ranges of packet numbers that an ACK frame stands for.
use gm_quic.Prelude.{
  ℕ, ◌+◌, ◌-◌, ◌≤◌, ◌≡◌, refl, ap, sym, subst, List, [], ◌∷◌, Option, none, some, arith, leb, ◌>>=◌,
  leb→le, true, Bool-cases, inl, inr,
}
use mathlib.Core.Option.{some-injective}
use gm_quic.Ack.{AckFrame, EcnCounts, Range, scan, iter}

-- Ranges that go down from below `left`, each apart from the one above it.
abbrev pub IsBelow : ℕ → List Range → Type 0
IsBelow left [] = Unit {0}
IsBelow left (r ∷ rs) = (r.last + 2 ≤ left) × (r.first ≤ r.last) × IsBelow r.first rs

-- What a frame says of such ranges.
abbrev pub gaps : ℕ → List Range → List (ℕ × ℕ)
gaps left [] = []
gaps left (r ∷ rs) = (left - r.last - 2, r.last - r.first) ∷ gaps r.first rs

-- The frame with the ranges `top` and, below it, `rs`.
abbrev pub frame_of : Range → List Range → ℕ → Option EcnCounts → AckFrame
frame_of top rs delay ecn = record {
  largest = top.last;
  delay = delay;
  first_range = top.last - top.first;
  ranges = gaps top.first rs;
  ecn = ecn;
}

scan-gaps : (left : ℕ) (rs : List Range) → IsBelow left rs → scan left (gaps left rs) ≡ some rs
unfolding scan
scan-gaps left [] below = refl
scan-gaps left (r ∷ rs) (apart, order, below) =
    let right : left - (left - r.last - 2) - 2 ≡ r.last = omega arith in
    let first : r.last - (r.last - r.first) ≡ r.first = omega arith in
    let fits : leb (left - r.last - 2 + 2) left ≡ true = ground arith in
    let fits' : leb (r.last - r.first) r.last ≡ true = ground arith in
    rw (fits, right, fits', first) (rw (scan-gaps r.first rs below))

-- Ranges that lie apart from each other, the largest first, are just the ones that the frame with
-- their gaps and lengths yields.
pub iter-frame_of :
    (top : Range) (rs : List Range) (delay : ℕ) (ecn : Option EcnCounts)
    → top.first ≤ top.last
    → IsBelow top.first rs
    → iter (frame_of top rs delay ecn) ≡ some (top ∷ rs)
unfolding iter
iter-frame_of top rs delay ecn order below =
    let first : top.last - (top.last - top.first) ≡ top.first = omega arith in
    let fits : leb (top.last - top.first) top.last ≡ true = ground arith in
    rw (fits, first) (rw (scan-gaps top.first rs below))

scan-IsBelow :
    (left : ℕ) (pairs : List (ℕ × ℕ)) (rs : List Range)
    → scan left pairs ≡ some rs
    → IsBelow left rs × (gaps left rs ≡ pairs)
unfolding scan
scan-IsBelow left [] rs e =
    subst (λ l. IsBelow left l × (gaps left l ≡ [])) (some-injective _ _ e) (tt, refl)
scan-IsBelow left ((gap, range) ∷ pairs) rs e = elim (Bool-cases (leb (gap + 2) left)) [
  | inr low ↦ absurd (let h = rw low at e in cc)
  | inl high ↦ elim (Bool-cases (leb range (left - gap - 2))) [
    | inr short ↦ absurd (let h = rw short at (rw high at e) in cc)
    | inl long ↦
        go (scan (left - gap - 2 - range) pairs) refl (rw long at (rw high at e))
          (λ t. scan-IsBelow (left - gap - 2 - range) pairs t) (leb→le (gap + 2) left high)
          (leb→le range (left - gap - 2) long)
  ]
]
  where
    go :
        (o : Option (List Range))
        → scan (left - gap - 2 - range) pairs ≡ o
        → (o >>= λ t. some (record { first = left - gap - 2 - range; last = left - gap - 2 } ∷ t))
          ≡ some rs
        → ((t : List Range)
            → scan (left - gap - 2 - range) pairs ≡ some t
            → IsBelow (left - gap - 2 - range) t × (gaps (left - gap - 2 - range) t ≡ pairs))
        → gap + 2 ≤ left
        → range ≤ left - gap - 2
        → IsBelow left rs × (gaps left rs ≡ (gap, range) ∷ pairs)
    go none a h later fits fits' = absurd (cc)
    go (some t) a h later fits fits' =
        let (below, same) = later t a in
        let g : left - (left - gap - 2) - 2 ≡ gap = omega arith in
        let n : left - gap - 2 - (left - gap - 2 - range) ≡ range = omega arith in
        subst (λ l. IsBelow left l × (gaps left l ≡ (gap, range) ∷ pairs)) (some-injective _ _ h)
          ((omega arith, omega arith, below), rw (g, n) (ap (λ ps. (gap, range) ∷ ps) same))

-- If `iter` yields ranges, of any frame at all, then the first ends at the largest number; they go
-- down and lie apart from each other, with at least one number between two of them; and their gaps
-- and lengths are those of the frame.
pub iter-IsBelow :
    (f : AckFrame) (rs : List Range)
    → iter f ≡ some rs
    → (top : Range) × (below : List Range) × (rs ≡ top ∷ below)
      × (top.last ≡ f.largest)
      × (top.first ≤ top.last)
      × IsBelow top.first below
      × (gaps top.first below ≡ f.ranges)
      × (top.last - top.first ≡ f.first_range)
unfolding iter
iter-IsBelow f rs e = elim (Bool-cases (leb f.first_range f.largest)) [
  | inr short ↦ absurd (let h = rw short at e in cc)
  | inl long ↦
      go (scan (f.largest - f.first_range) f.ranges) refl (rw long at e)
        (leb→le f.first_range f.largest long)
]
  where
    go :
        (o : Option (List Range))
        → scan (f.largest - f.first_range) f.ranges ≡ o
        → (o >>= λ t. some (record { first = f.largest - f.first_range; last = f.largest } ∷ t))
          ≡ some rs
        → f.first_range ≤ f.largest
        → (top : Range) × (below : List Range) × (rs ≡ top ∷ below)
          × (top.last ≡ f.largest)
          × (top.first ≤ top.last)
          × IsBelow top.first below
          × (gaps top.first below ≡ f.ranges)
          × (top.last - top.first ≡ f.first_range)
    go none a h fits = absurd (cc)
    go (some t) a h fits =
        let (below, same) = scan-IsBelow (f.largest - f.first_range) f.ranges t a in
        (
          record { first = f.largest - f.first_range; last = f.largest },
          t,
          sym (some-injective _ _ h),
          refl,
          omega arith,
          below,
          same,
          omega arith,
        )
