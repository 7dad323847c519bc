-- ===== src/SendBuf/Splice.antt =====
-- The lists of states as they are cut and put together again.
use gm_quic.Prelude.{
  ℕ, zero, suc, ◌+◌, ◌≤◌, ◌<◌, ◌≡◌, refl, ap, sym, ◌∙◌, List, [], ◌∷◌, ◌++◌, Option, none, some,
  arith, true, ltb, if◌then◌else◌, Bool-cases, Option-cases, inl, inr, get_elem?, length, take,
  drop,
}
use gm_quic.SendBuf.Map.{Color, State, ◌is◌, same_before, drain, place, finish}
use gm_quic.SendBuf.Colors.{color_at, last_color, is→eq, IsOrdered, IsOrdered-weaken, color_at-same}
use mathlib.Core.Option.{some-injective}
use mathlib.Core.List.{append_assoc}

abbrev pub just : Option State → List State
just none = []
just (some s) = s ∷ []

ltb-suc : (a b : ℕ) → ltb (suc a) (suc b) ≡ ltb a b
ltb-suc a b = ground arith

abbrev cut : List State → ℕ → ℕ → List State
cut states from to = if ltb from to then drain states from to else states

cut-cons :
    (s : State) (states : List State) (from to : ℕ)
    → cut (s ∷ states) (suc from) (suc to) ≡ s ∷ cut states from to
cut-cons s states from to = elim (Bool-cases (ltb from to)) [
  | inl more ↦ rw (ltb-suc from to) (rw more)
  | inr no_more ↦ rw (ltb-suc from to) (rw no_more)
]

place-cons :
    (s : State) (states : List State) (from to : ℕ) (v : State)
    → place (s ∷ states) (suc from) (suc to) v ≡ s ∷ place states from to v
place-cons s states from to v = elim (Bool-cases (ltb from to)) [
  | inl more ↦ rw (ltb-suc from to) (rw more)
  | inr no_more ↦ rw (ltb-suc from to) (rw no_more)
]

finish-cons :
    (s : State) (states : List State) (from to : ℕ) (first last : Option State)
    → finish (s ∷ states) (suc from) (suc to) first last ≡ s ∷ finish states from to first last
unfolding finish
finish-cons s states from to none none = cut-cons s states from to
finish-cons s states from to none (some v) =
    ap (λ t. cut t (suc (suc from)) (suc to)) (place-cons s states from to v)
    ∙ cut-cons s (place states from to v) (suc from) to
finish-cons s states from to (some v) none =
    ap (λ t. cut t (suc (suc from)) (suc to)) (place-cons s states from to v)
    ∙ cut-cons s (place states from to v) (suc from) to
finish-cons s states from to (some v) (some w) =
    ap (λ t. cut (place t (suc (suc from)) (suc to) w) (suc (suc (suc from))) (suc to))
      (place-cons s states from to v)
    ∙ ap (λ t. cut t (suc (suc (suc from))) (suc to))
        (place-cons s (place states from to v) (suc from) to w)
    ∙ cut-cons s (place (place states from to v) (suc from) to w) (suc (suc from)) to

cut-zero : (states : List State) (to : ℕ) → cut states 0 to ≡ drop to states
cut-zero states zero = refl
cut-zero states (suc to) = let e : ltb 0 (suc to) ≡ true = ground arith in rw e

finish-zero :
    (states : List State) (to : ℕ) (first last : Option State)
    → to ≤ length states
    → finish states 0 to first last ≡ just first ++ (just last ++ drop to states)
unfolding finish
finish-zero states to none none h = cut-zero states to
finish-zero states zero (some v) none h = refl
finish-zero states zero none (some v) h = refl
finish-zero states zero (some v) (some w) h = refl
finish-zero [] (suc to) (some v) last h = absurd (omega arith)
finish-zero [] (suc to) none (some v) h = absurd (omega arith)
finish-zero (s ∷ states) (suc to) (some v) none h =
    let e : ltb 0 (suc to) ≡ true = ground arith in
    rw e (cut-cons v states 0 to ∙ ap (λ t. v ∷ t) (cut-zero states to))
finish-zero (s ∷ states) (suc to) none (some v) h =
    let e : ltb 0 (suc to) ≡ true = ground arith in
    rw e (cut-cons v states 0 to ∙ ap (λ t. v ∷ t) (cut-zero states to))
finish-zero (s ∷ states) (suc to) (some v) (some w) h =
    let e : ltb 0 (suc to) ≡ true = ground arith in
    rw e (
      ap (λ t. cut t (suc (suc zero)) (suc to)) (place-cons v states 0 to w)
      ∙ cut-cons v (place states 0 to w) (suc zero) to
      ∙ ap (λ t. v ∷ t) (finish-zero states to none (some w) (omega arith)))

-- What `finish` makes of the states in front of `from` and from `to` on.
pub finish_lem :
    (states : List State) (from to : ℕ) (first last : Option State)
    → from ≤ to
    → to ≤ length states
    → finish states from to first last
      ≡ take from states ++ (just first ++ (just last ++ drop to states))
finish_lem states zero to first last h k = finish-zero states to first last k
finish_lem states (suc from) zero first last h k = absurd (omega arith)
finish_lem [] (suc from) (suc to) first last h k = absurd (omega arith)
finish_lem (s ∷ states) (suc from) (suc to) first last h k =
    finish-cons s states from to first last
    ∙ ap (λ t. s ∷ t) (finish_lem states from to first last (omega arith) (omega arith))

pub take-suc :
    (states : List State) (i : ℕ) (s : State)
    → get_elem? states i ≡ some s
    → take (suc i) states ≡ take i states ++ (s ∷ [])
take-suc [] i s e = absurd (cc)
take-suc (t ∷ states) zero s e = ap (λ u. u ∷ []) (some-injective _ _ e)
take-suc (t ∷ states) (suc i) s e = ap (λ u. t ∷ u) (take-suc states i s e)

pub last_color-append :
    (pre : Color) (front : List State) (s : State) → last_color pre (front ++ (s ∷ [])) ≡ s.color
last_color-append pre [] s = refl
last_color-append pre (t ∷ front) s = last_color-append t.color front s

pub IsOrdered-get :
    (lo hi : ℕ) (states : List State) (i : ℕ) (s : State)
    → IsOrdered lo hi states
    → get_elem? states i ≡ some s
    → (lo ≤ s.offset) × (s.offset < hi)
IsOrdered-get lo hi [] i s o e = absurd (cc)
IsOrdered-get lo hi (t ∷ states) zero s o e =
    ground (arith, ap (λ (u : State). u.offset) (some-injective _ _ e), o.0, o.1)
IsOrdered-get lo hi (t ∷ states) (suc i) s (a, b, o) e =
    let (c, d) = IsOrdered-get (t.offset + 1) hi states i s o e in (omega arith, d)

get-rising :
    (lo hi : ℕ) (states : List State) (i : ℕ) (t s : State)
    → IsOrdered lo hi states
    → get_elem? states i ≡ some t
    → get_elem? states (suc i) ≡ some s
    → t.offset < s.offset
get-rising lo hi [] i t s o e f = absurd (cc)
get-rising lo hi (u ∷ states) zero t s (a, b, o) e f =
    let (c, d) = IsOrdered-get (u.offset + 1) hi states 0 s o f in
    omega (arith, ap (λ (v : State). v.offset) (some-injective _ _ e), c)
get-rising lo hi (u ∷ states) (suc i) t s (a, b, o) e f =
    get-rising (u.offset + 1) hi states i t s o e f

get-before :
    (states : List State) (i : ℕ) (s : State)
    → get_elem? states (suc i) ≡ some s
    → (t : State) × (get_elem? states i ≡ some t)
get-before [] i s e = absurd (cc)
get-before (t ∷ states) zero s e = (t, refl)
get-before (t ∷ states) (suc i) s e = get-before states i s e

-- With the state at `index` in the color, the run of this color that ends there says what its first
-- state says.
pub same_before_lem :
    (hi : ℕ) (states : List State) (index : ℕ) (s : State) (c pre : Color) (rest : List State)
    (x : ℕ)
    → IsOrdered 0 hi states
    → IsOrdered s.offset hi rest
    → get_elem? states index ≡ some s
    → s.color ≡ c
    → color_at pre (take (suc (same_before states index c)) states ++ rest) x
      ≡ color_at pre (take (suc index) states ++ rest) x
unfolding same_before
same_before_lem hi states zero s c pre rest x o r e h = refl
same_before_lem hi states (suc i) s c pre rest x o r e h =
    let (t, f) = get-before states i s e in
    let lt = get-rising 0 hi states i t s o f e in
    elim (Bool-cases (t.color is c)) [
      | inr other ↦ rw (f, same_before) (rw other)
      | inl same ↦
          let ih =
            same_before_lem hi states i t c pre rest x o
              (IsOrdered-weaken s.offset t.offset hi hi rest r (omega arith) (omega arith)) f
              (is→eq t.color c same) in
          let last : s.color ≡ last_color pre (take (suc i) states) =
            h
            ∙ sym (is→eq t.color c same)
            ∙ sym (
                ap (last_color pre) (take-suc states i t f)
                ∙ last_color-append pre (take i states) t) in
          let whole =
            ap (λ u. color_at pre (u ++ rest) x) (take-suc states (suc i) s e)
            ∙ ap (λ u. color_at pre u x) (append_assoc (take (suc i) states) (s ∷ []) rest) in
          rw (f, same_before)
            (rw same
              (ih ∙ sym (whole ∙ color_at-same 0 hi pre (take (suc i) states) rest s x last r)))
    ]

pub same_before-le :
    (states : List State) (index : ℕ) (c : Color) → same_before states index c ≤ index
unfolding same_before
same_before-le states zero c = omega arith
same_before-le states (suc i) c = elim (Option-cases (get_elem? states i)) [
  | inl e ↦ rw (e, same_before) (omega arith)
  | inr (t, e) ↦ rw (e, same_before) (ground (arith, same_before-le states i c))
]
