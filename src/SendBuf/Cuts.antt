-- ===== src/SendBuf/Cuts.antt =====
-- Where a range cuts into the states: the search for its start, and what stands in front of it.
use gm_quic.Prelude.{
  ℕ, zero, suc, ◌+◌, ◌≤◌, ◌<◌, ◌≡◌, refl, ap, sym, subst, ◌∙◌, List, [], ◌∷◌, ◌++◌, Option, some,
  arith, ltb, ◌==◌, if◌then◌else◌, Bool-cases, inl, inr, ltb→lt, ltb→le, ==→eq, get_elem?, length,
  take, drop,
}
use mathlib.Core.Option.{some-injective}
use mathlib.Core.List.{append_assoc}
use gm_quic.RecvBuf.{Search, found, missing}
use gm_quic.SendBuf.Map.{Color, recved, State, set_color, color_state, same_before, search, bump}
use gm_quic.SendBuf.Colors.{
  color_at, last_color, IsOrdered, IsOrdered-weaken, color_at-front, color_at-behind,
}
use gm_quic.SendBuf.Splice.{just, same_before_lem, IsOrdered-get}

-- What the search for `start` finds.
abbrev pub Finds : ℕ → ℕ → List State → ℕ → Search → Type 0
Finds lo hi states start (found i) =
    (s : State) × (get_elem? states i ≡ some s)
    × (s.offset ≡ start)
    × IsOrdered lo start (take i states)
    × IsOrdered (start + 1) hi (drop (suc i) states)
Finds lo hi states start (missing i) =
    (i ≤ length states)
    × IsOrdered lo start (take i states)
    × IsOrdered (start + 1) hi (drop i states)

Finds-bump :
    (lo hi : ℕ) (s : State) (states : List State) (start : ℕ) (r : Search)
    → lo ≤ s.offset
    → s.offset < start
    → Finds (s.offset + 1) hi states start r
    → Finds lo hi (s ∷ states) start (bump r)
Finds-bump lo hi s states start (found i) a b (t, e, f, front, rest) =
    (t, e, f, (a, b, front), rest)
Finds-bump lo hi s states start (missing i) a b (le, front, rest) =
    (omega arith, (a, b, front), rest)

pub search-Finds :
    (lo hi : ℕ) (states : List State) (start : ℕ)
    → IsOrdered lo hi states
    → Finds lo hi states start (search states start)
unfolding search
search-Finds lo hi [] start o = (omega arith, tt, tt)
search-Finds lo hi (s ∷ states) start (a, b, o) = elim (Bool-cases (s.offset == start)) [
  | inl same ↦
      let e = ==→eq s.offset start same in
      rw same (
        s,
        refl,
        e,
        tt,
        IsOrdered-weaken (s.offset + 1) (start + 1) hi hi states o (omega arith) (omega arith),
      )
  | inr other ↦ elim (Bool-cases (ltb start s.offset)) [
    | inl before ↦
        let lt = ltb→lt start s.offset before in
        rw other (rw before (omega arith, tt, (omega arith, b, o)))
    | inr behind ↦ rw other (
        rw behind (
          Finds-bump lo hi s states start (search states start) a (ground (arith, other, behind))
            (search-Finds (s.offset + 1) hi states start o)))
  ]
]

pub split-get :
    (states : List State) (i : ℕ) (s : State)
    → get_elem? states i ≡ some s
    → take i states ++ (s ∷ drop (suc i) states) ≡ states
split-get [] i s e = absurd (cc)
split-get (t ∷ states) zero s e = ap (λ u. u ∷ states) (sym (some-injective _ _ e))
split-get (t ∷ states) (suc i) s e = ap (λ u. t ∷ u) (split-get states i s e)

pub take-color_state :
    (states : List State) (i : ℕ) (s : State) (c : Color)
    → get_elem? states i ≡ some s
    → take (suc i) (color_state states i c) ≡ take i states ++ (set_color s c ∷ [])
take-color_state [] i s c e = absurd (cc)
take-color_state (t ∷ states) zero s c e = ap (λ u. set_color u c ∷ []) (some-injective _ _ e)
take-color_state (t ∷ states) (suc i) s c e = ap (λ u. t ∷ u) (take-color_state states i s c e)

pub drop-color_state :
    (states : List State) (i : ℕ) (c : Color)
    → drop (suc i) (color_state states i c) ≡ drop (suc i) states
drop-color_state [] i c = refl
drop-color_state (t ∷ states) zero c = refl
drop-color_state (t ∷ states) (suc i) c = drop-color_state states i c

pub get-color_state :
    (states : List State) (i : ℕ) (s : State) (c : Color)
    → get_elem? states i ≡ some s
    → get_elem? (color_state states i c) i ≡ some (set_color s c)
get-color_state [] i s c e = absurd (cc)
get-color_state (t ∷ states) zero s c e = ap (λ u. some (set_color u c)) (some-injective _ _ e)
get-color_state (t ∷ states) (suc i) s c e = get-color_state states i s c e

pub length-color_state :
    (states : List State) (i : ℕ) (c : Color) → length (color_state states i c) ≡ length states
length-color_state [] i c = refl
length-color_state (t ∷ states) zero c = refl
length-color_state (t ∷ states) (suc i) c = ap suc (length-color_state states i c)

pub IsOrdered-color_state :
    (lo hi : ℕ) (states : List State) (i : ℕ) (c : Color)
    → IsOrdered lo hi states
    → IsOrdered lo hi (color_state states i c)
IsOrdered-color_state lo hi [] i c o = tt
IsOrdered-color_state lo hi (t ∷ states) zero c o = o
IsOrdered-color_state lo hi (t ∷ states) (suc i) c (a, b, o) =
    (a, b, IsOrdered-color_state (t.offset + 1) hi states i c o)

pub IsOrdered-take :
    (lo hi n : ℕ) (states : List State) → IsOrdered lo hi states → IsOrdered lo hi (take n states)
IsOrdered-take lo hi zero states o = tt
IsOrdered-take lo hi (suc n) [] o = tt
IsOrdered-take lo hi (suc n) (s ∷ rest) (a, b, o) =
    (a, b, IsOrdered-take (s.offset + 1) hi n rest o)

-- States `front` and then one of the color `c` at `start`: they say of the bytes before `start` what
-- `front` says, and pass the color on to the states behind.
abbrev pub IsFront : ℕ → ℕ → Color → List State → List State → Type 0
IsFront hi start c front states =
    (rest : List State) (x : ℕ)
    → IsOrdered (start + 1) hi rest
    → color_at recved (front ++ rest) x
      ≡ (if ltb x start then color_at recved states x else color_at c rest x)

-- In front of `start` the states say what all of them say.
front_color :
    (hi start : ℕ) (front rest : List State) (x : ℕ)
    → IsOrdered start hi rest
    → x < start
    → color_at recved (front ++ rest) x ≡ color_at recved front x
front_color hi start front rest x o h = color_at-front 0 start hi recved front rest x o h

pub one-IsFront :
    (hi start : ℕ) (c : Color) (front rest' : List State)
    → IsOrdered 0 start front
    → IsOrdered start hi rest'
    → start < hi
    → IsFront hi start c (front ++ (record { offset = start; color = c } ∷ [])) (front ++ rest')
one-IsFront hi start c front rest' o o' h rest x r =
    let at : State = record { offset = start; color = c } in
    let r' : IsOrdered start hi (at ∷ rest) = (omega arith, h, r) in
    ap (λ u. color_at recved u x) (append_assoc front (at ∷ []) rest)
    ∙ (elim (Bool-cases (ltb x start)) [
      | inl before ↦
          let lt = ltb→lt x start before in
          rw before (
            front_color hi start front (at ∷ rest) x r' lt
            ∙ sym (front_color hi start front rest' x o' lt))
      | inr behind ↦
          let le = ltb→le x start behind in
          rw behind (color_at-behind 0 start recved front (at ∷ rest) x o (omega arith) ∙ rw behind)
    ])

pub same-IsFront :
    (hi start : ℕ) (c : Color) (front rest' : List State)
    → IsOrdered 0 start front
    → IsOrdered start hi rest'
    → last_color recved front ≡ c
    → IsFront hi start c front (front ++ rest')
same-IsFront hi start c front rest' o o' same rest x r =
    let r' = IsOrdered-weaken (start + 1) start hi hi rest r (omega arith) (omega arith) in
    elim (Bool-cases (ltb x start)) [
      | inl before ↦
          let lt = ltb→lt x start before in
          rw before (
            front_color hi start front rest x r' lt
            ∙ sym (front_color hi start front rest' x o' lt))
      | inr behind ↦
          let le = ltb→le x start behind in
          rw behind (
            color_at-behind 0 start recved front rest x o (omega arith)
            ∙ ap (λ d. color_at d rest x) same)
    ]

-- The state at `i`, which starts at `start`, in the color `c`, and the run of this color before it.
pub run-IsFront :
    (hi start : ℕ) (c : Color) (states : List State) (i : ℕ) (s : State)
    → IsOrdered 0 hi states
    → get_elem? states i ≡ some s
    → s.offset ≡ start
    → IsOrdered 0 start (take i states)
    → IsOrdered (start + 1) hi (drop (suc i) states)
    → (let states' = color_state states i c in
        IsFront hi start c (take (suc (same_before states' i c)) states') states)
run-IsFront hi start c states i s o e at front back rest x r =
    let states' = color_state states i c in
    let mid : State = record { offset = start; color = c } in
    let low = IsOrdered-get 0 hi states i s o e in
    let here : IsOrdered start hi (s ∷ drop (suc i) states) = (
      omega (arith, at),
      low.1,
      subst (λ n. IsOrdered (n + 1) hi (drop (suc i) states)) (sym at) back,
    ) in
    let here' : set_color s c ≡ mid = ap (λ n. record { offset = n; color = c }) at in
    same_before_lem hi states' i (set_color s c) c recved rest x
      (IsOrdered-color_state 0 hi states i c o)
      (subst (λ n. IsOrdered n hi rest) (sym at)
        (IsOrdered-weaken (start + 1) start hi hi rest r (omega arith) (omega arith)))
      (get-color_state states i s c e) refl
    ∙ ap (λ u. color_at recved (u ++ rest) x)
        (take-color_state states i s c e ∙ ap (λ u. take i states ++ (u ∷ [])) here')
    ∙ one-IsFront hi start c (take i states) (s ∷ drop (suc i) states) front here
        (omega (arith, at, low.1)) rest x r
    ∙ ap (λ u. if ltb x start then color_at recved u x else color_at c rest x)
        (split-get states i s e)

-- A start that the states reach: what is known of the cut there, if the range is to have the color
-- `c` from its start on.
pub record IsCut (size start : ℕ) (c : Color) (states : List State) (cut_states : List State)
    (drain_start drain_end : ℕ) (first : Option State) (pre : Color) : Type 0 where
  pub order : drain_start ≤ drain_end
  pub within : drain_end ≤ length cut_states
  pub front : IsFront size start c (take drain_start cut_states ++ just first) states
  pub low : IsOrdered 0 (start + 1) (take drain_start cut_states ++ just first)
  pub tail : IsOrdered (start + 1) size (drop drain_end cut_states)
  pub behind :
      (x : ℕ) → start ≤ x → color_at pre (drop drain_end cut_states) x ≡ color_at recved states x
