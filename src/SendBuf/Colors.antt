-- ===== src/SendBuf/Colors.antt =====
-- What a list of states says: the color of each byte.
use gm_quic.Prelude.{
  ℕ, zero, suc, ◌+◌, ◌≤◌, ◌<◌, ◌≡◌, refl, ap, sym, ◌∙◌, List, [], ◌∷◌, ◌++◌, arith, true, false,
  ltb, if◌then◌else◌, Bool-cases, inl, inr, ltb→lt, length, drop,
}
use gm_quic.SendBuf.Map.{Color, pending, flighting, recved, lost, ◌is◌, State, run_of}

-- The color of byte `x` under states in order, where `pre` is the color in front of the first.
abbrev pub color_at : Color → List State → ℕ → Color
color_at pre [] x = pre
color_at pre (s ∷ rest) x = if ltb x s.offset then pre else color_at s.color rest x

-- States from `lo` on in the order of their offsets, all of them below `hi`.
abbrev pub IsOrdered : ℕ → ℕ → List State → Type 0
IsOrdered lo hi [] = Unit {0}
IsOrdered lo hi (s ∷ rest) = (lo ≤ s.offset) × (s.offset < hi) × IsOrdered (s.offset + 1) hi rest

abbrev pub last_color : Color → List State → Color
last_color pre [] = pre
last_color pre (s ∷ rest) = last_color s.color rest

pub color_at-before :
    (lo hi : ℕ) (pre : Color) (states : List State) (x : ℕ)
    → IsOrdered lo hi states
    → x < lo
    → color_at pre states x ≡ pre
color_at-before lo hi pre [] x o h = refl
color_at-before lo hi pre (s ∷ rest) x o h = ground (arith, o.0)

pub IsOrdered-weaken :
    (lo lo' hi hi' : ℕ) (states : List State)
    → IsOrdered lo hi states
    → lo' ≤ lo
    → hi ≤ hi'
    → IsOrdered lo' hi' states
IsOrdered-weaken lo lo' hi hi' [] o h k = tt
IsOrdered-weaken lo lo' hi hi' (s ∷ rest) (a, b, o) h k = (
  omega arith,
  omega arith,
  IsOrdered-weaken (s.offset + 1) (s.offset + 1) hi hi' rest o (omega arith) k,
)

pub IsOrdered-append :
    (lo mid hi : ℕ) (front rest : List State)
    → IsOrdered lo mid front
    → IsOrdered mid hi rest
    → lo ≤ mid
    → mid ≤ hi
    → IsOrdered lo hi (front ++ rest)
IsOrdered-append lo mid hi [] rest f r h k = IsOrdered-weaken mid lo hi hi rest r h (omega arith)
IsOrdered-append lo mid hi (s ∷ front) rest (a, b, f) r h k =
    (a, omega arith, IsOrdered-append (s.offset + 1) mid hi front rest f r (omega arith) k)

-- Bytes in front of the states behind, and bytes behind the states in front.
pub color_at-front :
    (lo mid hi : ℕ) (pre : Color) (front rest : List State) (x : ℕ)
    → IsOrdered mid hi rest
    → x < mid
    → color_at pre (front ++ rest) x ≡ color_at pre front x
color_at-front lo mid hi pre [] rest x r h = color_at-before mid hi pre rest x r h
color_at-front lo mid hi pre (s ∷ front) rest x r h = elim (Bool-cases (ltb x s.offset)) [
  | inl before ↦ rw before
  | inr behind ↦ rw behind (color_at-front lo mid hi s.color front rest x r h)
]

pub color_at-behind :
    (lo mid : ℕ) (pre : Color) (front rest : List State) (x : ℕ)
    → IsOrdered lo mid front
    → mid ≤ x + 1
    → color_at pre (front ++ rest) x ≡ color_at (last_color pre front) rest x
color_at-behind lo mid pre [] rest x f h = refl
color_at-behind lo mid pre (s ∷ front) rest x (a, b, f) h =
    let behind : ltb x s.offset ≡ false = ground (arith, b, h) in
    rw behind (color_at-behind (s.offset + 1) mid s.color front rest x f h)

-- A state of the color that is there already says nothing.
pub color_at-same :
    (lo hi : ℕ) (pre : Color) (front rest : List State) (s : State) (x : ℕ)
    → s.color ≡ last_color pre front
    → IsOrdered s.offset hi rest
    → color_at pre (front ++ (s ∷ rest)) x ≡ color_at pre (front ++ rest) x
color_at-same lo hi pre [] rest s x e o = elim (Bool-cases (ltb x s.offset)) [
  | inl before ↦
      rw before (sym (color_at-before s.offset hi pre rest x o (ltb→lt x s.offset before)))
  | inr behind ↦ rw behind (ap (λ c. color_at c rest x) e)
]
color_at-same lo hi pre (t ∷ front) rest s x e o = elim (Bool-cases (ltb x t.offset)) [
  | inl before ↦ rw before
  | inr behind ↦ rw behind (color_at-same lo hi t.color front rest s x e o)
]

pub is→eq : (a b : Color) → (a is b) ≡ true → a ≡ b
is→eq pending pending h = refl
is→eq pending flighting h = absurd (cc)
is→eq pending recved h = absurd (cc)
is→eq pending lost h = absurd (cc)
is→eq flighting pending h = absurd (cc)
is→eq flighting flighting h = refl
is→eq flighting recved h = absurd (cc)
is→eq flighting lost h = absurd (cc)
is→eq recved pending h = absurd (cc)
is→eq recved flighting h = absurd (cc)
is→eq recved recved h = refl
is→eq recved lost h = absurd (cc)
is→eq lost pending h = absurd (cc)
is→eq lost flighting h = absurd (cc)
is→eq lost recved h = absurd (cc)
is→eq lost lost h = refl

-- States of one color behind a state of this color.
pub color_at-run :
    (lo hi : ℕ) (c : Color) (states : List State) (x : ℕ)
    → IsOrdered lo hi states
    → color_at c (drop (run_of c states) states) x ≡ color_at c states x
unfolding run_of
color_at-run lo hi c [] x o = refl
color_at-run lo hi c (s ∷ rest) x (a, b, o) = elim (Bool-cases (s.color is c)) [
  | inr other ↦ rw other
  | inl same ↦
      let more = color_at-run (s.offset + 1) hi c rest x o in
      elim (Bool-cases (ltb x s.offset)) [
        | inl before ↦
            let lt = ltb→lt x s.offset before in
            rw same (rw before (more ∙ color_at-before (s.offset + 1) hi c rest x o (omega arith)))
        | inr behind ↦
            rw same (rw behind (more ∙ ap (λ d. color_at d rest x) (sym (is→eq s.color c same))))
      ]
]

pub run_of-le : (c : Color) (states : List State) → run_of c states ≤ length states
unfolding run_of
run_of-le c [] = omega arith
run_of-le c (s ∷ rest) = ground (arith, run_of-le c rest)

pub IsOrdered-drop :
    (lo hi n : ℕ) (states : List State) → IsOrdered lo hi states → IsOrdered lo hi (drop n states)
IsOrdered-drop lo hi zero states o = o
IsOrdered-drop lo hi (suc n) [] o = tt
IsOrdered-drop lo hi (suc n) (s ∷ rest) (a, b, o) =
    IsOrdered-weaken (s.offset + 1) lo hi hi (drop n rest)
      (IsOrdered-drop (s.offset + 1) hi n rest o) (omega arith) (omega arith)
