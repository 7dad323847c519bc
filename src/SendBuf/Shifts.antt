-- ===== src/SendBuf/Shifts.antt =====
-- `extend_to` and `shift` of `BufMap` against the colors of the bytes.
use gm_quic.Prelude.{
  ℕ, ◌+◌, ◌≤◌, ◌<◌, ◌≡◌, refl, ap, sym, subst, ◌∙◌, List, [], ◌∷◌, ◌++◌, some, ◌^◌, arith, true,
  false, ltb, if◌then◌else◌, Bool-cases, inl, inr, ltb→lt, ltb→le, lt→ltb, le→ltb, Option-cases,
}
use mathlib.Core.List.{append-nil}
use mathlib.Core.Option.{some-injective}
use gm_quic.SendBuf.Map.{Color, recved, pending, ◌is◌, State, BufMap, back, extend_to}
use gm_quic.SendBuf.Marks.{shift_states, shift}
use gm_quic.SendBuf.Colors.{
  color_at, last_color, IsOrdered, IsOrdered-weaken, IsOrdered-append, color_at-before,
  color_at-front, color_at-behind, is→eq,
}

back-last :
    (pre : Color) (states : List State) (s : State)
    → back states ≡ some s
    → last_color pre states ≡ s.color
back-last pre [] s e = absurd (cc)
back-last pre (t ∷ []) s e = ap (λ (u : State). u.color) (some-injective _ _ e)
back-last pre (t ∷ u ∷ rest) s e = back-last t.color (u ∷ rest) s e

-- The new bytes are pending, and the others what they were.
abbrev pub IsExtended : ℕ → ℕ → List State → List State → Type 0
IsExtended size pos states states' =
    IsOrdered 0 pos states'
    × ((x : ℕ)
        → color_at recved states' x ≡ (if ltb x size then color_at recved states x else pending))

longer-IsExtended :
    (size pos : ℕ) (states : List State)
    → IsOrdered 0 size states
    → size < pos
    → IsExtended size pos states (states ++ (record { offset = size; color = pending } ∷ []))
longer-IsExtended size pos states o h =
    let last : State = record { offset = size; color = pending } in
    (
      IsOrdered-append 0 size pos states (last ∷ []) o (omega arith, h, tt) (omega arith)
          (omega arith),
      λ x. elim (Bool-cases (ltb x size)) [
        | inl before ↦ rw before (
            color_at-front 0 size pos recved states (last ∷ []) x (omega arith, h, tt)
              (ltb→lt x size before))
        | inr behind ↦
            let ge = ltb→le x size behind in
            rw behind
              (color_at-behind 0 size recved states (last ∷ []) x o (omega arith) ∙ rw behind)
      ],
    )

same-IsExtended :
    (size pos : ℕ) (states : List State)
    → IsOrdered 0 size states
    → size < pos
    → last_color recved states ≡ pending
    → IsExtended size pos states states
same-IsExtended size pos states o h last = (
  IsOrdered-weaken 0 0 size pos states o (omega arith) (omega arith),
  λ x. elim (Bool-cases (ltb x size)) [
    | inl before ↦ rw before
    | inr behind ↦
        let ge = ltb→le x size behind in
        rw behind (
          ap (λ u. color_at recved u x) (sym (append-nil states))
          ∙ color_at-behind 0 size recved states [] x o (omega arith)
          ∙ last)
  ],
)

pub extend_to_lem :
    (m : BufMap) (pos : ℕ)
    → IsOrdered 0 m.size m.states
    → pos < 2 ^ 62
    → m.size < pos
    → (m' : BufMap) × (extend_to m pos ≡ some m')
      × (m'.size ≡ pos)
      × IsExtended m.size pos m.states m'.states
unfolding extend_to
extend_to_lem m pos o small h =
    let fits = lt→ltb pos (2 ^ 62) small in
    let grows = lt→ltb m.size pos h in
    let longer = m.states ++ (record { offset = m.size; color = pending } ∷ []) in
    let with_longer = longer-IsExtended m.size pos m.states o h in
    elim (Option-cases (back m.states)) [
      | inl e ↦ (
        record { states = longer; size = pos },
        rw fits (rw grows (rw e refl)),
        refl,
        with_longer,
      )
      | inr (s, e) ↦ elim (Bool-cases (s.color is pending)) [
        | inr other ↦ (
          record { states = longer; size = pos },
          rw fits (rw grows (rw e (rw other refl))),
          refl,
          with_longer,
        )
        | inl same ↦ (
          record { states = m.states; size = pos },
          rw fits (rw grows (rw e (rw same refl))),
          refl,
          same-IsExtended m.size pos m.states o h
              (back-last recved m.states s e ∙ is→eq s.color pending same),
        )
      ]
    ]

pub shift_states-IsOrdered :
    (lo hi : ℕ) (states : List State)
    → IsOrdered lo hi states
    → IsOrdered lo hi (shift_states states)
unfolding shift_states
shift_states-IsOrdered lo hi [] o = tt
shift_states-IsOrdered lo hi (s ∷ rest) (a, b, o) = elim (Bool-cases (s.color is recved)) [
  | inl received ↦ rw received (
      IsOrdered-weaken (s.offset + 1) lo hi hi (shift_states rest)
        (shift_states-IsOrdered (s.offset + 1) hi rest o) (omega arith) (omega arith))
  | inr other ↦ rw other (a, b, o)
]

pub color_at-shift_states :
    (lo hi : ℕ) (states : List State) (x : ℕ)
    → IsOrdered lo hi states
    → color_at recved (shift_states states) x ≡ color_at recved states x
unfolding shift_states
color_at-shift_states lo hi [] x o = refl
color_at-shift_states lo hi (s ∷ rest) x (a, b, o) = elim (Bool-cases (s.color is recved)) [
  | inr other ↦ rw other
  | inl received ↦
      let ih = color_at-shift_states (s.offset + 1) hi rest x o in
      let color = is→eq s.color recved received in
      elim (Bool-cases (ltb x s.offset)) [
        | inl before ↦
            let lt = ltb→lt x s.offset before in
            rw received
              (rw before (ih ∙ color_at-before (s.offset + 1) hi recved rest x o (omega arith)))
        | inr behind ↦ rw received (rw behind (ih ∙ ap (λ d. color_at d rest x) (sym color)))
      ]
]

-- What `shift` gives as the first byte not received: all before it are, and it is none of them.
abbrev pub IsShifted : BufMap → BufMap × ℕ → Type 0
IsShifted m (m', first) =
    IsOrdered 0 m.size m'.states
    × (m'.size ≡ m.size)
    × ((x : ℕ) → color_at recved m'.states x ≡ color_at recved m.states x)
    × (first ≤ m.size)
    × ((x : ℕ) → x < first → color_at recved m'.states x ≡ recved)
    × ((first < m.size) → (color_at recved m'.states first is recved) ≡ false)

shift_states-front :
    (states : List State) (s : State) (rest : List State)
    → shift_states states ≡ s ∷ rest
    → (s.color is recved) ≡ false
unfolding shift_states
shift_states-front [] s rest e = absurd (cc)
shift_states-front (t ∷ states) s rest e = elim (Bool-cases (t.color is recved)) [
  | inl received ↦ shift_states-front states s rest (rw received at e)
  | inr other ↦ elim (Bool-cases (s.color is recved)) [
    | inl received ↦ absurd (cc)
    | inr known ↦ known
  ]
]

shift_cases :
    (m : BufMap) (states' : List State)
    → IsOrdered 0 m.size m.states
    → shift_states m.states ≡ states'
    → IsShifted m (record m { states = states' }, elim states' [ [] ↦ m.size | s ∷ _ ↦ s.offset ])
shift_cases m [] o e = (
  tt,
  refl,
  λ x. ap (λ u. color_at recved u x) (sym e) ∙ color_at-shift_states 0 m.size m.states x o,
  omega arith,
  λ x h. refl,
  λ h. absurd (omega arith),
)
shift_cases m (s ∷ rest) o e =
    let (a, b, later) : IsOrdered 0 m.size (s ∷ rest) =
      subst (IsOrdered 0 m.size) e (shift_states-IsOrdered 0 m.size m.states o) in
    let here : ltb s.offset s.offset ≡ false = le→ltb s.offset s.offset (omega arith) in
    let color : color_at recved (s ∷ rest) s.offset ≡ s.color =
      rw here (color_at-before (s.offset + 1) m.size s.color rest s.offset later (omega arith)) in
    (
      (a, b, later),
      refl,
      λ x. ap (λ u. color_at recved u x) (sym e) ∙ color_at-shift_states 0 m.size m.states x o,
      omega arith,
      λ x h. (let before : ltb x s.offset ≡ true = lt→ltb x s.offset h in rw before),
      λ h. ap (λ d. d is recved) color ∙ shift_states-front m.states s rest e,
    )

pub shift_lem : (m : BufMap) → IsOrdered 0 m.size m.states → IsShifted m (shift m)
unfolding shift
shift_lem m o = shift_cases m (shift_states m.states) o refl
