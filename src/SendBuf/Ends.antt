-- ===== src/SendBuf/Ends.antt =====
-- The ends of the loops of `ack_rcvd` and `may_loss`, at the end of the range.
use gm_quic.Prelude.{
  ℕ, ◌+◌, ◌≤◌, ◌<◌, ◌≡◌, ap, sym, ◌∙◌, List, ◌∷◌, some, arith, true, false, not, ltb, ◌⊎◌,
  Bool-cases, inl, inr, ltb→lt, ltb→le, lt→ltb, le→ltb, drop, guard,
}
use gm_quic.SendBuf.Map.{Color, pending, ◌is◌, State, run_of}
use gm_quic.SendBuf.Marks.{was_sent}
use gm_quic.SendBuf.Colors.{
  color_at, IsOrdered, IsOrdered-weaken, IsOrdered-drop, color_at-before, color_at-run,
}
use gm_quic.SendBuf.Assemble.{IsTail}

-- No byte of a range is pending.
abbrev pub IsSent : ℕ → ℕ → (ℕ → Color) → Type 0
IsSent start end color = (x : ℕ) → start ≤ x → x < end → (color x is pending) ≡ false

module _ (mark : Color → Color) (c : Color) (size end start : ℕ) (pre : Color)
    (into : mark pre ≡ c) where
  -- A covered state goes.
  pub IsTail-cons :
      (s : State) (rest new : List State)
      → start < s.offset
      → s.offset < end
      → IsTail mark c size end s.offset s.color rest new
      → IsTail mark c size end start pre (s ∷ rest) new
  IsTail-cons s rest new h k (ordered, same) = (
    IsOrdered-weaken (s.offset + 1) (start + 1) size size new ordered (omega arith) (omega arith),
    λ x from inside. elim (Bool-cases (ltb x s.offset)) [
      | inl before ↦
          let lt = ltb→lt x s.offset before in
          let covered : ltb x end ≡ true = lt→ltb x end (omega arith) in
          rw before (
            rw covered
              (color_at-before (s.offset + 1) size c new x ordered (omega arith) ∙ sym into))
      | inr behind ↦ rw behind (same x (ltb→le x s.offset behind) inside)
    ],
  )

  -- A covered state stays, in the new color.
  pub IsTail-turn :
      (d : Color) (s : State) (rest new : List State)
      → start < s.offset
      → s.offset < end
      → s.offset < size
      → IsTail mark d size end s.offset s.color rest new
      → IsTail mark c size end start pre (s ∷ rest) (record { offset = s.offset; color = d } ∷ new)
  IsTail-turn d s rest new h k l (ordered, same) = (
    (omega arith, l, ordered),
    λ x from inside. elim (Bool-cases (ltb x s.offset)) [
      | inl before ↦
          let lt = ltb→lt x s.offset before in
          let covered : ltb x end ≡ true = lt→ltb x end (omega arith) in
          rw before (rw covered (sym into))
      | inr behind ↦ rw behind (same x (ltb→le x s.offset behind) inside)
    ],
  )

  -- Behind the range the color goes on as it was.
  pub IsTail-due :
      (rest : List State)
      → start < end
      → end < size
      → IsOrdered (end + 1) size rest
      → IsTail mark c size end start pre rest (record { offset = end; color = pre } ∷ rest)
  IsTail-due rest h k o = (
    (omega arith, k, o),
    λ x from inside. elim (Bool-cases (ltb x end)) [
      | inl before ↦
          let lt = ltb→lt x end before in
          rw before
            (sym (ap mark (color_at-before (end + 1) size pre rest x o (omega arith)) ∙ into))
      | inr behind ↦ rw behind
    ],
  )

  -- Behind the range the color is the new one, or nothing is left.
  pub IsTail-same :
      (rest : List State)
      → start < end
      → (pre ≡ c) ⊎ (size ≤ end)
      → IsOrdered end size rest
      → IsTail mark c size end start pre rest rest
  IsTail-same rest h same o = (
    IsOrdered-weaken end (start + 1) size size rest o (omega arith) (omega arith),
    λ x from inside. elim (Bool-cases (ltb x end)) [
      | inl before ↦
          let lt = ltb→lt x end before in
          rw before (
            color_at-before end size c rest x o lt
            ∙ sym (ap mark (color_at-before end size pre rest x o lt) ∙ into))
      | inr behind ↦ elim same [
        | inl e ↦ rw behind (ap (λ d. color_at d rest x) (sym e))
        | inr le ↦ absurd (omega (arith, ltb→le x end behind))
      ]
    ],
  )

  -- A state at the end of the range: with the color of the range it goes, and those like it.
  pub IsTail-run :
      (s : State) (rest : List State)
      → start < end
      → s.offset ≡ end
      → IsOrdered (start + 1) size (s ∷ rest)
      → IsTail mark c size end start pre (s ∷ rest) (drop (run_of c (s ∷ rest)) (s ∷ rest))
  IsTail-run s rest h at o = (
    IsOrdered-drop (start + 1) size (run_of c (s ∷ rest)) (s ∷ rest) o,
    λ x from inside.
        color_at-run (start + 1) size c (s ∷ rest) x o ∙ (elim (Bool-cases (ltb x s.offset)) [
          | inl before ↦
              let covered : ltb x end ≡ true =
                lt→ltb x end (omega (arith, at, ltb→lt x s.offset before)) in
              rw before (rw covered (sym into))
          | inr behind ↦
              let over : ltb x end ≡ false =
                le→ltb x end (omega (arith, at, ltb→le x s.offset behind)) in
              rw behind (rw over)
        ]),
  )

-- The state that begins inside the range is not pending, and the bytes behind it are not.
pub IsSent-here :
    (lo size start end : ℕ) (pre : Color) (s : State) (rest : List State)
    → IsOrdered lo size (s ∷ rest)
    → start ≤ s.offset
    → s.offset < end
    → IsSent start end (color_at pre (s ∷ rest))
    → (s.color is pending) ≡ false
IsSent-here lo size start end pre s rest (a, b, o) h k sent =
    let here : ltb s.offset s.offset ≡ false = le→ltb s.offset s.offset (omega arith) in
    let same : color_at pre (s ∷ rest) s.offset ≡ s.color =
      rw here (color_at-before (s.offset + 1) size s.color rest s.offset o (omega arith)) in
    ap (λ d. d is pending) (sym same) ∙ sent s.offset h k

pub IsSent-behind :
    (start end : ℕ) (pre : Color) (s : State) (rest : List State)
    → start ≤ s.offset
    → IsSent start end (color_at pre (s ∷ rest))
    → IsSent s.offset end (color_at s.color rest)
IsSent-behind start end pre s rest h sent x from inside =
    let behind : ltb x s.offset ≡ false = le→ltb x s.offset from in
    let same : color_at pre (s ∷ rest) x ≡ color_at s.color rest x = rw behind in
    ap (λ d. d is pending) (sym same) ∙ sent x (omega arith) inside

pub was_sent-some : (c : Color) → (c is pending) ≡ false → was_sent c ≡ some tt
was_sent-some c h = ap (λ b. guard (not b)) h
