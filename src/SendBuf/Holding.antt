-- ===== src/SendBuf/Holding.antt =====
-- What a send buffer holds of the bytes written to it, and how its operations keep that.
use gm_quic.Prelude.{
  ℕ, ◌+◌, ◌≤◌, ◌<◌, ◌≡◌, refl, ap, sym, subst, ◌∙◌, List, [], ◌∷◌, ◌++◌, some, ◌^◌, arith, true,
  false, ltb, Bool-cases, inl, inr, ltb→lt, ltb→le, lt→ltb, le→ltb, length, drop, length-append,
  drop-append_within,
}
use mathlib.Core.List.{append-nil}
use gm_quic.SendBuf.Map.{Color, recved, pending, ◌is◌, BufMap}
use gm_quic.SendBuf.Buffer.{SendBuf, with_capacity, write}
use gm_quic.SendBuf.Colors.{color_at, IsOrdered, is→eq}
use gm_quic.SendBuf.Assemble.{marked, IsMarked}
use gm_quic.SendBuf.Shifts.{extend_to_lem}

abbrev pub color_of : SendBuf → ℕ → Color
color_of b x = color_at recved b.state.states x

-- A buffer to which `w` was written: it has the bytes from the first on that is not received.
pub record IsHolding (w : List ℕ) (b : SendBuf) : Type 0 where
  pub ordered : IsOrdered 0 b.state.size b.state.states
  pub size : b.state.size ≡ length w
  pub within : b.offset ≤ length w
  pub left : b.bytes ≡ drop b.offset w
  pub acked : (x : ℕ) → x < b.offset → color_of b x ≡ recved
  pub first : b.offset < length w → (color_of b b.offset is recved) ≡ false

pub with_capacity-IsHolding : IsHolding [] with_capacity
with_capacity-IsHolding = record {
  ordered = tt;
  size = refl;
  within = omega arith;
  left = refl;
  acked = λ x h. absurd (omega arith);
  first = λ h. absurd (omega arith);
}

-- A change of colors that receives nothing keeps what the buffer holds.
pub IsMarked-IsHolding :
    (mark : Color → Color) (start end : ℕ) (w : List ℕ) (b : SendBuf) (m' : BufMap)
    → IsHolding w b
    → ((x : ℕ) → start ≤ x → x < end → (mark (color_of b x) is recved) ≡ (color_of b x is recved))
    → m'.size ≡ b.state.size
    → IsMarked mark b.state.size start end b.state.states m'.states
    → IsHolding w (record b { state = m' })
IsMarked-IsHolding mark start end w b m' h keeps same (ordered, colors) =
    let was = λ (x : ℕ). color_at recved b.state.states x in
    let inside : (x : ℕ)
        → x < length w
        → color_at recved m'.states x ≡ marked mark start end was x =
      λ x lt. colors x (omega (arith, h.size, lt)) in
    let received : (x : ℕ) → (marked mark start end was x is recved) ≡ (was x is recved) = λ x.
      elim (Bool-cases (ltb x start)) [
        | inl before ↦ rw before
        | inr behind ↦ elim (Bool-cases (ltb x end)) [
          | inl covered ↦
              rw behind (rw covered (keeps x (ltb→le x start behind) (ltb→lt x end covered)))
          | inr over ↦ rw behind (rw over)
        ]
      ] in
    record {
      ordered = subst (λ n. IsOrdered 0 n m'.states) (sym same) ordered;
      size = same ∙ h.size;
      within = h.within;
      left = h.left;
      acked = λ x lt. is→eq (color_at recved m'.states x) recved (
          ap (λ c. c is recved) (inside x (omega (arith, lt, h.within)))
          ∙ received x
          ∙ ap (λ c. c is recved) (h.acked x lt));
      first = λ lt. ap (λ c. c is recved) (inside b.offset lt) ∙ received b.offset ∙ h.first lt;
    }

-- What is written is held behind what was, and nothing else changes.
pub write-IsHolding :
    (w more : List ℕ) (b : SendBuf)
    → IsHolding w b
    → length w + length more < 2 ^ 62
    → (b' : SendBuf) × (write b more ≡ some (b', length more)) × IsHolding (w ++ more) b'
unfolding write
write-IsHolding w [] b h small = (b, refl, subst (λ u. IsHolding u b) (sym (append-nil w)) h)
write-IsHolding w (byte ∷ rest) b h small =
    let more = byte ∷ rest in
    let whole = length-append w more in
    let pos = b.state.size + length more in
    let (m', e, size, (ordered, colors)) =
      extend_to_lem b.state pos h.ordered (omega (arith, h.size, small)) (omega arith) in
    let same : (x : ℕ) → x < length w → color_at recved m'.states x ≡ color_of b x = λ x lt.
      (let before : ltb x b.state.size ≡ true = lt→ltb x b.state.size (omega (arith, lt, h.size)) in
        colors x ∙ rw before) in
    let new : (x : ℕ) → length w ≤ x → color_at recved m'.states x ≡ pending = λ x le.
      (let behind : ltb x b.state.size ≡ false =
          le→ltb x b.state.size (omega (arith, le, h.size)) in
        colors x ∙ rw behind) in
    (
      record b { bytes = b.bytes ++ more; state = m' },
      rw e refl,
      record {
        ordered = subst (λ n. IsOrdered 0 n m'.states) (sym size) ordered;
        size = omega (arith, size, h.size, whole);
        within = omega (arith, h.within, whole);
        left = ap (λ u. u ++ more) h.left ∙ sym (drop-append_within b.offset w more h.within);
        acked = λ x lt. same x (omega (arith, lt, h.within)) ∙ h.acked x lt;
        first = λ lt. elim (Bool-cases (ltb b.offset (length w))) [
          | inl before ↦
              let lt = ltb→lt b.offset (length w) before in
              ap (λ c. c is recved) (same b.offset lt) ∙ h.first lt
          | inr behind ↦ ap (λ c. c is recved) (new b.offset (ltb→le b.offset (length w) behind))
        ];
      },
    )
