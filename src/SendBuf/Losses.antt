-- ===== src/SendBuf/Losses.antt =====
-- What a loss makes of a color, and of the states that `lost_from` has marked.
use gm_quic.Prelude.{
  ℕ, ◌+◌, ◌≤◌, ◌<◌, ◌≡◌, refl, ap, sym, ◌∙◌, List, [], ◌∷◌, ◌++◌, Option, none, arith, Bool, true,
  false, ◌&&◌, if◌then◌else◌, inl, inr, length, drop, drop-drop, ◌⊎◌,
}
use gm_quic.SendBuf.Map.{Color, recved, pending, flighting, lost, ◌is◌, State, due}
use gm_quic.SendBuf.Marks.{finish_lost}
use gm_quic.SendBuf.Colors.{IsOrdered, IsOrdered-weaken}
use gm_quic.SendBuf.Splice.{just, finish_lem}
use gm_quic.SendBuf.Assemble.{IsTail}
use gm_quic.SendBuf.Ends.{IsTail-due, IsTail-same}

-- What a loss makes of a color: received stays.
abbrev pub lose : Color → Color
lose c = if c is recved then recved else lost

abbrev pub IsLossy : Color → Type 0
IsLossy c = (c ≡ flighting) ⊎ (c ≡ lost)

pub IsLossy-lose : (c : Color) → IsLossy c → lose c ≡ lost
IsLossy-lose c (inl e) = ap lose e
IsLossy-lose c (inr e) = ap lose e

pub is→IsLossy : (c : Color) → (c is pending) ≡ false → (c is recved) ≡ false → IsLossy c
is→IsLossy pending h k = absurd (cc)
is→IsLossy flighting h k = inl refl
is→IsLossy recved h k = absurd (cc)
is→IsLossy lost h k = inr refl

pub loss_end :
    (size end start : ℕ) (pre : Color) (rest : List State) (b : Bool)
    → start < end
    → IsLossy pre
    → (b ≡ true → end < size)
    → (b ≡ false → size ≤ end)
    → IsOrdered (end + 1) size rest
    → IsTail lose lost size end start pre rest
        (just (due (b && (pre is flighting)) end pre) ++ rest)
loss_end size end start pre rest true h (inl e) k l o =
    rw e (IsTail-due lose lost size end start flighting refl rest h (k refl) o)
loss_end size end start pre rest true h (inr e) k l o = rw e (
    IsTail-same lose lost size end start lost refl rest h (inl refl)
      (IsOrdered-weaken (end + 1) end size size rest o (omega arith) (omega arith)))
loss_end size end start pre rest false h lossy k l o =
    IsTail-same lose lost size end start pre (IsLossy-lose pre lossy) rest h (inr (l refl))
      (IsOrdered-weaken (end + 1) end size size rest o (omega arith) (omega arith))

-- The color behind the states that are lost already.
abbrev pub Leads : List State → Color → Type 0
Leads [] pre = pre ≡ recved
Leads (m ∷ marked) pre = IsLossy pre

-- What the states are then: those that are lost already have become one.
abbrev pub IsLost : ℕ → ℕ → ℕ → List State → Color → List State → List State → Type 0
IsLost size end start [] pre rest new = IsTail lose recved size end start pre rest new
IsLost size end start (m ∷ marked) pre rest new =
    (behind : List State) × (new ≡ m ∷ behind) × IsTail lose lost size end start pre rest behind

drop-front : (front rest : List State) → drop (length front) (front ++ rest) ≡ rest
drop-front [] rest = refl
drop-front (s ∷ front) rest = drop-front front rest

length-front :
    (front rest : List State) (n : ℕ) → n ≤ length rest → length front + n ≤ length (front ++ rest)
length-front [] rest n h = omega (arith, h)
length-front (s ∷ front) rest n h = omega (arith, length-front front rest n h)

pub finish_lost_lem :
    (m : State) (marked rest : List State) (n count : ℕ) (last : Option State)
    → n ≤ length rest
    → count ≡ length (m ∷ marked) + n
    → finish_lost ((m ∷ marked) ++ rest) count last ≡ m ∷ (just last ++ drop n rest)
unfolding finish_lost
finish_lost_lem m marked rest n count last h e =
    let whole = length-front (m ∷ marked) rest n h in
    finish_lem ((m ∷ marked) ++ rest) 1 count none last (omega (arith, e)) (omega (arith, e, whole))
    ∙ ap (λ u. m ∷ (just last ++ u))
        (ap (λ k. drop k (m ∷ (marked ++ rest))) e
          ∙ sym (drop-drop (length (m ∷ marked)) n (m ∷ (marked ++ rest)))
          ∙ ap (drop n) (drop-front marked rest))
