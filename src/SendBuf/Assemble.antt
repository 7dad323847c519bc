-- ===== src/SendBuf/Assemble.antt =====
-- A cut, and what the loop behind it leaves, put together to a whole map.
use gm_quic.Prelude.{
  ℕ, zero, suc, ◌+◌, ◌≤◌, ◌<◌, ◌≡◌, refl, ap, sym, subst, ◌∙◌, List, [], ◌∷◌, ◌++◌, Option, arith,
  ltb, if◌then◌else◌, Bool-cases, inl, inr, ltb→le, length, take, drop,
}
use mathlib.Core.List.{append_assoc}
use gm_quic.SendBuf.Map.{Color, recved, State, finish}
use gm_quic.SendBuf.Colors.{color_at, IsOrdered, IsOrdered-append}
use gm_quic.SendBuf.Splice.{just, finish_lem}
use gm_quic.SendBuf.Cuts.{IsCut}

-- The color that is asked of byte `x`: `mark` of what it was inside the range.
abbrev pub marked : (Color → Color) → ℕ → ℕ → (ℕ → Color) → ℕ → Color
marked mark start end before x =
    if ltb x start then before x else if ltb x end then mark (before x) else before x

-- What the loop leaves behind the cut: it says of the bytes from `start` on what is asked.
abbrev pub IsTail : (Color → Color) → Color → ℕ → ℕ → ℕ → Color → List State → List State → Type 0
IsTail mark c size end start pre rest new =
    IsOrdered (start + 1) size new
    × ((x : ℕ)
        → start ≤ x
        → x < size
        → color_at c new x
          ≡ (if ltb x end then mark (color_at pre rest x) else color_at pre rest x))

take-drop-middle :
    (states rest : List State) (n : ℕ) → n ≤ length states → drop n (take n states ++ rest) ≡ rest
take-drop-middle states rest zero h = refl
take-drop-middle [] rest (suc n) h = absurd (omega arith)
take-drop-middle (s ∷ states) rest (suc n) h = take-drop-middle states rest n (omega arith)

take-take-middle :
    (states rest : List State) (m n : ℕ)
    → m ≤ n
    → n ≤ length states
    → take m (take n states ++ rest) ≡ take m states
take-take-middle states rest zero n h k = refl
take-take-middle states rest (suc m) zero h k = absurd (omega arith)
take-take-middle [] rest (suc m) (suc n) h k = absurd (omega arith)
take-take-middle (s ∷ states) rest (suc m) (suc n) h k =
    ap (λ u. s ∷ u) (take-take-middle states rest m n (omega arith) (omega arith))

length-take-middle :
    (states rest : List State) (n : ℕ) → n ≤ length states → n ≤ length (take n states ++ rest)
length-take-middle states rest zero h = omega arith
length-take-middle [] rest (suc n) h = absurd (omega arith)
length-take-middle (s ∷ states) rest (suc n) h =
    omega (arith, length-take-middle states rest n (omega arith))

finish-middle :
    (states rest : List State) (from to : ℕ) (first last : Option State)
    → from ≤ to
    → to ≤ length states
    → finish (take to states ++ rest) from to first last
      ≡ (take from states ++ just first) ++ (just last ++ rest)
finish-middle states rest from to first last h k =
    finish_lem (take to states ++ rest) from to first last h (length-take-middle states rest to k)
    ∙ ap (λ u. u ++ (just first ++ (just last ++ drop to (take to states ++ rest))))
        (take-take-middle states rest from to h k)
    ∙ ap (λ u. take from states ++ (just first ++ (just last ++ u)))
        (take-drop-middle states rest to k)
    ∙ sym (append_assoc (take from states) (just first) (just last ++ rest))

-- What is asked of the states that replace `states`.
abbrev pub IsMarked : (Color → Color) → ℕ → ℕ → ℕ → List State → List State → Type 0
IsMarked mark size start end states states' =
    IsOrdered 0 size states'
    × ((x : ℕ)
        → x < size
        → color_at recved states' x ≡ marked mark start end (color_at recved states) x)

pub assemble :
    (mark : Color → Color) (size start end : ℕ) (c : Color) (states cut_states : List State)
    (drain_start drain_end : ℕ) (first : Option State) (pre : Color) (to : ℕ) (last : Option State)
    (rest : List State)
    → start < size
    → IsCut size start c states cut_states drain_start drain_end first pre
    → drain_end ≤ to
    → to ≤ length cut_states
    → IsTail mark c size end start pre (drop drain_end cut_states) (just last ++ rest)
    → IsMarked mark size start end states
        (finish (take to cut_states ++ rest) drain_start to first last)
assemble mark size start end c states cut_states drain_start drain_end first pre to last rest h cut
      le within (ordered, tail) =
    let same =
      finish-middle cut_states rest drain_start to first last (omega (arith, cut.order)) within in
    let front = take drain_start cut_states ++ just first in
    let back = just last ++ rest in
    subst (IsMarked mark size start end states) (sym same) (
      IsOrdered-append 0 (start + 1) size front back cut.low ordered (omega arith) (omega arith),
      λ x inside. cut.front back x ordered ∙ (elim (Bool-cases (ltb x start)) [
        | inl before ↦ rw before
        | inr behind ↦
            let ge = ltb→le x start behind in
            let asked : (if ltb x end
                  then mark (color_at pre (drop drain_end cut_states) x)
                  else color_at pre (drop drain_end cut_states) x)
                ≡ (if ltb x end
                    then mark (color_at recved states x)
                    else color_at recved states x) =
              ap (λ d. if ltb x end then mark d else d) (cut.behind x ge) in
            rw behind (tail x ge inside ∙ asked)
      ]),
    )
