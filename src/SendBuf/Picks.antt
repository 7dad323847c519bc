-- ===== src/SendBuf/Picks.antt =====
-- `BufMap::pick` against the colors of the bytes.
use gm_quic.Prelude.{
  ℕ, zero, suc, ◌+◌, ◌≤◌, ◌<◌, ◌≡◌, refl, ap, sym, subst, ◌∙◌, List, [], ◌∷◌, ◌++◌, none, some,
  arith, ltb, if◌then◌else◌, Bool-cases, inl, inr, ltb→lt, ltb→le, get_elem?, length, take, drop,
  drop-drop, ◌⊎◌, take-append-drop,
}
use mathlib.Core.Option.{some-injective}
use gm_quic.SendBuf.Map.{
  Color, recved, flighting, State, BufMap, run_of, same_after, finish, color_state, same_before,
  drain,
}
use gm_quic.SendBuf.Pick.{take_state, end_of}
use gm_quic.SendBuf.Colors.{color_at, IsOrdered, IsOrdered-weaken, color_at-before, run_of-le}
use gm_quic.SendBuf.Splice.{IsOrdered-get}
use gm_quic.SendBuf.Assemble.{IsTail, IsMarked, assemble}
use gm_quic.SendBuf.Cuts.{drop-color_state, length-color_state}
use gm_quic.SendBuf.Starts.{found-IsCut, get-below}
use gm_quic.SendBuf.Ends.{IsTail-due, IsTail-same, IsTail-run}

pub IsOrdered-split :
    (lo hi : ℕ) (states : List State) (i : ℕ) (s : State)
    → IsOrdered lo hi states
    → get_elem? states i ≡ some s
    → IsOrdered lo s.offset (take i states) × IsOrdered (s.offset + 1) hi (drop (suc i) states)
IsOrdered-split lo hi [] i s o e = absurd (cc)
IsOrdered-split lo hi (t ∷ states) zero s (a, b, o) e =
    (tt, subst (λ (u : State). IsOrdered (u.offset + 1) hi states) (some-injective _ _ e) o)
IsOrdered-split lo hi (t ∷ states) (suc i) s (a, b, o) e =
    let (front, back) = IsOrdered-split (t.offset + 1) hi states i s o e in
    let low = IsOrdered-get (t.offset + 1) hi states i s o e in
    ((a, omega (arith, low.0), front), back)

get-drop :
    (states : List State) (i : ℕ) (s : State) (rest : List State)
    → drop i states ≡ s ∷ rest
    → get_elem? states i ≡ some s
get-drop [] zero s rest e = absurd (cc)
get-drop [] (suc i) s rest e = absurd (cc)
get-drop (t ∷ states) zero s rest e = ap (λ u. get_elem? u 0) e
get-drop (t ∷ states) (suc i) s rest e = get-drop states i s rest e

get-drop-nil : (states : List State) (i : ℕ) → drop i states ≡ [] → get_elem? states i ≡ none
get-drop-nil [] zero e = refl
get-drop-nil [] (suc i) e = refl
get-drop-nil (t ∷ states) zero e = absurd (cc)
get-drop-nil (t ∷ states) (suc i) e = get-drop-nil states i e

-- The merge of the states that follow in the color.
drain_run :
    (states : List State) (from n : ℕ)
    → n ≤ length (drop from states)
    → from ≤ length states
    → (if ltb from (from + n) then drain states from (from + n) else states)
      ≡ take from states ++ drop n (drop from states)
drain_run states from n h k = elim (Bool-cases (ltb from (from + n))) [
  | inl more ↦ rw more (ap (λ u. take from states ++ u) (sym (drop-drop from n states)))
  | inr none_left ↦
      let empty : n ≡ 0 = ground (arith, none_left) in
      rw none_left (
        sym (
          ap (λ u. take from states ++ drop u (drop from states)) empty
          ∙ take-append-drop from states))
]

-- A picked range goes in flight: the range is the state's, or as much of it as may be sent.
abbrev pub IsTaken : BufMap → State → ℕ → BufMap × ℕ → Type 0
IsTaken m s allowance (m', end) =
    (s.offset < end)
    × (end ≤ s.offset + allowance)
    × (end ≤ m.size)
    × (m'.size ≡ m.size)
    × IsMarked (λ _. flighting) m.size s.offset end m.states m'.states
    × ((x : ℕ) → s.offset ≤ x → x < end → color_at recved m.states x ≡ s.color)

-- The states behind the one at an index start at its end.
abbrev IsNext : BufMap → ℕ → Type 0
IsNext m index =
    let next = drop (suc index) m.states in
    ((next ≡ []) × (end_of m index ≡ m.size))
    ⊎ ((t : State) × (rest : List State) × (next ≡ t ∷ rest) × (end_of m index ≡ t.offset))

IsNext-cases :
    (m : BufMap) (index : ℕ) (next : List State) → drop (suc index) m.states ≡ next → IsNext m index
IsNext-cases m index [] e = inl (e, rw (get-drop-nil m.states (suc index) e, end_of) refl)
IsNext-cases m index (t ∷ rest) e =
    inr (t, rest, e, rw (get-drop m.states (suc index) t rest e, end_of) refl)

end_of-IsNext : (m : BufMap) (index : ℕ) → IsNext m index
end_of-IsNext m index = IsNext-cases m index (drop (suc index) m.states) refl

next-IsOrdered :
    (m : BufMap) (index lo : ℕ)
    → IsOrdered (lo + 1) m.size (drop (suc index) m.states)
    → lo < m.size
    → (lo < end_of m index)
      × (end_of m index ≤ m.size)
      × IsOrdered (end_of m index) m.size (drop (suc index) m.states)
next-IsOrdered m index lo o h = elim (end_of-IsNext m index) [
  | inl (e, at) ↦
      (omega (arith, at), omega (arith, at), subst (IsOrdered (end_of m index) m.size) (sym e) tt)
  | inr (t, rest, e, at) ↦
      let (a, b, later) : IsOrdered (lo + 1) m.size (t ∷ rest) =
        subst (IsOrdered (lo + 1) m.size) e o in
      (
        omega (arith, at),
        omega (arith, at),
        subst (IsOrdered (end_of m index) m.size) (sym e) (omega (arith, at), b, later),
      )
]

-- All of a state is taken: the states behind it in the color flighting go.
whole-IsTail :
    (m : BufMap) (index lo : ℕ) (pre : Color)
    → IsOrdered (lo + 1) m.size (drop (suc index) m.states)
    → lo < m.size
    → (let next = drop (suc index) m.states in
        IsTail
          (λ _. flighting)
          flighting
          m.size
          (end_of m index)
          lo
          pre
          next
          (drop (run_of flighting next) next))
unfolding run_of
whole-IsTail m index lo pre o h =
    let end = end_of m index in
    let tail = λ (next : List State).
      IsTail (λ _. flighting) flighting m.size end lo pre next
        (drop (run_of flighting next) next) in
    elim (end_of-IsNext m index) [
      | inl (e, at) ↦ subst tail (sym e) (
          IsTail-same (λ _. flighting) flighting m.size end lo pre refl [] (omega (arith, at))
            (inr (omega (arith, at))) tt)
      | inr (t, rest, e, at) ↦
          let (a, b, later) : IsOrdered (lo + 1) m.size (t ∷ rest) =
            subst (IsOrdered (lo + 1) m.size) e o in
          subst tail (sym e) (
            IsTail-run (λ _. flighting) flighting m.size end lo pre refl t rest (omega (arith, at))
              (sym at) (a, b, later))
    ]

pub take_state_lem :
    (m : BufMap) (index : ℕ) (s : State) (allowance : ℕ)
    → IsOrdered 0 m.size m.states
    → get_elem? m.states index ≡ some s
    → 0 < allowance
    → IsTaken m s allowance (take_state m index s allowance)
unfolding take_state same_after
take_state_lem m index s allowance ordered at positive =
    let start = s.offset in
    let states = color_state m.states index flighting in
    let from = suc (same_before states index flighting) in
    let to = suc index in
    let next = drop to m.states in
    let (front, back) = IsOrdered-split 0 m.size m.states index s ordered at in
    let inside = (IsOrdered-get 0 m.size m.states index s ordered at).1 in
    let cut =
      found-IsCut m.size start m.states index s at refl front back inside flighting ordered in
    let same : drop to states ≡ next = drop-color_state m.states index flighting in
    let fits : to ≤ length states =
      omega (arith, get-below m.states index s at, length-color_state m.states index flighting) in
    let (longer, within, later) = next-IsOrdered m index start back inside in
    let tail = λ (end : ℕ) (new : List State).
      IsTail (λ _. flighting) flighting m.size end start s.color (drop to states) new in
    let known : (x : ℕ) → start ≤ x → x < end_of m index → color_at recved m.states x ≡ s.color =
      λ x from_start before.
        sym (cut.behind x from_start)
        ∙ ap (λ u. color_at s.color u x) same
        ∙ color_at-before (end_of m index) m.size s.color next x later before in
    elim (Bool-cases (ltb (start + allowance) (end_of m index))) [
      | inl more ↦
          let end = start + allowance in
          let lt = ltb→lt end (end_of m index) more in
          let last : State = record { offset = end; color = s.color } in
          let due =
            IsTail-due (λ _. flighting) flighting m.size end start s.color refl next (omega arith)
              (omega arith)
              (IsOrdered-weaken (end_of m index) (end + 1) m.size m.size next later (omega arith)
                (omega arith)) in
          let marked =
            assemble (λ _. flighting) m.size start end flighting m.states states from to none
              s.color to (some last) next inside cut (omega arith) fits
              (subst
                (λ u. IsTail (λ _. flighting) flighting m.size end start s.color u (last ∷ next))
                (sym same) due) in
          let plain : take to states ++ next ≡ states =
            ap (λ u. take to states ++ u) (sym same) ∙ take-append-drop to states in
          rw more (
            omega arith,
            omega arith,
            omega arith,
            refl,
            subst
                (λ u.
                  IsMarked (λ _. flighting) m.size start end m.states
                    (finish u from to none (some last)))
                plain marked,
            λ x from_start before. known x from_start (omega arith),
          )
      | inr enough ↦
          let end = end_of m index in
          let le = ltb→le (start + allowance) end enough in
          let new = drop (run_of flighting next) next in
          let run : take to states ++ drop (run_of flighting (drop to states)) (drop to states)
              ≡ take to states ++ new =
            ap (λ u. take to states ++ drop (run_of flighting u) u) same in
          let drained =
            drain_run states to (run_of flighting (drop to states))
              (run_of-le flighting (drop to states)) fits in
          let marked =
            assemble (λ _. flighting) m.size start end flighting m.states states from to none
              s.color to none new inside cut (omega arith) fits
              (subst (λ u. IsTail (λ _. flighting) flighting m.size end start s.color u new)
                (sym same) (whole-IsTail m index start s.color back inside)) in
          rw enough (
            longer,
            le,
            within,
            refl,
            subst
                (λ u.
                  IsMarked (λ _. flighting) m.size start end m.states (finish u from to none none))
                (sym (drained ∙ run)) marked,
            known,
          )
    ]
