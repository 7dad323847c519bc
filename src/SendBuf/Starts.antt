-- ===== src/SendBuf/Starts.antt =====
-- The cuts that `ack_rcvd` and `may_loss` make at the start of the range.
use gm_quic.Prelude.{
  ℕ, zero, suc, ◌+◌, ◌≤◌, ◌<◌, ◌≡◌, refl, ap, sym, subst, ◌∙◌, List, [], ◌∷◌, ◌++◌, none, some,
  arith, false, ltb, le→ltb, get_elem?, length, take, drop, take-append-drop,
}
use mathlib.Core.List.{append-nil}
use gm_quic.SendBuf.Map.{Color, recved, State, set_color, color_state, same_before}
use gm_quic.SendBuf.Colors.{
  color_at, last_color, IsOrdered, IsOrdered-weaken, IsOrdered-append, color_at-behind,
}
use gm_quic.SendBuf.Splice.{same_before-le, take-suc}
use gm_quic.SendBuf.Cuts.{
  IsCut, IsFront, one-IsFront, same-IsFront, run-IsFront, split-get, take-color_state,
  drop-color_state, length-color_state,
}

pub get-below :
    (states : List State) (i : ℕ) (s : State) → get_elem? states i ≡ some s → i < length states
get-below [] i s e = absurd (cc)
get-below (t ∷ states) zero s e = omega arith
get-below (t ∷ states) (suc i) s e = omega (arith, get-below states i s e)

IsOrdered-shorter :
    (lo hi m n : ℕ) (states : List State)
    → m ≤ n
    → IsOrdered lo hi (take n states)
    → IsOrdered lo hi (take m states)
IsOrdered-shorter lo hi zero n states h o = tt
IsOrdered-shorter lo hi (suc m) zero states h o = absurd (omega arith)
IsOrdered-shorter lo hi (suc m) (suc n) [] h o = tt
IsOrdered-shorter lo hi (suc m) (suc n) (s ∷ states) h (a, b, o) =
    (a, b, IsOrdered-shorter (s.offset + 1) hi m n states (omega arith) o)

-- Ordered states in front of `start` and one at `start`.
IsOrdered-upto :
    (start : ℕ) (front : List State) (s : State)
    → IsOrdered 0 start front
    → s.offset ≡ start
    → IsOrdered 0 (start + 1) (front ++ (s ∷ []))
IsOrdered-upto start front s o e =
    IsOrdered-append 0 start (start + 1) front (s ∷ []) o (omega (arith, e), omega (arith, e), tt)
      (omega arith) (omega arith)

-- A state at the start of the range itself.
module _ (size start : ℕ) (states : List State) (i : ℕ) (s : State)
    (at : get_elem? states i ≡ some s) (starts : s.offset ≡ start)
    (front : IsOrdered 0 start (take i states))
    (back : IsOrdered (start + 1) size (drop (suc i) states)) (inside : start < size) where
  color_at-found :
      (x : ℕ) → start ≤ x → color_at s.color (drop (suc i) states) x ≡ color_at recved states x
  color_at-found x ge =
      let rest = drop (suc i) states in
      let here : ltb x s.offset ≡ false = le→ltb x s.offset (omega (arith, starts, ge)) in
      sym (
        ap (λ u. color_at recved u x) (sym (split-get states i s at))
        ∙ color_at-behind 0 start recved (take i states) (s ∷ rest) x front (omega arith)
        ∙ rw here)

  pub found-IsCut :
      (c : Color)
      → IsOrdered 0 size states
      → (let states' = color_state states i c in
          IsCut size start c states states' (suc (same_before states' i c)) (suc i) none s.color)
  found-IsCut c ordered =
      let states' = color_state states i c in
      let from = suc (same_before states' i c) in
      let le = same_before-le states' i c in
      let whole : IsOrdered 0 (start + 1) (take (suc i) states') =
        subst (IsOrdered 0 (start + 1)) (sym (take-color_state states i s c at))
          (IsOrdered-upto start (take i states) (set_color s c) front starts) in
      record {
        order = omega (arith, le);
        within = omega (arith, get-below states i s at, length-color_state states i c);
        front =
            subst (λ u. IsFront size start c u states) (sym (append-nil (take from states')))
              (run-IsFront size start c states i s ordered at starts front back);
        low =
            subst (IsOrdered 0 (start + 1)) (sym (append-nil (take from states')))
              (IsOrdered-shorter 0 (start + 1) from (suc i) states' (omega (arith, le)) whole);
        tail = subst (IsOrdered (start + 1) size) (sym (drop-color_state states i c)) back;
        behind = λ x ge.
            ap (λ u. color_at s.color u x) (drop-color_state states i c) ∙ color_at-found x ge;
      }

  -- The state has the color already, and stays.
  pub kept-IsCut :
      (c : Color) → s.color ≡ c → IsCut size start c states states (suc i) (suc i) none s.color
  kept-IsCut c same =
      let mid : State = record { offset = start; color = c } in
      let here : s ≡ mid =
        ap (λ n. record { offset = n; color = s.color }) starts
        ∙ ap (λ d. record { offset = start; color = d }) same in
      let front' = sym (append-nil (take (suc i) states) ∙ take-suc states i s at) in
      record {
        order = omega arith;
        within = omega (arith, get-below states i s at);
        front =
            subst (λ u. IsFront size start c u states)
              (ap (λ u. take i states ++ (u ∷ [])) (sym here) ∙ front')
              (subst (IsFront size start c (take i states ++ (mid ∷ []))) (split-get states i s at)
                (one-IsFront size start c (take i states) (s ∷ drop (suc i) states) front
                  (
                    omega (arith, starts),
                    omega (arith, starts, inside),
                    subst (λ n. IsOrdered (n + 1) size (drop (suc i) states)) (sym starts) back,
                  )
                  inside));
        low =
            subst (IsOrdered 0 (start + 1)) front'
              (IsOrdered-upto start (take i states) s front starts);
        tail = back;
        behind = color_at-found;
      }

-- No state at the start of the range: it lies behind the first `i`.
module _ (size start : ℕ) (states : List State) (i : ℕ) (some_left : i ≤ length states)
    (front : IsOrdered 0 start (take i states)) (back : IsOrdered (start + 1) size (drop i states))
    (inside : start < size) where
  back_from : IsOrdered start size (drop i states)
  back_from =
      IsOrdered-weaken (start + 1) start size size (drop i states) back (omega arith) (omega arith)

  color_at-missing :
      (x : ℕ)
      → start ≤ x
      → color_at (last_color recved (take i states)) (drop i states) x ≡ color_at recved states x
  color_at-missing x ge = sym (
      ap (λ u. color_at recved u x) (sym (take-append-drop i states))
      ∙ color_at-behind 0 start recved (take i states) (drop i states) x front (omega arith))

  -- A state is put in at the start.
  pub due-IsCut :
      (c : Color)
      → IsCut size start c states states i i
          (some (record { offset = start; color = c }))
          (last_color recved (take i states))
  due-IsCut c = record {
    order = omega arith;
    within = some_left;
    front =
        subst (IsFront size start c (take i states ++ (record { offset = start; color = c } ∷ [])))
          (take-append-drop i states)
          (one-IsFront size start c (take i states) (drop i states) front back_from inside);
    low = IsOrdered-upto start (take i states) (record { offset = start; color = c }) front refl;
    tail = back;
    behind = color_at-missing;
  }

  -- The color is there already.
  pub same-IsCut :
      (c : Color)
      → last_color recved (take i states) ≡ c
      → IsCut size start c states states i i none (last_color recved (take i states))
  same-IsCut c same =
      let front' = sym (append-nil (take i states)) in
      record {
        order = omega arith;
        within = some_left;
        front =
            subst (λ u. IsFront size start c u states) front'
              (subst (IsFront size start c (take i states)) (take-append-drop i states)
                (same-IsFront size start c (take i states) (drop i states) front back_from same));
        low = subst (IsOrdered 0 (start + 1)) front' (
            IsOrdered-weaken 0 0 start (start + 1) (take i states) front (omega arith)
              (omega arith));
        tail = back;
        behind = color_at-missing;
      }
