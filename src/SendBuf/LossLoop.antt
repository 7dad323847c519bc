-- ===== src/SendBuf/LossLoop.antt =====
-- The loop of `may_loss`.
use gm_quic.Prelude.{
  ℕ, suc, ◌+◌, ◌≤◌, ◌<◌, ◌≡◌, refl, ap, subst, ◌∙◌, List, [], ◌∷◌, ◌++◌, some, arith, true, false,
  ltb, leb, ◌&&◌, ◌==◌, Bool-cases, inl, inr, ltb→lt, ltb→le, ==→eq, length, take, drop,
}
use gm_quic.SendBuf.Map.{
  Color, recved, pending, flighting, lost, ◌is◌, State, run_of, due, finish, Cut, Covered,
}
use gm_quic.SendBuf.Marks.{loss_loop}
use gm_quic.SendBuf.Colors.{color_at, IsOrdered, is→eq, run_of-le}
use gm_quic.SendBuf.Splice.{just}
use gm_quic.SendBuf.Assemble.{IsTail, IsMarked, assemble}
use gm_quic.SendBuf.Cuts.{IsCut}
use gm_quic.SendBuf.Ends.{
  IsSent, IsTail-cons, IsTail-run, IsSent-here, IsSent-behind, was_sent-some,
}
use gm_quic.SendBuf.AckRcvd.{length-drop-le}
use gm_quic.SendBuf.Losses.{lose, IsLossy, IsLossy-lose, is→IsLossy, loss_end}
use gm_quic.SendBuf.LostFrom.{lost_from_lem, IsTail-recved}

-- What the loop of `may_loss` leaves.
abbrev IsLossEnd : ℕ → ℕ → ℕ → ℕ → Color → List State → Covered → Type 0
IsLossEnd size end start i pre rest covered =
    (k : ℕ) × (covered.drain_end ≡ i + k)
    × (k ≤ length rest)
    × IsTail lose lost size end start pre rest
        (just (due covered.at_end end covered.pre_color) ++ covered.rest)

loss_loop_lem :
    (size end start i : ℕ) (pre : Color) (rest : List State)
    → start < end
    → end ≤ size
    → IsLossy pre
    → IsOrdered (start + 1) size rest
    → IsSent start end (color_at pre rest)
    → (covered : Covered) × (loss_loop size end i pre rest ≡ some covered)
      × IsLossEnd size end start i pre rest covered
unfolding loss_loop
loss_loop_lem size end start i pre [] h k lossy o sent =
    let fits : leb end size ≡ true = ground (arith, k) in
    let covered : Covered = record {
      drain_end = i;
      pre_color = pre;
      at_end = ltb end size && (pre is flighting);
      rest = [];
    } in
    (
      covered,
      rw fits refl,
      (
        0,
        omega arith,
        omega arith,
        loss_end size end start pre [] (ltb end size) h lossy (λ e. ltb→lt end size e)
            (λ e. ltb→le end size e) tt,
      ),
    )
loss_loop_lem size end start i pre (s ∷ rest) h hi lossy (a, b, o) sent =
    elim (Bool-cases (ltb s.offset end)) [
      | inl inside ↦
          let lt = ltb→lt s.offset end inside in
          let here =
            IsSent-here (start + 1) size start end pre s rest (a, b, o) (omega arith) lt sent in
          let behind = IsSent-behind start end pre s rest (omega arith) sent in
          let was = was_sent-some s.color here in
          elim (Bool-cases (s.color is recved)) [
            | inl received ↦
                let same = is→eq s.color recved received in
                let (new, e, tail) =
                  lost_from_lem size end s.offset [] recved rest lt hi refl o
                    (subst (λ d. IsSent s.offset end (color_at d rest)) same behind) in
                let covered : Covered = record {
                  drain_end = i;
                  pre_color = pre;
                  at_end = false;
                  rest = s ∷ new;
                } in
                (
                  covered,
                  rw inside (rw was (rw received (rw e refl))),
                  (
                    0,
                    omega arith,
                    omega arith,
                    IsTail-recved size end start lost pre s rest new (IsLossy-lose pre lossy) same
                        (omega arith) lt b tail,
                  ),
                )
            | inr other ↦
                let (covered, e, (k, at, fits, tail)) =
                  loss_loop_lem size end s.offset (suc i) s.color rest lt hi
                    (is→IsLossy s.color here other) o behind in
                (
                  covered,
                  rw inside (rw was (rw other e)),
                  (
                    suc k,
                    omega (arith, at),
                    omega arith,
                    IsTail-cons lose lost size end start pre (IsLossy-lose pre lossy) s rest
                        (just (due covered.at_end end covered.pre_color) ++ covered.rest)
                        (omega arith) lt tail,
                  ),
                )
          ]
      | inr outside ↦ elim (Bool-cases (s.offset == end)) [
        | inl at ↦
            let run = run_of lost (s ∷ rest) in
            let covered : Covered = record {
              drain_end = i + run;
              pre_color = pre;
              at_end = false;
              rest = drop run (s ∷ rest);
            } in
            (
              covered,
              rw outside (rw at refl),
              (
                run,
                refl,
                run_of-le lost (s ∷ rest),
                IsTail-run lose lost size end start pre (IsLossy-lose pre lossy) s rest h
                    (==→eq s.offset end at) (a, b, o),
              ),
            )
        | inr over ↦
            let gt : end < s.offset = ground (arith, outside, over) in
            let covered : Covered = record {
              drain_end = i;
              pre_color = pre;
              at_end = pre is flighting;
              rest = s ∷ rest;
            } in
            (
              covered,
              rw outside (rw over refl),
              (
                0,
                omega arith,
                omega arith,
                loss_end size end start pre (s ∷ rest) true h lossy (λ _. omega (arith, gt, b))
                    (λ e. absurd (cc)) (omega (arith, gt), b, o),
              ),
            )
      ]
    ]

-- What is known of a cut before the loop.
abbrev pub IsLossCut : ℕ → ℕ → List State → Cut → Type 0
IsLossCut size start states cut =
    IsLossy cut.pre_color
    × IsCut size start lost states cut.states cut.drain_start cut.drain_end
        (due cut.at_start start lost) cut.pre_color

-- The rest of `may_loss` behind a cut.
pub loss_from_cut :
    (size start end : ℕ) (states : List State) (cut : Cut)
    → start < end
    → end ≤ size
    → IsSent start end (color_at recved states)
    → IsLossCut size start states cut
    → (covered : Covered) × (loss_loop size end cut.drain_end cut.pre_color
          (drop cut.drain_end cut.states)
        ≡ some covered)
      × IsMarked lose size start end states (
          finish
            (take covered.drain_end cut.states ++ covered.rest)
            cut.drain_start
            covered.drain_end
            (due cut.at_start start lost)
            (due covered.at_end end covered.pre_color))
loss_from_cut size start end states cut h hi sent (lossy, whole) =
    let left = drop cut.drain_end cut.states in
    let same : (x : ℕ) → start ≤ x → color_at cut.pre_color left x ≡ color_at recved states x =
      whole.behind in
    let (covered, f, (k, at, fits, tail)) =
      loss_loop_lem size end start cut.drain_end cut.pre_color left h hi lossy whole.tail
        (λ x from inside. ap (λ d. d is pending) (same x from) ∙ sent x from inside) in
    (
      covered,
      f,
      assemble lose size start end lost states cut.states cut.drain_start cut.drain_end
          (due cut.at_start start lost) cut.pre_color covered.drain_end
          (due covered.at_end end covered.pre_color) covered.rest (omega arith) whole
          (omega (arith, at))
          (omega (arith, at, length-drop-le cut.drain_end k cut.states whole.within fits)) tail,
    )
