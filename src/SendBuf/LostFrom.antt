-- ===== src/SendBuf/LostFrom.antt =====
-- `BufMap::lost_from` against the colors of the bytes.
use gm_quic.Prelude.{
  ℕ, suc, ◌+◌, ◌≤◌, ◌<◌, ◌≡◌, refl, ap, sym, subst, ◌∙◌, List, [], ◌∷◌, ◌++◌, none, some, arith,
  true, false, ltb, leb, ◌&&◌, ◌==◌, Bool-cases, inl, inr, ltb→lt, ltb→le, lt→ltb, le→ltb, ==→eq,
  length, drop,
}
use mathlib.Core.List.{append-nil}
use gm_quic.SendBuf.Map.{
  Color, recved, flighting, lost, ◌is◌, State, run_of, due, finish, set_color,
}
use gm_quic.SendBuf.Marks.{lost_from, finish_lost}
use gm_quic.SendBuf.Colors.{color_at, IsOrdered, IsOrdered-drop, color_at-run, is→eq, run_of-le}
use gm_quic.SendBuf.Splice.{just, finish_lem}
use gm_quic.SendBuf.Assemble.{IsTail}
use gm_quic.SendBuf.Ends.{
  IsSent, IsTail-cons, IsTail-turn, IsTail-same, IsTail-run, IsSent-here, IsSent-behind,
  was_sent-some,
}
use gm_quic.SendBuf.Losses.{
  lose, IsLossy-lose, is→IsLossy, loss_end, Leads, IsLost, finish_lost_lem,
}

-- A state at the end of the range, behind received bytes: only what follows it in its color goes.
lost_run :
    (size end start : ℕ) (s : State) (rest : List State)
    → start < end
    → s.offset ≡ end
    → IsOrdered (start + 1) size (s ∷ rest)
    → IsTail lose recved size end start recved
        (s ∷ rest)
        (finish_lost (s ∷ rest) (0 + run_of lost (s ∷ rest)) none)
unfolding finish_lost finish run_of
lost_run size end start s rest h at (a, b, o) = elim (Bool-cases (s.color is lost)) [
  | inr other ↦ rw other (
      IsTail-same lose recved size end start recved refl (s ∷ rest) h (inl refl)
        (omega (arith, at), b, o))
  | inl same ↦
      let run = run_of lost rest in
      let is_lost = is→eq s.color lost same in
      let le = run_of-le lost rest in
      let new = finish_lem (s ∷ rest) 1 (0 + suc run) none none (omega arith) (omega (arith, le)) in
      let count : 0 + suc run ≡ suc run = omega arith in
      let plain : drop (0 + suc run) (s ∷ rest) ≡ drop run rest =
        ap (λ k. drop k (s ∷ rest)) count in
      rw same (
        subst (IsTail lose recved size end start recved (s ∷ rest))
          (sym (new ∙ ap (λ u. s ∷ u) plain))
          (
            (a, b, IsOrdered-drop (s.offset + 1) size run rest o),
            λ x from inside. elim (Bool-cases (ltb x s.offset)) [
              | inl before ↦
                  rw before (rw (lt→ltb x end (omega (arith, at, ltb→lt x s.offset before))) refl)
              | inr behind ↦
                  let over : ltb x end ≡ false =
                    le→ltb x end (omega (arith, at, ltb→le x s.offset behind)) in
                  rw behind (
                    rw over (
                      ap (λ d. color_at d (drop run rest) x) is_lost
                      ∙ color_at-run (s.offset + 1) size lost rest x o
                      ∙ ap (λ d. color_at d rest x) (sym is_lost)))
            ],
          ))
]

-- A received state stays, and the states behind it are a case of their own.
pub IsTail-recved :
    (size end start : ℕ) (c pre : Color) (s : State) (rest new : List State)
    → lose pre ≡ c
    → s.color ≡ recved
    → start < s.offset
    → s.offset < end
    → s.offset < size
    → IsTail lose recved size end s.offset recved rest new
    → IsTail lose c size end start pre (s ∷ rest) (s ∷ new)
IsTail-recved size end start c pre s rest new into same a b h tail =
    let eta : s ≡ record { offset = s.offset; color = recved } =
      ap (λ d. record { offset = s.offset; color = d }) same in
    subst (λ u. IsTail lose c size end start pre (s ∷ rest) (u ∷ new)) (sym eta)
      (IsTail-turn lose c size end start pre into recved s rest new a b h
        (subst (λ d. IsTail lose recved size end s.offset d rest new) (sym same) tail))

pub lost_from_lem :
    (size end start : ℕ) (marked : List State) (pre : Color) (rest : List State)
    → start < end
    → end ≤ size
    → Leads marked pre
    → IsOrdered (start + 1) size rest
    → IsSent start end (color_at pre rest)
    → (new : List State) × (lost_from size end marked pre rest ≡ some new)
      × IsLost size end start marked pre rest new
unfolding lost_from finish_lost finish
lost_from_lem size end start [] pre [] h hi leads o sent =
    let fits : leb end size ≡ true = ground (arith, hi) in
    let nothing : due (ltb end size && (pre is flighting)) end pre ≡ none =
      rw leads (elim (Bool-cases (ltb end size)) [ inl e ↦ rw e | inr e ↦ rw e ]) in
    (
      [],
      rw fits (rw nothing refl),
      (
        tt,
        λ x from inside. rw leads (elim (Bool-cases (ltb x end)) [ inl e ↦ rw e | inr e ↦ rw e ]),
      ),
    )
lost_from_lem size end start (m ∷ marked) pre [] h hi leads o sent =
    let fits : leb end size ≡ true = ground (arith, hi) in
    let last = due (ltb end size && (pre is flighting)) end pre in
    let new =
      finish_lost_lem m marked [] 0 (length (m ∷ marked)) last (omega arith) (omega arith) in
    let plain =
      ap (λ u. finish_lost u (length (m ∷ marked)) last) (sym (append-nil (m ∷ marked))) in
    (
      m ∷ (just last ++ []),
      rw fits (ap some (plain ∙ new)),
      (
        just last ++ [],
        refl,
        loss_end size end start pre [] (ltb end size) h leads (λ e. ltb→lt end size e)
            (λ e. ltb→le end size e) tt,
      ),
    )
lost_from_lem size end start [] pre (s ∷ rest) h hi leads (a, b, o) sent =
    elim (Bool-cases (ltb s.offset end)) [
      | inl inside ↦
          let lt = ltb→lt s.offset end inside in
          let here =
            IsSent-here (start + 1) size start end pre s rest (a, b, o) (omega arith) lt sent in
          let behind = IsSent-behind start end pre s rest (omega arith) sent in
          let was = was_sent-some s.color here in
          elim (Bool-cases (s.color is recved)) [
            | inl received ↦
                let same = is→eq s.color recved received in
                let (new, e, tail) =
                  lost_from_lem size end s.offset [] recved rest lt hi refl o
                    (subst (λ d. IsSent s.offset end (color_at d rest)) same behind) in
                (
                  s ∷ new,
                  rw inside (rw was (rw received (rw e refl))),
                  IsTail-recved size end start recved pre s rest new (ap lose leads) same
                      (omega arith) lt b tail,
                )
            | inr other ↦
                let (new, e, (after, same, tail)) =
                  lost_from_lem size end s.offset (set_color s lost ∷ []) s.color rest lt hi
                    (is→IsLossy s.color here other) o behind in
                (
                  new,
                  rw inside (rw was (rw other e)),
                  subst (IsTail lose recved size end start pre (s ∷ rest)) (sym same) (
                      IsTail-turn lose recved size end start pre (ap lose leads) lost s rest after
                        (omega arith) lt b tail),
                )
          ]
      | inr outside ↦ elim (Bool-cases (s.offset == end)) [
        | inl at ↦ (
          finish_lost (s ∷ rest) (0 + run_of lost (s ∷ rest)) none,
          rw outside (rw at refl),
          subst
              (λ d.
                IsTail lose recved size end start d (s ∷ rest)
                  (finish_lost (s ∷ rest) (0 + run_of lost (s ∷ rest)) none))
              (sym leads) (lost_run size end start s rest h (==→eq s.offset end at) (a, b, o)),
        )
        | inr over ↦
            let gt : end < s.offset = ground (arith, outside, over) in
            (
              s ∷ rest,
              rw outside (rw over (rw leads refl)),
              IsTail-same lose recved size end start pre (ap lose leads) (s ∷ rest) h (inl leads)
                  (omega (arith, gt), b, o),
            )
      ]
    ]
lost_from_lem size end start (m ∷ marked) pre (s ∷ rest) h hi leads (a, b, o) sent =
    elim (Bool-cases (ltb s.offset end)) [
      | inl inside ↦
          let lt = ltb→lt s.offset end inside in
          let here =
            IsSent-here (start + 1) size start end pre s rest (a, b, o) (omega arith) lt sent in
          let behind = IsSent-behind start end pre s rest (omega arith) sent in
          let was = was_sent-some s.color here in
          elim (Bool-cases (s.color is recved)) [
            | inl received ↦
                let same = is→eq s.color recved received in
                let (new, e, tail) =
                  lost_from_lem size end s.offset [] recved rest lt hi refl o
                    (subst (λ d. IsSent s.offset end (color_at d rest)) same behind) in
                let made =
                  finish_lost_lem m marked (s ∷ new) 0 (length (m ∷ marked)) none (omega arith)
                    (omega arith) in
                (
                  m ∷ (s ∷ new),
                  rw inside (rw was (rw received (rw e (ap some made)))),
                  (
                    s ∷ new,
                    refl,
                    IsTail-recved size end start lost pre s rest new (IsLossy-lose pre leads) same
                        (omega arith) lt b tail,
                  ),
                )
            | inr other ↦
                let (new, e, (after, same, tail)) =
                  lost_from_lem size end s.offset (m ∷ (marked ++ (set_color s lost ∷ []))) s.color
                    rest lt hi (is→IsLossy s.color here other) o behind in
                (
                  new,
                  rw inside (rw was (rw other e)),
                  (
                    after,
                    same,
                    IsTail-cons lose lost size end start pre (IsLossy-lose pre leads) s rest after
                        (omega arith) lt tail,
                  ),
                )
          ]
      | inr outside ↦ elim (Bool-cases (s.offset == end)) [
        | inl at ↦
            let run = run_of lost (s ∷ rest) in
            let made =
              finish_lost_lem m marked (s ∷ rest) run (length (m ∷ marked) + run) none
                (run_of-le lost (s ∷ rest)) refl in
            (
              m ∷ drop run (s ∷ rest),
              rw outside (rw at (ap some made)),
              (
                drop run (s ∷ rest),
                refl,
                IsTail-run lose lost size end start pre (IsLossy-lose pre leads) s rest h
                    (==→eq s.offset end at) (a, b, o),
              ),
            )
        | inr over ↦
            let gt : end < s.offset = ground (arith, outside, over) in
            let last = due (pre is flighting) end pre in
            let made =
              finish_lost_lem m marked (s ∷ rest) 0 (length (m ∷ marked)) last (omega arith)
                (omega arith) in
            (
              m ∷ (just last ++ (s ∷ rest)),
              rw outside (rw over (ap some made)),
              (
                just last ++ (s ∷ rest),
                refl,
                loss_end size end start pre (s ∷ rest) true h leads (λ _. omega (arith, gt, b))
                    (λ e. absurd (cc)) (omega (arith, gt), b, o),
              ),
            )
      ]
    ]
