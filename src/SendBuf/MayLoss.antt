-- ===== src/SendBuf/MayLoss.antt =====
-- `BufMap::may_loss` against the colors of the bytes.
use gm_quic.Prelude.{
  ℕ, zero, suc, ◌≤◌, ◌<◌, ◌≡◌, refl, ap, subst, ◌∙◌, List, [], ◌++◌, none, some, arith, Bool, true,
  false, not, ltb, Bool-cases, inl, inr, le→ltb, get_elem?, length, take, drop, ◌⊎◌,
}
use gm_quic.RecvBuf.{Search, found, missing}
use gm_quic.SendBuf.Map.{
  recved, pending, flighting, lost, ◌is◌, State, BufMap, due, search, finish, Cut, color_state,
  same_before,
}
use gm_quic.SendBuf.Marks.{loss_cut, lost_from, may_loss}
use gm_quic.SendBuf.Colors.{color_at, IsOrdered, is→eq}
use gm_quic.SendBuf.Assemble.{IsMarked, assemble}
use gm_quic.SendBuf.Cuts.{IsCut, Finds, search-Finds}
use gm_quic.SendBuf.Starts.{found-IsCut, kept-IsCut, due-IsCut, same-IsCut}
use gm_quic.SendBuf.Ends.{IsSent}
use gm_quic.SendBuf.AckStart.{IsCut-pending, IsCut-sent, get-last}
use gm_quic.SendBuf.Losses.{lose, is→IsLossy}
use gm_quic.SendBuf.LostFrom.{lost_from_lem}
use gm_quic.SendBuf.LossLoop.{IsLossCut, loss_from_cut}

-- A range that starts inside received bytes: what is known of the index behind them.
abbrev IsRecvedCut : ℕ → ℕ → List State → ℕ → Type 0
IsRecvedCut size start states i =
    (i ≤ length states) × IsCut size start recved states states i i none recved

-- Whether the range starts at a state that is not received, or behind one.
abbrev pub loss_starts : List State → Search → Bool
loss_starts states (found i) = elim (get_elem? states i) [
  | none ↦ false
  | some s ↦ not (s.color is recved)
]
loss_starts states (missing zero) = false
loss_starts states (missing (suc k)) = true

abbrev IsLossStart : ℕ → ℕ → List State → Search → Type 0
IsLossStart size start states at =
    (i : ℕ) × (((cut : Cut) × (loss_cut states at ≡ some (i, some cut))
        × IsLossCut size start states cut)
      ⊎ ((loss_cut states at ≡ some (i, none)) × IsRecvedCut size start states i))

not-true : (b : Bool) → not b ≡ true → b ≡ false
not-true true h = absurd (cc)
not-true false h = refl

loss_cut_lem :
    (size start end : ℕ) (states : List State) (at : Search)
    → start < end
    → end ≤ size
    → IsOrdered 0 size states
    → IsSent start end (color_at recved states)
    → Finds 0 size states start at
    → loss_starts states at ≡ true
    → IsLossStart size start states at
unfolding loss_cut
loss_cut_lem size start end states (found i) h k o sent (s, e, at, front, back) well =
    let states' = color_state states i lost in
    let cut = found-IsCut size start states i s e at front back (omega arith) lost o in
    let was = IsCut-sent size start end lost states _ _ _ _ _ cut h sent in
    let here = IsCut-pending size start end lost states _ _ _ _ _ cut h sent in
    let other : (s.color is recved) ≡ false =
      not-true (s.color is recved) (rw (e, loss_starts) at well) in
    (
      i,
      elim (is→IsLossy s.color here other) [
        | inl same ↦
            let known : Cut = record {
              states = states';
              drain_start = suc (same_before states' i lost);
              at_start = false;
              drain_end = suc i;
              pre_color = s.color;
            } in
            inl (known, rw e (rw was (rw (ap (λ c. c is flighting) same) refl)), (inl same, cut))
        | inr same ↦
            let known : Cut = record {
              states = states;
              drain_start = suc i;
              at_start = false;
              drain_end = suc i;
              pre_color = s.color;
            } in
            inl (
              known,
              rw e (rw was (rw (ap (λ c. c is flighting) same) refl)),
              (inr same, kept-IsCut size start states i s e at front back (omega arith) lost same),
            )
      ],
    )
loss_cut_lem size start end states (missing zero) h k o sent finds well = absurd (cc)
loss_cut_lem size start end states (missing (suc k)) h hi o sent (le, front, back) well =
    let (s, e, last) = get-last states k le in
    let due_cut =
      subst
        (IsCut size start lost states states (suc k) (suc k)
          (some (record { offset = start; color = lost })))
        last (due-IsCut size start states (suc k) le front back (omega arith) lost) in
    let was = IsCut-sent size start end lost states _ _ _ _ _ due_cut h sent in
    let here = IsCut-pending size start end lost states _ _ _ _ _ due_cut h sent in
    (
      suc k,
      elim (Bool-cases (s.color is recved)) [
        | inl received ↦
            let same = last ∙ is→eq s.color recved received in
            inr (
              rw e (rw was (rw received refl)),
              (
                le,
                subst (IsCut size start recved states states (suc k) (suc k) none) same
                    (same-IsCut size start states (suc k) le front back (omega arith) recved same),
              ),
            )
        | inr other ↦
            let known : Cut = record {
              states = states;
              drain_start = suc k;
              at_start = s.color is flighting;
              drain_end = suc k;
              pre_color = s.color;
            } in
            let lossy = is→IsLossy s.color here other in
            let cut : IsCut size start lost states states (suc k) (suc k)
                (due (s.color is flighting) start lost) s.color =
              elim lossy [
                | inl same ↦ rw (ap (λ c. c is flighting) same) due_cut
                | inr same ↦ rw (ap (λ c. c is flighting) same) (
                    subst (IsCut size start lost states states (suc k) (suc k) none) last (
                      same-IsCut size start states (suc k) le front back (omega arith) lost
                        (last ∙ same)))
              ] in
            inl (known, rw e (rw was (rw other refl)), (lossy, cut))
      ],
    )

loss_recved :
    (size start end i : ℕ) (states : List State)
    → start < end
    → end ≤ size
    → IsSent start end (color_at recved states)
    → IsRecvedCut size start states i
    → (new : List State) × (lost_from size end [] recved (drop i states) ≡ some new)
      × IsMarked lose size start end states (take i states ++ new)
unfolding finish
loss_recved size start end i states h hi sent (le, whole) =
    let left = drop i states in
    let same : (x : ℕ) → start ≤ x → color_at recved left x ≡ color_at recved states x =
      whole.behind in
    let (new, f, tail) =
      lost_from_lem size end start [] recved left h hi refl whole.tail
        (λ x from inside. ap (λ d. d is pending) (same x from) ∙ sent x from inside) in
    let done =
      assemble lose size start end recved states states i i none recved i none new (omega arith)
        whole (omega arith) le tail in
    let empty : ltb i i ≡ false = le→ltb i i (omega arith) in (new, f, rw empty at done)

pub may_loss_lem :
    (m : BufMap) (start end : ℕ)
    → IsOrdered 0 m.size m.states
    → start < end
    → end ≤ m.size
    → IsSent start end (color_at recved m.states)
    → loss_starts m.states (search m.states start) ≡ true
    → (m' : BufMap) × (may_loss m start end ≡ some m')
      × (m'.size ≡ m.size)
      × IsMarked lose m.size start end m.states m'.states
unfolding may_loss
may_loss_lem m start end o h hi sent well =
    let (i, known) =
      loss_cut_lem m.size start end m.states (search m.states start) h hi o sent
        (search-Finds 0 m.size m.states start o) well in
    elim known [
      | inl (cut, e, whole) ↦
          let (covered, f, done) = loss_from_cut m.size start end m.states cut h hi sent whole in
          let states' =
            finish (take covered.drain_end cut.states ++ covered.rest) cut.drain_start
              covered.drain_end (due cut.at_start start lost)
              (due covered.at_end end covered.pre_color) in
          (record m { states = states' }, rw e (rw f refl), refl, done)
      | inr (e, whole) ↦
          let (new, f, done) = loss_recved m.size start end i m.states h hi sent whole in
          (record m { states = take i m.states ++ new }, rw e (rw f refl), refl, done)
    ]
