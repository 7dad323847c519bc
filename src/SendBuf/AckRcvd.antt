-- ===== src/SendBuf/AckRcvd.antt =====
-- `BufMap::ack_rcvd` against the colors of the bytes.
use gm_quic.Prelude.{
  ℕ, zero, suc, ◌+◌, ◌≤◌, ◌<◌, ◌≡◌, refl, ap, subst, ◌∙◌, List, [], ◌∷◌, ◌++◌, some, arith, Bool,
  true, false, not, ltb, leb, ◌&&◌, ◌==◌, Bool-cases, inl, inr, ltb→lt, ltb→le, ==→eq, length, take,
  drop, take-append-drop, drop-drop,
}
use gm_quic.SendBuf.Map.{
  Color, recved, pending, ◌is◌, State, BufMap, run_of, due, search, finish, Covered,
}
use gm_quic.SendBuf.Marks.{ack_loop, ack_rcvd}
use gm_quic.SendBuf.Colors.{color_at, IsOrdered, IsOrdered-weaken, is→eq, run_of-le}
use gm_quic.SendBuf.Splice.{just}
use gm_quic.SendBuf.Assemble.{IsTail, IsMarked, assemble}
use gm_quic.SendBuf.Cuts.{search-Finds}
use gm_quic.SendBuf.Ends.{
  IsSent, IsTail-cons, IsTail-due, IsTail-same, IsTail-run, IsSent-here, IsSent-behind,
  was_sent-some,
}
use gm_quic.SendBuf.AckStart.{ack_cut_lem}

-- What the loop of `ack_rcvd` leaves: the states that it did not cover, and perhaps one in front.
abbrev IsAckEnd : ℕ → ℕ → ℕ → ℕ → Color → List State → Covered → Type 0
IsAckEnd size end start i pre rest covered =
    (k : ℕ) × (covered.drain_end ≡ i + k)
    × (k ≤ length rest)
    × (covered.rest ≡ drop k rest)
    × IsTail (λ _. recved) recved size end start pre rest
        (just (due covered.at_end end covered.pre_color) ++ covered.rest)

ack_end :
    (size end start : ℕ) (pre : Color) (rest : List State) (b : Bool)
    → start < end
    → (b ≡ true → end < size)
    → (b ≡ false → size ≤ end)
    → IsOrdered (end + 1) size rest
    → IsTail
        (λ _. recved)
        recved
        size
        end
        start
        pre
        rest
        (just (due (b && not (pre is recved)) end pre) ++ rest)
ack_end size end start pre rest true h k l o = elim (Bool-cases (pre is recved)) [
  | inl same ↦ rw same (
      IsTail-same (λ _. recved) recved size end start pre refl rest h (inl (is→eq pre recved same))
        (IsOrdered-weaken (end + 1) end size size rest o (omega arith) (omega arith)))
  | inr other ↦ rw other (IsTail-due (λ _. recved) recved size end start pre refl rest h (k refl) o)
]
ack_end size end start pre rest false h k l o =
    IsTail-same (λ _. recved) recved size end start pre refl rest h (inr (l refl))
      (IsOrdered-weaken (end + 1) end size size rest o (omega arith) (omega arith))

ack_loop_lem :
    (size end start i : ℕ) (pre : Color) (rest : List State)
    → start < end
    → end ≤ size
    → IsOrdered (start + 1) size rest
    → IsSent start end (color_at pre rest)
    → (covered : Covered) × (ack_loop size end i pre rest ≡ some covered)
      × IsAckEnd size end start i pre rest covered
unfolding ack_loop
ack_loop_lem size end start i pre [] h k o sent =
    let fits : leb end size ≡ true = ground (arith, k) in
    let covered : Covered = record {
      drain_end = i;
      pre_color = pre;
      at_end = ltb end size && not (pre is recved);
      rest = [];
    } in
    (
      covered,
      rw fits refl,
      (
        0,
        omega arith,
        omega arith,
        refl,
        ack_end size end start pre [] (ltb end size) h (λ e. ltb→lt end size e)
            (λ e. ltb→le end size e) tt,
      ),
    )
ack_loop_lem size end start i pre (s ∷ rest) h hi (a, b, o) sent =
    elim (Bool-cases (ltb s.offset end)) [
      | inl inside ↦
          let lt = ltb→lt s.offset end inside in
          let was =
            was_sent-some s.color
              (IsSent-here (start + 1) size start end pre s rest (a, b, o) (omega arith) lt sent) in
          let (covered, e, (k, at, fits, left, tail)) =
            ack_loop_lem size end s.offset (suc i) s.color rest lt hi o
              (IsSent-behind start end pre s rest (omega arith) sent) in
          (
            covered,
            rw inside (rw was e),
            (
              suc k,
              omega (arith, at),
              omega arith,
              left,
              IsTail-cons (λ _. recved) recved size end start pre refl s rest
                  (just (due covered.at_end end covered.pre_color) ++ covered.rest) (omega arith) lt
                  tail,
            ),
          )
      | inr outside ↦ elim (Bool-cases (s.offset == end)) [
        | inl same ↦
            let run = run_of recved (s ∷ rest) in
            let covered : Covered = record {
              drain_end = i + run;
              pre_color = pre;
              at_end = false;
              rest = drop run (s ∷ rest);
            } in
            (
              covered,
              rw outside (rw same refl),
              (
                run,
                refl,
                run_of-le recved (s ∷ rest),
                refl,
                IsTail-run (λ _. recved) recved size end start pre refl s rest h
                    (==→eq s.offset end same) (a, b, o),
              ),
            )
        | inr other ↦
            let gt : end < s.offset = ground (arith, outside, other) in
            let covered : Covered = record {
              drain_end = i;
              pre_color = pre;
              at_end = not (pre is recved);
              rest = s ∷ rest;
            } in
            (
              covered,
              rw outside (rw other refl),
              (
                0,
                omega arith,
                omega arith,
                refl,
                ack_end size end start pre (s ∷ rest) true h (λ _. omega (arith, gt, b))
                    (λ e. absurd (cc)) (omega (arith, gt), b, o),
              ),
            )
      ]
    ]

pub length-drop-le :
    (m n : ℕ) (states : List State)
    → m ≤ length states
    → n ≤ length (drop m states)
    → m + n ≤ length states
length-drop-le zero n states h k = omega (arith, k)
length-drop-le (suc m) n [] h k = absurd (omega arith)
length-drop-le (suc m) n (s ∷ states) h k = omega (arith, length-drop-le m n states (omega arith) k)

pub ack_rcvd_lem :
    (m : BufMap) (start end : ℕ)
    → IsOrdered 0 m.size m.states
    → start < end
    → end ≤ m.size
    → IsSent start end (color_at recved m.states)
    → (m' : BufMap) × (ack_rcvd m start end ≡ some m')
      × (m'.size ≡ m.size)
      × IsMarked (λ _. recved) m.size start end m.states m'.states
unfolding ack_rcvd
ack_rcvd_lem m start end o h hi sent =
    let (cut, e, whole) =
      ack_cut_lem m.size start end m.states (search m.states start) h hi o sent
        (search-Finds 0 m.size m.states start o) in
    let left = drop cut.drain_end cut.states in
    let same : (x : ℕ) → start ≤ x → color_at cut.pre_color left x ≡ color_at recved m.states x =
      whole.behind in
    let (covered, f, (k, at, fits, rest, tail)) =
      ack_loop_lem m.size end start cut.drain_end cut.pre_color left h hi whole.tail
        (λ x from inside. ap (λ d. d is pending) (same x from) ∙ sent x from inside) in
    let to = cut.drain_end + k in
    let back : take covered.drain_end cut.states ++ covered.rest ≡ cut.states =
      ap (λ n. take n cut.states ++ covered.rest) at
      ∙ ap (λ u. take to cut.states ++ u) (rest ∙ drop-drop cut.drain_end k cut.states)
      ∙ take-append-drop to cut.states in
    let states' =
      finish cut.states cut.drain_start covered.drain_end (due cut.at_start start recved)
        (due covered.at_end end covered.pre_color) in
    (
      record m { states = states' },
      rw e (rw f refl),
      refl,
      subst
          (λ u.
            IsMarked (λ _. recved) m.size start end m.states
              (finish u cut.drain_start covered.drain_end (due cut.at_start start recved)
                (due covered.at_end end covered.pre_color)))
          back
          (assemble (λ _. recved) m.size start end recved m.states cut.states cut.drain_start
            cut.drain_end (due cut.at_start start recved) cut.pre_color covered.drain_end
            (due covered.at_end end covered.pre_color) covered.rest (omega arith) whole
            (omega (arith, at))
            (omega (arith, at, length-drop-le cut.drain_end k cut.states whole.within fits)) tail),
    )
