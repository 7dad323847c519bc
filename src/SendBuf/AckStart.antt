-- ===== src/SendBuf/AckStart.antt =====
-- What `ack_rcvd` knows before its loop.
use gm_quic.Prelude.{
  ℕ, zero, suc, ◌+◌, ◌≤◌, ◌<◌, ◌≡◌, refl, ap, sym, subst, ◌∙◌, List, [], ◌∷◌, Option, none, some,
  arith, false, not, Bool-cases, inl, inr, get_elem?, length, take, drop,
}
use gm_quic.RecvBuf.{Search, found, missing}
use gm_quic.SendBuf.Map.{Color, recved, pending, ◌is◌, State, due, Cut, color_state, same_before}
use gm_quic.SendBuf.Marks.{was_sent, ack_cut}
use gm_quic.SendBuf.Colors.{color_at, last_color, IsOrdered, color_at-before, is→eq}
use gm_quic.SendBuf.Splice.{take-suc, last_color-append}
use gm_quic.SendBuf.Cuts.{IsCut, Finds}
use gm_quic.SendBuf.Starts.{found-IsCut, due-IsCut, same-IsCut}
use gm_quic.SendBuf.Ends.{IsSent, was_sent-some}

-- The color in front of a cut is the one of the byte at the start.
pub IsCut-pending :
    (size start end : ℕ) (c : Color) (states states' : List State) (from to : ℕ)
    (first : Option State) (pre : Color)
    → IsCut size start c states states' from to first pre
    → start < end
    → IsSent start end (color_at recved states)
    → (pre is pending) ≡ false
IsCut-pending size start end c states states' from to first pre cut h sent =
    let at_start =
      color_at-before (start + 1) size pre (drop to states') start cut.tail (omega arith) in
    ap (λ d. d is pending) (sym at_start ∙ cut.behind start (omega arith))
    ∙ sent start (omega arith) h

pub IsCut-sent :
    (size start end : ℕ) (c : Color) (states states' : List State) (from to : ℕ)
    (first : Option State) (pre : Color)
    → IsCut size start c states states' from to first pre
    → start < end
    → IsSent start end (color_at recved states)
    → was_sent pre ≡ some tt
IsCut-sent size start end c states states' from to first pre cut h sent =
    was_sent-some pre (IsCut-pending size start end c states states' from to first pre cut h sent)

get-inside :
    (states : List State) (k : ℕ)
    → suc k ≤ length states
    → (s : State) × (get_elem? states k ≡ some s)
get-inside [] k h = absurd (omega arith)
get-inside (s ∷ states) zero h = (s, refl)
get-inside (s ∷ states) (suc k) h = get-inside states k (omega arith)

pub get-last :
    (states : List State) (k : ℕ)
    → suc k ≤ length states
    → (s : State) × (get_elem? states k ≡ some s)
      × (last_color recved (take (suc k) states) ≡ s.color)
get-last states k h =
    let (s, e) = get-inside states k h in
    (
      s,
      e,
      ap (last_color recved) (take-suc states k s e) ∙ last_color-append recved (take k states) s,
    )

-- What `ack_rcvd` knows before its loop.
abbrev IsAckCut : ℕ → ℕ → List State → Search → Type 0
IsAckCut size start states at =
    (cut : Cut) × (ack_cut states at ≡ some cut)
    × IsCut size start recved states cut.states cut.drain_start cut.drain_end
        (due cut.at_start start recved) cut.pre_color

pub ack_cut_lem :
    (size start end : ℕ) (states : List State) (at : Search)
    → start < end
    → end ≤ size
    → IsOrdered 0 size states
    → IsSent start end (color_at recved states)
    → Finds 0 size states start at
    → IsAckCut size start states at
unfolding ack_cut
ack_cut_lem size start end states (found i) h k o sent (s, e, at, front, back) =
    let cut = found-IsCut size start states i s e at front back (omega arith) recved o in
    let was = IsCut-sent size start end recved states _ _ _ _ _ cut h sent in
    let states' = color_state states i recved in
    let known : Cut = record {
      states = states';
      drain_start = suc (same_before states' i recved);
      at_start = false;
      drain_end = suc i;
      pre_color = s.color;
    } in
    (known, rw e (rw was refl), cut)
ack_cut_lem size start end states (missing zero) h k o sent (le, front, back) = (
  record { states = states; drain_start = 0; at_start = false; drain_end = 0; pre_color = recved },
  refl,
  same-IsCut size start states 0 le front back (omega arith) recved refl,
)
ack_cut_lem size start end states (missing (suc k)) h hi o sent (le, front, back) =
    let (s, e, last) = get-last states k le in
    let due_cut =
      subst
        (IsCut size start recved states states (suc k) (suc k)
          (some (record { offset = start; color = recved })))
        last (due-IsCut size start states (suc k) le front back (omega arith) recved) in
    let was = IsCut-sent size start end recved states _ _ _ _ _ due_cut h sent in
    let known : Cut = record {
      states = states;
      drain_start = suc k;
      at_start = not (s.color is recved);
      drain_end = suc k;
      pre_color = s.color;
    } in
    let cut : IsCut size start recved states states (suc k) (suc k)
        (due (not (s.color is recved)) start recved) s.color =
      elim (Bool-cases (s.color is recved)) [
        | inr other ↦ rw other due_cut
        | inl same ↦ rw same (
            subst (IsCut size start recved states states (suc k) (suc k) none) last (
              same-IsCut size start states (suc k) le front back (omega arith) recved
                (last ∙ is→eq s.color recved same)))
      ] in
    (known, rw e (rw was refl), cut)
