-- ===== src/SendBuf/PickFirst.antt =====
-- `BufMap::pick`: which state it picks, and when it picks none.
use gm_quic.Prelude.{
  ℕ, ◌<◌, ◌≡◌, refl, sym, subst, Option, none, some, arith, true, false, if◌then◌else◌, inl, inr,
  ◌⊎◌, min, Option-cases,
}
use gm_quic.SendBuf.Map.{Color, recved, pending, flighting, lost, ◌is◌, State, BufMap}
use gm_quic.SendBuf.Pick.{find_sendable, take_state, pick, Picked, picked, blocked, signals_of}
use gm_quic.SendBuf.Colors.{IsOrdered}
use gm_quic.SendBuf.Found.{is_ready, NoneReady, IsFirst, IsFound, find_sendable_lem}
use gm_quic.SendBuf.Picks.{IsTaken, take_state_lem}

-- How much of a state may be sent.
abbrev pub allowance_of : Color → ℕ → ℕ → ℕ
allowance_of c available flow_limit = if c is lost then available else min available flow_limit

-- What `pick` gives: a part of the first state that can be sent, or nothing, for want of such a
-- state or because the predicate refuses it.
abbrev pub IsPick : BufMap → (ℕ → Option ℕ) → ℕ → BufMap × Picked → Type 0
IsPick m predicate flow_limit (m', blocked signals) =
    (m' ≡ m)
    × (NoneReady flow_limit m.states
        ⊎ ((j : ℕ) × (s : State) × IsFirst flow_limit m.states j s × (predicate s.offset ≡ none)))
IsPick m predicate flow_limit (m', picked start end fresh) =
    (j : ℕ) × (s : State) × (available : ℕ) × IsFirst flow_limit m.states j s
    × (s.offset ≡ start)
    × (fresh ≡ (s.color is pending))
    × (predicate start ≡ some available)
    × IsTaken m s (allowance_of s.color available flow_limit) (m', end)

allowance_of-positive :
    (c : Color) (available flow_limit : ℕ)
    → is_ready flow_limit c ≡ true
    → 0 < available
    → 0 < allowance_of c available flow_limit
allowance_of-positive pending available flow_limit h k = ground (arith, h, k)
allowance_of-positive flighting available flow_limit h k = absurd (cc)
allowance_of-positive recved available flow_limit h k = absurd (cc)
allowance_of-positive lost available flow_limit h k = k

pub pick_lem :
    (m : BufMap) (predicate : ℕ → Option ℕ) (flow_limit : ℕ)
    → IsOrdered 0 m.size m.states
    → ((x n : ℕ) → predicate x ≡ some n → 0 < n)
    → IsPick m predicate flow_limit (pick m predicate flow_limit)
unfolding pick
pick_lem m predicate flow_limit ordered positive =
    let found = find_sendable_lem flow_limit 0 m.states in
    elim (Option-cases (find_sendable flow_limit 0 m.states).1) [
      | inl e ↦
          let no_one : NoneReady flow_limit m.states =
            subst (IsFound flow_limit 0 m.states) e found in
          let seen = (find_sendable flow_limit 0 m.states).0 in
          let same : pick m predicate flow_limit ≡ (m, blocked (signals_of seen false)) =
            rw (e, pick) refl in
          subst (IsPick m predicate flow_limit) (sym same) (refl, inl no_one)
      | inr ((index, s), e) ↦
          let (j, at, (here, ready, before)) : IsFound flow_limit 0 m.states (some (index, s)) =
            subst (IsFound flow_limit 0 m.states) e found in
          let here_too : j ≡ index = omega (arith, at) in
          let first : IsFirst flow_limit m.states index s =
            subst (λ k. IsFirst flow_limit m.states k s) here_too (here, ready, before) in
          elim (Option-cases (predicate s.offset)) [
            | inl f ↦
                let seen = (find_sendable flow_limit 0 m.states).0 in
                let same : pick m predicate flow_limit ≡ (m, blocked (signals_of seen true)) =
                  rw (e, pick) (rw f refl) in
                subst (IsPick m predicate flow_limit) (sym same) (refl, inr (index, s, first, f))
            | inr (n, f) ↦
                let taken =
                  take_state_lem m index s (allowance_of s.color n flow_limit) ordered first.0
                    (allowance_of-positive s.color n flow_limit ready (positive s.offset n f)) in
                let (m', end) = take_state m index s (allowance_of s.color n flow_limit) in
                let same : pick m predicate flow_limit
                    ≡ (m', picked s.offset end (s.color is pending)) =
                  rw (e, pick) (rw f refl) in
                subst (IsPick m predicate flow_limit) (sym same)
                  (index, s, n, first, refl, refl, f, taken)
          ]
    ]
