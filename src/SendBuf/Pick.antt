-- ===== src/SendBuf/Pick.antt =====
-- qrecovery/src/send/sndbuf.rs, `BufMap::pick`: the next bytes to send, which are in flight then.
use gm_quic.Prelude.{
  ℕ, suc, ◌+◌, min, List, [], ◌∷◌, Option, none, some, Bool, true, false, ltb, ◌==◌, if◌then◌else◌,
  get_elem?,
}
use gm_quic.SendBuf.Map.{
  pending, flighting, recved, lost, ◌is◌, State, BufMap, color_state, same_before, same_after,
  drain, finish,
}

-- The signals that the code touches: what has to happen before something can be sent.
pub record Signals : Type 0 where
  pub written : Bool
  pub transport : Bool
  pub flow_control : Bool
  pub congestion : Bool

pub data Picked : Type 0 where
  -- The range, and whether the data in it was never sent.
  picked : ℕ → ℕ → Bool → Picked
  blocked : Signals → Picked

-- The search for the first state that can be sent, with its index, and whether it passed pending
-- data for want of flow control.
unfoldable pub find_sendable : ℕ → ℕ → List State → Bool × Option (ℕ × State)
find_sendable flow_limit i [] = (false, none)
find_sendable flow_limit i (s ∷ rest) =
    let later = find_sendable flow_limit (suc i) rest in
    elim (s.color) [
      | pending ↦ if flow_limit == 0 then (true, later.1) else (false, some (i, s))
      | lost ↦ (false, some (i, s))
      | flighting ↦ later
      | recved ↦ later
    ]

abbrev pub signals_of : Bool → Bool → Signals
signals_of seen congested = record {
  written = if seen then false else true;
  transport = true;
  flow_control = seen;
  congestion = congested;
}

-- The end of the state at an index: the offset of the next one, or the end of the map.
abbrev pub end_of : BufMap → ℕ → ℕ
end_of m index = elim (get_elem? m.states (suc index)) [ none ↦ m.size | some s ↦ s.offset ]

-- The state at `index` goes in flight; of more bytes than `allowance` the rest stays as it was.
unfoldable pub take_state : BufMap → ℕ → State → ℕ → BufMap × ℕ
unfolding same_before same_after finish
take_state m index s allowance =
    let end = end_of m index in
    let states = color_state m.states index flighting in
    let i = same_before states index flighting in
    let merged = same_after states (suc index) flighting in
    let states' = if ltb (suc index) merged then drain states (suc index) merged else states in
    if ltb (s.offset + allowance) end
    then (
      record m {
        states =
            finish states (suc i) (suc index) none
              (some (record { offset = s.offset + allowance; color = s.color }));
      },
      s.offset + allowance,
    )
    else (record m { states = finish states' (suc i) (suc index) none none }, end)

unfoldable pub pick : BufMap → (ℕ → Option ℕ) → ℕ → BufMap × Picked
unfolding find_sendable take_state
pick m predicate flow_limit =
    let (seen, first) = find_sendable flow_limit 0 m.states in
    elim first [
      | none ↦ (m, blocked (signals_of seen false))
      | some (index, s) ↦ elim (predicate s.offset) [
        | none ↦ (m, blocked (signals_of seen true))
        | some available ↦
            let allowance = if s.color is lost then available else min available flow_limit in
            let (m', end) = take_state m index s allowance in
            (m', picked s.offset end (s.color is pending))
      ]
    ]
