-- ===== src/SendBuf/Map.antt =====
-- qrecovery/src/send/sndbuf.rs, `BufMap`: which bytes are pending, in flight, lost or received. The
-- `VecDeque` of states is a list, front first. A failed `debug_assert!` is `none`.
use gm_quic.Prelude.{
  ℕ, zero, suc, ◌+◌, ◌^◌, List, [], ◌∷◌, ◌++◌, Option, none, some, Bool, true, false, ◌&&◌, ltb,
  ◌==◌, if◌then◌else◌, get_elem?, set, take, drop, ◌>>◌, guard,
}
use gm_quic.RecvBuf.{Search, found, missing, insert_at}

pub data Color : Type 0 where
  pending flighting recved lost : Color

infix 50 ◌is◌
abbrev pub ◌is◌ : Color → Color → Bool
pending is pending = true
flighting is flighting = true
recved is recved = true
lost is lost = true
_ is _ = false

-- `State`, which the source packs into a `u64`: the offset below 2 ^ 62 and the color above.
pub record State : Type 0 where
  pub offset : ℕ
  pub color : Color

pub record BufMap : Type 0 where
  pub states : List State
  pub size : ℕ

abbrev pub empty : BufMap
empty = record { states = []; size = 0 }

-- `VecDeque::back`
abbrev pub back {ℓ} : {A : Type ℓ} → List A → Option A
back [] = none
back (x ∷ []) = some x
back (x ∷ y ∷ rest) = back (y ∷ rest)

abbrev pub set_color : State → Color → State
set_color s c = record s { color = c }

-- `set_color` on the state at an index.
abbrev pub color_state : List State → ℕ → Color → List State
color_state [] i c = []
color_state (s ∷ rest) zero c = set_color s c ∷ rest
color_state (s ∷ rest) (suc i) c = s ∷ color_state rest i c

unfoldable pub extend_to : BufMap → ℕ → Option BufMap
extend_to m pos =
    let longer = m.states ++ (record { offset = m.size; color = pending } ∷ []) in
    guard (ltb pos (2 ^ 62) && ltb m.size pos)
    >> some (record {
      states = elim (back m.states) [
        | none ↦ longer
        | some s ↦ if s.color is pending then m.states else longer
      ];
      size = pos;
    })

unfoldable pub sent : BufMap → ℕ
sent m = elim (back m.states) [
  | none ↦ m.size
  | some s ↦ if s.color is pending then s.offset else m.size
]

-- `same_before`, where index 0 has none before it.
unfoldable pub same_before : List State → ℕ → Color → ℕ
same_before states zero c = zero
same_before states (suc i) c =
    let earlier = same_before states i c in
    elim (get_elem? states i) [ none ↦ suc i | some s ↦ if s.color is c then earlier else suc i ]

-- How many states at the front have the color.
unfoldable pub run_of : Color → List State → ℕ
run_of c [] = 0
run_of c (s ∷ rest) = if s.color is c then suc (run_of c rest) else 0

-- `same_after(next - 1, c) + 1` in the wrapping arithmetic of its callers: the first index from
-- `next` on whose state has another color.
unfoldable pub same_after : List State → ℕ → Color → ℕ
unfolding run_of
same_after states next c = next + run_of c (drop next states)

abbrev pub drain : List State → ℕ → ℕ → List State
drain states from to = take from states ++ drop to states

-- A state for index `from`: in the place of one that is to go, if there is one, or put in.
abbrev pub place : List State → ℕ → ℕ → State → List State
place states from to s = if ltb from to then set states from s else insert_at states from s

-- The end of `ack_rcvd`, `may_loss` and `lost_from`: the new states for the two ends of the range,
-- and the removal of the states that it covers.
unfoldable pub finish : List State → ℕ → ℕ → Option State → Option State → List State
finish states from to (some first) (some last) =
    let states2 = place (place states from to first) (suc from) to last in
    if ltb (suc (suc from)) to then drain states2 (suc (suc from)) to else states2
finish states from to (some first) none =
    let states1 = place states from to first in
    if ltb (suc from) to then drain states1 (suc from) to else states1
finish states from to none (some last) =
    let states1 = place states from to last in
    if ltb (suc from) to then drain states1 (suc from) to else states1
finish states from to none none = if ltb from to then drain states from to else states

-- `binary_search_by` on states in the order of their offsets.
abbrev pub bump : Search → Search
bump (found i) = found (suc i)
bump (missing i) = missing (suc i)

unfoldable pub search : List State → ℕ → Search
search [] start = missing 0
search (s ∷ rest) start =
    if s.offset == start
    then found 0
    else if ltb start s.offset
    then missing 0
    else bump (search rest start)

-- What is known before the loops: the states, where the covered ones start, whether a state is due
-- at the start of the range, the next index, and the color in front of it.
pub record Cut : Type 0 where
  pub states : List State
  pub drain_start : ℕ
  pub at_start : Bool
  pub drain_end : ℕ
  pub pre_color : Color

-- What the loops find: the index behind the covered states, the color of the last of them, whether
-- a state is due at the end of the range, and the states from that index on.
pub record Covered : Type 0 where
  pub drain_end : ℕ
  pub pre_color : Color
  pub at_end : Bool
  pub rest : List State

abbrev pub due : Bool → ℕ → Color → Option State
due true offset color = some (record { offset = offset; color = color })
due false offset color = none
