-- ===== src/IndexDeque.antt =====
-- qbase/src/util/index_deque.rs: a queue whose elements keep the index that they were queued at.
-- The `VecDeque` is the list of its elements, front first; an operation that changes the queue
-- returns the new one.
pub mod Laws
mod Tests
use gm_quic.Prelude.{
  ℕ, zero, suc, ◌+◌, ◌-◌, ◌%◌, ◌^◌, ◌≡◌, min, max, List, [], ◌∷◌, ◌++◌, Option, none, some, Bool,
  true, false, ◌&&◌, ltb, leb, if◌then◌else◌, length, get_elem?, set, take, drop, replicate,
}

pub data IndexError : Type 0 where
  exceed_limit : ℕ → ℕ → IndexError
  too_small : ℕ → ℕ → IndexError

pub data Result {ℓ} (A : Type ℓ) : Type ℓ where
  ok : A → Result A
  err : IndexError → Result A

pub record IndexDeque {ℓ} (T : Type ℓ) : Type ℓ where
  pub deque : List T
  pub offset : ℕ

module _ {ℓ} {T : Type ℓ} where
  -- `default` and `with_capacity`.
  abbrev pub empty : IndexDeque T
  empty = record { deque = []; offset = 0 }

  unfoldable pub is_empty : IndexDeque T → Bool
  is_empty q = elim (q.deque) [ [] ↦ true | _ ∷ _ ↦ false ]

  abbrev pub len : IndexDeque T → ℕ
  len q = length q.deque

  abbrev pub largest : IndexDeque T → ℕ
  largest q = q.offset + len q

  unfoldable pub contain : IndexDeque T → ℕ → Bool
  contain q idx = leb q.offset idx && ltb idx (largest q)

  unfoldable pub get : IndexDeque T → ℕ → Option T
  unfolding contain
  get q idx = if contain q idx then get_elem? q.deque (idx - q.offset) else none

  -- A write through `get_mut`; on an index that is not there nothing is written.
  unfoldable pub update : IndexDeque T → ℕ → T → IndexDeque T
  unfolding contain
  update q idx v = if contain q idx then record q { deque = set q.deque (idx - q.offset) v } else q

  -- The limit is the constant parameter `LIMIT`.
  unfoldable pub push_back : ℕ → IndexDeque T → T → IndexDeque T × Result ℕ
  push_back limit q v =
      let next = (q.offset + len q) % 2 ^ 64 in
      if leb (2 ^ 64) (q.offset + len q)
      then (q, err (exceed_limit next limit))
      else if ltb limit next
      then (q, err (exceed_limit next limit))
      else (record q { deque = q.deque ++ (v ∷ []) }, ok (len q + 1 - 1 + q.offset))

  unfoldable pub pop_front : IndexDeque T → IndexDeque T × Option (ℕ × T)
  pop_front q = elim (q.deque) [
    | [] ↦ (q, none)
    | v ∷ rest ↦ (record { deque = rest; offset = q.offset + 1 }, some (q.offset, v))
  ]

  unfoldable pub front : IndexDeque T → Option T
  front q = get_elem? q.deque 0

  -- `enumerate`: the elements with their indices, in order.
  abbrev pub enumerate_from : ℕ → List T → List (ℕ × T)
  enumerate_from i [] = []
  enumerate_from i (v ∷ rest) = (i, v) ∷ enumerate_from (i + 1) rest

  unfoldable pub enumerate : IndexDeque T → List (ℕ × T)
  enumerate q = enumerate_from q.offset q.deque

  -- `drain(..n)` panics beyond the length.
  unfoldable pub advance : IndexDeque T → ℕ → Option (IndexDeque T)
  advance q n =
      if ltb (len q) n
      then none
      else some (record { deque = drop n q.deque; offset = q.offset + n })

  -- The `debug_assert` on `end` is compiled out of tests only: `none` is its failure.
  unfoldable pub drain_to : IndexDeque T → ℕ → Option (IndexDeque T × List T)
  drain_to q end =
      let end' = max end q.offset in
      let offset' = min end' (q.offset + len q) in
      let n = offset' - q.offset in
      if leb q.offset end && leb end (q.offset + len q)
      then some (record { deque = drop n q.deque; offset = offset' }, take n q.deque)
      else none

  abbrev pub reset_offset : IndexDeque T → ℕ → IndexDeque T
  reset_offset q new_offset = record q { offset = new_offset }

  abbrev pub extend : IndexDeque T → List T → IndexDeque T
  extend q items = record q { deque = q.deque ++ items }

  -- `VecDeque::resize`.
  abbrev pub resize_deque : List T → ℕ → T → List T
  resize_deque xs n v = take n xs ++ replicate (n - length xs) v

  -- `default` is `T::default()`.
  unfoldable pub insert : ℕ → T → IndexDeque T → ℕ → T → IndexDeque T × Result (Option T)
  insert limit default q idx v =
      let pos = idx - q.offset in
      if ltb limit idx
      then (q, err (exceed_limit idx limit))
      else if ltb idx q.offset
      then (q, err (too_small idx q.offset))
      else if ltb pos (len q)
      then (record q { deque = set q.deque pos v }, ok (get_elem? q.deque pos))
      else (
        record q {
          deque =
              (if ltb (len q) pos then resize_deque q.deque pos default else q.deque) ++ (v ∷ []);
        },
        ok none,
      )

  unfoldable pub resize : ℕ → IndexDeque T → ℕ → T → IndexDeque T × Result (Unit {0})
  resize limit q new_end v =
      if ltb new_end q.offset
      then (q, err (too_small new_end q.offset))
      else if ltb limit new_end
      then (q, err (exceed_limit new_end limit))
      else (record q { deque = resize_deque q.deque (new_end - q.offset) v }, ok tt)
