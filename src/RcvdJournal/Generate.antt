-- ===== src/RcvdJournal/Generate.antt =====
-- qrecovery/src/journal/rcvd.rs, `gen_ack_frame_util`: the ACK frame for what was received, up to a
-- largest number, as far as it fits.
use gm_quic.Prelude.{
  ℕ, suc, ◌+◌, ◌-◌, ◌^◌, List, [], ◌∷◌, ◌++◌, Option, none, some, Bool, false, ltb, leb, ◌==◌,
  if◌then◌else◌, length, take, drop, ◌>>=◌,
}
use gm_quic.VarInt.{from_u64, encoding_size}
use gm_quic.Ack.{AckFrame}
use gm_quic.RcvdJournal.{State, track, RcvdJournal, insert_in}

abbrev pub reversed : List State → List State
reversed [] = []
reversed (s ∷ rest) = reversed rest ++ (s ∷ [])

pub record First : Type 0 where
  pub count : ℕ
  pub visited : List State
  pub rest : List State

-- The first range, with the state behind it, which the loop takes from the iterator too.
unfoldable pub take_first : ℕ → List State → First
unfolding track
take_first pn [] = record { count = 0; visited = []; rest = [] }
take_first pn (s ∷ rest) =
    let more = take_first pn rest in
    let (s', received) = track pn s in
    if received
    then record { count = suc more.count; visited = s' ∷ more.visited; rest = more.rest }
    else record { count = 0; visited = s' ∷ []; rest = rest }

-- `none` is the panic for too many ranges.
unfoldable pub range_count_size_increment : ℕ → Option ℕ
range_count_size_increment range_count =
    if range_count == 2 ^ 6 - 1
    then some 1
    else if range_count == 2 ^ 14 - 1
    then some 2
    else if range_count == 2 ^ 30 - 1
    then some 4
    else if range_count == 2 ^ 62 - 1
    then none
    else some 0

-- The size of a range behind `range_count` others.
unfoldable pub range_size : ℕ → ℕ → ℕ → Option ℕ
unfolding range_count_size_increment encoding_size
range_size range_count gap ack = do
  more ← range_count_size_increment range_count
  of_gap ← encoding_size gap
  of_ack ← encoding_size ack
  some (more + of_gap + of_ack)

pub record Packed : Type 0 where
  pub states : List State
  pub capacity : ℕ
  pub ranges : List (ℕ × ℕ)
  pub gap : ℕ
  pub ack : ℕ
  pub last_is_acked : Bool

abbrev on_states : (List State → List State) → Packed → Packed
on_states f p = record p { states = f p.states }

-- The `try_fold`. A state is tracked once for the match and once for what the step returns.
unfoldable pub pack : ℕ → ℕ → List (ℕ × ℕ) → ℕ → ℕ → Bool → List State → Option Packed
unfolding track range_size
pack pn capacity ranges gap ack last [] = some (record {
  states = [];
  capacity = capacity;
  ranges = ranges;
  gap = gap;
  ack = ack;
  last_is_acked = last;
})
pack pn capacity ranges gap ack last (s ∷ rest) =
    let (s1, received) = track pn s in
    let (s2, again) = track pn s1 in
    let closed = λ (size : ℕ).
      pack pn (capacity - size) (ranges ++ ((gap - 1, ack - 1) ∷ [])) 1 0 again rest in
    let acked = pack pn capacity ranges gap (ack + 1) again rest in
    let missed = pack pn capacity ranges (gap + 1) ack again rest in
    if received
    then (acked >>= λ p. some (on_states (λ l. s2 ∷ l) p))
    else if last
    then (range_size (length ranges) (gap - 1) (ack - 1) >>= λ size.
        if ltb capacity size
        then some (record {
          states = s1 ∷ rest;
          capacity = capacity;
          ranges = ranges;
          gap = 0;
          ack = 0;
          last_is_acked = false;
        })
        else (closed size >>= λ p. some (on_states (λ l. s2 ∷ l) p)))
    else (missed >>= λ p. some (on_states (λ l. s2 ∷ l) p))

-- The last range, if it fits with a byte to spare.
unfoldable pub finish_ranges : Packed → Option (List (ℕ × ℕ))
unfolding range_size
finish_ranges p =
    if p.last_is_acked
    then (range_size (length p.ranges) (p.gap - 1) (p.ack - 1) >>= λ size.
        some (if ltb size p.capacity then p.ranges ++ ((p.gap - 1, p.ack - 1) ∷ []) else p.ranges))
    else some p.ranges

pub data Generated : Type 0 where
  generated : AckFrame → Generated
  congestion : Generated

abbrev forget : Option (ℕ × ℕ) → ℕ → Option (ℕ × ℕ)
forget none largest = none
forget (some (pn, at)) largest = if leb pn largest then none else some (pn, at)

-- What is left to do when the first range and the least length of the frame are known.
unfoldable pub report : RcvdJournal → ℕ → ℕ → ℕ → ℕ → ℕ → First → Option (RcvdJournal × Generated)
unfolding pack finish_ranges
report j pn largest delay capacity min_len first =
    let n = largest + 1 - j.queue.offset in
    let states = λ (l : List State). record j.queue {
      deque = reversed (first.visited ++ l) ++ drop n j.queue.deque;
    } in
    if ltb capacity min_len
    then some (record j { queue = states first.rest }, congestion)
    else (pack pn (capacity - min_len) [] 1 0 false first.rest >>= λ packed.
        finish_ranges packed >>= λ ranges. some (
          record j {
            queue = states packed.states;
            packet_include_ack = insert_in pn j.packet_include_ack;
            earliest_not_ack_time = forget j.earliest_not_ack_time largest;
          },
          generated (record {
            largest = largest;
            delay = delay;
            first_range = first.count - 1;
            ranges = ranges;
            ecn = none;
          }),
        ))

-- `none` is a panic. The first `n` states are the ones up to the largest number.
unfoldable pub gen_ack_frame_util :
    ℕ → RcvdJournal → ℕ → ℕ → ℕ → ℕ → Option (RcvdJournal × Generated)
unfolding report take_first from_u64 encoding_size
gen_ack_frame_util now j pn largest rcvd_time capacity = do
  let n = largest + 1 - j.queue.offset
  let first = take_first pn (reversed (take n j.queue.deque))
  let first_range = first.count - 1
  of_largest ← from_u64 largest >>= encoding_size
  delay ← from_u64 (now - rcvd_time)
  of_delay ← encoding_size delay
  of_first ← encoding_size first_range
  report j pn largest delay capacity (1 + of_largest + of_delay + of_first + 1) first
