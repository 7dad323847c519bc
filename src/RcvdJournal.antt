-- ===== src/RcvdJournal.antt =====
-- qrecovery/src/journal/rcvd.rs: the journal of received packets. The time is a number of
-- microseconds that each call is given; a `HashSet` is the list of its elements. The sums of
-- times and the `u32` counts do not overflow.
pub mod Generate
pub mod Once
pub mod Register
pub mod Reports
pub mod Replay
mod Tests
use gm_quic.Prelude.{
  ℕ, suc, ◌+◌, ◌-◌, ◌*◌, ◌^◌, List, [], ◌∷◌, ◌++◌, Option, none, some, Bool, true, false, ◌&&◌,
  ◌||◌, not, ltb, leb, ◌==◌, if◌then◌else◌, length, take, drop, ◌>>=◌, ◌>>◌, map,
}
use gm_quic.IndexDeque.{Result, ok, err, IndexDeque, largest, get, update, insert, front}
use gm_quic.VarInt.{varint_max, from_u64, encoding_size}
use gm_quic.PacketNumber.{PacketNumber, decode}
use gm_quic.Ack.{AckFrame, Range, iter}

pub data State : Type 0 where
  empty : State
  -- When it came, the latest time for an acknowledgment if it asks for one, when it expires.
  packet_received : ℕ → Option ℕ → ℕ → State
  -- With the numbers of the packets that had an acknowledgment of it.
  ack_sent : Bool → ℕ → ℕ → List ℕ → State
  ack_confirmed : Bool → ℕ → ℕ → State

abbrev pub is_some : Option ℕ → Bool
is_some none = false
is_some (some _) = true

abbrev pub member : ℕ → List ℕ → Bool
member x [] = false
member x (y ∷ ys) = (x == y) || member x ys

abbrev pub insert_in : ℕ → List ℕ → List ℕ
insert_in x xs = if member x xs then xs else x ∷ xs

-- `track_packet_in_ack_frame`: the state after it, and what it returns.
unfoldable pub track : ℕ → State → State × Bool
track pn empty = (empty, false)
track pn (packet_received at latest expire) = (ack_sent (is_some latest) at expire (pn ∷ []), true)
track pn (ack_sent eliciting at expire pns) =
    (ack_sent eliciting at expire (insert_in pn pns), true)
track pn (ack_confirmed eliciting at expire) = (ack_confirmed eliciting at expire, true)

unfoldable pub is_expired : ℕ → State → Bool
is_expired now empty = true
is_expired now (packet_received at latest expire) = false
is_expired now (ack_sent eliciting at expire pns) = false
is_expired now (ack_confirmed eliciting at expire) = not eliciting || ltb expire now

pub record RcvdJournal : Type 0 where
  pub queue : IndexDeque State
  pub max_ack_delay : Option ℕ
  pub packet_include_ack : List ℕ
  pub earliest_not_ack_time : Option (ℕ × ℕ)

abbrev pub with_capacity : Option ℕ → RcvdJournal
with_capacity delay = record {
  queue = record { deque = []; offset = 0 };
  max_ack_delay = delay;
  packet_include_ack = [];
  earliest_not_ack_time = none;
}

pub data Decoded : Type 0 where
  decoded : ℕ → Decoded
  too_old duplicate : Decoded

abbrev pub verdict : ℕ → Option State → Decoded
verdict pn none = decoded pn
verdict pn (some empty) = decoded pn
verdict pn (some (packet_received _ _ _)) = duplicate
verdict pn (some (ack_sent _ _ _ _)) = duplicate
verdict pn (some (ack_confirmed _ _ _)) = duplicate

unfoldable pub decode_pn : RcvdJournal → PacketNumber → Decoded
unfolding get
decode_pn j pkt_number =
    let pn = decode pkt_number (largest j.queue) in
    if ltb pn j.queue.offset then too_old else verdict pn (get j.queue pn)

abbrev or_zero : Option ℕ → ℕ
or_zero none = 0
or_zero (some n) = n

abbrev pub inserted : IndexDeque State × Result (Option State) → Option (IndexDeque State)
inserted (q, ok _) = some q
inserted (q, err _) = none

-- `none` is a failed assertion: the packet is there already, or its number is over the limit.
unfoldable pub put_state : IndexDeque State → ℕ → State → Option (IndexDeque State)
unfolding get update insert
put_state q pn s = elim (get q pn) [
  | some empty ↦ some (update q pn s)
  | some (packet_received _ _ _) ↦ none
  | some (ack_sent _ _ _ _) ↦ none
  | some (ack_confirmed _ _ _) ↦ none
  | none ↦ inserted (insert varint_max empty q pn s)
]

unfoldable pub on_rcvd_pn : ℕ → RcvdJournal → ℕ → Bool → ℕ → Option RcvdJournal
unfolding put_state
on_rcvd_pn now j pn is_ack_eliciting pto =
    let ack_time = if is_ack_eliciting then some (now + or_zero j.max_ack_delay) else none in
    put_state j.queue pn (packet_received now ack_time (now + pto * 3)) >>= λ queue.
    some (record j {
      queue = queue;
      earliest_not_ack_time = elim (j.earliest_not_ack_time) [
        | none ↦ some (pn, now)
        | some t ↦ some t
      ];
    })

abbrev in_ranges : ℕ → List Range → Bool
in_ranges pn [] = false
in_ranges pn (r ∷ rs) = (leb r.first pn && leb pn r.last) || in_ranges pn rs

abbrev filter_by : (ℕ → Bool) → List ℕ → List ℕ
filter_by p [] = []
filter_by p (x ∷ xs) = if p x then x ∷ filter_by p xs else filter_by p xs

abbrev any_in : List ℕ → List ℕ → Bool
any_in [] acked = false
any_in (pn ∷ pns) acked = member pn acked || any_in pns acked

-- A packet is confirmed with any of the packets that acknowledged it.
unfoldable pub confirm : List ℕ → State → State
confirm acked empty = empty
confirm acked (packet_received at latest expire) = packet_received at latest expire
confirm acked (ack_sent eliciting at expire pns) =
    if any_in pns acked then ack_confirmed eliciting at expire else ack_sent eliciting at expire pns
confirm acked (ack_confirmed eliciting at expire) = ack_confirmed eliciting at expire

-- `rotate_queue` on the states from an offset on.
unfoldable pub rotate : ℕ → ℕ → List State → IndexDeque State
unfolding is_expired
rotate now offset [] = record { deque = []; offset = offset }
rotate now offset (s ∷ rest) =
    if is_expired now s
    then rotate now (offset + 1) rest
    else record { deque = s ∷ rest; offset = offset }

-- `none` is the panic of `iter` on ranges below 0.
unfoldable pub on_rcvd_ack : ℕ → RcvdJournal → AckFrame → Option RcvdJournal
unfolding iter confirm rotate
on_rcvd_ack now j frame = iter frame >>= λ ranges.
    (let acked = filter_by (λ pn. in_ranges pn ranges) j.packet_include_ack in
      some (record j {
        packet_include_ack = filter_by (λ pn. not (member pn acked)) j.packet_include_ack;
        queue = rotate now j.queue.offset (map (confirm acked) j.queue.deque);
      }))

unfoldable pub trigger_ack_frame : ℕ → RcvdJournal → Option (ℕ × ℕ)
unfolding get
trigger_ack_frame now j = j.earliest_not_ack_time >>= λ (_, earliest).
    if leb now (earliest + or_zero j.max_ack_delay)
    then none
    else get j.queue (largest j.queue) >>= λ s. elim s [
      | empty ↦ none
      | packet_received at _ _ ↦ some (largest j.queue, at)
      | ack_sent _ at _ _ ↦ some (largest j.queue, at)
      | ack_confirmed _ at _ ↦ some (largest j.queue, at)
    ]
