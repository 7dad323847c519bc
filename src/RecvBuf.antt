-- ===== src/RecvBuf.antt =====
-- qrecovery/src/recv/rcvbuf.rs: the receive buffer of a stream, which puts fragments in order.
-- The `VecDeque` of segments is a list, front first. `u64` sums stay below 2 ^ 62 and do not wrap.
pub mod Segments
pub mod Gaps
pub mod Steps
pub mod Rounds
pub mod Recv
pub mod Available
pub mod Read
pub mod Agreement
pub mod Stream
pub mod Left
mod Tests
use gm_quic.Prelude.{
  ℕ, zero, suc, ◌+◌, ◌-◌, ◌≡◌, min, max, List, [], ◌∷◌, ◌++◌, Option, none, some, Bool, true, false,
  ◌&&◌, ◌||◌, not, ltb, leb, ◌==◌, if◌then◌else◌, length, get_elem?, take, drop, ◌>>=◌,
}
use gm_quic.Bytes.{BytesOps}

pub record Segment : Type 0 where
  pub offset : ℕ
  pub bytes : List ℕ

abbrev pub seg_end : Segment → ℕ
seg_end s = s.offset + length s.bytes

pub record RecvBuf : Type 0 where
  pub nread : ℕ
  pub largest_offset : ℕ
  pub segments : List Segment

abbrev pub empty : RecvBuf
empty = record { nread = 0; largest_offset = 0; segments = [] }

unfoldable pub is_empty : RecvBuf → Bool
is_empty r = elim (r.segments) [ [] ↦ true | _ ∷ _ ↦ false ]

-- `VecDeque::binary_search_by` on segments in order of their offsets: `Ok` with the index of the
-- one at `start`, or `Err` with the index where it would stand.
pub data Search : Type 0 where
  found : ℕ → Search
  missing : ℕ → Search

abbrev bump : Search → Search
bump (found i) = found (suc i)
bump (missing i) = missing (suc i)

unfoldable pub search_from : List Segment → ℕ → Search
search_from [] start = missing 0
search_from (s ∷ rest) start =
    if s.offset == start
    then found 0
    else if ltb start s.offset
    then missing 0
    else bump (search_from rest start)

-- `VecDeque::insert`, and `push_front` at index 0.
abbrev pub insert_at {ℓ} : {A : Type ℓ} → List A → ℕ → A → List A
insert_at xs zero v = v ∷ xs
insert_at [] (suc i) v = v ∷ []
insert_at (x ∷ xs) (suc i) v = x ∷ insert_at xs i v

-- What one round of the loop of `recv` leaves: the segments, `largest_offset`, `start` and `data`.
pub record Round : Type 0 where
  pub segments : List Segment
  pub largest : ℕ
  pub start : ℕ
  pub bytes : List ℕ

module _ (b : BytesOps) where
  -- `Segment::new_with_data(start, uncovered)`, put in at `index`.
  abbrev pub place : Round → ℕ → List ℕ → List ℕ → Round
  place r index uncovered left =
      let segment : Segment = record { offset = r.start; bytes = uncovered } in
      record {
        segments = insert_at r.segments index segment;
        largest = max r.largest (seg_end segment);
        start = r.start + length uncovered;
        bytes = left;
      }

  -- The data in front of the next segment, if there is one that it overlaps.
  unfoldable pub place_before : Round → ℕ → Option Segment → Round
  place_before r index none = place r index r.bytes []
  place_before r index (some next) =
      if ltb next.offset (r.start + length r.bytes)
      then (let (uncovered, left) = b.split_to (next.offset - r.start) r.bytes in
          place r index uncovered left)
      else place r index r.bytes []

  -- The `Ok` case: what the segment at the same offset covers is cut off.
  unfoldable pub on_found : Round → Option Segment → Round
  on_found r none = r
  on_found r (some seg) =
      let length_covered = min (length r.bytes) (length seg.bytes) in
      record r { start = r.start + length_covered; bytes = b.advance length_covered r.bytes }

  -- After the previous segment is cut off: a next segment right there is left to the next round.
  unfoldable pub after_previous : Round → ℕ → Option Segment → Round
  unfolding place_before
  after_previous r index none = place_before r index none
  after_previous r index (some next) =
      if r.start == next.offset then r else place_before r index (some next)

  -- The `Err(seg_index)` case behind a segment; data that it covers whole is dropped (`break`).
  unfoldable pub on_missing : Round → ℕ → Option Segment → Round
  unfolding after_previous
  on_missing r index none = after_previous r index (get_elem? r.segments index)
  on_missing r index (some prev) =
      if leb (r.start + length r.bytes) (seg_end prev)
      then record r { bytes = [] }
      else if ltb r.start (seg_end prev)
      then (let length_covered = seg_end prev - r.start in
          let (left, _) = b.split_off length_covered r.bytes in
          after_previous (record r { start = r.start + length_covered; bytes = left }) index
            (get_elem? r.segments index))
      else after_previous r index (get_elem? r.segments index)

  unfoldable pub round : Round → Search → Round
  unfolding on_found place_before on_missing
  round r (found i) = on_found r (get_elem? r.segments i)
  round r (missing zero) = place_before r 0 (get_elem? r.segments 0)
  round r (missing (suc i)) = on_missing r (suc i) (get_elem? r.segments i)

  -- The loop, with fuel for its rounds; `none` if the fuel runs out.
  unfoldable pub recv_loop : ℕ → Round → Option Round
  recv_loop zero r = elim (r.bytes) [ [] ↦ some r | _ ∷ _ ↦ none ]
  recv_loop (suc fuel) r =
      let rest = recv_loop fuel (round r (search_from r.segments r.start)) in
      elim (r.bytes) [ [] ↦ some r | _ ∷ _ ↦ rest ]

  -- Each round takes a byte at least. The result is the buffer and the bytes that count for flow
  -- control.
  unfoldable pub recv : RecvBuf → ℕ → List ℕ → Option (RecvBuf × ℕ)
  unfolding recv_loop
  recv r offset bytes =
      let start = max offset r.nread in
      let fresh = b.advance (min (length bytes) (start - offset)) bytes in
      let first : Round = record {
        segments = r.segments;
        largest = r.largest_offset;
        start = start;
        bytes = fresh;
      } in
      recv_loop (length fresh) first >>= λ done. some (
        record r { segments = done.segments; largest_offset = done.largest },
        done.largest - r.largest_offset,
      )

  -- The loop of `try_read` into a buffer with `room` bytes left. After a segment that does not fit
  -- the room is used up, and the next round stops.
  unfoldable pub read_loop : ℕ → ℕ → List Segment → List ℕ × ℕ × List Segment
  read_loop nread room [] = ([], nread, [])
  read_loop nread room (seg ∷ rest) =
      let read = min room (length seg.bytes) in
      let (out, left) = b.split_to read seg.bytes in
      let more = read_loop (nread + read) (room - read) rest in
      if not (seg.offset == nread) || room == 0
      then ([], nread, seg ∷ rest)
      else if ltb 0 (length left)
      then (out, nread + read, record { offset = seg.offset + read; bytes = left } ∷ rest)
      else (out ++ more.0, more.1, more.2)

  unfoldable pub try_read : RecvBuf → ℕ → RecvBuf × List ℕ
  unfolding read_loop
  try_read r room =
      let (out, nread', segments') = read_loop r.nread room r.segments in
      (record r { nread = nread'; segments = segments' }, out)

-- The end of the data that continues `offset`.
unfoldable pub continuous_end : ℕ → List Segment → ℕ
continuous_end offset [] = offset
continuous_end offset (seg ∷ rest) =
    let more = continuous_end (offset + length seg.bytes) rest in
    if seg.offset == offset then more else offset

unfoldable pub available : RecvBuf → ℕ
unfolding continuous_end
available r = continuous_end r.nread r.segments - r.nread

unfoldable pub is_readable : RecvBuf → Bool
is_readable r = elim (r.segments) [ [] ↦ false | seg ∷ _ ↦ seg.offset == r.nread ]
