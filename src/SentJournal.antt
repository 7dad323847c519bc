-- ===== src/SentJournal.antt =====
-- qrecovery/src/journal/sent.rs: the packets that were sent and the frames in them. The frames of
-- all packets stand in one queue; a packet holds only their number. Times are numbers.
pub mod Packets
pub mod Refine
pub mod Rotate
pub mod Retransmit
pub mod Send
pub mod Reach
pub mod Safety
mod Tests
use gm_quic.Prelude.{
  ℕ, ◌+◌, ◌-◌, List, [], ◌∷◌, ◌++◌, Option, none, some, Bool, true, false, ◌&&◌, ltb, leb, ◌==◌,
  if◌then◌else◌, length, take, drop, ◌>>=◌, ◌>>◌, guard,
}
use gm_quic.IndexDeque.{IndexDeque, ok, err, empty, largest, get, update, push_back, advance}
use gm_quic.PacketNumber.{PacketNumber, encode}
use gm_quic.VarInt.{varint_max}

pub data SentPktState : Type 0 where
  skipped : SentPktState
  -- The number of frames, and the times at which it was sent, expires and is retransmitted.
  flighting : ℕ → ℕ → ℕ → ℕ → SentPktState
  retransmitted : ℕ → ℕ → ℕ → SentPktState
  acked : ℕ → ℕ → ℕ → SentPktState

-- `SentPktState::new`
unfoldable pub new_state : ℕ → ℕ → ℕ → ℕ → SentPktState
new_state n sent_time retran_time expire_time = flighting n sent_time expire_time retran_time

unfoldable pub nframes : SentPktState → ℕ
nframes skipped = 0
nframes (flighting n _ _ _) = n
nframes (retransmitted n _ _) = n
nframes (acked n _ _) = n

unfoldable pub be_acked : SentPktState → SentPktState × ℕ
be_acked skipped = (skipped, 0)
be_acked (flighting n sent_time expire_time _) = (acked n sent_time expire_time, n)
be_acked (retransmitted n sent_time expire_time) = (acked n sent_time expire_time, n)
be_acked (acked n sent_time expire_time) = (acked n sent_time expire_time, 0)

-- A packet that was acknowledged is `unreachable!`.
unfoldable pub maybe_lost : SentPktState → Option (SentPktState × ℕ)
maybe_lost (flighting n sent_time expire_time _) = some (retransmitted n sent_time expire_time, n)
maybe_lost (retransmitted n sent_time expire_time) = some (retransmitted n sent_time expire_time, n)
maybe_lost (acked _ _ _) = none
maybe_lost skipped = some (skipped, 0)

unfoldable pub should_retransmit_after : ℕ → SentPktState → SentPktState × Bool
should_retransmit_after now (flighting n sent_time expire_time retran_time) =
    if ltb retran_time now
    then (retransmitted n sent_time expire_time, true)
    else (flighting n sent_time expire_time retran_time, false)
should_retransmit_after now s = (s, false)

unfoldable pub should_remain_after : ℕ → SentPktState → Bool
should_remain_after now skipped = false
should_remain_after now (flighting _ _ _ _) = true
should_remain_after now (retransmitted _ _ expire_time) = ltb now expire_time
should_remain_after now (acked _ _ _) = false

pub record SentJournal {ℓ} (T : Type ℓ) : Type ℓ where
  pub queue : List T
  pub sent_packets : IndexDeque SentPktState
  pub largest_acked_pktno : ℕ

-- The frames of the packets before `pn`: `enumerate().take_while(..).map(nframes).sum()`.
unfoldable pub frames_before : ℕ → List SentPktState → ℕ → ℕ
frames_before i [] pn = 0
frames_before i (s ∷ rest) pn = if ltb i pn then nframes s + frames_before (i + 1) rest pn else 0

-- The leading packets that need not remain, and the frames in them.
unfoldable pub expired : ℕ → List SentPktState → ℕ × ℕ
expired now [] = (0, 0)
expired now (s ∷ rest) =
    let (n, f) = expired now rest in
    if should_remain_after now s then (0, 0) else (n + 1, nframes s + f)

module _ {ℓ} {T : Type ℓ} where
  -- `VecDeque::range`, which panics beyond the end.
  unfoldable pub range : List T → ℕ → ℕ → Option (List T)
  range xs start end =
      if leb end (length xs) then some (take (end - start) (drop start xs)) else none

  abbrev pub new_journal : SentJournal T
  new_journal = record { queue = []; sent_packets = empty; largest_acked_pktno = 0 }

  unfoldable pub on_packet_acked : SentJournal T → ℕ → Option (SentJournal T × List T)
  unfolding range
  on_packet_acked j pn =
      let offset = frames_before j.sent_packets.offset j.sent_packets.deque pn in
      elim (get j.sent_packets pn) [
        | none ↦ range j.queue offset (offset + 0) >>= λ frames. some (j, frames)
        | some s ↦ range j.queue offset (offset + (be_acked s).1) >>= λ frames.
            some (record j { sent_packets = update j.sent_packets pn (be_acked s).0 }, frames)
      ]

  unfoldable pub may_loss_packet : SentJournal T → ℕ → Option (SentJournal T × List T)
  unfolding range
  may_loss_packet j pn =
      let offset = frames_before j.sent_packets.offset j.sent_packets.deque pn in
      elim (get j.sent_packets pn) [
        | none ↦ range j.queue offset (offset + 0) >>= λ frames. some (j, frames)
        | some s ↦ maybe_lost s >>= λ lost. range j.queue offset (offset + lost.1) >>= λ frames.
            some (record j { sent_packets = update j.sent_packets pn lost.0 }, frames)
      ]

  -- `advance` and `drain(..f)` panic beyond the end.
  unfoldable pub resize : SentJournal T → ℕ → Option (SentJournal T)
  resize j now =
      let (n, f) = expired now j.sent_packets.deque in
      advance j.sent_packets n >>= λ packets.
      guard (leb f (length j.queue))
      >> some (record j { queue = drop f j.queue; sent_packets = packets })

  -- The iterator of `fast_retransmit`, run to its end, over the packets from `i` on, whose frames
  -- start at `start`.
  unfoldable pub retransmit_from :
      ℕ → ℕ → List T → ℕ → ℕ → List SentPktState → Option (List SentPktState × List T)
  unfolding range
  retransmit_from now largest_acked queue i start [] = some ([], [])
  retransmit_from now largest_acked queue i start (s ∷ rest) =
      let end = start + nframes s in
      let more = retransmit_from now largest_acked queue (i + 1) end rest in
      let (s', due) = should_retransmit_after now s in
      if ltb i largest_acked
      then ((if due then range queue start end else some []) >>= λ frames.
          more >>= λ tail. some (s' ∷ tail.0, frames ++ tail.1))
      else some (s ∷ rest, [])

  unfoldable pub fast_retransmit : SentJournal T → ℕ → Option (SentJournal T × List T)
  unfolding retransmit_from resize
  fast_retransmit j now = resize j now >>= λ k.
      retransmit_from now k.largest_acked_pktno k.queue k.sent_packets.offset 0 k.sent_packets.deque
      >>= λ done. some (
        record k { sent_packets = record { deque = done.0; offset = k.sent_packets.offset } },
        done.1,
      )

  -- `Err` is a `QuicError` of kind `ProtocolViolation`, and leaves the journal as it is: `none`.
  unfoldable pub update_largest : SentJournal T → ℕ → Option (SentJournal T)
  update_largest j acked_largest =
      if ltb (largest j.sent_packets) acked_largest
      then none
      else some (
          if ltb j.largest_acked_pktno acked_largest
          then record j { largest_acked_pktno = acked_largest }
          else j)

-- `NewPacketGuard`, with the journal that it locks.
pub record NewPacketGuard {ℓ} (T : Type ℓ) : Type ℓ where
  pub trivial : Bool
  pub origin_len : ℕ
  pub inner : SentJournal T

module _ {ℓ} {T : Type ℓ} where
  unfoldable pub new_packet : SentJournal T → NewPacketGuard T
  new_packet j = record { trivial = false; origin_len = length j.queue; inner = j }

  unfoldable pub pn : NewPacketGuard T → Option (ℕ × PacketNumber)
  pn g =
      let n = largest g.inner.sent_packets in
      encode n g.inner.largest_acked_pktno >>= λ encoded. some (n, encoded)

  unfoldable pub record_trivial : NewPacketGuard T → NewPacketGuard T
  record_trivial g = record g { trivial = true }

  unfoldable pub record_frame : NewPacketGuard T → T → NewPacketGuard T
  record_frame g frame =
      let queue' = g.inner.queue ++ (frame ∷ []) in
      record g { inner = record (g.inner) { queue = queue' } }

  -- The packet's state is queued; a refusal of the queue is a panic of the `expect`.
  push_packet : SentJournal T → SentPktState → Option (SentJournal T)
  push_packet j s =
      let pushed = push_back varint_max j.sent_packets s in
      elim (pushed.1) [ ok _ ↦ some (record j { sent_packets = pushed.0 }) | err _ ↦ none ]

  unfoldable pub build_with_time : NewPacketGuard T → ℕ → ℕ → ℕ → Option (SentJournal T)
  unfolding push_packet
  build_with_time g now retran_timeout expire_timeout =
      let n = length g.inner.queue - g.origin_len in
      if g.trivial && (n == 0)
      then push_packet g.inner skipped
      else if ltb 0 n
      then push_packet g.inner (new_state n now (now + retran_timeout) (now + expire_timeout))
      else some g.inner
