-- ===== src/Recver.antt =====
-- qrecovery/src/recv/recver.rs, incoming.rs, reader.rs: the states of a stream that receives. A
-- call returns the wakers that it wakes and the frames that it sends; a `Waker` is of any type.
mod Tests
pub mod States
pub mod Arrival
pub mod Reads
pub mod Life
pub mod Leads
pub mod Past
use gm_quic.Prelude.{
  ℕ, ◌+◌, ◌-◌, ◌*◌, min, List, [], ◌∷◌, ◌++◌, Option, none, some, Bool, true, false, not, ltb, leb,
  ◌==◌, if◌then◌else◌, ◌&&◌, length, ◌>>=◌, ◌>>◌, guard,
}
use gm_quic.Bytes.{BytesOps}
use gm_quic.VarInt.{varint_max}
use gm_quic.RecvBuf.{RecvBuf, recv, try_read, available, is_readable, is_empty, empty}

-- What a `StreamFrame` says of its data; `length` is the field, not that of the data itself.
pub record StreamFrame : Type 0 where
  pub offset : ℕ
  pub len : ℕ
  pub fin : Bool

pub record ResetStreamFrame : Type 0 where
  pub app_error_code : ℕ
  pub final_size : ℕ

-- The error's kind with the two numbers of its message: what came, and what it is measured by.
pub data QuicError : Type 0 where
  flow_control : ℕ → ℕ → QuicError
  final_size_error : ℕ → ℕ → QuicError

pub data Result {ℓ} (A : Type ℓ) : Type ℓ where
  ok : A → Result A
  err : QuicError → Result A

-- The frames that are given to the broker.
pub data SentFrame : Type 0 where
  max_stream_data_frame : ℕ → SentFrame
  stop_sending_frame : ℕ → SentFrame

-- The `Poll` of a read: the bytes that are put into the reader's buffer, or the reset that ended
-- the stream.
pub data Poll : Type 0 where
  pending : Poll
  ready : List ℕ → Poll
  broken : ResetStreamFrame → Poll

module _ {ℓ} (W : Type ℓ) where
  pub record Recv : Type ℓ where
    pub rcvbuf : RecvBuf
    pub read_waker : Option W
    pub stop_state : Option ℕ
    pub largest : ℕ
    pub max_stream_data : ℕ

  pub record SizeKnown : Type ℓ where
    pub rcvbuf : RecvBuf
    pub read_waker : Option W
    pub stop_state : Option ℕ
    pub final_size : ℕ

  pub data Recver : Type ℓ where
    recv_state : Recv → Recver
    size_known : SizeKnown → Recver
    data_rcvd : RecvBuf → Recver
    reset_rcvd : ResetStreamFrame → Recver
    data_read : Recver
    reset_read : ResetStreamFrame → Recver

-- `Recv::stop` and `SizeKnown::stop`: the new `stop_state`. `expect` panics above `varint_max`.
unfoldable pub stop_with : Option ℕ → ℕ → Option (Option ℕ × List SentFrame)
stop_with (some code) err_code = some (some code, [])
stop_with none err_code =
    guard (leb err_code varint_max) >> some (some err_code, stop_sending_frame err_code ∷ [])

abbrev pub threshold : ℕ
threshold = 1000000

module _ {ℓ} {W : Type ℓ} where
  -- `read_waker.take()` and the `wake()` of what it held.
  abbrev pub woken : Option W → List W
  woken none = []
  woken (some w) = w ∷ []

  unfoldable pub new : ℕ → Recver W
  new buf_size = recv_state (record {
    rcvbuf = empty;
    read_waker = none;
    stop_state = none;
    largest = 0;
    max_stream_data = buf_size;
  })

  -- The new limit after a read: a million bytes further on, once less than that is left.
  unfoldable pub widen : Recv W → Recv W × List SentFrame
  widen r =
      let max_stream_data = min (r.rcvbuf.nread + threshold * 2) varint_max in
      if ltb r.max_stream_data (r.rcvbuf.nread + threshold)
      then (if ltb r.max_stream_data max_stream_data
          then (
            record r { max_stream_data = max_stream_data },
            max_stream_data_frame max_stream_data ∷ [],
          )
          else (r, []))
      else (r, [])

  -- `Recv::determin_size`. The reader is woken also when it fails.
  unfoldable pub determin_size : Recv W → StreamFrame → Result (SizeKnown W)
  determin_size r frame =
      let final_size = frame.offset + frame.len in
      if ltb final_size r.rcvbuf.largest_offset
      then err (final_size_error final_size r.rcvbuf.largest_offset)
      else ok (record {
        rcvbuf = r.rcvbuf;
        read_waker = none;
        stop_state = r.stop_state;
        final_size = final_size;
      })

  -- `Recv::recv_reset`: the new data that the reset counts for.
  unfoldable pub reset_recv : Recv W → ResetStreamFrame → Result ℕ
  reset_recv r frame =
      if ltb frame.final_size r.largest
      then err (final_size_error frame.final_size r.largest)
      else ok (frame.final_size - r.largest)

  -- `SizeKnown::recv_reset`
  unfoldable pub reset_size_known : SizeKnown W → ResetStreamFrame → Result ℕ
  reset_size_known r frame =
      if frame.final_size == r.final_size
      then ok 0
      else err (final_size_error frame.final_size r.final_size)

  unfoldable pub is_all_rcvd : SizeKnown W → Bool
  is_all_rcvd r = r.rcvbuf.nread + available r.rcvbuf == r.final_size

  -- The waker that stays and those that are woken, once data has arrived.
  unfoldable pub wake_readable : RecvBuf → Option W → Option W × List W
  wake_readable buf w = if is_readable buf then (none, woken w) else (w, [])

  -- Once all data is there: the state, the wakers that are woken, whether all data is there.
  unfoldable pub settle : SizeKnown W → Recver W × List W × Bool
  unfolding is_all_rcvd
  settle r =
      if is_all_rcvd r
      then (data_rcvd r.rcvbuf, woken r.read_waker, true)
      else (size_known r, [], false)

  -- What follows `SizeKnown::recv`; with `left` as the state if that is refused.
  unfoldable pub settled :
      List W
      → (SizeKnown W → Recver W)
      → SizeKnown W × List W × Result ℕ
      → Recver W × List W × Result (Bool × ℕ)
  unfolding settle
  settled woken_before left (r, wakes, err e) = (left r, woken_before ++ wakes, err e)
  settled woken_before left (r, wakes, ok fresh) =
      let (state, more, done) = settle r in (state, woken_before ++ wakes ++ more, ok (done, fresh))

  unfoldable pub on_plain : Recv W × List W × Result ℕ → Recver W × List W × Result (Bool × ℕ)
  on_plain (r, wakes, err e) = (recv_state r, wakes, err e)
  on_plain (r, wakes, ok fresh) = (recv_state r, wakes, ok (false, fresh))

  module _ (b : BytesOps) where
    -- `Recv::recv`: the new state, the wakers that are woken and the fresh data.
    unfoldable pub recv_recv : Recv W → StreamFrame → List ℕ → Option (Recv W × List W × Result ℕ)
    unfolding wake_readable
    recv_recv r frame body =
        let data_end = frame.offset + length body in
        if ltb r.max_stream_data data_end
        then some (r, [], err (flow_control data_end r.max_stream_data))
        else (recv b r.rcvbuf frame.offset body >>= λ done.
            let (waker, wakes) = wake_readable done.0 r.read_waker in
            some (
              record r {
                rcvbuf = done.0;
                read_waker = waker;
                largest = if ltb r.largest data_end then data_end else r.largest;
              },
              wakes,
              ok done.1,
            ))

    -- `SizeKnown::recv`
    unfoldable pub recv_size_known :
        SizeKnown W → StreamFrame → List ℕ → Option (SizeKnown W × List W × Result ℕ)
    unfolding wake_readable
    recv_size_known r frame body =
        let data_end = frame.offset + length body in
        if ltb r.final_size data_end
        then some (r, [], err (final_size_error data_end r.final_size))
        else if frame.fin && not (data_end == r.final_size)
        then some (r, [], err (final_size_error data_end r.final_size))
        else (recv b r.rcvbuf frame.offset body >>= λ done.
            let (waker, wakes) = wake_readable done.0 r.read_waker in
            some (record r { rcvbuf = done.0; read_waker = waker }, wakes, ok done.1))

    -- A frame with FIN, while the size is not known. If `SizeKnown::recv` refuses, the buffer and
    -- the stop state have been taken out already.
    unfoldable pub on_fin :
        Recv W → StreamFrame → List ℕ → Option (Recver W × List W × Result (Bool × ℕ))
    unfolding determin_size recv_size_known settled
    on_fin r frame body = elim (determin_size r frame) [
      | err e ↦ some (recv_state (record r { read_waker = none }), woken r.read_waker, err e)
      | ok s ↦ recv_size_known s frame body >>= λ done. some (
          settled (woken r.read_waker)
            (λ _. recv_state (record r { rcvbuf = empty; read_waker = none; stop_state = none }))
            done)
    ]

    -- `Incoming::recv_data`
    unfoldable pub recv_data :
        Recver W → StreamFrame → List ℕ → Option (Recver W × List W × Result (Bool × ℕ))
    unfolding on_fin recv_recv recv_size_known settled on_plain
    recv_data (recv_state r) frame body =
        if frame.fin
        then on_fin r frame body
        else (recv_recv r frame body >>= λ done. some (on_plain done))
    recv_data (size_known r) frame body =
        recv_size_known r frame body >>= λ done. some (settled [] size_known done)
    recv_data (data_rcvd buf) frame body = some (data_rcvd buf, [], ok (false, 0))
    recv_data (reset_rcvd f) frame body = some (reset_rcvd f, [], ok (false, 0))
    recv_data data_read frame body = some (data_read, [], ok (false, 0))
    recv_data (reset_read f) frame body = some (reset_read f, [], ok (false, 0))

    -- `Reader::poll_read` with a buffer that has room for `room` bytes; `w` is the reader's waker.
    unfoldable pub poll_read : Recver W → W → ℕ → Recver W × List SentFrame × Poll
    unfolding widen
    poll_read (recv_state r) w room =
        let (buf, out) = try_read b r.rcvbuf room in
        let (r', frames) = widen (record r { rcvbuf = buf }) in
        if is_readable r.rcvbuf
        then (recv_state r', frames, ready out)
        else (recv_state (record r { read_waker = some w }), [], pending)
    poll_read (size_known r) w room =
        let (buf, out) = try_read b r.rcvbuf room in
        if is_readable r.rcvbuf
        then (size_known (record r { rcvbuf = buf }), [], ready out)
        else (size_known (record r { read_waker = some w }), [], pending)
    poll_read (data_rcvd buf) w room =
        let (buf', out) = try_read b buf room in
        (if is_empty buf' then data_read else data_rcvd buf', [], ready out)
    poll_read data_read w room = (data_read, [], ready [])
    poll_read (reset_rcvd f) w room = (reset_read f, [], broken f)
    poll_read (reset_read f) w room = (reset_read f, [], broken f)

  abbrev on_reset : Recver W → Option W → ResetStreamFrame → Result ℕ → Recver W × List W × Result ℕ
  on_reset state w frame (ok fresh) = (reset_rcvd frame, woken w, ok fresh)
  on_reset state w frame (err e) = (state, [], err e)

  -- `Incoming::recv_reset`; `unreachable!` in the other states.
  unfoldable pub recv_reset : Recver W → ResetStreamFrame → Option (Recver W × List W × Result ℕ)
  unfolding reset_recv reset_size_known
  recv_reset (recv_state r) frame =
      some (on_reset (recv_state r) r.read_waker frame (reset_recv r frame))
  recv_reset (size_known r) frame =
      some (on_reset (size_known r) r.read_waker frame (reset_size_known r frame))
  recv_reset (data_rcvd buf) frame = none
  recv_reset (reset_rcvd f) frame = none
  recv_reset data_read frame = none
  recv_reset (reset_read f) frame = none

  -- `Reader::stop`; its `debug_assert!` is the guard.
  unfoldable pub stop : Recver W → ℕ → Option (Recver W × List SentFrame)
  unfolding stop_with
  stop (recv_state r) err_code =
      guard (leb err_code varint_max)
      >> (stop_with r.stop_state err_code >>= λ done.
          some (recv_state (record r { stop_state = done.0 }), done.1))
  stop (size_known r) err_code =
      guard (leb err_code varint_max)
      >> (stop_with r.stop_state err_code >>= λ done.
          some (size_known (record r { stop_state = done.0 }), done.1))
  stop s err_code = guard (leb err_code varint_max) >> some (s, [])

-- What `ArcRecver` guards: the state, or the error that ended the connection.
pub data Shared {ℓ κ} (E : Type ℓ) (W : Type κ) : Type (ℓ ⊔ κ) where
  running : Recver W → Shared E W
  failed : E → Shared E W

module _ {ℓ κ} {E : Type ℓ} {W : Type κ} where
  -- `Incoming::on_conn_error`
  unfoldable pub on_conn_error : Shared E W → E → Shared E W × List W
  on_conn_error (running (recv_state r)) e = (failed e, woken r.read_waker)
  on_conn_error (running (size_known r)) e = (failed e, woken r.read_waker)
  on_conn_error (running s) e = (running s, [])
  on_conn_error (failed first) e = (failed first, [])
