-- ===== src/Recver/Arrival.antt =====
-- The stream frames that arrive.
use gm_quic.Prelude.{
  ℕ, ◌+◌, ◌≤◌, ◌≡◌, refl, ap, sym, ◌∙◌, List, [], ◌++◌, Option, none, some, arith, ltb, ◌==◌, ◌&&◌,
  not, ◌>>=◌, if◌then◌else◌, ltb→le, Bool-cases, Bool, true, false, inl, inr, length,
}
use mathlib.Core.List.{append-nil}
use gm_quic.Bytes.{BytesOps}
use gm_quic.RecvBuf.{RecvBuf, empty}
use gm_quic.RecvBuf.Recv.{IsValid, recv_lem}
use gm_quic.Recver.{
  StreamFrame, Result, ok, err, Recv, SizeKnown, Recver, recv_state, size_known, data_rcvd,
  reset_rcvd, data_read, reset_read, woken, determin_size, wake_readable, recv_recv,
  recv_size_known, settled, on_plain, on_fin, recv_data, flow_control, final_size_error,
}
use gm_quic.Recver.States.{IsSound, waiting, rank, stored, wake_readable_lem, settled_lem}

module _ {ℓ} {W : Type ℓ} where
  abbrev pub settle_all :
      List W
      → (SizeKnown W → Recver W)
      → Option (SizeKnown W × List W × Result ℕ)
      → Option (Recver W × List W × Result (Bool × ℕ))
  settle_all before left o = o >>= λ done. some (settled before left done)

  module _ (b : BytesOps) where
    pub recv_size_known_lem :
        (r : SizeKnown W) (frame : StreamFrame) (body : List ℕ)
        → IsValid r.rcvbuf
        → r.rcvbuf.largest_offset ≤ r.final_size
        → frame.offset + length body ≤ r.final_size
        → (frame.fin && not (frame.offset + length body == r.final_size)) ≡ false
        → (buf : RecvBuf) × (fresh : ℕ) × (recv_size_known b r frame body
            ≡ some (stored r buf, (wake_readable buf r.read_waker).1, ok fresh))
          × IsValid buf
          × (buf.largest_offset ≤ r.final_size)
          × (buf.largest_offset ≡ r.rcvbuf.largest_offset + fresh)
          × (buf.nread ≡ r.rcvbuf.nread)
    unfolding recv_size_known
    recv_size_known_lem r frame body valid bound within same =
        let (buf, fresh, e, valid', read, _, grown, count) =
          recv_lem b r.rcvbuf frame.offset body valid in
        let below : ltb r.final_size (frame.offset + length body) ≡ false = ground arith in
        let le : buf.largest_offset ≤ r.final_size = ground arith in
        (buf, fresh, rw below (rw same (rw e)), valid', le, grown, read)

    -- The outcome of a call: a sound state, and no waker is lost: each one that waited is woken, or
    -- waits still.
    abbrev pub Done : Recver W → Option (Recver W × List W × Result (Bool × ℕ)) → Type ℓ
    Done s o =
        (s' : Recver W) × (wakes : List W) × (res : Result (Bool × ℕ)) × (o ≡ some (s', wakes, res))
        × IsSound s'
        × (waiting s ≡ wakes ++ waiting s')
        × (rank s ≤ rank s')

    on_size_known :
        (r : SizeKnown W) (frame : StreamFrame) (body : List ℕ)
        → IsSound (size_known r)
        → Done (size_known r) (recv_data b (size_known r) frame body)
    unfolding recv_data settled recv_size_known
    on_size_known r frame body (valid, bound, missing, quiet) =
        elim (Bool-cases (ltb r.final_size (frame.offset + length body))) [
          | inl beyond ↦ (
            size_known r,
            [],
            err (final_size_error (frame.offset + length body) r.final_size),
            rw beyond,
            (valid, bound, missing, quiet),
            refl,
            omega arith,
          )
          | inr within ↦
              elim (Bool-cases (frame.fin && not (frame.offset + length body == r.final_size))) [
                | inl other ↦ (
                  size_known r,
                  [],
                  err (final_size_error (frame.offset + length body) r.final_size),
                  rw within (rw other),
                  (valid, bound, missing, quiet),
                  refl,
                  omega arith,
                )
                | inr same ↦
                    let le = ltb→le r.final_size (frame.offset + length body) within in
                    let (buf, fresh, e, valid', bound', _, _) =
                      recv_size_known_lem r frame body valid bound le same in
                    let (sound, woke, order) =
                      settled_lem [] size_known r buf fresh valid' bound' in
                    let done =
                      settled [] size_known
                        (stored r buf, (wake_readable buf r.read_waker).1, ok fresh) in
                    (done.0, done.1, done.2, ap (settle_all [] size_known) e, sound, woke, order)
              ]
        ]

    on_plain_frame :
        (r : Recv W) (frame : StreamFrame) (body : List ℕ)
        → IsSound (recv_state r)
        → Done (recv_state r) (recv_recv b r frame body >>= λ done. some (on_plain done))
    unfolding recv_recv on_plain
    on_plain_frame r frame body (valid, bound, limit, quiet) =
        elim (Bool-cases (ltb r.max_stream_data (frame.offset + length body))) [
          | inl beyond ↦ (
            recv_state r,
            [],
            err (flow_control (frame.offset + length body) r.max_stream_data),
            rw beyond,
            (valid, bound, limit, quiet),
            refl,
            omega arith,
          )
          | inr within ↦
              let le = ltb→le r.max_stream_data (frame.offset + length body) within in
              let (buf, fresh, e, valid', _, _, grown, count) =
                recv_lem b r.rcvbuf frame.offset body valid in
              let (quiet', woke) = wake_readable_lem buf r.read_waker in
              (
                recv_state (record r {
                  rcvbuf = buf;
                  read_waker = (wake_readable buf r.read_waker).0;
                  largest =
                      if ltb r.largest (frame.offset + length body)
                      then frame.offset + length body
                      else r.largest;
                }),
                (wake_readable buf r.read_waker).1,
                ok (false, fresh),
                rw within (rw e),
                (valid', ground arith, ground arith, quiet'),
                woke,
                omega arith,
              )
        ]

    on_fin_frame :
        (r : Recv W) (frame : StreamFrame) (body : List ℕ)
        → IsSound (recv_state r)
        → length body ≡ frame.len
        → Done (recv_state r) (on_fin b r frame body)
    unfolding on_fin determin_size
    on_fin_frame r frame body (valid, bound, limit, quiet) n =
        elim (Bool-cases (ltb (frame.offset + frame.len) r.rcvbuf.largest_offset)) [
          | inl smaller ↦ (
            recv_state (record r { read_waker = none }),
            woken r.read_waker,
            err (final_size_error (frame.offset + frame.len) r.rcvbuf.largest_offset),
            rw (smaller, on_fin),
            (valid, bound, limit, tt),
            sym (append-nil (woken r.read_waker)),
            omega arith,
          )
          | inr enough ↦
              let s : SizeKnown W = record {
                rcvbuf = r.rcvbuf;
                read_waker = none;
                stop_state = r.stop_state;
                final_size = frame.offset + frame.len;
              } in
              let left : SizeKnown W → Recver W = λ _.
                recv_state (record r { rcvbuf = empty; read_waker = none; stop_state = none }) in
              let le = ltb→le (frame.offset + frame.len) r.rcvbuf.largest_offset enough in
              let same : (frame.fin && not (frame.offset + length body == frame.offset + frame.len))
                  ≡ false =
                ground (arith, n) in
              let (buf, fresh, e, valid', bound', _, _) =
                recv_size_known_lem s frame body valid le (omega (arith, n)) same in
              let (sound, woke, order) =
                settled_lem (woken r.read_waker) left s buf fresh valid' bound' in
              let done =
                settled (woken r.read_waker) left
                  (stored s buf, (wake_readable buf none).1, ok fresh) in
              (
                done.0,
                done.1,
                done.2,
                rw (enough, on_fin) (ap (settle_all (woken r.read_waker) left) e),
                sound,
                sym (append-nil (woken r.read_waker)) ∙ woke,
                omega arith,
              )
        ]

    -- In every state in which the buffer is sound, a stream frame is taken without a panic, if the
    -- frame's length is that of its data: the buffer is sound afterwards; each reader that waited is
    -- woken, or waits still and there is no data for it; and the state moves forward or stays.
    pub recv_data_lem :
        (s : Recver W) (frame : StreamFrame) (body : List ℕ)
        → IsSound s
        → length body ≡ frame.len
        → Done s (recv_data b s frame body)
    unfolding recv_data
    recv_data_lem (recv_state r) frame body sound n =
        either frame.fin (on_fin_frame r frame body sound n) (on_plain_frame r frame body sound)
      where
        either :
            {x y : Option (Recver W × List W × Result (Bool × ℕ))} (c : Bool)
            → Done (recv_state r) x
            → Done (recv_state r) y
            → Done (recv_state r) (if c then x else y)
        either true f g = f
        either false f g = g
    recv_data_lem (size_known r) frame body sound n = on_size_known r frame body sound
    recv_data_lem (data_rcvd buf) frame body sound n =
        (data_rcvd buf, [], ok (false, 0), refl, sound, refl, omega arith)
    recv_data_lem (reset_rcvd f) frame body sound n =
        (reset_rcvd f, [], ok (false, 0), refl, tt, refl, omega arith)
    recv_data_lem data_read frame body sound n =
        (data_read, [], ok (false, 0), refl, tt, refl, omega arith)
    recv_data_lem (reset_read f) frame body sound n =
        (reset_read f, [], ok (false, 0), refl, tt, refl, omega arith)
