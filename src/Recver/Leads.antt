-- ===== src/Recver/Leads.antt =====
-- What a stream frame leaves of the final size and of the bytes that the reader was given.
use gm_quic.Prelude.{
  ℕ, ◌+◌, ◌≡◌, refl, ap, sym, subst, ◌∙◌, List, [], Option, none, some, arith, ltb, ◌==◌, ◌&&◌, not,
  ◌>>=◌, if◌then◌else◌, ltb→le, Bool-cases, Bool, true, false, inl, inr, length,
}
use gm_quic.Bytes.{BytesOps}
use gm_quic.RecvBuf.{RecvBuf, available, empty}
use gm_quic.RecvBuf.Recv.{recv_lem}
use gm_quic.Recver.{
  StreamFrame, Result, ok, err, Recv, SizeKnown, Recver, recv_state, size_known, data_rcvd,
  reset_rcvd, data_read, reset_read, determin_size, wake_readable, recv_recv, recv_size_known,
  settle, settled, is_all_rcvd, on_plain, on_fin, recv_data, woken, flow_control, final_size_error,
}
use gm_quic.Recver.States.{IsSound, IsPast, stored}
use gm_quic.Recver.Arrival.{recv_size_known_lem, settle_all}

-- The first frame with FIN that is accepted announces the final size: where it ends.
abbrev pub announced : Option ℕ → StreamFrame → Result (Bool × ℕ) → Option ℕ
announced (some size) frame res = some size
announced none frame (err e) = none
announced none frame (ok done) = if frame.fin then some (frame.offset + frame.len) else none

pub announced-known :
    (final : Option ℕ) (size : ℕ) (frame : StreamFrame) (res : Result (Bool × ℕ))
    → final ≡ some size
    → announced final frame res ≡ some size
announced-known none size frame res e = absurd (cc)
announced-known (some n) size frame res e = e

module _ {ℓ} {W : Type ℓ} where
  settle-IsPast :
      (r : SizeKnown W) (given : ℕ)
      → r.rcvbuf.nread ≡ given
      → IsPast given (some r.final_size) (settle r).0
  unfolding settle is_all_rcvd
  settle-IsPast r given e =
      elim (Bool-cases (r.rcvbuf.nread + available r.rcvbuf == r.final_size)) [
        | inl whole ↦
            let size : r.final_size ≡ given + available r.rcvbuf = ground (arith, whole, e) in
            rw whole (e, ap (λ (n : ℕ). some n) size)
        | inr missing ↦ rw missing (e, refl)
      ]

  settled-IsPast :
      (before : List W) (left : SizeKnown W → Recver W) (r : SizeKnown W) (buf : RecvBuf)
      (fresh given : ℕ)
      → buf.nread ≡ given
      → IsPast given
          (some r.final_size)
          (settled before left (stored r buf, (wake_readable buf r.read_waker).1, ok fresh)).0
  unfolding settled
  settled-IsPast before left r buf fresh given e = settle-IsPast (stored r buf) given e

  module _ (b : BytesOps) where
    -- What a stream frame leaves of a state.
    abbrev pub Leads :
        ℕ → Option ℕ → StreamFrame → Option (Recver W × List W × Result (Bool × ℕ)) → Type ℓ
    Leads given final frame o =
        (s' : Recver W) × (wakes : List W) × (res : Result (Bool × ℕ)) × (o ≡ some (s', wakes, res))
        × IsPast given (announced final frame res) s'

    size_known-Leads :
        (r : SizeKnown W) (frame : StreamFrame) (body : List ℕ) (given : ℕ)
        → IsSound (size_known r)
        → r.rcvbuf.nread ≡ given
        → Leads given (some r.final_size) frame (recv_data b (size_known r) frame body)
    unfolding recv_data settled recv_size_known
    size_known-Leads r frame body given (valid, bound, missing, quiet) e =
        elim (Bool-cases (ltb r.final_size (frame.offset + length body))) [
          | inl beyond ↦ (
            size_known r,
            [],
            err (final_size_error (frame.offset + length body) r.final_size),
            rw beyond,
            (e, refl),
          )
          | inr within ↦
              elim (Bool-cases (frame.fin && not (frame.offset + length body == r.final_size))) [
                | inl other ↦ (
                  size_known r,
                  [],
                  err (final_size_error (frame.offset + length body) r.final_size),
                  rw within (rw other),
                  (e, refl),
                )
                | inr same ↦
                    let le = ltb→le r.final_size (frame.offset + length body) within in
                    let (buf, fresh, f, _, _, _, read) =
                      recv_size_known_lem b r frame body valid bound le same in
                    let done =
                      settled [] size_known
                        (stored r buf, (wake_readable buf r.read_waker).1, ok fresh) in
                    (
                      done.0,
                      done.1,
                      done.2,
                      ap (settle_all [] size_known) f,
                      settled-IsPast [] size_known r buf fresh given (read ∙ e),
                    )
              ]
        ]

    plain-Leads :
        (r : Recv W) (frame : StreamFrame) (body : List ℕ) (given : ℕ)
        → IsSound (recv_state r)
        → r.rcvbuf.nread ≡ given
        → frame.fin ≡ false
        → Leads given none frame (recv_recv b r frame body >>= λ done. some (on_plain done))
    unfolding recv_recv on_plain
    plain-Leads r frame body given (valid, bound, below, quiet) e plain =
        elim (Bool-cases (ltb r.max_stream_data (frame.offset + length body))) [
          | inl beyond ↦ (
            recv_state r,
            [],
            err (flow_control (frame.offset + length body) r.max_stream_data),
            rw beyond,
            (e, refl),
          )
          | inr within ↦
              let (buf, fresh, f, _, read, _, _, _) = recv_lem b r.rcvbuf frame.offset body valid in
              (
                recv_state (record r {
                  rcvbuf = buf;
                  read_waker = (wake_readable buf r.read_waker).0;
                  largest =
                      if ltb r.largest (frame.offset + length body)
                      then frame.offset + length body
                      else r.largest;
                }),
                (wake_readable buf r.read_waker).1,
                ok (false, fresh),
                rw within (rw f),
                (read ∙ e, ap (λ c. if c then some (frame.offset + frame.len) else none) plain),
              )
        ]

    fin-Leads :
        (r : Recv W) (frame : StreamFrame) (body : List ℕ) (given : ℕ)
        → IsSound (recv_state r)
        → r.rcvbuf.nread ≡ given
        → frame.fin ≡ true
        → length body ≡ frame.len
        → Leads given none frame (on_fin b r frame body)
    unfolding on_fin determin_size settled
    fin-Leads r frame body given (valid, bound, below, quiet) e fin n =
        elim (Bool-cases (ltb (frame.offset + frame.len) r.rcvbuf.largest_offset)) [
          | inl smaller ↦ (
            recv_state (record r { read_waker = none }),
            woken r.read_waker,
            err (final_size_error (frame.offset + frame.len) r.rcvbuf.largest_offset),
            rw (smaller, on_fin),
            (e, refl),
          )
          | inr enough ↦
              let s : SizeKnown W = record {
                rcvbuf = r.rcvbuf;
                read_waker = none;
                stop_state = r.stop_state;
                final_size = frame.offset + frame.len;
              } in
              let left : SizeKnown W → Recver W = λ _.
                recv_state (record r { rcvbuf = empty; read_waker = none; stop_state = none }) in
              let le = ltb→le (frame.offset + frame.len) r.rcvbuf.largest_offset enough in
              let same : (frame.fin && not (frame.offset + length body == frame.offset + frame.len))
                  ≡ false =
                ground (arith, n) in
              let (buf, fresh, f, _, _, _, read) =
                recv_size_known_lem b s frame body valid le (omega (arith, n)) same in
              let done =
                settled (woken r.read_waker) left
                  (stored s buf, (wake_readable buf none).1, ok fresh) in
              let size : some (frame.offset + frame.len) ≡ announced none frame done.2 =
                ap (λ c. if c then some (frame.offset + frame.len) else none) (sym fin) in
              (
                done.0,
                done.1,
                done.2,
                rw (enough, on_fin) (ap (settle_all (woken r.read_waker) left) f),
                subst (λ o. IsPast given o done.0) size
                    (settled-IsPast (woken r.read_waker) left s buf fresh given (read ∙ e)),
              )
        ]

    pub recv_data-Leads :
        (given : ℕ) (final : Option ℕ) (s : Recver W) (frame : StreamFrame) (body : List ℕ)
        → IsSound s
        → IsPast given final s
        → length body ≡ frame.len
        → Leads given final frame (recv_data b s frame body)
    unfolding recv_data
    recv_data-Leads given final (recv_state r) frame body sound (e, size) n =
        subst (λ o. Leads given o frame (recv_data b (recv_state r) frame body)) (sym size)
          (either frame.fin (λ fin. fin-Leads r frame body given sound e fin n)
            (λ plain. plain-Leads r frame body given sound e plain))
      where
        either :
            {x y : Option (Recver W × List W × Result (Bool × ℕ))} (c : Bool)
            → (c ≡ true → Leads given none frame x)
            → (c ≡ false → Leads given none frame y)
            → Leads given none frame (if c then x else y)
        either true f g = f refl
        either false f g = g refl
    recv_data-Leads given final (size_known r) frame body sound (e, size) n =
        subst (λ o. Leads given o frame (recv_data b (size_known r) frame body)) (sym size)
          (size_known-Leads r frame body given sound e)
    recv_data-Leads given final (data_rcvd buf) frame body sound (e, size) n = (
      data_rcvd buf,
      [],
      ok (false, 0),
      refl,
      (e, announced-known final (given + available buf) frame (ok (false, 0)) size),
    )
    recv_data-Leads given final (reset_rcvd f) frame body sound past n =
        (reset_rcvd f, [], ok (false, 0), refl, tt)
    recv_data-Leads given final data_read frame body sound size n =
        (data_read, [], ok (false, 0), refl, announced-known final given frame (ok (false, 0)) size)
    recv_data-Leads given final (reset_read f) frame body sound past n =
        (reset_read f, [], ok (false, 0), refl, tt)
