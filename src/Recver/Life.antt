-- ===== src/Recver/Life.antt =====
-- The life of a receiving stream: its calls in any order.
use gm_quic.Prelude.{
  ℕ, ◌+◌, ◌≤◌, ◌≡◌, refl, ap, sym, subst, ◌∙◌, List, [], Option, none, some, arith, leb, ◌>>=◌,
  ◌>>◌, guard, length, Bool, true, false, Bool-cases, inl, inr,
}
use mathlib.Core.Option.{some-injective}
use gm_quic.Bytes.{BytesOps}
use gm_quic.RecvBuf.{available, try_read, is_readable, is_empty}
use gm_quic.VarInt.{varint_max}
use gm_quic.Recver.{
  StreamFrame, ResetStreamFrame, Recv, SizeKnown, Result, ok, err, Recver, recv_state, size_known,
  data_rcvd, reset_rcvd, data_read, reset_read, new, recv_data, poll_read, recv_reset, on_reset,
  reset_recv, reset_size_known, stop, stop_with, SentFrame,
}
use gm_quic.Recver.States.{IsSound, rank}
use gm_quic.Recver.Arrival.{recv_data_lem}
use gm_quic.Recver.Reads.{poll_read_lem}

module _ {ℓ} {W : Type ℓ} where
  abbrev stopped : Bool → Option (Recver W × List SentFrame) → Option (Recver W × List SentFrame)
  stopped allowed o = guard allowed >> o

  abbrev put_in :
      (Option ℕ → Recver W)
      → Option (Option ℕ × List SentFrame)
      → Option (Recver W × List SentFrame)
  put_in put o = o >>= λ done. some (put done.0, done.1)

  module _ {κ} (P : Recver W → Type κ) where
    on_reset-keeps :
        (s s' : Recver W) (w : Option W) (frame : ResetStreamFrame) (o : Result ℕ) (wakes : List W)
        (res : Result ℕ)
        → P s
        → P (reset_rcvd frame)
        → some (on_reset s w frame o) ≡ some (s', wakes, res)
        → P s'
    on_reset-keeps s s' w frame (ok n) wakes res here there e =
        subst P (ap (λ (q : Recver W × List W × Result ℕ). q.0) (some-injective _ _ e)) there
    on_reset-keeps s s' w frame (err x) wakes res here there e =
        subst P (ap (λ (q : Recver W × List W × Result ℕ). q.0) (some-injective _ _ e)) here

    -- A reset leaves the state as it is, or ends the stream while data is still missing.
    pub recv_reset-keeps :
        (s s' : Recver W) (frame : ResetStreamFrame) (wakes : List W) (res : Result ℕ)
        → recv_reset s frame ≡ some (s', wakes, res)
        → P s
        → (rank s ≤ 1 → P (reset_rcvd frame))
        → P s'
    unfolding recv_reset
    recv_reset-keeps (recv_state r) s' frame wakes res e here there =
        on_reset-keeps (recv_state r) s' r.read_waker frame (reset_recv r frame) wakes res here
          (there (omega arith)) e
    recv_reset-keeps (size_known r) s' frame wakes res e here there =
        on_reset-keeps (size_known r) s' r.read_waker frame (reset_size_known r frame) wakes res
          here (there (omega arith)) e
    recv_reset-keeps (data_rcvd buf) s' frame wakes res e here there = absurd (cc)
    recv_reset-keeps (reset_rcvd f) s' frame wakes res e here there = absurd (cc)
    recv_reset-keeps data_read s' frame wakes res e here there = absurd (cc)
    recv_reset-keeps (reset_read f) s' frame wakes res e here there = absurd (cc)

    stopped-keeps :
        (s' : Recver W) (put : Option ℕ → Recver W) (allowed : Bool)
        (o : Option (Option ℕ × List SentFrame)) (frames : List SentFrame)
        → ((code : Option ℕ) → P (put code))
        → stopped allowed (put_in put o) ≡ some (s', frames)
        → P s'
    stopped-keeps s' put true (some done) frames kept e =
        subst P (ap (λ (q : Recver W × List SentFrame). q.0) (some-injective _ _ e)) (kept done.0)
    stopped-keeps s' put true none frames kept e = absurd (cc)
    stopped-keeps s' put false o frames kept e = absurd (cc)

    stays-keeps :
        (s s' : Recver W) (allowed : Bool) (frames : List SentFrame)
        → P s
        → stopped allowed (some (s, [])) ≡ some (s', frames)
        → P s'
    stays-keeps s s' true frames here e =
        subst P (ap (λ (q : Recver W × List SentFrame). q.0) (some-injective _ _ e)) here
    stays-keeps s s' false frames here e = absurd (cc)

    -- A stop changes the stop state only.
    pub stop-keeps :
        (s s' : Recver W) (err_code : ℕ) (frames : List SentFrame)
        → stop s err_code ≡ some (s', frames)
        → ((r : Recv W) (c : Option ℕ)
            → P (recv_state r)
            → P (recv_state (record r { stop_state = c })))
        → ((r : SizeKnown W) (c : Option ℕ)
            → P (size_known r)
            → P (size_known (record r { stop_state = c })))
        → P s
        → P s'
    unfolding stop
    stop-keeps (recv_state r) s' code frames e first second here =
        stopped-keeps s' (λ c. recv_state (record r { stop_state = c })) (leb code varint_max)
          (stop_with r.stop_state code) frames (λ c. first r c here) e
    stop-keeps (size_known r) s' code frames e first second here =
        stopped-keeps s' (λ c. size_known (record r { stop_state = c })) (leb code varint_max)
          (stop_with r.stop_state code) frames (λ c. second r c here) e
    stop-keeps (data_rcvd buf) s' code frames e first second here =
        stays-keeps (data_rcvd buf) s' (leb code varint_max) frames here e
    stop-keeps (reset_rcvd f) s' code frames e first second here =
        stays-keeps (reset_rcvd f) s' (leb code varint_max) frames here e
    stop-keeps data_read s' code frames e first second here =
        stays-keeps data_read s' (leb code varint_max) frames here e
    stop-keeps (reset_read f) s' code frames e first second here =
        stays-keeps (reset_read f) s' (leb code varint_max) frames here e

module _ {ℓ} {W : Type ℓ} (b : BytesOps) where
  -- One call that does not panic: a stream frame or a reset arrives, or the reader reads or stops.
  pub data Step : Recver W → Recver W → Type ℓ where
    arrives :
        (s s' : Recver W) (frame : StreamFrame) (body : List ℕ) (wakes : List W)
        (res : Result (Bool × ℕ))
        → length body ≡ frame.len
        → recv_data b s frame body ≡ some (s', wakes, res)
        → Step s s'
    reads : (s : Recver W) (w : W) (room : ℕ) → Step s (poll_read b s w room).0
    resets :
        (s s' : Recver W) (frame : ResetStreamFrame) (wakes : List W) (res : Result ℕ)
        → recv_reset s frame ≡ some (s', wakes, res)
        → Step s s'
    stops :
        (s s' : Recver W) (err_code : ℕ) (frames : List SentFrame)
        → stop s err_code ≡ some (s', frames)
        → Step s s'

  pub data Reach : ℕ → Recver W → Type ℓ where
    start : (buf_size : ℕ) → Reach buf_size (new buf_size)
    next : (buf_size : ℕ) (s s' : Recver W) → Reach buf_size s → Step s s' → Reach buf_size s'

  abbrev IsNext : Recver W → Recver W → Type 0
  IsNext s s' = IsSound s' × (rank s ≤ rank s')

  poll_read-rank : (s : Recver W) (w : W) (room : ℕ) → rank s ≤ rank (poll_read b s w room).0
  unfolding poll_read
  poll_read-rank (recv_state r) w room = omega arith
  poll_read-rank (size_known r) w room = elim (Bool-cases (is_readable r.rcvbuf)) [
    | inl full ↦ rw full (omega arith)
    | inr bare ↦ rw bare (omega arith)
  ]
  poll_read-rank (data_rcvd buf) w room = elim (Bool-cases (is_empty (try_read b buf room).0)) [
    | inl done ↦ rw done (omega arith)
    | inr more ↦ rw more (omega arith)
  ]
  poll_read-rank (reset_rcvd f) w room = omega arith
  poll_read-rank data_read w room = omega arith
  poll_read-rank (reset_read f) w room = omega arith

  poll_read-IsSound :
      (s : Recver W) (w : W) (room : ℕ) → IsSound s → IsSound (poll_read b s w room).0
  poll_read-IsSound (recv_state r) w room sound =
      (poll_read_lem b r.rcvbuf.nread none (recv_state r) w room sound (refl, refl)).0
  poll_read-IsSound (size_known r) w room sound =
      (poll_read_lem b r.rcvbuf.nread (some r.final_size) (size_known r) w room sound
        (refl, refl)).0
  poll_read-IsSound (data_rcvd buf) w room sound =
      (poll_read_lem b buf.nread (some (buf.nread + available buf)) (data_rcvd buf) w room sound
        (refl, refl)).0
  poll_read-IsSound (reset_rcvd f) w room sound =
      (poll_read_lem b 0 none (reset_rcvd f) w room sound tt).0
  poll_read-IsSound data_read w room sound =
      (poll_read_lem b 0 (some 0) data_read w room sound refl).0
  poll_read-IsSound (reset_read f) w room sound =
      (poll_read_lem b 0 none (reset_read f) w room sound tt).0

  Step-IsNext : (s s' : Recver W) → Step s s' → IsSound s → IsNext s s'
  Step-IsNext s s' (arrives _ _ frame body wakes res n e) sound =
      let (t, _, _, f, sound', _, order) = recv_data_lem b s frame body sound n in
      subst (IsNext s)
        (ap (λ (q : Recver W × List W × Result (Bool × ℕ)). q.0) (some-injective _ _ (sym f ∙ e)))
        (sound', order)
  Step-IsNext s _ (reads _ w room) sound =
      (poll_read-IsSound s w room sound, poll_read-rank s w room)
  Step-IsNext s s' (resets _ _ frame wakes res e) sound =
      recv_reset-keeps (IsNext s) s s' frame wakes res e (sound, omega arith)
        (λ low. (tt, omega (arith, low)))
  Step-IsNext s s' (stops _ _ err_code frames e) sound =
      stop-keeps (IsNext s) s s' err_code frames e (λ r c h. h) (λ r c h. h) (sound, omega arith)

  -- In every state that a stream gets into, the buffer is in order; no byte lies beyond the limit,
  -- or beyond the final size once that is known; and a reader waits only while there is nothing to
  -- read.
  pub reach-IsSound : (buf_size : ℕ) (s : Recver W) → Reach buf_size s → IsSound s
  unfolding new
  reach-IsSound _ _ (start buf_size) = ((tt, tt, omega arith), omega arith, omega arith, tt)
  reach-IsSound buf_size s' (next _ s _ reach step) =
      (Step-IsNext s s' step (reach-IsSound buf_size s reach)).0

  -- A stream never goes back: from receiving to its size being known, to all data being there or a
  -- reset, to either of these being read.
  pub Step-rank : (buf_size : ℕ) (s s' : Recver W) → Reach buf_size s → Step s s' → rank s ≤ rank s'
  Step-rank buf_size s s' reach step = (Step-IsNext s s' step (reach-IsSound buf_size s reach)).1
