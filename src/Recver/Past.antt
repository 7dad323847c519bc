-- ===== src/Recver/Past.antt =====
-- What the reader of a receiving stream was given so far, and the final size that was announced.
use gm_quic.Prelude.{
  ℕ, ◌+◌, ◌≡◌, refl, ap, sym, subst, ◌∙◌, List, Option, none, some, arith, Bool-cases, Bool, inl,
  inr, length,
}
use mathlib.Core.Option.{some-injective}
use gm_quic.Bytes.{BytesOps}
use gm_quic.RecvBuf.{RecvBuf, available, is_readable, is_empty, try_read}
use gm_quic.RecvBuf.Left.{read_lem, empty_available}
use gm_quic.Recver.{
  Result, Recv, Recver, recv_state, size_known, data_rcvd, reset_rcvd, data_read, reset_read, Poll,
  pending, ready, broken, poll_read, new,
}
use gm_quic.Recver.States.{IsSound, IsPast}
use gm_quic.Recver.Reads.{widen_lem}
use gm_quic.Recver.Life.{
  Step, arrives, reads, resets, stops, Reach, start, next, recv_reset-keeps, stop-keeps,
  reach-IsSound,
}
use gm_quic.Recver.Leads.{announced, recv_data-Leads}

-- The reader gets the bytes of an answer.
abbrev pub given_more : ℕ → Poll → ℕ
given_more n pending = n
given_more n (ready out) = n + length out
given_more n (broken f) = n

module _ {ℓ} {W : Type ℓ} (b : BytesOps) where
  poll_read-IsPast :
      (given : ℕ) (final : Option ℕ) (s : Recver W) (w : W) (room : ℕ)
      → IsSound s
      → IsPast given final s
      → let (s', frames, p) = poll_read b s w room in IsPast (given_more given p) final s'
  unfolding poll_read
  poll_read-IsPast given final (recv_state r) w room (valid, _, _, _) (e, size) =
      elim (Bool-cases (is_readable r.rcvbuf)) [
        | inr bare ↦ rw bare (e, size)
        | inl full ↦
            let (_, _, _, count, more) = read_lem b r.rcvbuf room valid in
            let read : Recv W = record r { rcvbuf = (try_read b r.rcvbuf room).0 } in
            let (buf, _, _, _) = widen_lem read in
            rw full (ap (λ (k : RecvBuf). k.nread) buf ∙ omega (arith, count, more, e), size)
      ]
  poll_read-IsPast given final (size_known r) w room (valid, _, _, _) (e, size) =
      elim (Bool-cases (is_readable r.rcvbuf)) [
        | inr bare ↦ rw bare (e, size)
        | inl full ↦
            let (_, _, _, count, more) = read_lem b r.rcvbuf room valid in
            rw full (omega (arith, count, more, e), size)
      ]
  poll_read-IsPast given final (data_rcvd buf) w room (valid, _) (e, size) =
      let (_, _, _, count, more) = read_lem b buf room valid in
      let buf' = (try_read b buf room).0 in
      let out = (try_read b buf room).1 in
      elim (Bool-cases (is_empty (try_read b buf room).0)) [
        | inl done ↦
            let z = empty_available buf' done in
            let all : given + available buf ≡ given + length out = omega (arith, z, count) in
            rw done (size ∙ ap (λ (n : ℕ). some n) all)
        | inr left ↦
            let all : given + available buf ≡ given + length out + available buf' =
              omega (arith, count) in
            rw left (omega (arith, count, more, e), size ∙ ap (λ (n : ℕ). some n) all)
      ]
  poll_read-IsPast given final (reset_rcvd f) w room sound past = tt
  poll_read-IsPast given final data_read w room sound past =
      let same : given ≡ given + 0 = omega arith in past ∙ ap (λ (n : ℕ). some n) same
  poll_read-IsPast given final (reset_read f) w room sound past = tt

  -- What the reader was given, after a step, and the final size that was announced.
  abbrev given_after : (s s' : Recver W) → ℕ → Step b s s' → ℕ
  given_after s s' n (arrives _ _ frame body wakes res m e) = n
  given_after s _ n (reads _ w room) = given_more n (poll_read b s w room).2
  given_after s s' n (resets _ _ frame wakes res e) = n
  given_after s s' n (stops _ _ err_code frames e) = n

  abbrev final_after : (s s' : Recver W) → Option ℕ → Step b s s' → Option ℕ
  final_after s s' o (arrives _ _ frame body wakes res n e) = announced o frame res
  final_after s _ o (reads _ w room) = o
  final_after s s' o (resets _ _ frame wakes res e) = o
  final_after s s' o (stops _ _ err_code frames e) = o

  Step-IsPast :
      (given : ℕ) (final : Option ℕ) (s s' : Recver W) (step : Step b s s')
      → IsSound s
      → IsPast given final s
      → IsPast (given_after s s' given step) (final_after s s' final step) s'
  Step-IsPast given final s s' (arrives _ _ frame body wakes res n e) sound past =
      let (t, _, _, f, past') = recv_data-Leads b given final s frame body sound past n in
      subst
        (λ (q : Recver W × List W × Result (Bool × ℕ)).
          IsPast given (announced final frame q.2) q.0)
        (some-injective _ _ (sym f ∙ e)) past'
  Step-IsPast given final s _ (reads _ w room) sound past =
      poll_read-IsPast given final s w room sound past
  Step-IsPast given final s s' (resets _ _ frame wakes res e) sound past =
      recv_reset-keeps (IsPast given final) s s' frame wakes res e past (λ low. tt)
  Step-IsPast given final s s' (stops _ _ err_code frames e) sound past =
      stop-keeps (IsPast given final) s s' err_code frames e (λ r c h. h) (λ r c h. h) past

  -- The bytes that the reader was given in the life of a stream.
  abbrev pub given_of : (buf_size : ℕ) (s : Recver W) → Reach b buf_size s → ℕ
  given_of _ _ (start buf_size) = 0
  given_of buf_size s' (next _ s _ reach step) = given_after s s' (given_of buf_size s reach) step

  -- The final size that a frame announced in the life of a stream.
  abbrev pub final_of : (buf_size : ℕ) (s : Recver W) → Reach b buf_size s → Option ℕ
  final_of _ _ (start buf_size) = none
  final_of buf_size s' (next _ s _ reach step) = final_after s s' (final_of buf_size s reach) step

  -- In every state that a stream gets into, by calls that do not panic and by frames whose length is
  -- that of their data: the buffer is in order; no byte lies beyond the limit while the final size is
  -- not known, or beyond this size once it is; and a reader waits only while there is nothing to
  -- read. Unless the stream was reset: the size is known just when a frame with FIN was accepted, and
  -- it is where the first of these ends; the stream counts as received only when what the reader was
  -- given and what it can still read make up this size, and as read only when the reader was given
  -- as much.
  pub reach-IsPast :
      (buf_size : ℕ) (s : Recver W) (reach : Reach b buf_size s)
      → IsSound s × IsPast (given_of buf_size s reach) (final_of buf_size s reach) s
  unfolding new
  reach-IsPast _ _ (start buf_size) =
      (reach-IsSound {W = W} b buf_size (new buf_size) (start buf_size), (refl, refl))
  reach-IsPast buf_size s' (next _ s _ reach step) =
      let (sound, past) = reach-IsPast buf_size s reach in
      (
        reach-IsSound b buf_size s' (next buf_size s s' reach step),
        Step-IsPast (given_of buf_size s reach) (final_of buf_size s reach) s s' step sound past,
      )
