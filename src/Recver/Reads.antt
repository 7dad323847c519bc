-- ===== src/Recver/Reads.antt =====
-- The reads of a receiving stream.
use gm_quic.Prelude.{
  ℕ, ◌+◌, ◌*◌, ◌≤◌, ◌<◌, min, ◌≡◌, ◌⊎◌, refl, ap, sym, subst, ◌∙◌, List, [], ◌∷◌, Option, none,
  some, arith, ltb, ltb→lt, ltb→le, Bool-cases, true, inl, inr, length,
}
use gm_quic.Bytes.{BytesOps}
use gm_quic.VarInt.{varint_max}
use gm_quic.RecvBuf.{RecvBuf, try_read, available, is_readable, is_empty}
use gm_quic.RecvBuf.Recv.{IsValid}
use gm_quic.RecvBuf.Left.{read_lem, not_readable, now_readable, empty_available}
use gm_quic.Recver.{
  Recv, Recver, recv_state, size_known, data_rcvd, reset_rcvd, data_read, reset_read, SentFrame,
  max_stream_data_frame, Poll, pending, ready, broken, widen, poll_read, threshold, woken,
}
use gm_quic.Recver.States.{IsQuiet, IsSound, IsPast, waiting}

-- The limits that the peer is told: none, or one above the old limit, which is the new one.
abbrev pub Told : ℕ → ℕ → List SentFrame → Type 0
Told old now [] = old ≡ now
Told old now (f ∷ fs) = (f ∷ fs ≡ max_stream_data_frame now ∷ []) × (old < now)

Told-le : (old now : ℕ) (frames : List SentFrame) → Told old now frames → old ≤ now
Told-le old now [] h = omega (arith, h)
Told-le old now (f ∷ fs) h = omega (arith, h.1)

-- With all data there, there is some to read, or all of it was given.
IsPast-ends :
    (given : ℕ) (final : Option ℕ) (buf : RecvBuf)
    → final ≡ some (given + available buf)
    → (0 < available buf) ⊎ (final ≡ some given)
IsPast-ends given final buf e = elim (Bool-cases (ltb 0 (available buf))) [
  | inl more ↦ inl (ltb→lt 0 (available buf) more)
  | inr no_more ↦
      let same : given + available buf ≡ given = omega (arith, ltb→le 0 (available buf) no_more) in
      inr (e ∙ ap (λ (n : ℕ). some n) same)
]

module _ {ℓ} {W : Type ℓ} where
  -- How many bytes can be read at once.
  abbrev pub unread : Recver W → ℕ
  unread (recv_state r) = available r.rcvbuf
  unread (size_known r) = available r.rcvbuf
  unread (data_rcvd buf) = available buf
  unread (reset_rcvd f) = 0
  unread data_read = 0
  unread (reset_read f) = 0

  -- The limit of the data, while it holds.
  abbrev pub limit : Recver W → ℕ
  limit (recv_state r) = r.max_stream_data
  limit (size_known r) = 0
  limit (data_rcvd buf) = 0
  limit (reset_rcvd f) = 0
  limit data_read = 0
  limit (reset_read f) = 0

  -- What a read may answer: the reader waits, and there is nothing to read; or it gets all that can
  -- be read and fits its buffer, and if there is nothing to read, what it was given before is all that
  -- the final size announces; or it learns of the reset.
  abbrev pub IsAnswer : ℕ → Option ℕ → Recver W → Recver W → W → ℕ → Poll → Type ℓ
  IsAnswer given final s s' w room pending = (unread s ≡ 0) × (waiting s' ≡ w ∷ [])
  IsAnswer given final s s' w room (ready out) =
      (length out ≡ min room (unread s))
      × (unread s' + length out ≡ unread s)
      × ((0 < unread s) ⊎ (final ≡ some given))
      × (waiting s' ≡ waiting s)
  IsAnswer given final s s' w room (broken f) = s' ≡ reset_read f

  pub widen_lem :
      (r : Recv W)
      → let (r', frames) = widen r in
        (r'.rcvbuf ≡ r.rcvbuf)
        × (r'.read_waker ≡ r.read_waker)
        × (r'.largest ≡ r.largest)
        × Told r.max_stream_data r'.max_stream_data frames
  unfolding widen
  widen_lem r = elim (Bool-cases (ltb r.max_stream_data (r.rcvbuf.nread + threshold))) [
    | inl near ↦
        elim (Bool-cases
          (ltb r.max_stream_data (min (r.rcvbuf.nread + threshold * 2) varint_max))) [
            | inl more ↦ rw near (
                rw more (
                  refl,
                  refl,
                  refl,
                  (
                    refl,
                    ltb→lt r.max_stream_data (min (r.rcvbuf.nread + threshold * 2) varint_max) more,
                  ),
                ))
            | inr same ↦ rw near (rw same (refl, refl, refl, refl))
          ]
    | inr far ↦ rw far (refl, refl, refl, refl)
  ]

  IsQuiet-keep :
      (w : Option W) (buf buf' : RecvBuf) → IsQuiet w buf → is_readable buf ≡ true → IsQuiet w buf'
  IsQuiet-keep none buf buf' quiet full = tt
  IsQuiet-keep (some w) buf buf' quiet full = absurd (let h = sym quiet ∙ full in cc)

  module _ (b : BytesOps) where
    pub poll_read_lem :
        (given : ℕ) (final : Option ℕ) (s : Recver W) (w : W) (room : ℕ)
        → IsSound s
        → IsPast given final s
        → let (s', frames, p) = poll_read b s w room in
          IsSound s' × IsAnswer given final s s' w room p × Told (limit s) (limit s') frames
    unfolding poll_read
    poll_read_lem given final (recv_state r) w room (valid, bound, below, quiet) past =
        elim (Bool-cases (is_readable r.rcvbuf)) [
          | inr bare ↦
              rw bare ((valid, bound, below, bare), (not_readable r.rcvbuf valid bare, refl), refl)
          | inl full ↦
              let (valid', same, amount, count, e) = read_lem b r.rcvbuf room valid in
              let read : Recv W = record r { rcvbuf = (try_read b r.rcvbuf room).0 } in
              let (buf, waker, largest, told) = widen_lem read in
              let le =
                Told-le r.max_stream_data (widen read).0.max_stream_data (widen read).1 told in
              rw full (
                (
                  subst IsValid (sym buf) valid',
                  omega (arith, ap (λ (k : RecvBuf). k.largest_offset) buf, same, largest),
                  omega (arith, largest),
                  IsQuiet-keep (widen read).0.read_waker r.rcvbuf (widen read).0.rcvbuf
                      (subst (λ k. IsQuiet k r.rcvbuf) (sym waker) quiet) full,
                ),
                (
                  amount,
                  ap (λ k. available k + length (try_read b r.rcvbuf room).1) buf ∙ count,
                  inl (now_readable r.rcvbuf valid full),
                  ap woken waker,
                ),
                told,
              )
        ]
    poll_read_lem given final (size_known r) w room (valid, bound, missing, quiet) past =
        let (valid', same, amount, count, e) = read_lem b r.rcvbuf room valid in
        elim (Bool-cases (is_readable r.rcvbuf)) [
          | inr bare ↦
              rw bare
                ((valid, bound, missing, bare), (not_readable r.rcvbuf valid bare, refl), refl)
          | inl full ↦ rw full (
            (
              valid',
              omega (arith, same),
              omega (arith, e),
              IsQuiet-keep r.read_waker r.rcvbuf (try_read b r.rcvbuf room).0 quiet full,
            ),
            (amount, count, inl (now_readable r.rcvbuf valid full), refl),
            refl,
          )
        ]
    poll_read_lem given final (data_rcvd buf) w room (valid, whole) past =
        let ends = IsPast-ends given final buf past.1 in
        let (valid', same, amount, count, e) = read_lem b buf room valid in
        elim (Bool-cases (is_empty (try_read b buf room).0)) [
          | inl done ↦
              let z = empty_available (try_read b buf room).0 done in
              rw done (tt, (amount, omega (arith, count, z), ends, refl), refl)
          | inr more ↦
              rw more ((valid', omega (arith, e, same, whole)), (amount, count, ends, refl), refl)
        ]
    poll_read_lem given final (reset_rcvd f) w room sound past = (tt, refl, refl)
    poll_read_lem given final data_read w room sound past =
        (tt, (omega arith, refl, inr past, refl), refl)
    poll_read_lem given final (reset_read f) w room sound past = (tt, refl, refl)
