-- ===== src/Recver/States.antt =====
-- What is asked of each state of a receiving stream, and the wakers of its reader.
use gm_quic.Prelude.{
  ℕ, ◌+◌, ◌≤◌, ◌<◌, ◌≡◌, refl, ap, sym, ◌∙◌, List, [], ◌++◌, Option, none, some, arith, ◌==◌,
  Bool-cases, false, inl, inr,
}
use mathlib.Core.List.{append_assoc, append-nil}
use gm_quic.RecvBuf.{RecvBuf, available, is_readable}
use gm_quic.RecvBuf.Recv.{IsValid}
use gm_quic.RecvBuf.Available.{available-le}
use gm_quic.Recver.{
  ok, SizeKnown, Recver, recv_state, size_known, data_rcvd, reset_rcvd, data_read, reset_read,
  woken, is_all_rcvd, wake_readable, settle, settled,
}

-- A reader waits for data only while there is none to read.
abbrev pub IsQuiet {ℓ} : {W : Type ℓ} → Option W → RecvBuf → Type 0
IsQuiet none buf = Unit {0}
IsQuiet (some w) buf = is_readable buf ≡ false

module _ {ℓ} {W : Type ℓ} where
  -- While the size is not known no byte lies beyond the limit; once it is known no byte lies beyond
  -- the final size, and some byte is missing; then all bytes are there.
  abbrev pub IsSound : Recver W → Type 0
  IsSound (recv_state r) =
      IsValid r.rcvbuf
      × (r.rcvbuf.largest_offset ≤ r.largest)
      × (r.largest ≤ r.max_stream_data)
      × IsQuiet r.read_waker r.rcvbuf
  IsSound (size_known r) =
      IsValid r.rcvbuf
      × (r.rcvbuf.largest_offset ≤ r.final_size)
      × (r.rcvbuf.nread + available r.rcvbuf < r.final_size)
      × IsQuiet r.read_waker r.rcvbuf
  IsSound (data_rcvd buf) = IsValid buf × (buf.nread + available buf ≡ buf.largest_offset)
  IsSound (reset_rcvd f) = Unit {0}
  IsSound data_read = Unit {0}
  IsSound (reset_read f) = Unit {0}

  -- What a state says of the bytes that the reader was given, and of the final size that a frame with
  -- FIN announced: once all data is there, what was given and what can be read make up this size.
  abbrev pub IsPast : ℕ → Option ℕ → Recver W → Type 0
  IsPast given final (recv_state r) = (r.rcvbuf.nread ≡ given) × (final ≡ none)
  IsPast given final (size_known r) = (r.rcvbuf.nread ≡ given) × (final ≡ some r.final_size)
  IsPast given final (data_rcvd buf) = (buf.nread ≡ given) × (final ≡ some (given + available buf))
  IsPast given final (reset_rcvd f) = Unit {0}
  IsPast given final data_read = final ≡ some given
  IsPast given final (reset_read f) = Unit {0}

  -- The wakers of the readers that wait.
  abbrev pub waiting : Recver W → List W
  waiting (recv_state r) = woken r.read_waker
  waiting (size_known r) = woken r.read_waker
  waiting (data_rcvd buf) = []
  waiting (reset_rcvd f) = []
  waiting data_read = []
  waiting (reset_read f) = []

  -- The states in the order in which a stream goes through them.
  abbrev pub rank : Recver W → ℕ
  rank (recv_state r) = 0
  rank (size_known r) = 1
  rank (data_rcvd buf) = 2
  rank (reset_rcvd f) = 2
  rank data_read = 3
  rank (reset_read f) = 3

  pub wake_readable_lem :
      (buf : RecvBuf) (w : Option W)
      → let (kept, wakes) = wake_readable buf w in
        IsQuiet kept buf × (woken w ≡ wakes ++ woken kept)
  unfolding wake_readable
  wake_readable_lem buf none = elim (Bool-cases (is_readable buf)) [
    | inl full ↦ rw full (tt, refl)
    | inr bare ↦ rw bare (tt, refl)
  ]
  wake_readable_lem buf (some w) = elim (Bool-cases (is_readable buf)) [
    | inl full ↦ rw full (tt, refl)
    | inr bare ↦ rw bare (bare, refl)
  ]

  settle_lem :
      (r : SizeKnown W)
      → IsValid r.rcvbuf
      → r.rcvbuf.largest_offset ≤ r.final_size
      → IsQuiet r.read_waker r.rcvbuf
      → let (state, wakes, done) = settle r in
        IsSound state × (woken r.read_waker ≡ wakes ++ waiting state) × (1 ≤ rank state)
  unfolding settle is_all_rcvd
  settle_lem r valid bound quiet =
      let le = available-le r.rcvbuf valid in
      elim (Bool-cases (r.rcvbuf.nread + available r.rcvbuf == r.final_size)) [
        | inl whole ↦
            let e : r.rcvbuf.nread + available r.rcvbuf ≡ r.final_size = ground (arith, whole) in
            rw whole ((valid, omega arith), sym (append-nil (woken r.read_waker)), omega arith)
        | inr missing ↦
            rw missing
              ((valid, bound, ground (arith, missing, le, bound), quiet), refl, omega arith)
      ]

  -- What is left of a stream whose size is known once data is stored.
  abbrev pub stored : SizeKnown W → RecvBuf → SizeKnown W
  stored r buf = record r { rcvbuf = buf; read_waker = (wake_readable buf r.read_waker).0 }

  pub settled_lem :
      (before : List W) (left : SizeKnown W → Recver W) (r : SizeKnown W) (buf : RecvBuf)
      (fresh : ℕ)
      → IsValid buf
      → buf.largest_offset ≤ r.final_size
      → let (state, wakes, res) =
          settled before left (stored r buf, (wake_readable buf r.read_waker).1, ok fresh) in
        IsSound state × (before ++ woken r.read_waker ≡ wakes ++ waiting state) × (1 ≤ rank state)
  unfolding settled
  settled_lem before left r buf fresh valid bound =
      let (quiet, woke) = wake_readable_lem buf r.read_waker in
      let (sound, woke', order) = settle_lem (stored r buf) valid bound quiet in
      let first = (wake_readable buf r.read_waker).1 in
      let more = (settle (stored r buf)).1 in
      let still = waiting (settle (stored r buf)).0 in
      (
        sound,
        ap (λ t. before ++ t) (woke ∙ ap (λ t. first ++ t) woke')
            ∙ sym (append_assoc before first (more ++ still))
            ∙ sym (append_assoc (before ++ first) more still),
        order,
      )
