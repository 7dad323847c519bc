-- ===== src/SendBuf/Buffer.antt =====
-- qrecovery/src/send/sndbuf.rs, `SendBuf`: the bytes written, from the first not acknowledged on.
use gm_quic.Prelude.{
  ℕ, ◌+◌, ◌-◌, min, List, [], ◌∷◌, ◌++◌, Option, some, Bool, true, false, ltb, leb, if◌then◌else◌,
  length, take, drop, ◌>>=◌, ◌>>◌, guard,
}
use gm_quic.SendBuf.Map.{BufMap, empty, extend_to}
use gm_quic.SendBuf.Marks.{ack_rcvd, may_loss, shift}
use gm_quic.SendBuf.Pick.{Signals, picked, blocked, pick}

pub record SendBuf : Type 0 where
  pub offset : ℕ
  pub bytes : List ℕ
  pub state : BufMap

abbrev pub with_capacity : SendBuf
with_capacity = record { offset = 0; bytes = []; state = empty }

unfoldable pub write : SendBuf → List ℕ → Option (SendBuf × ℕ)
write b [] = some (b, 0)
write b (byte ∷ more) =
    let n = length (byte ∷ more) in
    extend_to b.state (b.state.size + n) >>= λ state.
    some (record b { bytes = b.bytes ++ (byte ∷ more); state = state }, n)

abbrev pub written : SendBuf → ℕ
written b = b.state.size

-- `VecDeque::is_empty`
abbrev pub no_bytes : List ℕ → Bool
no_bytes [] = true
no_bytes (byte ∷ bytes) = false

abbrev pub is_all_rcvd : SendBuf → Bool
is_all_rcvd b = no_bytes b.bytes

-- `&l[from..to]`, which panics outside the slice.
unfoldable pub slice : List ℕ → ℕ → ℕ → Option (List ℕ)
slice l from to =
    guard (leb from to) >> (guard (leb to (length l)) >> some (take (to - from) (drop from l)))

pub data PickUp : Type 0 where
  -- The offset, whether the data is new, and the data in two parts.
  sending : ℕ → Bool → List ℕ → List ℕ → PickUp
  waiting : Signals → PickUp

-- The parts of the ring buffer between two positions; `as_slices` is `VecDeque::as_slices`.
unfoldable pub parts : (List ℕ → List ℕ × List ℕ) → List ℕ → ℕ → ℕ → Option (List ℕ × List ℕ)
unfolding slice
parts as_slices bytes start end =
    let (l, r) = as_slices bytes in
    slice l (min start (length l)) (min (length l) end) >>= λ s1.
    slice r (start - length l) (end - length l) >>= λ s2. some (s1, s2)

-- Positions are relative to `offset`, in front of which nothing may be picked.
unfoldable pub pick_up :
    (List ℕ → List ℕ × List ℕ) → SendBuf → (ℕ → Option ℕ) → ℕ → Option (SendBuf × PickUp)
unfolding pick parts
pick_up as_slices b predicate flow_limit =
    let (state, result) = pick b.state predicate flow_limit in
    let b' = record b { state = state } in
    elim result [
      | blocked signals ↦ some (b', waiting signals)
      | picked start end fresh ↦
          guard (leb b.offset start)
          >> (parts as_slices b.bytes (start - b.offset) (end - b.offset) >>= λ (s1, s2).
              some (b', sending start fresh s1 s2))
    ]

-- `drain` panics behind the end of the data.
unfoldable pub on_data_acked : SendBuf → ℕ → ℕ → Option SendBuf
unfolding ack_rcvd shift
on_data_acked b start end = ack_rcvd b.state start end >>= λ acked.
    (let (state, min_unrecved) = shift acked in
      if ltb b.offset min_unrecved
      then (guard (leb (min_unrecved - b.offset) (length b.bytes))
          >> some (record {
            offset = min_unrecved;
            bytes = drop (min_unrecved - b.offset) b.bytes;
            state = state;
          }))
      else some (record b { state = state }))

unfoldable pub may_loss_data : SendBuf → ℕ → ℕ → Option SendBuf
unfolding may_loss
may_loss_data b start end =
    may_loss b.state start end >>= λ state. some (record b { state = state })
