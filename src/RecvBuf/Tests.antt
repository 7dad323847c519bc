-- ===== src/RecvBuf/Tests.antt =====
-- Concrete runs of qrecovery/src/recv/rcvbuf.rs, and the theorems about it at concrete inputs.
use gm_quic.Prelude.{
  zero, suc, ℕ, ◌+◌, ◌<◌, ◌≤◌, ◌≡◌, refl, List, [], ◌∷◌, none, some, arith, ltb, length, min,
}
use gm_quic.Bytes.{list_bytes}
use gm_quic.RecvBuf.{RecvBuf, empty, recv, try_read, available, is_readable, round, search_from}
use gm_quic.RecvBuf.Segments.{byte_at, or_else, fragment_at, fragment-after}
use gm_quic.RecvBuf.Recv.{IsValid, fresh_at, recv_lem}
use gm_quic.RecvBuf.Available.{available_lem}
use gm_quic.RecvBuf.Read.{try_read_lem}
use gm_quic.RecvBuf.Agreement.{Agrees}
use gm_quic.RecvBuf.Stream.{Op, receive, read, run, AllFrom, Holds, Runs, run_lem}

-- Bytes 0 to 3 and 7 to 8 have arrived, none has been read.
abbrev held : RecvBuf
held = record {
  nread = 0;
  largest_offset = 9;
  segments =
      record { offset = 0; bytes = 0 ∷ 1 ∷ 2 ∷ 3 ∷ [] }
      ∷ record { offset = 7; bytes = 7 ∷ 8 ∷ [] }
      ∷ [];
}

held-IsValid : IsValid held
held-IsValid = omega arith

-- A fragment that overlaps both segments leaves no gap.
fills_gap :
    recv list_bytes held 3 (3 ∷ 4 ∷ 5 ∷ 6 ∷ 7 ∷ [])
    ≡ some (
      record held {
        segments =
            record { offset = 0; bytes = 0 ∷ 1 ∷ 2 ∷ 3 ∷ [] }
            ∷ record { offset = 4; bytes = 4 ∷ 5 ∷ 6 ∷ [] }
            ∷ record { offset = 7; bytes = 7 ∷ 8 ∷ [] }
            ∷ [];
      },
      0,
    )
unfolding recv round search_from
fills_gap = refl

recv_lem_example :
    (r' : RecvBuf) × (credit : ℕ) × (recv list_bytes held 3 (3 ∷ 4 ∷ []) ≡ some (r', credit))
    × IsValid r'
    × (r'.nread ≡ 0)
    × ((x : ℕ)
        → byte_at r'.segments x ≡ or_else (byte_at held.segments x) (fresh_at 0 3 (3 ∷ 4 ∷ []) x))
    × (r'.largest_offset ≡ 9 + credit)
    × (credit ≡ 0)
recv_lem_example = recv_lem list_bytes held 3 (3 ∷ 4 ∷ []) held-IsValid

try_read_lem_example :
    let (r', out) = try_read list_bytes held 3 in
    IsValid r'
    × (r'.largest_offset ≡ 9)
    × (r'.nread ≡ 0 + length out)
    × (length out ≡ min 3 (available held))
    × ((x : ℕ) → byte_at held.segments x ≡ or_else (fragment_at 0 out x) (byte_at r'.segments x))
try_read_lem_example = try_read_lem list_bytes held 3 held-IsValid

available_lem_example :
    ((x : ℕ) → 0 ≤ x → x < 0 + available held → (v : ℕ) × (byte_at held.segments x ≡ some v))
    × (byte_at held.segments (0 + available held) ≡ none)
    × (is_readable held ≡ ltb 0 (available held))
available_lem_example = available_lem held held-IsValid

-- The stream whose byte at `x` is `x`; its bytes arrive out of order and overlapping.
abbrev calls : List Op
calls = receive 2 (2 ∷ 3 ∷ []) ∷ read 4 ∷ receive 0 (0 ∷ 1 ∷ 2 ∷ []) ∷ read 4 ∷ []

two_three : Agrees (λ x. x) (fragment_at 2 (2 ∷ 3 ∷ []))
unfolding fragment_at
two_three zero v e = cc
two_three (suc zero) v e = cc
two_three (suc (suc zero)) v e = cc
two_three (suc (suc (suc zero))) v e = cc
two_three (suc (suc (suc (suc x)))) v e =
    cc (fragment-after 2 (2 ∷ 3 ∷ []) (suc (suc (suc (suc x)))) (omega arith))

zero_to_two : Agrees (λ x. x) (fragment_at 0 (0 ∷ 1 ∷ 2 ∷ []))
unfolding fragment_at
zero_to_two zero v e = cc
zero_to_two (suc zero) v e = cc
zero_to_two (suc (suc zero)) v e = cc
zero_to_two (suc (suc (suc x))) v e =
    cc (fragment-after 0 (0 ∷ 1 ∷ 2 ∷ []) (suc (suc (suc x))) (omega arith))

from : AllFrom (λ x. x) calls
from = (two_three, (zero_to_two, tt))

fresh-Holds : Holds list_bytes (λ x. x) empty
fresh-Holds = (omega arith, λ x v e. cc)

run_lem_example :
    (r' : RecvBuf) × (out : List ℕ) × (run list_bytes empty calls ≡ some (r', out))
    × Runs list_bytes (λ x. x) empty calls r' out
run_lem_example = run_lem list_bytes (λ x. x) empty calls fresh-Holds from
