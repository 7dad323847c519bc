-- ===== src/Ack/Parse.antt =====
-- qbase/src/frame/ack.rs: the parser of an ACK frame behind its type.
use gm_quic.Prelude.{ℕ, zero, suc, List, [], ◌∷◌, Option, none, some, ◌==◌, if◌then◌else◌}
use Prim.Native.Nat.{bit_and}
use gm_quic.Wire.{IResult, ok, Nom, ◌>>=◌}
use gm_quic.VarInt.{be_varint}
use gm_quic.Ack.{EcnCounts, AckFrame, ecn_opt}

-- The `while` loop: one round for each range that the frame announces.
unfoldable pub be_ranges : Nom → ℕ → List ℕ → IResult (List (ℕ × ℕ))
be_ranges nom zero input = ok input []
be_ranges nom (suc count) input = be_varint nom input >>= λ i gap.
    be_varint nom i >>= λ j ack. be_ranges nom count j >>= λ k rest. ok k ((gap, ack) ∷ rest)

unfoldable pub be_ecn_counts : Nom → List ℕ → IResult EcnCounts
be_ecn_counts nom input = be_varint nom input >>= λ i ect0. be_varint nom i >>= λ j ect1.
    be_varint nom j >>= λ k ce. ok k (record { ect0 = ect0; ect1 = ect1; ce = ce })

-- The counts are there if the lowest bit of the flag is set.
unfoldable pub be_ecn : Nom → ℕ → List ℕ → IResult (Option EcnCounts)
unfolding be_ecn_counts
be_ecn nom ecn_flag input =
    if bit_and ecn_flag ecn_opt == 0
    then ok input none
    else (be_ecn_counts nom input >>= λ i ecn. ok i (some ecn))

unfoldable pub ack_frame_with_flag : Nom → ℕ → List ℕ → IResult AckFrame
unfolding be_ranges be_ecn
ack_frame_with_flag nom ecn_flag input = be_varint nom input >>= λ i largest.
    be_varint nom i >>= λ j delay. be_varint nom j >>= λ k count.
    be_varint nom k >>= λ l first_range. be_ranges nom count l >>= λ m ranges.
    be_ecn nom ecn_flag m >>= λ n ecn. ok n (record {
      largest = largest;
      delay = delay;
      first_range = first_range;
      ranges = ranges;
      ecn = ecn;
    })
