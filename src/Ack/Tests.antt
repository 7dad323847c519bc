-- ===== src/Ack/Tests.antt =====
-- The ACK frame on small inputs.
use gm_quic.Prelude.{ℕ, ◌-◌, ◌≤◌, ◌≡◌, refl, List, [], ◌∷◌, ◌++◌, none, some, arith, length}
use gm_quic.Wire
use gm_quic.Wire.{vec_buf, list_nom, be_bytes}
use gm_quic.Ack.{AckFrame, Range, iter, put_frame, type_byte, frame_size, max_encoding_size}
use gm_quic.Ack.Parse.{ack_frame_with_flag}
use gm_quic.Ack.Ranges.{IsBelow, gaps, frame_of, iter-frame_of, iter-IsBelow}
use gm_quic.Ack.RoundTrip.{IsSmall, ack_frame_with_flag-put_frame}
use gm_quic.Ack.Size.{frame_size_lem}

-- The frame of the source's own test of `iter`.
abbrev frame : AckFrame
frame = record {
  largest = 1000;
  delay = 4660;
  first_range = 0;
  ranges = (0, 2) ∷ (4, 30) ∷ (7, 40) ∷ [];
  ecn = some (record { ect0 = 1; ect1 = 2; ce = 3 });
}

abbrev lower : List Range
lower =
    record { first = 996; last = 998 }
    ∷ record { first = 960; last = 990 }
    ∷ record { first = 911; last = 951 }
    ∷ []

iter-frame : iter frame ≡ some (record { first = 1000; last = 1000 } ∷ lower)
unfolding iter
iter-frame = refl

lower-IsBelow : IsBelow 1000 lower
lower-IsBelow =
    (omega arith, omega arith, (omega arith, omega arith, (omega arith, omega arith, tt)))

iter-frame_of_example :
    iter (frame_of (record { first = 1000; last = 1000 }) lower 4660 none)
    ≡ some (record { first = 1000; last = 1000 } ∷ lower)
iter-frame_of_example =
    iter-frame_of (record { first = 1000; last = 1000 }) lower 4660 none (omega arith) lower-IsBelow

iter-IsBelow_example :
    (top : Range) × (below : List Range) × (record { first = 1000; last = 1000 } ∷ lower
      ≡ top ∷ below)
    × (top.last ≡ frame.largest)
    × (top.first ≤ top.last)
    × IsBelow top.first below
    × (gaps top.first below ≡ frame.ranges)
    × (top.last - top.first ≡ frame.first_range)
iter-IsBelow_example = iter-IsBelow frame (record { first = 1000; last = 1000 } ∷ lower) iter-frame

frame-IsSmall : IsSmall frame
frame-IsSmall = (
  (omega arith, (omega arith, (omega arith, (omega arith, tt)))),
  (omega arith, (omega arith, (omega arith, (omega arith, (omega arith, (omega arith, tt)))))),
  (omega arith, (omega arith, (omega arith, tt))),
)

ack_frame_with_flag-put_frame_example :
    (body : List ℕ) × (put_frame vec_buf (9 ∷ []) frame
      ≡ some ((9 ∷ []) ++ (be_bytes 1 (type_byte frame) ++ body)))
    × (ack_frame_with_flag list_nom (type_byte frame) (body ++ (5 ∷ [])) ≡ Wire.ok (5 ∷ []) frame)
ack_frame_with_flag-put_frame_example =
    ack_frame_with_flag-put_frame vec_buf list_nom (9 ∷ []) (5 ∷ []) frame frame-IsSmall

frame_size_lem_example :
    (written : List ℕ) × (put_frame vec_buf (9 ∷ []) frame ≡ some ((9 ∷ []) ++ written))
    × (frame_size frame ≡ some (length written))
    × (length written ≤ max_encoding_size frame)
frame_size_lem_example = frame_size_lem vec_buf (9 ∷ []) frame frame-IsSmall
