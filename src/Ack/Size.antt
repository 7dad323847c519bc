-- ===== src/Ack/Size.antt =====
-- How many bytes an ACK frame takes.
use gm_quic.Prelude.{
  ℕ, ◌+◌, ◌*◌, ◌^◌, ◌≤◌, ◌<◌, ◌≡◌, refl, ap, sym, ◌∙◌, List, [], ◌∷◌, ◌++◌, Option, none, some,
  arith, leb, length, length-append, true,
}
use gm_quic.VarInt.{encoding_size, varint_max}
use gm_quic.VarInt.RoundTrip.{encoding, length-encoding}
use gm_quic.Wire.{BufMut, be_bytes}
use gm_quic.Ack.{
  AckFrame, EcnCounts, ranges_size, ecn_size, frame_size, max_encoding_size, put_frame, type_byte,
}
use gm_quic.Ack.RoundTrip.{
  AllSmall, flat, ecn_numbers, bytes_before, numbers, head_numbers, IsSmall, put_frame-bytes_before,
}

abbrev size : List ℕ → ℕ
size ns = length (bytes_before ns [])

length-encoding-le : (n : ℕ) → n < 2 ^ 62 → length (encoding n) ≤ 8
unfolding encoding_size
length-encoding-le n h = let e = length-encoding n h in ground (arith, e)

size-append : (ms ns : List ℕ) → size (ms ++ ns) ≡ size ms + size ns
size-append [] ns = omega arith
size-append (m ∷ ms) ns = omega (
  arith,
  size-append ms ns,
  length-append (encoding m) (bytes_before (ms ++ ns) []),
  length-append (encoding m) (bytes_before ms []),
)

ranges_size_lem :
    (pairs : List (ℕ × ℕ))
    → AllSmall (flat pairs)
    → (ranges_size pairs ≡ some (size (flat pairs))) × (size (flat pairs) ≤ length pairs * 16)
unfolding ranges_size
ranges_size_lem [] small = (refl, omega arith)
ranges_size_lem ((gap, ack) ∷ pairs) (a, (b, small)) =
    let (e, le) = ranges_size_lem pairs small in
    let n : length (encoding gap) + length (encoding ack) + size (flat pairs)
        ≡ size (gap ∷ ack ∷ flat pairs) =
      omega (
        arith,
        length-append (encoding gap) (encoding ack ++ bytes_before (flat pairs) []),
        length-append (encoding ack) (bytes_before (flat pairs) []),
      ) in
    (
      rw (sym (length-encoding gap a)) (rw (sym (length-encoding ack b)) (rw e (ap some n))),
      omega (arith, n, le, length-encoding-le gap a, length-encoding-le ack b),
    )

ecn_size_lem :
    (f : AckFrame)
    → AllSmall (ecn_numbers f.ecn)
    → (ecn_size f.ecn ≡ some (size (ecn_numbers f.ecn)))
      × (33 + length f.ranges * 16 + size (ecn_numbers f.ecn) ≤ max_encoding_size f)
unfolding ecn_size max_encoding_size
ecn_size_lem f small = go f.ecn small
  where
    go :
        (ecn : Option EcnCounts)
        → AllSmall (ecn_numbers ecn)
        → (ecn_size ecn ≡ some (size (ecn_numbers ecn)))
          × (33 + length f.ranges * 16 + size (ecn_numbers ecn)
              ≤ max_encoding_size (record f { ecn = ecn }))
    go none small = (refl, omega arith)
    go (some e) (a, (b, (c, _))) =
        let n : length (encoding e.ect0) + length (encoding e.ect1) + length (encoding e.ce)
            ≡ size (e.ect0 ∷ e.ect1 ∷ e.ce ∷ []) =
          omega (
            arith,
            length-append (encoding e.ect0) (bytes_before (e.ect1 ∷ e.ce ∷ []) []),
            length-append (encoding e.ect1) (bytes_before (e.ce ∷ []) []),
            length-append (encoding e.ce) [],
          ) in
        (
          rw (sym (length-encoding e.ect0 a))
              (rw (sym (length-encoding e.ect1 b)) (rw (sym (length-encoding e.ce c)) (ap some n))),
          omega (
            arith,
            n,
            length-encoding-le e.ect0 a,
            length-encoding-le e.ect1 b,
            length-encoding-le e.ce c,
          ),
        )

head_size :
    (f : AckFrame)
    → AllSmall (head_numbers f)
    → (length (encoding f.largest)
          + length (encoding f.delay)
          + length (encoding (length f.ranges))
          + length (encoding f.first_range)
        ≡ size (head_numbers f))
      × (size (head_numbers f) ≤ 32)
head_size f (a, (b, (c, (d, _)))) =
    let n : length (encoding f.largest)
          + length (encoding f.delay)
          + length (encoding (length f.ranges))
          + length (encoding f.first_range)
        ≡ size (head_numbers f) =
      omega (
        arith,
        length-append (encoding f.largest)
            (bytes_before (f.delay ∷ length f.ranges ∷ f.first_range ∷ []) []),
        length-append (encoding f.delay) (bytes_before (length f.ranges ∷ f.first_range ∷ []) []),
        length-append (encoding (length f.ranges)) (bytes_before (f.first_range ∷ []) []),
        length-append (encoding f.first_range) [],
      ) in
    (
      n,
      omega (
        arith,
        n,
        length-encoding-le f.largest a,
        length-encoding-le f.delay b,
        length-encoding-le (length f.ranges) c,
        length-encoding-le f.first_range d,
      ),
    )

total_lem :
    (f : AckFrame)
    → IsSmall f
    → (frame_size f ≡ some (1 + length (bytes_before (numbers f) [])))
      × (1 + length (bytes_before (numbers f) []) ≤ max_encoding_size f)
unfolding frame_size
total_lem f (head, pairs, ecn) =
    let counted : leb (length f.ranges) varint_max ≡ true = ground (arith, head.1.1.0) in
    let (h, h8) = head_size f head in
    let (r, r16) = ranges_size_lem f.ranges pairs in
    let (e, e24) = ecn_size_lem f ecn in
    let whole = size-append (head_numbers f) (flat f.ranges ++ ecn_numbers f.ecn) in
    let tail = size-append (flat f.ranges) (ecn_numbers f.ecn) in
    (
      rw counted (
          rw (sym (length-encoding f.largest head.0)) (
            rw (sym (length-encoding f.delay head.1.0)) (
              rw (sym (length-encoding (length f.ranges) head.1.1.0)) (
                rw (sym (length-encoding f.first_range head.1.1.1.0))
                  (rw r (rw e (ap some (omega (arith, h, whole, tail))))))))),
      omega (arith, h8, r16, e24, whole, tail),
    )

-- The size that is computed for a frame is the number of bytes that `put_frame` adds to any buffer;
-- and it is at most the largest size that is computed without looking at the numbers. The numbers
-- are variable-length integers, and there are fewer than 2 ^ 62 ranges.
pub frame_size_lem :
    (w : BufMut) (buf : List ℕ) (f : AckFrame)
    → IsSmall f
    → (written : List ℕ) × (put_frame w buf f ≡ some (buf ++ written))
      × (frame_size f ≡ some (length written))
      × (length written ≤ max_encoding_size f)
frame_size_lem w buf f small =
    let (e, le) = total_lem f small in
    let body = bytes_before (numbers f) [] in
    let n : 1 + length body ≡ length (be_bytes 1 (type_byte f) ++ body) =
      omega (arith, length-append (be_bytes 1 (type_byte f)) body) in
    (
      be_bytes 1 (type_byte f) ++ body,
      put_frame-bytes_before w buf f small,
      e ∙ ap some n,
      omega (arith, le, n),
    )
