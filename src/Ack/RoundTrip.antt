-- ===== src/Ack/RoundTrip.antt =====
-- The bytes of an ACK frame.
use gm_quic.Prelude.{
  ℕ, ◌^◌, ◌<◌, ◌≡◌, refl, ap, sym, ◌∙◌, List, [], ◌∷◌, ◌++◌, Option, none, some, arith, leb, length,
  true,
}
use mathlib.Core.List.{append_assoc, append-nil}
use gm_quic.Wire
use gm_quic.Wire.{IResult, BufMut, Nom, be_bytes}
use gm_quic.VarInt.{be_varint, varint_max}
use gm_quic.VarInt.RoundTrip.{
  encoding, size_class, size_class-fits, put_varint-encoding, be_varint-prefixed,
}
use gm_quic.Ack.{AckFrame, EcnCounts, put_ranges, put_ecn, put_frame, type_byte}
use gm_quic.Ack.Parse.{be_ranges, be_ecn_counts, be_ecn, ack_frame_with_flag}

-- The numbers are variable-length integers.
abbrev pub AllSmall : List ℕ → Type 0
AllSmall [] = Unit {0}
AllSmall (n ∷ ns) = (n < 2 ^ 62) × AllSmall ns

-- The numbers of a frame, in the order of its bytes.
abbrev pub flat : List (ℕ × ℕ) → List ℕ
flat [] = []
flat ((gap, ack) ∷ rest) = gap ∷ ack ∷ flat rest

abbrev pub ecn_numbers : Option EcnCounts → List ℕ
ecn_numbers none = []
ecn_numbers (some e) = e.ect0 ∷ e.ect1 ∷ e.ce ∷ []

-- Their bytes, one after the other, in front of `rest`.
abbrev pub bytes_before : List ℕ → List ℕ → List ℕ
bytes_before [] rest = rest
bytes_before (n ∷ ns) rest = encoding n ++ bytes_before ns rest

read_varint :
    (nom : Nom) (n : ℕ) (rest : List ℕ)
    → n < 2 ^ 62
    → be_varint nom (encoding n ++ rest) ≡ Wire.ok rest n
read_varint nom n rest h =
    let (small, fits) = size_class-fits n h in
    be_varint-prefixed nom (size_class n) n rest small fits

be_ranges_lem :
    (nom : Nom) (pairs : List (ℕ × ℕ)) (rest : List ℕ)
    → AllSmall (flat pairs)
    → be_ranges nom (length pairs) (bytes_before (flat pairs) rest) ≡ Wire.ok rest pairs
unfolding be_ranges
be_ranges_lem nom [] rest small = refl
be_ranges_lem nom ((gap, ack) ∷ pairs) rest (a, (b, small)) =
    rw (read_varint nom gap (bytes_before (ack ∷ flat pairs) rest) a) (
      rw (read_varint nom ack (bytes_before (flat pairs) rest) b)
        (rw (be_ranges_lem nom pairs rest small)))

-- What `put_varint` of these numbers makes of a buffer.
abbrev appended : List ℕ → List ℕ → List ℕ
appended buf [] = buf
appended buf (n ∷ ns) = appended (buf ++ encoding n) ns

appended-bytes_before : (buf ns : List ℕ) → appended buf ns ≡ buf ++ bytes_before ns []
appended-bytes_before buf [] = sym (append-nil buf)
appended-bytes_before buf (n ∷ ns) =
    appended-bytes_before (buf ++ encoding n) ns
    ∙ append_assoc buf (encoding n) (bytes_before ns [])

appended-append : (buf ms ns : List ℕ) → appended buf (ms ++ ns) ≡ appended (appended buf ms) ns
appended-append buf [] ns = refl
appended-append buf (m ∷ ms) ns = appended-append (buf ++ encoding m) ms ns

bytes_before-append :
    (ms ns rest : List ℕ) → bytes_before (ms ++ ns) rest ≡ bytes_before ms (bytes_before ns rest)
bytes_before-append [] ns rest = refl
bytes_before-append (m ∷ ms) ns rest = ap (λ t. encoding m ++ t) (bytes_before-append ms ns rest)

bytes_before-rest : (ns rest : List ℕ) → bytes_before ns [] ++ rest ≡ bytes_before ns rest
bytes_before-rest [] rest = refl
bytes_before-rest (n ∷ ns) rest =
    append_assoc (encoding n) (bytes_before ns []) rest
    ∙ ap (λ t. encoding n ++ t) (bytes_before-rest ns rest)

put_ranges_lem :
    (w : BufMut) (buf : List ℕ) (pairs : List (ℕ × ℕ))
    → AllSmall (flat pairs)
    → put_ranges w buf pairs ≡ some (appended buf (flat pairs))
unfolding put_ranges
put_ranges_lem w buf [] small = refl
put_ranges_lem w buf ((gap, ack) ∷ pairs) (a, (b, small)) = rw (put_varint-encoding w buf gap a) (
    rw (put_varint-encoding w (buf ++ encoding gap) ack b)
      (put_ranges_lem w ((buf ++ encoding gap) ++ encoding ack) pairs small))

put_ecn_lem :
    (w : BufMut) (buf : List ℕ) (ecn : Option EcnCounts)
    → AllSmall (ecn_numbers ecn)
    → put_ecn w buf ecn ≡ some (appended buf (ecn_numbers ecn))
unfolding put_ecn
put_ecn_lem w buf none small = refl
put_ecn_lem w buf (some e) (a, (b, (c, _))) = rw (put_varint-encoding w buf e.ect0 a) (
    rw (put_varint-encoding w (buf ++ encoding e.ect0) e.ect1 b)
      (put_varint-encoding w ((buf ++ encoding e.ect0) ++ encoding e.ect1) e.ce c))

be_ecn_lem :
    (nom : Nom) (f : AckFrame) (rest : List ℕ)
    → AllSmall (ecn_numbers f.ecn)
    → be_ecn nom (type_byte f) (bytes_before (ecn_numbers f.ecn) rest) ≡ Wire.ok rest f.ecn
unfolding be_ecn be_ecn_counts type_byte
be_ecn_lem nom f rest small = go f.ecn small
  where
    flag : Option EcnCounts → ℕ
    flag ecn = type_byte (record f { ecn = ecn })

    go :
        (ecn : Option EcnCounts)
        → AllSmall (ecn_numbers ecn)
        → be_ecn nom (flag ecn) (bytes_before (ecn_numbers ecn) rest) ≡ Wire.ok rest ecn
    go none small = refl
    go (some e) (a, (b, (c, _))) =
        rw (read_varint nom e.ect0 (bytes_before (e.ect1 ∷ e.ce ∷ []) rest) a) (
          rw (read_varint nom e.ect1 (bytes_before (e.ce ∷ []) rest) b)
            (rw (read_varint nom e.ce rest c)))

-- The numbers behind the type.
abbrev pub head_numbers : AckFrame → List ℕ
head_numbers f = f.largest ∷ f.delay ∷ length f.ranges ∷ f.first_range ∷ []

abbrev pub numbers : AckFrame → List ℕ
numbers f = head_numbers f ++ (flat f.ranges ++ ecn_numbers f.ecn)

abbrev pub IsSmall : AckFrame → Type 0
IsSmall f = AllSmall (head_numbers f) × AllSmall (flat f.ranges) × AllSmall (ecn_numbers f.ecn)

parse_lem :
    (nom : Nom) (f : AckFrame) (rest : List ℕ)
    → IsSmall f
    → ack_frame_with_flag nom (type_byte f) (bytes_before (numbers f) rest) ≡ Wire.ok rest f
unfolding ack_frame_with_flag
parse_lem nom f rest (head, pairs, ecn) =
    let tail = bytes_before (flat f.ranges ++ ecn_numbers f.ecn) rest in
    rw
      (read_varint nom f.largest
        (bytes_before (f.delay ∷ length f.ranges ∷ f.first_range ∷ []) tail) head.0)
      (rw
        (read_varint nom f.delay (bytes_before (length f.ranges ∷ f.first_range ∷ []) tail)
          head.1.0)
        (rw (read_varint nom (length f.ranges) (bytes_before (f.first_range ∷ []) tail) head.1.1.0)
          (rw (read_varint nom f.first_range tail head.1.1.1.0) (
            rw (bytes_before-append (flat f.ranges) (ecn_numbers f.ecn) rest) (
              rw (be_ranges_lem nom f.ranges (bytes_before (ecn_numbers f.ecn) rest) pairs)
                (rw (be_ecn_lem nom f rest ecn)))))))

put_frame-appended :
    (w : BufMut) (buf : List ℕ) (f : AckFrame)
    → IsSmall f
    → put_frame w buf f ≡ some (appended (w.put_u8 buf (type_byte f)) (numbers f))
unfolding put_frame
put_frame-appended w buf f (head, pairs, ecn) =
    let b0 = w.put_u8 buf (type_byte f) in
    let b1 = b0 ++ encoding f.largest in
    let b2 = b1 ++ encoding f.delay in
    let b3 = b2 ++ encoding (length f.ranges) in
    let b4 = b3 ++ encoding f.first_range in
    let n = head.1.1.0 in
    let counted : leb (length f.ranges) varint_max ≡ true = ground (arith, n) in
    rw (put_varint-encoding w b0 f.largest head.0) (
      rw (put_varint-encoding w b1 f.delay head.1.0) (
        rw counted (
          rw (put_varint-encoding w b2 (length f.ranges) n) (
            rw (put_varint-encoding w b3 f.first_range head.1.1.1.0) (
              rw (put_ranges_lem w b4 f.ranges pairs) (
                put_ecn_lem w (appended b4 (flat f.ranges)) f.ecn ecn
                ∙ ap some (sym (appended-append b4 (flat f.ranges) (ecn_numbers f.ecn)))))))))

type_byte-small : (f : AckFrame) → type_byte f < 2 ^ 8
unfolding type_byte
type_byte-small f = go f.ecn
  where
    go : (ecn : Option EcnCounts) → type_byte (record f { ecn = ecn }) < 2 ^ 8
    go none = omega arith
    go (some e) = omega arith

-- The bytes that a frame adds to a buffer.
pub put_frame-bytes_before :
    (w : BufMut) (buf : List ℕ) (f : AckFrame)
    → IsSmall f
    → put_frame w buf f ≡ some (buf ++ (be_bytes 1 (type_byte f) ++ bytes_before (numbers f) []))
put_frame-bytes_before w buf f small =
    let body = bytes_before (numbers f) [] in
    put_frame-appended w buf f small
    ∙ ap some (
        appended-bytes_before (w.put_u8 buf (type_byte f)) (numbers f)
        ∙ ap (λ b. b ++ body) (w.put_u8_lem buf (type_byte f) (type_byte-small f))
        ∙ append_assoc buf (be_bytes 1 (type_byte f)) body)

-- A frame of variable-length integers, with fewer than 2 ^ 62 ranges, is written as its type and
-- then its numbers, behind what is in the buffer; and the parser with the type's flag reads the
-- frame back from these numbers, whatever bytes follow, and leaves those.
pub ack_frame_with_flag-put_frame :
    (w : BufMut) (nom : Nom) (buf rest : List ℕ) (f : AckFrame)
    → IsSmall f
    → (body : List ℕ) × (put_frame w buf f ≡ some (buf ++ (be_bytes 1 (type_byte f) ++ body)))
      × (ack_frame_with_flag nom (type_byte f) (body ++ rest) ≡ Wire.ok rest f)
ack_frame_with_flag-put_frame w nom buf rest f small = (
  bytes_before (numbers f) [],
  put_frame-bytes_before w buf f small,
  ap (ack_frame_with_flag nom (type_byte f)) (bytes_before-rest (numbers f) rest)
      ∙ parse_lem nom f rest small,
)
