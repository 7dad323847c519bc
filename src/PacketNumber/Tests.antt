-- ===== src/PacketNumber/Tests.antt =====
-- Concrete runs of qbase/src/packet/number.rs, and the theorems about it at concrete inputs.
use gm_quic.Prelude.{◌≡◌, refl, [], ◌∷◌, ◌++◌, none, some, inl, arith}
use gm_quic.Wire.{vec_buf, list_nom, ok}
use gm_quic.PacketNumber.{
  PacketNumber, u16, put_packet_number, take_pn_len, encode, size, decode, decode_bits,
}
use gm_quic.PacketNumber.Window.{decode-encode, encode-none}

encode_rfc : encode 0xac5c02 0xabe8b3 ≡ some (u16 0x5c02)
unfolding encode
encode_rfc = refl

decode_rfc : decode (u16 0x9b32) 0xa82f30eb ≡ 0xa82f9b32
unfolding decode decode_bits
decode_rfc = refl

decode-encode_example :
    (p : PacketNumber) × (q : PacketNumber) × (encode 0xace8fe 0xabe8b3 ≡ some p)
    × (take_pn_len list_nom (size p) (put_packet_number vec_buf [] p ++ (5 ∷ [])) ≡ ok (5 ∷ []) q)
    × (decode q 0xace8f0 ≡ 0xace8fe)
decode-encode_example =
    decode-encode vec_buf list_nom 0xace8fe 0xabe8b3 0xace8f0 (5 ∷ []) (omega arith) (omega arith)
      (omega arith) (omega arith) (omega arith) (omega arith)

encode-none_example : encode 3 7 ≡ none
encode-none_example = encode-none 3 7 (inl (omega arith))
