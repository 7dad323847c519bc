-- ===== src/VarInt/Tests.antt =====
-- Concrete runs of qbase/src/varint.rs, and the theorems about it at concrete inputs.
use gm_quic.Prelude.{ℕ, ◌^◌, ◌≡◌, refl, List, [], ◌∷◌, ◌++◌, none, some, length, arith}
use gm_quic.Wire.{vec_buf, list_nom, ok, incomplete}
use gm_quic.VarInt.{one, two, be_varint, be_varint_value, shortage, put_varint, encode_varint}
use gm_quic.VarInt.RoundTrip.{
  be_varint-put_varint, be_varint-encode_varint, encode_varint-none, be_varint_lem, class_of,
}

put_15293 : put_varint vec_buf [] 15293 ≡ some (0x7b ∷ 0xbd ∷ [])
unfolding put_varint
put_15293 = refl

read_short : be_varint list_nom (0xc2 ∷ 0x19 ∷ []) ≡ incomplete 6
unfolding be_varint be_varint_value shortage
read_short = refl

be_varint-put_varint_example :
    (written : List ℕ) × (put_varint vec_buf [] 15293 ≡ some written)
    × (be_varint list_nom (written ++ (7 ∷ [])) ≡ ok (7 ∷ []) 15293)
be_varint-put_varint_example = be_varint-put_varint vec_buf list_nom 15293 (7 ∷ []) (omega arith)

be_varint-encode_varint_example :
    (written : List ℕ) × (encode_varint vec_buf (9 ∷ []) 37 two ≡ some ((9 ∷ []) ++ written))
    × (length written ≡ 2 ^ class_of two)
    × (be_varint list_nom (written ++ (7 ∷ [])) ≡ ok (7 ∷ []) 37)
be_varint-encode_varint_example =
    be_varint-encode_varint vec_buf list_nom (9 ∷ []) (7 ∷ []) 37 two (omega arith)

encode_varint-none_example : encode_varint vec_buf [] 64 one ≡ none
encode_varint-none_example = encode_varint-none vec_buf [] 64 one (omega arith)

be_varint_lem_example : be_varint list_nom (0xc2 ∷ 0x19 ∷ []) ≡ incomplete 6
be_varint_lem_example = be_varint_lem list_nom (0xc2 ∷ 0x19 ∷ []) (omega arith)
