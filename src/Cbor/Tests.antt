-- ===== src/Cbor/Tests.antt =====
-- Runs of src/fido2/core/cbor.c, and its theorems at concrete inputs.
use open_fido.Common.{◌≡◌, refl, arith, [], ◌∷◌, ◌++◌, replicate, some, negsuc, none}
use open_fido.Cbor.Base.{Encoder, Decoder, ok, IsValid, init, unread}
use open_fido.Cbor.Head.{header, parse_head}
use open_fido.Cbor.Encoder.{encode_type_value, encode_int, encode_bytes, encode_string, put_payload}
use open_fido.Cbor.Encoder.Append.{written, Appends, encode_type_value-Appends}
use open_fido.Cbor.Decoder.{decode_type_value}
use open_fido.Cbor.Decoder.Parse.{view, decode_type_value-parse_head}
use open_fido.Cbor.Skip.{skip}
use open_fido.Cbor.Skip.Items.{
  Item, uint, array, map, text_string, nil, cons, item_bytes, skip-item_bytes, count, IsItem, depth,
}
use open_fido.Cbor.Skip.Loop.{looping, skip-loops}

abbrev fresh : Encoder
fresh = init (replicate 12 0) 12

abbrev text : Decoder
text = init (0x63 ∷ 0x61 ∷ 0x62 ∷ 0x63 ∷ []) 4

abbrev bytes : Decoder
bytes = init (0x43 ∷ 1 ∷ 2 ∷ 3 ∷ []) 4

written_300 : written (encode_type_value fresh 0 300).1 ≡ 0x19 ∷ 0x01 ∷ 0x2c ∷ []
unfolding encode_type_value
written_300 = refl

encode_type_value-Appends_example : Appends fresh (header 0 300) (encode_type_value fresh 0 300)
encode_type_value-Appends_example =
    encode_type_value-Appends fresh 0 300 (omega arith) (omega arith) (omega arith)

decode_type_value-parse_head_example :
    view (decode_type_value bytes 2) ≡ parse_head 2 (unread bytes)
decode_type_value-parse_head_example =
    decode_type_value-parse_head bytes 2 (omega arith) (omega arith)

written_int : (encode_int fresh (negsuc 499)).0 ≡ ok tt
unfolding encode_int encode_type_value
written_int = refl

written_bytes : (encode_bytes fresh (7 ∷ 8 ∷ 9 ∷ [])).0 ≡ ok tt
unfolding encode_bytes encode_string put_payload encode_type_value
written_bytes = refl

-- {1: [5, "ab"]}, followed by a 9.
abbrev tree : Item
tree =
    map
      (cons (uint 1) (cons (array (cons (uint 5) (cons (text_string (0x61 ∷ 0x62 ∷ [])) nil))) nil))

abbrev tree_bytes : Decoder
tree_bytes = init (0xa1 ∷ 0x01 ∷ 0x82 ∷ 0x05 ∷ 0x62 ∷ 0x61 ∷ 0x62 ∷ 9 ∷ []) 8

tree_encoded : unread tree_bytes ≡ item_bytes tree ++ (9 ∷ [])
unfolding item_bytes header count
tree_encoded = refl

skip-item_bytes_example :
    (d' : Decoder) × (skip 3 tree_bytes ≡ some (ok tt, d'))
    × (unread d' ≡ 9 ∷ [])
    × IsValid d'
    × (d'.buffer ≡ tree_bytes.buffer)
unfolding IsItem depth count
skip-item_bytes_example =
    skip-item_bytes tree 3 tree_bytes (9 ∷ []) (omega arith) (omega arith) (omega arith)
      (omega arith) tree_encoded

abbrev looping_decoder : Decoder
looping_decoder = record { buffer = looping ++ (0 ∷ []); buffer_size = 7; offset = 0 }

skip-loops_example : skip 1000 looping_decoder ≡ none
skip-loops_example =
    skip-loops looping_decoder (0 ∷ []) 1000
      (record { inside = omega arith; extent = refl; small = omega arith }) refl
