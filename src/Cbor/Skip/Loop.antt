-- ===== src/Cbor/Skip/Loop.antt =====
-- An input on which the recursion of `cbor_decoder_skip` has no end.
use open_fido.Common.{
  List, ℕ, ◌≡◌, ◌∷◌, suc, ◌+◌, [], ◌≤◌, ◌++◌, some, arith, ◌<◌, ◌^◌, none, get_or, sym, zero,
  get_or-drop, ◌∙◌, refl, ap, length, length-drop, length-append,
}
use open_fido.Cbor.Skip.{
  skip, ℕ, skip_by_type, suc, pass_over, some, skip_counted, none, skip_items,
}
use open_fido.Cbor.Decoder.{
  decode_type_value, decode_array_start, decode_argument, byte_at, advance,
}
use open_fido.Cbor.Base.{Decoder, IsValid, unread, ok}
use open_fido.Common.Bits.{join_4}

-- An array of two items, whose first item is a string that says it has 2 ^ 32 - 6 bytes.
abbrev pub looping : List ℕ
looping = 0x82 ∷ 0x5A ∷ 0xFF ∷ 0xFF ∷ 0xFF ∷ 0xFA ∷ []

-- The six bytes, one at a time.
record Stands (d : Decoder) : Type 0 where
  head : byte_at d 0 ≡ 0x82
  string : byte_at d 1 ≡ 0x5A
  len_3 : byte_at d 2 ≡ 0xFF
  len_2 : byte_at d 3 ≡ 0xFF
  len_1 : byte_at d 4 ≡ 0xFF
  len_0 : byte_at d 5 ≡ 0xFA
  fits : d.offset + 6 ≤ d.buffer_size
  small : d.buffer_size < 2 ^ 31

stand : (d : Decoder) (rest : List ℕ) → IsValid d → unread d ≡ looping ++ rest → Stands d
stand d rest v e =
    let at : (k : ℕ) → byte_at d k ≡ get_or (looping ++ rest) k 0 =
      λ k. sym (get_or-drop d.offset k d.buffer 0) ∙ ap (λ bytes. get_or bytes k 0) e in
    record {
      head = at 0;
      string = at 1;
      len_3 = at 2;
      len_2 = at 3;
      len_1 = at 4;
      len_0 = at 5;
      fits =
          omega (
            arith,
            ap length e,
            length-drop d.offset d.buffer,
            length-append looping rest,
            v.extent,
          );
      small = v.small;
    }

-- The head of the array.
array_head : (d : Decoder) → Stands d → decode_array_start d ≡ (ok 2, advance d 1)
unfolding decode_array_start decode_type_value decode_argument
array_head d s = ground arith

-- The string leads back to the array.
string_back : (d : Decoder) → Stands d → pass_over (decode_type_value (advance d 1) 2) ≡ (ok tt, d)
unfolding decode_type_value decode_argument
string_back d s = ground (arith, join_4 0xFF 0xFF 0xFF 0xFA)

-- The array's first item, and what comes after it.
skip_string : (d : Decoder) (fuel : ℕ) → Stands d → skip (suc fuel) (advance d 1) ≡ some (ok tt, d)
unfolding skip skip_by_type
skip_string d fuel s = ground (arith, string_back d s)

-- The items of the array never come to an end, on whatever fuel.
loop : (d : Decoder) (fuel : ℕ) → Stands d → skip fuel d ≡ none
unfolding skip skip_by_type skip_counted skip_items
loop d zero s = refl
loop d (suc zero) s = ground (arith, array_head d s)
loop d (suc (suc fuel)) s =
    ground (arith, array_head d s, skip_string d fuel s, loop d (suc fuel) s)

-- Wherever the bytes 82 5A FF FF FF FA stand before a valid decoder, `cbor_decoder_skip` calls
-- itself with no end: the string's length takes the 32-bit offset back to the array that holds it.
-- No fuel is enough.
pub skip-loops :
    (d : Decoder) (rest : List ℕ) (fuel : ℕ)
    → IsValid d
    → unread d ≡ looping ++ rest
    → skip fuel d ≡ none
skip-loops d rest fuel v e = loop d fuel (stand d rest v e)
