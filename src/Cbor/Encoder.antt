-- ===== src/Cbor/Encoder.antt =====
-- The encoder of src/fido2/core/cbor.c. Each operation returns its code and the new context.
pub mod Append
use open_fido.Common.{
  ℕ, zero, suc, ◌+◌, ◌-◌, ◌*◌, ◌/◌, ◌%◌, ◌^◌, bit_or, Bool, true, false, List, length, set, ltb,
  leb, if◌then◌else◌, add_size, ℤ, pos, negsuc,
}
use open_fido.Common.Memory.{copy_into}
use open_fido.Cbor.Base.{Result, ok, fail, overflow, Encoder}

abbrev pub Step : Type 0
Step = Result (Unit {0}) × Encoder

-- `encoder->buffer[encoder->offset++] = byte`, which keeps the low eight bits.
unfoldable pub put_byte : Encoder → ℕ → Encoder
put_byte e byte = record e {
  buffer = set e.buffer e.offset (byte % 256);
  offset = add_size e.offset 1;
}

-- `CBOR_MAJOR_TYPE(major) | info`
abbrev pub initial_byte : ℕ → ℕ → ℕ
initial_byte major info = bit_or (major * 2 ^ 5) info

-- `for (int i = 7; i >= 0; i--)`, with `i + 1` in place of `i`.
unfoldable pub put_shifted : Encoder → ℕ → ℕ → Encoder
put_shifted e value zero = e
put_shifted e value (suc i) = put_shifted (put_byte e (value / 2 ^ (i * 8) % 256)) value i

unfoldable pub encode_type_value : Encoder → ℕ → ℕ → Step
unfolding put_byte put_shifted
encode_type_value e major value =
    if leb e.buffer_size e.offset
    then (fail overflow, e)
    else if ltb value 24
    then (ok tt, put_byte e (initial_byte major value))
    else if leb value 0xff
    then if ltb e.buffer_size (add_size e.offset 2)
      then (fail overflow, e)
      else (ok tt, put_byte (put_byte e (initial_byte major 24)) value)
    else if leb value 0xffff
    then if ltb e.buffer_size (add_size e.offset 3) then (fail overflow, e) else (
      ok tt,
      put_byte (put_byte (put_byte e (initial_byte major 25)) (value / 2 ^ 8 % 256)) (value % 256),
    )
    else if leb value 0xffff_ffff
    then if ltb e.buffer_size (add_size e.offset 5) then (fail overflow, e) else (
      ok tt,
      put_byte
          (put_byte
            (put_byte (put_byte (put_byte e (initial_byte major 26)) (value / 2 ^ 24 % 256))
              (value / 2 ^ 16 % 256))
            (value / 2 ^ 8 % 256))
          (value % 256),
    )
    else if ltb e.buffer_size (add_size e.offset 9)
    then (fail overflow, e)
    else (ok tt, put_shifted (put_byte e (initial_byte major 27)) value 8)

unfoldable pub encode_uint : Encoder → ℕ → Step
encode_uint e value = encode_type_value e 0 value

-- `-1 - value` is `n` at a `value` of -(n + 1).
unfoldable pub encode_int : Encoder → ℤ → Step
encode_int e (pos n) = encode_uint e n
encode_int e (negsuc n) = encode_type_value e 1 n

-- The copy of `cbor_encode_bytes` and `cbor_encode_text`, behind the head.
unfoldable pub put_payload : Encoder → List ℕ → Step
put_payload e payload =
    if ltb e.buffer_size (add_size e.offset (length payload)) then (fail overflow, e) else (
      ok tt,
      record e {
        buffer = copy_into e.buffer e.offset payload;
        offset = add_size e.offset (length payload);
      },
    )

-- The head stays written when the payload does not fit.
unfoldable pub encode_string : Encoder → ℕ → List ℕ → Step
encode_string e major payload =
    let (ret, e') = encode_type_value e major (length payload) in
    elim ret [ ok _ ↦ put_payload e' payload | fail c ↦ (fail c, e') ]

unfoldable pub encode_bytes : Encoder → List ℕ → Step
encode_bytes e bytes = encode_string e 2 bytes

unfoldable pub encode_text : Encoder → List ℕ → Step
encode_text e text = encode_string e 3 text

unfoldable pub encode_bool : Encoder → Bool → Step
encode_bool e value =
    if leb e.buffer_size e.offset
    then (fail overflow, e)
    else (ok tt, put_byte e (initial_byte 7 (if value then 21 else 20)))

unfoldable pub encode_null : Encoder → Step
encode_null e =
    if leb e.buffer_size e.offset
    then (fail overflow, e)
    else (ok tt, put_byte e (initial_byte 7 22))

unfoldable pub encode_map_start : Encoder → ℕ → Step
encode_map_start e count = encode_type_value e 5 count

unfoldable pub encode_array_start : Encoder → ℕ → Step
encode_array_start e count = encode_type_value e 4 count

unfoldable pub get_size : Encoder → ℕ
get_size e = e.offset
