-- ===== src/Cbor/Decoder.antt =====
-- The decoder of src/fido2/core/cbor.c. Each operation returns its code with the value that goes
-- out, and the new context. A read past the memory of the buffer gives 0; no read of a valid
-- context goes there.
pub mod Parse
pub mod Safety
use open_fido.Common.{
  ℕ, zero, suc, ◌+◌, ◌-◌, ◌*◌, ◌/◌, ◌%◌, ◌^◌, bit_or, Bool, true, false, not, List, take, drop,
  get_or, ltb, leb, ◌==◌, if◌then◌else◌, add_size, size_mod, ℤ, pos, negsuc,
}
use open_fido.Cbor.Base.{Result, ok, fail, overflow, invalid, Decoder}

-- `decoder->buffer[decoder->offset + k]`
abbrev pub byte_at : Decoder → ℕ → ℕ
byte_at d k = get_or d.buffer (d.offset + k) 0

-- `decoder->offset += n`
abbrev pub advance : Decoder → ℕ → Decoder
advance d n = record d { offset = add_size d.offset n }

-- `*value = (*value << 8) | decoder->buffer[decoder->offset++]`, for the rounds left.
unfoldable pub shift_in : ℕ → ℕ → Decoder → Result ℕ × Decoder
shift_in zero value d = (ok value, d)
shift_in (suc rounds) value d =
    shift_in rounds (bit_or (value * 2 ^ 8 % 2 ^ 64) (byte_at d 0)) (advance d 1)

-- The ladder over the additional information, behind the initial byte.
unfoldable pub decode_argument : Decoder → ℕ → Result ℕ × Decoder
decode_argument d additional =
    if ltb additional 24
    then (ok additional, d)
    else if additional == 24
    then if leb d.buffer_size d.offset then (fail overflow, d) else (ok (byte_at d 0), advance d 1)
    else if additional == 25
    then if ltb d.buffer_size (add_size d.offset 2)
      then (fail overflow, d)
      else (ok (bit_or (byte_at d 0 * 2 ^ 8) (byte_at d 1)), advance d 2)
    else if additional == 26
    then if ltb d.buffer_size (add_size d.offset 4) then (fail overflow, d) else (
      ok (
          bit_or
            (bit_or (bit_or (byte_at d 0 * 2 ^ 24) (byte_at d 1 * 2 ^ 16)) (byte_at d 2 * 2 ^ 8))
            (byte_at d 3)),
      advance d 4,
    )
    else if additional == 27
    then if ltb d.buffer_size (add_size d.offset 8) then (fail overflow, d) else shift_in 8 0 d
    else (fail invalid, d)

unfoldable pub decode_type_value : Decoder → ℕ → Result ℕ × Decoder
unfolding decode_argument
decode_type_value d expected_type =
    if leb d.buffer_size d.offset
    then (fail overflow, d)
    else if not (byte_at d 0 / 2 ^ 5 == expected_type)
    then (fail invalid, advance d 1)
    else decode_argument (advance d 1) (byte_at d 0 % 32)

unfoldable pub get_type : Decoder → Result ℕ
get_type d = if leb d.buffer_size d.offset then fail overflow else ok (byte_at d 0 / 2 ^ 5)

unfoldable pub decode_uint : Decoder → Result ℕ × Decoder
decode_uint d = decode_type_value d 0

-- `(int64_t) u` and `-1 - (int64_t) u`, in two's complement.
unfoldable pub to_i64 : ℕ → ℤ
to_i64 u = if ltb u (2 ^ 63) then pos u else negsuc (2 ^ 64 - 1 - u)

unfoldable pub to_negative_i64 : ℕ → ℤ
to_negative_i64 u = if ltb u (2 ^ 63) then negsuc u else pos (2 ^ 64 - 1 - u)

abbrev pub map_result {ℓ κ} :
    {A : Type ℓ} {B : Type κ} → (A → B) → Result A × Decoder → Result B × Decoder
map_result f (ok a, d) = (ok (f a), d)
map_result f (fail c, d) = (fail c, d)

-- The code of `cbor_decoder_get_type` is not read: where it fails, `type` keeps the byte that
-- the stack happened to hold, `stale`.
unfoldable pub decode_int : ℕ → Decoder → Result ℤ × Decoder
decode_int stale d =
    let type : ℕ = elim (get_type d) [ ok t ↦ t | fail _ ↦ stale ] in
    if type == 0
    then map_result to_i64 (decode_uint d)
    else if type == 1
    then map_result to_negative_i64 (decode_type_value d 1)
    else (fail invalid, d)

-- The copy of `cbor_decode_bytes` with `*len` at `room`: `decoder->offset + byte_len` is a
-- `uint64_t`. What goes out is the bytes copied, and their number in `*len`.
unfoldable pub take_bytes : ℕ → ℕ → Decoder → Result (List ℕ) × Decoder
take_bytes room byte_len d =
    if ltb d.buffer_size ((d.offset + byte_len) % 2 ^ 64)
    then (fail overflow, d)
    else if ltb room byte_len
    then (fail overflow, d)
    else (ok (take byte_len (drop d.offset d.buffer)), advance d byte_len)

unfoldable pub decode_bytes : ℕ → Decoder → Result (List ℕ) × Decoder
decode_bytes room d =
    let (ret, d') = decode_type_value d 2 in
    elim ret [ ok byte_len ↦ take_bytes room byte_len d' | fail c ↦ (fail c, d') ]

-- `cbor_decode_text` keeps a byte for the terminator: its bound is `*len - 1`, a `size_t`.
unfoldable pub decode_text : ℕ → Decoder → Result (List ℕ) × Decoder
decode_text room d =
    let (ret, d') = decode_type_value d 3 in
    elim ret [
      | ok text_len ↦ take_bytes ((room + size_mod - 1) % size_mod) text_len d'
      | fail c ↦ (fail c, d')
    ]

unfoldable pub decode_bool : Decoder → Result Bool × Decoder
decode_bool d =
    let byte = byte_at d 0 in
    if leb d.buffer_size d.offset
    then (fail overflow, d)
    else if not (byte / 2 ^ 5 == 7)
    then (fail invalid, advance d 1)
    else if byte % 32 == 21
    then (ok true, advance d 1)
    else if byte % 32 == 20
    then (ok false, advance d 1)
    else (fail invalid, advance d 1)

-- `*count = (size_t) map_count`
unfoldable pub decode_map_start : Decoder → Result ℕ × Decoder
decode_map_start d = map_result (λ n. n % size_mod) (decode_type_value d 5)

unfoldable pub decode_array_start : Decoder → Result ℕ × Decoder
decode_array_start d = map_result (λ n. n % size_mod) (decode_type_value d 4)
