-- ===== src/Cbor/Skip.antt =====
-- `cbor_decoder_skip` of src/fido2/core/cbor.c. Its recursion takes fuel; `none` says that the
-- fuel ran out.
pub mod Items
pub mod Loop
use open_fido.Common.{
  ℕ, zero, suc, ◌+◌, ◌*◌, ◌/◌, ◌%◌, ◌^◌, Option, none, some, Bool, true, false, ◌||◌, ltb, leb,
  ◌==◌, if◌then◌else◌, add_size, size_mod,
}
use open_fido.Cbor.Base.{Result, ok, fail, overflow, invalid, Decoder}
use open_fido.Cbor.Decoder.{
  byte_at, advance, decode_type_value, decode_map_start, decode_array_start,
}

abbrev pub Skipped : Type 0
Skipped = Option (Result (Unit {0}) × Decoder)

-- `for (size_t i = 0; i < count; i++)` over the recursive call, which stops at the first error.
unfoldable pub skip_items : (Decoder → Skipped) → ℕ → Decoder → Skipped
skip_items skip_one zero d = some (ok tt, d)
skip_items skip_one (suc count) d = elim (skip_one d) [
  | none ↦ none
  | some (ok _, d') ↦ skip_items skip_one count d'
  | some (fail c, d') ↦ some (fail c, d')
]

-- The items of an array or a map, behind its count.
unfoldable pub skip_counted : (Decoder → Skipped) → (ℕ → ℕ) → Result ℕ × Decoder → Skipped
skip_counted skip_one scale (ok count, d) = skip_items skip_one (scale count) d
skip_counted skip_one scale (fail c, d) = some (fail c, d)

-- The head of a string, and its bytes passed over with no look at the size of the buffer.
abbrev pub pass_over : Result ℕ × Decoder → Result (Unit {0}) × Decoder
pass_over (ok n, d) = (ok tt, advance d n)
pass_over (fail c, d) = (fail c, d)

abbrev pub code_only : Result ℕ × Decoder → Result (Unit {0}) × Decoder
code_only (ok n, d) = (ok tt, d)
code_only (fail c, d) = (fail c, d)

-- The switch over the major type.
unfoldable pub skip_by_type : (Decoder → Skipped) → ℕ → Decoder → Skipped
skip_by_type skip_one major d =
    if major == 0 || major == 1
    then some (code_only (decode_type_value d major))
    else if major == 2 || major == 3
    then some (pass_over (decode_type_value d major))
    else if major == 4
    then skip_counted skip_one (λ n. n) (decode_array_start d)
    else if major == 5
    then skip_counted skip_one (λ n. n * 2 % size_mod) (decode_map_start d)
    else if major == 7
    then some (ok tt, advance d 1)
    else some (fail invalid, d)

unfoldable pub skip : ℕ → Decoder → Skipped
skip zero d = none
skip (suc fuel) d = elim (leb d.buffer_size d.offset) [
  | true ↦ some (fail overflow, d)
  | false ↦ skip_by_type (skip fuel) (byte_at d 0 / 2 ^ 5) d
]
