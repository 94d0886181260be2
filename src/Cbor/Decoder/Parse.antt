-- ===== src/Cbor/Decoder/Parse.antt =====
-- The decoder of src/fido2/core/cbor.c against the parser of heads, on any input.
use open_fido.Common.{
  ℕ, zero, suc, ◌+◌, ◌*◌, ◌%◌, ◌^◌, ◌≤◌, ◌<◌, ◌≡◌, refl, arith, List, [], ◌∷◌, length, drop, get_or,
  All, IsByte, All-get_or, drop-get_or, drop_all, length-drop, ltb, if◌then◌else◌,
}
use native.Mathlib.Nat.{pow-suc}
use open_fido.Common.Bits.{shift-bit_or, join_4}
use open_fido.Cbor.Base.{Result, ok, fail, overflow, Decoder, IsValid, unread}
use open_fido.Cbor.Head.{parse_be, parse_argument, parse_head}
use open_fido.Cbor.Decoder.{byte_at, advance, shift_in, decode_argument, decode_type_value}

-- A decoder's outcome as a parser's: the value with the bytes still to read.
abbrev pub view {ℓ} : {A : Type ℓ} → Result A × Decoder → Result (A × List ℕ)
view (ok a, d) = ok (a, unread d)
view (fail c, d) = fail c

-- `n` bytes of a buffer as a number, behind the digits `acc`.
be_value : ℕ → ℕ → List ℕ → ℕ → ℕ
be_value zero acc buffer at = acc
be_value (suc n) acc buffer at = be_value n (acc * 256 + get_or buffer at 0) buffer (at + 1)

parse_be-reads :
    (n acc at : ℕ) (buffer : List ℕ)
    → at + n ≤ length buffer
    → parse_be n acc (drop at buffer) ≡ ok (be_value n acc buffer at, drop (at + n) buffer)
unfolding parse_be be_value
parse_be-reads zero acc at buffer h = ground arith
parse_be-reads (suc n) acc at buffer h = ground (
  arith,
  drop-get_or at buffer 0,
  parse_be-reads n (acc * 256 + get_or buffer at 0) (at + 1) buffer,
)

parse_be-short :
    (n acc : ℕ) (bytes : List ℕ) → length bytes < n → parse_be n acc bytes ≡ fail overflow
unfolding parse_be
parse_be-short zero acc bytes h = absurd (omega arith)
parse_be-short (suc n) acc [] h = refl
parse_be-short (suc n) acc (b ∷ bytes) h = parse_be-short n (acc * 256 + b) bytes (omega arith)

pow_pos : (n : ℕ) → 0 < 256 ^ n
pow_pos zero = omega arith
pow_pos (suc n) = omega (arith, pow-suc 256 n, pow_pos n)

room : (acc x p : ℕ) → x < 256 → (acc + 1) * (p * 256) ≤ 2 ^ 64 → (acc * 256 + x + 1) * p ≤ 2 ^ 64
room acc x p hx h = grind arith

no_wrap : (acc x p : ℕ) → 0 < p → (acc * 256 + x + 1) * p ≤ 2 ^ 64 → acc * 256 < 2 ^ 64
no_wrap acc x zero hp h = absurd (omega arith)
no_wrap acc x (suc p) hp h = grind arith

shift_in-reads :
    (n acc : ℕ) (d : Decoder)
    → All IsByte d.buffer
    → d.offset + n < 2 ^ 32
    → (acc + 1) * 256 ^ n ≤ 2 ^ 64
    → shift_in n acc d ≡ (ok (be_value n acc d.buffer d.offset), record d { offset = d.offset + n })
unfolding shift_in be_value
shift_in-reads zero acc d b h m = ground arith
shift_in-reads (suc n) acc d b h m =
    let x = byte_at d 0 in
    let byte : x < 256 = All-get_or IsByte d.buffer (d.offset + 0) 0 b (omega arith) in
    let fits : (acc * 256 + x + 1) * 256 ^ n ≤ 2 ^ 64 =
      room acc x (256 ^ n) byte (rw pow-suc at m) in
    let low : acc * 256 < 2 ^ 64 = no_wrap acc x (256 ^ n) (pow_pos n) fits in
    ground (
      arith,
      shift-bit_or 8 acc x,
      shift_in-reads n (acc * 256 + x) (record d { offset = d.offset + 1 }) b (omega arith) fits,
    )

module _ (buffer : List ℕ) (at : ℕ) where
  abbrev nth : ℕ → ℕ
  nth k = get_or buffer (at + k) 0

  be_value_1 : be_value 1 0 buffer at ≡ nth 0
  unfolding be_value
  be_value_1 = ground arith

  be_value_2 : be_value 2 0 buffer at ≡ nth 0 * 256 + nth 1
  unfolding be_value
  be_value_2 = ground arith

  be_value_4 : be_value 4 0 buffer at ≡ nth 0 * 2 ^ 24 + nth 1 * 2 ^ 16 + nth 2 * 256 + nth 3
  unfolding be_value
  be_value_4 = ground arith

-- Reading `n` bytes by the parser, whether they are there or not.
parse_be-unread :
    (d : Decoder) (n : ℕ)
    → IsValid d
    → parse_be n 0 (unread d) ≡ (
        if ltb d.buffer_size (d.offset + n)
        then fail overflow
        else ok (be_value n 0 d.buffer d.offset, drop (d.offset + n) d.buffer))
parse_be-unread d n v = ground (
  arith,
  length-drop d.offset d.buffer,
  parse_be-short n 0 (unread d),
  parse_be-reads n 0 d.offset d.buffer,
)

decode_argument-parse_argument :
    (d : Decoder) (info : ℕ)
    → IsValid d
    → All IsByte d.buffer
    → view (decode_argument d info) ≡ parse_argument info (unread d)
unfolding decode_argument parse_argument
decode_argument-parse_argument d info v b =
    let byte = λ (k : ℕ). All-get_or IsByte d.buffer (d.offset + k) 0 b (omega arith) in
    ground (
      arith,
      parse_be-unread d 1 v,
      parse_be-unread d 2 v,
      parse_be-unread d 4 v,
      parse_be-unread d 8 v,
      be_value_1 d.buffer d.offset,
      be_value_2 d.buffer d.offset,
      be_value_4 d.buffer d.offset,
      shift-bit_or 8 (byte_at d 0) (byte_at d 1) (byte 1),
      join_4 (byte_at d 0) (byte_at d 1) (byte_at d 2) (byte_at d 3) (byte 1) (byte 2) (byte 3),
      shift_in-reads 8 0 d b,
    )

-- On any bytes and at any major type, a valid decoder reports what the parser of heads reports on
-- the bytes still to read: the same value with the same bytes behind it, or the same error.
pub decode_type_value-parse_head :
    (d : Decoder) (major : ℕ)
    → IsValid d
    → All IsByte d.buffer
    → view (decode_type_value d major) ≡ parse_head major (unread d)
unfolding decode_type_value parse_head
decode_type_value-parse_head d major v b = ground (
  arith,
  drop_all d.offset d.buffer,
  drop-get_or d.offset d.buffer 0,
  decode_argument-parse_argument (advance d 1) (byte_at d 0 % 32),
)

-- What an operation of the decoder keeps: the memory, and that the offset stays inside it.
pub record Keeps (d d' : Decoder) : Type 0 where
  pub buffer : d'.buffer ≡ d.buffer
  pub size : d'.buffer_size ≡ d.buffer_size
  pub forward : d.offset ≤ d'.offset
  pub inside : d'.offset ≤ d'.buffer_size

decode_argument-Keeps :
    (d : Decoder) (info : ℕ) → IsValid d → All IsByte d.buffer → Keeps d (decode_argument d info).1
unfolding decode_argument
decode_argument-Keeps d info v b = ground (arith, shift_in-reads 8 0 d b)

pub decode_type_value-Keeps :
    (d : Decoder) (major : ℕ)
    → IsValid d
    → All IsByte d.buffer
    → Keeps d (decode_type_value d major).1
unfolding decode_type_value
decode_type_value-Keeps d major v b =
    ground (arith, decode_argument-Keeps (advance d 1) (byte_at d 0 % 32))

pub Keeps-IsValid : {d d' : Decoder} → IsValid d → Keeps d d' → IsValid d'
Keeps-IsValid v k = ground arith
