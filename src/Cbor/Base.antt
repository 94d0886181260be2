-- ===== src/Cbor/Base.antt =====
-- The return codes, the integers and the two contexts of src/fido2/core/cbor.h.
use open_fido.Common.{ℕ, ◌^◌, ◌≤◌, ◌<◌, ◌≡◌, List, length, drop, ℤ, pos, negsuc}

-- CBOR_ERROR_OVERFLOW and CBOR_ERROR_INVALID; CBOR_ERROR is never returned.
pub data Error : Type 0 where
  overflow invalid : Error

-- A return code with what goes out through the pointer when it is CBOR_OK.
pub data Result {ℓ} (A : Type ℓ) : Type ℓ where
  ok : A → Result A
  fail : Error → Result A

-- The range of `int64_t`.
abbrev pub IsI64 : ℤ → Type 0
IsI64 (pos n) = n < 2 ^ 63
IsI64 (negsuc n) = n < 2 ^ 63

-- `cbor_encoder_t` and `cbor_decoder_t`, which have the same fields. The list is the memory that
-- the pointer `buffer` leads to.
pub record Context : Type 0 where
  pub buffer : List ℕ
  pub buffer_size : ℕ
  pub offset : ℕ

abbrev pub Encoder : Type 0
Encoder = Context

abbrev pub Decoder : Type 0
Decoder = Context

-- `cbor_encoder_init` and `cbor_decoder_init`.
abbrev pub init : List ℕ → ℕ → Context
init buffer size = record { buffer = buffer; buffer_size = size; offset = 0 }

-- The context stands inside its buffer, and no buffer takes up more than half the address space.
pub record IsValid (c : Context) : Type 0 where
  pub inside : c.offset ≤ c.buffer_size
  pub extent : length c.buffer ≡ c.buffer_size
  pub small : c.buffer_size < 2 ^ 31

-- What a decoder has still to read.
abbrev pub unread : Decoder → List ℕ
unread d = drop d.offset d.buffer
