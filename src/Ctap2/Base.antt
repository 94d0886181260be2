-- ===== src/Ctap2/Base.antt =====
-- The status codes of src/fido2/core/ctap2.h, and the responses that src/fido2/core/ctap2.c encodes.
use open_fido.Common.{ℕ, List, [], ◌∷◌, take, Option, some, ℤ, pos, negsuc, drop}
use open_fido.Cbor.Base.{Encoder, init}
use open_fido.Cbor.Encoder.{Step, get_size, encode_map_start, encode_int, encode_bytes}

abbrev pub max_message_size : ℕ
max_message_size = 1024

abbrev pub ctap2_ok : ℕ
ctap2_ok = 0x00

abbrev pub err_invalid_command : ℕ
err_invalid_command = 0x01

abbrev pub err_invalid_parameter : ℕ
err_invalid_parameter = 0x02

abbrev pub err_invalid_cbor : ℕ
err_invalid_cbor = 0x12

abbrev pub err_missing_parameter : ℕ
err_missing_parameter = 0x14

abbrev pub err_processing : ℕ
err_processing = 0x21

abbrev pub err_no_operation_pending : ℕ
err_no_operation_pending = 0x2A

abbrev pub err_unsupported_algorithm : ℕ
err_unsupported_algorithm = 0x26

abbrev pub err_key_store_full : ℕ
err_key_store_full = 0x28

abbrev pub err_no_credentials : ℕ
err_no_credentials = 0x2E

abbrev pub err_pin_auth_invalid : ℕ
err_pin_auth_invalid = 0x33

abbrev pub err_pin_required : ℕ
err_pin_required = 0x36

abbrev pub err_user_action_timeout : ℕ
err_user_action_timeout = 0x2F

abbrev pub err_pin_invalid : ℕ
err_pin_invalid = 0x31

abbrev pub err_pin_blocked : ℕ
err_pin_blocked = 0x32

abbrev pub err_pin_not_set : ℕ
err_pin_not_set = 0x35

abbrev pub err_pin_policy_violation : ℕ
err_pin_policy_violation = 0x37

abbrev pub err_request_too_large : ℕ
err_request_too_large = 0x39

abbrev pub err_invalid_subcommand : ℕ
err_invalid_subcommand = 0x3E

-- A status code, with the bytes of the response where `*response_len` is set.
abbrev pub Reply : Type 0
Reply = ℕ × Option (List ℕ)

-- The calls of the encoder one after another; their codes are not looked at.
unfoldable pub encode_all : List (Encoder → Step) → Encoder → Encoder
encode_all [] e = e
encode_all (call ∷ calls) e = encode_all calls (call e).1

-- The response that these calls write to the buffer.
abbrev pub encoded : List ℕ → List (Encoder → Step) → Reply
encoded buffer calls =
    let e = encode_all calls (init buffer max_message_size) in
    (ctap2_ok, some (take (get_size e) e.buffer))

-- A call of the encoder.
abbrev pub Call : Type 0
Call = Encoder → Step

-- The COSE key of a P-256 public key.
abbrev pub cose_key : ℤ → List ℕ → List Call
cose_key algorithm public_key =
    (λ e. encode_map_start e 5)
    ∷ (λ e. encode_int e (pos 1))
    ∷ (λ e. encode_int e (pos 2))
    ∷ (λ e. encode_int e (pos 3))
    ∷ (λ e. encode_int e algorithm)
    ∷ (λ e. encode_int e (negsuc 0))
    ∷ (λ e. encode_int e (pos 1))
    ∷ (λ e. encode_int e (negsuc 1))
    ∷ (λ e. encode_bytes e (take 32 public_key))
    ∷ (λ e. encode_int e (negsuc 2))
    ∷ (λ e. encode_bytes e (take 32 (drop 32 public_key)))
    ∷ []
