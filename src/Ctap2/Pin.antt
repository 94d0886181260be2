-- ===== src/Ctap2/Pin.antt =====
-- `ctap2_handle_client_pin` of src/fido2/core/ctap2.c. `none` is a write behind the end of an array.
pub mod Laws
use open_fido.Common.{
  ℕ, zero, suc, ◌+◌, ◌*◌, ◌^◌, Bool, true, false, not, ◌||◌, List, [], ◌∷◌, length, take, drop,
  Option, none, some, if◌then◌else◌, ltb, ◌==◌, ℤ, pos, negsuc, ◌-◌,
}
use open_fido.Cbor.Base.{Result, ok, fail, Decoder, init}
use open_fido.Cbor.Decoder.{decode_uint, decode_bytes, decode_map_start}
use open_fido.Cbor.Encoder.{encode_uint, encode_int, encode_bytes, encode_map_start}
use open_fido.Storage.Base.{State, Platform, Code, ok as stored}
use open_fido.Storage.Pin.{set_pin, is_pin_set, get_pin_retries, is_pin_blocked}
use open_fido.U2f.{Board}
use open_fido.Ctap2.Base.{
  cose_key, Reply, encoded, ctap2_ok, err_invalid_cbor, err_missing_parameter, err_processing,
  err_pin_invalid, err_pin_blocked, err_pin_not_set, err_pin_policy_violation,
  err_invalid_subcommand,
}

-- `pin[i] != pin[i - 1] + 1` at no further byte.
unfoldable pub is_sequential : ℕ → List ℕ → Bool
is_sequential last [] = true
is_sequential last (b ∷ bs) = let rest = is_sequential b bs in if b == last + 1 then rest else false

-- `pin[i] != pin[0]` at no further byte.
unfoldable pub is_repeated : ℕ → List ℕ → Bool
is_repeated first [] = true
is_repeated first (b ∷ bs) = let rest = is_repeated first bs in if b == first then rest else false

unfoldable pub is_weak_pin : List ℕ → Bool
is_weak_pin [] = true
is_weak_pin (b ∷ bs) = ltb (length (b ∷ bs)) 4 || (is_sequential b bs || is_repeated b bs)

-- What the parameters leave in the local variables; `new_pin_enc` is empty where it is missing.
pub record Parameters : Type 0 where
  pub sub_command : Option ℕ
  pub new_pin_enc : List ℕ

-- `cbor_skip_value`, which no header declares, comes from outside; its code is not looked at.
module _ (skip_value : Decoder → Decoder) where
  -- What goes on after a parameter, or the error that ends the command.
  abbrev Parsed : Type 0
  Parsed = (ℕ × Parameters) × Decoder

  abbrev take_sub_command : Parameters → Result ℕ × Decoder → Parsed
  take_sub_command q (ok value, d) = ((ctap2_ok, record q { sub_command = some value }), d)
  take_sub_command q (fail c, d) = ((err_invalid_cbor, q), d)

  abbrev take_new_pin : Parameters → Result (List ℕ) × Decoder → Parsed
  take_new_pin q (ok [], d) = ((err_pin_policy_violation, q), d)
  take_new_pin q (ok (b ∷ bs), d) = ((ctap2_ok, record q { new_pin_enc = b ∷ bs }), d)
  take_new_pin q (fail c, d) = ((err_invalid_cbor, q), d)

  -- One parameter, from its key.
  unfoldable pub parse_value : ℕ → Parameters → Decoder → Parsed
  parse_value key q d =
      if key == 2
      then take_sub_command q (decode_uint d)
      else if key == 5
      then take_new_pin q (decode_bytes 64 d)
      else ((ctap2_ok, q), skip_value d)

  -- The loop over the parameters left.
  unfoldable pub parse_parameters : ℕ → Parameters → Decoder → ℕ × Parameters
  parse_parameters zero q d = (ctap2_ok, q)
  parse_parameters (suc left) q d =
      let (ret, d') = decode_uint d in
      elim ret [
        | fail c ↦ (err_invalid_cbor, q)
        | ok key ↦
            let ((code, q'), d'') = parse_value key q d' in
            elim (code == ctap2_ok) [ true ↦ parse_parameters left q' d'' | false ↦ (code, q') ]
      ]

  -- `map_size` is 64 bits wide, and `cbor_decode_map_start` writes its low word. `stale` is what the
  -- stack holds in the high one.
  unfoldable pub parse_request : ℕ → List ℕ → ℕ → ℕ × Parameters
  parse_request stale request_data request_len =
      let q : Parameters = record { sub_command = none; new_pin_enc = [] } in
      let (ret, d) = decode_map_start (init request_data request_len) in
      elim ret [
        | fail c ↦ (err_invalid_cbor, q)
        | ok count ↦ parse_parameters (stale * 2 ^ 32 + count) q d
      ]

-- The reply, with the storage and the world.
abbrev pub Handled : Type 0 → Type 0
Handled W = Reply × State × W

-- The reply to a new PIN, from what the storage says.
unfoldable pub set_pin_reply : Code → Reply
set_pin_reply stored = (ctap2_ok, some [])
set_pin_reply _ = (err_processing, none)

-- `(uint64_t) storage_get_pin_retries()`
abbrev pub as_u64 : ℤ → ℕ
as_u64 (pos n) = n
as_u64 (negsuc n) = 2 ^ 64 - 1 - n

module _ {W : Type 0} (p : Platform W) (board : Board W) where
  abbrev pub get_retries : List ℕ → State → Reply
  get_retries buffer s = encoded buffer (
      (λ e. encode_map_start e 1)
      ∷ (λ e. encode_uint e 3)
      ∷ (λ e. encode_uint e (as_u64 (get_pin_retries s)))
      ∷ [])

  -- The COSE key of a public key.
  unfoldable pub key_agreement : List ℕ → State → Option (List ℕ × List ℕ) × W → Handled W
  key_agreement buffer s (none, w) = ((err_processing, none), s, w)
  key_agreement buffer s (some (private_key, public_key), w) = (
    encoded buffer
        ((λ e. encode_map_start e 1) ∷ (λ e. encode_uint e 1) ∷ cose_key (negsuc 6) public_key),
    s,
    w,
  )

  -- What SetPIN and ChangePIN share: `decrypted_pin` has 63 bytes.
  unfoldable pub store_new_pin : List ℕ → State → W → Option (Handled W)
  store_new_pin new_pin_enc s w =
      let (code, s', w') = set_pin p s (some new_pin_enc) w in
      if length new_pin_enc == 0
      then some ((err_missing_parameter, none), s, w)
      else if ltb 63 (length new_pin_enc)
      then none
      else if ltb (length new_pin_enc) 4 || is_weak_pin new_pin_enc
      then some ((err_pin_policy_violation, none), s, w)
      else some (set_pin_reply code, s', w')

  unfoldable pub handle_set_pin : List ℕ → State → W → Option (Handled W)
  handle_set_pin new_pin_enc s w =
      if is_pin_set s then some ((err_pin_invalid, none), s, w) else store_new_pin new_pin_enc s w

  unfoldable pub handle_change_pin : List ℕ → State → W → Option (Handled W)
  handle_change_pin new_pin_enc s w =
      if not (is_pin_set s)
      then some ((err_pin_not_set, none), s, w)
      else store_new_pin new_pin_enc s w

  unfoldable pub get_pin_token : List ℕ → State → W → Handled W
  get_pin_token buffer s w =
      let (pin_token, w') = p.random_generate 16 w in
      if not (is_pin_set s)
      then ((err_pin_not_set, none), s, w)
      else if is_pin_blocked s
      then ((err_pin_blocked, none), s, w)
      else (
        encoded buffer (
            (λ e. encode_map_start e 1)
            ∷ (λ e. encode_uint e 2)
            ∷ (λ e. encode_bytes e pin_token)
            ∷ []),
        s,
        w',
      )

  unfoldable pub run_sub_command : List ℕ → ℕ → List ℕ → State → W → Option (Handled W)
  run_sub_command buffer sub_command new_pin_enc s w =
      if sub_command == 1
      then some (get_retries buffer s, s, w)
      else if sub_command == 2
      then some (key_agreement buffer s (board.generate_keypair w))
      else if sub_command == 3
      then handle_set_pin new_pin_enc s w
      else if sub_command == 4
      then handle_change_pin new_pin_enc s w
      else if sub_command == 5
      then some (get_pin_token buffer s w)
      else some ((err_invalid_subcommand, none), s, w)

  unfoldable pub handle_client_pin :
      (Decoder → Decoder) → ℕ → List ℕ → ℕ → List ℕ → State → W → Option (Handled W)
  handle_client_pin skip_value stale request_data request_len buffer s w =
      let (code, q) = parse_request skip_value stale request_data request_len in
      if not (code == ctap2_ok) then some ((code, none), s, w) else elim q.sub_command [
        | none ↦ some ((err_missing_parameter, none), s, w)
        | some sub_command ↦ run_sub_command buffer sub_command q.new_pin_enc s w
      ]
