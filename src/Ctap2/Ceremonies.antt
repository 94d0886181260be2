-- ===== src/Ctap2/Ceremonies.antt =====
-- `ctap2_make_credential` and `ctap2_get_assertion` of src/fido2/commands/ctap2_commands.c, behind the
-- loops that read their parameters. Those loops hand numbers to `cbor_decode_bytes` and
-- `cbor_decode_text` where src/fido2/core/cbor.h takes pointers, so what they leave in the local
-- variables is taken as it comes. `none` is an access behind the end of an array.
mod PinLaws
pub mod Assertion
pub mod Registration
use open_fido.Common.{
  ℕ, ◌+◌, Bool, true, false, not, ◌||◌, ◌&&◌, List, [], ◌∷◌, ◌++◌, take, drop, length, replicate,
  Option, none, some, if◌then◌else◌, ◌==◌, ℤ, pos, negsuc, be_bytes, ◌-◌,
}
use open_fido.Common.Memory.{bytes_eq, c_string}
use open_fido.Cbor.Base.{init}
use open_fido.Cbor.Encoder.{
  encode_uint, encode_int, encode_bytes, encode_text, encode_map_start, get_size,
}
use open_fido.Storage.Base.{State, Platform, Code, ok}
use open_fido.Storage.Device.{get_and_increment_counter}
use open_fido.Storage.Pin.{is_pin_set}
use open_fido.Storage.Slots.{update_sign_count}
use open_fido.Storage.Credentials.{
  Cipher, Credential, store_credential, find_credential, find_credentials_by_rp,
}
use open_fido.U2f.{Board, Led, led_off, user_presence, or_zero}
use open_fido.Ctap2.Base.{
  Call, cose_key, Reply, encode_all, encoded, ctap2_ok, err_missing_parameter, err_processing,
  err_user_action_timeout, err_pin_not_set, err_pin_required, err_pin_auth_invalid,
  err_unsupported_algorithm, err_key_store_full, err_no_credentials,
}
use open_fido.Ctap2.Pin.{Handled}

-- What a command knows of the `pinAuth` of its request.
pub record PinAuth : Type 0 where
  pub present : Bool
  pub len : ℕ
  pub protocol : ℕ

-- The local variables of `ctap2_make_credential`. The strings are their characters up to the NUL,
-- and `user_id` is its first `user_id_len` bytes.
pub record MakeRequest : Type 0 where
  pub client_data_hash : List ℕ
  pub rp_id : List ℕ
  pub user_id : List ℕ
  pub user_name : List ℕ
  pub display_name : List ℕ
  pub algorithm : ℤ
  pub rk : Bool
  pub uv : Bool
  pub has_client_data_hash : Bool
  pub has_rp : Bool
  pub has_user : Bool
  pub has_pub_key_params : Bool
  pub pin_auth : PinAuth

-- The local variables of `ctap2_get_assertion`; `allow_list` has `allow_list_count` ids.
pub record AssertRequest : Type 0 where
  pub rp_id : List ℕ
  pub client_data_hash : List ℕ
  pub has_rp_id : Bool
  pub has_client_data_hash : Bool
  pub has_allow_list : Bool
  pub allow_list : List (List ℕ)
  pub uv : Bool
  pub pin_auth : PinAuth

-- The end of the checks on the PIN: an error, or whether it counts as verified.
pub data PinCheck : Type 0 where
  refused : ℕ → PinCheck
  accepted : Bool → PinCheck

-- The bytes of `pinAuth` are not looked at.
unfoldable pub check_pin_auth : Bool → Bool → PinAuth → PinCheck
check_pin_auth pin_required pin_set a =
    if pin_required
    then if not pin_set
      then refused err_pin_not_set
      else if not a.present
      then refused err_pin_required
      else if not (a.protocol == 1)
      then refused err_pin_auth_invalid
      else if a.present && (a.len == 16)
      then accepted true
      else refused err_pin_auth_invalid
    else if a.present
    then if not (a.protocol == 1) then refused err_pin_auth_invalid else accepted (a.len == 16)
    else accepted false

-- Two values of an `int`.
abbrev pub is_alg : ℕ → ℤ → Bool
is_alg k (pos n) = false
is_alg k (negsuc n) = n == k

-- -7 and -8.
abbrev pub is_es256 : ℤ → Bool
is_es256 alg = is_alg 6 alg

abbrev pub is_eddsa : ℤ → Bool
is_eddsa alg = is_alg 7 alg

-- The flags UP and AT, or UP alone, with UV where the PIN counts as verified.
abbrev pub make_flags : Bool → ℕ
make_flags verified = if verified then 0x45 else 0x41

abbrev pub assert_flags : Bool → ℕ
assert_flags verified = if verified then 0x05 else 0x01

-- The bytes that these calls write to memory of a size.
abbrev pub written_to : List ℕ → ℕ → List Call → List ℕ
written_to memory size calls =
    let e = encode_all calls (init memory size) in take (get_size e) e.buffer

-- The attested credential data up to the key.
abbrev pub attested : List ℕ → List ℕ
attested id = replicate 16 0 ++ 0 ∷ 16 ∷ id

-- The authenticator data of a new credential; `stack` is the memory of `auth_data` behind the id.
unfoldable pub make_auth_data : List ℕ → Bool → ℤ → Credential → List ℕ → List ℕ
make_auth_data stack verified algorithm c public_key =
    let key =
      written_to stack (512 - 71)
        (if is_es256 algorithm then cose_key (negsuc 6) public_key else []) in
    c.rp_id_hash ++ make_flags verified ∷ (be_bytes 4 c.sign_count ++ (attested c.id ++ key))

unfoldable pub assert_auth_data : List ℕ → Bool → ℕ → List ℕ
assert_auth_data rp_id_hash verified counter =
    rp_id_hash ++ assert_flags verified ∷ be_bytes 4 counter

-- "fmt" is "packed"; the strings of the statement are "alg" and "sig".
unfoldable pub make_reply : List ℕ → List ℕ → List ℕ → Reply
make_reply buffer auth_data signature = encoded buffer (
    (λ e. encode_map_start e 3)
    ∷ (λ e. encode_uint e 1)
    ∷ (λ e. encode_text e (0x70 ∷ 0x61 ∷ 0x63 ∷ 0x6B ∷ 0x65 ∷ 0x64 ∷ []))
    ∷ (λ e. encode_uint e 2)
    ∷ (λ e. encode_bytes e auth_data)
    ∷ (λ e. encode_uint e 3)
    ∷ (λ e. encode_map_start e 2)
    ∷ (λ e. encode_text e (0x61 ∷ 0x6C ∷ 0x67 ∷ []))
    ∷ (λ e. encode_int e (negsuc 6))
    ∷ (λ e. encode_text e (0x73 ∷ 0x69 ∷ 0x67 ∷ []))
    ∷ (λ e. encode_bytes e signature)
    ∷ [])

-- "type", "public-key" and "id".
abbrev pub credential_calls : Credential → List Call
credential_calls c =
    (λ e. encode_map_start e 2)
    ∷ (λ e. encode_text e (0x74 ∷ 0x79 ∷ 0x70 ∷ 0x65 ∷ []))
    ∷ (λ e.
        encode_text e (0x70 ∷ 0x75 ∷ 0x62 ∷ 0x6C ∷ 0x69 ∷ 0x63 ∷ 0x2D ∷ 0x6B ∷ 0x65 ∷ 0x79 ∷ []))
    ∷ (λ e. encode_text e (0x69 ∷ 0x64 ∷ []))
    ∷ (λ e. encode_bytes e c.id)
    ∷ []

-- "id", "name" and "displayName".
abbrev pub user_calls : Credential → List Call
user_calls c =
    (λ e. encode_map_start e 3)
    ∷ (λ e. encode_text e (0x69 ∷ 0x64 ∷ []))
    ∷ (λ e. encode_bytes e c.user_id)
    ∷ (λ e. encode_text e (0x6E ∷ 0x61 ∷ 0x6D ∷ 0x65 ∷ []))
    ∷ (λ e. encode_text e (c_string c.user_name))
    ∷ (λ e.
        encode_text e
          (0x64 ∷ 0x69 ∷ 0x73 ∷ 0x70 ∷ 0x6C ∷ 0x61 ∷ 0x79 ∷ 0x4E ∷ 0x61 ∷ 0x6D ∷ 0x65 ∷ []))
    ∷ (λ e. encode_text e (c_string c.display_name))
    ∷ []

unfoldable pub assert_reply : List ℕ → Credential → List ℕ → List ℕ → Reply
assert_reply buffer c auth_data signature = encoded buffer (
    (λ e. encode_map_start e (if c.resident then 4 else 3))
    ∷ (λ e. encode_uint e 1)
    ∷ (credential_calls c
        ++ (λ e. encode_uint e 2)
          ∷ (λ e. encode_bytes e auth_data)
          ∷ (λ e. encode_uint e 3)
          ∷ (λ e. encode_bytes e signature)
          ∷ (if c.resident then (λ e. encode_uint e 4) ∷ user_calls c else [])))

abbrev pub refuse : {W : Type 0} → ℕ → State → W → Option (Handled W)
refuse code s w = some ((code, none), s, w)

abbrev pub has_allowed : AssertRequest → Bool
has_allowed r = r.has_allow_list && not (length r.allow_list == 0)

-- The search for the credential of an assertion.
module _ {W : Type 0} (p : Platform W) (cipher : Cipher) where
  -- The first credential of the allow list that the storage has for the RP. A credential that is of
  -- another RP stays in the structure that the next one is read to.
  unfoldable pub find_allowed :
      List (List ℕ) → List ℕ → Credential → State → W → Option (Option Credential)
  find_allowed [] rp_id_hash c s w = some none
  find_allowed (id ∷ ids) rp_id_hash c s w = elim (find_credential p cipher s (some id) c w) [
    | none ↦ none
    | some (ok, c') ↦ elim (bytes_eq c'.rp_id_hash rp_id_hash) [
      | true ↦ some (some c')
      | false ↦ find_allowed ids rp_id_hash c' s w
    ]
    | some (_, c') ↦ find_allowed ids rp_id_hash c' s w
  ]

  -- The first credential of the RP, read to the array `olds`.
  unfoldable pub find_discovered : List Credential → List ℕ → State → W → Option (Option Credential)
  find_discovered olds rp_id_hash s w =
      elim (find_credentials_by_rp p cipher s (some rp_id_hash) olds w) [
        | none ↦ none
        | some (ok, c ∷ cs) ↦ some (some c)
        | some (_, _) ↦ some none
      ]

-- `crypto_ed25519_generate_keypair` comes from outside, beside the board. `old` is what stands on the
-- stack where a credential is read to, and `stack` the memory of `auth_data` behind the id.
module _ {W : Type 0} (p : Platform W) (cipher : Cipher) (board : Board W) (old : Credential)
    (ed25519 : W → Option (List ℕ × List ℕ) × W) (stack : List ℕ) where
  -- The reply to a new credential, from the signature.
  unfoldable pub make_signed : List ℕ → List ℕ → State → Option (List ℕ) × W → Option (Handled W)
  make_signed buffer auth_data s (none, w) = refuse err_processing s w
  make_signed buffer auth_data s (some signature, w) =
      some (make_reply buffer auth_data signature, s, board.led_set_state led_off w)

  unfoldable pub make_stored :
      MakeRequest
      → Bool
      → Credential
      → List ℕ
      → List ℕ
      → State
      → Option (Code × W)
      → Option (Handled W)
  make_stored r verified c public_key buffer s none = none
  make_stored r verified c public_key buffer s (some (ok, w)) =
      let auth_data = make_auth_data stack verified r.algorithm c public_key in
      make_signed buffer auth_data s
        (board.sign s.attestation_key (p.sha256 (auth_data ++ r.client_data_hash)) w)
  make_stored r verified c public_key buffer s (some (_, w)) = refuse err_key_store_full s w

  -- `storage_credential_t credential = {0}`, filled in.
  abbrev pub made : MakeRequest → List ℕ → List ℕ → ℕ → Credential
  made r id private_key sign_count = record {
    id = id;
    rp_id_hash = p.sha256 r.rp_id;
    user_id = r.user_id;
    private_key = private_key;
    sign_count = sign_count;
    resident = r.rk;
    user_name = if r.rk then take 63 r.user_name else [];
    display_name = if r.rk then take 63 r.display_name else [];
    rp_id = if r.rk then take 255 r.rp_id else [];
  }

  -- `failure` is the error for a key that cannot be made.
  unfoldable pub make_with_keys :
      MakeRequest → Bool → ℕ → List ℕ → State → Option (List ℕ × List ℕ) × W → Option (Handled W)
  make_with_keys r verified failure buffer s (none, w) = refuse failure s w
  make_with_keys r verified failure buffer s (some (private_key, public_key), w) =
      let (id, w1) = p.random_generate 16 w in
      let ((_, count), s', w2) = get_and_increment_counter p s w1 in
      let c = made r id private_key (or_zero count) in
      make_stored r verified c public_key buffer s' (store_credential p cipher s' (some c) w2)

  unfoldable pub make_accepted : MakeRequest → Bool → List ℕ → State → W → Option (Handled W)
  make_accepted r verified buffer s w =
      let (pressed, w') = user_presence p cipher board old w in
      if not pressed
      then refuse err_user_action_timeout s w'
      else if is_es256 r.algorithm
      then make_with_keys r verified err_processing buffer s (board.generate_keypair w')
      else if is_eddsa r.algorithm
      then make_with_keys r verified err_unsupported_algorithm buffer s (ed25519 w')
      else refuse err_unsupported_algorithm s w'

  unfoldable pub make_credential : MakeRequest → List ℕ → State → W → Option (Handled W)
  make_credential r buffer s w =
      if not r.has_client_data_hash
        || (not r.has_rp || (not r.has_user || not r.has_pub_key_params))
      then refuse err_missing_parameter s w
      else elim (check_pin_auth (r.rk || r.uv) (is_pin_set s) r.pin_auth) [
        | refused code ↦ refuse code s w
        | accepted verified ↦ make_accepted r verified buffer s w
      ]

-- `old` and `olds` are what stands on the stack where a credential, and those of an RP, are read to.
module _ {W : Type 0} (p : Platform W) (cipher : Cipher) (board : Board W) (old : Credential)
    (olds : List Credential) where
  unfoldable pub assert_signed :
      Credential → List ℕ → List ℕ → State → Option (List ℕ) × W → Option (Handled W)
  assert_signed c auth_data buffer s (none, w) = refuse err_processing s w
  assert_signed c auth_data buffer s (some signature, w) =
      some (assert_reply buffer c auth_data signature, s, board.led_set_state led_off w)

  -- The counter and the signature, after the button was pressed.
  unfoldable pub assert_pressed :
      AssertRequest → Bool → Credential → List ℕ → State → W → Option (Handled W)
  assert_pressed r verified c buffer s w =
      let ((_, count), s', w1) = get_and_increment_counter p s w in
      let (_, w2) = update_sign_count p s' (some c.id) (or_zero count) w1 in
      let auth_data = assert_auth_data (p.sha256 r.rp_id) verified (or_zero count) in
      assert_signed c auth_data buffer s'
        (board.sign c.private_key (p.sha256 (auth_data ++ r.client_data_hash)) w2)

  unfoldable pub assert_accepted :
      AssertRequest → Bool → Credential → List ℕ → State → W → Option (Handled W)
  assert_accepted r verified c buffer s w =
      let (pressed, w') = user_presence p cipher board old w in
      if not pressed
      then refuse err_user_action_timeout s w'
      else assert_pressed r verified c buffer s w'

  unfoldable pub assert_found :
      AssertRequest → List ℕ → State → W → Option (Option Credential) → Option (Handled W)
  assert_found r buffer s w none = none
  assert_found r buffer s w (some none) = refuse err_no_credentials s w
  assert_found r buffer s w (some (some c)) =
      elim (check_pin_auth (not (has_allowed r) || r.uv) (is_pin_set s) r.pin_auth) [
        | refused code ↦ refuse code s w
        | accepted verified ↦ assert_accepted r verified c buffer s w
      ]

  unfoldable pub get_assertion : AssertRequest → List ℕ → State → W → Option (Handled W)
  get_assertion r buffer s w =
      let rp_id_hash = p.sha256 r.rp_id in
      if not r.has_rp_id || not r.has_client_data_hash
      then refuse err_missing_parameter s w
      else if has_allowed r
      then assert_found r buffer s w (find_allowed p cipher r.allow_list rp_id_hash old s w)
      else assert_found r buffer s w (find_discovered p cipher olds rp_id_hash s w)
