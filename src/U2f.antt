-- ===== src/U2f.antt =====
-- src/fido2/core/u2f.c: `u2f_process_apdu`, over the storage of src/storage/storage.c. The button, the
-- LED and ECDSA come from outside. A request is the bytes that were received; `none` is a read behind
-- its end.
use open_fido.Common.{
  ℕ, Option, none, some, List, [], ◌∷◌, ◌++◌, take, drop, Bool, true, false, if◌then◌else◌, ltb,
  ◌&&◌, ◌==◌, not, get_or, length, ◌+◌, ◌*◌, be_bytes,
}
use open_fido.Common.Memory.{bytes_eq}
use open_fido.Storage.Base.{Platform, State, Code, ok}
use open_fido.Storage.Device.{get_and_increment_counter}
use open_fido.Storage.Slots.{search_slots, update_sign_count}
use open_fido.Storage.Credentials.{Cipher, Credential, store_credential, find_credential}
mod Laws
mod Loss
mod Tests

-- `hal_led_state_t`
pub data Led : Type 0 where
  led_off led_on led_blink_slow led_blink_fast : Led

-- What the handlers take from the hardware and from the crypto library. A key pair is the private
-- and the public key.
pub record Board (W : Type 0) : Type 0 where
  pub led_set_state : Led → W → W
  pub button_wait_press : ℕ → W → Bool × W
  pub generate_keypair : W → Option (List ℕ × List ℕ) × W
  pub sign : List ℕ → List ℕ → W → Option (List ℕ) × W

abbrev pub sw_no_error : ℕ
sw_no_error = 0x9000

abbrev pub sw_wrong_data : ℕ
sw_wrong_data = 0x6A80

abbrev pub sw_conditions_not_satisfied : ℕ
sw_conditions_not_satisfied = 0x6985

abbrev pub sw_command_not_allowed : ℕ
sw_command_not_allowed = 0x6986

abbrev pub sw_ins_not_supported : ℕ
sw_ins_not_supported = 0x6D00

abbrev pub auth_check_only : ℕ
auth_check_only = 0x07

-- "U2F_V2"
abbrev pub version_string : List ℕ
version_string = 0x55 ∷ 0x32 ∷ 0x46 ∷ 0x5F ∷ 0x56 ∷ 0x32 ∷ []

-- Where the data of a request starts, and its length as the request says it.
unfoldable pub data_field : List ℕ → ℕ × ℕ
data_field request =
    if ltb 4 (length request)
    then if (get_or request 4 0 == 0) && ltb 6 (length request)
      then (7, get_or request 5 0 * 256 + get_or request 6 0)
      else (5, get_or request 4 0)
    else (4, 0)

-- A signature of 64 bytes as the code writes it in DER.
abbrev pub der_signature : List ℕ → List ℕ
der_signature signature =
    0x30 ∷ 68 ∷ 0x02 ∷ 32 ∷ (take 32 signature ++ 0x02 ∷ 32 ∷ take 32 (drop 32 signature))

-- The array `cert` and the public key.
abbrev pub certificate : List ℕ → List ℕ
certificate public_key =
    0x30 ∷ 0x59 ∷ 0x30 ∷ 0x13 ∷ 0x06 ∷ 0x07 ∷ 0x2A ∷ 0x86 ∷ 0x48 ∷ 0xCE ∷ 0x3D ∷ 0x02 ∷ 0x01 ∷ 0x06
    ∷ 0x08 ∷ 0x2A ∷ 0x86 ∷ 0x48 ∷ 0xCE ∷ 0x3D ∷ 0x03 ∷ 0x01 ∷ 0x07 ∷ 0x03 ∷ 0x42 ∷ 0x00 ∷ 0x04
    ∷ public_key

-- What a registration signs.
abbrev pub registration_data : List ℕ → List ℕ → List ℕ → List ℕ → List ℕ
registration_data application challenge key_handle public_key =
    0 ∷ (application ++ (challenge ++ (key_handle ++ 4 ∷ public_key)))

-- The presence byte and the counter.
abbrev pub auth_data : ℕ → List ℕ
auth_data counter = 1 ∷ be_bytes 4 counter

-- What an authentication signs.
abbrev pub authentication_data : List ℕ → List ℕ → ℕ → List ℕ
authentication_data application challenge counter = application ++ (auth_data counter ++ challenge)

abbrev pub challenge : List ℕ → List ℕ
challenge body = take 32 body

abbrev pub application : List ℕ → List ℕ
application body = take 32 (drop 32 body)

abbrev pub key_handle : List ℕ → List ℕ
key_handle body = take 16 (drop 65 body)

-- `storage_credential_t credential = {0}`, filled in.
abbrev pub new_credential : List ℕ → List ℕ → List ℕ → ℕ → Credential
new_credential id rp_id_hash private_key sign_count = record {
  id = id;
  rp_id_hash = rp_id_hash;
  user_id = [];
  private_key = private_key;
  sign_count = sign_count;
  resident = false;
  user_name = [];
  display_name = [];
  rp_id = [];
}

-- A counter as it stands in memory; it is not written where the storage is not initialised.
abbrev pub or_zero : Option ℕ → ℕ
or_zero none = 0
or_zero (some n) = n

-- The status word, the response where one is written, the storage and the world.
abbrev pub Answer : Type 0 → Type 0
Answer W = (ℕ × Option (List ℕ)) × State × W

-- `old` is what stands on the stack where the credential is read to.
module _ {W : Type 0} (p : Platform W) (cipher : Cipher) (board : Board W) (old : Credential) where
  -- A handler that stops without a response.
  abbrev pub refuse : ℕ → State → W → Option (Answer W)
  refuse sw s w = some ((sw, none), s, w)

  -- Blinks until the button is pressed, 30 s at most.
  unfoldable pub user_presence : W → Bool × W
  user_presence w =
      let (pressed, w') = board.button_wait_press 30000 (board.led_set_state led_blink_fast w) in
      (pressed, board.led_set_state (if pressed then led_on else led_off) w')

  -- The response to a registration, from the signature.
  unfoldable pub send_registration :
      List ℕ → List ℕ → State → Option (List ℕ) × W → Option (Answer W)
  send_registration id public_key s (none, w) = refuse sw_command_not_allowed s w
  send_registration id public_key s (some sig, w) =
      let response =
        5 ∷ 4 ∷ (public_key ++ 16 ∷ (id ++ (certificate public_key ++ der_signature sig))) in
      some ((sw_no_error, some response), s, board.led_set_state led_off w)

  -- Signs the registration with the attestation key.
  unfoldable pub attest : List ℕ → List ℕ → List ℕ → State → W → Option (Answer W)
  attest body id public_key s w =
      let hash = p.sha256 (registration_data (application body) (challenge body) id public_key) in
      send_registration id public_key s (board.sign s.attestation_key hash w)

  unfoldable pub register_stored :
      List ℕ → List ℕ → List ℕ → State → Option (Code × W) → Option (Answer W)
  register_stored body id public_key s none = none
  register_stored body id public_key s (some (ok, w)) = attest body id public_key s w
  register_stored body id public_key s (some (_, w)) = refuse sw_command_not_allowed s w

  unfoldable pub register_keys : List ℕ → State → Option (List ℕ × List ℕ) × W → Option (Answer W)
  register_keys body s (none, w) = refuse sw_command_not_allowed s w
  register_keys body s (some (private_key, public_key), w) =
      let (id, w1) = p.random_generate 16 w in
      let ((_, count), s', w2) = get_and_increment_counter p s w1 in
      let sign_count = or_zero count in
      let c = new_credential id (application body) private_key sign_count in
      if ltb (length body) 64
      then none
      else register_stored body id public_key s' (store_credential p cipher s' (some c) w2)

  unfoldable pub register : List ℕ → ℕ → State → W → Option (Answer W)
  register body data_len s w =
      if not (data_len == 64)
      then refuse sw_wrong_data s w
      else let (pressed, w') = user_presence w in
        if not pressed
        then refuse sw_conditions_not_satisfied s w'
        else register_keys body s (board.generate_keypair w')

  -- The response to an authentication, from the signature.
  unfoldable pub send_assertion : ℕ → State → Option (List ℕ) × W → Option (Answer W)
  send_assertion counter s (none, w) = refuse sw_command_not_allowed s w
  send_assertion counter s (some sig, w) =
      let response = auth_data counter ++ der_signature sig in
      some ((sw_no_error, some response), s, board.led_set_state led_off w)

  -- The counter and the signature, after the button was pressed.
  unfoldable pub authenticated : List ℕ → Credential → State → W → Option (Answer W)
  authenticated body c s w =
      let ((_, count), s', w1) = get_and_increment_counter p s w in
      let counter = or_zero count in
      let (_, w2) = update_sign_count p s' (some (key_handle body)) counter w1 in
      let hash = p.sha256 (authentication_data (application body) (challenge body) counter) in
      send_assertion counter s' (board.sign c.private_key hash w2)

  unfoldable pub authenticate_found :
      List ℕ → ℕ → State → W → Option (Code × Credential) → Option (Answer W)
  authenticate_found body p1 s w none = none
  authenticate_found body p1 s w (some (ok, c)) =
      if not (bytes_eq c.rp_id_hash (application body))
      then refuse sw_wrong_data s w
      else if p1 == auth_check_only
      then refuse sw_conditions_not_satisfied s w
      else let (pressed, w') = user_presence w in
        if not pressed then refuse sw_conditions_not_satisfied s w' else authenticated body c s w'
  authenticate_found body p1 s w (some (_, _)) = refuse sw_wrong_data s w

  -- The storage compares 16 bytes of the key handle with the id of a valid slot, if there is one.
  unfoldable pub reads_key_handle : State → W → Bool
  reads_key_handle s w =
      s.initialized && elim (search_slots p (λ c. c.valid) w) [ none ↦ false | some x ↦ true ]

  unfoldable pub authenticate : List ℕ → ℕ → ℕ → State → W → Option (Answer W)
  authenticate body data_len p1 s w =
      if ltb data_len 65
      then refuse sw_wrong_data s w
      else if ltb (length body) 65
      then none
      else if ltb data_len (65 + get_or body 64 0)
      then refuse sw_wrong_data s w
      else if ltb (length body) 81 && reads_key_handle s w
      then none
      else authenticate_found body p1 s w
          (find_credential p cipher s (some (key_handle body)) old w)

  unfoldable pub process_apdu : List ℕ → State → W → Option (Answer W)
  process_apdu request s w =
      let ins = get_or request 1 0 in
      let p1 = get_or request 2 0 in
      let (data_offset, data_len) = data_field request in
      let body = drop data_offset request in
      if ltb (length request) 4
      then refuse sw_wrong_data s w
      else if ins == 3
      then if not (data_len == 0)
        then refuse sw_wrong_data s w
        else some ((sw_no_error, some version_string), s, w)
      else if ins == 1
      then register body data_len s w
      else if ins == 2
      then authenticate body data_len p1 s w
      else refuse sw_ins_not_supported s w
