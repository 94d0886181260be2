-- ===== src/Ctap2/Tests.antt =====
-- Runs of src/fido2/core/ctap2.c on a device in memory, and its theorems at concrete inputs.
use open_fido.Cbor.Head.{header}
use open_fido.Ctap2.Blobs.{Blobs}
use open_fido.Ctap2.Config.{}
use open_fido.Ctap2.Management.{
  run_verified, run_subcommand, deleted, verify_cm_pin_auth, credential_management, Enumeration,
  creds_begin, first_cred_reply, creds_get_next, ManageRequest,
}
use open_fido.Storage.Slots.{
  delete_credential, rewrite_slot, search_from, search_slots, update_sign_count, find_free_slot,
}
use open_fido.Storage.Credentials.{
  by_rp_from, text_of, deserialize_at, deserialize, with_identity, read_string,
  find_credentials_by_rp, find_in, read_names, find_credential, open_slot, write_sealed, store_in,
  store_credential, serialize, Cipher, Credential,
}
use open_fido.Storage.Device.{format, get_and_increment_counter}
use open_fido.Ctap2.{
  reset_formatted, State, Request, Commands, process_request, run_command, reset, ctap2_ok,
}
use open_fido.Ctap2.Pin.{
  set_pin_reply, is_repeated, is_sequential, store_new_pin, handle_change_pin, run_sub_command,
  parse_value, parse_parameters, handle_client_pin, parse_request, Parameters, is_weak_pin,
}
use open_fido.Cbor.Decoder.{
  take_bytes, decode_bytes, decode_uint, decode_type_value, decode_map_start,
}
use open_fido.Common.Memory.{bytes_eq, copy_into, c_string}
use open_fido.Ctap2.Ceremonies.{
  assert_found, check_pin_auth, assert_pressed, find_allowed, assert_signed, assert_accepted,
  find_discovered, make_with_keys, make_signed, make_accepted, make_stored, make_credential,
  get_assertion, PinAuth, MakeRequest, AssertRequest, make_reply, assert_reply, make_auth_data,
  assert_auth_data,
}
use open_fido.Cbor.Encoder.{
  encode_map_start, put_shifted, encode_type_value, encode_bytes, get_size, put_payload,
  encode_uint, encode_string, encode_text, put_byte, encode_int,
}
use open_fido.U2f.{user_presence, Board}
use open_fido.Ctap2.Base.{encode_all, ctap2_ok, Reply}
use open_fido.Common.{
  ℕ, ◌+◌, ◌≡◌, ◌≢◌, true, false, List, [], ◌∷◌, ◌++◌, length, take, replicate, some, none, arith,
  refl, inr, length-take, length-append, length-replicate, Option, negsuc, ℤ,
}
use open_fido.Storage.Base.{ok, State as Storage, PinData, Header, FlashCredential, Platform}
use open_fido.Cbor.Base.{Decoder}
use open_fido.Storage.Pin.{is_pin_set, set_pin}
use open_fido.Ctap2.Pin.Laws.{Accepted, handle_client_pin-Accepted, change_pin-unproved}
use open_fido.Ctap2.Laws.{reset_lem}
use open_fido.Ctap2.Ceremonies.Registration.{Made, make_credential-Made}
use open_fido.Ctap2.Ceremonies.Assertion.{Asserted, get_assertion-Asserted}
use open_fido.Ctap2.Management.Laws.{
  credential_management-guarded, ask_next, next_replies, creds_begin-ask_next,
}

abbrev no_header : Header
no_header = record { magic = 0; version = 0; master_key = [] }

abbrev blank : FlashCredential
blank = record { id = []; encrypted_data = []; iv = []; tag = []; sign_count = 0; valid = false }

-- The world holds the PIN data.
abbrev platform : Platform PinData
platform = record {
  flash_init = λ w. (true, w);
  flash_erase = λ o w. (true, w);
  read_header = λ w. some no_header;
  write_header = λ h w. (true, w);
  read_pin = λ w. some w;
  write_pin = λ d w. (true, d);
  read_counter = λ w. some 0;
  write_counter = λ n w. (true, w);
  read_attestation_key = λ w. some [];
  write_attestation_key = λ k w. (true, w);
  read_credential = λ o w. some blank;
  write_credential = λ o c w. (true, w);
  random_generate = λ n w. (replicate n 4, w);
  generate_private_key = λ w. (replicate 32 7, w);
  sha256 = λ m. take 32 (m ++ replicate 32 0);
}

abbrev board : Board PinData
board = record {
  led_set_state = λ l w. w;
  button_wait_press = λ n w. (true, w);
  generate_keypair = λ w. (some (replicate 32 8, replicate 64 9), w);
  sign = λ key hash w. (some (key ++ hash), w);
}

abbrev commands : Commands PinData
commands = record {
  make_credential = λ request len buffer s w. ((0x2E, none), s, w);
  get_assertion = λ request len buffer s w. ((0x2E, none), s, w);
}

-- Passes over one byte.
abbrev skip_byte : Decoder → Decoder
skip_byte d = record d { offset = d.offset + 1 }

abbrev old_pin : PinData
old_pin = record { pin_hash = replicate 32 9; pin_retries = 3; pin_set = true }

abbrev device : Storage
device = record {
  initialized = true;
  header = no_header;
  pin_data = old_pin;
  global_counter = 41;
  attestation_key = [];
  device_master_key = [];
}

-- PIN protocol 1, subcommand ChangePIN, and a new PIN of four bytes.
abbrev change_request : List ℕ
change_request = 0xA3 ∷ 1 ∷ 1 ∷ 2 ∷ 4 ∷ 5 ∷ 0x44 ∷ 0x31 ∷ 0x35 ∷ 0x32 ∷ 0x34 ∷ []

abbrev new_pin : List ℕ
new_pin = 0x31 ∷ 0x35 ∷ 0x32 ∷ 0x34 ∷ []

abbrev change : Parameters
change = record { sub_command = some 4; new_pin_enc = new_pin }

abbrev fresh : PinData
fresh = record { pin_hash = new_pin ++ replicate 28 0; pin_retries = 8; pin_set = true }

abbrev changed : Storage
changed = record device { pin_data = fresh }

parse_run : parse_request skip_byte 0 change_request 11 ≡ (0, change)
unfolding parse_request decode_map_start decode_type_value parse_parameters decode_uint parse_value
    decode_bytes take_bytes
parse_run = refl

change_run :
    handle_client_pin platform board skip_byte 0 change_request 11 (replicate 16 0) device old_pin
    ≡ some ((0, some []), changed, fresh)
unfolding handle_client_pin parse_request decode_map_start decode_type_value parse_parameters
    decode_uint parse_value decode_bytes take_bytes run_sub_command handle_change_pin is_pin_set
    store_new_pin is_weak_pin is_sequential is_repeated set_pin_reply set_pin
change_run = refl

digest_length : (m : List ℕ) → length (take 32 (m ++ replicate 32 0)) ≡ 32
digest_length m = omega (
  arith,
  length-take 32 (m ++ replicate 32 0),
  length-append m (replicate 32 0),
  length-replicate {A = ℕ} 32 0,
)

abbrev rising_pin : List ℕ
rising_pin = 0x32 ∷ 0x33 ∷ 0x34 ∷ 0x35 ∷ []

handle_client_pin-Accepted_example : Accepted platform new_pin device changed
handle_client_pin-Accepted_example =
    handle_client_pin-Accepted platform board skip_byte 0 11 change_request (replicate 16 0) change
      (some []) device changed old_pin fresh digest_length parse_run (inr refl) change_run

change_pin-unproved_example :
    (s' : Storage) × (w' : PinData) × (handle_client_pin platform board skip_byte 0 change_request
        11
        (replicate 16 0)
        device
        old_pin
      ≡ some ((0, some []), s', w'))
    × (s'.pin_data.pin_hash ≡ take 32 (new_pin ++ replicate 32 0))
unfolding is_pin_set is_weak_pin is_sequential is_repeated
change_pin-unproved_example =
    change_pin-unproved platform board skip_byte 0 11 change_request (replicate 16 0) change device
      old_pin (λ d. refl) refl parse_run refl (omega arith) (omega arith) refl

abbrev cold : State
cold = record { initialized = false; pending_assertions = 6 }

abbrev ready : State
ready = record { initialized = true; pending_assertions = 0 }

-- An assertion that found no credential.
abbrev assertion_request : Request
assertion_request = record { cmd = 2; content = some (0xA0 ∷ []); data_len = 1 }

assertion_run :
    process_request platform board commands skip_byte 0
      (some assertion_request)
      (some (replicate 16 0))
      ready
      device
      old_pin
    ≡ some ((0x2E, none), ready, device, old_pin)
unfolding process_request run_command
assertion_run = refl

abbrev after_reset : Storage
after_reset = record device {
  header = record { magic = 0x4649_4432; version = 1; master_key = replicate 32 4 };
  pin_data = record { pin_hash = replicate 32 0; pin_retries = 8; pin_set = false };
  global_counter = 0;
  attestation_key = replicate 32 7;
}

reset_run :
    reset platform board cold device old_pin
    ≡ ((0, none), record cold { pending_assertions = 0 }, after_reset, after_reset.pin_data)
unfolding reset reset_formatted format
reset_run = refl

reset_lem_example :
    (ctap2_ok ≡ 0
      → ((board.button_wait_press 10000 old_pin).0 ≡ true)
        × (is_pin_set after_reset ≡ false)
        × (after_reset.pin_data.pin_retries ≡ 8)
        × (after_reset.global_counter ≡ 0)
        × (ready.pending_assertions ≡ 0))
    × (ctap2_ok ≢ 0 → record cold { pending_assertions = 0 } ≡ cold)
reset_lem_example =
    reset_lem platform board cold (record cold { pending_assertions = 0 }) 0 none device after_reset
      old_pin after_reset.pin_data reset_run

-- A flash whose every slot holds one credential of the relying party "a", and a cipher that does not
-- seal.
abbrev kept : FlashCredential
kept = record blank { id = replicate 16 4; encrypted_data = 0x61 ∷ replicate 399 0; valid = true }

abbrev stocked : Platform PinData
stocked = record platform { read_credential = λ o w. some kept }

abbrev open_cipher : Cipher
open_cipher = record {
  encrypt = λ key iv aad text. some (text, []);
  decrypt = λ key iv aad text tag. some text;
}

abbrev unread : Credential
unread = record {
  id = [];
  rp_id_hash = [];
  user_id = [];
  private_key = [];
  sign_count = 0;
  resident = false;
  user_name = [];
  display_name = [];
  rp_id = [];
}

abbrev no_pin_auth : PinAuth
no_pin_auth = record { present = false; len = 0; protocol = 0 }

abbrev assert_request : AssertRequest
assert_request = record {
  rp_id = 0x61 ∷ [];
  client_data_hash = replicate 32 5;
  has_rp_id = true;
  has_client_data_hash = true;
  has_allow_list = true;
  allow_list = replicate 16 4 ∷ [];
  uv = false;
  pin_auth = no_pin_auth;
}

abbrev signer : Credential
signer = record unread {
  id = replicate 16 4;
  rp_id_hash = 0x61 ∷ replicate 31 0;
  private_key = replicate 32 0;
}

abbrev assertion : Reply
assertion =
    assert_reply (replicate 200 0) signer (assert_auth_data (0x61 ∷ replicate 31 0) false 41)
      (replicate 32 0 ++ 0x61 ∷ replicate 31 0)

abbrev counted : Storage
counted = record device { global_counter = 42 }

get_assertion_run :
    get_assertion stocked open_cipher board unread [] assert_request
      (replicate 200 0)
      device
      old_pin
    ≡ some ((ctap2_ok, assertion.1), counted, old_pin)
unfolding assert_accepted assert_auth_data assert_found assert_pressed assert_reply assert_signed
    by_rp_from bytes_eq c_string check_pin_auth copy_into deserialize deserialize_at encode_all
    encode_bytes encode_map_start encode_string encode_text encode_type_value encode_uint
    find_allowed find_credential find_credentials_by_rp find_discovered find_in
    get_and_increment_counter get_assertion get_size is_pin_set open_slot put_byte put_payload
    put_shifted read_names read_string rewrite_slot search_from search_slots text_of
    update_sign_count user_presence with_identity
get_assertion_run = refl

get_assertion-Asserted_example :
    Asserted stocked open_cipher board unread [] assert_request
      (replicate 200 0)
      device
      old_pin
      assertion.1
      counted
get_assertion-Asserted_example =
    get_assertion-Asserted stocked open_cipher board unread [] assert_request (replicate 200 0)
      assertion.1 device counted old_pin old_pin get_assertion_run

-- User verification, with a pinAuth.
abbrev make_request : MakeRequest
make_request = record {
  client_data_hash = replicate 32 5;
  rp_id = 0x61 ∷ [];
  user_id = [];
  user_name = [];
  display_name = [];
  algorithm = negsuc 6;
  rk = false;
  uv = true;
  has_client_data_hash = true;
  has_rp = true;
  has_user = true;
  has_pub_key_params = true;
  pin_auth = record { present = true; len = 16; protocol = 1 };
}

abbrev no_ed25519 : PinData → Option (List ℕ × List ℕ) × PinData
no_ed25519 w = (none, w)

abbrev new_key : Credential
new_key = record unread {
  id = replicate 16 4;
  rp_id_hash = 0x61 ∷ replicate 31 0;
  private_key = replicate 32 8;
  sign_count = 41;
}

abbrev attestation : Reply
attestation =
    make_reply (replicate 300 0)
      (make_auth_data (replicate 441 0) true (negsuc 6) new_key (replicate 64 9))
      (0x61 ∷ replicate 31 0)

make_credential_run :
    make_credential platform open_cipher board unread no_ed25519
      (replicate 441 0)
      make_request
      (replicate 300 0)
      device
      old_pin
    ≡ some ((ctap2_ok, attestation.1), counted, old_pin)
unfolding c_string check_pin_auth copy_into encode_all encode_bytes encode_int encode_map_start
    encode_string encode_text encode_type_value encode_uint find_free_slot get_and_increment_counter
    get_size is_pin_set make_accepted make_auth_data make_credential make_reply make_signed
    make_stored make_with_keys put_byte put_payload put_shifted search_from search_slots serialize
    store_credential store_in user_presence write_sealed
make_credential_run = refl

make_credential-Made_example :
    Made platform open_cipher board unread no_ed25519
      (replicate 441 0)
      make_request
      (replicate 300 0)
      device
      old_pin
      attestation.1
      counted
make_credential-Made_example =
    make_credential-Made platform open_cipher board unread no_ed25519 (replicate 441 0) make_request
      (replicate 300 0) attestation.1 device counted old_pin old_pin make_credential_run

-- The management of the two credentials that fit into the array.
abbrev no_key : List ℕ → Option (List ℕ)
no_key k = none

abbrev es256 : Credential → ℤ
es256 c = negsuc 6

abbrev room : List Credential
room = unread ∷ unread ∷ []

abbrev nothing_begun : Enumeration
nothing_begun = record {
  rp_active = false;
  cred_active = false;
  rp_index = 0;
  cred_index = 0;
  rps = [];
  creds = [];
}

found_run :
    find_credentials_by_rp stocked open_cipher device (some (0x61 ∷ replicate 31 0)) room old_pin
    ≡ some (ok, signer ∷ signer ∷ [])
unfolding find_credentials_by_rp by_rp_from text_of open_slot bytes_eq with_identity deserialize
    deserialize_at
found_run = refl

creds_begin-ask_next_example :
    (e1 : Enumeration) × (creds_begin stocked open_cipher no_key es256 unread room
        (replicate 200 0)
        nothing_begun
        old_pin
        (find_credentials_by_rp stocked open_cipher device
          (some (0x61 ∷ replicate 31 0))
          room
          old_pin)
      ≡ some (
        first_cred_reply stocked open_cipher no_key es256 unread room (replicate 200 0) 2 signer,
        e1,
        old_pin,
      ))
    × ((ask_next stocked open_cipher no_key es256 unread room 1 (replicate 200 0) e1).0
        ≡ next_replies stocked open_cipher no_key es256 unread room (replicate 200 0) (signer ∷ []))
    × ((creds_get_next stocked open_cipher no_key es256 unread room
          (replicate 200 0)
          (ask_next stocked open_cipher no_key es256 unread room 1 (replicate 200 0) e1).1).0.0
        ≢ ctap2_ok)
creds_begin-ask_next_example =
    creds_begin-ask_next stocked open_cipher no_key es256 unread room (replicate 200 0)
      (0x61 ∷ replicate 31 0) nothing_begun device old_pin signer (signer ∷ []) found_run

abbrev delete_request : ManageRequest
delete_request = record {
  subcommand = some 6;
  pin_auth = record { present = true; len = 16; protocol = 1 };
  rp_id_hash = none;
  credential_id = some (replicate 16 4);
}

delete_run :
    credential_management stocked open_cipher no_key es256 unread room delete_request []
      nothing_begun device old_pin
    ≡ some ((ctap2_ok, some []), nothing_begun, old_pin)
unfolding credential_management run_verified verify_cm_pin_auth is_pin_set run_subcommand deleted
    delete_credential rewrite_slot search_slots search_from bytes_eq
delete_run = refl

credential_management-guarded_example :
    (delete_request.subcommand ≢ none)
    × (is_pin_set device ≡ true)
    × (delete_request.pin_auth.present ≡ true)
    × (delete_request.pin_auth.protocol ≡ 1)
    × (delete_request.pin_auth.len ≡ 16)
credential_management-guarded_example =
    credential_management-guarded stocked open_cipher no_key es256 unread room delete_request []
      nothing_begun nothing_begun device old_pin old_pin (some []) delete_run

-- A large blob that was never used, and a hash of zeros.
abbrev zeros : List ℕ → List ℕ
zeros m = replicate 32 0

abbrev unused_blobs : Blobs
unused_blobs = record { memory = replicate 2048 0; size = 0; initialized = false }
