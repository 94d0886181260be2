-- ===== src/U2f/Tests.antt =====
-- Runs of src/fido2/core/u2f.c on a device in memory, and its theorems at concrete inputs.
use open_fido.Common.{
  ℕ, ◌≡◌, ◌≢◌, true, false, List, [], ◌∷◌, ◌++◌, take, replicate, some, none, arith, refl, ◌==◌,
  if◌then◌else◌, Bool-cases, inl, inr, sym, ◌∙◌,
}
use open_fido.Common.Memory.{bytes_eq, bytes_eq→eq}
use open_fido.Storage.Base.{State, PinData, Header, FlashCredential, Platform}
use open_fido.Storage.Slots.{
  find_free_slot, search_slots, search_from, update_sign_count, rewrite_slot,
}
use open_fido.Storage.Device.{get_and_increment_counter}
use open_fido.Storage.Credentials.{
  Cipher, Credential, store_credential, store_in, serialize, write_sealed, find_credential, find_in,
  open_slot, with_identity, deserialize, deserialize_at,
}
use open_fido.Storage.CredentialLaws.{AllSealed, IsAuthentic}
use open_fido.U2f.{
  register, data_field, user_presence, register_keys, register_stored, attest, send_registration,
  authenticate, authenticate_found, authenticated, send_assertion, Board, process_apdu, sw_no_error,
  new_credential,
}
use open_fido.U2f.Laws.{Authenticated, process_apdu-Authenticated}
use open_fido.U2f.Loss.{KeepsFlash, start, serve, served-no_assertion}

-- The slots of a flash in memory, by their offset.
abbrev Flash : Type 0
Flash = ℕ → FlashCredential

abbrev no_header : Header
no_header = record { magic = 0; version = 0; master_key = [] }

abbrev no_pin : PinData
no_pin = record { pin_hash = []; pin_retries = 8; pin_set = false }

abbrev platform : Platform Flash
platform = record {
  flash_init = λ w. (true, w);
  flash_erase = λ o w. (true, w);
  read_header = λ w. some no_header;
  write_header = λ h w. (true, w);
  read_pin = λ w. some no_pin;
  write_pin = λ d w. (true, w);
  read_counter = λ w. some 0;
  write_counter = λ n w. (true, w);
  read_attestation_key = λ w. some [];
  write_attestation_key = λ k w. (true, w);
  read_credential = λ o w. some (w o);
  write_credential = λ o c w. (true, λ o'. if o == o' then c else w o');
  random_generate = λ n w. (replicate n 4, w);
  generate_private_key = λ w. (replicate 32 7, w);
  sha256 = λ m. take 32 m;
}

-- The button is pressed at once. A signature is the key and the hash.
abbrev board : Board Flash
board = record {
  led_set_state = λ l w. w;
  button_wait_press = λ n w. (true, w);
  generate_keypair = λ w. (some (replicate 32 8, replicate 64 9), w);
  sign = λ key hash w. (some (key ++ hash), w);
}

-- The tag of this cipher is its additional data.
abbrev cipher : Cipher
cipher = record {
  encrypt = λ key iv aad text. some (text, aad);
  decrypt = λ key iv aad text tag. if bytes_eq aad tag then some text else none;
}

cipher-IsAuthentic : IsAuthentic cipher
cipher-IsAuthentic = record {
  authentic = λ key iv aad aad' text ciphertext other tag e n.
      let same : aad ≡ tag = cc in
      elim (Bool-cases (bytes_eq aad' tag)) [
        | inl fits ↦ absurd (n (bytes_eq→eq aad' tag fits ∙ sym same))
        | inr fails ↦ ground (arith, fails)
      ];
}

-- This one does not look at the additional data.
abbrev lax_cipher : Cipher
lax_cipher = record {
  encrypt = λ key iv aad text. some (text, aad);
  decrypt = λ key iv aad text tag. some text;
}

keeps : KeepsFlash platform board
keeps = record {
  keeps_slots = record { written = λ i c w h. ground arith; others = λ i j c w n. ground arith };
  random = record { slots = λ n i w. refl };
  refused = λ i c w h. absurd (ground (arith, h));
  counter = λ n j w. refl;
  led = λ l j w. refl;
  button = λ n j w. refl;
  keypair = λ j w. refl;
  signing = λ k h j w. refl;
}

abbrev device : State
device = record {
  initialized = true;
  header = no_header;
  pin_data = no_pin;
  global_counter = 258;
  attestation_key = replicate 32 1;
  device_master_key = [];
}

abbrev blank : FlashCredential
blank = record { id = []; encrypted_data = []; iv = []; tag = []; sign_count = 0; valid = false }

abbrev unused : Credential
unused = new_credential [] [] [] 0

abbrev empty_flash : Flash
empty_flash o = blank

empty_flash-AllSealed : AllSealed platform cipher device empty_flash
empty_flash-AllSealed i f there valid = absurd (ground (arith, there, valid))

-- A challenge of 2s and an application of 3s.
abbrev register_request : List ℕ
register_request = 0 ∷ 1 ∷ 0 ∷ 0 ∷ 64 ∷ (replicate 32 2 ++ replicate 32 3)

abbrev authenticate_request : List ℕ
authenticate_request =
    0 ∷ 2 ∷ 3 ∷ 0 ∷ 81 ∷ (replicate 32 2 ++ (replicate 32 3 ++ 16 ∷ replicate 16 4))

abbrev registered : FlashCredential
registered = record {
  id = replicate 16 4;
  encrypted_data = replicate 32 3 ++ 0 ∷ (replicate 32 8 ++ replicate 335 0);
  iv = replicate 12 4;
  tag = replicate 32 3;
  sign_count = 258;
  valid = true;
}

abbrev flash : Flash
flash o = if 2048 == o then registered else blank

abbrev counted : State
counted = record device { global_counter = 259 }

abbrev registration : List ℕ
registration =
    5
    ∷ 4
    ∷ (replicate 64 9
        ++ 16
          ∷ (replicate 16 4
              ++ 0x30
                ∷ 0x59
                ∷ 0x30
                ∷ 0x13
                ∷ 0x06
                ∷ 0x07
                ∷ 0x2A
                ∷ 0x86
                ∷ 0x48
                ∷ 0xCE
                ∷ 0x3D
                ∷ 0x02
                ∷ 0x01
                ∷ 0x06
                ∷ 0x08
                ∷ 0x2A
                ∷ 0x86
                ∷ 0x48
                ∷ 0xCE
                ∷ 0x3D
                ∷ 0x03
                ∷ 0x01
                ∷ 0x07
                ∷ 0x03
                ∷ 0x42
                ∷ 0x00
                ∷ 0x04
                ∷ (replicate 64 9
                    ++ 0x30 ∷ 68 ∷ 2 ∷ 32 ∷ (replicate 32 1 ++ 2 ∷ 32 ∷ 0 ∷ replicate 31 3))))

register_run :
    process_apdu platform cipher board unused register_request device empty_flash
    ≡ some ((sw_no_error, some registration), counted, flash)
unfolding process_apdu register data_field user_presence register_keys register_stored
    store_credential get_and_increment_counter store_in find_free_slot search_slots search_from
    serialize write_sealed attest send_registration
register_run = refl

abbrev assertion : List ℕ
assertion = 1 ∷ 0 ∷ 0 ∷ 1 ∷ 2 ∷ 0x30 ∷ 68 ∷ 2 ∷ 32 ∷ (replicate 32 8 ++ 2 ∷ 32 ∷ replicate 32 3)

authenticate_run :
    process_apdu platform lax_cipher board unused authenticate_request device flash
    ≡ some ((sw_no_error, some assertion), counted, λ o. if 2048 == o then registered else flash o)
unfolding process_apdu authenticate data_field authenticate_found find_credential find_in
    search_slots search_from bytes_eq open_slot with_identity deserialize deserialize_at
    user_presence authenticated send_assertion get_and_increment_counter update_sign_count
    rewrite_slot
authenticate_run = refl

process_apdu-Authenticated_example :
    Authenticated platform lax_cipher board unused authenticate_request device flash assertion
      counted
process_apdu-Authenticated_example =
    process_apdu-Authenticated platform lax_cipher board unused authenticate_request assertion
      device counted flash _ refl authenticate_run

served-no_assertion_example :
    process_apdu platform cipher board unused authenticate_request counted flash
    ≢ some ((sw_no_error, some assertion), counted, flash)
served-no_assertion_example =
    served-no_assertion platform cipher board unused authenticate_request (some assertion) device
      counted counted empty_flash flash flash keeps cipher-IsAuthentic empty_flash-AllSealed
      (serve register_request (sw_no_error, some registration) device device counted empty_flash
        empty_flash flash (start device empty_flash) register_run)
      refl

short_request_run :
    process_apdu platform cipher board unused (0 ∷ 1 ∷ 0 ∷ 0 ∷ 64 ∷ 5 ∷ []) device empty_flash
    ≡ none
unfolding process_apdu register data_field user_presence register_keys
short_request_run = refl
