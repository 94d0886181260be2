-- ===== src/Storage/Tests.antt =====
-- Runs of src/storage/storage.c on a flash in memory, and its theorems at concrete inputs.
use open_fido.Common.{
  ℕ, ◌≡◌, true, false, List, [], ◌∷◌, ◌++◌, length, take, replicate, some, none, arith, refl, ◌==◌,
  if◌then◌else◌, length-take, length-append, length-replicate, ◌-◌, Bool-cases, inl, ◌∙◌, sym, inr,
}
use open_fido.Common.Memory.{bytes_eq, bytes_eq→eq}
use open_fido.Storage.Base.{
  ok, State, PinData, Header, FlashCredential, Platform, magic_number, corrupted,
}
use open_fido.Storage.Device.{format}
use open_fido.Storage.Pin.{is_pin_blocked}
use open_fido.Storage.PinLaws.{IsReady, Fits, guess, lockout}
use open_fido.Storage.Slots.{
  rewrite_slot, search_from, delete_credential, update_sign_count, search_slots, find_free_slot,
}
use open_fido.Storage.SlotLaws.{KeepsSlots, IsUnique}
use open_fido.Storage.Credentials.{
  store_credential, serialize, deserialize, Credential, Cipher, store_in, find_credential,
  write_sealed, find_credentials_by_rp, get_resident_credential_count,
}
use open_fido.Storage.CredentialLaws.{KeepsRandom, IsAuthentic, AllSealed, store_credential-lost}
use open_fido.Storage.CredentialRoundTrip.{deserialize-serialize}

abbrev no_header : Header
no_header = record { magic = 0; version = 0; master_key = [] }

abbrev factory_pin : PinData
factory_pin = record { pin_hash = replicate 32 0; pin_retries = 8; pin_set = false }

-- The slots of a flash in memory, by their offset.
abbrev Flash : Type 0
Flash = ℕ → FlashCredential

-- The hash of this platform pads its input.
abbrev platform : Platform Flash
platform = record {
  flash_init = λ w. (true, w);
  flash_erase = λ o w. (true, w);
  read_header = λ w. some no_header;
  write_header = λ h w. (true, w);
  read_pin = λ w. some factory_pin;
  write_pin = λ d w. (true, w);
  read_counter = λ w. some 0;
  write_counter = λ n w. (true, w);
  read_attestation_key = λ w. some [];
  write_attestation_key = λ k w. (true, w);
  read_credential = λ o w. some (w o);
  write_credential = λ o c w. (true, λ o'. if o == o' then c else w o');
  random_generate = λ n w. (replicate n 4, w);
  generate_private_key = λ w. (replicate 32 7, w);
  sha256 = λ m. take 32 (m ++ replicate 32 0);
}

platform-KeepsSlots : KeepsSlots platform
platform-KeepsSlots = record {
  written = λ i c w h. ground arith;
  others = λ i j c w n. ground arith;
}

abbrev blank : FlashCredential
blank = record { id = []; encrypted_data = []; iv = []; tag = []; sign_count = 0; valid = false }

abbrev stored : FlashCredential
stored = record {
  id = 5 ∷ 6 ∷ [];
  encrypted_data = [];
  iv = [];
  tag = [];
  sign_count = 3;
  valid = true;
}

-- Slot 1 holds a credential.
abbrev flash : Flash
flash o = if o == 2560 then stored else blank

abbrev device : State
device = record {
  initialized = true;
  header = no_header;
  pin_data = record {
    pin_hash = take 32 ((1 ∷ 2 ∷ 3 ∷ 4 ∷ []) ++ replicate 32 0);
    pin_retries = 2;
    pin_set = true;
  };
  global_counter = 41;
  attestation_key = [];
  device_master_key = [];
}

digest_length : (m : List ℕ) → length (take 32 (m ++ replicate 32 0)) ≡ 32
digest_length m = omega (
  arith,
  length-take 32 (m ++ replicate 32 0),
  length-append m (replicate 32 0),
  length-replicate {A = ℕ} 32 0,
)

device-IsReady : IsReady platform device
device-IsReady = record {
  running = refl;
  is_set = refl;
  stored = refl;
  digest = digest_length;
  bounded = omega arith;
}

abbrev wrong_pin : List ℕ
wrong_pin = 9 ∷ 9 ∷ 9 ∷ 9 ∷ []

wrong_pin_does_not_fit : ¬ Fits platform device wrong_pin
wrong_pin_does_not_fit e = ground arith

lockout_example :
    let (accepted, s') =
      guess platform device (wrong_pin ∷ wrong_pin ∷ (1 ∷ 2 ∷ 3 ∷ 4 ∷ []) ∷ []) flash in
    (accepted ≡ false) × (is_pin_blocked s' ≡ true)
lockout_example =
    lockout platform device (wrong_pin ∷ wrong_pin ∷ []) ((1 ∷ 2 ∷ 3 ∷ 4 ∷ []) ∷ []) flash
      device-IsReady (wrong_pin_does_not_fit, (wrong_pin_does_not_fit, tt)) (omega arith)

abbrev formatted : State
formatted = record device {
  header = record { magic = magic_number; version = 1; master_key = replicate 32 4 };
  pin_data = factory_pin;
  global_counter = 0;
  attestation_key = replicate 32 7;
}

format_run : format platform device flash ≡ (ok, formatted, flash)
unfolding format
format_run = refl

abbrev deleted : Flash
deleted o = if 2560 == o then record stored { valid = false } else flash o

delete_run : delete_credential platform device (some (5 ∷ 6 ∷ [])) flash ≡ (ok, deleted)
unfolding delete_credential rewrite_slot search_slots search_from bytes_eq
delete_run = refl

flash-IsUnique : IsUnique platform (5 ∷ 6 ∷ []) flash
unfolding bytes_eq
flash-IsUnique i j a b = ground arith

abbrev counted : Flash
counted o = if 2560 == o then record stored { sign_count = 77 } else flash o

update_run : update_sign_count platform device (some (5 ∷ 6 ∷ [])) 77 flash ≡ (ok, counted)
unfolding update_sign_count rewrite_slot search_slots search_from bytes_eq
update_run = refl

-- The tag of this cipher is its additional data.
abbrev cipher : Cipher
cipher = record {
  encrypt = λ key iv aad text. some (text, aad);
  decrypt = λ key iv aad text tag. if bytes_eq aad tag then some text else none;
}

cipher-IsAuthentic : IsAuthentic cipher
cipher-IsAuthentic = record {
  authentic = λ key iv aad aad' text ciphertext other tag e n.
      let same : aad ≡ tag = cc in
      elim (Bool-cases (bytes_eq aad' tag)) [
        | inl fits ↦ absurd (n (bytes_eq→eq aad' tag fits ∙ sym same))
        | inr fails ↦ ground (arith, fails)
      ];
}

platform-KeepsRandom : KeepsRandom platform
platform-KeepsRandom = record { slots = λ n i w. refl }

abbrev unused : Credential
unused = record {
  id = [];
  rp_id_hash = [];
  user_id = [];
  private_key = [];
  sign_count = 0;
  resident = false;
  user_name = [];
  display_name = [];
  rp_id = [];
}

abbrev passkey : Credential
passkey = record unused {
  id = replicate 16 5;
  rp_id_hash = replicate 32 6;
  user_id = replicate 64 7;
  private_key = replicate 32 8;
  sign_count = 2;
}

abbrev empty_flash : Flash
empty_flash o = blank

empty_flash-AllSealed : AllSealed platform cipher device empty_flash
empty_flash-AllSealed i f there valid = absurd (ground (arith, there, valid))

abbrev sealed_passkey : FlashCredential
sealed_passkey = record {
  id = replicate 16 5;
  encrypted_data = serialize passkey ++ replicate (400 - length (serialize passkey)) 0;
  iv = replicate 12 4;
  tag = replicate 32 6;
  sign_count = 2;
  valid = true;
}

abbrev with_passkey : Flash
with_passkey o = if 2048 == o then sealed_passkey else blank

store_run :
    store_credential platform cipher device (some passkey) empty_flash ≡ some (ok, with_passkey)
unfolding store_credential store_in write_sealed find_free_slot search_slots search_from serialize
store_run = refl

deserialize-serialize_example :
    deserialize unused (serialize passkey ++ replicate 206 0)
    ≡ some (record unused {
      rp_id_hash = replicate 32 6;
      user_id = replicate 64 7;
      private_key = replicate 32 8;
      resident = false;
    })
deserialize-serialize_example =
    deserialize-serialize unused passkey (replicate 206 0) refl refl refl refl

store_credential-lost_example :
    AllSealed platform cipher device with_passkey
    × (find_credential platform cipher device (some (replicate 16 5)) unused with_passkey
        ≡ some (corrupted, unused))
    × (find_credentials_by_rp platform cipher device
          (some (replicate 32 6))
          (unused ∷ [])
          with_passkey
        ≡ some (ok, []))
    × (get_resident_credential_count platform cipher device with_passkey ≡ (ok, some 0))
store_credential-lost_example =
    store_credential-lost platform cipher device passkey unused (replicate 32 6) (unused ∷ [])
      empty_flash with_passkey platform-KeepsSlots platform-KeepsRandom cipher-IsAuthentic
      (λ e. ground arith) empty_flash-AllSealed store_run
