-- ===== src/Storage/Base.antt =====
-- The state of src/storage/storage.c, and what it takes from the platform and the crypto library.
use open_fido.Common.{ℕ, Bool, List, Option}

-- The codes STORAGE_OK and STORAGE_ERROR_*.
pub data Code : Type 0 where
  ok error not_found full invalid_param corrupted : Code

-- `storage_pin_data_t`
pub record PinData : Type 0 where
  pub pin_hash : List ℕ
  pub pin_retries : ℕ
  pub pin_set : Bool

-- `storage_header_t`, without its reserved bytes.
pub record Header : Type 0 where
  pub magic : ℕ
  pub version : ℕ
  pub master_key : List ℕ

-- `storage_flash_credential_t`, without its reserved bytes.
pub record FlashCredential : Type 0 where
  pub id : List ℕ
  pub encrypted_data : List ℕ
  pub iv : List ℕ
  pub tag : List ℕ
  pub sign_count : ℕ
  pub valid : Bool

-- `storage_state`, with `device_master_key`.
pub record State : Type 0 where
  pub initialized : Bool
  pub header : Header
  pub pin_data : PinData
  pub global_counter : ℕ
  pub attestation_key : List ℕ
  pub device_master_key : List ℕ

abbrev pub magic_number : ℕ
magic_number = 0x4649_4432

abbrev pub pin_max_retries : ℕ
pin_max_retries = 8

abbrev pub max_credentials : ℕ
max_credentials = 50

-- The platform: flash, random numbers and cryptography, over a world `W` of their own. A read gives
-- `none` where the code is not HAL_OK, and a write says whether it is. Each region of the flash is
-- read and written as the C struct that the code keeps there; `read_credential` and
-- `write_credential` take the offset.
pub record Platform (W : Type 0) : Type 0 where
  pub flash_init : W → Bool × W
  pub flash_erase : ℕ → W → Bool × W
  pub read_header : W → Option Header
  pub write_header : Header → W → Bool × W
  pub read_pin : W → Option PinData
  pub write_pin : PinData → W → Bool × W
  pub read_counter : W → Option ℕ
  pub write_counter : ℕ → W → Bool × W
  pub read_attestation_key : W → Option (List ℕ)
  pub write_attestation_key : List ℕ → W → Bool × W
  pub read_credential : ℕ → W → Option FlashCredential
  pub write_credential : ℕ → FlashCredential → W → Bool × W
  pub random_generate : ℕ → W → List ℕ × W
  pub generate_private_key : W → List ℕ × W
  pub sha256 : List ℕ → List ℕ
