-- ===== src/Ble/Hal.antt =====
-- The interface src/hal/hal_ble.h as the files of src/ble use it, with the clock of src/hal/hal.h and
-- `led_set_pattern`.
use open_fido.Common.{ℕ, Bool, List, Option}

abbrev pub handle_invalid : ℕ
handle_invalid = 0xFFFF

-- `hal_ble_adv_params_t`
pub record AdvParams : Type 0 where
  pub interval_min_ms : ℕ
  pub interval_max_ms : ℕ
  pub timeout_s : ℕ
  pub connectable : Bool

pub data SecurityMode : Type 0 where
  open_mode encrypted authenticated : SecurityMode

pub data PairingMethod : Type 0 where
  just_works numeric passkey : PairingMethod

-- `hal_ble_security_config_t`
pub record SecurityConfig : Type 0 where
  pub mode : SecurityMode
  pub pairing : PairingMethod
  pub bonding_enabled : Bool
  pub mitm_protection : Bool

-- The entries of `led_pattern_type_t` that the transport sets.
pub data LedPattern : Type 0 where
  idle ble_advertising ble_connected ble_processing : LedPattern

-- `hal_ble_event_t`: each type of event with the fields that it has. `none` in a write is a NULL
-- pointer. `other` is a read, the completion of a notification, or a value that is no event.
pub data Event : Type 0 where
  connected : ℕ → Event
  disconnected : ℕ → Event
  write : ℕ → ℕ → Option (List ℕ) → Event
  notify_enabled notify_disabled : ℕ → ℕ → Event
  mtu_changed : ℕ → Event
  encryption_changed : ℕ → Bool → Event
  pairing_request pairing_complete pairing_failed : ℕ → Event
  other : Event

-- The calls, over a world `W`. The Boolean says whether the code is HAL_BLE_OK, and `none` that it is
-- not. The questions and the clock leave the world alone.
pub record Hal (W : Type 0) : Type 0 where
  pub is_supported : W → Bool
  pub ble_init : W → Bool × W
  pub deinit : W → W
  pub set_security_config : SecurityConfig → W → Bool × W
  pub start_advertising : Option AdvParams → W → Bool × W
  pub stop_advertising : W → W
  pub set_low_power_advertising : Bool → W → Bool × W
  pub enter_deep_sleep : W → Bool × W
  pub wake_from_sleep : W → Bool × W
  pub disconnect : ℕ → W → Bool × W
  pub get_mtu : ℕ → W → Option ℕ
  pub is_encrypted : ℕ → W → Option Bool
  pub update_connection_params : ℕ → ℕ → ℕ → ℕ → ℕ → W → Bool × W
  pub pairing_confirm : ℕ → Bool → W → W
  pub register_service : ℕ → W → Option ℕ × W
  pub add_characteristic : ℕ → ℕ → ℕ → ℕ → W → Option ℕ × W
  pub set_value : ℕ → List ℕ → W → W
  pub notify : ℕ → ℕ → List ℕ → W → Bool × W
  pub get_timestamp_ms : W → ℕ
  pub led_set_pattern : LedPattern → W → W
