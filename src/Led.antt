-- ===== src/Led.antt =====
-- src/utils/led_patterns.c: the pattern that the LED shows, and its steps in time.
mod Laws
mod Tests
use open_fido.Common.{
  ℕ, ◌+◌, ◌-◌, ◌%◌, ◌^◌, Bool, true, false, not, ◌&&◌, Option, some, none, if◌then◌else◌, ltb, leb,
}

-- `led_pattern_type_t`
pub data PatternType : Type 0 where
  idle processing user_presence success failure bootloader ble_advertising ble_connected
        ble_processing custom :
      PatternType

-- `led_pattern_t`
pub record Pattern : Type 0 where
  pub on_ms : ℕ
  pub off_ms : ℕ
  pub repeat_count : ℕ
  pub brightness : ℕ

abbrev pub pattern : ℕ → ℕ → ℕ → ℕ → Pattern
pattern on_ms off_ms repeat_count brightness = record {
  on_ms = on_ms;
  off_ms = off_ms;
  repeat_count = repeat_count;
  brightness = brightness;
}

abbrev pub default_pattern : PatternType → Pattern
default_pattern idle = pattern 0 0 0 0
default_pattern processing = pattern 100 100 0 128
default_pattern user_presence = pattern 50 50 0 255
default_pattern success = pattern 500 0 1 255
default_pattern failure = pattern 100 100 3 255
default_pattern bootloader = pattern 200 800 0 128
default_pattern ble_advertising = pattern 500 1500 0 128
default_pattern ble_connected = pattern 0xFFFF 0 0 255
default_pattern ble_processing = pattern 50 50 0 255
default_pattern custom = pattern 0 0 0 0

-- `led_state`; `lamp` is what `hal_led_set_state` was called with last.
pub record LedState : Type 0 where
  pub current_type : PatternType
  pub current_pattern : Pattern
  pub custom_pattern : Pattern
  pub last_update_ms : ℕ
  pub repeat_counter : ℕ
  pub led_on : Bool
  pub lamp : Bool

abbrev pub is_custom : PatternType → Bool
is_custom custom = true
is_custom _ = false

-- `led_patterns_init`; the custom pattern is not read from anywhere.
unfoldable pub led_init : LedState → LedState
led_init s = record {
  current_type = idle;
  current_pattern = pattern 0 0 0 0;
  custom_pattern = pattern 0 0 0 0;
  last_update_ms = 0;
  repeat_counter = 0;
  led_on = false;
  lamp = s.lamp;
}

-- The custom type is refused before it could be taken. `now` is the time in ms.
unfoldable pub set_pattern : PatternType → ℕ → LedState → LedState
set_pattern t now s = if is_custom t then s else record s {
  current_type = t;
  current_pattern = default_pattern t;
  repeat_counter = 0;
  led_on = false;
  last_update_ms = now;
  lamp = false;
}

unfoldable pub set_custom_pattern : Option Pattern → ℕ → LedState → LedState
set_custom_pattern none now s = s
set_custom_pattern (some p) now s =
    if is_custom s.current_type
    then record s {
      custom_pattern = p;
      current_pattern = p;
      repeat_counter = 0;
      last_update_ms = now;
    }
    else record s { custom_pattern = p }

-- The difference of two `uint32_t`.
abbrev pub elapsed : ℕ → ℕ → ℕ
elapsed now before = (now + 2 ^ 32 - before) % 2 ^ 32

-- `repeat_counter` is a byte.
unfoldable pub update : ℕ → LedState → LedState
update now s =
    let p = s.current_pattern in
    let counter =
      if ltb 0 p.repeat_count then (s.repeat_counter + 1) % 2 ^ 8 else s.repeat_counter in
    if ltb 0 p.repeat_count && leb p.repeat_count s.repeat_counter
    then record s { lamp = false; current_type = idle }
    else if not (leb (if s.led_on then p.on_ms else p.off_ms) (elapsed now s.last_update_ms))
    then s
    else if s.led_on
    then record s { led_on = false; last_update_ms = now; lamp = false }
    else record s { led_on = true; last_update_ms = now; lamp = true; repeat_counter = counter }
