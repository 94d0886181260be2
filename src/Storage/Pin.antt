-- ===== src/Storage/Pin.antt =====
-- The PIN of src/storage/storage.c.
use open_fido.Common.{
  ℕ, ◌-◌, Bool, true, not, ◌||◌, ◌&&◌, List, length, Option, none, some, if◌then◌else◌, ◌==◌, ltb,
  ℤ, pos, negsuc,
}
use open_fido.Buffer.{constant_time_compare}
use open_fido.Storage.Base.{Code, ok, error, invalid_param, State, Platform, pin_max_retries}

module _ {W : Type 0} (p : Platform W) where
  -- The write of `pin_data` that ends an operation, where its code is looked at.
  abbrev pub write_back : State → W → Code × State × W
  write_back s w = let (done, w') = p.write_pin s.pin_data w in (if done then ok else error, s, w')

  unfoldable pub set_pin : State → Option (List ℕ) → W → Code × State × W
  set_pin s none w = (invalid_param, s, w)
  set_pin s (some pin) w =
      if not s.initialized
      then (invalid_param, s, w)
      else if ltb (length pin) 4 || ltb 63 (length pin)
      then (invalid_param, s, w)
      else write_back
          (record s {
            pin_data = record {
              pin_hash = p.sha256 pin;
              pin_retries = pin_max_retries;
              pin_set = true;
            };
          })
          w

  abbrev pub with_retries : State → ℕ → State
  with_retries s n = record s {
    pin_data = record {
      pin_hash = s.pin_data.pin_hash;
      pin_retries = n;
      pin_set = s.pin_data.pin_set;
    };
  }

  -- The writes of `storage_verify_pin`, whose code is not looked at.
  abbrev pub saved : Code → State → W → Code × State × W
  saved c s w = (c, s, (p.write_pin s.pin_data w).1)

  -- The decrement runs only at `pin_retries` above 0.
  unfoldable pub verify_pin : State → Option (List ℕ) → W → Code × State × W
  verify_pin s none w = (invalid_param, s, w)
  verify_pin s (some pin) w =
      if not s.initialized
      then (invalid_param, s, w)
      else if not s.pin_data.pin_set
      then (error, s, w)
      else if s.pin_data.pin_retries == 0
      then (error, s, w)
      else if constant_time_compare (p.sha256 pin) s.pin_data.pin_hash 32 == 0
      then saved ok (with_retries s pin_max_retries) w
      else saved error (with_retries s (s.pin_data.pin_retries - 1)) w

  unfoldable pub reset_pin_retries : State → W → Code × State × W
  reset_pin_retries s w =
      if not s.initialized
      then (invalid_param, s, w)
      else write_back (with_retries s pin_max_retries) w

unfoldable pub is_pin_set : State → Bool
is_pin_set s = s.initialized && s.pin_data.pin_set

unfoldable pub get_pin_retries : State → ℤ
get_pin_retries s = if not s.initialized then negsuc 0 else pos s.pin_data.pin_retries

unfoldable pub is_pin_blocked : State → Bool
is_pin_blocked s = s.initialized && (s.pin_data.pin_retries == 0)
