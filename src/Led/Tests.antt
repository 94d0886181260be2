-- ===== src/Led/Tests.antt =====
-- The pattern for an error of src/utils/led_patterns.c, which blinks three times.
use open_fido.Common.{ℕ, ◌≡◌, false, List, [], ◌∷◌, refl, arith}
use open_fido.Led.{LedState, idle, failure, default_pattern, pattern}
use open_fido.Led.Laws.{update_all, update_all-ends, no_more, later}

abbrev blinking : LedState
blinking = record {
  current_type = failure;
  current_pattern = default_pattern failure;
  custom_pattern = pattern 0 0 0 0;
  last_update_ms = 1000;
  repeat_counter = 0;
  led_on = false;
  lamp = false;
}

abbrev ticks : List ℕ
ticks = 1100 ∷ 1200 ∷ 1300 ∷ 1400 ∷ 1500 ∷ 1600 ∷ []

update_all-ends_example :
    ((update_all ticks blinking).current_type ≡ idle) × ((update_all ticks blinking).lamp ≡ false)
update_all-ends_example =
    update_all-ends 2 100 ticks blinking refl refl (omega arith) (omega arith) (omega arith)
      (later 1000 1100 (1200 ∷ 1300 ∷ 1400 ∷ 1500 ∷ 1600 ∷ []) (omega arith) (
        later 1100 1200 (1300 ∷ 1400 ∷ 1500 ∷ 1600 ∷ []) (omega arith) (
          later 1200 1300 (1400 ∷ 1500 ∷ 1600 ∷ []) (omega arith) (
            later 1300 1400 (1500 ∷ 1600 ∷ []) (omega arith) (
              later 1400 1500 (1600 ∷ []) (omega arith)
                (later 1500 1600 [] (omega arith) (no_more 1600)))))))
      refl
