-- ===== src/Storage/DeviceLaws.antt =====
-- The global signature counter and the factory state of src/storage/storage.c.
use open_fido.Common.{
  ℕ, zero, suc, ◌+◌, ◌≤◌, ◌≡◌, ◌^◌, true, false, List, [], ◌∷◌, Option, some, arith, refl, ◌%◌,
}
use open_fido.Storage.Base.{ok, State, Platform, pin_max_retries, magic_number}
use open_fido.Storage.Device.{get_and_increment_counter, format}

module _ {W : Type 0} (p : Platform W) where
  -- What a number of calls of `storage_get_and_increment_counter` hand out.
  pub draw : ℕ → State → W → List (Option ℕ)
  draw zero s w = []
  draw (suc n) s w = let ((c, out), s', w') = get_and_increment_counter p s w in out ∷ draw n s' w'

  -- `n` numbers in a row.
  abbrev pub count_up : ℕ → ℕ → List (Option ℕ)
  count_up start zero = []
  count_up start (suc n) = some start ∷ count_up (start + 1) n

  -- As long as the 32 bits last, the calls hand out consecutive numbers, so no number twice; a
  -- failing write to the flash does not change that.
  draw-count_up :
      (n : ℕ) (s : State) (w : W)
      → s.initialized ≡ true
      → s.global_counter + n ≤ 2 ^ 32
      → draw n s w ≡ count_up s.global_counter n
  unfolding draw get_and_increment_counter
  draw-count_up zero s w i h = refl
  draw-count_up (suc zero) s w i h = ground arith
  draw-count_up (suc (suc n)) s w i h =
      let s' = record s { global_counter = (s.global_counter + 1) % 2 ^ 32 } in
      let w' = (p.write_counter ((s.global_counter + 1) % 2 ^ 32) w).1 in
      let next : (s.global_counter + 1) % 2 ^ 32 ≡ s.global_counter + 1 = omega arith in
      ground (arith, i, draw-count_up (suc n) s' w' i (omega arith), next)

  -- A successful format leaves no PIN, all retries, a counter at 0 and a header with the magic
  -- number, in memory.
  pub format-ok :
      (s s' : State) (w w' : W)
      → format p s w ≡ (ok, s', w')
      → (s'.pin_data.pin_set ≡ false)
        × (s'.pin_data.pin_retries ≡ pin_max_retries)
        × (s'.global_counter ≡ 0)
        × (s'.header.magic ≡ magic_number)
  unfolding format
  format-ok s s' w w' e = ground arith
