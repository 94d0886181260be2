-- ===== src/Storage/Device.antt =====
-- `storage_init`, `storage_format`, the global counter and the attestation key of
-- src/storage/storage.c.
use open_fido.Common.{
  ℕ, zero, suc, ◌+◌, ◌%◌, ◌^◌, Bool, true, false, not, List, Option, none, some, if◌then◌else◌,
  ◌==◌, replicate,
}
use open_fido.Storage.Base.{
  Code, ok, error, invalid_param, State, Header, PinData, Platform, magic_number, pin_max_retries,
}

module _ {W : Type 0} (p : Platform W) where
  -- The rest of a chain of writes, which ends at the first that fails.
  abbrev pub and_then : Bool × W → State → (W → Code × State × W) → Code × State × W
  and_then (true, w) s rest = rest w
  and_then (false, w) s rest = (error, s, w)

  -- `for (offset = 0; offset < 64 * 1024; offset += 4096)`, with the rounds left.
  unfoldable pub erase_from : ℕ → ℕ → W → Bool × W
  erase_from offset zero w = (true, w)
  erase_from offset (suc rounds) w =
      let (done, w') = p.flash_erase offset w in
      elim done [ true ↦ erase_from (offset + 4096) rounds w' | false ↦ (false, w') ]

  -- What `storage_format` leaves in memory, from the new key and the device's old header key.
  abbrev pub fresh_pin : PinData
  fresh_pin = record { pin_hash = replicate 32 0; pin_retries = pin_max_retries; pin_set = false }

  unfoldable pub format_key : State → W → Code × State × W
  format_key s w =
      let (key, w') = p.generate_private_key w in
      let s' = record s { attestation_key = key } in
      and_then (p.write_attestation_key key w') s' (λ w''. (ok, s', w''))

  unfoldable pub format_counter : State → W → Code × State × W
  unfolding format_key
  format_counter s w =
      let s' = record s { global_counter = 0 } in
      and_then (p.write_counter 0 w) s' (λ w'. format_key s' w')

  unfoldable pub format_pin : State → W → Code × State × W
  unfolding format_counter
  format_pin s w =
      let s' = record s { pin_data = fresh_pin } in
      and_then (p.write_pin fresh_pin w) s' (λ w'. format_counter s' w')

  unfoldable pub format : State → W → Code × State × W
  unfolding erase_from format_pin
  format s w = and_then (erase_from 0 16 w) s (λ w1.
      let (key, w2) = p.random_generate 32 w1 in
      let header : Header = record { magic = magic_number; version = 1; master_key = key } in
      let s' = record s { header = header } in
      and_then (p.write_header header w2) s' (λ w3. format_pin s' w3))

  -- The reads of `storage_init` behind the header, in their order.
  unfoldable pub load_key : State → W → Code × State × W
  load_key s w = elim (p.read_attestation_key w) [
    | none ↦ (error, s, w)
    | some key ↦ (ok, record s { attestation_key = key; initialized = true }, w)
  ]

  unfoldable pub load_counter : State → W → Code × State × W
  load_counter s w = elim (p.read_counter w) [
    | none ↦ (error, s, w)
    | some n ↦ load_key (record s { global_counter = n }) w
  ]

  unfoldable pub load_pin : State → W → Code × State × W
  load_pin s w = elim (p.read_pin w) [
    | none ↦ (error, s, w)
    | some d ↦ load_counter (record s { pin_data = d }) w
  ]

  unfoldable pub load : State → W → Code × State × W
  load s w =
      let (key, w') = p.random_generate 32 w in load_pin (record s { device_master_key = key }) w'

  unfoldable pub load_formatted : Code × State × W → Code × State × W
  load_formatted (ok, s, w) = load s w
  load_formatted (_, s, w) = (error, s, w)

  unfoldable pub init_header : State → W → Code × State × W
  init_header s w = elim (p.read_header w) [
    | none ↦ (error, s, w)
    | some header ↦
        let s' = record s { header = header } in
        if header.magic == magic_number then load s' w else load_formatted (format s' w)
  ]

  unfoldable pub init : State → W → Code × State × W
  init s w = and_then (p.flash_init w) s (λ w'. init_header s w')

  -- `*counter = storage_state.global_counter++`, a `uint32_t`; what goes out is the old value, also
  -- when the write fails.
  unfoldable pub get_and_increment_counter : State → W → (Code × Option ℕ) × State × W
  get_and_increment_counter s w =
      if not s.initialized
      then ((invalid_param, none), s, w)
      else let next = (s.global_counter + 1) % 2 ^ 32 in
        let s' = record s { global_counter = next } in
        let (done, w') = p.write_counter next w in
        ((if done then ok else error, some s.global_counter), s', w')

  unfoldable pub set_attestation_key : State → Option (List ℕ) → W → Code × State × W
  set_attestation_key s none w = (invalid_param, s, w)
  set_attestation_key s (some key) w =
      if not s.initialized
      then (invalid_param, s, w)
      else let s' = record s { attestation_key = key } in
        and_then (p.write_attestation_key key w) s' (λ w'. (ok, s', w'))

unfoldable pub get_counter : State → Code × Option ℕ
get_counter s = if not s.initialized then (invalid_param, none) else (ok, some s.global_counter)

unfoldable pub get_attestation_key : State → Code × Option (List ℕ)
get_attestation_key s =
    if not s.initialized then (invalid_param, none) else (ok, some s.attestation_key)
