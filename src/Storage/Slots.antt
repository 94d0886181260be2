-- ===== src/Storage/Slots.antt =====
-- The credential slots of src/storage/storage.c: the search for a slot, the counter of a
-- credential, deletion and the number of credentials.
use open_fido.Common.{
  ℕ, zero, suc, ◌+◌, ◌*◌, Bool, false, not, ◌&&◌, List, Option, none, some, if◌then◌else◌,
}
use open_fido.Common.Memory.{bytes_eq}
use open_fido.Storage.Base.{
  Code, ok, error, not_found, invalid_param, State, FlashCredential, Platform, max_credentials,
}

-- `STORAGE_OFFSET_CREDS + (i * STORAGE_CRED_SIZE)`
abbrev pub slot_offset : ℕ → ℕ
slot_offset i = 2048 + i * 512

-- `flash_cred.valid` and `memcmp(flash_cred.id, credential_id, 16) == 0`.
abbrev pub is_credential : List ℕ → FlashCredential → Bool
is_credential id c = c.valid && bytes_eq c.id id

module _ {W : Type 0} (p : Platform W) where
  abbrev pub slot : ℕ → W → Option FlashCredential
  slot i w = p.read_credential (slot_offset i) w

  abbrev pub passes : (FlashCredential → Bool) → Option FlashCredential → Bool
  passes test none = false
  passes test (some c) = test c

  -- The loop that stops at the first slot which can be read and passes the test, from slot `i` on,
  -- with the rounds left.
  unfoldable pub search_from : (FlashCredential → Bool) → ℕ → ℕ → W → Option (ℕ × FlashCredential)
  search_from test i zero w = none
  search_from test i (suc rounds) w = elim (slot i w) [
    | none ↦ search_from test (i + 1) rounds w
    | some c ↦ if test c then some (i, c) else search_from test (i + 1) rounds w
  ]

  unfoldable pub search_slots : (FlashCredential → Bool) → W → Option (ℕ × FlashCredential)
  search_slots test w = search_from test 0 max_credentials w

  -- The search for a free slot in `storage_store_credential`.
  unfoldable pub find_free_slot : W → Option ℕ
  find_free_slot w = elim (search_slots (λ c. not c.valid) w) [ none ↦ none | some (i, c) ↦ some i ]

  -- The slot found, written back with a change.
  unfoldable pub rewrite_slot :
      (FlashCredential → FlashCredential) → W → Option (ℕ × FlashCredential) → Code × W
  rewrite_slot change w none = (not_found, w)
  rewrite_slot change w (some (i, c)) =
      let (done, w') = p.write_credential (slot_offset i) (change c) w in
      (if done then ok else error, w')

  -- `credential_id` is `none` for NULL.
  unfoldable pub update_sign_count : State → Option (List ℕ) → ℕ → W → Code × W
  update_sign_count s none new_count w = (invalid_param, w)
  update_sign_count s (some id) new_count w =
      if not s.initialized
      then (invalid_param, w)
      else rewrite_slot (λ c. record c { sign_count = new_count }) w
          (search_slots (is_credential id) w)

  unfoldable pub delete_credential : State → Option (List ℕ) → W → Code × W
  delete_credential s none w = (invalid_param, w)
  delete_credential s (some id) w =
      if not s.initialized
      then (invalid_param, w)
      else rewrite_slot (λ c. record c { valid = false }) w (search_slots (is_credential id) w)

  -- `(*count)++` at each slot that can be read and is valid.
  unfoldable pub count_from : ℕ → ℕ → ℕ → W → ℕ
  count_from i zero count w = count
  count_from i (suc rounds) count w =
      count_from (i + 1) rounds (if passes (λ c. c.valid) (slot i w) then count + 1 else count) w

  unfoldable pub get_credential_count : State → W → Code × Option ℕ
  get_credential_count s w =
      if not s.initialized
      then (invalid_param, none)
      else (ok, some (count_from 0 max_credentials 0 w))
