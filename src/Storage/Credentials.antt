-- ===== src/Storage/Credentials.antt =====
-- The credentials of src/storage/storage.c as they are written to the flash and read back: their
-- bytes, `storage_store_credential`, `storage_find_credential`, `storage_find_credentials_by_rp`
-- and `storage_get_resident_credential_count`. `none` is an access behind the end of an array.
use open_fido.Common.{
  ℕ, zero, suc, ◌+◌, ◌-◌, Bool, true, false, not, ◌||◌, List, [], ◌∷◌, ◌++◌, length, take, drop,
  get_or, replicate, Option, none, some, if◌then◌else◌, ltb, leb, ◌==◌, ◌%◌,
}
use open_fido.Common.Memory.{bytes_eq, c_string}
use open_fido.Storage.Base.{
  Code, ok, error, not_found, full, invalid_param, corrupted, State, FlashCredential, Platform,
  max_credentials,
}
use open_fido.Storage.Slots.{slot, slot_offset, search_slots, find_free_slot, is_credential}

-- `storage_credential_t`, without the fields that these functions leave alone. `user_id` is its
-- first `user_id_len` bytes.
pub record Credential : Type 0 where
  pub id : List ℕ
  pub rp_id_hash : List ℕ
  pub user_id : List ℕ
  pub private_key : List ℕ
  pub sign_count : ℕ
  pub resident : Bool
  pub user_name : List ℕ
  pub display_name : List ℕ
  pub rp_id : List ℕ

-- `crypto_aes_gcm_encrypt` and `crypto_aes_gcm_decrypt`: key, IV, additional data and text, and for
-- the second the tag. `none` where the code is not CRYPTO_OK.
pub record Cipher : Type 0 where
  pub encrypt : List ℕ → List ℕ → List ℕ → List ℕ → Option (List ℕ × List ℕ)
  pub decrypt : List ℕ → List ℕ → List ℕ → List ℕ → List ℕ → Option (List ℕ)

abbrev pub plaintext_size : ℕ
plaintext_size = 400

abbrev pub max_user_id_length : ℕ
max_user_id_length = 64

-- `strncpy` of `n` characters: the string, padded with NUL.
abbrev pub string_field : ℕ → List ℕ → List ℕ
string_field n s = take n (c_string s ++ replicate n 0)

-- `strncpy` from the end of an array; it reads on until `n` characters or a NUL.
unfoldable pub read_string : ℕ → List ℕ → Option (List ℕ)
read_string n source =
    if leb n (length source) || ltb (length (c_string source)) (length source)
    then some (string_field n source)
    else none

-- What stands in `plaintext` up to `offset`.
unfoldable pub serialize : Credential → List ℕ
serialize c =
    c.rp_id_hash
    ++ (c.user_id
        ++ (length c.user_id % 256)
          ∷ (c.private_key
              ++ (if c.resident then 1 else 0)
                ∷ (if c.resident
                    then string_field 64 c.user_name
                      ++ (string_field 64 c.display_name ++ string_field 256 c.rp_id)
                    else [])))

-- The names, from the bytes behind the flag.
unfoldable pub read_names : Credential → List ℕ → Option Credential
read_names c source =
    let user_name = read_string 64 source in
    let display_name = read_string 64 (drop 64 source) in
    let rp_id = read_string 256 (drop 128 source) in
    elim user_name [
      | none ↦ none
      | some user_name' ↦ elim display_name [
        | none ↦ none
        | some display_name' ↦ elim rp_id [
          | none ↦ none
          | some rp_id' ↦
              let c' : Credential = record c {
                user_name = user_name';
                display_name = display_name';
                rp_id = rp_id';
              } in
              some c'
        ]
      ]
    ]

-- The fields from `plaintext`, over what the caller's structure holds.
unfoldable pub deserialize_at : Credential → List ℕ → ℕ → Option Credential
deserialize_at old plaintext user_id_len =
    let off = 32 + (user_id_len + 1) in
    let resident = get_or plaintext (off + 32) 0 == 1 in
    let c : Credential = record old {
      rp_id_hash = take 32 plaintext;
      user_id = take user_id_len (drop 32 plaintext);
      private_key = take 32 (drop off plaintext);
      resident = resident;
    } in
    if ltb max_user_id_length user_id_len
    then none
    else if not resident
    then some c
    else read_names c (drop (off + 33) plaintext)

-- The length of the user id is read at a fixed place.
unfoldable pub deserialize : Credential → List ℕ → Option Credential
deserialize old plaintext =
    deserialize_at old plaintext (get_or plaintext (32 + max_user_id_length) 0)

module _ {W : Type 0} (p : Platform W) (cipher : Cipher) where
  -- The credential sealed, and written to the slot. `encrypted_data` is zeroed before.
  unfoldable pub write_sealed : Credential → List ℕ → ℕ → W → Option (List ℕ × List ℕ) → Code × W
  write_sealed c iv i w none = (error, w)
  write_sealed c iv i w (some (ciphertext, tag)) =
      let flash_cred : FlashCredential = record {
        id = c.id;
        encrypted_data = ciphertext ++ replicate (plaintext_size - length ciphertext) 0;
        iv = iv;
        tag = tag;
        sign_count = c.sign_count;
        valid = true;
      } in
      let (done, w') = p.write_credential (slot_offset i) flash_cred w in
      (if done then ok else error, w')

  unfoldable pub store_in : State → Credential → W → Option ℕ → Option (Code × W)
  store_in s c w none = some (full, w)
  store_in s c w (some i) =
      let (iv, w') = p.random_generate 12 w in
      if ltb plaintext_size (length (serialize c))
      then none
      else some (
          write_sealed c iv i w' (cipher.encrypt s.device_master_key iv c.rp_id_hash (serialize c)))

  unfoldable pub store_credential : State → Option Credential → W → Option (Code × W)
  store_credential s none w = some (invalid_param, w)
  store_credential s (some c) w =
      if not s.initialized then some (invalid_param, w) else store_in s c w (find_free_slot p w)

  -- Decryption gives no additional data, and all 400 bytes.
  unfoldable pub open_slot : State → FlashCredential → Option (List ℕ)
  open_slot s f = cipher.decrypt s.device_master_key f.iv [] f.encrypted_data f.tag

  -- The credential of a slot, with the identity that stands outside the seal.
  unfoldable pub with_identity : FlashCredential → Option Credential → Option (Code × Credential)
  with_identity f none = none
  with_identity f (some c) =
      let c' : Credential = record c { id = f.id; sign_count = f.sign_count } in some (ok, c')

  unfoldable pub find_in :
      State → Credential → Option (ℕ × FlashCredential) → Option (Code × Credential)
  find_in s old none = some (not_found, old)
  find_in s old (some (i, f)) = elim (open_slot s f) [
    | none ↦ some (corrupted, old)
    | some plaintext ↦ with_identity f (deserialize old plaintext)
  ]

  unfoldable pub find_credential :
      State → Option (List ℕ) → Credential → W → Option (Code × Credential)
  find_credential s none old w = some (invalid_param, old)
  find_credential s (some id) old w =
      if not s.initialized
      then some (invalid_param, old)
      else find_in s old (search_slots p (is_credential id) w)

  -- The text of a slot that can be read, is valid and opens.
  unfoldable pub text_of : State → Option FlashCredential → Option (FlashCredential × List ℕ)
  text_of s none = none
  text_of s (some f) = elim (open_slot s f) [
    | none ↦ none
    | some plaintext ↦ if f.valid then some (f, plaintext) else none
  ]

  -- The loop of `storage_find_credentials_by_rp`, over the slots left and the entries of the
  -- caller's array that are still free.
  unfoldable pub by_rp_from :
      State → List ℕ → List Credential → ℕ → ℕ → W → Option (List Credential)
  by_rp_from s hash olds i zero w = some []
  by_rp_from s hash [] i (suc rounds) w = some []
  by_rp_from s hash (old ∷ olds) i (suc rounds) w =
      let skipped = by_rp_from s hash (old ∷ olds) (i + 1) rounds w in
      let behind = by_rp_from s hash olds (i + 1) rounds w in
      elim (text_of s (slot p i w)) [
        | none ↦ skipped
        | some (f, plaintext) ↦ elim (bytes_eq (take 32 plaintext) hash) [
          | false ↦ skipped
          | true ↦ elim (with_identity f (deserialize old plaintext)) [
            | none ↦ none
            | some (code, c) ↦ elim behind [ none ↦ none | some cs ↦ some (c ∷ cs) ]
          ]
        ]
      ]

  unfoldable pub find_credentials_by_rp :
      State → Option (List ℕ) → List Credential → W → Option (Code × List Credential)
  find_credentials_by_rp s none olds w = some (invalid_param, [])
  find_credentials_by_rp s (some hash) olds w =
      if not s.initialized
      then some (invalid_param, [])
      else elim (by_rp_from s hash olds 0 max_credentials w) [
        | none ↦ none
        | some cs ↦ some (ok, cs)
      ]

  -- The flag at `32 + user_id_len + 1 + 32`.
  abbrev pub is_resident : Option (FlashCredential × List ℕ) → Bool
  is_resident none = false
  is_resident (some (f, plaintext)) =
      get_or plaintext (32 + (get_or plaintext (32 + max_user_id_length) 0 + 1 + 32)) 0 == 1

  unfoldable pub residents_from : State → ℕ → ℕ → ℕ → W → ℕ
  residents_from s i zero count w = count
  residents_from s i (suc rounds) count w =
      residents_from s (i + 1) rounds
        (if is_resident (text_of s (slot p i w)) then count + 1 else count) w

  unfoldable pub get_resident_credential_count : State → W → Code × Option ℕ
  get_resident_credential_count s w =
      if not s.initialized
      then (invalid_param, none)
      else (ok, some (residents_from s 0 max_credentials 0 w))

-- Neither function is implemented in the source: the certificate is empty, and storing one does
-- nothing. The pointers are `none` for NULL.
unfoldable pub get_attestation_cert : State → Bool → Code × Option ℕ
get_attestation_cert s has_room =
    if not s.initialized || not has_room then (invalid_param, none) else (ok, some 0)

unfoldable pub set_attestation_cert : State → Option (List ℕ) → Code
set_attestation_cert s none = invalid_param
set_attestation_cert s (some cert) = if not s.initialized then invalid_param else ok
