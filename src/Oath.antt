-- ===== src/Oath.antt =====
-- src/oath/oath.c: one-time passwords and the table of their credentials. The list holds the first
-- `count` entries of the array, in order. `hmac` is `crypto_hmac_sha256`: `none` where its code is
-- not CRYPTO_OK.
mod Tests
pub mod Hotp
pub mod Table
pub mod Operations
use open_fido.Common.{
  ℕ, zero, suc, ◌+◌, ◌*◌, ◌/◌, ◌%◌, ◌^◌, bit_or, Bool, true, false, not, List, [], ◌∷◌, ◌++◌,
  length, take, get_or, Option, none, some, if◌then◌else◌, leb, ltb, ◌==◌, min, replicate, ℤ, pos,
  negsuc,
}
use open_fido.Common.Memory.{c_string, same_string}

-- `oath_credential_t`
pub record Credential : Type 0 where
  pub name : List ℕ
  pub type : ℕ
  pub hash : ℕ
  pub secret : List ℕ
  pub secret_len : ℕ
  pub digits : ℕ
  pub counter : ℕ
  pub period : ℕ

-- `oath_storage`
pub record State : Type 0 where
  pub credentials : List Credential
  pub initialized : Bool

abbrev pub max_oath_credentials : ℕ
max_oath_credentials = 32

unfoldable pub init : State
init = record { credentials = []; initialized = true }

abbrev pub is_named : List ℕ → Credential → Bool
is_named name c = same_string c.name name

unfoldable pub has_name : List ℕ → List Credential → Bool
has_name name [] = false
has_name name (c ∷ cs) = elim (is_named name c) [ true ↦ true | false ↦ has_name name cs ]

unfoldable pub add_credential : State → Credential → ℤ × State
add_credential s c =
    if not s.initialized
    then (negsuc 0, s)
    else if leb max_oath_credentials (length s.credentials)
    then (negsuc 1, s)
    else if has_name c.name s.credentials
    then (negsuc 2, s)
    else (pos 0, record s { credentials = s.credentials ++ (c ∷ []) })

-- The entries behind the first of that name move down by one.
unfoldable pub remove_first : List ℕ → List Credential → List Credential
remove_first name [] = []
remove_first name (c ∷ cs) = elim (is_named name c) [ true ↦ cs | false ↦ c ∷ remove_first name cs ]

unfoldable pub delete_credential : State → List ℕ → ℤ × State
delete_credential s name =
    if not s.initialized
    then (negsuc 0, s)
    else if has_name name s.credentials
    then (pos 0, record s { credentials = remove_first name s.credentials })
    else (negsuc 1, s)

-- `strncpy(names[i], name, 63); names[i][63] = '\0';`
unfoldable pub copy_name : Credential → List ℕ
copy_name c = take 63 (c_string c.name ++ replicate 63 0) ++ (0 ∷ [])

unfoldable pub copy_names : List Credential → List (List ℕ)
copy_names [] = []
copy_names (c ∷ cs) = copy_name c ∷ copy_names cs

unfoldable pub list_credentials : State → ℕ → ℤ × List (List ℕ)
list_credentials s max_count =
    let num_to_copy =
      if ltb (length s.credentials) max_count then length s.credentials else max_count in
    if not s.initialized
    then (negsuc 0, [])
    else (pos 0, copy_names (take num_to_copy s.credentials))

-- `for (int i = 7; i >= 0; i--)`, which fills the array from its end.
unfoldable pub counter_bytes_from : ℕ → ℕ → List ℕ → List ℕ
counter_bytes_from zero counter done = done
counter_bytes_from (suc i) counter done =
    counter_bytes_from i (counter / 2 ^ 8) ((counter % 256) ∷ done)

unfoldable pub counter_bytes : ℕ → List ℕ
counter_bytes counter = counter_bytes_from 8 counter []

-- `binary`, from the bytes at the offset that the last byte names.
unfoldable pub truncate : List ℕ → ℕ
truncate hmac =
    let offset = get_or hmac 31 0 % 16 in
    let byte = λ (k : ℕ). get_or hmac (offset + k) 0 in
    bit_or (bit_or (bit_or (byte 0 % 128 * 2 ^ 24) (byte 1 % 256 * 2 ^ 16)) (byte 2 % 256 * 2 ^ 8))
      (byte 3 % 256)

-- `modulo *= 10`, a `uint32_t`, for the rounds left.
unfoldable pub modulo_from : ℕ → ℕ → ℕ
modulo_from zero modulo = modulo
modulo_from (suc rounds) modulo = modulo_from rounds (modulo * 10 % 2 ^ 32)

-- What `*code` gets; `fault` is the division by a modulo of 0.
pub data Outcome : Type 0 where
  code : ℕ → Outcome
  failed : ℤ → Outcome
  fault : Outcome

unfoldable pub reduce : ℕ → ℕ → Outcome
reduce binary modulo = if modulo == 0 then fault else code (binary % modulo)

module _ (hmac : List ℕ → List ℕ → Option (List ℕ)) where
  unfoldable pub hotp_generate : List ℕ → ℕ → ℕ → ℕ → Outcome
  hotp_generate secret secret_len counter digits =
      elim (hmac (take secret_len secret) (counter_bytes counter)) [
        | none ↦ failed (negsuc 0)
        | some h ↦ reduce (truncate h) (modulo_from digits 1)
      ]

  -- `timestamp / period` faults at a period of 0.
  unfoldable pub totp_generate : List ℕ → ℕ → ℕ → ℕ → ℕ → Outcome
  totp_generate secret secret_len timestamp period digits =
      if period == 0 then fault else hotp_generate secret secret_len (timestamp / period) digits

  -- The code of one credential, and the credential behind it.
  unfoldable pub calculate_one : Credential → Outcome × Credential
  calculate_one c =
      let hotp = hotp_generate c.secret c.secret_len c.counter c.digits in
      if c.type == 1
      then elim hotp [
        | code n ↦ (code n, record c { counter = (c.counter + 1) % 2 ^ 32 })
        | failed e ↦ (failed e, c)
        | fault ↦ (fault, c)
      ]
      else if c.type == 2
      then (totp_generate c.secret c.secret_len 0 c.period c.digits, c)
      else (failed (negsuc 2), c)

  -- The first credential of that name.
  unfoldable pub calculate_in : List ℕ → List Credential → Outcome × List Credential
  calculate_in name [] = (failed (negsuc 1), [])
  calculate_in name (c ∷ cs) = elim (is_named name c) [
    | true ↦ ((calculate_one c).0, (calculate_one c).1 ∷ cs)
    | false ↦ ((calculate_in name cs).0, c ∷ (calculate_in name cs).1)
  ]

  unfoldable pub calculate : State → List ℕ → Outcome × State
  calculate s name = if not s.initialized then (failed (negsuc 0), s) else (
    (calculate_in name s.credentials).0,
    record s { credentials = (calculate_in name s.credentials).1 },
  )

-- `oath_verify` is not implemented in the source.
unfoldable pub verify : List ℕ → ℕ → ℕ → ℤ
verify name value window = negsuc 0
