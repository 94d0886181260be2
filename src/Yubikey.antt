-- ===== src/Yubikey.antt =====
-- src/oath/yubikey_otp.c and src/oath/challenge_response.c: the one-time passwords of a Yubikey, in
-- modhex, and the two slots of challenge and response. A string is the list of its characters.
mod Otp
mod Response
mod Tests
use open_fido.Common.{
  ℕ, zero, suc, ◌+◌, ◌-◌, ◌*◌, ◌/◌, ◌%◌, ◌^◌, bit_xor, Bool, true, false, not, ◌||◌, List, [], ◌∷◌,
  ◌++◌, take, get_or, Option, none, some, if◌then◌else◌, ltb, ◌==◌, ℤ, pos, negsuc,
}

-- `yubikey_otp_config_t`, without the key, which nothing reads.
pub record Config : Type 0 where
  pub public_id : List ℕ
  pub private_id : List ℕ
  pub counter : ℕ
  pub timestamp_low : ℕ
  pub timestamp_high : ℕ
  pub session_use : ℕ
  pub random : ℕ

-- "cbdefghijklnrtuv"
abbrev pub modhex_alphabet : List ℕ
modhex_alphabet =
    99 ∷ 98 ∷ 100 ∷ 101 ∷ 102 ∷ 103 ∷ 104 ∷ 105 ∷ 106 ∷ 107 ∷ 108 ∷ 110 ∷ 114 ∷ 116 ∷ 117 ∷ 118 ∷ []

-- The characters, without the NUL that ends them.
unfoldable pub modhex_encode : List ℕ → List ℕ
modhex_encode [] = []
modhex_encode (b ∷ bs) =
    get_or modhex_alphabet (b / 2 ^ 4 % 16) 0 ∷ get_or modhex_alphabet (b % 16) 0 ∷ modhex_encode bs

-- The index of a character, from `j` on; 0 for one that is not in the alphabet.
abbrev pub nibble_from : ℕ → List ℕ → ℕ → ℕ
nibble_from j [] c = 0
nibble_from j (a ∷ alphabet) c =
    let rest = nibble_from (j + 1) alphabet c in if c == a then j else rest

-- `len` is what is left of it. The string ends at its NUL or with the list.
unfoldable pub modhex_decode : List ℕ → ℕ → List ℕ
modhex_decode [] len = []
modhex_decode (h ∷ []) len = []
modhex_decode (h ∷ l ∷ s) len =
    let rest = modhex_decode s (len - 2) in
    if (len == 0) || ((h == 0) || (l == 0))
    then []
    else (nibble_from 0 modhex_alphabet h * 2 ^ 4 + nibble_from 0 modhex_alphabet l) ∷ rest

-- `crc ^= token[i]`
unfoldable pub crc_of : ℕ → List ℕ → ℕ
crc_of crc [] = crc
crc_of crc (b ∷ bs) = crc_of (bit_xor crc b) bs

-- The 14 bytes that the checksum is over.
unfoldable pub token_fields : Config → List ℕ
token_fields c =
    take 6 c.private_id
    ++ (c.counter % 256)
      ∷ (c.counter / 2 ^ 8 % 256)
      ∷ c.timestamp_low
      ∷ (c.timestamp_high % 256)
      ∷ (c.timestamp_high / 2 ^ 8 % 256)
      ∷ c.session_use
      ∷ (c.random % 256)
      ∷ (c.random / 2 ^ 8 % 256)
      ∷ []

-- The token goes out as it is; the source leaves the encryption out.
unfoldable pub token : Config → List ℕ
token c =
    let crc = crc_of 0xFFFF (token_fields c) in
    token_fields c ++ (crc % 256) ∷ (crc / 2 ^ 8 % 256) ∷ []

-- `session_use` has 8 bits and `counter` 16.
unfoldable pub count_use : Config → Config
count_use c =
    let use' = (c.session_use + 1) % 256 in
    record c {
      session_use = use';
      counter = if use' == 0 then (c.counter + 1) % 2 ^ 16 else c.counter;
    }

unfoldable pub otp_generate : Config → List ℕ × Config
otp_generate c = (modhex_encode (take 6 c.public_id) ++ modhex_encode (token c), count_use c)

unfoldable pub otp_verify : List ℕ → Config → ℤ
otp_verify otp c = negsuc 0

-- `challenge_response_slot_t`; a slot that is not configured is `none`.
pub record Slots : Type 0 where
  pub first : Option (List ℕ)
  pub second : Option (List ℕ)

abbrev pub no_slots : Slots
no_slots = record { first = none; second = none }

unfoldable pub configure : ℕ → Option (List ℕ) → Slots → ℤ × Slots
configure slot none s = if ltb slot 1 || ltb 2 slot then (negsuc 0, s) else (negsuc 1, s)
configure slot (some secret) s =
    if ltb slot 1 || ltb 2 slot
    then (negsuc 0, s)
    else if slot == 1
    then (pos 0, record s { first = some (take 20 secret) })
    else (pos 0, record s { second = some (take 20 secret) })

-- `crypto_hmac_sha256` comes from outside; `none` where it fails. `room` says whether there is a
-- buffer for the response.
module _ (hmac : List ℕ → List ℕ → Option (List ℕ)) where
  unfoldable pub respond : Option (List ℕ) → Option (List ℕ) → Bool → ℤ × Option (List ℕ)
  respond none challenge room = (negsuc 1, none)
  respond (some secret) none room = (negsuc 2, none)
  respond (some secret) (some challenge) false = (negsuc 2, none)
  respond (some secret) (some challenge) true = elim (hmac secret challenge) [
    | none ↦ (negsuc 3, none)
    | some mac ↦ (pos 0, some (take 20 mac))
  ]

  unfoldable pub calculate_response : ℕ → Option (List ℕ) → Bool → Slots → ℤ × Option (List ℕ)
  calculate_response slot challenge room s =
      if ltb slot 1 || ltb 2 slot
      then (negsuc 0, none)
      else respond (if slot == 1 then s.first else s.second) challenge room
