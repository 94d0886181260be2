-- ===== src/Yubikey/Otp.antt =====
-- What the one-time passwords of src/oath/yubikey_otp.c say, and that they do not repeat.
use open_fido.Common.{
  ℕ, suc, ◌+◌, ◌*◌, ◌<◌, ◌≤◌, ◌≡◌, ◌≢◌, ◌%◌, ◌^◌, ◌/◌, Bool, true, false, List, [], ◌∷◌, ◌++◌,
  length, take, get_or, All, ◌==◌, arith, refl, Bool-cases, inl, inr, ◌&&◌, ℕ_discrete, not, zero,
  ◌-◌, take_all, sym, drop, ◌∙◌, drop-length-append, drop-drop, append_assoc, All-append,
  length-append, ap, append-nil,
}
use open_fido.Yubikey.{
  Config, modhex_alphabet, modhex_encode, modhex_decode, nibble_from, token, token_fields, crc_of,
  count_use, otp_generate,
}

-- The character of a nibble is not NUL, and its index is the nibble.
abbrev is_found : ℕ → Bool
is_found k =
    let c = get_or modhex_alphabet k 0 in (not (c == 0)) && (nibble_from 0 modhex_alphabet c == k)

abbrev all_found : ℕ → Bool
all_found zero = true
all_found (suc k) = let rest = all_found k in is_found k && rest

all_found-lt : (n k : ℕ) → all_found n ≡ true → k < n → is_found k ≡ true
all_found-lt zero k e l = absurd (omega (arith, l))
all_found-lt (suc n) k e l = elim (ℕ_discrete k n) [
  | yes here ↦ rw here (ground (arith, e))
  | no other ↦ all_found-lt n k (ground (arith, e)) (omega (arith, l, other))
]

abbrev char : ℕ → ℕ
char k = get_or modhex_alphabet k 0

nibble : (k : ℕ) → k < 16 → ((char k == 0) ≡ false) × (nibble_from 0 modhex_alphabet (char k) ≡ k)
nibble k l = let found = all_found-lt 16 k refl l in (ground (arith, found), ground (arith, found))

modhex_decode-nil : (s : List ℕ) → modhex_decode s 0 ≡ []
unfolding modhex_decode
modhex_decode-nil [] = refl
modhex_decode-nil (h ∷ []) = refl
modhex_decode-nil (h ∷ l ∷ s) = refl

decode_pair :
    (h l : ℕ) (s : List ℕ) (len : ℕ)
    → (h == 0) ≡ false
    → (l == 0) ≡ false
    → 2 ≤ len
    → modhex_decode (h ∷ l ∷ s) len
      ≡ (nibble_from 0 modhex_alphabet h * 2 ^ 4 + nibble_from 0 modhex_alphabet l)
        ∷ modhex_decode s (len - 2)
unfolding modhex_decode
decode_pair h l s len hz lz e =
    let some_left : (len == 0) ≡ false = ground (arith, e) in rw (hz, lz, some_left) refl

-- Decoding twice as many characters as there are bytes gives the bytes back, whatever follows them.
modhex_decode-modhex_encode :
    (bytes rest : List ℕ) (len : ℕ)
    → All (λ b. b < 256) bytes
    → len ≡ length bytes * 2
    → modhex_decode (modhex_encode bytes ++ rest) len ≡ bytes
unfolding modhex_encode
modhex_decode-modhex_encode [] rest len all e = rw e (modhex_decode-nil rest)
modhex_decode-modhex_encode (b ∷ bs) rest len all e =
    let (high_nz, high) = nibble (b / 2 ^ 4 % 16) (omega arith) in
    let (low_nz, low) = nibble (b % 16) (omega arith) in
    let pair =
      decode_pair (char (b / 2 ^ 4 % 16)) (char (b % 16)) (modhex_encode bs ++ rest) len high_nz
        low_nz (omega (arith, e)) in
    let ih = modhex_decode-modhex_encode bs rest (len - 2) all.1 (omega (arith, e)) in
    let small : b < 256 = all.0 in
    let whole : b / 2 ^ 4 % 16 * 2 ^ 4 + b % 16 ≡ b = omega (arith, small) in
    pair ∙ rw (high, low, whole, ih) refl

-- The fields of a configuration have the size that the header gives them.
pub record Fits (c : Config) : Type 0 where
  pub public_bytes : All (λ b. b < 256) c.public_id
  pub private_bytes : All (λ b. b < 256) c.private_id
  pub public_length : length c.public_id ≡ 6
  pub private_length : length c.private_id ≡ 6
  pub counter : c.counter < 2 ^ 16
  pub low : c.timestamp_low < 256
  pub uses : c.session_use < 256

modhex_encode-append :
    (xs ys : List ℕ) → modhex_encode (xs ++ ys) ≡ modhex_encode xs ++ modhex_encode ys
unfolding modhex_encode
modhex_encode-append [] ys = refl
modhex_encode-append (x ∷ xs) ys = rw (modhex_encode-append xs ys) refl

-- What stands behind the private id in a token.
abbrev counters : Config → List ℕ
counters c =
    (c.counter % 256)
    ∷ (c.counter / 2 ^ 8 % 256)
    ∷ c.timestamp_low
    ∷ (c.timestamp_high % 256)
    ∷ (c.timestamp_high / 2 ^ 8 % 256)
    ∷ c.session_use
    ∷ (c.random % 256)
    ∷ (c.random / 2 ^ 8 % 256)
    ∷ (crc_of 0xFFFF (token_fields c) % 256)
    ∷ (crc_of 0xFFFF (token_fields c) / 2 ^ 8 % 256)
    ∷ []

token-parts : (c : Config) → Fits c → token c ≡ c.private_id ++ counters c
unfolding token token_fields
token-parts c f =
    let whole = take_all 6 c.private_id (omega (arith, f.private_length)) in
    rw whole (append_assoc c.private_id _ _)

counters-All : (c : Config) → Fits c → All (λ b. b < 256) (counters c)
counters-All c f = (
  omega arith,
  (
    omega arith,
    (
      f.low,
      (
        omega arith,
        (omega arith, (f.uses, (omega arith, (omega arith, (omega arith, (omega arith, tt)))))),
      ),
    ),
  ),
)

-- Decoding a password gives the public id, the private id and the counters that made it.
otp_generate-decoded :
    (c : Config)
    → Fits c
    → modhex_decode (otp_generate c).0 44 ≡ c.public_id ++ (c.private_id ++ counters c)
unfolding otp_generate
otp_generate-decoded c f =
    let whole = take_all 6 c.public_id (omega (arith, f.public_length)) in
    let parts = token-parts c f in
    let bytes = c.public_id ++ (c.private_id ++ counters c) in
    let all =
      All-append (λ b. b < 256) c.public_id (c.private_id ++ counters c) f.public_bytes
        (All-append (λ b. b < 256) c.private_id (counters c) f.private_bytes (counters-All c f)) in
    let size : 44 ≡ length bytes * 2 = omega (
      arith,
      f.public_length,
      f.private_length,
      length-append c.public_id (c.private_id ++ counters c),
      length-append c.private_id (counters c),
    ) in
    let decoded = modhex_decode-modhex_encode bytes [] 44 all size in
    let text : modhex_encode (take 6 c.public_id) ++ modhex_encode (token c)
        ≡ modhex_encode bytes ++ [] =
      rw (whole, parts, append-nil (modhex_encode bytes))
        (sym (modhex_encode-append c.public_id _)) in
    rw text decoded

-- The number of passwords made, modulo 2^24.
abbrev pub serial : Config → ℕ
serial c = c.counter * 256 + c.session_use

drop_exactly : (xs ys : List ℕ) (n : ℕ) → length xs ≡ n → drop n (xs ++ ys) ≡ ys
drop_exactly xs ys n e = rw (← e) (drop-length-append xs ys)

behind_ids :
    (c : Config) → Fits c → drop 12 (c.public_id ++ (c.private_id ++ counters c)) ≡ counters c
behind_ids c f =
    let once = drop_exactly c.public_id (c.private_id ++ counters c) 6 f.public_length in
    let twice = drop_exactly c.private_id (counters c) 6 f.private_length in
    sym (drop-drop 6 6 (c.public_id ++ (c.private_id ++ counters c))) ∙ ap (drop 6) once ∙ twice

serial-of :
    (c d : Config) → Fits c → Fits d → (otp_generate c).0 ≡ (otp_generate d).0 → serial c ≡ serial d
serial-of c d f g e =
    let both : c.public_id ++ (c.private_id ++ counters c)
        ≡ d.public_id ++ (d.private_id ++ counters d) =
      sym (otp_generate-decoded c f) ∙ ap (λ s. modhex_decode s 44) e ∙ otp_generate-decoded d g in
    let behind = sym (behind_ids c f) ∙ ap (drop 12) both ∙ behind_ids d g in
    let low : c.counter % 256 ≡ d.counter % 256 = ap (λ l. get_or l 0 0) behind in
    let high : c.counter / 2 ^ 8 % 256 ≡ d.counter / 2 ^ 8 % 256 = ap (λ l. get_or l 1 0) behind in
    let same : c.session_use ≡ d.session_use = ap (λ l. get_or l 5 0) behind in
    omega (arith, low, high, same, f.counter, g.counter)

-- The configuration that `n` passwords, made one after another, leave behind.
abbrev pub used : ℕ → Config → Config
used zero c = c
used (suc n) c = used n (otp_generate c).1

count_use-serial :
    (c : Config) → Fits c → Fits (count_use c) × (serial (count_use c) ≡ (serial c + 1) % 2 ^ 24)
unfolding count_use
count_use-serial c f = elim (Bool-cases ((c.session_use + 1) % 256 == 0)) [
  | inl wraps ↦
      let last : (c.session_use + 1) % 256 ≡ 0 = ground (arith, wraps) in
      (
        record {
          public_bytes = f.public_bytes;
          private_bytes = f.private_bytes;
          public_length = f.public_length;
          private_length = f.private_length;
          counter = rw wraps (omega arith);
          low = f.low;
          uses = omega arith;
        },
        rw wraps (omega (arith, last, f.uses, f.counter)),
      )
  | inr more ↦
      let not_last : (c.session_use + 1) % 256 ≢ 0 = ground (arith, more) in
      (
        record {
          public_bytes = f.public_bytes;
          private_bytes = f.private_bytes;
          public_length = f.public_length;
          private_length = f.private_length;
          counter = rw more f.counter;
          low = f.low;
          uses = omega arith;
        },
        rw more (omega (arith, not_last, f.uses, f.counter)),
      )
]

used-serial :
    (n : ℕ) (c : Config) → Fits c → Fits (used n c) × (serial (used n c) ≡ (serial c + n) % 2 ^ 24)
unfolding otp_generate
used-serial zero c f = (f, omega (arith, f.uses, f.counter))
used-serial (suc n) c f =
    let (fits, one) = count_use-serial c f in
    let (fits', rest) = used-serial n (count_use c) fits in (fits', omega (arith, one, rest))

-- Of 2^24 passwords, each made with the configuration that making the one before it left behind, no
-- two are the same. The fields of the first configuration have the size that the header gives them.
pub otp_generate-fresh :
    (c : Config) (n : ℕ)
    → Fits c
    → 0 < n
    → n < 2 ^ 24
    → (otp_generate (used n c)).0 ≢ (otp_generate c).0
otp_generate-fresh c n f some_more few e =
    let (fits, made) = used-serial n c f in
    let same = serial-of (used n c) c fits f e in
    omega (arith, made, same, some_more, few, f.uses, f.counter)
