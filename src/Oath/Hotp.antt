-- ===== src/Oath/Hotp.antt =====
-- The one-time password of src/oath/oath.c: a truncation as in RFC 4226, but of the 32 bytes of
-- HMAC-SHA256, where the RFC truncates the 20 bytes of HMAC-SHA1.
use open_fido.Common.{
  ℕ, ◌≡◌, ◌≤◌, ◌<◌, refl, arith, List, ◌∷◌, ◌*◌, take, ◌^◌, ◌+◌, drop, suc, get_or, [], ◌%◌, zero,
  ◌++◌, length, All, IsByte, drop-get_or, All-get_or, ◌/◌, append_assoc, ◌∙◌, Option, sym, some, ap,
  ◌-◌,
}
use open_fido.Oath.{
  modulo_from, truncate, counter_bytes_from, counter_bytes, hotp_generate, code, reduce, fault,
}
use native.Mathlib.Nat.{pow-suc, pow-le-pow_right}
use open_fido.Common.Bits.{join_4}

-- The number that a list of bytes is, the most significant first.
unfoldable pub big_endian : List ℕ → ℕ → ℕ
big_endian [] n = n
big_endian (b ∷ bs) n = big_endian bs (n * 256 + b)

-- The dynamic truncation of a MAC of any length: the low 4 bits of its last byte are an offset, and
-- the 4 bytes there, as one number, give the low 31 bits.
abbrev pub dynamic_truncation : List ℕ → ℕ
dynamic_truncation h = big_endian (take 4 (drop (get_or h (length h - 1) 0 % 16) h)) 0 % 2 ^ 31

at_most_multiple : (m x : ℕ) → 0 < x → m ≤ m * x
at_most_multiple m zero h = absurd (omega arith)
at_most_multiple m (suc x) h = grind arith

pow_pos : (n : ℕ) → 0 < 10 ^ n
pow_pos zero = omega arith
pow_pos (suc n) = omega (arith, pow-suc 10 n, pow_pos n)

-- The modulo is a power of ten as long as that fits the word.
pub modulo_from-pow :
    (rounds m : ℕ) → m * 10 ^ rounds < 2 ^ 32 → modulo_from rounds m ≡ m * 10 ^ rounds
unfolding modulo_from
modulo_from-pow zero m h = omega arith
modulo_from-pow (suc rounds) m h =
    let e : m * 10 ^ suc rounds ≡ m * 10 * 10 ^ rounds = rw pow-suc (grind arith) in
    let small = at_most_multiple (m * 10) (10 ^ rounds) (pow_pos rounds) in
    let whole : m * 10 % 2 ^ 32 ≡ m * 10 = omega arith in
    rw (whole, e) (modulo_from-pow rounds (m * 10) (omega arith))

modulo_from-add : (a b m : ℕ) → modulo_from (a + b) m ≡ modulo_from b (modulo_from a m)
unfolding modulo_from
modulo_from-add zero b m = let e : 0 + b ≡ b = omega arith in rw e
modulo_from-add (suc a) b m =
    let e : suc a + b ≡ suc (a + b) = omega arith in rw e (modulo_from-add a b (m * 10 % 2 ^ 32))

modulo_from-zero : (b : ℕ) → modulo_from b 0 ≡ 0
unfolding modulo_from
modulo_from-zero zero = refl
modulo_from-zero (suc b) = modulo_from-zero b

four_bytes :
    (h : List ℕ) (o : ℕ)
    → o + 4 ≤ length h
    → big_endian (take 4 (drop o h)) 0
      ≡ get_or h o 0 * 2 ^ 24
        + get_or h (o + 1) 0 * 2 ^ 16
        + get_or h (o + 2) 0 * 256
        + get_or h (o + 3) 0
unfolding big_endian
four_bytes h o l = ground (
  arith,
  drop-get_or o h 0,
  drop-get_or (o + 1) h 0,
  drop-get_or (o + 2) h 0,
  drop-get_or (o + 3) h 0,
)

modulo_32 : modulo_from 32 1 ≡ 0
unfolding modulo_from
modulo_32 = refl

-- The four bytes that the dynamic truncation joins.
truncate-dynamic_truncation :
    (h : List ℕ) → length h ≡ 32 → All IsByte h → truncate h ≡ dynamic_truncation h
unfolding truncate
truncate-dynamic_truncation h l b =
    let o = get_or h 31 0 % 16 in
    let last : length h - 1 ≡ 31 = omega arith in
    let byte : (k : ℕ) → get_or h k 0 < 256 = λ k. All-get_or IsByte h k 0 b (omega arith) in
    rw last (
      ground (
        arith,
        four_bytes h o,
        byte o,
        byte (o + 1),
        byte (o + 2),
        byte (o + 3),
        join_4 (get_or h o 0 % 128) (get_or h (o + 1) 0) (get_or h (o + 2) 0) (get_or h (o + 3) 0),
      ))

big_endian-append :
    (xs ys : List ℕ) (n : ℕ) → big_endian (xs ++ ys) n ≡ big_endian ys (big_endian xs n)
unfolding big_endian
big_endian-append [] ys n = refl
big_endian-append (x ∷ xs) ys n = big_endian-append xs ys (n * 256 + x)

counter_bytes_from-append :
    (n counter : ℕ) (done : List ℕ)
    → counter_bytes_from n counter done ≡ counter_bytes_from n counter [] ++ done
unfolding counter_bytes_from
counter_bytes_from-append zero counter done = refl
counter_bytes_from-append (suc n) counter done =
    let d = counter_bytes_from-append n (counter / 2 ^ 8) ((counter % 256) ∷ done) in
    let e = counter_bytes_from-append n (counter / 2 ^ 8) ((counter % 256) ∷ []) in
    let a = append_assoc (counter_bytes_from n (counter / 2 ^ 8) []) ((counter % 256) ∷ []) done in
    d ∙ sym a ∙ ap (λ bs. bs ++ done) (sym e)

big_endian-counter_bytes_from :
    (n counter : ℕ) → counter < 256 ^ n → big_endian (counter_bytes_from n counter []) 0 ≡ counter
unfolding counter_bytes_from big_endian
big_endian-counter_bytes_from zero counter h = omega arith
big_endian-counter_bytes_from (suc n) counter h =
    let rest = big_endian-counter_bytes_from n (counter / 256) (omega (arith, pow-suc 256 n)) in
    let split = counter_bytes_from-append n (counter / 256) ((counter % 256) ∷ []) in
    let join =
      big_endian-append (counter_bytes_from n (counter / 256) []) ((counter % 256) ∷ []) 0 in
    rw split (rw join (rw rest (omega arith)))

length-counter_bytes_from :
    (n counter : ℕ) (done : List ℕ) → length (counter_bytes_from n counter done) ≡ n + length done
unfolding counter_bytes_from
length-counter_bytes_from zero counter done = omega arith
length-counter_bytes_from (suc n) counter done =
    omega (arith, length-counter_bytes_from n (counter / 2 ^ 8) ((counter % 256) ∷ done))

-- The counter that the MAC gets: eight bytes whose number is the counter.
pub big_endian-counter_bytes :
    (counter : ℕ) → counter < 2 ^ 64 → big_endian (counter_bytes counter) 0 ≡ counter
unfolding counter_bytes
big_endian-counter_bytes counter h = big_endian-counter_bytes_from 8 counter h

module _ (hmac : List ℕ → List ℕ → Option (List ℕ)) where
  -- A password of at most 9 digits, where the MAC, a parameter, gives 32 bytes for the message that
  -- `counter_bytes` makes: the code is the dynamic truncation of those bytes, the offset taken from
  -- the last of them, reduced by ten to the number of digits. That message has 8 bytes, and the
  -- number it is, is the 64-bit counter.
  pub hotp_generate_lem :
      (secret : List ℕ) (secret_len counter digits : ℕ) (h : List ℕ)
      → counter < 2 ^ 64
      → hmac (take secret_len secret) (counter_bytes counter) ≡ some h
      → length h ≡ 32
      → All IsByte h
      → digits ≤ 9
      → (hotp_generate hmac secret secret_len counter digits
          ≡ code (dynamic_truncation h % 10 ^ digits))
        × (length (counter_bytes counter) ≡ 8)
        × (big_endian (counter_bytes counter) 0 ≡ counter)
  unfolding hotp_generate reduce counter_bytes
  hotp_generate_lem secret secret_len counter digits h c m l b d =
      let fits : 1 * 10 ^ digits < 2 ^ 32 =
        omega (arith, pow-le-pow_right {n = 10} (omega arith) d) in
      let modulo = modulo_from-pow digits 1 fits in
      let binary = truncate-dynamic_truncation h l b in
      let message = big_endian-counter_bytes counter c in
      let size = length-counter_bytes_from 8 counter [] in
      let positive = pow_pos digits in (ground (arith, binary, modulo, m, positive), size, message)

  -- From 32 digits on the power of ten is 0 in its 32 bits, and the remainder divides by it.
  hotp_generate-fault :
      (secret : List ℕ) (secret_len counter extra : ℕ) (h : List ℕ)
      → hmac (take secret_len secret) (counter_bytes counter) ≡ some h
      → hotp_generate hmac secret secret_len counter (32 + extra) ≡ fault
  unfolding hotp_generate reduce
  hotp_generate-fault secret secret_len counter extra h m =
      let zero_at : modulo_from 32 1 ≡ 0 = modulo_32 in
      let split = modulo_from-add 32 extra 1 in let rest = modulo_from-zero extra in ground arith
