-- ===== src/Buffer.antt =====
-- src/utils/buffer.c: wiping a buffer, and comparing two without an early exit.
mod Tests
use open_fido.Common.{
  ℕ, zero, suc, ◌+◌, ◌≤◌, ◌≡◌, ◌↔◌, refl, ap, ◌∙◌, arith, List, [], ◌∷◌, ◌++◌, length, get_or, set,
  take, drop, replicate, bit_or, bit_xor, drop-get_or,
}
use open_fido.Common.Bits.{bit_or-eq_zero, bit_xor-eq_zero, bit_xor_self}

-- `while (len--) *p++ = 0;`, with `p` at index `at`.
zero_from : List ℕ → ℕ → ℕ → List ℕ
zero_from buffer at zero = buffer
zero_from buffer at (suc len) = zero_from (set buffer at 0) (at + 1) len

pub secure_zero : List ℕ → ℕ → List ℕ
unfolding zero_from
secure_zero buffer len = zero_from buffer 0 len

-- `diff |= pa[i] ^ pb[i]` from index `i` on, with the rounds left.
compare_from : List ℕ → List ℕ → ℕ → ℕ → ℕ → ℕ
compare_from a b i zero diff = diff
compare_from a b i (suc rounds) diff =
    compare_from a b (i + 1) rounds (bit_or diff (bit_xor (get_or a i 0) (get_or b i 0)))

unfoldable pub constant_time_compare : List ℕ → List ℕ → ℕ → ℕ
unfolding compare_from
constant_time_compare a b len = compare_from a b 0 len 0

zero_from_cons :
    (len : ℕ) (x : ℕ) (buffer : List ℕ) (at : ℕ)
    → zero_from (x ∷ buffer) (suc at) len ≡ x ∷ zero_from buffer at len
unfolding zero_from
zero_from_cons zero x buffer at = refl
zero_from_cons (suc len) x buffer at =
    let e : suc at + 1 ≡ suc (at + 1) = omega arith in
    rw e (zero_from_cons len x (set buffer at 0) (at + 1))

-- `secure_zero` clears exactly the first `len` bytes of a buffer that has them.
secure_zero_lem :
    (len : ℕ) (buffer : List ℕ)
    → len ≤ length buffer
    → secure_zero buffer len ≡ replicate len 0 ++ drop len buffer
unfolding secure_zero
secure_zero_lem zero buffer h = refl
secure_zero_lem (suc len) [] h = absurd (omega arith)
secure_zero_lem (suc len) (x ∷ buffer) h =
    zero_from_cons len 0 buffer 0 ∙ ap (λ t. 0 ∷ t) (secure_zero_lem len buffer (omega arith))

-- The two windows of `rounds` bytes from `i` on are equal.
abbrev SameWindow : List ℕ → List ℕ → ℕ → ℕ → Type 0
SameWindow a b i rounds = take rounds (drop i a) ≡ take rounds (drop i b)

compare_from_zero :
    (rounds i diff : ℕ) (a b : List ℕ)
    → i + rounds ≤ length a
    → i + rounds ≤ length b
    → compare_from a b i rounds diff ≡ 0
    → (diff ≡ 0) × SameWindow a b i rounds
unfolding compare_from
compare_from_zero zero i diff a b ha hb e = (e, refl)
compare_from_zero (suc rounds) i diff a b ha hb e =
    let x = get_or a i 0 in
    let y = get_or b i 0 in
    let rest =
      compare_from_zero rounds (i + 1) (bit_or diff (bit_xor x y)) a b (omega arith) (omega arith)
        e in
    let here = bit_or-eq_zero diff (bit_xor x y) rest.0 in
    (
      here.0,
      rw (
        drop-get_or i a 0 (omega arith),
        drop-get_or i b 0 (omega arith),
        bit_xor-eq_zero x y here.1,
        rest.1,
      ),
    )

SameWindow_cons : (x y : ℕ) {xs ys : List ℕ} → x ∷ xs ≡ y ∷ ys → (x ≡ y) × (xs ≡ ys)
SameWindow_cons x y e = ground arith

compare_from_same :
    (rounds i diff : ℕ) (a b : List ℕ)
    → i + rounds ≤ length a
    → i + rounds ≤ length b
    → diff ≡ 0
    → SameWindow a b i rounds
    → compare_from a b i rounds diff ≡ 0
unfolding compare_from
compare_from_same zero i diff a b ha hb e w = e
compare_from_same (suc rounds) i diff a b ha hb e w =
    let (same, rest) =
      SameWindow_cons (get_or a i 0) (get_or b i 0)
        (rw (drop-get_or i a 0 (omega arith), drop-get_or i b 0 (omega arith)) at w) in
    compare_from_same rounds (i + 1) _ a b (omega arith) (omega arith) (rw (e, same, bit_xor_self))
      rest

-- The comparison answers 0 exactly when the first `len` bytes agree.
pub constant_time_compare_iff :
    (a b : List ℕ) (len : ℕ)
    → len ≤ length a
    → len ≤ length b
    → (constant_time_compare a b len ≡ 0) ↔ (take len a ≡ take len b)
unfolding constant_time_compare
constant_time_compare_iff a b len ha hb = (
  λ e. (compare_from_zero len 0 0 a b (omega arith) (omega arith) e).1,
  λ w. compare_from_same len 0 0 a b (omega arith) (omega arith) refl w,
)
