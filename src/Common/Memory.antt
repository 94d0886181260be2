-- ===== src/Common/Memory.antt =====
-- memcpy into a byte buffer, and the part of a buffer that has been written.
use Prim.Native.Nat.{ℕ, zero, suc, ◌+◌, ◌≤◌, ◌<◌}
use mathlib.Core.Path.{◌≡◌, refl, ap, ◌∙◌, sym}
use mathlib.Core.List.{List, [], ◌∷◌, ◌++◌, append-nil, append_assoc}
use native.Mathlib.Omega.{arith}
use mathlib.Core.Bool.{Bool, true, false, ◌&&◌}
use open_fido.Common.Lists.{length, set, take, length-set}
use open_fido.Common.Tests.{◌==◌, if◌then◌else◌}
use open_fido.Common.{if◌then◌else◌}

-- `memcpy(&buffer[at], src, length src)`.
unfoldable pub copy_into : List ℕ → ℕ → List ℕ → List ℕ
copy_into buffer at [] = buffer
copy_into buffer at (x ∷ src) = copy_into (set buffer at x) (suc at) src

pub length-copy_into :
    (src buffer : List ℕ) (at : ℕ) → length (copy_into buffer at src) ≡ length buffer
unfolding copy_into
length-copy_into [] buffer at = refl
length-copy_into (x ∷ src) buffer at =
    length-copy_into src (set buffer at x) (suc at) ∙ length-set buffer at x

pub take-set :
    (buffer : List ℕ) (at x : ℕ)
    → at < length buffer
    → take (suc at) (set buffer at x) ≡ take at buffer ++ (x ∷ [])
take-set [] at x h = absurd (omega arith)
take-set (y ∷ ys) zero x h = refl
take-set (y ∷ ys) (suc at) x h = ap (λ t. y ∷ t) (take-set ys at x (omega arith))

-- A copy appends its source to the bytes before it.
pub take-copy_into :
    (src buffer : List ℕ) (at : ℕ)
    → at + length src ≤ length buffer
    → take (at + length src) (copy_into buffer at src) ≡ take at buffer ++ src
unfolding copy_into
take-copy_into [] buffer at h =
    let e : at + 0 ≡ at = omega arith in rw e (sym (append-nil (take at buffer)))
take-copy_into (x ∷ src) buffer at h =
    let e : at + suc (length src) ≡ suc at + length src = omega arith in
    rw e (
      take-copy_into src (set buffer at x) (suc at) (omega (arith, length-set buffer at x))
      ∙ ap (λ t. t ++ src) (take-set buffer at x (omega arith))
      ∙ append_assoc (take at buffer) (x ∷ []) src)

take-set_before : (buffer : List ℕ) (at k x : ℕ) → k ≤ at → take k (set buffer at x) ≡ take k buffer
take-set_before [] at k x h = refl
take-set_before (y ∷ ys) at zero x h = refl
take-set_before (y ∷ ys) zero (suc k) x h = absurd (omega arith)
take-set_before (y ∷ ys) (suc at) (suc k) x h =
    ap (λ t. y ∷ t) (take-set_before ys at k x (omega arith))

-- A copy leaves what stands before it alone.
pub take-copy_into_before :
    (src buffer : List ℕ) (at k : ℕ) → k ≤ at → take k (copy_into buffer at src) ≡ take k buffer
unfolding copy_into
take-copy_into_before [] buffer at k h = refl
take-copy_into_before (x ∷ src) buffer at k h =
    take-copy_into_before src (set buffer at x) (suc at) k (omega arith)
    ∙ take-set_before buffer at k x h

-- Two copies, one behind the other, are one copy.
pub copy_into-append :
    (xs ys buffer : List ℕ) (at : ℕ)
    → copy_into buffer at (xs ++ ys) ≡ copy_into (copy_into buffer at xs) (at + length xs) ys
unfolding copy_into
copy_into-append [] ys buffer at = let e : at + 0 ≡ at = omega arith in rw e
copy_into-append (x ∷ xs) ys buffer at =
    let e : at + suc (length xs) ≡ suc at + length xs = omega arith in
    rw e (copy_into-append xs ys (set buffer at x) (suc at))

-- `memcmp(a, b, n) == 0` on two arrays of `n` bytes.
unfoldable pub bytes_eq : List ℕ → List ℕ → Bool
bytes_eq [] [] = true
bytes_eq [] (y ∷ ys) = false
bytes_eq (x ∷ xs) [] = false
bytes_eq (x ∷ xs) (y ∷ ys) = (x == y) && bytes_eq xs ys

pub bytes_eq→eq : (xs ys : List ℕ) → bytes_eq xs ys ≡ true → xs ≡ ys
unfolding bytes_eq
bytes_eq→eq [] [] e = refl
bytes_eq→eq [] (y ∷ ys) e = cc
bytes_eq→eq (x ∷ xs) [] e = cc
bytes_eq→eq (x ∷ xs) (y ∷ ys) e = ground (arith, bytes_eq→eq xs ys)

pub bytes_eq_refl : (xs : List ℕ) → bytes_eq xs xs ≡ true
unfolding bytes_eq
bytes_eq_refl [] = refl
bytes_eq_refl (x ∷ xs) = ground (arith, bytes_eq_refl xs)

-- The C string at the start of a character array: what stands before the first NUL.
unfoldable pub c_string : List ℕ → List ℕ
c_string [] = []
c_string (x ∷ xs) = if x == 0 then [] else x ∷ c_string xs

-- `strcmp(a, b) == 0`
unfoldable pub same_string : List ℕ → List ℕ → Bool
same_string a b = bytes_eq (c_string a) (c_string b)
