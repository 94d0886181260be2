-- ===== src/Oath/Table.antt =====
-- What the operations of src/oath/oath.c on the table of credentials keep, and what they do to the
-- entries of other names.
use open_fido.Common.{
  Bool, true, false, ◌≡◌, ◌≤◌, refl, ap, arith, List, ℕ, ◌∷◌, ◌++◌, length, Option, not, none, [],
  ◌||◌, ◌&&◌, some,
}
use open_fido.Oath.{remove_first, has_name, Credential, is_named}
use open_fido.Common.Memory.{same_string, bytes_eq, c_string, bytes_eq_refl, bytes_eq→eq}

-- `strcmp` does not depend on the order of its arguments.
bytes_eq_comm : (xs ys : List ℕ) → bytes_eq xs ys ≡ bytes_eq ys xs
unfolding bytes_eq
bytes_eq_comm [] [] = refl
bytes_eq_comm [] (y ∷ ys) = refl
bytes_eq_comm (x ∷ xs) [] = refl
bytes_eq_comm (x ∷ xs) (y ∷ ys) = ground (arith, bytes_eq_comm xs ys)

pub same_string_comm : (a b : List ℕ) → same_string a b ≡ same_string b a
unfolding same_string
same_string_comm a b = bytes_eq_comm (c_string a) (c_string b)

pub same_string_refl : (a : List ℕ) → same_string a a ≡ true
unfolding same_string
same_string_refl a = bytes_eq_refl (c_string a)

pub same_string_trans :
    (a b c : List ℕ) → same_string a b ≡ true → same_string a c ≡ same_string b c
unfolding same_string
same_string_trans a b c h =
    ap (λ s. bytes_eq s (c_string c)) (bytes_eq→eq (c_string a) (c_string b) h)

-- No two entries have the same name.
unfoldable pub distinct : List Credential → Bool
distinct [] = true
distinct (c ∷ cs) = not (has_name c.name cs) && distinct cs

-- The first entry of a name.
unfoldable pub entry : List ℕ → List Credential → Option Credential
entry name [] = none
entry name (c ∷ cs) = elim (is_named name c) [ true ↦ some c | false ↦ entry name cs ]

pub has_name-append :
    (name : List ℕ) (cs : List Credential) (c : Credential)
    → has_name name (cs ++ (c ∷ [])) ≡ (has_name name cs || is_named name c)
unfolding has_name
has_name-append name [] c = ground arith
has_name-append name (d ∷ cs) c = ground (arith, has_name-append name cs c)

pub distinct-append :
    (cs : List Credential) (c : Credential)
    → has_name c.name cs ≡ false
    → distinct cs ≡ true
    → distinct (cs ++ (c ∷ [])) ≡ true
unfolding distinct has_name
distinct-append [] c h d = refl
distinct-append (x ∷ cs) c h d =
    ground
      (arith, has_name-append x.name cs c, distinct-append cs c, same_string_comm c.name x.name)

pub has_name-remove_first :
    (name other : List ℕ) (cs : List Credential)
    → has_name other cs ≡ false
    → has_name other (remove_first name cs) ≡ false
unfolding remove_first has_name
has_name-remove_first name other [] h = refl
has_name-remove_first name other (c ∷ cs) h = ground (arith, has_name-remove_first name other cs)

pub distinct-remove_first :
    (name : List ℕ) (cs : List Credential)
    → distinct cs ≡ true
    → distinct (remove_first name cs) ≡ true
unfolding remove_first distinct
distinct-remove_first name [] d = refl
distinct-remove_first name (c ∷ cs) d =
    ground (arith, has_name-remove_first name c.name cs, distinct-remove_first name cs)

pub length-remove_first :
    (name : List ℕ) (cs : List Credential) → length (remove_first name cs) ≤ length cs
unfolding remove_first
length-remove_first name [] = omega arith
length-remove_first name (c ∷ cs) = ground (arith, length-remove_first name cs)

-- A name that one string has is the name that an equal string has.
pub has_name-same :
    (a b : List ℕ) (cs : List Credential) → same_string a b ≡ true → has_name a cs ≡ has_name b cs
unfolding has_name
has_name-same a b [] h = refl
has_name-same a b (c ∷ cs) h = ground (
  arith,
  has_name-same a b cs,
  same_string_trans a b c.name,
  same_string_comm c.name a,
  same_string_comm c.name b,
)

pub remove_first-removes :
    (name : List ℕ) (cs : List Credential)
    → distinct cs ≡ true
    → has_name name (remove_first name cs) ≡ false
unfolding remove_first distinct has_name
remove_first-removes name [] d = refl
remove_first-removes name (c ∷ cs) d =
    ground (arith, remove_first-removes name cs, has_name-same c.name name cs)

pub entry-remove_first :
    (name other : List ℕ) (cs : List Credential)
    → same_string name other ≡ false
    → entry other (remove_first name cs) ≡ entry other cs
unfolding remove_first entry
entry-remove_first name other [] h = refl
entry-remove_first name other (c ∷ cs) h =
    ground (arith, entry-remove_first name other cs, same_string_trans c.name name other)

pub remove_first-append :
    (cs : List Credential) (c : Credential)
    → has_name c.name cs ≡ false
    → remove_first c.name (cs ++ (c ∷ [])) ≡ cs
unfolding remove_first has_name
remove_first-append [] c h = ground (arith, same_string_refl c.name)
remove_first-append (x ∷ cs) c h = ground (arith, remove_first-append cs c)
