-- ===== src/Oath/Operations.antt =====
-- The operations of src/oath/oath.c over any sequence of requests, and their effect on the entries
-- of other names.
use open_fido.Common.{
  ℕ, ◌≡◌, ◌≤◌, refl, arith, List, true, pos, Option, ◌∷◌, length, length-append, false, [], ◌↔◌,
  some,
}
use open_fido.Oath.{
  delete_credential, add_credential, State, Credential, same_string, calculate_one, calculate_in,
  calculate, has_name,
}
use open_fido.Oath.Table.{
  distinct, remove_first-append, distinct-remove_first, distinct-append, length-remove_first,
  has_name-append, entry, same_string_trans, same_string_refl, remove_first-removes,
  entry-remove_first,
}
use open_fido.Common.Memory.{same_string}

-- Names are unique, and at most 32 entries are in the array.
pub record IsValid (s : State) : Type 0 where
  pub names_distinct : distinct s.credentials ≡ true
  pub fits : length s.credentials ≤ 32

-- A call into the module.
pub data Request : Type 0 where
  add : Credential → Request
  delete : List ℕ → Request
  list_names : ℕ → Request
  compute : List ℕ → Request

module _ (hmac : List ℕ → List ℕ → Option (List ℕ)) where
  unfoldable pub serve : Request → State → State
  serve (add c) s = (add_credential s c).1
  serve (delete name) s = (delete_credential s name).1
  serve (list_names n) s = s
  serve (compute name) s = (calculate hmac s name).1

  unfoldable pub serve_all : List Request → State → State
  serve_all [] s = s
  serve_all (r ∷ rs) s = serve_all rs (serve r s)

  -- A calculation keeps the name of the entry.
  calculate_one-name : (c : Credential) → (calculate_one hmac c).1.name ≡ c.name
  unfolding calculate_one
  calculate_one-name c = ground arith

  has_name-calculate_in :
      (name other : List ℕ) (cs : List Credential)
      → has_name other (calculate_in hmac name cs).1 ≡ has_name other cs
  unfolding calculate_in has_name
  has_name-calculate_in name other [] = refl
  has_name-calculate_in name other (c ∷ cs) =
      ground (arith, has_name-calculate_in name other cs, calculate_one-name c)

  distinct-calculate_in :
      (name : List ℕ) (cs : List Credential) → distinct (calculate_in hmac name cs).1 ≡ distinct cs
  unfolding calculate_in distinct
  distinct-calculate_in name [] = refl
  distinct-calculate_in name (c ∷ cs) = ground (
    arith,
    distinct-calculate_in name cs,
    calculate_one-name c,
    has_name-calculate_in name c.name cs,
  )

  length-calculate_in :
      (name : List ℕ) (cs : List Credential) → length (calculate_in hmac name cs).1 ≡ length cs
  unfolding calculate_in
  length-calculate_in name [] = refl
  length-calculate_in name (c ∷ cs) = ground (arith, length-calculate_in name cs)

  entry-calculate_in :
      (name other : List ℕ) (cs : List Credential)
      → same_string name other ≡ false
      → entry other (calculate_in hmac name cs).1 ≡ entry other cs
  unfolding calculate_in entry
  entry-calculate_in name other [] h = refl
  entry-calculate_in name other (c ∷ cs) h = ground (
    arith,
    entry-calculate_in name other cs h,
    calculate_one-name c,
    same_string_trans c.name name other,
  )

  entry_same-calculate_in :
      (name : List ℕ) (cs : List Credential) (c : Credential)
      → entry name cs ≡ some c
      → (entry name (calculate_in hmac name cs).1 ≡ some (calculate_one hmac c).1)
        × ((calculate_in hmac name cs).0 ≡ (calculate_one hmac c).0)
  unfolding calculate_in entry
  entry_same-calculate_in name [] c h = absurd (cc)
  entry_same-calculate_in name (x ∷ cs) c h =
      ground (arith, entry_same-calculate_in name cs c, calculate_one-name x)

  add-IsValid : (s : State) (c : Credential) → IsValid s → IsValid (add_credential s c).1
  unfolding add_credential
  add-IsValid s c v =
      let d = v.names_distinct in
      let f = v.fits in
      let e = distinct-append s.credentials c in
      let l = length-append s.credentials (c ∷ []) in
      record { names_distinct = ground arith; fits = ground arith }

  delete-IsValid : (s : State) (name : List ℕ) → IsValid s → IsValid (delete_credential s name).1
  unfolding delete_credential
  delete-IsValid s name v =
      let d = distinct-remove_first name s.credentials v.names_distinct in
      let l = length-remove_first name s.credentials in
      let f = v.fits in
      let g = v.names_distinct in record { names_distinct = ground arith; fits = ground arith }

  compute-IsValid : (s : State) (name : List ℕ) → IsValid s → IsValid (calculate hmac s name).1
  unfolding calculate
  compute-IsValid s name v =
      let d = distinct-calculate_in name s.credentials in
      let l = length-calculate_in name s.credentials in
      let f = v.fits in
      let g = v.names_distinct in record { names_distinct = ground arith; fits = ground arith }

  serve-IsValid : (r : Request) (s : State) → IsValid s → IsValid (serve r s)
  unfolding serve
  serve-IsValid (add c) s v = add-IsValid s c v
  serve-IsValid (delete name) s v = delete-IsValid s name v
  serve-IsValid (list_names n) s v = v
  serve-IsValid (compute name) s v = compute-IsValid s name v

  -- Whatever calls are made from a state with unique names and at most 32 entries, in any order,
  -- the names stay unique and the entries stay within the array.
  pub serve_all-IsValid : (rs : List Request) (s : State) → IsValid s → IsValid (serve_all rs s)
  unfolding serve_all
  serve_all-IsValid [] s v = v
  serve_all-IsValid (r ∷ rs) s v = serve_all-IsValid rs (serve r s) (serve-IsValid r s v)

  -- A calculation for a name that the table has reports what the entry's own calculation reports,
  -- leaves the entry as that calculation leaves it (which is where an HOTP counter moves), and no
  -- entry of another name changes.
  calculate_lem :
      (s : State) (name other : List ℕ) (c : Credential)
      → s.initialized ≡ true
      → entry name s.credentials ≡ some c
      → same_string name other ≡ false
      → ((calculate hmac s name).0 ≡ (calculate_one hmac c).0)
        × (entry name (calculate hmac s name).1.credentials ≡ some (calculate_one hmac c).1)
        × (entry other (calculate hmac s name).1.credentials ≡ entry other s.credentials)
  unfolding calculate
  calculate_lem s name other c i e h =
      let here = entry_same-calculate_in name s.credentials c e in
      let there = entry-calculate_in name other s.credentials h in ground arith

-- A credential that is added and then deleted by its name leaves the module as it was.
delete-add :
    (s : State) (c : Credential)
    → (add_credential s c).0 ≡ pos 0
    → delete_credential (add_credential s c).1 c.name ≡ (pos 0, s)
unfolding add_credential delete_credential
delete-add s c e =
    let back = remove_first-append s.credentials c in
    let there = has_name-append c.name s.credentials c in
    let same = same_string_refl c.name in ground arith

-- A deletion on a table with unique names reports 0 exactly where the name is in it; afterwards no
-- entry has the name, and the first entry of every other name is the one it was.
delete-entry :
    (s : State) (name other : List ℕ)
    → IsValid s
    → s.initialized ≡ true
    → same_string name other ≡ false
    → ((delete_credential s name).0 ≡ pos 0 ↔ has_name name s.credentials ≡ true)
      × (has_name name (delete_credential s name).1.credentials ≡ false)
      × (entry other (delete_credential s name).1.credentials ≡ entry other s.credentials)
unfolding delete_credential
delete-entry s name other v i h =
    let d = v.names_distinct in
    let gone = remove_first-removes name s.credentials in
    let kept = entry-remove_first name other s.credentials h in ground arith
