-- ===== src/Permissions/Laws.antt =====
-- When the check of src/fido2/permissions.c lets a command pass.
use open_fido.Common.{
  ℕ, List, Option, none, some, take, true, ◌≡◌, ◌≢◌, ◌↔◌, ◌⊎◌, bit_and, arith, subst, sym, inl, inr,
}
use open_fido.Permissions.{matches, check, set_permissions, State}
use open_fido.Common.Memory.{bytes_eq→eq, bytes_eq, bytes_eq_refl}

-- The RP ID of a request is the one the grant names, as far as the permission is bound to an RP ID:
-- making credentials and getting assertions are. A grant that names none binds nothing.
abbrev FitsRp : Option (List ℕ) → ℕ → Option (List ℕ) → Type 0
FitsRp none permission request = Unit {0}
FitsRp (some rp) permission none = (permission ≢ 1) × (permission ≢ 2)
FitsRp (some rp) permission (some hash) =
    (permission ≡ 1) ⊎ (permission ≡ 2) → take 32 rp ≡ take 32 hash

matches_iff :
    (s : State) (hash : List ℕ) → matches s (some hash) ≡ true ↔ s.rp_id_hash ≡ take 32 hash
unfolding matches
matches_iff s hash = (
  bytes_eq→eq s.rp_id_hash (take 32 hash),
  λ e. subst (λ h. bytes_eq h (take 32 hash) ≡ true) (sym e) (bytes_eq_refl (take 32 hash)),
)

-- Whether a permission is bound to an RP ID.
dec_bound :
    (permission : ℕ) → ((permission ≡ 1) ⊎ (permission ≡ 2)) ⊎ ((permission ≢ 1) × (permission ≢ 2))
dec_bound permission = ground arith

-- After `permissions_set`, whatever was granted before, `permissions_check` succeeds exactly when
-- the permission has a bit in the grant, and the request's RP ID fits the grant's where the
-- permission is bound to one.
check-set_permissions :
    (s : State) (granted permission : ℕ) (rp request : Option (List ℕ))
    → check (set_permissions s granted rp) permission request ≡ true
      ↔ (bit_and granted permission ≢ 0) × FitsRp rp permission request
unfolding check set_permissions
check-set_permissions s granted permission none request = ground arith
check-set_permissions s granted permission (some rp) none = unfold matches in ground arith
check-set_permissions s granted permission (some rp) (some hash) =
    let m = matches_iff (set_permissions s granted (some rp)) hash in
    (
      λ e. (ground arith, λ bound. ground arith),
      λ given. elim (dec_bound permission) [
        | inl bound ↦ let same = given.1 bound in ground arith
        | inr free ↦ ground arith
      ],
    )
