-- ===== src/Permissions.antt =====
-- src/fido2/permissions.c: what the platform was granted with its PIN token, and the check that the
-- commands make against it. `rp_id_hash` pointers may be NULL.
pub mod Laws
use open_fido.Common.{
  ℕ, Bool, true, false, not, Option, none, some, List, if◌then◌else◌, take, replicate, bit_and,
  ◌==◌, ◌||◌, ◌&&◌,
}
use open_fido.Common.Memory.{bytes_eq}

-- `permission_state_t`
pub record State : Type 0 where
  pub permissions : ℕ
  pub rp_id_hash : List ℕ
  pub has_rp_id : Bool

-- `memset(&perm_state, 0, sizeof(perm_state))`
unfoldable pub cleared_permissions : State
cleared_permissions = record { permissions = 0; rp_id_hash = replicate 32 0; has_rp_id = false }

-- `permissions_set`, which always returns true.
unfoldable pub set_permissions : State → ℕ → Option (List ℕ) → State
set_permissions s permissions (some hash) = record {
  permissions = permissions;
  rp_id_hash = take 32 hash;
  has_rp_id = true;
}
set_permissions s permissions none = record s { permissions = permissions; has_rp_id = false }

abbrev pub perm_make_credential : ℕ
perm_make_credential = 0x01

abbrev pub perm_get_assertion : ℕ
perm_get_assertion = 0x02

-- The RP ID stored, against the one of the request.
unfoldable pub matches : State → Option (List ℕ) → Bool
matches s none = false
matches s (some hash) = bytes_eq s.rp_id_hash (take 32 hash)

unfoldable pub check : State → ℕ → Option (List ℕ) → Bool
check s permission hash =
    if bit_and s.permissions permission == 0
    then false
    else if (permission == perm_make_credential || permission == perm_get_assertion) && s.has_rp_id
    then matches s hash
    else true
