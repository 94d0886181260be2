-- ===== src/Ctap2/Management.antt =====
-- src/fido2/extensions/ctap2_credential_mgmt.c, behind the loop that reads the parameters, which hands
-- numbers to the decoder where it takes pointers. `none` is an access behind the end of an array.
pub mod Laws
use open_fido.Common.{
  ℕ, zero, suc, ◌+◌, ◌-◌, Bool, true, false, not, ◌||◌, ◌&&◌, List, [], ◌∷◌, ◌++◌, length, drop,
  replicate, Option, some, none, if◌then◌else◌, ◌==◌, ℤ,
}
use open_fido.Common.Memory.{bytes_eq, c_string}
use open_fido.Cbor.Encoder.{encode_uint, encode_text, encode_bytes, encode_map_start}
use open_fido.Storage.Base.{State, Platform, Code, ok}
use open_fido.Storage.Pin.{is_pin_set}
use open_fido.Storage.Slots.{delete_credential, get_credential_count}
use open_fido.Storage.Credentials.{
  Cipher, Credential, find_credential, find_credentials_by_rp, get_resident_credential_count,
}
use open_fido.U2f.{or_zero}
use open_fido.Ctap2.Base.{
  Call, Reply, cose_key, encoded, ctap2_ok, err_missing_parameter, err_processing,
  err_no_credentials, err_no_operation_pending, err_pin_not_set, err_pin_required,
  err_pin_auth_invalid, err_invalid_subcommand,
}
use open_fido.Ctap2.Ceremonies.{PinAuth, user_calls, credential_calls}

-- `cm_state`. A list holds the entries of its array that count; the hash of the RP, which nothing
-- reads, is left out.
pub record Enumeration : Type 0 where
  pub rp_active : Bool
  pub cred_active : Bool
  pub rp_index : ℕ
  pub cred_index : ℕ
  pub rps : List Credential
  pub creds : List Credential

-- The local variables of `ctap2_credential_management`; `none` says that a parameter is not there.
pub record ManageRequest : Type 0 where
  pub subcommand : Option ℕ
  pub pin_auth : PinAuth
  pub rp_id_hash : Option (List ℕ)
  pub credential_id : Option (List ℕ)

-- The reply, with the enumeration and the world.
abbrev pub Managed : Type 0 → Type 0
Managed W = Reply × Enumeration × W

unfoldable pub verify_cm_pin_auth : Bool → PinAuth → ℕ
verify_cm_pin_auth pin_set a =
    if not pin_set
    then err_pin_not_set
    else if not a.present || (a.len == 0)
    then err_pin_required
    else if not (a.protocol == 1)
    then err_pin_auth_invalid
    else if not (a.len == 16)
    then err_pin_auth_invalid
    else ctap2_ok

abbrev pub rp_calls : Credential → List Call
rp_calls rp =
    (λ e. encode_uint e 3)
    ∷ (λ e. encode_map_start e 1)
    ∷ (λ e. encode_text e (0x69 ∷ 0x64 ∷ []))
    ∷ (λ e. encode_text e (c_string rp.rp_id))
    ∷ (λ e. encode_uint e 4)
    ∷ (λ e. encode_bytes e rp.rp_id_hash)
    ∷ []

-- The first reply of an enumeration of RPs, and the later ones.
unfoldable pub first_rp_reply : List ℕ → ℕ → Credential → Reply
first_rp_reply buffer total rp = encoded buffer (
    (λ e. encode_map_start e 3)
    ∷ (rp_calls rp ++ (λ e. encode_uint e 5) ∷ (λ e. encode_uint e total) ∷ []))

unfoldable pub next_rp_reply : List ℕ → Credential → Reply
next_rp_reply buffer rp = encoded buffer ((λ e. encode_map_start e 2) ∷ rp_calls rp)

-- Whether the list has a credential of this RP.
unfoldable pub has_rp : List ℕ → List Credential → Bool
has_rp hash [] = false
has_rp hash (c ∷ cs) = let rest = has_rp hash cs in bytes_eq c.rp_id_hash hash || rest

abbrev pub with_rp : Credential → List Credential → List Credential
with_rp c rps = if c.resident && not (has_rp c.rp_id_hash rps) then rps ++ c ∷ [] else rps

-- The public key of a private key and the algorithm, which the storage does not keep, come from
-- outside. `old` and `olds` are what stands where credentials are read to.
module _ {W : Type 0} (p : Platform W) (cipher : Cipher) (get_public_key : List ℕ → Option (List ℕ))
    (algorithm : Credential → ℤ) (old : Credential) (olds : List Credential) where
  abbrev pub key_calls : Option (List ℕ) → ℤ → List Call
  key_calls none alg = []
  key_calls (some key) alg = cose_key alg key

  abbrev pub cred_calls : Credential → List Call
  cred_calls c =
      (λ e. encode_uint e 6)
      ∷ (user_calls c
          ++ (λ e. encode_uint e 7)
            ∷ (credential_calls c
                ++ (λ e. encode_uint e 8) ∷ key_calls (get_public_key c.private_key) (algorithm c)))

  unfoldable pub first_cred_reply : List ℕ → ℕ → Credential → Reply
  first_cred_reply buffer total c = encoded buffer (
      (λ e. encode_map_start e 4)
      ∷ (cred_calls c ++ (λ e. encode_uint e 9) ∷ (λ e. encode_uint e total) ∷ []))

  unfoldable pub next_cred_reply : List ℕ → Credential → Reply
  next_cred_reply buffer c = encoded buffer ((λ e. encode_map_start e 3) ∷ cred_calls c)

  abbrev pub failed : ℕ → Enumeration → W → Option (Managed W)
  failed code e w = some ((code, none), e, w)

  -- The counts of all credentials and of the resident ones.
  unfoldable pub get_metadata :
      List ℕ → Code × Option ℕ → Code × Option ℕ → Enumeration → W → Option (Managed W)
  get_metadata buffer (ok, existing) (ok, resident) e w = some (
    encoded buffer (
        (λ k. encode_map_start k 2)
        ∷ (λ k. encode_uint k 1)
        ∷ (λ k. encode_uint k (or_zero resident))
        ∷ (λ k. encode_uint k 2)
        ∷ (λ k. encode_uint k (50 - or_zero existing))
        ∷ []),
    e,
    w,
  )
  get_metadata buffer _ _ e w = failed err_processing e w

  -- The loop over the ids whose bytes are all `i`; a credential that is found stays in the structure
  -- that the next one is read to.
  unfoldable pub rps_from :
      ℕ → ℕ → Credential → List Credential → State → W → Option (List Credential)
  rps_from i zero c rps s w = some rps
  rps_from i (suc rounds) c rps s w =
      elim (find_credential p cipher s (some (replicate 16 i)) c w) [
        | none ↦ none
        | some (ok, c') ↦ rps_from (i + 1) rounds c' (with_rp c' rps) s w
        | some (_, c') ↦ rps_from (i + 1) rounds c' rps s w
      ]

  unfoldable pub rps_begin : List ℕ → W → Option (List Credential) → Option (Managed W)
  rps_begin buffer w none = none
  rps_begin buffer w (some []) =
      failed err_no_credentials
        (record {
          rp_active = false;
          cred_active = false;
          rp_index = 0;
          cred_index = 0;
          rps = [];
          creds = [];
        })
        w
  rps_begin buffer w (some (rp ∷ rps)) = some (
    first_rp_reply buffer (length (rp ∷ rps)) rp,
    record {
      rp_active = true;
      cred_active = false;
      rp_index = 1;
      cred_index = 0;
      rps = rp ∷ rps;
      creds = [];
    },
    w,
  )

  -- From the entries that are left.
  unfoldable pub rps_next : List ℕ → Enumeration → List Credential → Reply × Enumeration
  rps_next buffer e [] = ((err_no_credentials, none), record e { rp_active = false })
  rps_next buffer e (rp ∷ left) = (
    next_rp_reply buffer rp,
    record e { rp_index = e.rp_index + 1; rp_active = not (length left == 0) },
  )

  unfoldable pub rps_get_next : List ℕ → Enumeration → Reply × Enumeration
  rps_get_next buffer e =
      if not e.rp_active
      then ((err_no_operation_pending, none), e)
      else rps_next buffer e (drop e.rp_index e.rps)

  unfoldable pub creds_begin :
      List ℕ → Enumeration → W → Option (Code × List Credential) → Option (Managed W)
  creds_begin buffer e w none = none
  creds_begin buffer e w (some (ok, [])) =
      failed err_no_credentials (record e { cred_active = false; cred_index = 0; creds = [] }) w
  creds_begin buffer e w (some (ok, c ∷ cs)) = some (
    first_cred_reply buffer (length (c ∷ cs)) c,
    record e { cred_active = true; cred_index = 1; creds = c ∷ cs },
    w,
  )
  creds_begin buffer e w (some (_, cs)) =
      failed err_processing (record e { cred_active = false; cred_index = 0; creds = cs }) w

  unfoldable pub creds_next : List ℕ → Enumeration → List Credential → Reply × Enumeration
  creds_next buffer e [] = ((err_no_credentials, none), record e { cred_active = false })
  creds_next buffer e (c ∷ left) = (
    next_cred_reply buffer c,
    record e { cred_index = e.cred_index + 1; cred_active = not (length left == 0) },
  )

  unfoldable pub creds_get_next : List ℕ → Enumeration → Reply × Enumeration
  creds_get_next buffer e =
      if not e.cred_active
      then ((err_no_operation_pending, none), e)
      else creds_next buffer e (drop e.cred_index e.creds)

  unfoldable pub deleted : Enumeration → Code × W → Option (Managed W)
  deleted e (ok, w) = some ((ctap2_ok, some []), e, w)
  deleted e (_, w) = failed err_no_credentials e w

  abbrev pub unmoved : Reply × Enumeration → W → Option (Managed W)
  unmoved (reply, e) w = some (reply, e, w)

  abbrev pub begin_for : List ℕ → Option (List ℕ) → Enumeration → State → W → Option (Managed W)
  begin_for buffer none e s w = failed err_missing_parameter e w
  begin_for buffer (some hash) e s w =
      creds_begin buffer e w (find_credentials_by_rp p cipher s (some hash) olds w)

  abbrev pub delete_for : Option (List ℕ) → Enumeration → State → W → Option (Managed W)
  delete_for none e s w = failed err_missing_parameter e w
  delete_for (some id) e s w = deleted e (delete_credential p s (some id) w)

  unfoldable pub run_subcommand :
      ManageRequest → ℕ → List ℕ → Enumeration → State → W → Option (Managed W)
  run_subcommand r subcommand buffer e s w =
      if subcommand == 1
      then get_metadata buffer (get_credential_count p s w)
          (get_resident_credential_count p cipher s w) e w
      else if subcommand == 2
      then rps_begin buffer w (rps_from 0 50 old [] s w)
      else if subcommand == 3
      then unmoved (rps_get_next buffer e) w
      else if subcommand == 4
      then begin_for buffer r.rp_id_hash e s w
      else if subcommand == 5
      then unmoved (creds_get_next buffer e) w
      else if subcommand == 6
      then delete_for r.credential_id e s w
      else failed err_invalid_subcommand e w

  unfoldable pub run_verified :
      Option ℕ → ℕ → ManageRequest → List ℕ → Enumeration → State → W → Option (Managed W)
  run_verified none checked r buffer e s w = failed err_missing_parameter e w
  run_verified (some subcommand) checked r buffer e s w =
      if not (checked == 0) then failed checked e w else run_subcommand r subcommand buffer e s w

  unfoldable pub credential_management :
      ManageRequest → List ℕ → Enumeration → State → W → Option (Managed W)
  credential_management r buffer e s w =
      run_verified r.subcommand (verify_cm_pin_auth (is_pin_set s) r.pin_auth) r buffer e s w
