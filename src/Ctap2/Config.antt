-- ===== src/Ctap2/Config.antt =====
-- src/fido2/extensions/ctap2_config.c, behind the loop that reads the parameters. Its subcommands
-- change nothing.
use open_fido.Common.{ℕ, ◌||◌, Bool, not, [], Option, some, none, if◌then◌else◌, ltb, ◌==◌}
use open_fido.Permissions.{State, check}
use open_fido.Ctap2.Base.{
  Reply, ctap2_ok, err_invalid_parameter, err_missing_parameter, err_pin_not_set, err_pin_required,
  err_pin_auth_invalid, err_invalid_subcommand,
}
use open_fido.Ctap2.Ceremonies.{PinAuth}

abbrev pub perm_authenticator_cfg : ℕ
perm_authenticator_cfg = 0x20

-- The local variables of `ctap2_authenticator_config`; `none` says that a parameter is not there.
pub record ConfigRequest : Type 0 where
  pub subcommand : Option ℕ
  pub pin_auth : PinAuth
  pub new_min_pin_length : Option ℕ

unfoldable pub verify_config_pin_auth : State → Bool → PinAuth → ℕ
verify_config_pin_auth perm pin_set a =
    if not pin_set
    then err_pin_not_set
    else if not (check perm perm_authenticator_cfg none)
    then err_pin_required
    else if not a.present || (a.len == 0)
    then err_pin_required
    else if not (a.protocol == 1)
    then err_pin_auth_invalid
    else if not (a.len == 16)
    then err_pin_auth_invalid
    else ctap2_ok

-- The length of the PIN is an `uint8_t`, and nothing keeps it.
unfoldable pub set_min_pin_length : Option ℕ → Reply
set_min_pin_length none = (err_missing_parameter, none)
set_min_pin_length (some len) =
    if ltb len 4 || ltb 63 len then (err_invalid_parameter, none) else (ctap2_ok, some [])

unfoldable pub run_config : ConfigRequest → ℕ → Reply
run_config r subcommand =
    if subcommand == 1
    then (ctap2_ok, some [])
    else if subcommand == 2
    then (ctap2_ok, some [])
    else if subcommand == 3
    then set_min_pin_length r.new_min_pin_length
    else if subcommand == 0xFF
    then (ctap2_ok, some [])
    else (err_invalid_subcommand, none)

unfoldable pub config_verified : ConfigRequest → ℕ → Option ℕ → Reply
config_verified r checked none = (err_missing_parameter, none)
config_verified r checked (some subcommand) =
    if not (checked == 0) then (checked, none) else run_config r subcommand

unfoldable pub authenticator_config : State → Bool → ConfigRequest → Reply
authenticator_config perm pin_set r =
    config_verified r (verify_config_pin_auth perm pin_set r.pin_auth) r.subcommand
