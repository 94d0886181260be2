-- ===== src/Ctap2/Ceremonies/PinLaws.antt =====
-- The checks of src/fido2/commands/ctap2_commands.c on `pinAuth`.
use open_fido.Common.{ℕ, Bool, true, ◌≡◌, arith, ◌↔◌, ◌≢◌}
use open_fido.Ctap2.Base.{ctap2_ok}
use open_fido.Ctap2.Ceremonies.{PinAuth, accepted, check_pin_auth, refused}

-- What passes the checks on the PIN.
pub record PinPassed (required set : Bool) (a : PinAuth) (verified : Bool) : Type 0 where
  pub guarded :
      required ≡ true → (set ≡ true) × (a.present ≡ true) × (a.protocol ≡ 1) × (a.len ≡ 16)
  pub versioned : a.present ≡ true → a.protocol ≡ 1
  pub counts : verified ≡ true ↔ ((a.present ≡ true) × (a.len ≡ 16))

pub check_pin_auth-PinPassed :
    (required set verified : Bool) (a : PinAuth)
    → check_pin_auth required set a ≡ accepted verified
    → PinPassed required set a verified
unfolding check_pin_auth
check_pin_auth-PinPassed required set verified a e = record {
  guarded =
      λ r. (ground (arith, e, r), ground (arith, e, r), ground (arith, e, r), ground (arith, e, r));
  versioned = λ h. ground (arith, e, h);
  counts = (λ v. (ground (arith, e, v), ground (arith, e, v)), λ h. ground (arith, e, h.0, h.1));
}

pub check_pin_auth-refused :
    (required set : Bool) (code : ℕ) (a : PinAuth)
    → check_pin_auth required set a ≡ refused code
    → code ≢ ctap2_ok
unfolding check_pin_auth
check_pin_auth-refused required set code a e = λ h. ground (arith, e, h)
