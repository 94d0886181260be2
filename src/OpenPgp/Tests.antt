-- ===== src/OpenPgp/Tests.antt =====
-- Runs of src/openpgp/openpgp.c, and its theorems at concrete inputs.
use open_fido.Common.Memory.{c_string, bytes_eq}
use open_fido.OpenPgp.{
  handle_terminate, put_data, handle_put_data, try_pin, verify_pin, answer_verdict, handle_verify,
  State, Command, handle_apdu, init, default_pin_user,
}
use open_fido.Common.{ℕ, ◌≡◌, List, [], ◌∷◌, All, true, false, arith, refl}
use open_fido.OpenPgp.Laws.{run, SameCard, PresentsAdmin, run-SameCard, run-stays_blocked}
use open_fido.OpenPgp.Terminated.{run-terminated}
use open_fido.OpenPgp.PinLaws.{Guesses, commands, change_user, change_pin-unlimited}

abbrev verify_admin : List ℕ → Command
verify_admin pin = record { ins = 0x20; p1 = 0; p2 = 0x83; lc = 8; bytes = pin }

abbrev put_name : Command
put_name = record { ins = 0xDA; p1 = 0; p2 = 0x5B; lc = 2; bytes = 0x41 ∷ 0x42 ∷ [] }

abbrev wrong_pin : List ℕ
wrong_pin = 9 ∷ 9 ∷ 9 ∷ 9 ∷ 9 ∷ 9 ∷ 9 ∷ 9 ∷ []

abbrev right_pin : List ℕ
right_pin = 0x31 ∷ 0x32 ∷ 0x33 ∷ 0x34 ∷ 0x35 ∷ 0x36 ∷ 0x37 ∷ 0x38 ∷ []

abbrev blocked_card : State
blocked_card = record init { admin = record { verified = false; retries = 0; code = right_pin } }

put_run : (run (verify_admin right_pin ∷ put_name ∷ []) init).cardholder.name ≡ 0x41 ∷ 0x42 ∷ []
unfolding run handle_apdu init handle_verify answer_verdict verify_pin try_pin bytes_eq
    handle_put_data put_data c_string
put_run = refl

no_admin : All (λ c. ¬ PresentsAdmin right_pin c) (verify_admin wrong_pin ∷ put_name ∷ [])
no_admin = (λ p. ground (arith, p), (λ p. ground (arith, p), tt))

run-SameCard_example : SameCard init (run (verify_admin wrong_pin ∷ put_name ∷ []) init)
unfolding init
run-SameCard_example = run-SameCard (verify_admin wrong_pin ∷ put_name ∷ []) init refl no_admin

run-stays_blocked_example :
    SameCard blocked_card (run (verify_admin right_pin ∷ put_name ∷ []) blocked_card)
run-stays_blocked_example =
    run-stays_blocked (verify_admin right_pin ∷ put_name ∷ []) blocked_card refl refl

abbrev terminate : Command
terminate = record { ins = 0xE6; p1 = 0; p2 = 0; lc = 0; bytes = [] }

abbrev activate : Command
activate = record { ins = 0x44; p1 = 0; p2 = 0; lc = 0; bytes = [] }

abbrev to_end : List Command
to_end = verify_admin right_pin ∷ terminate ∷ []

end_run : (run to_end init).terminated ≡ true
unfolding run handle_apdu init handle_verify answer_verdict verify_pin try_pin bytes_eq
    handle_terminate
end_run = refl

run-terminated_example :
    (run (verify_admin wrong_pin ∷ put_name ∷ []) (run to_end init) ≡ run to_end init)
    × ((handle_apdu activate (run to_end init)).0.sw ≡ 0x9000)
    × ((handle_apdu activate (run to_end init)).1 ≡ record (run to_end init) { terminated = false })
run-terminated_example =
    run-terminated to_end (verify_admin wrong_pin ∷ put_name ∷ []) activate end_run
      (λ e. ground (arith, e), (λ e. ground (arith, e), tt))

abbrev new_pin : List ℕ
new_pin = 0x36 ∷ 0x35 ∷ 0x34 ∷ 0x33 ∷ 0x32 ∷ 0x31 ∷ []

abbrev no_retries : State
no_retries = record init {
  user = record { verified = false; retries = 0; code = default_pin_user };
}

guesses : Guesses default_pin_user (wrong_pin ∷ new_pin ∷ [])
guesses = (
  (λ e. ground (arith, e), (omega arith, omega arith)),
  ((λ e. ground (arith, e), (omega arith, omega arith)), tt),
)

change_pin-unlimited_example :
    let (r, s') =
      handle_apdu
        (change_user default_pin_user new_pin)
        (run (commands (wrong_pin ∷ new_pin ∷ [])) no_retries) in
    (r.sw ≡ 0x9000) × (s' ≡ record no_retries { user = record no_retries.user { code = new_pin } })
unfolding init
change_pin-unlimited_example =
    change_pin-unlimited (wrong_pin ∷ new_pin ∷ []) new_pin no_retries refl guesses refl
      (omega arith) (omega arith)
