-- ===== src/Piv/Tests.antt =====
-- Runs of the PIV model at concrete inputs.
use open_fido.Common.{◌≡◌, List, false, [], ◌∷◌, replicate, some, arith, refl, ◌<◌, All, IsByte}
use open_fido.Piv.{State, Command, init, handle_apdu, handle_verify, handle_put_data, bytes_eq}
use open_fido.Piv.Laws.{run, run-SameSecrets, SameSecrets}
use open_fido.Piv.Blocked.{run-blocked}
use open_fido.Common.Memory.{bytes_eq}

-- A VERIFY with the wrong PIN 000000.
abbrev wrong : Command
wrong = record { ins = 0x20; p2 = 0x80; lc = 6; bytes = replicate 255 0x30 }

-- An attempt to store a certificate.
abbrev put : Command
put = record { ins = 0xDB; p2 = 0; lc = 8; bytes = replicate 255 0x5C }

abbrev right : Command
right = record {
  ins = 0x20;
  p2 = 0x80;
  lc = 6;
  bytes = 0x31 ∷ 0x32 ∷ 0x33 ∷ 0x34 ∷ 0x35 ∷ 0x36 ∷ replicate 249 0;
}

abbrev tried : State
tried = record init { pin_retries = 2 }

run-tried : run (wrong ∷ put ∷ []) init ≡ some tried
unfolding run handle_apdu handle_verify handle_put_data init bytes_eq
run-tried = refl

run-SameSecrets_example : SameSecrets init tried
unfolding init
run-SameSecrets_example =
    run-SameSecrets (wrong ∷ put ∷ []) init tried refl
      (λ p. ground (arith, p.1), (λ p. omega (arith, p.0), tt)) run-tried

abbrev blocked : State
blocked = record init { pin_retries = 0 }

-- Also after the PIN was given once.
abbrev guesses : List Command
guesses = right ∷ wrong ∷ wrong ∷ wrong ∷ []

run-guesses : run guesses init ≡ some blocked
unfolding run handle_apdu handle_verify init bytes_eq
run-guesses = refl

guesses-IsByte : All (λ (c : Command). All IsByte c.bytes) guesses
guesses-IsByte = search arith

run-blocked_example :
    (blocked.pin_verified ≡ false) × (run (wrong ∷ right ∷ put ∷ []) blocked ≡ some blocked)
unfolding init
run-blocked_example =
    run-blocked guesses (wrong ∷ right ∷ put ∷ []) blocked guesses-IsByte run-guesses refl

init_retries : init.pin_retries < 256
unfolding init
init_retries = omega arith
