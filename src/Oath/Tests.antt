-- ===== src/Oath/Tests.antt =====
-- Runs of the OATH model at concrete inputs.
use open_fido.Common.{
  ℕ, ◌≡◌, refl, arith, List, ◌∷◌, Option, some, [], true, replicate, ◌++◌, ◌%◌, ◌^◌, length,
}
use open_fido.Oath.Operations.{add, compute, delete, IsValid, serve_all, serve_all-IsValid}
use open_fido.Oath.Table.{distinct}
use open_fido.Oath.{
  hotp_generate, State, Credential, has_name, counter_bytes, counter_bytes_from, truncate, code,
  modulo_from, reduce,
}
use open_fido.Common.Memory.{same_string, c_string, bytes_eq}
use open_fido.Oath.Hotp.{dynamic_truncation, big_endian, hotp_generate_lem}

abbrev named : ℕ → Credential
named n = record {
  name = n ∷ 0 ∷ [];
  type = 1;
  hash = 2;
  secret = 1 ∷ 2 ∷ 3 ∷ [];
  secret_len = 3;
  digits = 6;
  counter = 5;
  period = 30;
}

-- A MAC that answers the same 32 bytes to everything.
abbrev mac : List ℕ → List ℕ → Option (List ℕ)
mac key message = some (replicate 31 0x55 ++ (2 ∷ []))

abbrev two_entries : State
two_entries = record { credentials = named 65 ∷ named 66 ∷ []; initialized = true }

two_entries-IsValid : IsValid two_entries
unfolding distinct has_name same_string c_string bytes_eq
two_entries-IsValid = record { names_distinct = refl; fits = omega arith }

serve_all-IsValid_example :
    IsValid (serve_all mac (add (named 67) ∷ compute (65 ∷ []) ∷ delete (66 ∷ []) ∷ []) two_entries)
serve_all-IsValid_example =
    serve_all-IsValid mac (add (named 67) ∷ compute (65 ∷ []) ∷ delete (66 ∷ []) ∷ []) two_entries
      two_entries-IsValid

hotp_generate_lem_example :
    (hotp_generate mac (1 ∷ 2 ∷ 3 ∷ []) 3 5 6
      ≡ code (dynamic_truncation (replicate 31 0x55 ++ (2 ∷ [])) % 10 ^ 6))
    × (length (counter_bytes 5) ≡ 8)
    × (big_endian (counter_bytes 5) 0 ≡ 5)
hotp_generate_lem_example =
    hotp_generate_lem mac (1 ∷ 2 ∷ 3 ∷ []) 3 5 6 (replicate 31 0x55 ++ (2 ∷ [])) (omega arith) refl
      refl (search arith) (omega arith)

first_password : hotp_generate mac (1 ∷ 2 ∷ 3 ∷ []) 3 5 6 ≡ code (0x55555555 % 2 ^ 31 % 10 ^ 6)
unfolding hotp_generate counter_bytes counter_bytes_from truncate modulo_from reduce
first_password = refl
