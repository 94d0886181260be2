-- ===== src/Yubikey/Tests.antt =====
-- Runs of src/oath/yubikey_otp.c and src/oath/challenge_response.c, and a theorem at a concrete input.
use open_fido.Yubikey.{
  respond, Config, otp_generate, modhex_encode, modhex_decode, no_slots, configure,
  calculate_response,
}
use open_fido.Common.{◌≡◌, ◌≢◌, [], ◌∷◌, replicate, some, true, pos, arith, refl}
use open_fido.Yubikey.Otp.{Fits, used, otp_generate-fresh}

abbrev config : Config
config = record {
  public_id = 1 ∷ 2 ∷ 3 ∷ 4 ∷ 5 ∷ 6 ∷ [];
  private_id = 10 ∷ 20 ∷ 30 ∷ 40 ∷ 50 ∷ 60 ∷ [];
  counter = 7;
  timestamp_low = 8;
  timestamp_high = 9;
  session_use = 255;
  random = 11;
}

config-Fits : Fits config
config-Fits = record {
  public_bytes =
      (omega arith, (omega arith, (omega arith, (omega arith, (omega arith, (omega arith, tt))))));
  private_bytes =
      (omega arith, (omega arith, (omega arith, (omega arith, (omega arith, (omega arith, tt))))));
  public_length = refl;
  private_length = refl;
  counter = omega arith;
  low = omega arith;
  uses = omega arith;
}

-- "cicv"
modhex_run : modhex_encode (7 ∷ 15 ∷ []) ≡ 99 ∷ 105 ∷ 99 ∷ 118 ∷ []
unfolding modhex_encode
modhex_run = refl

-- A character outside the alphabet counts as 0.
unknown_character : modhex_decode (120 ∷ 105 ∷ 0 ∷ []) 2 ≡ 7 ∷ []
unfolding modhex_decode
unknown_character = refl

response_run :
    calculate_response
      (λ key text. some (key))
      2
      (some (5 ∷ []))
      true
      (configure 2 (some (replicate 20 3)) no_slots).1
    ≡ (pos 0, some (replicate 20 3))
unfolding calculate_response respond configure
response_run = refl

otp_generate-fresh_example : (otp_generate (used 3 config)).0 ≢ (otp_generate config).0
otp_generate-fresh_example = otp_generate-fresh config 3 config-Fits (omega arith) (omega arith)
