-- ===== src/Yubikey/Response.antt =====
-- The slots of src/oath/challenge_response.c: what is configured is what answers.
use open_fido.Common.{ℕ, ◌≤◌, ◌≡◌, ◌≢◌, List, take, Option, some, true, pos, arith}
use open_fido.Yubikey.{Slots, configure, respond, calculate_response}

-- A slot answers with the secret that it was given last, and the other slot as before.
configure-calculate :
    (hmac : List ℕ → List ℕ → Option (List ℕ)) (slot other : ℕ) (secret text : List ℕ) (s : Slots)
    → 1 ≤ slot
    → slot ≤ 2
    → 1 ≤ other
    → other ≤ 2
    → other ≢ slot
    → let (code, s') = configure slot (some secret) s in
      (code ≡ pos 0)
      × (calculate_response hmac slot (some text) true s'
          ≡ respond hmac (some (take 20 secret)) (some text) true)
      × (calculate_response hmac other (some text) true s'
          ≡ calculate_response hmac other (some text) true s)
unfolding configure calculate_response
configure-calculate hmac slot other secret text s low high low' high' n =
    (ground arith, ground arith, ground arith)
