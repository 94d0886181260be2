-- ===== src/Ctap2/Ceremonies/Registration.antt =====
-- What `ctap2_make_credential` of src/fido2/commands/ctap2_commands.c hands out, and what it has
-- checked and stored before.
use open_fido.Ctap2.Ceremonies.{
  make_auth_data, make_reply, is_es256, is_eddsa, make_signed, make_stored, make_with_keys,
  make_accepted, make_credential, MakeRequest, made, accepted, check_pin_auth,
  get_and_increment_counter, PinCheck, refused, or_zero,
}
use open_fido.Ctap2.Ceremonies.PinLaws.{PinPassed, check_pin_auth-PinPassed, check_pin_auth-refused}
use open_fido.Storage.Credentials.{store_credential, Cipher, Credential}
use open_fido.Common.{
  ◌⊎◌, ℕ, Bool, true, ◌||◌, List, ◌++◌, Option, some, none, ◌≡◌, arith, refl, Bool-cases, inl, inr,
  ◌≢◌,
}
use open_fido.Storage.Base.{State, Platform, Code, ok}
use open_fido.Storage.Pin.{is_pin_set}
use open_fido.U2f.{Board, user_presence, or_zero}
use open_fido.Ctap2.Base.{err_processing, err_unsupported_algorithm, ctap2_ok}
use open_fido.Storage.Device.{get_and_increment_counter}

module _ {W : Type 0} (p : Platform W) (cipher : Cipher) (board : Board W) (old : Credential)
    (ed25519 : W → Option (List ℕ × List ℕ) × W) (stack : List ℕ) where
  -- What stands behind a credential that was made.
  pub record Made (r : MakeRequest) (buffer : List ℕ) (s : State) (w : W)
      (response : Option (List ℕ)) (s' : State) : Type 0 where
    pub verified : Bool
    pub pin : PinPassed (r.rk || r.uv) (is_pin_set s) r.pin_auth verified
    pub pressed : (user_presence p cipher board old w).0 ≡ true
    pub known : (is_es256 r.algorithm ≡ true) ⊎ (is_eddsa r.algorithm ≡ true)
    pub credential : Credential
    pub of_rp : credential.rp_id_hash ≡ p.sha256 r.rp_id
    pub of_user : credential.user_id ≡ r.user_id
    pub of_kind : credential.resident ≡ r.rk
    pub before : W
    pub after : W
    pub stored : store_credential p cipher s' (some credential) before ≡ some (ok, after)
    pub public_key : List ℕ
    pub signature : List ℕ
    pub signed :
        (board.sign s'.attestation_key
          (p.sha256
            (make_auth_data stack verified r.algorithm credential public_key ++ r.client_data_hash))
          after).0
        ≡ some signature
    pub answer :
        (ctap2_ok, response)
        ≡ make_reply buffer
            (make_auth_data stack verified r.algorithm credential public_key)
            signature

  make_signed-ok :
      (auth_data buffer : List ℕ) (s s' : State) (w' : W) (signing : Option (List ℕ) × W)
      (response : Option (List ℕ))
      → make_signed p cipher board old ed25519 stack buffer auth_data s signing
        ≡ some ((ctap2_ok, response), s', w')
      → (signature : List ℕ) × (signing.0 ≡ some signature)
        × ((ctap2_ok, response) ≡ make_reply buffer auth_data signature)
        × (s' ≡ s)
  unfolding make_signed
  make_signed-ok auth_data buffer s s' w' (none, w) response e = absurd (ground (arith, e))
  make_signed-ok auth_data buffer s s' w' (some sig, w) response e =
      (sig, refl, ground (arith, e), ground (arith, e))

  make_stored-Made :
      (r : MakeRequest) (verified : Bool) (c : Credential) (public_key buffer : List ℕ)
      (s s1 s' : State) (w w1 w' : W) (response : Option (List ℕ)) (o : Option (Code × W))
      → PinPassed (r.rk || r.uv) (is_pin_set s) r.pin_auth verified
      → (user_presence p cipher board old w).0 ≡ true
      → (is_es256 r.algorithm ≡ true) ⊎ (is_eddsa r.algorithm ≡ true)
      → c.rp_id_hash ≡ p.sha256 r.rp_id
      → c.user_id ≡ r.user_id
      → c.resident ≡ r.rk
      → store_credential p cipher s1 (some c) w1 ≡ o
      → make_stored p cipher board old ed25519 stack r verified c public_key buffer s1 o
        ≡ some ((ctap2_ok, response), s', w')
      → Made r buffer s w response s'
  unfolding make_stored
  make_stored-Made r verified c public_key buffer s s1 s' w w1 w' response none pin pressed known rp
        user kind hit e =
      absurd (ground (arith, e))
  make_stored-Made r verified c public_key buffer s s1 s' w w1 w' response (some (ok, w2)) pin
        pressed known rp user kind hit e =
      let auth_data = make_auth_data stack verified r.algorithm c public_key in
      let signing = board.sign s1.attestation_key (p.sha256 (auth_data ++ r.client_data_hash)) w2 in
      let (signature, signed, answer, same) =
        make_signed-ok auth_data buffer s1 s' w' signing response e in
      record {
        verified = verified;
        pin = pin;
        pressed = pressed;
        known = known;
        credential = c;
        of_rp = rp;
        of_user = user;
        of_kind = kind;
        before = w1;
        after = w2;
        stored = rw same hit;
        public_key = public_key;
        signature = signature;
        signed = rw same signed;
        answer = answer;
      }
  make_stored-Made r verified c public_key buffer s s1 s' w w1 w' response (some (_, w2)) pin
        pressed known rp user kind hit e =
      absurd (ground (arith, e))

  make_with_keys-Made :
      (r : MakeRequest) (verified : Bool) (failure : ℕ) (buffer : List ℕ) (s s' : State) (w w' : W)
      (keys : Option (List ℕ × List ℕ) × W) (response : Option (List ℕ))
      → failure ≢ ctap2_ok
      → PinPassed (r.rk || r.uv) (is_pin_set s) r.pin_auth verified
      → (user_presence p cipher board old w).0 ≡ true
      → (is_es256 r.algorithm ≡ true) ⊎ (is_eddsa r.algorithm ≡ true)
      → make_with_keys p cipher board old ed25519 stack r verified failure buffer s keys
        ≡ some ((ctap2_ok, response), s', w')
      → Made r buffer s w response s'
  unfolding make_with_keys
  make_with_keys-Made r verified failure buffer s s' w w' (none, w1) response bad pin pressed known
        e =
      absurd (bad (ground (arith, e)))
  make_with_keys-Made r verified failure buffer s s' w w' (some (private_key, public_key), w1)
        response bad pin pressed known e =
      let id = p.random_generate 16 w1 in
      let drawn = get_and_increment_counter p s id.1 in
      let c = made p cipher board old ed25519 stack r id.0 private_key (or_zero drawn.0.1) in
      make_stored-Made r verified c public_key buffer s drawn.1 s' w drawn.2 w' response _ pin
        pressed known refl refl refl refl e

  make_accepted-Made :
      (r : MakeRequest) (verified : Bool) (buffer : List ℕ) (s s' : State) (w w' : W)
      (response : Option (List ℕ))
      → PinPassed (r.rk || r.uv) (is_pin_set s) r.pin_auth verified
      → make_accepted p cipher board old ed25519 stack r verified buffer s w
        ≡ some ((ctap2_ok, response), s', w')
      → Made r buffer s w response s'
  unfolding make_accepted
  make_accepted-Made r verified buffer s s' w w' response pin e =
      elim (Bool-cases (user_presence p cipher board old w).0) [
        | inr idle ↦ absurd (ground (arith, e, idle))
        | inl pressed ↦ elim (Bool-cases (is_es256 r.algorithm)) [
          | inl es256 ↦
              make_with_keys-Made r verified err_processing buffer s s' w w'
                (board.generate_keypair (user_presence p cipher board old w).1) response
                (λ h. ground (arith, h)) pin pressed (inl es256) (ground (arith, e, pressed, es256))
          | inr other ↦ elim (Bool-cases (is_eddsa r.algorithm)) [
            | inl eddsa ↦
                make_with_keys-Made r verified err_unsupported_algorithm buffer s s' w w'
                  (ed25519 (user_presence p cipher board old w).1) response (λ h. ground (arith, h))
                  pin pressed (inr eddsa) (ground (arith, e, pressed, other, eddsa))
            | inr unknown ↦ absurd (ground (arith, e, pressed, other, unknown))
          ]
        ]
      ]

  -- A credential that is made with success: where it is resident, or user verification is asked for,
  -- a PIN is set and a pinAuth of 16 bytes for protocol 1 is present, and the flag of user
  -- verification is set exactly with a pinAuth of 16 bytes. The button was pressed, the algorithm is
  -- ES256 or EdDSA, and a credential for the relying party and the user, resident as asked, was
  -- stored. The response is its authenticator data and a signature with the attestation key over that
  -- and the hash of the client data.
  pub make_credential-Made :
      (r : MakeRequest) (buffer : List ℕ) (response : Option (List ℕ)) (s s' : State) (w w' : W)
      → make_credential p cipher board old ed25519 stack r buffer s w
        ≡ some ((ctap2_ok, response), s', w')
      → Made r buffer s w response s'
  unfolding make_credential
  make_credential-Made r buffer response s s' w w' e = go _ refl e
    where
      go :
          (check : PinCheck)
          → check_pin_auth (r.rk || r.uv) (is_pin_set s) r.pin_auth ≡ check
          → make_credential p cipher board old ed25519 stack r buffer s w
            ≡ some ((ctap2_ok, response), s', w')
          → Made r buffer s w response s'
      go (refused code) checked h =
          let bad = check_pin_auth-refused _ _ code r.pin_auth checked in
          absurd (ground (arith, h, checked, bad))
      go (accepted verified) checked h =
          make_accepted-Made r verified buffer s s' w w' response
            (check_pin_auth-PinPassed _ _ verified r.pin_auth checked) (ground (arith, h, checked))
