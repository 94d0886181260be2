-- ===== src/Ctap2/Ceremonies/Assertion.antt =====
-- What `ctap2_get_assertion` of src/fido2/commands/ctap2_commands.c hands out, and what it has
-- checked before.
use open_fido.Ctap2.Ceremonies.PinLaws.{PinPassed, check_pin_auth-PinPassed, check_pin_auth-refused}
use open_fido.Common.{
  ℕ, Bool, true, false, not, ◌||◌, List, [], ◌∷◌, ◌++◌, Option, some, none, ◌≡◌, ◌+◌, ◌%◌, ◌^◌,
  arith, refl, Bool-cases, inl, inr, sym, ◌∙◌, append_assoc, ap,
}
use open_fido.Common.Memory.{bytes_eq, bytes_eq→eq}
use open_fido.Storage.Base.{State, Platform, Code, ok}
use open_fido.Storage.Pin.{is_pin_set}
use open_fido.Storage.Credentials.{Cipher, Credential, find_credential, find_credentials_by_rp}
use open_fido.U2f.{Board, user_presence, or_zero}
use open_fido.Storage.Ready.{
  counter_drawn, find_credential-initialized, find_credentials_by_rp-initialized,
}
use open_fido.Ctap2.Base.{ctap2_ok}
use open_fido.Ctap2.Ceremonies.{
  accepted, check_pin_auth, AssertRequest, has_allowed, find_allowed, find_discovered,
  assert_auth_data, assert_reply, assert_signed, assert_pressed, assert_found,
  get_and_increment_counter, PinCheck, refused, or_zero, update_sign_count, get_assertion,
  assert_accepted,
}
use open_fido.Storage.Device.{get_and_increment_counter}
use open_fido.Storage.Slots.{update_sign_count}

module _ {W : Type 0} (p : Platform W) (cipher : Cipher) (board : Board W) (old : Credential)
    (olds : List Credential) where
  -- Where the credential of an assertion comes from.
  pub data Found (r : AssertRequest) (s : State) (w : W) (c : Credential) : Type 0 where
    listed :
        (before after : List (List ℕ)) (id : List ℕ) (c0 : Credential)
        → r.allow_list ≡ before ++ id ∷ after
        → find_credential p cipher s (some id) c0 w ≡ some (ok, c)
        → c.rp_id_hash ≡ p.sha256 r.rp_id
        → Found r s w c
    discovered :
        (cs : List Credential)
        → has_allowed r ≡ false
        → find_credentials_by_rp p cipher s (some (p.sha256 r.rp_id)) olds w ≡ some (ok, c ∷ cs)
        → Found r s w c

  -- What stands behind an assertion that is handed out.
  pub record Asserted (r : AssertRequest) (buffer : List ℕ) (s : State) (w : W)
      (response : Option (List ℕ)) (s' : State) : Type 0 where
    pub credential : Credential
    pub found : Found r s w credential
    pub verified : Bool
    pub pin : PinPassed (not (has_allowed r) || r.uv) (is_pin_set s) r.pin_auth verified
    pub pressed : (user_presence p cipher board old w).0 ≡ true
    pub counter : ℕ
    pub reported : counter ≡ s.global_counter
    pub before : W
    pub signature : List ℕ
    pub signed :
        (board.sign credential.private_key
          (p.sha256 (assert_auth_data (p.sha256 r.rp_id) verified counter ++ r.client_data_hash))
          before).0
        ≡ some signature
    pub answer :
        (ctap2_ok, response)
        ≡ assert_reply buffer credential
            (assert_auth_data (p.sha256 r.rp_id) verified counter)
            signature
    pub counted : s'.global_counter ≡ (s.global_counter + 1) % 2 ^ 32

  find_allowed-listed :
      (r : AssertRequest) (s : State) (w : W) (before ids : List (List ℕ)) (c0 c : Credential)
      → r.allow_list ≡ before ++ ids
      → find_allowed p cipher ids (p.sha256 r.rp_id) c0 s w ≡ some (some c)
      → Found r s w c
  unfolding find_allowed
  find_allowed-listed r s w before [] c0 c split e = absurd (ground (arith, e))
  find_allowed-listed r s w before (id ∷ ids) c0 c split e =
      let split' : r.allow_list ≡ (before ++ id ∷ []) ++ ids =
        split ∙ sym (append_assoc before (id ∷ []) ids) in
      go (λ c1. find_allowed-listed r s w (before ++ id ∷ []) ids c1 c split') _ refl e
    where
      go :
          ((c1 : Credential)
            → find_allowed p cipher ids (p.sha256 r.rp_id) c1 s w ≡ some (some c)
            → Found r s w c)
          → (o : Option (Code × Credential)) → find_credential p cipher s (some id) c0 w ≡ o
          → find_allowed p cipher (id ∷ ids) (p.sha256 r.rp_id) c0 s w ≡ some (some c)
          → Found r s w c
      go later none hit h = absurd (ground (arith, h, hit))
      go later (some (ok, c1)) hit h =
          elim (Bool-cases (bytes_eq c1.rp_id_hash (p.sha256 r.rp_id))) [
            | inl same ↦
                let it : c1 ≡ c = ground (arith, h, hit, same) in
                listed before ids id c0 split (rw (sym it) hit) (rw (sym it) (bytes_eq→eq _ _ same))
            | inr differs ↦ later c1 (ground (arith, h, hit, differs))
          ]
      go later (some (code, c1)) hit h = later c1 (ground (arith, h, hit))

  find_discovered-discovered :
      (r : AssertRequest) (s : State) (w : W) (c : Credential)
      → has_allowed r ≡ false
      → find_discovered p cipher olds (p.sha256 r.rp_id) s w ≡ some (some c)
      → Found r s w c
  unfolding find_discovered
  find_discovered-discovered r s w c none_listed e = go _ refl e
    where
      go :
          (o : Option (Code × List Credential))
          → find_credentials_by_rp p cipher s (some (p.sha256 r.rp_id)) olds w ≡ o
          → find_discovered p cipher olds (p.sha256 r.rp_id) s w ≡ some (some c)
          → Found r s w c
      go none hit h = absurd (ground (arith, h, hit))
      go (some (ok, [])) hit h = absurd (ground (arith, h, hit))
      go (some (ok, c1 ∷ cs)) hit h =
          let it : c1 ≡ c = ground (arith, h, hit) in discovered cs none_listed (rw (sym it) hit)
      go (some (code, cs)) hit h = absurd (ground (arith, h, hit))

  Found-initialized :
      (r : AssertRequest) (s : State) (w : W) (c : Credential)
      → Found r s w c
      → s.initialized ≡ true
  Found-initialized r s w c (listed before after id c0 split hit same) =
      find_credential-initialized p cipher s (some id) c0 c w hit
  Found-initialized r s w c (discovered cs none_listed hit) =
      find_credentials_by_rp-initialized p cipher s (p.sha256 r.rp_id) olds cs c w hit

  assert_signed-ok :
      (c : Credential) (auth_data buffer : List ℕ) (s s' : State) (w' : W)
      (signing : Option (List ℕ) × W) (response : Option (List ℕ))
      → assert_signed p cipher board old olds c auth_data buffer s signing
        ≡ some ((ctap2_ok, response), s', w')
      → (signature : List ℕ) × (signing.0 ≡ some signature)
        × ((ctap2_ok, response) ≡ assert_reply buffer c auth_data signature)
        × (s' ≡ s)
  unfolding assert_signed
  assert_signed-ok c auth_data buffer s s' w' (none, w) response e = absurd (ground (arith, e))
  assert_signed-ok c auth_data buffer s s' w' (some sig, w) response e =
      (sig, refl, ground (arith, e), ground (arith, e))

  assert_pressed-Asserted :
      (r : AssertRequest) (verified : Bool) (c : Credential) (buffer : List ℕ) (s s' : State)
      (w w1 w' : W) (response : Option (List ℕ))
      → Found r s w c
      → s.initialized ≡ true
      → PinPassed (not (has_allowed r) || r.uv) (is_pin_set s) r.pin_auth verified
      → (user_presence p cipher board old w).0 ≡ true
      → assert_pressed p cipher board old olds r verified c buffer s w1
        ≡ some ((ctap2_ok, response), s', w')
      → Asserted r buffer s w response s'
  assert_pressed-Asserted r verified c buffer s s' w w1 w' response found ready pin pressed e =
      let drawn = get_and_increment_counter p s w1 in
      let counter = or_zero drawn.0.1 in
      let (drawn_now, next) = counter_drawn p s w1 ready in
      let updated = update_sign_count p drawn.1 (some c.id) counter drawn.2 in
      let auth_data = assert_auth_data (p.sha256 r.rp_id) verified counter in
      let signing =
        board.sign c.private_key (p.sha256 (auth_data ++ r.client_data_hash)) updated.1 in
      let sent : assert_signed p cipher board old olds c auth_data buffer drawn.1 signing
          ≡ some ((ctap2_ok, response), s', w') =
        unfold assert_pressed in e in
      let (signature, signed, answer, same_state) =
        assert_signed-ok c auth_data buffer drawn.1 s' w' signing response sent in
      record {
        credential = c;
        found = found;
        verified = verified;
        pin = pin;
        pressed = pressed;
        counter = counter;
        reported = ap or_zero drawn_now;
        before = updated.1;
        signature = signature;
        signed = signed;
        answer = answer;
        counted = rw same_state next;
      }

  assert_found-Asserted :
      (r : AssertRequest) (buffer : List ℕ) (s s' : State) (w w' : W) (response : Option (List ℕ))
      (o : Option (Option Credential))
      → ((c : Credential) → o ≡ some (some c) → (s.initialized ≡ true) × Found r s w c)
      → assert_found p cipher board old olds r buffer s w o ≡ some ((ctap2_ok, response), s', w')
      → Asserted r buffer s w response s'
  unfolding assert_found
  assert_found-Asserted r buffer s s' w w' response none found e = absurd (ground (arith, e))
  assert_found-Asserted r buffer s s' w w' response (some none) found e = absurd (ground (arith, e))
  assert_found-Asserted r buffer s s' w w' response (some (some c)) found e = go _ refl e
    where
      go :
          (check : PinCheck)
          → check_pin_auth (not (has_allowed r) || r.uv) (is_pin_set s) r.pin_auth ≡ check
          → assert_found p cipher board old olds r buffer s w (some (some c))
            ≡ some ((ctap2_ok, response), s', w')
          → Asserted r buffer s w response s'
      go (refused code) checked h =
          absurd (check_pin_auth-refused _ _ code r.pin_auth checked (ground (arith, h, checked)))
      go (accepted verified) checked h =
          let passed = check_pin_auth-PinPassed _ _ verified r.pin_auth checked in
          let (ready, from) = found c refl in
          elim (Bool-cases (user_presence p cipher board old w).0) [
            | inr idle ↦ absurd (unfold assert_accepted in ground (arith, h, checked, idle))
            | inl pressed ↦
                assert_pressed-Asserted r verified c buffer s s' w
                  (user_presence p cipher board old w).1 w' response from ready passed pressed
                  (unfold assert_accepted in ground (arith, h, checked, pressed))
          ]

  -- A successful assertion: the credential was found, by an id of the allow list and for the relying
  -- party, or as the first of the relying party where there is no allow list. Without an allow list,
  -- or where user verification is asked for, a PIN is set and a pinAuth of 16 bytes for protocol 1
  -- is present; the flag of user verification is set exactly with a pinAuth of 16 bytes. The button
  -- was pressed; the response is built from that credential, the authenticator data and a signature
  -- with its key over the authenticator data and the hash of the client data. The counter reported
  -- is the device's, which goes up by one, modulo 2^32.
  pub get_assertion-Asserted :
      (r : AssertRequest) (buffer : List ℕ) (response : Option (List ℕ)) (s s' : State) (w w' : W)
      → get_assertion p cipher board old olds r buffer s w ≡ some ((ctap2_ok, response), s', w')
      → Asserted r buffer s w response s'
  unfolding get_assertion
  get_assertion-Asserted r buffer response s s' w w' e =
      elim (Bool-cases (not r.has_rp_id || not r.has_client_data_hash)) [
        | inl missing ↦ absurd (ground (arith, e, missing))
        | inr complete ↦ elim (Bool-cases (has_allowed r)) [
          | inl allowed ↦
              assert_found-Asserted r buffer s s' w w' response _
                (λ c hit.
                  let it = find_allowed-listed r s w [] r.allow_list old c refl hit in
                  (Found-initialized r s w c it, it))
                (ground (arith, e, complete, allowed))
          | inr all ↦
              assert_found-Asserted r buffer s s' w w' response _
                (λ c hit.
                  let it = find_discovered-discovered r s w c all hit in
                  (Found-initialized r s w c it, it))
                (ground (arith, e, complete, all))
        ]
      ]
