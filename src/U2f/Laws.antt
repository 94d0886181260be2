-- ===== src/U2f/Laws.antt =====
-- What src/fido2/core/u2f.c answers to an authentication, and when it asks for the user's presence.
use open_fido.Common.{
  ℕ, Option, none, some, List, drop, true, get_or, ◌++◌, ◌≡◌, ◌≢◌, ◌+◌, ◌%◌, ◌^◌, arith, refl,
  Bool-cases, inl, inr, ◌==◌, ap,
}
use open_fido.Common.Memory.{bytes_eq, bytes_eq→eq}
use open_fido.Storage.Base.{Platform, State, Code, ok}
use open_fido.Storage.Device.{get_and_increment_counter}
use open_fido.Storage.Credentials.{Cipher, Credential, find_credential}
use open_fido.Storage.Ready.{counter_drawn, find_credential-initialized}
use open_fido.U2f.{
  Board, process_apdu, key_handle, data_field, authenticated, sw_no_error, application,
  user_presence, auth_check_only, authentication_data, challenge, auth_data, der_signature,
  send_assertion, or_zero, authenticate_found, update_sign_count, authenticate,
}
use open_fido.Storage.Slots.{update_sign_count}

module _ {W : Type 0} (p : Platform W) (cipher : Cipher) (board : Board W) (old : Credential) where
  -- The data of a request.
  abbrev pub body_of : List ℕ → List ℕ
  body_of request = drop (data_field request).0 request

  -- What stands behind a signature that an authentication hands out.
  pub record Authenticated (request : List ℕ) (s : State) (w : W) (response : List ℕ) (s' : State)
      : Type 0 where
    pub credential : Credential
    pub found :
        find_credential p cipher s (some (key_handle (body_of request))) old w
        ≡ some (ok, credential)
    pub same_rp : credential.rp_id_hash ≡ application (body_of request)
    pub pressed : (user_presence p cipher board old w).0 ≡ true
    pub signs : get_or request 2 0 ≢ auth_check_only
    pub counter : ℕ
    pub reported : counter ≡ s.global_counter
    pub before : W
    pub signature : List ℕ
    pub signed :
        (board.sign credential.private_key
          (p.sha256 (
            authentication_data
              (application (body_of request))
              (challenge (body_of request))
              counter))
          before).0
        ≡ some signature
    pub answer : response ≡ auth_data counter ++ der_signature signature
    pub counted : s'.global_counter ≡ (s.global_counter + 1) % 2 ^ 32

  send_assertion-ok :
      (counter : ℕ) (response : List ℕ) (s s' : State) (signing : Option (List ℕ) × W) (w' : W)
      → send_assertion p cipher board old counter s signing
        ≡ some ((sw_no_error, some response), s', w')
      → (signature : List ℕ) × (signing.0 ≡ some signature)
        × (response ≡ auth_data counter ++ der_signature signature)
        × (s' ≡ s)
  unfolding send_assertion
  send_assertion-ok counter response s s' (none, w) w' e = absurd (ground (arith, e))
  send_assertion-ok counter response s s' (some sig, w) w' e =
      (sig, refl, ground (arith, e), ground (arith, e))

  authenticated_lem :
      (request response : List ℕ) (c : Credential) (s s' : State) (w w' w'' : W)
      → find_credential p cipher s (some (key_handle (body_of request))) old w ≡ some (ok, c)
      → c.rp_id_hash ≡ application (body_of request)
      → (user_presence p cipher board old w).0 ≡ true
      → get_or request 2 0 ≢ auth_check_only
      → authenticated p cipher board old (body_of request) c s w'
        ≡ some ((sw_no_error, some response), s', w'')
      → Authenticated request s w response s'
  authenticated_lem request response c s s' w w' w'' found same pressed signs e =
      let body = body_of request in
      let ready = find_credential-initialized p cipher s (some (key_handle body)) old c w found in
      let drawn = get_and_increment_counter p s w' in
      let counter = or_zero drawn.0.1 in
      let (drawn_now, next) = counter_drawn p s w' ready in
      let updated = update_sign_count p drawn.1 (some (key_handle body)) counter drawn.2 in
      let hash = p.sha256 (authentication_data (application body) (challenge body) counter) in
      let signing = board.sign c.private_key hash updated.1 in
      let sent : send_assertion p cipher board old counter drawn.1 signing
          ≡ some ((sw_no_error, some response), s', w'') =
        unfold authenticated in e in
      let (signature, signed, answer, same_state) =
        send_assertion-ok counter response drawn.1 s' signing w'' sent in
      record {
        credential = c;
        found = found;
        same_rp = same;
        pressed = pressed;
        signs = signs;
        counter = counter;
        reported = ap or_zero drawn_now;
        before = updated.1;
        signature = signature;
        signed = signed;
        answer = answer;
        counted = rw same_state next;
      }

  authenticate_found-Authenticated :
      (request response : List ℕ) (s s' : State) (w w' : W) (o : Option (Code × Credential))
      → find_credential p cipher s (some (key_handle (body_of request))) old w ≡ o
      → authenticate_found p cipher board old (body_of request) (get_or request 2 0) s w o
        ≡ some ((sw_no_error, some response), s', w')
      → Authenticated request s w response s'
  unfolding authenticate_found
  authenticate_found-Authenticated request response s s' w w' none found e =
      absurd (ground (arith, e))
  authenticate_found-Authenticated request response s s' w w' (some (ok, c)) found e =
      elim (Bool-cases (bytes_eq c.rp_id_hash (application (body_of request)))) [
        | inr differs ↦ absurd (ground (arith, e, differs))
        | inl same ↦ elim (Bool-cases (get_or request 2 0 == auth_check_only)) [
          | inl checks ↦ absurd (ground (arith, e, same, checks))
          | inr signs ↦ elim (Bool-cases (user_presence p cipher board old w).0) [
            | inr refused ↦ absurd (ground (arith, e, same, signs, refused))
            | inl pressed ↦
                authenticated_lem request response c s s' w (user_presence p cipher board old w).1
                  w' found (bytes_eq→eq _ _ same) pressed (ground (arith, signs))
                  (ground (arith, e, same, signs, pressed))
          ]
        ]
      ]
  authenticate_found-Authenticated request response s s' w w' (some (_, c)) found e =
      absurd (ground (arith, e))

  -- A successful authentication comes from a credential that was looked for.
  pub process_apdu-found :
      (request : List ℕ) (r : Option (List ℕ)) (s s' : State) (w w' : W)
      → get_or request 1 0 ≡ 2
      → process_apdu p cipher board old request s w ≡ some ((sw_no_error, r), s', w')
      → authenticate_found p cipher board old
          (body_of request)
          (get_or request 2 0)
          s
          w
          (find_credential p cipher s (some (key_handle (body_of request))) old w)
        ≡ some ((sw_no_error, r), s', w')
  unfolding process_apdu authenticate
  process_apdu-found request r s s' w w' ins e = ground (arith, ins, e)

  -- A successful answer to an authentication: the storage has the credential of the key handle, for
  -- the application of the request; the request does more than check, the button was pressed, and
  -- the response is the counter and a signature with that credential's key over the application,
  -- the counter and the challenge. The counter goes up by one, modulo 2^32.
  pub process_apdu-Authenticated :
      (request response : List ℕ) (s s' : State) (w w' : W)
      → get_or request 1 0 ≡ 2
      → process_apdu p cipher board old request s w ≡ some ((sw_no_error, some response), s', w')
      → Authenticated request s w response s'
  process_apdu-Authenticated request response s s' w w' ins e =
      authenticate_found-Authenticated request response s s' w w' _ refl
        (process_apdu-found request (some response) s s' w w' ins e)
