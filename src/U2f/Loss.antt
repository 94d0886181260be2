-- ===== src/U2f/Loss.antt =====
-- What becomes of the credentials that src/fido2/core/u2f.c registers: the storage does not give them
-- back, whatever requests follow.
use open_fido.Common.{
  ℕ, Option, none, some, List, true, false, get_or, ◌≡◌, ◌≢◌, arith, refl, ◌∙◌, ◌+◌, sym, ◌<◌, ◌%◌,
  [], ◌^◌, subst, ◌++◌, ltb, Bool-cases, replicate, not, length, inl, ◌==◌, ◌-◌, inr, ℕ_discrete,
  ap, length-take, drop, length-drop, ◌&&◌, ◌≤◌, if-both,
}
use open_fido.Storage.Base.{Platform, State, Code, ok, FlashCredential}
use open_fido.Storage.Slots.{slot, slot_offset}
use open_fido.Storage.SlotLaws.{KeepsSlots}
use open_fido.Storage.Device.{get_and_increment_counter}
use open_fido.Storage.Credentials.{
  Cipher, Credential, find_credential, store_credential, write_sealed, store_in, serialize,
}
use open_fido.Storage.CredentialLaws.{
  AllSealed, IsAuthentic, KeepsRandom, find_free_slot-within, Stored-AllSealed, write_sealed-Stored,
  find_credential-not_ok,
}
use open_fido.U2f.{
  Board, Answer, user_presence, send_registration, attest, led_off, Led, led_blink_fast,
  register_keys, register_stored, register, new_credential, authenticate_found, application,
  sw_wrong_data, or_zero, process_apdu, sw_no_error, authenticate, data_field, key_handle,
  reads_key_handle,
}
use open_fido.U2f.Laws.{body_of, process_apdu-found}

-- The slots change only where a credential is written, and a write that fails leaves its slot alone.
pub record KeepsFlash {W : Type 0} (p : Platform W) (board : Board W) : Type 0 where
  pub keeps_slots : KeepsSlots p
  pub random : KeepsRandom p
  pub refused :
      (i : ℕ) (c : FlashCredential) (w : W)
      → (p.write_credential (slot_offset i) c w).0 ≡ false
      → slot p i (p.write_credential (slot_offset i) c w).1 ≡ slot p i w
  pub counter : (n j : ℕ) (w : W) → slot p j (p.write_counter n w).1 ≡ slot p j w
  pub led : (l : Led) (j : ℕ) (w : W) → slot p j (board.led_set_state l w) ≡ slot p j w
  pub button : (n j : ℕ) (w : W) → slot p j (board.button_wait_press n w).1 ≡ slot p j w
  pub keypair : (j : ℕ) (w : W) → slot p j (board.generate_keypair w).1 ≡ slot p j w
  pub signing : (k h : List ℕ) (j : ℕ) (w : W) → slot p j (board.sign k h w).1 ≡ slot p j w

module _ {W : Type 0} (p : Platform W) (cipher : Cipher) (board : Board W) (old : Credential) where
  -- The answer leaves a flash whose credentials were all stored.
  abbrev LeavesSealed : Option (Answer W) → Type 0
  LeavesSealed none = Unit
  LeavesSealed (some (a, s, w)) = AllSealed p cipher s w

  AllSealed-move :
      (s s' : State) (w w' : W)
      → AllSealed p cipher s w
      → s'.device_master_key ≡ s.device_master_key
      → ((j : ℕ) → slot p j w' ≡ slot p j w)
      → AllSealed p cipher s' w'
  AllSealed-move s s' w w' h key same i f e v =
      let sealed = h i f (sym (same i) ∙ e) v in
      record {
        aad = sealed.aad;
        text = sealed.text;
        ciphertext = sealed.ciphertext;
        has_rp = sealed.has_rp;
        sealed = rw key (sealed.sealed);
      }

  user_presence-AllSealed :
      (s : State) (w : W)
      → KeepsFlash p board
      → AllSealed p cipher s w
      → AllSealed p cipher s (user_presence p cipher board old w).1
  unfolding user_presence
  user_presence-AllSealed s w k h =
      AllSealed-move s s w _ h refl
        (λ j. k.led _ j _ ∙ k.button 30000 j _ ∙ k.led led_blink_fast j w)

  send_registration-LeavesSealed :
      (id public_key : List ℕ) (s : State) (signing : Option (List ℕ) × W)
      → KeepsFlash p board
      → AllSealed p cipher s signing.1
      → LeavesSealed (send_registration p cipher board old id public_key s signing)
  unfolding send_registration
  send_registration-LeavesSealed id public_key s (none, w) k h = h
  send_registration-LeavesSealed id public_key s (some sig, w) k h =
      AllSealed-move s s w _ h refl (λ j. k.led led_off j w)

  attest-LeavesSealed :
      (body id public_key : List ℕ) (s : State) (w : W)
      → KeepsFlash p board
      → AllSealed p cipher s w
      → LeavesSealed (attest p cipher board old body id public_key s w)
  unfolding attest
  attest-LeavesSealed body id public_key s w k h =
      send_registration-LeavesSealed id public_key s _ k
        (AllSealed-move s s w _ h refl (λ j. k.signing _ _ j w))

  counter-AllSealed :
      (s : State) (w : W)
      → KeepsFlash p board
      → AllSealed p cipher s w
      → let (_, s', w') = get_and_increment_counter p s w in AllSealed p cipher s' w'
  unfolding get_and_increment_counter
  counter-AllSealed s w k h =
      AllSealed-move s _ w _ h (ground arith)
        (λ j. let same = k.counter ((s.global_counter + 1) % 2 ^ 32) j w in ground (arith, same))

  write_sealed-AllSealed :
      (s : State) (c : Credential) (iv : List ℕ) (i : ℕ) (w : W)
      → KeepsFlash p board
      → i < 50
      → c.rp_id_hash ≢ []
      → AllSealed p cipher s w
      → AllSealed p cipher s
          (write_sealed p cipher c iv i w
            (cipher.encrypt s.device_master_key iv c.rp_id_hash (serialize c))).1
  unfolding write_sealed
  write_sealed-AllSealed s c iv i w k l has_rp h = go _ refl
    where
      go :
          (o : Option (List ℕ × List ℕ))
          → cipher.encrypt s.device_master_key iv c.rp_id_hash (serialize c) ≡ o
          → AllSealed p cipher s (write_sealed p cipher c iv i w o).1
      go none _ = h
      go (some (ciphertext, tag)) sealed =
          let f : FlashCredential = record {
            id = c.id;
            encrypted_data = ciphertext ++ replicate (400 - length ciphertext) 0;
            iv = iv;
            tag = tag;
            sign_count = c.sign_count;
            valid = true;
          } in
          let written = p.write_credential (slot_offset i) f w in
          elim (Bool-cases written.0) [
            | inl done ↦
                Stored-AllSealed p cipher s c w written.1
                  (write_sealed-Stored p cipher s c iv i w w written.1 k.keeps_slots l has_rp
                    (λ j. refl) (ground (arith, sealed, done)))
                  h
            | inr failed ↦ AllSealed-move s s w written.1 h refl (λ j. elim (ℕ_discrete i j) [
              | yes here ↦ ground (arith, here, k.refused i f w failed)
              | no other ↦ k.keeps_slots.others i j f w other
            ])
          ]

  store_in-AllSealed :
      (s : State) (c : Credential) (w w' : W) (code : Code) (place : Option ℕ)
      → KeepsFlash p board
      → c.rp_id_hash ≢ []
      → ((i : ℕ) → place ≡ some i → i < 50)
      → AllSealed p cipher s w
      → store_in p cipher s c w place ≡ some (code, w')
      → AllSealed p cipher s w'
  unfolding store_in
  store_in-AllSealed s c w w' code none k has_rp within h e =
      subst (AllSealed p cipher s) (ground (arith, e)) h
  store_in-AllSealed s c w w' code (some i) k has_rp within h e =
      let drawn = p.random_generate 12 w in
      let h' = AllSealed-move s s w drawn.1 h refl (λ j. k.random.slots 12 j w) in
      let kept = write_sealed-AllSealed s c drawn.0 i drawn.1 k (within i refl) has_rp h' in
      subst (AllSealed p cipher s) (ground (arith, e)) kept

  store_credential-AllSealed :
      (s : State) (c : Credential) (w w' : W) (code : Code)
      → KeepsFlash p board
      → c.rp_id_hash ≢ []
      → AllSealed p cipher s w
      → store_credential p cipher s (some c) w ≡ some (code, w')
      → AllSealed p cipher s w'
  unfolding store_credential
  store_credential-AllSealed s c w w' code k has_rp h e = elim (Bool-cases s.initialized) [
    | inl ready ↦
        store_in-AllSealed s c w w' code _ k has_rp (find_free_slot-within p cipher w) h
          (ground (arith, e, ready))
    | inr not_ready ↦ subst (AllSealed p cipher s) (ground (arith, e, not_ready)) h
  ]

  application-not_nil : (body : List ℕ) → ltb (length body) 64 ≡ false → application body ≢ []
  application-not_nil body long e =
      let short : length (application body) ≡ 0 = ap length e in
      let enough : 64 ≤ length body = ground (arith, long) in
      omega (arith, length-take 32 (drop 32 body), length-drop 32 body, short, enough)

  register_stored-LeavesSealed :
      (body id public_key : List ℕ) (s : State) (c : Credential) (w : W)
      → KeepsFlash p board
      → c.rp_id_hash ≢ []
      → AllSealed p cipher s w
      → (o : Option (Code × W)) → store_credential p cipher s (some c) w ≡ o
      → LeavesSealed (register_stored p cipher board old body id public_key s o)
  unfolding register_stored
  register_stored-LeavesSealed body id public_key s c w k has_rp h none e = tt
  register_stored-LeavesSealed body id public_key s c w k has_rp h (some (ok, w')) e =
      attest-LeavesSealed body id public_key s w' k
        (store_credential-AllSealed s c w w' ok k has_rp h e)
  register_stored-LeavesSealed body id public_key s c w k has_rp h (some (code, w')) e =
      store_credential-AllSealed s c w w' code k has_rp h e

  register_keys-LeavesSealed :
      (body : List ℕ) (s : State) (keys : Option (List ℕ × List ℕ) × W)
      → KeepsFlash p board
      → AllSealed p cipher s keys.1
      → LeavesSealed (register_keys p cipher board old body s keys)
  unfolding register_keys
  register_keys-LeavesSealed body s (none, w) k h = h
  register_keys-LeavesSealed body s (some (private_key, public_key), w) k h =
      let drawn = p.random_generate 16 w in
      let h1 = AllSealed-move s s w drawn.1 h refl (λ j. k.random.slots 16 j w) in
      let counted = get_and_increment_counter p s drawn.1 in
      let h2 = counter-AllSealed s drawn.1 k h1 in
      let c = new_credential drawn.0 (application body) private_key (or_zero counted.0.1) in
      elim (Bool-cases (ltb (length body) 64)) [
        | inl short ↦ rw short tt
        | inr long ↦ rw long (
            register_stored-LeavesSealed body drawn.0 public_key counted.1 c counted.2 k
              (application-not_nil body long) h2 _ refl)
      ]

  register-LeavesSealed :
      (body : List ℕ) (data_len : ℕ) (s : State) (w : W)
      → KeepsFlash p board
      → AllSealed p cipher s w
      → LeavesSealed (register p cipher board old body data_len s w)
  unfolding register
  register-LeavesSealed body data_len s w k h =
      let asked = user_presence p cipher board old w in
      let h1 = user_presence-AllSealed s w k h in
      let h2 = AllSealed-move s s asked.1 _ h1 refl (λ j. k.keypair j asked.1) in
      if-both LeavesSealed (not (data_len == 64)) _ _ h (
        if-both LeavesSealed (not asked.0) _ _ h1
          (register_keys-LeavesSealed body s (board.generate_keypair asked.1) k h2))

  -- On such a flash no key handle is known.
  authenticate_found-refused :
      (body id : List ℕ) (p1 : ℕ) (s : State) (w : W)
      → IsAuthentic cipher
      → AllSealed p cipher s w
      → authenticate_found p cipher board old body p1 s w
          (find_credential p cipher s (some id) old w)
        ≡ some ((sw_wrong_data, none), s, w)
  unfolding authenticate_found
  authenticate_found-refused body id p1 s w a h =
      let (code, found, bad) = find_credential-not_ok p cipher s old id w a h in go code found bad
    where
      go :
          (code : Code)
          → find_credential p cipher s (some id) old w ≡ some (code, old)
          → code ≢ ok
          → authenticate_found p cipher board old body p1 s w
              (find_credential p cipher s (some id) old w)
            ≡ some ((sw_wrong_data, none), s, w)
      go ok found bad = absurd (bad refl)
      go _ found bad = rw found refl

  process_apdu-LeavesSealed :
      (request : List ℕ) (s : State) (w : W)
      → KeepsFlash p board
      → IsAuthentic cipher
      → AllSealed p cipher s w
      → LeavesSealed (process_apdu p cipher board old request s w)
  unfolding process_apdu authenticate
  process_apdu-LeavesSealed request s w k a h =
      let body = body_of p cipher board old request in
      let len = (data_field request).1 in
      let registered = register-LeavesSealed body len s w k h in
      let refused =
        authenticate_found-refused body (key_handle body) (get_or request 2 0) s w a h in
      if-both LeavesSealed (ltb (length request) 4) _ _ h (
        if-both LeavesSealed (get_or request 1 0 == 3) _ _
          (if-both LeavesSealed (not (len == 0)) _ _ h h)
          (if-both LeavesSealed (get_or request 1 0 == 1) _ _ registered (
            if-both LeavesSealed (get_or request 1 0 == 2) _ _
              (if-both LeavesSealed (ltb len 65) _ _ h (
                if-both LeavesSealed (ltb (length body) 65) _ _ tt (
                  if-both LeavesSealed (ltb len (65 + get_or body 64 0)) _ _ h (
                    if-both LeavesSealed
                      (ltb (length body) 81 && reads_key_handle p cipher board old s w) _ _ tt
                      (rw refused h)))))
              h)))

  -- The requests that a device serves, one after another.
  pub data Served : State → W → State → W → Type 0 where
    start : (s : State) (w : W) → Served s w s w
    serve :
        (request : List ℕ) (a : ℕ × Option (List ℕ)) (s s' s'' : State) (w w' w'' : W)
        → Served s w s' w'
        → process_apdu p cipher board old request s' w' ≡ some (a, s'', w'')
        → Served s w s'' w''

  Served-AllSealed :
      (s s' : State) (w w' : W)
      → KeepsFlash p board
      → IsAuthentic cipher
      → AllSealed p cipher s w
      → Served s w s' w'
      → AllSealed p cipher s' w'
  Served-AllSealed s s' w w' k a h (start _ _) = h
  Served-AllSealed s s' w w' k a h (serve request answer _ s1 _ _ w1 _ before e) =
      let h1 = Served-AllSealed s s1 w w1 k a h before in
      subst LeavesSealed e (process_apdu-LeavesSealed request s1 w1 k a h1)

  -- On a device that starts with a flash whose credentials were all stored by the code, such as an
  -- empty one, no authentication succeeds, whatever requests were served before, registrations that
  -- were answered with success included. The flash keeps what is written to it and changes nowhere
  -- else, a write that fails changes nothing, and decryption fails for additional data other than
  -- that of the encryption.
  pub served-no_assertion :
      (request : List ℕ) (r : Option (List ℕ)) (s s' s'' : State) (w w' w'' : W)
      → KeepsFlash p board
      → IsAuthentic cipher
      → AllSealed p cipher s w
      → Served s w s' w'
      → get_or request 1 0 ≡ 2
      → process_apdu p cipher board old request s' w' ≢ some ((sw_no_error, r), s'', w'')
  served-no_assertion request r s s' s'' w w' w'' k a h before ins e =
      let h' = Served-AllSealed s s' w w' k a h before in
      let body = body_of p cipher board old request in
      let found = process_apdu-found p cipher board old request r s' s'' w' w'' ins e in
      let refused =
        authenticate_found-refused body (key_handle body) (get_or request 2 0) s' w' a h' in
      let same = sym found ∙ refused in ground (arith, same)
