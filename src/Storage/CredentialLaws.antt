-- ===== src/Storage/CredentialLaws.antt =====
-- What of the credentials that src/storage/storage.c stores comes back from the flash.
use open_fido.Common.{
  ℕ, zero, suc, ◌+◌, ◌≤◌, ◌<◌, ◌≡◌, ◌≢◌, Bool, true, List, [], ◌∷◌, ◌++◌, length, Option, none,
  some, arith, refl, sym, ◌∙◌, Bool-cases, inl, inr, ℕ_discrete, subst, ◌↔◌, not, replicate, ◌-◌,
}
use open_fido.Storage.Credentials.{
  Cipher, serialize, open_slot, Credential, text_of, residents_from, find_credential, by_rp_from,
  find_credentials_by_rp, get_resident_credential_count, find_in, write_sealed, store_in,
  store_credential,
}
use open_fido.Storage.Base.{
  Platform, State, FlashCredential, corrupted, ok, Code, not_found, invalid_param,
}
use open_fido.Storage.Slots.{
  slot, passes, search_from, is_credential, search_slots, find_free_slot, slot_offset,
}
use open_fido.Common.Memory.{bytes_eq_refl}
use open_fido.Storage.SlotLaws.{search_from-found, KeepsSlots}

-- What is documented of GCM: with other additional data the tag does not fit.
pub record IsAuthentic (cipher : Cipher) : Type 0 where
  pub authentic :
      (key iv aad aad' text ciphertext other tag : List ℕ)
      → cipher.encrypt key iv aad text ≡ some (ciphertext, tag)
      → aad' ≢ aad
      → cipher.decrypt key iv aad' other tag ≡ none

-- Drawing random numbers does not write to the slots.
pub record KeepsRandom {W : Type 0} (p : Platform W) : Type 0 where
  pub slots : (n i : ℕ) (w : W) → slot p i (p.random_generate n w).1 ≡ slot p i w

-- The slot holds what was encrypted with an RP as its additional data.
pub record IsSealed (cipher : Cipher) (s : State) (f : FlashCredential) : Type 0 where
  pub aad : List ℕ
  pub text : List ℕ
  pub ciphertext : List ℕ
  pub has_rp : aad ≢ []
  pub sealed : cipher.encrypt s.device_master_key f.iv aad text ≡ some (ciphertext, f.tag)

module _ {W : Type 0} (p : Platform W) (cipher : Cipher) where
  -- Every valid credential in the flash was sealed so.
  abbrev pub AllSealed : State → W → Type 0
  AllSealed s w =
      (i : ℕ) (f : FlashCredential) → slot p i w ≡ some f → f.valid ≡ true → IsSealed cipher s f

  pub open_slot-none :
      (s : State) (f : FlashCredential)
      → IsAuthentic cipher
      → IsSealed cipher s f
      → open_slot p cipher s f ≡ none
  unfolding open_slot
  open_slot-none s f a h =
      a.authentic s.device_master_key f.iv h.aad [] h.text h.ciphertext f.encrypted_data f.tag
        h.sealed (λ e. h.has_rp (sym e))

  search_from_hit :
      (test : FlashCredential → Bool) (i rounds j : ℕ) (w : W)
      → i ≤ j
      → j < i + rounds
      → passes p test (slot p j w) ≡ true
      → (k : ℕ) × (f : FlashCredential) × (search_from p test i rounds w ≡ some (k, f))
  unfolding search_from
  search_from_hit test i zero j w h l t = absurd (omega arith)
  search_from_hit test i (suc rounds) j w h l t = elim (ℕ_discrete i j) [
    | yes here ↦ found (slot p i w) refl here
    | no later ↦
        next (slot p i w) refl
          (search_from_hit test (i + 1) rounds j w (omega arith) (omega arith) t)
  ]
    where
      found :
          (o : Option FlashCredential)
          → slot p i w ≡ o
          → i ≡ j
          → (k : ℕ) × (f : FlashCredential) × (search_from p test i (suc rounds) w ≡ some (k, f))
      found none e here = absurd (ground (arith, e, here, t))
      found (some f) e here = (i, f, ground (arith, e, here, t))

      next :
          (o : Option FlashCredential)
          → slot p i w ≡ o
          → (k : ℕ) × (f : FlashCredential) × (search_from p test (i + 1) rounds w ≡ some (k, f))
          → (k : ℕ) × (f : FlashCredential) × (search_from p test i (suc rounds) w ≡ some (k, f))
      next none e (k, f, s) = (k, f, ground (arith, e, s))
      next (some c) e (k, f, s) = elim (Bool-cases (test c)) [
        | inl passed ↦ (i, c, ground (arith, e, passed))
        | inr missed ↦ (k, f, ground (arith, e, missed, s))
      ]

  -- A slot of such a flash has no text.
  text_of-none :
      (s : State) (i : ℕ) (w : W)
      → IsAuthentic cipher
      → AllSealed s w
      → text_of p cipher s (slot p i w) ≡ none
  text_of-none s i w a h = go (slot p i w) refl
    where
      go : (o : Option FlashCredential) → slot p i w ≡ o → text_of p cipher s o ≡ none
      go none e = unfold text_of in refl
      go (some f) e = elim (Bool-cases f.valid) [
        | inl valid ↦
            let shut = open_slot-none s f a (h i f e valid) in
            unfold text_of in ground (arith, shut)
        | inr invalid ↦ unfold text_of in ground (arith, invalid)
      ]

  by_rp_from-nil :
      (s : State) (hash : List ℕ) (olds : List Credential) (i rounds : ℕ) (w : W)
      → IsAuthentic cipher
      → AllSealed s w
      → by_rp_from p cipher s hash olds i rounds w ≡ some []
  unfolding by_rp_from
  by_rp_from-nil s hash olds i zero w a h = refl
  by_rp_from-nil s hash [] i (suc rounds) w a h = refl
  by_rp_from-nil s hash (old ∷ olds) i (suc rounds) w a h =
      let shut = text_of-none s i w a h in
      let rest = by_rp_from-nil s hash (old ∷ olds) (i + 1) rounds w a h in
      ground (arith, shut, rest)

  residents_from-count :
      (s : State) (i rounds count : ℕ) (w : W)
      → IsAuthentic cipher
      → AllSealed s w
      → residents_from p cipher s i rounds count w ≡ count
  unfolding residents_from
  residents_from-count s i zero count w a h = refl
  residents_from-count s i (suc rounds) count w a h =
      rw (text_of-none s i w a h) (residents_from-count s (i + 1) rounds count w a h)

  -- The credential and the flash after a successful store.
  pub record Stored (s : State) (c : Credential) (w w' : W) : Type 0 where
    place : ℕ
    within : place < 50
    written : FlashCredential
    there : slot p place w' ≡ some written
    same_id : written.id ≡ c.id
    valid : written.valid ≡ true
    is_sealed : IsSealed cipher s written
    others : (j : ℕ) → place ≢ j → slot p j w' ≡ slot p j w

  pub Stored-AllSealed :
      (s : State) (c : Credential) (w w' : W) → Stored s c w w' → AllSealed s w → AllSealed s w'
  Stored-AllSealed s c w w' st h j f e v = elim (ℕ_discrete st.place j) [
    | yes here ↦ subst (IsSealed cipher s) (ground (arith, e, here, st.there)) st.is_sealed
    | no other ↦ h j f (sym (st.others j other) ∙ e) v
  ]

  -- On such a flash a search by id does not succeed.
  pub find_credential-not_ok :
      (s : State) (old : Credential) (id : List ℕ) (w : W)
      → IsAuthentic cipher
      → AllSealed s w
      → (code : Code) × (find_credential p cipher s (some id) old w ≡ some (code, old))
        × (code ≢ ok)
  unfolding find_credential find_in search_slots
  find_credential-not_ok s old id w a h = elim (Bool-cases s.initialized) [
    | inl ready ↦ go ready _ refl
    | inr not_ready ↦ (invalid_param, ground (arith, not_ready), λ e. ground (arith, e))
  ]
    where
      go :
          s.initialized ≡ true
          → (o : Option (ℕ × FlashCredential)) → search_from p (is_credential id) 0 50 w ≡ o
          → (code : Code) × (find_credential p cipher s (some id) old w ≡ some (code, old))
            × (code ≢ ok)
      go ready none hit = (not_found, ground (arith, ready, hit), λ e. ground (arith, e))
      go ready (some (k, f)) hit =
          let (at, test, _, _) = search_from-found p (is_credential id) 0 50 k f w hit in
          let valid : f.valid ≡ true = ground (arith, test) in
          let shut = open_slot-none s f a (h k f at valid) in
          (corrupted, ground (arith, ready, hit, shut), λ e. ground (arith, e))

  -- After such a store no function gives a credential of the flash back.
  Stored-lost :
      (s : State) (c old : Credential) (hash : List ℕ) (olds : List Credential) (w w' : W)
      → IsAuthentic cipher
      → s.initialized ≡ true
      → Stored s c w w'
      → AllSealed s w
      → (find_credential p cipher s (some c.id) old w' ≡ some (corrupted, old))
        × (find_credentials_by_rp p cipher s (some hash) olds w' ≡ some (ok, []))
        × (get_resident_credential_count p cipher s w' ≡ (ok, some 0))
  Stored-lost s c old hash olds w w' a i st h =
      let h' = Stored-AllSealed s c w w' st h in
      let same = bytes_eq_refl c.id in
      let passed : passes p (is_credential c.id) (slot p st.place w') ≡ true =
        ground (arith, st.there, st.same_id, st.valid, same) in
      let (k, f, hit) =
        search_from_hit (is_credential c.id) 0 50 st.place w' (omega arith)
          (omega (arith, st.within)) passed in
      let (at, test, _, _) = search_from-found p (is_credential c.id) 0 50 k f w' hit in
      let valid : f.valid ≡ true = ground (arith, test) in
      let shut = open_slot-none s f a (h' k f at valid) in
      let none_by_rp = by_rp_from-nil s hash olds 0 50 w' a h' in
      let no_resident = residents_from-count s 0 50 0 w' a h' in
      (
        unfold find_credential find_in search_slots in ground (arith, i, hit, shut),
        unfold find_credentials_by_rp in ground (arith, i, none_by_rp),
        unfold get_resident_credential_count in ground (arith, i, no_resident),
      )

  pub write_sealed-Stored :
      (s : State) (c : Credential) (iv : List ℕ) (i : ℕ) (w drawn w' : W)
      → KeepsSlots p
      → i < 50
      → c.rp_id_hash ≢ []
      → ((j : ℕ) → slot p j drawn ≡ slot p j w)
      → write_sealed p cipher c iv i drawn
          (cipher.encrypt s.device_master_key iv c.rp_id_hash (serialize c))
        ≡ (ok, w')
      → Stored s c w w'
  unfolding write_sealed
  write_sealed-Stored s c iv i w drawn w' keeps l has_rp same e = go _ refl e
    where
      go :
          (o : Option (List ℕ × List ℕ))
          → cipher.encrypt s.device_master_key iv c.rp_id_hash (serialize c) ≡ o
          → write_sealed p cipher c iv i drawn o ≡ (ok, w')
          → Stored s c w w'
      go none _ h = absurd (ground (arith, h))
      go (some (ciphertext, tag)) sealed h =
          let f : FlashCredential = record {
            id = c.id;
            encrypted_data = ciphertext ++ replicate (400 - length ciphertext) 0;
            iv = iv;
            tag = tag;
            sign_count = c.sign_count;
            valid = true;
          } in
          let done : (p.write_credential (slot_offset i) f drawn).0 ≡ true = ground (arith, h) in
          let after : (p.write_credential (slot_offset i) f drawn).1 ≡ w' = ground (arith, h) in
          record {
            place = i;
            within = l;
            written = f;
            there = rw (← after) (keeps.written i f drawn done);
            same_id = refl;
            valid = refl;
            is_sealed = record {
              aad = c.rp_id_hash;
              text = serialize c;
              ciphertext = ciphertext;
              has_rp = has_rp;
              sealed = sealed;
            };
            others = λ j n. rw (← after) (keeps.others i j f drawn n ∙ same j);
          }

  store_in-Stored :
      (s : State) (c : Credential) (w w' : W) (place : Option ℕ)
      → KeepsSlots p
      → KeepsRandom p
      → c.rp_id_hash ≢ []
      → ((i : ℕ) → place ≡ some i → i < 50)
      → store_in p cipher s c w place ≡ some (ok, w')
      → Stored s c w w'
  unfolding store_in
  store_in-Stored s c w w' none keeps random has_rp within e = absurd (ground (arith, e))
  store_in-Stored s c w w' (some i) keeps random has_rp within e =
      let drawn = p.random_generate 12 w in
      let stored : write_sealed p cipher c drawn.0 i drawn.1
            (cipher.encrypt s.device_master_key drawn.0 c.rp_id_hash (serialize c))
          ≡ (ok, w') =
        ground (arith, e) in
      write_sealed-Stored s c drawn.0 i w drawn.1 w' keeps (within i refl) has_rp
        (λ j. random.slots 12 j w) stored

  pub find_free_slot-within : (w : W) (i : ℕ) → find_free_slot p w ≡ some i → i < 50
  unfolding find_free_slot search_slots
  find_free_slot-within w i e = go _ refl
    where
      go : (o : Option (ℕ × FlashCredential)) → search_from p (λ c. not c.valid) 0 50 w ≡ o → i < 50
      go none h = absurd (ground (arith, e, h))
      go (some (k, f)) h =
          let (_, _, _, l) = search_from-found p (λ c. not c.valid) 0 50 k f w h in
          ground (arith, e, h, l)

  -- On a flash whose credentials were all stored so, a store that reports success leaves a flash of
  -- that kind, and none of the functions that read credentials gives one back: searching for the id
  -- that was stored reports corruption and leaves the caller's structure as it was, the search by RP
  -- is empty for every RP, and the count of resident credentials is 0. The credential has an RP, the
  -- flash keeps what is written to a slot, drawing random numbers leaves the slots alone, and
  -- decryption fails for additional data other than the one given to the encryption.
  pub store_credential-lost :
      (s : State) (c old : Credential) (hash : List ℕ) (olds : List Credential) (w w' : W)
      → KeepsSlots p
      → KeepsRandom p
      → IsAuthentic cipher
      → c.rp_id_hash ≢ []
      → AllSealed s w
      → store_credential p cipher s (some c) w ≡ some (ok, w')
      → AllSealed s w'
        × (find_credential p cipher s (some c.id) old w' ≡ some (corrupted, old))
        × (find_credentials_by_rp p cipher s (some hash) olds w' ≡ some (ok, []))
        × (get_resident_credential_count p cipher s w' ≡ (ok, some 0))
  unfolding store_credential
  store_credential-lost s c old hash olds w w' keeps random a has_rp h e =
      let ready : s.initialized ≡ true = ground (arith, e) in
      let stored : store_in p cipher s c w (find_free_slot p w) ≡ some (ok, w') =
        ground (arith, e) in
      let st = store_in-Stored s c w w' _ keeps random has_rp (find_free_slot-within w) stored in
      let (by_id, by_rp, count) = Stored-lost s c old hash olds w w' a ready st h in
      (Stored-AllSealed s c w w' st h, by_id, by_rp, count)

  -- Storing reads and writes behind the end of the 400 bytes for the text exactly when the storage is
  -- initialised, a slot is free, and the text is longer than that.
  store_credential-overrun :
      (s : State) (c : Credential) (w : W)
      → store_credential p cipher s (some c) w ≡ none
        ↔ (s.initialized ≡ true) × (find_free_slot p w ≢ none) × (400 < length (serialize c))
  unfolding store_credential store_in
  store_credential-overrun s c w = go (find_free_slot p w) refl
    where
      go :
          (o : Option ℕ)
          → find_free_slot p w ≡ o
          → store_credential p cipher s (some c) w ≡ none
            ↔ (s.initialized ≡ true) × (find_free_slot p w ≢ none) × (400 < length (serialize c))
      go none e = (λ h. absurd (ground (arith, e, h)), λ (i, n, _). absurd (n e))
      go (some i) e = (
        λ h. (ground (arith, e, h), λ n. ground (arith, e, n), ground (arith, e, h)),
        λ (i, _, l). ground (arith, e, i, l),
      )
