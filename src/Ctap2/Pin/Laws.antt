-- ===== src/Ctap2/Pin/Laws.antt =====
-- What `ctap2_handle_client_pin` of src/fido2/core/ctap2.c accepts as a new PIN, and what the storage
-- holds afterwards.
use open_fido.Common.{
  ℕ, suc, ◌+◌, ◌<◌, ◌≤◌, ◌≡◌, true, false, List, [], ◌∷◌, length, get_or, Option, some, ltb, arith,
  refl, Bool-cases, inl, inr, ◌↔◌, zero, ◌⊎◌, sym, ◌∙◌, ap,
}
use open_fido.Storage.Base.{State, Platform, ok, Code, PinData}
use open_fido.Storage.Pin.{set_pin, verify_pin, is_pin_set}
use open_fido.Ctap2.Pin.{
  is_sequential, is_repeated, is_weak_pin, store_new_pin, handle_set_pin, handle_change_pin, Board,
  Code, set_pin_reply, handle_client_pin, run_sub_command, Decoder, Parameters, parse_request,
}
use open_fido.U2f.{Board}
use open_fido.Buffer.{constant_time_compare_iff}
use open_fido.Cbor.Base.{Decoder}

-- Each byte is one more than the byte before it.
pub record Sequential (pin : List ℕ) : Type 0 where
  pub step : (i : ℕ) → suc i < length pin → get_or pin (suc i) 0 ≡ get_or pin i 0 + 1

-- Each byte is the first one.
pub record Repeated (pin : List ℕ) : Type 0 where
  pub same : (i : ℕ) → i < length pin → get_or pin i 0 ≡ get_or pin 0 0

is_sequential-Sequential : (b : ℕ) (bs : List ℕ) → is_sequential b bs ≡ true → Sequential (b ∷ bs)
unfolding is_sequential
is_sequential-Sequential b [] e = record { step = λ i l. absurd (omega (arith, l)) }
is_sequential-Sequential b (c ∷ cs) e =
    let rest = is_sequential-Sequential c cs (ground (arith, e)) in
    record { step = next (ground (arith, e)) rest.step }
  where
    next :
        c ≡ b + 1
        → ((i : ℕ) → suc i < length (c ∷ cs) → get_or (c ∷ cs) (suc i) 0 ≡ get_or (c ∷ cs) i 0 + 1)
        → (i : ℕ) → suc i < length (b ∷ c ∷ cs)
        → get_or (b ∷ c ∷ cs) (suc i) 0 ≡ get_or (b ∷ c ∷ cs) i 0 + 1
    next first later zero l = first
    next first later (suc i) l = later i (omega (arith, l))

Sequential-is_sequential : (b : ℕ) (bs : List ℕ) → Sequential (b ∷ bs) → is_sequential b bs ≡ true
unfolding is_sequential
Sequential-is_sequential b [] s = refl
Sequential-is_sequential b (c ∷ cs) s =
    let first : c ≡ b + 1 = s.step 0 (omega arith) in
    let rest =
      Sequential-is_sequential c cs (record { step = λ i l. s.step (suc i) (omega (arith, l)) }) in
    ground (arith, first, rest)

is_repeated-Repeated :
    (a : ℕ) (bs : List ℕ) → is_repeated a bs ≡ true → (i : ℕ) → i < length bs → get_or bs i 0 ≡ a
unfolding is_repeated
is_repeated-Repeated a [] e i l = absurd (omega (arith, l))
is_repeated-Repeated a (b ∷ bs) e zero l = ground (arith, e)
is_repeated-Repeated a (b ∷ bs) e (suc i) l =
    is_repeated-Repeated a bs (ground (arith, e)) i (omega (arith, l))

Repeated-is_repeated :
    (a : ℕ) (bs : List ℕ) → ((i : ℕ) → i < length bs → get_or bs i 0 ≡ a) → is_repeated a bs ≡ true
unfolding is_repeated
Repeated-is_repeated a [] h = refl
Repeated-is_repeated a (b ∷ bs) h =
    let first : b ≡ a = h 0 (omega arith) in
    let rest = Repeated-is_repeated a bs (λ i l. h (suc i) (omega (arith, l))) in
    ground (arith, first, rest)

-- A PIN is weak when it has fewer than four bytes, or its bytes go up by one each, or are all the
-- same, and no other PIN is.
is_weak_pin_lem :
    (pin : List ℕ) → is_weak_pin pin ≡ true ↔ ((length pin < 4) ⊎ (Sequential pin ⊎ Repeated pin))
unfolding is_weak_pin
is_weak_pin_lem [] = (λ _. inl (omega arith), λ _. refl)
is_weak_pin_lem (b ∷ bs) = (to, from)
  where
    flat :
        ((i : ℕ) → i < length bs → get_or bs i 0 ≡ b)
        → (i : ℕ) → i < length (b ∷ bs)
        → get_or (b ∷ bs) i 0 ≡ b
    flat h zero l = refl
    flat h (suc i) l = h i (omega (arith, l))

    to :
        is_weak_pin (b ∷ bs) ≡ true
        → (length (b ∷ bs) < 4) ⊎ (Sequential (b ∷ bs) ⊎ Repeated (b ∷ bs))
    to e = elim (Bool-cases (ltb (length (b ∷ bs)) 4)) [
      | inl short ↦ inl (ground (arith, short))
      | inr long ↦ elim (Bool-cases (is_sequential b bs)) [
        | inl up ↦ inr (inl (is_sequential-Sequential b bs up))
        | inr not_up ↦ inr (
            inr (record {
              same = flat (is_repeated-Repeated b bs (ground (arith, e, long, not_up)));
            }))
      ]
    ]

    from :
        (length (b ∷ bs) < 4) ⊎ (Sequential (b ∷ bs) ⊎ Repeated (b ∷ bs))
        → is_weak_pin (b ∷ bs) ≡ true
    from (inl short) = ground (arith, short)
    from (inr (inl s)) = ground (arith, Sequential-is_sequential b bs s)
    from (inr (inr r)) =
        let all = Repeated-is_repeated b bs (λ i l. r.same (suc i) (omega (arith, l))) in
        ground (arith, all)

module _ {W : Type 0} (p : Platform W) where
  -- What stands behind a new PIN that was accepted.
  pub record Accepted (pin : List ℕ) (s s' : State) : Type 0 where
    pub long_enough : 4 ≤ length pin
    pub short_enough : length pin ≤ 63
    pub not_weak : is_weak_pin pin ≡ false
    pub is_set : is_pin_set s' ≡ true
    pub all_retries : s'.pin_data.pin_retries ≡ 8
    pub hash : s'.pin_data.pin_hash ≡ p.sha256 pin
    pub verifies : (w : W) → (verify_pin p s' (some pin) w).0 ≡ ok

  set_pin-ok :
      (pin : List ℕ) (s s' : State) (w w' : W)
      → set_pin p s (some pin) w ≡ (ok, s', w')
      → (s.initialized ≡ true)
        × (s' ≡ record s {
          pin_data = record { pin_hash = p.sha256 pin; pin_retries = 8; pin_set = true };
        })
  unfolding set_pin
  set_pin-ok pin s s' w w' e = (ground (arith, e), ground (arith, e))

  -- A PIN fits the data that was just written for it.
  verify_pin-fresh :
      (pin : List ℕ) (s : State) (w : W)
      → s.initialized ≡ true
      → ((m : List ℕ) → length (p.sha256 m) ≡ 32)
      → (verify_pin p
          (record s {
            pin_data = record { pin_hash = p.sha256 pin; pin_retries = 8; pin_set = true };
          })
          (some pin)
          w).0
        ≡ ok
  unfolding verify_pin
  verify_pin-fresh pin s w ready digest =
      let long : 32 ≤ length (p.sha256 pin) = omega (arith, digest pin) in
      let fits = (constant_time_compare_iff (p.sha256 pin) (p.sha256 pin) 32 long long).1 refl in
      ground (arith, ready, fits)

  store_new_pin-Accepted :
      (board : Board W) (pin : List ℕ) (r : Option (List ℕ)) (s s' : State) (w w' : W)
      → ((m : List ℕ) → length (p.sha256 m) ≡ 32)
      → store_new_pin p board pin s w ≡ some ((0, r), s', w')
      → Accepted pin s s'
  unfolding store_new_pin set_pin_reply
  store_new_pin-Accepted board pin r s s' w w' digest e = go _ refl
    where
      go : (o : Code × State × W) → set_pin p s (some pin) w ≡ o → Accepted pin s s'
      go (ok, s1, w1) stored =
          let (ready, after) = set_pin-ok pin s s1 w w1 stored in
          let same : s1 ≡ s' = ground (arith, e, stored) in
          let there = sym same ∙ after in
          record {
            long_enough = ground (arith, e);
            short_enough = ground (arith, e);
            not_weak = ground (arith, e);
            is_set = rw there (unfold is_pin_set in ground (arith, ready));
            all_retries = ap (λ (x : State). x.pin_data.pin_retries) there;
            hash = ap (λ (x : State). x.pin_data.pin_hash) there;
            verifies = λ v. rw there (verify_pin-fresh pin s v ready digest);
          }
      go (_, s1, w1) stored = absurd (ground (arith, e, stored))

  -- A request to set or to change the PIN that is answered with success carried a PIN of 4 to 63
  -- bytes that is not weak. The storage then holds its hash, has all retries, and accepts it, where
  -- the hash function gives 32 bytes.
  pub handle_client_pin-Accepted :
      (board : Board W) (skip_value : Decoder → Decoder) (stale len : ℕ) (request buffer : List ℕ)
      (q : Parameters) (r : Option (List ℕ)) (s s' : State) (w w' : W)
      → ((m : List ℕ) → length (p.sha256 m) ≡ 32)
      → parse_request skip_value stale request len ≡ (0, q)
      → (q.sub_command ≡ some 3) ⊎ (q.sub_command ≡ some 4)
      → handle_client_pin p board skip_value stale request len buffer s w ≡ some ((0, r), s', w')
      → Accepted q.new_pin_enc s s'
  unfolding handle_client_pin run_sub_command handle_set_pin handle_change_pin
  handle_client_pin-Accepted board skip_value stale len request buffer q r s s' w w' digest parsed
        (inl three) e =
      store_new_pin-Accepted board q.new_pin_enc r s s' w w' digest
        (ground (arith, parsed, three, e))
  handle_client_pin-Accepted board skip_value stale len request buffer q r s s' w w' digest parsed
        (inr four) e =
      store_new_pin-Accepted board q.new_pin_enc r s s' w w' digest
        (ground (arith, parsed, four, e))

  -- Where a PIN is set and the flash takes the write, a request to change it succeeds for every new
  -- PIN of 4 to 63 bytes that is not weak. Nothing else of the request is looked at, so that the PIN
  -- is changed without the old one.
  pub change_pin-unproved :
      (board : Board W) (skip_value : Decoder → Decoder) (stale len : ℕ) (request buffer : List ℕ)
      (q : Parameters) (s : State) (w : W)
      → ((d : PinData) → (p.write_pin d w).0 ≡ true)
      → is_pin_set s ≡ true
      → parse_request skip_value stale request len ≡ (0, q)
      → q.sub_command ≡ some 4
      → 4 ≤ length q.new_pin_enc
      → length q.new_pin_enc ≤ 63
      → is_weak_pin q.new_pin_enc ≡ false
      → (s' : State) × (w' : W) × (handle_client_pin p board skip_value stale request len buffer s w
          ≡ some ((0, some []), s', w'))
        × (s'.pin_data.pin_hash ≡ p.sha256 q.new_pin_enc)
  unfolding handle_client_pin run_sub_command handle_change_pin store_new_pin set_pin_reply
  change_pin-unproved board skip_value stale len request buffer q s w writes is_set parsed four low
        high strong =
      let new : PinData = record {
        pin_hash = p.sha256 q.new_pin_enc;
        pin_retries = 8;
        pin_set = true;
      } in
      let ready : s.initialized ≡ true = unfold is_pin_set in ground (arith, is_set) in
      let done = writes new in
      let stored : set_pin p s (some q.new_pin_enc) w
          ≡ (ok, record s { pin_data = new }, (p.write_pin new w).1) =
        unfold set_pin in ground (arith, ready, low, high, done) in
      (
        record s { pin_data = new },
        (p.write_pin new w).1,
        ground (arith, is_set, parsed, four, low, high, strong, stored),
        refl,
      )
