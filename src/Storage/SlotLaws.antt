-- ===== src/Storage/SlotLaws.antt =====
-- What the operations on the credential slots of src/storage/storage.c do to the other slots, to
-- later searches and to the count.
use open_fido.Common.{
  ℕ, zero, suc, ◌+◌, ◌≤◌, ◌<◌, ◌≡◌, ◌≢◌, Bool, true, false, none, some, arith, refl, List, ◌∙◌,
  Option, ap, sym,
}
use native.Mathlib.Decide.{ℕ_discrete}
use open_fido.Storage.Base.{FlashCredential, Platform, ok, State, max_credentials}
use open_fido.Storage.Slots.{
  slot, search_from, passes, slot_offset, rewrite_slot, count_from, is_credential,
  update_sign_count, delete_credential, search_slots,
}

not_true→false : (b : Bool) → (b ≡ true → ⊥) → b ≡ false
not_true→false true h = absurd (h refl)
not_true→false false h = refl

-- What is documented of the flash: what was written to a slot is read back, and the other slots
-- stay as they were.
pub record KeepsSlots {W : Type 0} (p : Platform W) : Type 0 where
  pub written :
      (i : ℕ) (c : FlashCredential) (w : W)
      → (p.write_credential (slot_offset i) c w).0 ≡ true
      → slot p i (p.write_credential (slot_offset i) c w).1 ≡ some c
  pub others :
      (i j : ℕ) (c : FlashCredential) (w : W)
      → i ≢ j
      → slot p j (p.write_credential (slot_offset i) c w).1 ≡ slot p j w

module _ {W : Type 0} (p : Platform W) where
  -- What the search reports: the first slot from `i` on that passes, with what it holds.
  pub search_from-found :
      (test : FlashCredential → Bool) (i rounds j : ℕ) (c : FlashCredential) (w : W)
      → search_from p test i rounds w ≡ some (j, c)
      → (slot p j w ≡ some c) × (test c ≡ true) × (i ≤ j) × (j < i + rounds)
  unfolding search_from
  search_from-found test i zero j c w e = absurd (cc)
  search_from-found test i (suc rounds) j c w e =
      ground (arith, search_from-found test (i + 1) rounds j c w)

  -- No slot in the range passes exactly when the search finds none.
  search_from-none :
      (test : FlashCredential → Bool) (i rounds : ℕ) (w : W)
      → ((j : ℕ) → i ≤ j → j < i + rounds → passes p test (slot p j w) ≡ false)
      → search_from p test i rounds w ≡ none
  unfolding search_from
  search_from-none test i zero w h = refl
  search_from-none test i (suc rounds) w h =
      let later =
        search_from-none test (i + 1) rounds w (λ j a b. h j (omega arith) (omega arith)) in
      let here = h i (omega arith) (omega arith) in ground arith

  -- The slots of `w'` are those of `w`, but for slot `i`.
  abbrev SameBut : ℕ → W → W → Type 0
  SameBut i w w' = (j : ℕ) → i ≢ j → slot p j w' ≡ slot p j w

  -- At most one slot holds the credential `id`.
  abbrev pub IsUnique : List ℕ → W → Type 0
  IsUnique id w =
      (i j : ℕ)
      → passes p (is_credential id) (slot p i w) ≡ true
      → passes p (is_credential id) (slot p j w) ≡ true
      → i ≡ j

  -- A successful rewrite of the slot found.
  rewrite_slot-ok :
      (change : FlashCredential → FlashCredential) (w w' : W) (found : Option (ℕ × FlashCredential))
      → KeepsSlots p
      → rewrite_slot p change w found ≡ (ok, w')
      → (i : ℕ) × (c : FlashCredential) × (found ≡ some (i, c))
        × (slot p i w' ≡ some (change c))
        × SameBut i w w'
  unfolding rewrite_slot
  rewrite_slot-ok change w w' none k e = absurd (ground arith)
  rewrite_slot-ok change w w' (some (i, c)) k e =
      let done : (p.write_credential (slot_offset i) (change c) w).0 ≡ true = ground arith in
      let after : (p.write_credential (slot_offset i) (change c) w).1 ≡ w' = ground arith in
      (
        i,
        c,
        refl,
        rw (← after) (k.written i (change c) w done),
        λ j n. rw (← after) (k.others i j (change c) w n),
      )

  -- The same slot is found again where it still passes and the others are as before.
  search_from-again :
      (test : FlashCredential → Bool) (i rounds j : ℕ) (c c' : FlashCredential) (w w' : W)
      → search_from p test i rounds w ≡ some (j, c)
      → SameBut j w w'
      → slot p j w' ≡ some c'
      → test c' ≡ true
      → search_from p test i rounds w' ≡ some (j, c')
  unfolding search_from
  search_from-again test i zero j c c' w w' e same now t = absurd (cc)
  search_from-again test i (suc rounds) j c c' w w' e same now t = elim (ℕ_discrete j i) [
    | yes here ↦ ground arith
    | no later ↦
        let kept = same i later in
        ground (
          arith,
          search_from-found test i (suc rounds) j c w e,
          search_from-again test (i + 1) rounds j c c' w w',
        )
  ]

  count_from-suc :
      (i rounds n : ℕ) (w : W) → count_from p i rounds (n + 1) w ≡ count_from p i rounds n w + 1
  unfolding count_from
  count_from-suc i zero n w = refl
  count_from-suc i (suc rounds) n w =
      ground (arith, count_from-suc (i + 1) rounds n w, count_from-suc (i + 1) rounds (n + 1) w)

  count_from-same :
      (i rounds n j : ℕ) (w w' : W)
      → SameBut j w w'
      → j < i
      → count_from p i rounds n w' ≡ count_from p i rounds n w
  unfolding count_from
  count_from-same i zero n j w w' same h = refl
  count_from-same i (suc rounds) n j w w' same h =
      let kept = same i (omega arith) in
      rw kept (count_from-same (i + 1) rounds _ j w w' same (omega arith))

  -- One valid slot less is one less in the count.
  count_from-cleared :
      (i rounds n j : ℕ) (w w' : W)
      → SameBut j w w'
      → i ≤ j
      → j < i + rounds
      → passes p (λ c. c.valid) (slot p j w) ≡ true
      → passes p (λ c. c.valid) (slot p j w') ≡ false
      → count_from p i rounds n w ≡ count_from p i rounds n w' + 1
  unfolding count_from
  count_from-cleared i zero n j w w' same lo hi old new = absurd (omega arith)
  count_from-cleared i (suc rounds) n j w w' same lo hi old new = elim (ℕ_discrete j i) [
    | yes here ↦ rw (← here) (
        rw (old, new)
          (count_from-suc (j + 1) rounds n w
            ∙ ap (λ t. t + 1) (sym (count_from-same (j + 1) rounds n j w w' same (omega arith)))))
    | no later ↦
        let kept = same i later in
        rw kept
          (count_from-cleared (i + 1) rounds _ j w w' same (omega arith) (omega arith) old new)
  ]

  gone :
      (id : List ℕ) (i : ℕ) (c : FlashCredential) (w w' : W)
      → IsUnique id w
      → slot p i w ≡ some c
      → is_credential id c ≡ true
      → slot p i w' ≡ some (record c { valid = false })
      → SameBut i w w'
      → (j : ℕ) → passes p (is_credential id) (slot p j w') ≡ false
  gone id i c w w' u here passed now same j = elim (ℕ_discrete i j) [
    | yes ij ↦ rw (← ij, now)
    | no ij ↦ rw (same j ij) (not_true→false _ (λ t. ij (u i j (rw here passed) t)))
  ]

  -- A successful deletion leaves no slot with that credential, if there was only one; the count
  -- goes down by one, and all other slots stay as they were.
  delete_credential_lem :
      (s : State) (id : List ℕ) {w w' : W}
      → KeepsSlots p
      → IsUnique id w
      → delete_credential p s (some id) w ≡ (ok, w')
      → (search_slots p (is_credential id) w' ≡ none)
        × (count_from p 0 max_credentials 0 w ≡ count_from p 0 max_credentials 0 w' + 1)
        × ((c : FlashCredential) (j : ℕ)
            → slot p j w ≡ some c
            → is_credential id c ≡ false
            → slot p j w' ≡ some c)
  unfolding delete_credential search_slots
  delete_credential_lem s id {w} {w'} k u e =
      let go : rewrite_slot p (λ c. record c { valid = false }) w
            (search_from p (is_credential id) 0 max_credentials w)
          ≡ (ok, w') =
        ground arith in
      let (i, c, found, now, same) =
        rewrite_slot-ok (λ c. record c { valid = false }) w w' _ k go in
      let (here, passed, _, below) =
        search_from-found (is_credential id) 0 max_credentials i c w found in
      (
        search_from-none (is_credential id) 0 max_credentials w'
            (λ j _ _. gone id i c w w' u here passed now same j),
        count_from-cleared 0 max_credentials 0 i w w' same (omega arith) below
            (rw here (ground arith)) (rw now),
        λ c' j held other. same j (λ ij. cc (rw (← ij, here) at held, passed, other)) ∙ held,
      )

  -- A successful update is seen by the next search, which finds the same slot with the new counter
  -- and the rest of the credential as it was; all other slots stay as they were.
  update_sign_count_lem :
      (s : State) (id : List ℕ) (new_count : ℕ) {w w' : W}
      → KeepsSlots p
      → update_sign_count p s (some id) new_count w ≡ (ok, w')
      → (i : ℕ) × (c : FlashCredential) × (search_slots p (is_credential id) w ≡ some (i, c))
        × (search_slots p (is_credential id) w' ≡ some (i, record c { sign_count = new_count }))
        × ((j : ℕ) → i ≢ j → slot p j w' ≡ slot p j w)
  unfolding update_sign_count search_slots
  update_sign_count_lem s id new_count {w} {w'} k e =
      let change = λ (c : FlashCredential). record c { sign_count = new_count } in
      let go : rewrite_slot p change w (search_from p (is_credential id) 0 max_credentials w)
          ≡ (ok, w') =
        ground arith in
      let (i, c, found, now, same) = rewrite_slot-ok change w w' _ k go in
      let (_, passed, _, _) = search_from-found (is_credential id) 0 max_credentials i c w found in
      (
        i,
        c,
        found,
        search_from-again (is_credential id) 0 max_credentials i c (change c) w w' found same now
            passed,
        same,
      )
