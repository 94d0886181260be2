-- ===== src/Storage/PinLaws.antt =====
-- How often a PIN can be guessed at the operations of src/storage/storage.c, and which PIN is taken.
use open_fido.Common.{
  ℕ, ◌-◌, ◌≤◌, ◌<◌, ◌≡◌, ◌↔◌, Bool, true, false, List, [], ◌∷◌, length, some, arith, All, refl,
  take_all, ◌≢◌, ap, take, ◌==◌, ◌++◌, Bool-cases, inl, inr,
}
use native.Mathlib.Decide.{dec_lt}
use open_fido.Buffer.{constant_time_compare, constant_time_compare_iff}
use open_fido.Storage.Base.{ok, error, State, Platform, pin_max_retries}
use open_fido.Storage.Pin.{verify_pin, is_pin_blocked, with_retries, saved}

differs : (d : ℕ) → (d == 0) ≡ false → d ≡ 0 → ⊥
differs d h e = ground arith

module _ {W : Type 0} (p : Platform W) where
  -- A PIN is set, its hash and every hash of a candidate have 32 bytes, and no more than
  -- 8 retries are left.
  pub record IsReady (s : State) : Type 0 where
    pub running : s.initialized ≡ true
    pub is_set : s.pin_data.pin_set ≡ true
    pub stored : length s.pin_data.pin_hash ≡ 32
    pub digest : (m : List ℕ) → length (p.sha256 m) ≡ 32
    pub bounded : s.pin_data.pin_retries ≤ pin_max_retries

  -- Whether the hash of this PIN is the stored one.
  abbrev pub Fits : State → List ℕ → Type 0
  Fits s pin = p.sha256 pin ≡ s.pin_data.pin_hash

  compare-Fits :
      (s : State) (pin : List ℕ)
      → IsReady s
      → (constant_time_compare (p.sha256 pin) s.pin_data.pin_hash 32 ≡ 0) ↔ Fits s pin
  compare-Fits s pin r =
      let size = r.digest pin in
      let both =
        constant_time_compare_iff (p.sha256 pin) s.pin_data.pin_hash 32 (omega arith)
          (omega arith) in
      let left = take_all 32 (p.sha256 pin) (omega arith) in
      let right = take_all 32 s.pin_data.pin_hash (omega arith) in
      (λ e. rw (left, right) at (both.0 e), λ e. both.1 (ap (take 32) e))

  -- With retries left, a PIN is accepted exactly when its hash is the stored one. Accepting it
  -- restores all retries, and refusing it takes one; nothing else of the state changes.
  verify_pin_lem :
      (s : State) (pin : List ℕ) (w : W)
      → IsReady s
      → 0 < s.pin_data.pin_retries
      → let (c, s', _) = verify_pin p s (some pin) w in
        ((c ≡ ok) ↔ Fits s pin)
        × (c ≡ ok → s' ≡ with_retries p s pin_max_retries)
        × (c ≢ ok → (c ≡ error) × (s' ≡ with_retries p s (s.pin_data.pin_retries - 1)))
  unfolding verify_pin
  verify_pin_lem s pin w r h =
      let diff = constant_time_compare (p.sha256 pin) s.pin_data.pin_hash 32 in
      let fits = compare-Fits s pin r in
      elim (Bool-cases (diff == 0)) [
        | inl same ↦
            let e : verify_pin p s (some pin) w ≡ saved p ok (with_retries p s pin_max_retries) w =
              ground arith in
            rw e ((λ _. fits.0 (ground arith), λ _. refl), λ _. refl, λ n. absurd (n refl))
        | inr other ↦
            let e : verify_pin p s (some pin) w
                ≡ saved p error (with_retries p s (s.pin_data.pin_retries - 1)) w =
              ground arith in
            rw e (
              (λ c. absurd (cc), λ f. absurd (differs diff other (fits.1 f))),
              λ c. absurd (cc),
              λ _. (refl, refl),
            )
      ]

  -- Candidates in turn, up to the first that is accepted: whether one was, and the state behind.
  pub guess : State → List (List ℕ) → W → Bool × State
  guess s [] w = (false, s)
  guess s (pin ∷ pins) w =
      let (c, s', w') = verify_pin p s (some pin) w in
      elim c [ ok ↦ (true, s') | _ ↦ guess s' pins w' ]

  guess-blocked :
      (s : State) (pins : List (List ℕ)) (w : W)
      → IsReady s
      → s.pin_data.pin_retries ≡ 0
      → guess s pins w ≡ (false, s)
  unfolding guess verify_pin
  guess-blocked s [] w r z = refl
  guess-blocked s (pin ∷ pins) w r z = ground (arith, guess-blocked s pins w r z)

  guess-wrong :
      (s : State) (pin : List ℕ) (pins : List (List ℕ)) (w : W)
      → IsReady s
      → 0 < s.pin_data.pin_retries
      → ¬ Fits s pin
      → (w' : W) × (guess s (pin ∷ pins) w
          ≡ guess (with_retries p s (s.pin_data.pin_retries - 1)) pins w')
  unfolding guess verify_pin
  guess-wrong s pin pins w r h n =
      let s' = with_retries p s (s.pin_data.pin_retries - 1) in
      let diff = constant_time_compare (p.sha256 pin) s.pin_data.pin_hash 32 in
      elim (Bool-cases (diff == 0)) [
        | inl same ↦ absurd (n ((compare-Fits s pin r).0 (ground arith)))
        | inr other ↦ ((p.write_pin s'.pin_data w).1, ground arith)
      ]

  is_pin_blocked_at_zero :
      (s : State) → IsReady s → s.pin_data.pin_retries ≡ 0 → is_pin_blocked s ≡ true
  unfolding is_pin_blocked
  is_pin_blocked_at_zero s r z = ground arith

  fewer : (s : State) → IsReady s → IsReady (with_retries p s (s.pin_data.pin_retries - 1))
  fewer s r = record {
    running = r.running;
    is_set = r.is_set;
    stored = r.stored;
    digest = r.digest;
    bounded = omega (arith, r.bounded);
  }

  -- Once as many candidates as there are retries have been wrong, the PIN is blocked: no later
  -- candidate is accepted, not even the right one.
  pub lockout :
      (s : State) (wrong more : List (List ℕ)) (w : W)
      → IsReady s
      → All (λ pin. ¬ Fits s pin) wrong
      → s.pin_data.pin_retries ≤ length wrong
      → let (accepted, s') = guess s (wrong ++ more) w in
        (accepted ≡ false) × (is_pin_blocked s' ≡ true)
  lockout s [] more w r n h =
      rw (guess-blocked s more w r (omega arith)) (refl, is_pin_blocked_at_zero s r (omega arith))
  lockout s (pin ∷ pins) more w r n h = elim (dec_lt 0 s.pin_data.pin_retries) [
    | no none_left ↦
        rw (guess-blocked s (pin ∷ (pins ++ more)) w r (omega arith))
          (refl, is_pin_blocked_at_zero s r (omega arith))
    | yes left ↦
        let (w', e) = guess-wrong s pin (pins ++ more) w r left n.0 in
        rw e (
          lockout (with_retries p s (s.pin_data.pin_retries - 1)) pins more w' (fewer s r) n.1
            (omega arith))
  ]
