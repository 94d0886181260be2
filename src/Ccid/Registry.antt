-- ===== src/Ccid/Registry.antt =====
-- Applications found in the registry of src/usb/usb_ccid.c after their registration.
use open_fido.Common.{
  ℕ, suc, ◌+◌, ◌≤◌, ◌≡◌, List, [], ◌∷◌, Option, none, some, length, false, arith, refl, pos, ltb,
  Bool-cases, inl, inr,
}
use open_fido.Ccid.{
  find_app, register_in, app_at, App, usb_ccid_register_app, Handler, State, pos, ltb,
}
use open_fido.Common.Memory.{bytes_eq_refl}

module _ {W : Type 0} where
  behind_active :
      (a : App W) (o : Option (List (Option (App W)))) (apps' : List (Option (App W)))
      → (elim o [ none ↦ none | some r ↦ some (some a ∷ r) ]) ≡ some apps'
      → (r : List (Option (App W))) × (o ≡ some r) × (apps' ≡ some a ∷ r)
  behind_active a none apps' e = absurd (cc)
  behind_active a (some r) apps' e = (r, refl, ground arith)

  -- The application is found behind `k` entries, and stands there.
  pub register_in-found :
      (app : App W) (i : ℕ) (apps apps' : List (Option (App W)))
      → find_app i app.aid apps ≡ none
      → register_in app apps ≡ some apps'
      → (k : ℕ) × (find_app i app.aid apps' ≡ some (i + k)) × (app_at k apps' ≡ some app)
  unfolding find_app register_in app_at
  register_in-found app i [] apps' f e = absurd (cc)
  register_in-found app i (none ∷ apps) apps' f e =
      let same = bytes_eq_refl app.aid in (0, ground (arith, same, e), ground arith)
  register_in-found app i (some a ∷ apps) apps' f e =
      let (r, made, whole) = behind_active a (register_in app apps) apps' e in
      let later : find_app (i + 1) app.aid apps ≡ none = ground arith in
      let (k, found, there) = register_in-found app (i + 1) apps r later made in
      (suc k, ground arith, ground arith)

  -- What a registration that reports 0 did.
  pub registered :
      (aid : List ℕ) (handler : Handler W) (s s1 : State W)
      → usb_ccid_register_app aid (some handler) s ≡ (pos 0, s1)
      → (length aid ≤ 16)
        × (apps : List (Option (App W))) × (register_in
              (record { aid = aid; handler = handler })
              s.app_registry
            ≡ some apps)
        × (s1 ≡ record s { app_registry = apps })
  unfolding usb_ccid_register_app
  registered aid handler s s1 e = elim (Bool-cases (ltb 16 (length aid))) [
    | inl long ↦ absurd (ground (arith, long, e))
    | inr short ↦
        go (register_in (record { aid = aid; handler = handler }) s.app_registry) refl short
  ]
    where
      go :
          (o : Option (List (Option (App W))))
          → register_in (record { aid = aid; handler = handler }) s.app_registry ≡ o
          → ltb 16 (length aid) ≡ false
          → (length aid ≤ 16)
            × (apps : List (Option (App W))) × (register_in
                  (record { aid = aid; handler = handler })
                  s.app_registry
                ≡ some apps)
            × (s1 ≡ record s { app_registry = apps })
      go none h short = absurd (ground (arith, h, short, e))
      go (some apps) h short = (ground (arith, short), apps, h, ground (arith, h, short, e))
