-- ===== src/Ctap2/Management/Laws.antt =====
-- The enumeration of the credentials of an RP, and what every subcommand of
-- src/fido2/extensions/ctap2_credential_mgmt.c asks for.
use open_fido.Common.{
  ℕ, zero, suc, ◌+◌, Bool, true, not, List, [], ◌∷◌, length, drop, Option, some, none, ◌≡◌, ◌≢◌,
  refl, arith, Bool-cases, inl, inr, ◌==◌, ℤ, ap, subst, sym,
}
use open_fido.Storage.Base.{State, Platform, ok}
use open_fido.Storage.Pin.{is_pin_set}
use open_fido.Storage.Credentials.{Cipher, Credential, find_credentials_by_rp}
use open_fido.Ctap2.Base.{Reply, ctap2_ok}
use open_fido.Ctap2.Ceremonies.{PinAuth}
use open_fido.Ctap2.Management.{
  Enumeration, ManageRequest, verify_cm_pin_auth, first_cred_reply, next_cred_reply, creds_begin,
  creds_next, creds_get_next, run_verified, credential_management,
}

drop-suc : {A : Type 0} (i : ℕ) (xs ys : List A) (y : A) → drop i xs ≡ y ∷ ys → drop (suc i) xs ≡ ys
drop-suc zero [] ys y e = absurd (ground (arith, e))
drop-suc zero (x ∷ xs) ys y e = ground (arith, e)
drop-suc (suc i) [] ys y e = absurd (ground (arith, e))
drop-suc (suc i) (x ∷ xs) ys y e = drop-suc i xs ys y e

cons_eq : {A : Type 0} {x y : A} {xs ys : List A} → x ≡ y → xs ≡ ys → x ∷ xs ≡ y ∷ ys
cons_eq h t = cc

verify_cm_pin_auth-ok :
    (set : Bool) (a : PinAuth)
    → verify_cm_pin_auth set a ≡ ctap2_ok
    → (set ≡ true) × (a.present ≡ true) × (a.protocol ≡ 1) × (a.len ≡ 16)
unfolding verify_cm_pin_auth
verify_cm_pin_auth-ok set a e =
    (ground (arith, e), ground (arith, e), ground (arith, e), ground (arith, e))

module _ {W : Type 0} (p : Platform W) (cipher : Cipher) (get_public_key : List ℕ → Option (List ℕ))
    (algorithm : Credential → ℤ) (old : Credential) (olds : List Credential) where
  -- The replies of so many requests for the next credential, one after another, and the enumeration
  -- behind them.
  unfoldable pub ask_next : ℕ → List ℕ → Enumeration → List Reply × Enumeration
  ask_next zero buffer e = ([], e)
  ask_next (suc n) buffer e =
      let (reply, e') = creds_get_next p cipher get_public_key algorithm old olds buffer e in
      let (replies, e'') = ask_next n buffer e' in (reply ∷ replies, e'')

  abbrev pub next_replies : List ℕ → List Credential → List Reply
  next_replies buffer [] = []
  next_replies buffer (c ∷ cs) =
      next_cred_reply p cipher get_public_key algorithm old olds buffer c ∷ next_replies buffer cs

  -- The enumeration still has these credentials to hand out.
  record IsLeft (e : Enumeration) (left : List Credential) : Type 0 where
    active : not (length left == 0) ≡ true → e.cred_active ≡ true
    rest : drop e.cred_index e.creds ≡ left

  abbrev after_next : Enumeration → List Credential → Enumeration
  after_next e left = record e {
    cred_index = e.cred_index + 1;
    cred_active = not (length left == 0);
  }

  get_next-IsLeft :
      (buffer : List ℕ) (e : Enumeration) (c : Credential) (left : List Credential)
      → IsLeft e (c ∷ left)
      → (creds_get_next p cipher get_public_key algorithm old olds buffer e ≡ (
        next_cred_reply p cipher get_public_key algorithm old olds buffer c,
        after_next e left,
      ))
        × IsLeft (after_next e left) left
  unfolding creds_get_next creds_next
  get_next-IsLeft buffer e c left h = (
    let active = h.active (ground arith) in let rest = h.rest in ground (arith, active, rest),
    record {
      active = λ n. n;
      rest =
          subst (λ i. drop i e.creds ≡ left) {x = suc e.cred_index} (omega arith)
            (drop-suc e.cred_index e.creds left c h.rest);
    },
  )

  ask_next-IsLeft :
      (buffer : List ℕ) (e : Enumeration) (left : List Credential)
      → IsLeft e left
      → ((ask_next (length left) buffer e).0 ≡ next_replies buffer left)
        × IsLeft (ask_next (length left) buffer e).1 []
  unfolding ask_next
  ask_next-IsLeft buffer e [] h = (refl, h)
  ask_next-IsLeft buffer e (c ∷ left) h =
      let (reply, h') = get_next-IsLeft buffer e c left h in
      let (replies, last) = ask_next-IsLeft buffer (after_next e left) left h' in
      let got = creds_get_next p cipher get_public_key algorithm old olds buffer e in
      let now : got.0 ≡ next_cred_reply p cipher get_public_key algorithm old olds buffer c =
        ap (λ r. r.0) reply in
      let then : got.1 ≡ after_next e left = ap (λ r. r.1) reply in
      let others : (ask_next (length left) buffer got.1).0 ≡ next_replies buffer left =
        rw then replies in
      let end : IsLeft (ask_next (length left) buffer got.1).1 [] =
        subst (λ x. IsLeft (ask_next (length left) buffer x).1 []) (sym then) last in
      (cons_eq now others, end)

  get_next-done :
      (buffer : List ℕ) (e : Enumeration)
      → IsLeft e []
      → (creds_get_next p cipher get_public_key algorithm old olds buffer e).0.0 ≢ ctap2_ok
  unfolding creds_get_next creds_next
  get_next-done buffer e h =
      let rest = h.rest in
      elim (Bool-cases e.cred_active) [
        | inl active ↦ λ bad. ground (arith, bad, active, rest)
        | inr idle ↦ λ bad. ground (arith, bad, idle)
      ]

  -- An enumeration of the credentials of an RP: where the storage finds some, the first request is
  -- answered with the first of them and their number, so many requests for the next one as there are
  -- others are answered with the others, each once and in order, and one more request is refused.
  pub creds_begin-ask_next :
      (buffer hash : List ℕ) (e : Enumeration) (s : State) (w : W) (c : Credential)
      (cs : List Credential)
      → find_credentials_by_rp p cipher s (some hash) olds w ≡ some (ok, c ∷ cs)
      → (e1 : Enumeration) × (creds_begin p cipher get_public_key algorithm old olds buffer e w
            (find_credentials_by_rp p cipher s (some hash) olds w)
          ≡ some (
            first_cred_reply p cipher get_public_key algorithm old olds buffer (length (c ∷ cs)) c,
            e1,
            w,
          ))
        × ((ask_next (length cs) buffer e1).0 ≡ next_replies buffer cs)
        × ((creds_get_next p cipher get_public_key algorithm old olds buffer
              (ask_next (length cs) buffer e1).1).0.0
            ≢ ctap2_ok)
  unfolding creds_begin
  creds_begin-ask_next buffer hash e s w c cs found =
      let e1 : Enumeration = record e { cred_active = true; cred_index = 1; creds = c ∷ cs } in
      let left : IsLeft e1 cs = record { active = λ n. refl; rest = refl } in
      let (replies, last) = ask_next-IsLeft buffer e1 cs left in
      (e1, rw found refl, replies, get_next-done buffer (ask_next (length cs) buffer e1).1 last)

  -- A request for the management of credentials that succeeds had a subcommand, and a pinAuth of 16
  -- bytes for protocol 1 while a PIN is set.
  pub credential_management-guarded :
      (r : ManageRequest) (buffer : List ℕ) (e e' : Enumeration) (s : State) (w w' : W)
      (response : Option (List ℕ))
      → credential_management p cipher get_public_key algorithm old olds r buffer e s w
        ≡ some ((ctap2_ok, response), e', w')
      → (r.subcommand ≢ none)
        × (is_pin_set s ≡ true)
        × (r.pin_auth.present ≡ true)
        × (r.pin_auth.protocol ≡ 1)
        × (r.pin_auth.len ≡ 16)
  unfolding credential_management run_verified
  credential_management-guarded r buffer e e' s w w' response h = go r.subcommand refl
    where
      pin :
          verify_cm_pin_auth (is_pin_set s) r.pin_auth ≡ ctap2_ok
          → (r.subcommand ≢ none)
          → (r.subcommand ≢ none)
            × (is_pin_set s ≡ true)
            × (r.pin_auth.present ≡ true)
            × (r.pin_auth.protocol ≡ 1)
            × (r.pin_auth.len ≡ 16)
      pin checked there =
          let (set, present, protocol, len) =
            verify_cm_pin_auth-ok (is_pin_set s) r.pin_auth checked in
          (there, set, present, protocol, len)

      go :
          (o : Option ℕ)
          → r.subcommand ≡ o
          → (r.subcommand ≢ none)
            × (is_pin_set s ≡ true)
            × (r.pin_auth.present ≡ true)
            × (r.pin_auth.protocol ≡ 1)
            × (r.pin_auth.len ≡ 16)
      go none is = absurd (ground (arith, h, is))
      go (some subcommand) is =
          elim (Bool-cases (verify_cm_pin_auth (is_pin_set s) r.pin_auth == 0)) [
            | inl fine ↦ pin (ground (arith, fine)) (λ n. ground (arith, n, is))
            | inr wrong ↦ absurd (ground (arith, h, is, wrong))
          ]
