-- ===== src/OpenPgp/Laws.antt =====
-- What the admin PIN of src/openpgp/openpgp.c protects, over any sequence of APDUs.
use open_fido.Common.{
  ℕ, ◌≡◌, ◌≢◌, ◌/◌, List, [], ◌∷◌, take, false, arith, refl, ◌∙◌, ◌⊎◌, if-both, ◌==◌, ℕ_discrete,
  Bool-cases, inl, inr, ap, All, subst, sym,
}
use open_fido.Common.Memory.{bytes_eq→eq}
use open_fido.OpenPgp.{
  right, wrong, blocked, State, Command, Response, handle_apdu, handle_verify, verify_pin, try_pin,
  answer_verdict, handle_change_reference, change_pin, replace_pin, handle_get_data,
  handle_put_data, handle_generate_asymmetric, handle_pso, handle_internal_authenticate,
  handle_terminate, handle_activate, sign, decipher, authenticate, answer_with, Verdict, Pin,
}

-- The state behind a sequence of APDUs.
unfoldable pub run : List Command → State → State
run [] s = s
run (c ∷ cs) s = run cs (handle_apdu c s).1

-- What only the admin may change, and that the admin has not been let in.
pub record SameCard (s s' : State) : Type 0 where
  pub cardholder : s'.cardholder ≡ s.cardholder
  pub key_slots : s'.key_slots ≡ s.key_slots
  pub terminated : s'.terminated ≡ s.terminated
  pub locked : s'.admin.verified ≡ false

SameCard-trans : (s s' s'' : State) → SameCard s s' → SameCard s' s'' → SameCard s s''
SameCard-trans s s' s'' a b = record {
  cardholder = b.cardholder ∙ a.cardholder;
  key_slots = b.key_slots ∙ a.key_slots;
  terminated = b.terminated ∙ a.terminated;
  locked = b.locked;
}

SameCard-refl : (s : State) → s.admin.verified ≡ false → SameCard s s
SameCard-refl s l = record { cardholder = refl; key_slots = refl; terminated = refl; locked = l }

-- The command is a VERIFY of the admin PIN with these bytes, or a change that gives them as the old
-- PIN.
abbrev pub PresentsAdmin : List ℕ → Command → Type 0
PresentsAdmin code c =
    (c.p2 ≡ 0x83)
    × (((c.ins ≡ 0x20) × (take c.lc c.bytes ≡ code))
        ⊎ ((c.ins ≡ 0x24) × (take (c.lc / 2) c.bytes ≡ code)))

try_pin-locked :
    (p : Pin) (code : List ℕ)
    → p.verified ≡ false
    → (p.retries ≡ 0) ⊎ (code ≢ p.code)
    → (try_pin p code).1.verified ≡ false
unfolding try_pin
try_pin-locked p code l n = let right = bytes_eq→eq code p.code in ground arith

try_pin-code : (p : Pin) (code : List ℕ) → (try_pin p code).1.code ≡ p.code
unfolding try_pin
try_pin-code p code = ground arith

try_pin-blocked : (p : Pin) (code : List ℕ) → p.retries ≡ 0 → (try_pin p code).1.retries ≡ 0
unfolding try_pin
try_pin-blocked p code z = ground arith

pub answer_verdict-state : (ref : ℕ) (o : Verdict × State) → (answer_verdict ref o).1 ≡ o.1
unfolding answer_verdict
answer_verdict-state ref (right, s) = refl
answer_verdict-state ref (wrong, s) = refl
answer_verdict-state ref (blocked, s) = refl

-- What a VERIFY may change.
verify-SameCard :
    (c : Command) (s : State)
    → s.admin.verified ≡ false
    → (c.p2 ≡ 0x83 → (s.admin.retries ≡ 0) ⊎ (take c.lc c.bytes ≢ s.admin.code))
    → SameCard s (handle_verify c s).1
unfolding handle_verify verify_pin
verify-SameCard c s l n =
    let code = take c.lc c.bytes in
    let locked : c.p2 ≡ 0x83 → (try_pin s.admin code).1.verified ≡ false =
      λ e. try_pin-locked s.admin code l (n e) in
    let tried : SameCard s (verify_pin c.p2 code s).1 = ground (arith, l, locked) in
    let whole : SameCard s (answer_verdict c.p2 (verify_pin c.p2 code s)).1 =
      rw (answer_verdict-state c.p2 (verify_pin c.p2 code s)) tried in
    if-both (λ (o : Response × State). SameCard s o.1) (c.lc == 0) _ _ (SameCard-refl s l) whole

change-SameCard :
    (c : Command) (s : State)
    → s.admin.verified ≡ false
    → SameCard s (handle_change_reference c s).1
unfolding handle_change_reference change_pin replace_pin
change-SameCard c s l = ground arith

-- The handlers that need the admin.
other-SameCard :
    (c : Command) (s : State)
    → s.admin.verified ≡ false
    → c.ins ≢ 0x20
    → c.ins ≢ 0x24
    → SameCard s (handle_apdu c s).1
unfolding handle_apdu handle_get_data handle_put_data handle_generate_asymmetric handle_pso
    handle_internal_authenticate handle_terminate handle_activate sign decipher authenticate
    answer_with
other-SameCard c s l n m = ground (arith, l, n, m)

apdu-SameCard :
    (c : Command) (s : State)
    → s.admin.verified ≡ false
    → (c.ins ≡ 0x20 → c.p2 ≡ 0x83 → (s.admin.retries ≡ 0) ⊎ (take c.lc c.bytes ≢ s.admin.code))
    → SameCard s (handle_apdu c s).1
unfolding handle_apdu
apdu-SameCard c s l n = elim (ℕ_discrete c.ins 0x20) [
  | yes v ↦ let verify = verify-SameCard c s l (n v) in ground (arith, v, verify, l)
  | no not_v ↦ elim (ℕ_discrete c.ins 0x24) [
    | yes ch ↦ let change = change-SameCard c s l in ground (arith, ch, change, l)
    | no not_ch ↦ other-SameCard c s l not_v not_ch
  ]
]

-- What becomes of the admin PIN.
verify-admin :
    (c : Command) (s : State)
    → ((handle_verify c s).1.admin ≡ s.admin)
      ⊎ ((c.p2 ≡ 0x83) × ((handle_verify c s).1.admin ≡ (try_pin s.admin (take c.lc c.bytes)).1))
unfolding handle_verify verify_pin
verify-admin c s =
    let state = answer_verdict-state c.p2 (verify_pin c.p2 (take c.lc c.bytes) s) in
    elim (ℕ_discrete c.p2 0x83) [
      | yes admin ↦ elim (Bool-cases (c.lc == 0)) [
        | inl empty ↦ inl (ground (arith, empty))
        | inr some_bytes ↦ inr (admin, ground (arith, state, admin, some_bytes))
      ]
      | no other ↦ inl (ground (arith, state, other))
    ]

change-admin :
    (c : Command) (s : State)
    → ((handle_change_reference c s).1.admin.retries ≡ s.admin.retries)
      × (((handle_change_reference c s).1.admin.code ≡ s.admin.code)
          ⊎ ((c.p2 ≡ 0x83) × (take (c.lc / 2) c.bytes ≡ s.admin.code)))
unfolding handle_change_reference change_pin replace_pin
change-admin c s =
    let right = bytes_eq→eq (take (c.lc / 2) c.bytes) s.admin.code in
    (ground arith, ground (arith, right))

other-admin :
    (c : Command) (s : State) → c.ins ≢ 0x20 → c.ins ≢ 0x24 → (handle_apdu c s).1.admin ≡ s.admin
unfolding handle_apdu handle_get_data handle_put_data handle_generate_asymmetric handle_pso
    handle_internal_authenticate handle_terminate handle_activate sign decipher authenticate
    answer_with
other-admin c s n m = ground (arith, n, m)

apdu-blocked :
    (c : Command) (s : State) → s.admin.retries ≡ 0 → (handle_apdu c s).1.admin.retries ≡ 0
unfolding handle_apdu
apdu-blocked c s z =
    let tried = try_pin-blocked s.admin (take c.lc c.bytes) z in
    let verified : (handle_verify c s).1.admin.retries ≡ 0 = elim (verify-admin c s) [
      | inl same ↦ ap (λ (p : Pin). p.retries) same ∙ z
      | inr (_, changed) ↦ ap (λ (p : Pin). p.retries) changed ∙ tried
    ] in
    let (changed, _) = change-admin c s in
    elim (ℕ_discrete c.ins 0x20) [
      | yes v ↦ ground (arith, v, verified, z)
      | no not_v ↦ elim (ℕ_discrete c.ins 0x24) [
        | yes ch ↦ ground (arith, ch, changed, z)
        | no not_ch ↦ ap (λ (p : Pin). p.retries) (other-admin c s not_v not_ch) ∙ z
      ]
    ]

apdu-code :
    (c : Command) (s : State)
    → ¬ PresentsAdmin s.admin.code c
    → (handle_apdu c s).1.admin.code ≡ s.admin.code
unfolding handle_apdu
apdu-code c s n =
    let tried = try_pin-code s.admin (take c.lc c.bytes) in
    let verified : (handle_verify c s).1.admin.code ≡ s.admin.code = elim (verify-admin c s) [
      | inl same ↦ ap (λ (p : Pin). p.code) same
      | inr (_, changed) ↦ ap (λ (p : Pin). p.code) changed ∙ tried
    ] in
    let (_, changed) = change-admin c s in
    elim (ℕ_discrete c.ins 0x20) [
      | yes v ↦ ground (arith, v, verified)
      | no not_v ↦ elim (ℕ_discrete c.ins 0x24) [
        | yes ch ↦ elim changed [
          | inl same ↦ ground (arith, ch, same)
          | inr (ref, old) ↦ absurd (n (ref, inr (ch, old)))
        ]
        | no not_ch ↦ ap (λ (p : Pin). p.code) (other-admin c s not_v not_ch)
      ]
    ]

run_from-SameCard :
    (code : List ℕ) (cs : List Command) (s : State)
    → s.admin.code ≡ code
    → s.admin.verified ≡ false
    → All (λ c. ¬ PresentsAdmin code c) cs
    → SameCard s (run cs s)
unfolding run
run_from-SameCard code [] s e l n = SameCard-refl s l
run_from-SameCard code (c ∷ cs) s e l n =
    let unasked : ¬ PresentsAdmin s.admin.code c = subst (λ x. ¬ PresentsAdmin x c) (sym e) n.0 in
    let first = apdu-SameCard c s l (λ v ref. inr (λ right. unasked (ref, inl (v, right)))) in
    SameCard-trans s (handle_apdu c s).1 (run cs (handle_apdu c s).1) first
      (run_from-SameCard code cs (handle_apdu c s).1 (apdu-code c s unasked ∙ e) first.locked n.1)

-- As long as the admin PIN is not verified and no command presents it, in a VERIFY or as the old PIN
-- of a change, no sequence of APDUs changes the cardholder's data, a key or the terminated flag, and
-- the admin stays locked out.
pub run-SameCard :
    (cs : List Command) (s : State)
    → s.admin.verified ≡ false
    → All (λ c. ¬ PresentsAdmin s.admin.code c) cs
    → SameCard s (run cs s)
run-SameCard cs s l n = run_from-SameCard s.admin.code cs s refl l n

-- With no retries of the admin PIN left and the admin locked out, no sequence of APDUs at all, not
-- even with the right PIN, changes the cardholder's data, a key or the terminated flag, or lets the
-- admin in.
pub run-stays_blocked :
    (cs : List Command) (s : State)
    → s.admin.verified ≡ false
    → s.admin.retries ≡ 0
    → SameCard s (run cs s)
unfolding run
run-stays_blocked [] s l z = SameCard-refl s l
run-stays_blocked (c ∷ cs) s l z =
    let first = apdu-SameCard c s l (λ _ _. inl z) in
    SameCard-trans s (handle_apdu c s).1 (run cs (handle_apdu c s).1) first
      (run-stays_blocked cs (handle_apdu c s).1 first.locked (apdu-blocked c s z))
