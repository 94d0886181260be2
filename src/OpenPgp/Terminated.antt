-- ===== src/OpenPgp/Terminated.antt =====
-- TERMINATE and ACTIVATE of src/openpgp/openpgp.c, on a card from its start on.
use open_fido.Common.{
  arith, ◌≡◌, List, true, ◌∷◌, ℕ_discrete, take, All, ◌≢◌, [], if◌then◌else◌, ap, ◌∙◌, ◌==◌, refl,
  false,
}
use open_fido.OpenPgp.{
  State, init, handle_verify, handle_change_reference, handle_apdu, verify_pin, handle_get_data,
  handle_activate, change_pin, Command, replace_pin, handle_put_data, handle_generate_asymmetric,
  handle_pso, handle_internal_authenticate, handle_terminate, sign, decipher, authenticate,
  answer_with,
}
use open_fido.OpenPgp.Laws.{run, answer_verdict-state}

-- A terminated card has its admin verified.
abbrev KeepsAdmin : State → Type 0
KeepsAdmin s = s.terminated ≡ true → s.admin.verified ≡ true

change-verified :
    (c : Command) (s : State)
    → ((handle_change_reference c s).1.admin.verified ≡ s.admin.verified)
      × ((handle_change_reference c s).1.terminated ≡ s.terminated)
unfolding handle_change_reference change_pin replace_pin
change-verified c s = (ground arith, ground arith)

verify-terminated : (c : Command) (s : State) → (handle_verify c s).1.terminated ≡ s.terminated
unfolding handle_verify verify_pin
verify-terminated c s =
    let state = answer_verdict-state c.p2 (verify_pin c.p2 (take c.lc c.bytes) s) in
    ground (arith, state)

other-KeepsAdmin :
    (c : Command) (s : State)
    → KeepsAdmin s
    → c.ins ≢ 0x20
    → c.ins ≢ 0x24
    → KeepsAdmin (handle_apdu c s).1
unfolding handle_apdu handle_get_data handle_put_data handle_generate_asymmetric handle_pso
    handle_internal_authenticate handle_terminate handle_activate sign decipher authenticate
    answer_with
other-KeepsAdmin c s k n m t = ground (arith, k, n, m, t)

apdu-KeepsAdmin : (c : Command) (s : State) → KeepsAdmin s → KeepsAdmin (handle_apdu c s).1
unfolding handle_apdu
apdu-KeepsAdmin c s k t = elim (ℕ_discrete c.ins 0x20) [
  | yes v ↦ let verified = verify-terminated c s in ground (arith, v, verified, k, t)
  | no not_v ↦ elim (ℕ_discrete c.ins 0x24) [
    | yes ch ↦ let (admin, flag) = change-verified c s in ground (arith, ch, admin, flag, k, t)
    | no not_ch ↦ other-KeepsAdmin c s k not_v not_ch t
  ]
]

init-KeepsAdmin : KeepsAdmin init
unfolding init
init-KeepsAdmin t = absurd (ground (arith, t))

run-KeepsAdmin : (cs : List Command) (s : State) → KeepsAdmin s → KeepsAdmin (run cs s)
unfolding run
run-KeepsAdmin [] s k = k
run-KeepsAdmin (c ∷ cs) s k = run-KeepsAdmin cs (handle_apdu c s).1 (apdu-KeepsAdmin c s k)

run-frozen :
    (cs : List Command) (s : State)
    → s.terminated ≡ true
    → All (λ (c : Command). c.ins ≢ 0x44) cs
    → run cs s ≡ s
unfolding run handle_apdu
run-frozen [] s t n = refl
run-frozen (c ∷ cs) s t n =
    let (other, others) = n in
    let same : (handle_apdu c s).1 ≡ s = ground (arith, t, other) in
    ap (run cs) same ∙ run-frozen cs s t others

-- Wherever a sequence of APDUs behind the start leaves the card terminated: no sequence without an
-- ACTIVATE changes it, and each APDU but ACTIVATE is refused with 6985. The first ACTIVATE succeeds,
-- for the admin is still verified, and changes nothing but the flag.
pub run-terminated :
    (before cs : List Command) (c : Command)
    → (run before init).terminated ≡ true
    → All (λ (k : Command). k.ins ≢ 0x44) cs
    → (run cs (run before init) ≡ run before init)
      × ((handle_apdu c (run before init)).0.sw ≡ (if c.ins == 0x44 then 0x9000 else 0x6985))
      × ((handle_apdu c (run before init)).1 ≡ (
          if c.ins == 0x44
          then record (run before init) { terminated = false }
          else run before init))
unfolding handle_apdu handle_activate
run-terminated before cs c t n =
    let s = run before init in
    let verified : s.admin.verified ≡ true = run-KeepsAdmin before init init-KeepsAdmin t in
    (run-frozen cs s t n, ground (arith, t, verified), ground (arith, t, verified))
