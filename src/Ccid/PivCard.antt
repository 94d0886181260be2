-- ===== src/Ccid/PivCard.antt =====
-- The PIV application behind the reader: src/piv/piv.c registered with src/usb/usb_ccid.c.
use open_fido.Common.{
  ℕ, ◌/◌, ◌%◌, ◌^◌, ◌≡◌, ◌⊎◌, inl, inr, List, Option, none, some, false, arith, refl, ℤ, drop, ◌==◌,
  ◌∙◌, Bool-cases, ap, sym, All, subst, [],
}
use open_fido.Ccid.{
  State, Command, Response, Handler, App, app_at, usb_ccid_process_message, parse_apdu,
  handle_icc_power_on, drop, handle_icc_power_off, dw_length, handle_get_slot_status, process_apdu,
  handle_select, handle_xfr_block, seq, data_block, Outcome, ◌∷◌,
}
use open_fido.Piv
use open_fido.Piv.Laws.{PresentsPin, SameSecrets, apdu-SameSecrets, SameSecrets-trans}

-- The fields of the APDU that `piv_handle_apdu` reads.
abbrev pub piv_command : Command → Piv.Command
piv_command c = record { ins = c.ins; p2 = c.p2; lc = c.lc; bytes = c.bytes }

-- `set_response_sw` splits the status word.
abbrev pub card_response : Piv.Response → Response
card_response r = record { bytes = r.bytes; sw1 = r.sw / 2 ^ 8 % 256; sw2 = r.sw % 256 }

unfoldable pub answer_of : Option (Piv.Response × Piv.State) → Option (Response × Piv.State)
answer_of none = none
answer_of (some (r, s)) = some (card_response r, s)

-- `piv_handle_apdu`, as `piv_init` registers it.
unfoldable pub piv_handler : Handler Piv.State
piv_handler cmd w = answer_of (Piv.handle_apdu (piv_command cmd) w)

module _ {W : Type 0} where
  -- What an APDU did: nothing to the applications, or what the selected one does with it.
  data Effect (cmd : Command) (s : State W) (w w' : W) : Type 0 where
    untouched : w' ≡ w → Effect cmd s w w'
    handled :
        (app : App W) (r : Response)
        → app_at s.selected_app s.app_registry ≡ some app
        → app.handler cmd w ≡ some (r, w')
        → Effect cmd s w w'

  handle_select-registry :
      (cmd : Command) (s : State W) → (handle_select cmd s).1.app_registry ≡ s.app_registry
  unfolding handle_select
  handle_select-registry cmd s = ground arith

  process_apdu-Effect :
      (cmd : Command) (s s' : State W) (w w' : W) (r : Response)
      → process_apdu cmd s w ≡ some (r, s', w')
      → (s'.app_registry ≡ s.app_registry) × Effect cmd s w w'
  process_apdu-Effect cmd s s' w w' r e = elim (Bool-cases (cmd.ins == 0xA4)) [
    | inl select ↦
        let kept = handle_select-registry cmd s in
        (
          unfold process_apdu in ground (arith, select, e, kept),
          untouched (unfold process_apdu in ground (arith, select, e)),
        )
    | inr other ↦ go (app_at s.selected_app s.app_registry) refl other
  ]
    where
      called :
          (app : App W)
          → app_at s.selected_app s.app_registry ≡ some app
          → (cmd.ins == 0xA4) ≡ false
          → (o : Option (Response × W)) → app.handler cmd w ≡ o
          → (s'.app_registry ≡ s.app_registry) × Effect cmd s w w'
      called app h other none k = absurd (unfold process_apdu in ground (arith, other, e, h, k))
      called app h other (some (r', w'')) k = (
        unfold process_apdu in ground (arith, other, e, h, k),
        handled app r' h (k ∙ unfold process_apdu in ground (arith, other, e, h, k)),
      )

      go :
          (o : Option (App W))
          → app_at s.selected_app s.app_registry ≡ o
          → (cmd.ins == 0xA4) ≡ false
          → (s'.app_registry ≡ s.app_registry) × Effect cmd s w w'
      go none h other = (
        unfold process_apdu in ground (arith, other, e, h),
        untouched (unfold process_apdu in ground (arith, other, e, h)),
      )
      go (some app) h other = called app h other (app.handler cmd w) refl

  -- What an XfrBlock did: the registry is kept, and the APDU in it took effect, if there was one.
  abbrev Carried : List ℕ → List ℕ → State W → State W → W → W → Type 0
  Carried stack m s s' w w' =
      (s'.app_registry ≡ s.app_registry)
      × ((w' ≡ w)
          ⊎ ((cmd : Command) × (parse_apdu stack (drop 10 m) (dw_length m) ≡ some (some cmd))
              × Effect cmd s w w'))

  handle_xfr_block-Carried :
      (stack m : List ℕ) (s s' : State W) (w w' : W) (code : ℤ) (response : List ℕ)
      → handle_xfr_block stack m s w ≡ some (code, response, s', w')
      → Carried stack m s s' w w'
  handle_xfr_block-Carried stack m s s' w w' code response e =
      go (parse_apdu stack (drop 10 m) (dw_length m)) refl
    where
      answered :
          (cmd : Command)
          → parse_apdu stack (drop 10 m) (dw_length m) ≡ some (some cmd)
          → (o : Option (Response × State W × W)) → process_apdu cmd s w ≡ o
          → Carried stack m s s' w w'
      answered cmd h none k = absurd (unfold handle_xfr_block data_block in ground (arith, e, h, k))
      answered cmd h (some (r, s'', w'')) k =
          let (kept, effect) =
            process_apdu-Effect cmd s s' w w' r
              (k ∙ unfold handle_xfr_block data_block in ground (arith, e, h, k)) in
          (kept, inr (cmd, h, effect))

      go :
          (o : Option (Option Command))
          → parse_apdu stack (drop 10 m) (dw_length m) ≡ o
          → Carried stack m s s' w w'
      go none h = absurd (unfold handle_xfr_block in ground (arith, e, h))
      go (some none) h = (
        unfold handle_xfr_block in ground (arith, e, h),
        inl (unfold handle_xfr_block in ground (arith, e, h)),
      )
      go (some (some cmd)) h = answered cmd h (process_apdu cmd s w) refl

  -- A message is an XfrBlock, or leaves the applications alone.
  process_message-xfr :
      (stack m : List ℕ) (s s' : State W) (w w' : W) (code : ℤ) (response : List ℕ)
      → usb_ccid_process_message stack m s w ≡ some (code, response, s', w')
      → (handle_xfr_block stack m (record s { sequence = seq m }) w ≡ some (code, response, s', w'))
        ⊎ ((s'.app_registry ≡ s.app_registry) × (w' ≡ w))
  unfolding usb_ccid_process_message handle_icc_power_on handle_icc_power_off handle_get_slot_status
  process_message-xfr stack m s s' w w' code response e = ground arith

  -- A sequence of messages, with what the stack held before each.
  unfoldable pub run_messages : List (List ℕ × List ℕ) → State W → W → Option (State W × W)
  run_messages [] s w = some (s, w)
  run_messages (sm ∷ ms) s w = elim (usb_ccid_process_message sm.0 sm.1 s w) [
    | none ↦ none
    | some (code, response, s', w') ↦ run_messages ms s' w'
  ]

  first_message :
      (ms : List (List ℕ × List ℕ)) (o : Outcome W) (s2 : State W) (w2 : W)
      → (elim o [ none ↦ none | some (code, response, s', w') ↦ run_messages ms s' w' ])
        ≡ some (s2, w2)
      → (code : ℤ) × (response : List ℕ) × (s' : State W) × (w' : W) × (o
          ≡ some (code, response, s', w'))
        × (run_messages ms s' w' ≡ some (s2, w2))
  first_message ms none s2 w2 e = absurd (cc)
  first_message ms (some (code, response, s', w')) s2 w2 e = (code, response, s', w', refl, e)

-- The reader has no other application than PIV.
pub record OnlyPiv (s : State Piv.State) : Type 0 where
  pub only :
      (i : ℕ) (app : App Piv.State) → app_at i s.app_registry ≡ some app → app.handler ≡ piv_handler

-- No APDU in the message is a VERIFY with this PIN.
abbrev pub Withholds : List ℕ → List ℕ × List ℕ → Type 0
Withholds pin sm =
    (cmd : Command)
    → parse_apdu sm.0 (drop 10 sm.1) (dw_length sm.1) ≡ some (some cmd)
    → ¬ PresentsPin pin (piv_command cmd)

Effect-SameSecrets :
    (cmd : Command) (s : State Piv.State) (w w' : Piv.State)
    → OnlyPiv s
    → w.pin_verified ≡ false
    → ¬ PresentsPin w.pin (piv_command cmd)
    → Effect cmd s w w'
    → SameSecrets w w'
Effect-SameSecrets cmd s w w' only l n (untouched e) = ground (arith, e, l)
Effect-SameSecrets cmd s w w' only l n (handled app r there h) =
    go (Piv.handle_apdu (piv_command cmd) w) refl
  where
    is_piv : piv_handler cmd w ≡ some (r, w')
    is_piv = ap (λ f. f cmd w) (sym (only.only s.selected_app app there)) ∙ h

    go :
        (o : Option (Piv.Response × Piv.State))
        → Piv.handle_apdu (piv_command cmd) w ≡ o
        → SameSecrets w w'
    go none k = absurd (unfold piv_handler answer_of in ground (arith, is_piv, k))
    go (some (r', w'')) k =
        apdu-SameSecrets (piv_command cmd) w w' r' l n
          (k ∙ unfold piv_handler answer_of in ground (arith, is_piv, k))

message-SameSecrets :
    (sm : List ℕ × List ℕ) (s s' : State Piv.State) (w w' : Piv.State) (code : ℤ)
    (response : List ℕ)
    → OnlyPiv s
    → w.pin_verified ≡ false
    → Withholds w.pin sm
    → usb_ccid_process_message sm.0 sm.1 s w ≡ some (code, response, s', w')
    → OnlyPiv s' × SameSecrets w w'
message-SameSecrets sm s s' w w' code response only l n e =
    elim (process_message-xfr sm.0 sm.1 s s' w w' code response e) [
      | inr (kept, same) ↦ (keeps kept, ground (arith, same, l))
      | inl block ↦
          let (kept, effect) =
            handle_xfr_block-Carried sm.0 sm.1 (record s { sequence = seq sm.1 }) s' w w' code
              response block in
          (
            keeps kept,
            elim effect [
              | inl same ↦ ground (arith, same, l)
              | inr (cmd, parsed, did) ↦
                  Effect-SameSecrets cmd (record s { sequence = seq sm.1 }) w w'
                    (record { only = only.only }) l (n cmd parsed) did
            ],
          )
    ]
  where
    keeps : s'.app_registry ≡ s.app_registry → OnlyPiv s'
    keeps kept = record {
      only = λ i app there. only.only i app (ap (λ reg. app_at i reg) (sym kept) ∙ there);
    }

run_from-SameSecrets :
    (pin : List ℕ) (ms : List (List ℕ × List ℕ)) (s s' : State Piv.State) (w w' : Piv.State)
    → OnlyPiv s
    → w.pin ≡ pin
    → w.pin_verified ≡ false
    → All (Withholds pin) ms
    → run_messages ms s w ≡ some (s', w')
    → SameSecrets w w'
unfolding run_messages
run_from-SameSecrets pin [] s s' w w' only p l n e = ground arith
run_from-SameSecrets pin (sm ∷ ms) s s' w w' only p l n e =
    let (code, response, s1, w1, h, f) =
      first_message ms (usb_ccid_process_message sm.0 sm.1 s w) s' w' e in
    let (only', first) =
      message-SameSecrets sm s s1 w w1 code response only l
        (subst (λ x. Withholds x sm) (sym p) n.0) h in
    SameSecrets-trans w w1 w' first
      (run_from-SameSecrets pin ms s1 s' w1 w' only' (first.pin ∙ p) first.locked n.1 f)

-- A reader that has no other application than PIV is sent any messages. While the card is locked
-- and no APDU in them is a VERIFY with its PIN, they leave the PIN, the keys and the certificates
-- as they were, and the card locked.
pub run_messages-SameSecrets :
    (ms : List (List ℕ × List ℕ)) (s s' : State Piv.State) (w w' : Piv.State)
    → OnlyPiv s
    → w.pin_verified ≡ false
    → All (Withholds w.pin) ms
    → run_messages ms s w ≡ some (s', w')
    → SameSecrets w w'
run_messages-SameSecrets ms s s' w w' only l n e =
    run_from-SameSecrets w.pin ms s s' w w' only refl l n e
