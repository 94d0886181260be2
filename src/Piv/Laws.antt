-- ===== src/Piv/Laws.antt =====
-- Sequences of APDUs on a card of src/piv/piv.c: without the PIN, and with the PIN blocked.
use open_fido.Common.{
  ℕ, ◌≡◌, ◌≢◌, ◌≤◌, List, [], ◌∷◌, Option, none, some, length, All, false, arith, refl, ◌∙◌, take,
  subst, sym,
}
use open_fido.Piv.{
  handle_verify, handle_get_data, handle_apdu, State, Command, respond_data,
  handle_change_reference, Response, handle_put_data, handle_generate_asymmetric, get_data,
  CertSlot, reset, generate_in, put_data, answer, object_id_of,
}
use open_fido.Common.Memory.{bytes_eq→eq}

-- A sequence of APDUs; `none` is an access behind the end of an array.
unfoldable pub run : List Command → State → Option State
run [] s = some s
run (c ∷ cs) s = elim (handle_apdu c s) [ none ↦ none | some (r, s') ↦ run cs s' ]

-- The command is a VERIFY with the PIN.
abbrev pub PresentsPin : List ℕ → Command → Type 0
PresentsPin pin c = (c.ins ≡ 0x20) × (take (length pin) c.bytes ≡ pin)

-- What the PIN protects: itself, the keys and the certificates.
pub record SameSecrets (s s' : State) : Type 0 where
  pub pin : s'.pin ≡ s.pin
  pub key_slots : s'.key_slots ≡ s.key_slots
  pub cert_slots : s'.cert_slots ≡ s.cert_slots
  pub locked : s'.pin_verified ≡ false

verify-SameSecrets :
    (c : Command) (s s' : State) (r : Response)
    → s.pin_verified ≡ false
    → take (length s.pin) c.bytes ≢ s.pin
    → handle_verify c s ≡ some (r, s')
    → SameSecrets s s'
unfolding handle_verify
verify-SameSecrets c s s' r l n e =
    let right = bytes_eq→eq (take (length s.pin) c.bytes) s.pin in ground arith

get_data-SameSecrets :
    (c : Command) (s s' : State) (r : Response)
    → s.pin_verified ≡ false
    → handle_get_data c s ≡ some (r, s')
    → SameSecrets s s'
unfolding handle_get_data respond_data
get_data-SameSecrets c s s' r l e = ground arith

pub apdu-SameSecrets :
    (c : Command) (s s' : State) (r : Response)
    → s.pin_verified ≡ false
    → ¬ PresentsPin s.pin c
    → handle_apdu c s ≡ some (r, s')
    → SameSecrets s s'
unfolding handle_apdu handle_change_reference handle_put_data handle_generate_asymmetric
apdu-SameSecrets c s s' r l n e =
    let verify : c.ins ≡ 0x20 → handle_verify c s ≡ some (r, s') → SameSecrets s s' =
      λ i. verify-SameSecrets c s s' r l (λ p. n (i, p)) in
    ground (arith, verify, get_data-SameSecrets c s s' r l)

pub SameSecrets-trans :
    (s s' s'' : State) → SameSecrets s s' → SameSecrets s' s'' → SameSecrets s s''
SameSecrets-trans s s' s'' a b = record {
  pin = b.pin ∙ a.pin;
  key_slots = b.key_slots ∙ a.key_slots;
  cert_slots = b.cert_slots ∙ a.cert_slots;
  locked = b.locked;
}

-- A sequence that comes to an end has an answer to its first command.
pub first_answer :
    (cs : List Command) (o : Option (Response × State)) (s' : State)
    → (elim o [ none ↦ none | some (r, s1) ↦ run cs s1 ]) ≡ some s'
    → (r : Response) × (s1 : State) × (o ≡ some (r, s1)) × (run cs s1 ≡ some s')
first_answer cs none s' e = absurd (cc)
first_answer cs (some (r, s1)) s' e = (r, s1, refl, e)

run_from-SameSecrets :
    (pin : List ℕ) (cs : List Command) (s s' : State)
    → s.pin ≡ pin
    → s.pin_verified ≡ false
    → All (λ c. ¬ PresentsPin pin c) cs
    → run cs s ≡ some s'
    → SameSecrets s s'
unfolding run
run_from-SameSecrets pin [] s s' p l n e = ground arith
run_from-SameSecrets pin (c ∷ cs) s s' p l n e =
    let (r, s1, h, f) = first_answer cs (handle_apdu c s) s' e in
    let first = apdu-SameSecrets c s s1 r l (subst (λ x. ¬ PresentsPin x c) (sym p) n.0) h in
    SameSecrets-trans s s1 s' first
      (run_from-SameSecrets pin cs s1 s' (first.pin ∙ p) first.locked n.1 f)

-- As long as the PIN is not verified and no command presents it, no sequence of APDUs that stays
-- within the arrays changes the PIN, a key or a certificate, and the card stays locked.
pub run-SameSecrets :
    (cs : List Command) (s s' : State)
    → s.pin_verified ≡ false
    → All (λ c. ¬ PresentsPin s.pin c) cs
    → run cs s ≡ some s'
    → SameSecrets s s'
run-SameSecrets cs s s' l n e = run_from-SameSecrets s.pin cs s s' refl l n e

-- No object in the certificate slots is longer than a response.
abbrev pub FitsResponse : State → Type 0
FitsResponse s = All (λ (c : CertSlot). length c.cert ≤ 256) s.cert_slots

-- The card with no retries left, and not unlocked.
pub record IsBlocked (s : State) : Type 0 where
  pub none_left : s.pin_retries ≡ 0
  pub locked : s.pin_verified ≡ false
  pub responses : FitsResponse s

get_data-fits :
    (object_id : ℕ) (cs : List CertSlot) (content : List ℕ)
    → All (λ (c : CertSlot). length c.cert ≤ 256) cs
    → get_data object_id cs ≡ some content
    → length content ≤ 256
unfolding get_data
get_data-fits object_id [] content a e = ground arith
get_data-fits object_id (c ∷ cs) content a e =
    ground (arith, get_data-fits object_id cs content a.1, a.0)

-- The state behind an answer.
abbrev pub after : Option (Response × State) → Option State
after none = none
after (some (r, s)) = some s

-- The status word of an answer.
abbrev pub status : Option (Response × State) → Option ℕ
status none = none
status (some (r, s)) = some r.sw

after-respond_data :
    (s : State) (o : Option (List ℕ))
    → ((content : List ℕ) → o ≡ some content → length content ≤ 256)
    → after (respond_data s o) ≡ some s
unfolding respond_data
after-respond_data s none h = refl
after-respond_data s (some content) h = let fits = h content refl in ground arith

after-handle_get_data :
    (c : Command) (s : State) → IsBlocked s → after (handle_get_data c s) ≡ some s
unfolding handle_get_data
after-handle_get_data c s b = go (object_id_of c)
  where
    go :
        (o : Option ℕ)
        → after (elim o [
          | none ↦ answer 0x6A80 s
          | some object_id ↦ respond_data s (get_data object_id s.cert_slots)
        ])
          ≡ some s
    go none = refl
    go (some object_id) =
        after-respond_data s (get_data object_id s.cert_slots)
          (λ content e. get_data-fits object_id s.cert_slots content b.responses e)

-- A blocked card answers every APDU, and stays as it is.
after-handle_apdu : (c : Command) (s : State) → IsBlocked s → after (handle_apdu c s) ≡ some s
unfolding handle_apdu handle_verify handle_change_reference handle_put_data
    handle_generate_asymmetric
after-handle_apdu c s b = ground (arith, b, after-handle_get_data c s b)

-- A blocked card stays as it is.
pub run-IsBlocked : (cs : List Command) (s : State) → IsBlocked s → run cs s ≡ some s
unfolding run
run-IsBlocked [] s b = refl
run-IsBlocked (c ∷ cs) s b = ground (arith, after-handle_apdu c s b, run-IsBlocked cs s b)

-- After `piv_reset` no key can be generated and no object stored: the slots have lost the names
-- that only `piv_init` gives them.
reset-loses_slots :
    (s : State) (ref object_id algorithm : ℕ) (content : List ℕ)
    → ref ≢ 0
    → object_id ≢ 0
    → (generate_in ref algorithm (reset s).key_slots ≡ none)
      × (put_data object_id content (reset s).cert_slots ≡ none)
unfolding reset generate_in put_data
reset-loses_slots s ref object_id algorithm content r o = ground arith
