-- ===== src/OpenPgp/PinLaws.antt =====
-- The PINs of src/openpgp/openpgp.c: what changing one takes, and what a reset leaves.
use open_fido.Common.{
  ℕ, ◌≡◌, ◌≢◌, ◌≤◌, ◌/◌, ◌++◌, List, [], ◌∷◌, All, length, take, drop, none, false, arith, refl,
  ◌∙◌, ap, length-append, take-length-append, drop-length-append, take_all,
}
use open_fido.Common.Memory.{bytes_eq→eq, bytes_eq_refl}
use open_fido.OpenPgp.{
  State, Command, handle_apdu, handle_change_reference, change_pin, replace_pin, reset,
  generate_key, Response,
}
use open_fido.OpenPgp.Laws.{run}

-- A change of the user PIN that gives these bytes as the old one, followed by as many new ones.
abbrev pub change_user : List ℕ → List ℕ → Command
change_user old_pin new_pin = record {
  ins = 0x24;
  p1 = 0;
  p2 = 0x81;
  lc = length (old_pin ++ new_pin);
  bytes = old_pin ++ new_pin;
}

half_of :
    (old_pin new_pin : List ℕ)
    → length old_pin ≡ length new_pin
    → length (old_pin ++ new_pin) / 2 ≡ length old_pin
half_of old_pin new_pin e = omega (arith, length-append old_pin new_pin, e)

-- The answer to such a change.
change_user_lem :
    (old_pin new_pin : List ℕ) (s : State)
    → s.terminated ≡ false
    → length old_pin ≡ length new_pin
    → 6 ≤ length old_pin
    → length old_pin ≤ 127
    → ((old_pin ≢ s.user.code)
        → (handle_apdu (change_user old_pin new_pin) s) ≡ (record { bytes = []; sw = 0x6982 }, s))
      × ((old_pin ≡ s.user.code)
          → (handle_apdu (change_user old_pin new_pin) s) ≡ (
            record { bytes = []; sw = 0x9000 },
            record s { user = record s.user { code = new_pin } },
          ))
unfolding handle_apdu handle_change_reference change_pin replace_pin
change_user_lem old_pin new_pin s t e low high =
    let half = half_of old_pin new_pin e in
    let old : take (length (old_pin ++ new_pin) / 2) (old_pin ++ new_pin) ≡ old_pin =
      ap (λ n. take n (old_pin ++ new_pin)) half ∙ take-length-append old_pin new_pin in
    let behind : drop (length (old_pin ++ new_pin) / 2) (old_pin ++ new_pin) ≡ new_pin =
      ap (λ n. drop n (old_pin ++ new_pin)) half ∙ drop-length-append old_pin new_pin in
    let new : take (length (old_pin ++ new_pin) / 2) new_pin ≡ new_pin =
      take_all (length (old_pin ++ new_pin) / 2) new_pin (omega (arith, half, e)) in
    let total = length-append old_pin new_pin in
    let right = bytes_eq→eq old_pin s.user.code in
    let itself = bytes_eq_refl s.user.code in
    (
      λ n. ground (arith, t, old, behind, new, total, e, low, high, right, n),
      λ same. ground (arith, t, old, behind, new, total, e, low, high, itself, same),
    )

-- The wrong guesses, each of a length that a PIN may have.
abbrev pub Guesses : List ℕ → List (List ℕ) → Type 0
Guesses code guesses = All (λ g. (g ≢ code) × ((6 ≤ length g) × (length g ≤ 127))) guesses

abbrev pub commands : List (List ℕ) → List Command
commands [] = []
commands (g ∷ gs) = change_user g g ∷ commands gs

guesses_kept :
    (guesses : List (List ℕ)) (s : State)
    → s.terminated ≡ false
    → Guesses s.user.code guesses
    → run (commands guesses) s ≡ s
unfolding run
guesses_kept [] s t n = refl
guesses_kept (g ∷ gs) s t (n, rest) =
    let (wrong, _) = change_user_lem g g s t refl n.1.0 n.1.1 in
    ap (λ (o : Response × State). run (commands gs) o.1) (wrong n.0) ∙ guesses_kept gs s t rest

-- Guessing the user PIN by changing it costs nothing: after any number of wrong old PINs the card is
-- as it was, and the right one is then accepted and replaced, whatever is left of the retries, none
-- included. The card is not terminated, and the PINs have 6 to 127 bytes.
pub change_pin-unlimited :
    (guesses : List (List ℕ)) (new_pin : List ℕ) (s : State)
    → s.terminated ≡ false
    → Guesses s.user.code guesses
    → length s.user.code ≡ length new_pin
    → 6 ≤ length new_pin
    → length new_pin ≤ 127
    → let (r, s') = handle_apdu (change_user s.user.code new_pin) (run (commands guesses) s) in
      (r.sw ≡ 0x9000) × (s' ≡ record s { user = record s.user { code = new_pin } })
change_pin-unlimited guesses new_pin s t n e low high =
    let kept = guesses_kept guesses s t n in
    let (_, accepted) =
      change_user_lem s.user.code new_pin s t e (omega (arith, e, low)) (omega (arith, e, high)) in
    let whole = ap (handle_apdu (change_user s.user.code new_pin)) kept ∙ accepted refl in
    (ap (λ (o : Response × State). o.0.sw) whole, ap (λ (o : Response × State). o.1) whole)

-- After a reset no slot has the reference of the decryption or the authentication key, so that no
-- key can be generated there.
reset-loses_slots :
    (key_ref algorithm key_size : ℕ) (s : State)
    → key_ref ≢ 0
    → generate_key key_ref algorithm key_size (reset s).key_slots ≡ none
unfolding generate_key reset
reset-loses_slots key_ref algorithm key_size s n = ground (arith, n)
