-- ===== src/Piv/Blocked.antt =====
-- The card of src/piv/piv.c from its start until its retries are used up, and behind that.
use open_fido.Common.{
  ℕ, arith, ◌≡◌, List, false, some, refl, length, Option, All, ◌≤◌, IsByte, ◌≢◌, ◌∷◌, ◌+◌,
  ℕ_discrete, none, subst, get_or, ◌<◌, sym, [], All-get_or, take, drop, length-take,
}
use open_fido.Piv.{
  State, store_data, put_object, put_data, init, handle_verify, handle_put_data,
  handle_change_reference, handle_apdu, handle_generate_asymmetric, Response, Command, CertSlot,
  handle_get_data, respond_data, object_id_of,
}
use open_fido.Piv.Laws.{FitsResponse, run, run-IsBlocked, first_answer}

-- A card without retries is not unlocked.
abbrev LocksLast : State → Type 0
LocksLast s = s.pin_retries ≡ 0 → s.pin_verified ≡ false

verify-LocksLast :
    (c : Command) (s s' : State) (r : Response)
    → LocksLast s
    → handle_verify c s ≡ some (r, s')
    → LocksLast s'
unfolding handle_verify
verify-LocksLast c s s' r k e z = ground (arith, k)

-- The commands but VERIFY leave the flag and the retries alone.
put_data-PinState :
    (c : Command) (s s' : State) (r : Response)
    → handle_put_data c s ≡ some (r, s')
    → (s'.pin_verified ≡ s.pin_verified) × (s'.pin_retries ≡ s.pin_retries)
unfolding handle_put_data put_object store_data
put_data-PinState c s s' r e = (ground (arith, e), ground (arith, e))

change-PinState :
    (c : Command) (s s' : State) (r : Response)
    → handle_change_reference c s ≡ some (r, s')
    → (s'.pin_verified ≡ s.pin_verified) × (s'.pin_retries ≡ s.pin_retries)
unfolding handle_change_reference
change-PinState c s s' r e = (ground (arith, e), ground (arith, e))

apdu-LocksLast :
    (c : Command) (s s' : State) (r : Response)
    → LocksLast s
    → handle_apdu c s ≡ some (r, s')
    → LocksLast s'
unfolding handle_apdu handle_generate_asymmetric handle_get_data respond_data
apdu-LocksLast c s s' r k e z = ground (
  arith,
  k,
  e,
  z,
  verify-LocksLast c s s' r k,
  put_data-PinState c s s' r,
  change-PinState c s s' r,
)

init-LocksLast : LocksLast init
unfolding init
init-LocksLast z = refl

put_data-fits :
    (object_id : ℕ) (bytes : List ℕ) (cs cs' : List CertSlot)
    → length bytes ≤ 256
    → All (λ (c : CertSlot). length c.cert ≤ 256) cs
    → put_data object_id bytes cs ≡ some cs'
    → All (λ (c : CertSlot). length c.cert ≤ 256) cs'
unfolding put_data
put_data-fits object_id bytes [] cs' h a e = absurd (ground (arith, e))
put_data-fits object_id bytes (c ∷ cs) cs' h a e =
    go (put_data object_id bytes cs) refl (λ rest. put_data-fits object_id bytes cs rest h a.1)
  where
    go :
        (o : Option (List CertSlot))
        → put_data object_id bytes cs ≡ o
        → ((rest : List CertSlot)
            → put_data object_id bytes cs ≡ some rest
            → All (λ (k : CertSlot). length k.cert ≤ 256) rest)
        → All (λ (k : CertSlot). length k.cert ≤ 256) cs'
    go none n more = ground (arith, e, n, a, h)
    go (some rest) n more = let tail = more rest n in ground (arith, e, n, a, h, tail)

store_data-fits :
    (s s' : State) (r : Response) (o : Option (List CertSlot))
    → FitsResponse s
    → ((cs : List CertSlot) → o ≡ some cs → All (λ (c : CertSlot). length c.cert ≤ 256) cs)
    → store_data s o ≡ some (r, s')
    → FitsResponse s'
unfolding store_data
store_data-fits s s' r none kept h e = ground (arith, e, kept)
store_data-fits s s' r (some cs) kept h e =
    let same : s'.cert_slots ≡ cs = ground (arith, e) in
    subst (λ ks. All (λ (c : CertSlot). length c.cert ≤ 256) ks) (sym same) (h cs refl)

-- The length of an object is one byte of the command.
put_object-fits :
    (c : Command) (s s' : State) (r : Response) (object_id : ℕ)
    → All IsByte c.bytes
    → FitsResponse s
    → put_object c s object_id ≡ some (r, s')
    → FitsResponse s'
unfolding put_object
put_object-fits c s s' r object_id b fits e =
    let offset = 2 + get_or c.bytes 1 0 in
    let n = get_or c.bytes (offset + 1) 0 in
    let byte : n < 256 = All-get_or IsByte c.bytes (offset + 1) 0 b (omega arith) in
    let content = take n (drop (offset + 2) c.bytes) in
    let short : length content ≤ 256 =
      omega (arith, byte, length-take n (drop (offset + 2) c.bytes)) in
    let kept : (cs : List CertSlot)
        → put_data object_id content s.cert_slots ≡ some cs
        → All (λ (k : CertSlot). length k.cert ≤ 256) cs =
      λ cs. put_data-fits object_id content s.cert_slots cs short fits in
    ground
      (arith, e, fits, store_data-fits s s' r (put_data object_id content s.cert_slots) fits kept)

handle_put_data-fits :
    (c : Command) (s s' : State) (r : Response)
    → All IsByte c.bytes
    → FitsResponse s
    → handle_put_data c s ≡ some (r, s')
    → FitsResponse s'
unfolding handle_put_data
handle_put_data-fits c s s' r b fits e = go (object_id_of c) refl
  where
    go : (o : Option ℕ) → object_id_of c ≡ o → FitsResponse s'
    go none n = ground (arith, e, n, fits)
    go (some object_id) n =
        let stored = put_object-fits c s s' r object_id b fits in ground (arith, e, n, fits, stored)

other-cert_slots :
    (c : Command) (s s' : State) (r : Response)
    → c.ins ≢ 0xDB
    → handle_apdu c s ≡ some (r, s')
    → s'.cert_slots ≡ s.cert_slots
unfolding handle_apdu handle_verify handle_change_reference handle_generate_asymmetric
    handle_get_data respond_data
other-cert_slots c s s' r n e = ground (arith, n, e)

apdu-fits :
    (c : Command) (s s' : State) (r : Response)
    → All IsByte c.bytes
    → FitsResponse s
    → handle_apdu c s ≡ some (r, s')
    → FitsResponse s'
unfolding handle_apdu
apdu-fits c s s' r b fits e = elim (ℕ_discrete c.ins 0xDB) [
  | yes put ↦ let stored = handle_put_data-fits c s s' r b fits in ground (arith, put, e, stored)
  | no other ↦
      subst (λ cs. All (λ (k : CertSlot). length k.cert ≤ 256) cs)
        (sym (other-cert_slots c s s' r other e)) fits
]

init-fits : FitsResponse init
unfolding init
init-fits = search arith

-- What every card keeps from its start on.
record Reached (s : State) : Type 0 where
  locks : LocksLast s
  fits : FitsResponse s

run-Reached :
    (cs : List Command) (s s' : State)
    → Reached s
    → All (λ (c : Command). All IsByte c.bytes) cs
    → run cs s ≡ some s'
    → Reached s'
unfolding run
run-Reached [] s s' k b e = ground (arith, k, e)
run-Reached (c ∷ cs) s s' k b e =
    let (r, s1, h, f) = first_answer cs (handle_apdu c s) s' e in
    let (bytes, more) = b in
    run-Reached cs s1 s'
      (record {
        locks = apdu-LocksLast c s s1 r k.locks h;
        fits = apdu-fits c s s1 r bytes k.fits h;
      })
      more f

-- A card whose retries have been used up by any sequence of APDUs behind its start is not unlocked,
-- and it answers every further sequence of APDUs, none of which changes its state: it is not unlocked
-- by the right PIN either. The first sequence is of bytes and stays within the arrays.
pub run-blocked :
    (before cs : List Command) (s : State)
    → All (λ (c : Command). All IsByte c.bytes) before
    → run before init ≡ some s
    → s.pin_retries ≡ 0
    → (s.pin_verified ≡ false) × (run cs s ≡ some s)
run-blocked before cs s b e z =
    let start : Reached init = record { locks = init-LocksLast; fits = init-fits } in
    let reached = run-Reached before init s start b e in
    let locked = reached.locks z in
    (
      locked,
      run-IsBlocked cs s (record { none_left = z; locked = locked; responses = reached.fits }),
    )
