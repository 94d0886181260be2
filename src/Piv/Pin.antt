-- ===== src/Piv/Pin.antt =====
-- `piv_verify_pin` and `piv_change_pin` of src/piv/piv.c, the PIN operations that the firmware calls
-- without an APDU. A PIN is the list of its bytes, and its length is the list's.
use open_fido.Common.{
  ℕ, ◌+◌, ◌-◌, ◌≡◌, ◌≢◌, ◌≤◌, List, some, length, take, not, ◌||◌, ◌&&◌, ltb, ◌==◌, if◌then◌else◌,
  ℤ, pos, negsuc, arith, ◌↔◌, length-take, ◌<◌, bit_or, ap,
}
use open_fido.Piv.{handle_verify, State, is_pin_ref, bytes_eq, Command, accept_pin, refuse_pin}
use open_fido.Common.Memory.{bytes_eq}
use open_fido.Piv.Laws.{after, status}
use open_fido.Common.Bits.{shift-bit_or}

unfoldable pub piv_verify_pin : ℕ → List ℕ → State → ℤ × State
piv_verify_pin pin_ref pin s =
    if not (is_pin_ref pin_ref)
    then (negsuc 0, s)
    else if s.pin_retries == 0
    then (negsuc 1, s)
    else if length pin == length s.pin && bytes_eq pin s.pin
    then (pos 0, accept_pin s)
    else (negsuc 0, refuse_pin s)

unfoldable pub piv_change_pin : List ℕ → List ℕ → State → ℤ × State
piv_change_pin old_pin new_pin s =
    if not s.pin_verified
    then (negsuc 0, s)
    else if not (length old_pin == length s.pin) || not (bytes_eq old_pin s.pin)
    then (negsuc 0, s)
    else if ltb (length new_pin) 6 || ltb 8 (length new_pin)
    then (negsuc 0, s)
    else (pos 0, record s { pin = new_pin })

-- A VERIFY that carries a PIN takes the state where `piv_verify_pin` takes it with the same
-- reference and the same bytes, and answers 9000 exactly where that reports 0.
handle_verify-piv_verify_pin :
    (c : Command) (s : State)
    → s.pin_retries < 256
    → c.lc ≢ 0
    → c.lc ≤ length c.bytes
    → let (code, s') = piv_verify_pin c.p2 (take c.lc c.bytes) s in
      (after (handle_verify c s) ≡ some s')
      × (status (handle_verify c s) ≡ some 0x9000 ↔ code ≡ pos 0)
unfolding handle_verify piv_verify_pin
handle_verify-piv_verify_pin c s u n l =
    let size = length-take c.lc c.bytes in
    let word : bit_or 0x6300 (s.pin_retries - 1) ≡ 0x6300 + (s.pin_retries - 1) =
      shift-bit_or 8 0x63 (s.pin_retries - 1) (omega arith) in
    let bytes : c.lc ≡ length s.pin → take c.lc c.bytes ≡ take (length s.pin) c.bytes =
      λ e. ap (λ k. take k c.bytes) e in
    ground (arith, size, word, bytes)
