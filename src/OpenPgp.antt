-- ===== src/OpenPgp.antt =====
-- src/openpgp/openpgp.c: the PINs, the data objects and the keys of the OpenPGP application, and the
-- dispatch of its APDUs. `openpgp_init` also registers the application with CCID, which is left out.
pub mod Laws
pub mod PinLaws
pub mod Terminated
mod Tests
use open_fido.Common.{
  ℕ, zero, suc, ◌+◌, ◌-◌, ◌*◌, ◌/◌, ◌%◌, ◌^◌, bit_or, Bool, true, false, not, ◌&&◌, ◌||◌, Option,
  none, some, List, [], ◌∷◌, length, take, drop, get_or, replicate, ltb, ◌==◌, if◌then◌else◌,
}
use open_fido.Common.Memory.{bytes_eq, c_string}

-- One of the two PINs of `openpgp_state_t`: the flag, the retries and the first `len` bytes.
pub record Pin : Type 0 where
  pub verified : Bool
  pub retries : ℕ
  pub code : List ℕ

-- `openpgp_key_slot_t`, without the fields that no function writes.
pub record KeySlot : Type 0 where
  pub key_ref : ℕ
  pub algorithm : ℕ
  pub key_size : ℕ
  pub generated : Bool

-- The data objects of `openpgp_state_t`. A string is its characters up to the NUL.
pub record Cardholder : Type 0 where
  pub name : List ℕ
  pub language : List ℕ
  pub sex : ℕ
  pub url : List ℕ

-- `openpgp_state` and `key_slots`, without the reset code, which no function uses.
pub record State : Type 0 where
  pub user : Pin
  pub admin : Pin
  pub cardholder : Cardholder
  pub sig_counter : ℕ
  pub terminated : Bool
  pub key_slots : List KeySlot

-- `apdu_command_t`, as far as it is read; `bytes` is its `data`.
pub record Command : Type 0 where
  pub ins : ℕ
  pub p1 : ℕ
  pub p2 : ℕ
  pub lc : ℕ
  pub bytes : List ℕ

-- The first `len` bytes of `apdu_response_t`'s data, and its status word.
pub record Response : Type 0 where
  pub bytes : List ℕ
  pub sw : ℕ

abbrev pub pin_user_ref : ℕ
pin_user_ref = 0x81

abbrev pub pin_admin_ref : ℕ
pin_admin_ref = 0x83

abbrev pub pin_max_retries : ℕ
pin_max_retries = 3

abbrev pub default_pin_user : List ℕ
default_pin_user = 0x31 ∷ 0x32 ∷ 0x33 ∷ 0x34 ∷ 0x35 ∷ 0x36 ∷ []

abbrev pub default_pin_admin : List ℕ
default_pin_admin = 0x31 ∷ 0x32 ∷ 0x33 ∷ 0x34 ∷ 0x35 ∷ 0x36 ∷ 0x37 ∷ 0x38 ∷ []

abbrev pub fresh_pin : List ℕ → Pin
fresh_pin code = record { verified = false; retries = pin_max_retries; code = code }

abbrev pub key_slot : ℕ → KeySlot
key_slot ref = record { key_ref = ref; algorithm = 0; key_size = 0; generated = false }

-- "OpenFIDO User", "en" and '9'.
abbrev pub default_cardholder : Cardholder
default_cardholder = record {
  name =
      0x4F ∷ 0x70 ∷ 0x65 ∷ 0x6E ∷ 0x46 ∷ 0x49 ∷ 0x44 ∷ 0x4F ∷ 0x20 ∷ 0x55 ∷ 0x73 ∷ 0x65 ∷ 0x72 ∷ [];
  language = 0x65 ∷ 0x6E ∷ [];
  sex = 0x39;
  url = [];
}

unfoldable pub init : State
init = record {
  user = fresh_pin default_pin_user;
  admin = fresh_pin default_pin_admin;
  cardholder = default_cardholder;
  sig_counter = 0;
  terminated = false;
  key_slots = key_slot 0 ∷ key_slot 1 ∷ key_slot 2 ∷ [];
}

-- `openpgp_reset` clears the slots with the references that `openpgp_init` gave them.
unfoldable pub reset : State → State
reset s = record {
  user = fresh_pin default_pin_user;
  admin = fresh_pin default_pin_admin;
  cardholder = default_cardholder;
  sig_counter = 0;
  terminated = false;
  key_slots = replicate 3 (key_slot 0);
}

-- A response with no data.
abbrev pub answer : ℕ → State → Response × State
answer sw s = (record { bytes = []; sw = sw }, s)

-- The results 0, -1 and -2 of `openpgp_verify_pin`.
pub data Verdict : Type 0 where
  right wrong blocked : Verdict

-- A branch of `openpgp_verify_pin`, on the PIN it is about.
unfoldable pub try_pin : Pin → List ℕ → Verdict × Pin
try_pin p code =
    if p.retries == 0
    then (blocked, p)
    else if (length code == length p.code) && bytes_eq code p.code
    then (right, record p { verified = true; retries = pin_max_retries })
    else (wrong, record p { verified = false; retries = p.retries - 1 })

unfoldable pub verify_pin : ℕ → List ℕ → State → Verdict × State
verify_pin pin_ref code s =
    let (user_verdict, user') = try_pin s.user code in
    let (admin_verdict, admin') = try_pin s.admin code in
    if pin_ref == pin_user_ref
    then (user_verdict, record s { user = user' })
    else if pin_ref == pin_admin_ref
    then (admin_verdict, record s { admin = admin' })
    else (wrong, s)

-- The answer to a verdict; the retries are those left afterwards.
unfoldable pub answer_verdict : ℕ → Verdict × State → Response × State
answer_verdict pin_ref (right, s) = answer 0x9000 s
answer_verdict pin_ref (blocked, s) = answer 0x6983 s
answer_verdict pin_ref (wrong, s) =
    answer (bit_or 0x6300 (if pin_ref == pin_user_ref then s.user.retries else s.admin.retries)) s

unfoldable pub is_verified : ℕ → State → Bool
is_verified pin_ref s =
    if pin_ref == pin_user_ref
    then s.user.verified
    else if pin_ref == pin_admin_ref
    then s.admin.verified
    else false

unfoldable pub handle_verify : Command → State → Response × State
handle_verify cmd s =
    if cmd.lc == 0
    then answer (if is_verified cmd.p2 s then 0x9000 else 0x6982) s
    else answer_verdict cmd.p2 (verify_pin cmd.p2 (take cmd.lc cmd.bytes) s)

-- A branch of `openpgp_change_pin`, on the PIN it is about; it looks at no retries.
unfoldable pub replace_pin : Pin → List ℕ → List ℕ → Option Pin
replace_pin p old_pin new_pin =
    if not (length old_pin == length p.code) || not (bytes_eq old_pin p.code)
    then none
    else some (record p { code = new_pin })

unfoldable pub change_pin : ℕ → List ℕ → List ℕ → State → Option State
change_pin pin_ref old_pin new_pin s =
    if ltb (length new_pin) 6 || ltb 127 (length new_pin)
    then none
    else if pin_ref == pin_user_ref
    then elim (replace_pin s.user old_pin new_pin) [
      | none ↦ none
      | some p ↦ some (record s { user = p })
    ]
    else if pin_ref == pin_admin_ref
    then elim (replace_pin s.admin old_pin new_pin) [
      | none ↦ none
      | some p ↦ some (record s { admin = p })
    ]
    else none

unfoldable pub handle_change_reference : Command → State → Response × State
handle_change_reference cmd s =
    let half = cmd.lc / 2 in
    if ltb cmd.lc 12
    then answer 0x6700 s
    else elim (change_pin cmd.p2 (take half cmd.bytes) (take half (drop half cmd.bytes)) s) [
      | none ↦ answer 0x6982 s
      | some s' ↦ answer 0x9000 s'
    ]

-- `(cmd->p1 << 8) | cmd->p2`
abbrev pub tag_of : Command → ℕ
tag_of cmd = bit_or (cmd.p1 * 2 ^ 8) cmd.p2

unfoldable pub get_data : ℕ → Cardholder → Option (List ℕ)
get_data tag c =
    if tag == 0x005B
    then some c.name
    else if tag == 0x5F2D
    then some c.language
    else if tag == 0x5F35
    then some (c.sex ∷ [])
    else if tag == 0x5F50
    then some c.url
    else none

unfoldable pub handle_get_data : Command → State → Response × State
handle_get_data cmd s = elim (get_data (tag_of cmd) s.cardholder) [
  | none ↦ answer 0x6A82 s
  | some content ↦ (record { bytes = content; sw = 0x9000 }, s)
]

unfoldable pub put_data : ℕ → List ℕ → Cardholder → Option Cardholder
put_data tag content c =
    if tag == 0x005B
    then if ltb 39 (length content) then none else some (record c { name = c_string content })
    else if tag == 0x5F2D
    then if ltb 8 (length content) then none else some (record c { language = c_string content })
    else if tag == 0x5F35
    then if not (length content == 1) then none else some (record c { sex = get_or content 0 0 })
    else if tag == 0x5F50
    then if ltb 255 (length content) then none else some (record c { url = c_string content })
    else none

unfoldable pub handle_put_data : Command → State → Response × State
handle_put_data cmd s =
    if not s.admin.verified
    then answer 0x6982 s
    else elim (put_data (tag_of cmd) (take cmd.lc cmd.bytes) s.cardholder) [
      | none ↦ answer 0x6A80 s
      | some c ↦ answer 0x9000 (record s { cardholder = c })
    ]

-- The first slot of the reference is marked as generated; the source makes no key.
unfoldable pub generate_key : ℕ → ℕ → ℕ → List KeySlot → Option (List KeySlot)
generate_key key_ref algorithm key_size [] = none
generate_key key_ref algorithm key_size (k ∷ ks) =
    let rest = generate_key key_ref algorithm key_size ks in
    if k.key_ref == key_ref
    then some (record k { algorithm = algorithm; key_size = key_size; generated = true } ∷ ks)
    else elim rest [ none ↦ none | some ks' ↦ some (k ∷ ks') ]

unfoldable pub handle_generate_asymmetric : Command → State → Response × State
handle_generate_asymmetric cmd s =
    if not s.admin.verified
    then answer 0x6982 s
    else elim (generate_key cmd.p2 0x13 256 s.key_slots) [
      | none ↦ answer 0x6A80 s
      | some ks ↦ answer 0x9000 (record s { key_slots = ks })
    ]

-- `openpgp_sign`, `openpgp_decipher` and `openpgp_authenticate`, which are stubs that fail.
unfoldable pub sign : List ℕ → Option (List ℕ)
sign content = none

unfoldable pub decipher : List ℕ → Option (List ℕ)
decipher content = none

unfoldable pub authenticate : List ℕ → Option (List ℕ)
authenticate content = none

-- The answer with what an operation gives.
unfoldable pub answer_with : Option (List ℕ) → State → State → Response × State
answer_with none s counted = answer 0x6A80 s
answer_with (some bytes) s counted = (record { bytes = bytes; sw = 0x9000 }, counted)

unfoldable pub handle_pso : Command → State → Response × State
handle_pso cmd s =
    let content = take cmd.lc cmd.bytes in
    if tag_of cmd == 0x9E9A
    then if not s.user.verified
      then answer 0x6982 s
      else answer_with (sign content) s (record s { sig_counter = (s.sig_counter + 1) % 2 ^ 32 })
    else if tag_of cmd == 0x8086
    then if not s.user.verified then answer 0x6982 s else answer_with (decipher content) s s
    else answer 0x6A86 s

unfoldable pub handle_internal_authenticate : Command → State → Response × State
handle_internal_authenticate cmd s =
    if not s.user.verified
    then answer 0x6982 s
    else answer_with (authenticate (take cmd.lc cmd.bytes)) s s

unfoldable pub handle_terminate : Command → State → Response × State
handle_terminate cmd s =
    if not s.admin.verified then answer 0x6982 s else answer 0x9000 (record s { terminated = true })

unfoldable pub handle_activate : Command → State → Response × State
handle_activate cmd s =
    if not s.admin.verified
    then answer 0x6982 s
    else answer 0x9000 (record s { terminated = false })

unfoldable pub handle_apdu : Command → State → Response × State
handle_apdu cmd s =
    if s.terminated && not (cmd.ins == 0x44)
    then answer 0x6985 s
    else if cmd.ins == 0x20
    then handle_verify cmd s
    else if cmd.ins == 0x24
    then handle_change_reference cmd s
    else if cmd.ins == 0xCA
    then handle_get_data cmd s
    else if cmd.ins == 0xDA
    then handle_put_data cmd s
    else if cmd.ins == 0x47
    then handle_generate_asymmetric cmd s
    else if cmd.ins == 0x2A
    then handle_pso cmd s
    else if cmd.ins == 0x88
    then handle_internal_authenticate cmd s
    else if cmd.ins == 0xE6
    then handle_terminate cmd s
    else if cmd.ins == 0x44
    then handle_activate cmd s
    else answer 0x6D00 s
