-- ===== src/Piv.antt =====
-- src/piv/piv.c: the PIN, the keys and the certificates of the PIV application, and the dispatch of
-- its APDUs. The application is registered with CCID by `piv_init`, which is not modelled.
mod Tests
pub mod Laws
pub mod Blocked
pub mod Pin
use open_fido.Common.{
  ℕ, zero, suc, ◌+◌, ◌-◌, ◌*◌, ◌/◌, ◌%◌, ◌^◌, bit_or, Bool, true, false, not, ◌&&◌, ◌||◌, Option,
  none, some, List, [], ◌∷◌, length, take, drop, get_or, replicate, ltb, leb, ◌==◌, if◌then◌else◌,
  pos, negsuc,
}
use open_fido.Common.Memory.{bytes_eq}

-- `piv_key_slot_t`, without the key bytes, which no function writes.
pub record KeySlot : Type 0 where
  pub key_ref : ℕ
  pub algorithm : ℕ
  pub generated : Bool

-- `piv_cert_slot_t`; the list is the first `cert_len` bytes of `cert`.
pub record CertSlot : Type 0 where
  pub object_id : ℕ
  pub cert : List ℕ
  pub present : Bool

-- `piv_state`, `key_slots` and `cert_slots`; `pin` and `puk` are their first `pin_len` and
-- `puk_len` bytes.
pub record State : Type 0 where
  pub pin_verified : Bool
  pub pin_retries : ℕ
  pub puk_retries : ℕ
  pub pin : List ℕ
  pub puk : List ℕ
  pub key_slots : List KeySlot
  pub cert_slots : List CertSlot

-- `apdu_command_t`, as far as it is read; `bytes` is its `data` of 255 bytes.
pub record Command : Type 0 where
  pub ins : ℕ
  pub p2 : ℕ
  pub lc : ℕ
  pub bytes : List ℕ

-- The first `len` bytes of `apdu_response_t`'s data, and its status word.
pub record Response : Type 0 where
  pub bytes : List ℕ
  pub sw : ℕ

abbrev pub pin_max_retries : ℕ
pin_max_retries = 3

abbrev pub default_pin : List ℕ
default_pin = 0x31 ∷ 0x32 ∷ 0x33 ∷ 0x34 ∷ 0x35 ∷ 0x36 ∷ []

abbrev pub default_puk : List ℕ
default_puk = 0x31 ∷ 0x32 ∷ 0x33 ∷ 0x34 ∷ 0x35 ∷ 0x36 ∷ 0x37 ∷ 0x38 ∷ []

abbrev pub key_slot : ℕ → KeySlot
key_slot ref = record { key_ref = ref; algorithm = 0; generated = false }

abbrev pub cert_slot : ℕ → CertSlot
cert_slot id = record { object_id = id; cert = []; present = false }

unfoldable pub init : State
init = record {
  pin_verified = false;
  pin_retries = pin_max_retries;
  puk_retries = 3;
  pin = default_pin;
  puk = default_puk;
  key_slots = key_slot 0x9A ∷ key_slot 0x9C ∷ key_slot 0x9D ∷ key_slot 0x9E ∷ [];
  cert_slots =
      cert_slot 0x5FC105 ∷ cert_slot 0x5FC10A ∷ cert_slot 0x5FC10B ∷ cert_slot 0x5FC101 ∷ [];
}

-- `piv_reset` clears the slots with the names that `piv_init` gave them.
unfoldable pub reset : State → State
reset s = record {
  pin_verified = false;
  pin_retries = pin_max_retries;
  puk_retries = 3;
  pin = default_pin;
  puk = default_puk;
  key_slots = replicate 4 (key_slot 0);
  cert_slots = replicate 4 (cert_slot 0);
}

abbrev pub is_pin_ref : ℕ → Bool
is_pin_ref ref = ref == 0x80 || ref == 0x00

-- A response with no data. `none`, below, is an access behind the end of an array.
abbrev pub answer : ℕ → State → Option (Response × State)
answer sw s = let r : Response = record { bytes = []; sw = sw } in some (r, s)

abbrev pub accept_pin : State → State
accept_pin s = record s { pin_verified = true; pin_retries = pin_max_retries }

abbrev pub refuse_pin : State → State
refuse_pin s = record s { pin_verified = false; pin_retries = s.pin_retries - 1 }

unfoldable pub handle_verify : Command → State → Option (Response × State)
handle_verify cmd s =
    if cmd.lc == 0
    then answer (if s.pin_verified then 0x9000 else bit_or 0x6300 s.pin_retries) s
    else if not (is_pin_ref cmd.p2)
    then answer 0x6A86 s
    else if s.pin_retries == 0
    then answer 0x6983 s
    else if cmd.lc == length s.pin && bytes_eq (take (length s.pin) cmd.bytes) s.pin
    then answer 0x9000 (accept_pin s)
    else answer (bit_or 0x6300 (s.pin_retries - 1)) (refuse_pin s)

-- `cmd->data[1 + old_len]` is read before the length is checked.
unfoldable pub handle_change_reference : Command → State → Option (Response × State)
handle_change_reference cmd s =
    let old_len = get_or cmd.bytes 0 0 in
    let new_len = get_or cmd.bytes (1 + old_len) 0 in
    if not (is_pin_ref cmd.p2)
    then answer 0x6A86 s
    else if not s.pin_verified
    then answer 0x6982 s
    else if ltb cmd.lc 12 || ltb 16 cmd.lc
    then answer 0x6700 s
    else if leb (length cmd.bytes) (1 + old_len)
    then none
    else if not (old_len == length s.pin) || not (bytes_eq (take old_len (drop 1 cmd.bytes)) s.pin)
    then answer 0x6982 s
    else if ltb new_len 6 || ltb 8 new_len
    then answer 0x6700 s
    else answer 0x9000 (record s { pin = take new_len (drop (2 + old_len) cmd.bytes) })

-- The first slot of a key that the reference names is marked.
unfoldable pub generate_in : ℕ → ℕ → List KeySlot → Option (List KeySlot)
generate_in ref algorithm [] = none
generate_in ref algorithm (k ∷ ks) =
    let rest = generate_in ref algorithm ks in
    if k.key_ref == ref
    then some (record k { algorithm = algorithm; generated = true } ∷ ks)
    else elim rest [ none ↦ none | some ks' ↦ some (k ∷ ks') ]

-- The algorithm asked for; P-256 where the data does not name one.
unfoldable pub requested_algorithm : Command → ℕ
requested_algorithm cmd =
    if leb 2 cmd.lc && (get_or cmd.bytes 0 0 == 0xAC) && (get_or cmd.bytes 2 0 == 0x80)
    then get_or cmd.bytes 4 0
    else 0x11

unfoldable pub handle_generate_asymmetric : Command → State → Option (Response × State)
handle_generate_asymmetric cmd s =
    if not s.pin_verified
    then answer 0x6982 s
    else elim (generate_in cmd.p2 (requested_algorithm cmd) s.key_slots) [
      | none ↦ answer 0x6984 s
      | some ks ↦ answer 0x9000 (record s { key_slots = ks })
    ]

-- The object that the tag list at the start of the data names.
unfoldable pub object_id_of : Command → Option ℕ
object_id_of cmd =
    let tag_len = get_or cmd.bytes 1 0 in
    let byte = λ (k : ℕ). get_or cmd.bytes k 0 in
    if ltb cmd.lc 2 || not (byte 0 == 0x5C)
    then none
    else if tag_len == 1
    then some (byte 2)
    else if tag_len == 3
    then some (bit_or (bit_or (byte 2 * 2 ^ 16) (byte 3 * 2 ^ 8)) (byte 4))
    else none

unfoldable pub get_data : ℕ → List CertSlot → Option (List ℕ)
get_data object_id [] = if object_id == 0x7E then some [] else none
get_data object_id (c ∷ cs) =
    if (c.object_id == object_id) && c.present then some c.cert else get_data object_id cs

-- The response has room for 256 bytes, which `piv_get_data` does not look at.
unfoldable pub respond_data : State → Option (List ℕ) → Option (Response × State)
respond_data s none = answer 0x6A82 s
respond_data s (some content) =
    let r : Response = record { bytes = content; sw = 0x9000 } in
    if ltb 256 (length content) then none else some (r, s)

unfoldable pub handle_get_data : Command → State → Option (Response × State)
handle_get_data cmd s = elim (object_id_of cmd) [
  | none ↦ answer 0x6A80 s
  | some object_id ↦ respond_data s (get_data object_id s.cert_slots)
]

-- The first slot of the object takes the bytes, unless they are too many.
unfoldable pub put_data : ℕ → List ℕ → List CertSlot → Option (List CertSlot)
put_data object_id bytes [] = none
put_data object_id bytes (c ∷ cs) =
    let rest = put_data object_id bytes cs in
    if c.object_id == object_id
    then if ltb 2048 (length bytes)
      then none
      else some (record c { cert = bytes; present = true } ∷ cs)
    else elim rest [ none ↦ none | some cs' ↦ some (c ∷ cs') ]

unfoldable pub store_data : State → Option (List CertSlot) → Option (Response × State)
store_data s none = answer 0x6984 s
store_data s (some cs) = answer 0x9000 (record s { cert_slots = cs })

-- `data_len` is not compared with `lc`.
unfoldable pub put_object : Command → State → ℕ → Option (Response × State)
put_object cmd s object_id =
    let data_offset = 2 + get_or cmd.bytes 1 0 in
    let data_len = get_or cmd.bytes (data_offset + 1) 0 in
    if ltb cmd.lc (data_offset + 2) || not (get_or cmd.bytes data_offset 0 == 0x53)
    then answer 0x6A80 s
    else if (ltb (length cmd.bytes) (data_offset + 2 + data_len))
    then none
    else store_data s
        (put_data object_id (take data_len (drop (data_offset + 2) cmd.bytes)) s.cert_slots)

unfoldable pub handle_put_data : Command → State → Option (Response × State)
handle_put_data cmd s = if not s.pin_verified then answer 0x6982 s else elim (object_id_of cmd) [
  | none ↦ answer 0x6A80 s
  | some object_id ↦ put_object cmd s object_id
]

unfoldable pub handle_apdu : Command → State → Option (Response × State)
handle_apdu cmd s =
    if cmd.ins == 0x20
    then handle_verify cmd s
    else if cmd.ins == 0x24
    then handle_change_reference cmd s
    else if cmd.ins == 0xCB
    then handle_get_data cmd s
    else if cmd.ins == 0xDB
    then handle_put_data cmd s
    else if cmd.ins == 0x47
    then handle_generate_asymmetric cmd s
    else if cmd.ins == 0x87
    then answer 0x6A81 s
    else answer 0x6D00 s
