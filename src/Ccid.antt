-- ===== src/Ccid.antt =====
-- src/usb/usb_ccid.c: the card reader interface. It answers the reader's messages, keeps the
-- registry of applications, and passes APDUs to the selected one. `W` is the state of the
-- applications. `none` is a read behind the end of the message, or a fault in an application.
pub mod Apdu
pub mod Registry
pub mod Routing
pub mod PivCard
mod Tests
use open_fido.Common.{
  ℕ, zero, suc, ◌+◌, ◌-◌, ◌*◌, ◌/◌, ◌%◌, ◌^◌, Bool, true, false, not, ◌&&◌, ◌||◌, List, [], ◌∷◌,
  ◌++◌, length, take, drop, get_or, replicate, Option, none, some, if◌then◌else◌, ltb, leb, ◌==◌, ℤ,
  pos, negsuc,
}
use open_fido.Common.Memory.{bytes_eq, copy_into}

-- `apdu_command_t`; `bytes` is its `data` of 255 bytes.
pub record Command : Type 0 where
  pub cla : ℕ
  pub ins : ℕ
  pub p1 : ℕ
  pub p2 : ℕ
  pub lc : ℕ
  pub bytes : List ℕ
  pub le : ℕ

-- `apdu_response_t`; `bytes` is the first `len` bytes of its `data`.
pub record Response : Type 0 where
  pub bytes : List ℕ
  pub sw1 : ℕ
  pub sw2 : ℕ

-- `apdu_handler_t`
abbrev pub Handler : Type 0 → Type 0
Handler W = Command → W → Option (Response × W)

-- An active entry of `app_registry`.
pub record App (W : Type 0) : Type 0 where
  pub aid : List ℕ
  pub handler : Handler W

-- `ccid_state` and `app_registry`, whose inactive entries are `none`.
pub record State (W : Type 0) : Type 0 where
  pub card_present : Bool
  pub slot_status : ℕ
  pub sequence : ℕ
  pub atr : List ℕ
  pub selected_app : ℕ
  pub app_registry : List (Option (App W))

abbrev pub max_apps : ℕ
max_apps = 4

abbrev pub ccid_header_size : ℕ
ccid_header_size = 10

abbrev pub ccid_icc_present_active : ℕ
ccid_icc_present_active = 0

abbrev pub ccid_icc_present_inactive : ℕ
ccid_icc_present_inactive = 1

abbrev pub ccid_icc_not_present : ℕ
ccid_icc_not_present = 2

-- `MAX_APPS` is above it, so no application is selected.
abbrev pub no_app : ℕ
no_app = 0xFF

abbrev pub default_atr : List ℕ
default_atr =
    0x3B ∷ 0x8E ∷ 0x80 ∷ 0x01 ∷ 0x80 ∷ 0x31 ∷ 0xC0 ∷ 0x64 ∷ 0x77 ∷ 0xE3 ∷ 0x03 ∷ 0x00 ∷ 0x00 ∷ 0x82
    ∷ 0x90 ∷ 0x00 ∷ []

-- The fields of `ccid_header_t`, which is packed and little-endian.
abbrev pub message_type : List ℕ → ℕ
message_type m = get_or m 0 0

unfoldable pub dw_length : List ℕ → ℕ
dw_length m = get_or m 1 0 + get_or m 2 0 * 2 ^ 8 + get_or m 3 0 * 2 ^ 16 + get_or m 4 0 * 2 ^ 24

abbrev pub slot : List ℕ → ℕ
slot m = get_or m 5 0

abbrev pub seq : List ℕ → ℕ
seq m = get_or m 6 0

-- `build_response_header`, for the slot and the sequence number of the message.
unfoldable pub response_header : ℕ → ℕ → List ℕ → ℕ → ℕ → List ℕ
response_header msg_type len m status error =
    msg_type
    ∷ (len % 256)
    ∷ (len / 2 ^ 8 % 256)
    ∷ (len / 2 ^ 16 % 256)
    ∷ (len / 2 ^ 24 % 256)
    ∷ slot m
    ∷ seq m
    ∷ status
    ∷ error
    ∷ 0
    ∷ []

-- The command with the four header bytes.
abbrev pub header_command : List ℕ → ℕ → ℕ → List ℕ → Option (Option Command)
header_command bytes lc le content =
    let cmd : Command = record {
      cla = get_or bytes 0 0;
      ins = get_or bytes 1 0;
      p1 = get_or bytes 2 0;
      p2 = get_or bytes 3 0;
      lc = lc;
      bytes = content;
      le = le;
    } in
    some (some cmd)

-- `parse_apdu` of `len` bytes at `bytes`; `stack` is what the command's data held before.
unfoldable pub parse_apdu : List ℕ → List ℕ → ℕ → Option (Option Command)
parse_apdu stack bytes len =
    let byte = λ (k : ℕ). get_or bytes k 0 in
    let lc = byte 4 in
    let command = header_command bytes in
    if ltb len 4
    then some none
    else if ltb (length bytes) 4
    then none
    else if len == 4
    then command 0 0 stack
    else if ltb (length bytes) 5
    then none
    else if len == 5
    then command 0 (byte 4) stack
    else if ltb len (5 + lc)
    then some none
    else if ltb (length bytes) (5 + lc)
    then none
    else if not (ltb (5 + lc) len)
    then command lc 0 (copy_into stack 0 (take lc (drop 5 bytes)))
    else if leb (length bytes) (5 + lc)
    then none
    else command lc (byte (5 + lc)) (copy_into stack 0 (take lc (drop 5 bytes)))

abbrev pub answer : ℕ → ℕ → Response
answer sw1 sw2 = record { bytes = []; sw1 = sw1; sw2 = sw2 }

-- The code, the response, the reader's state and the applications'.
abbrev pub Outcome : Type 0 → Type 0
Outcome W = Option (ℤ × List ℕ × State W × W)

module _ {W : Type 0} where
  unfoldable pub usb_ccid_init : State W
  usb_ccid_init = record {
    card_present = true;
    slot_status = ccid_icc_present_inactive;
    sequence = 0;
    atr = default_atr;
    selected_app = no_app;
    app_registry = replicate max_apps none;
  }

  -- The first active entry with this AID, counted from `i`.
  unfoldable pub find_app : ℕ → List ℕ → List (Option (App W)) → Option ℕ
  find_app i aid [] = none
  find_app i aid (none ∷ apps) = find_app (i + 1) aid apps
  find_app i aid (some app ∷ apps) =
      let rest = find_app (i + 1) aid apps in
      if (length app.aid == length aid) && bytes_eq app.aid aid then some i else rest

  unfoldable pub handle_select : Command → State W → Response × State W
  handle_select cmd s =
      if not (cmd.p1 == 0x04)
      then (answer 0x6A 0x86, s)
      else elim (find_app 0 (take cmd.lc cmd.bytes) s.app_registry) [
        | none ↦ (answer 0x6A 0x82, s)
        | some i ↦ (answer 0x90 0x00, record s { selected_app = i })
      ]

  -- The active entry at an index.
  unfoldable pub app_at : ℕ → List (Option (App W)) → Option (App W)
  app_at i [] = none
  app_at zero (a ∷ apps) = a
  app_at (suc i) (a ∷ apps) = app_at i apps

  unfoldable pub process_apdu : Command → State W → W → Option (Response × State W × W)
  process_apdu cmd s w =
      let (selected, s') = handle_select cmd s in
      if cmd.ins == 0xA4
      then some (selected, s', w)
      else elim (app_at s.selected_app s.app_registry) [
        | none ↦ some (answer 0x6D 0x00, s, w)
        | some app ↦ elim (app.handler cmd w) [ none ↦ none | some (r, w') ↦ some (r, s, w') ]
      ]

  unfoldable pub handle_icc_power_on : List ℕ → State W → W → Outcome W
  handle_icc_power_on m s w = some (
    pos 0,
    response_header 0x80 (length s.atr) m 0x00 0 ++ s.atr,
    record s { slot_status = ccid_icc_present_active },
    w,
  )

  unfoldable pub handle_icc_power_off : List ℕ → State W → W → Outcome W
  handle_icc_power_off m s w = some (
    pos 0,
    response_header 0x81 0 m 0x00 0,
    record s { slot_status = ccid_icc_present_inactive; selected_app = no_app },
    w,
  )

  unfoldable pub handle_get_slot_status : List ℕ → State W → W → Outcome W
  handle_get_slot_status m s w = some (pos 0, response_header 0x81 0 m 0x00 0, s, w)

  -- The data block that carries the application's answer.
  unfoldable pub data_block : List ℕ → Option (Response × State W × W) → Outcome W
  data_block m none = none
  data_block m (some (r, s, w)) = some (
    pos 0,
    response_header 0x80 ((length r.bytes + 2) % 2 ^ 16) m 0x00 0 ++ r.bytes ++ r.sw1 ∷ r.sw2 ∷ [],
    s,
    w,
  )

  unfoldable pub handle_xfr_block : List ℕ → List ℕ → State W → W → Outcome W
  handle_xfr_block stack m s w = elim (parse_apdu stack (drop ccid_header_size m) (dw_length m)) [
    | none ↦ none
    | some none ↦ some (negsuc 0, response_header 0x80 0 m 0x40 0xF8, s, w)
    | some (some cmd) ↦ data_block m (process_apdu cmd s w)
  ]

  -- No response where the message is too short for a header.
  unfoldable pub usb_ccid_process_message : List ℕ → List ℕ → State W → W → Outcome W
  usb_ccid_process_message stack m s w =
      let s' : State W = record s { sequence = seq m } in
      if ltb (length m) ccid_header_size
      then some (negsuc 0, [], s, w)
      else if message_type m == 0x62
      then handle_icc_power_on m s' w
      else if message_type m == 0x63
      then handle_icc_power_off m s' w
      else if message_type m == 0x65
      then handle_get_slot_status m s' w
      else if message_type m == 0x6F
      then handle_xfr_block stack m s' w
      else some (negsuc 0, response_header 0x81 0 m 0x40 0x00, s', w)

  -- The first inactive entry takes the application.
  unfoldable pub register_in : App W → List (Option (App W)) → Option (List (Option (App W)))
  register_in app [] = none
  register_in app (none ∷ apps) = some (some app ∷ apps)
  register_in app (some a ∷ apps) = elim (register_in app apps) [
    | none ↦ none
    | some apps' ↦ some (some a ∷ apps')
  ]

  -- `handler` may be NULL.
  unfoldable pub usb_ccid_register_app : List ℕ → Option (Handler W) → State W → ℤ × State W
  usb_ccid_register_app aid none s = (negsuc 0, s)
  usb_ccid_register_app aid (some handler) s =
      let app : App W = record { aid = aid; handler = handler } in
      if ltb 16 (length aid) then (negsuc 0, s) else elim (register_in app s.app_registry) [
        | none ↦ (negsuc 0, s)
        | some apps ↦ (pos 0, record s { app_registry = apps })
      ]

  unfoldable pub usb_ccid_get_atr : State W → ℤ × List ℕ
  usb_ccid_get_atr s = (pos 0, s.atr)

  unfoldable pub usb_ccid_set_card_present : Bool → State W → State W
  usb_ccid_set_card_present present s = record s {
    card_present = present;
    slot_status = if present then ccid_icc_present_inactive else ccid_icc_not_present;
  }

  unfoldable pub usb_ccid_get_slot_status : State W → ℕ
  usb_ccid_get_slot_status s = s.slot_status
