-- ===== src/Ctap2.antt =====
-- src/fido2/core/ctap2.c: the state of the protocol handler, the dispatch of a request, the device's
-- description, the reset and the pending assertions.
pub mod Base
pub mod Pin
pub mod Ceremonies
pub mod Management
pub mod Blobs
pub mod Config
mod Laws
mod Tests
use open_fido.Common.{
  ℕ, ◌-◌, Bool, true, false, not, ◌&&◌, List, [], ◌∷◌, replicate, Option, none, some, if◌then◌else◌,
  ltb, ◌==◌,
}
use open_fido.Cbor.Base.{Decoder}
use open_fido.Cbor.Encoder.{
  encode_uint, encode_bytes, encode_text, encode_bool, encode_map_start, encode_array_start,
}
use open_fido.Storage.Base.{Platform, Code, ok, State as Storage}
use open_fido.Storage.Pin.{is_pin_set}
use open_fido.Storage.Device.{format}
use open_fido.U2f.{Board}
use open_fido.Ctap2.Base.{
  Reply, encoded, max_message_size, ctap2_ok, err_invalid_command, err_invalid_parameter,
  err_processing, err_no_operation_pending, err_user_action_timeout, err_request_too_large,
}
use open_fido.Ctap2.Pin.{Handled, handle_client_pin}

-- `ctap2_state`, without the credentials, which nothing reads or writes.
pub record State : Type 0 where
  pub initialized : Bool
  pub pending_assertions : ℕ

unfoldable pub ctap2_init : State → ℕ × State
ctap2_init s = (ctap2_ok, record { initialized = true; pending_assertions = 0 })

-- `ctap2_request_t`; `none` is a NULL pointer.
pub record Request : Type 0 where
  pub cmd : ℕ
  pub content : Option (List ℕ)
  pub data_len : ℕ

-- The strings of the description, as ASCII.
abbrev pub fido_2_1 : List ℕ
fido_2_1 = 0x46 ∷ 0x49 ∷ 0x44 ∷ 0x4F ∷ 0x5F ∷ 0x32 ∷ 0x5F ∷ 0x31 ∷ []

abbrev pub fido_2_0 : List ℕ
fido_2_0 = 0x46 ∷ 0x49 ∷ 0x44 ∷ 0x4F ∷ 0x5F ∷ 0x32 ∷ 0x5F ∷ 0x30 ∷ []

abbrev pub u2f_v2 : List ℕ
u2f_v2 = 0x55 ∷ 0x32 ∷ 0x46 ∷ 0x5F ∷ 0x56 ∷ 0x32 ∷ []

abbrev pub hmac_secret : List ℕ
hmac_secret = 0x68 ∷ 0x6D ∷ 0x61 ∷ 0x63 ∷ 0x2D ∷ 0x73 ∷ 0x65 ∷ 0x63 ∷ 0x72 ∷ 0x65 ∷ 0x74 ∷ []

abbrev pub cred_protect : List ℕ
cred_protect = 0x63 ∷ 0x72 ∷ 0x65 ∷ 0x64 ∷ 0x50 ∷ 0x72 ∷ 0x6F ∷ 0x74 ∷ 0x65 ∷ 0x63 ∷ 0x74 ∷ []

abbrev pub rk : List ℕ
rk = 0x72 ∷ 0x6B ∷ []

abbrev pub up : List ℕ
up = 0x75 ∷ 0x70 ∷ []

abbrev pub uv : List ℕ
uv = 0x75 ∷ 0x76 ∷ []

abbrev pub plat : List ℕ
plat = 0x70 ∷ 0x6C ∷ 0x61 ∷ 0x74 ∷ []

abbrev pub client_pin : List ℕ
client_pin = 0x63 ∷ 0x6C ∷ 0x69 ∷ 0x65 ∷ 0x6E ∷ 0x74 ∷ 0x50 ∷ 0x69 ∷ 0x6E ∷ []

-- The description, from whether a PIN is set.
unfoldable pub get_info : List ℕ → Bool → Reply
get_info buffer pin_set = encoded buffer (
    (λ e. encode_map_start e 8)
    ∷ (λ e. encode_uint e 1)
    ∷ (λ e. encode_array_start e 3)
    ∷ (λ e. encode_text e fido_2_1)
    ∷ (λ e. encode_text e fido_2_0)
    ∷ (λ e. encode_text e u2f_v2)
    ∷ (λ e. encode_uint e 2)
    ∷ (λ e. encode_array_start e 2)
    ∷ (λ e. encode_text e hmac_secret)
    ∷ (λ e. encode_text e cred_protect)
    ∷ (λ e. encode_uint e 3)
    ∷ (λ e. encode_bytes e (replicate 16 0))
    ∷ (λ e. encode_uint e 4)
    ∷ (λ e. encode_map_start e 5)
    ∷ (λ e. encode_text e rk)
    ∷ (λ e. encode_bool e true)
    ∷ (λ e. encode_text e up)
    ∷ (λ e. encode_bool e true)
    ∷ (λ e. encode_text e uv)
    ∷ (λ e. encode_bool e pin_set)
    ∷ (λ e. encode_text e plat)
    ∷ (λ e. encode_bool e false)
    ∷ (λ e. encode_text e client_pin)
    ∷ (λ e. encode_bool e pin_set)
    ∷ (λ e. encode_uint e 5)
    ∷ (λ e. encode_uint e 1024)
    ∷ (λ e. encode_uint e 6)
    ∷ (λ e. encode_array_start e 1)
    ∷ (λ e. encode_uint e 1)
    ∷ (λ e. encode_uint e 7)
    ∷ (λ e. encode_uint e 10)
    ∷ (λ e. encode_uint e 8)
    ∷ (λ e. encode_uint e 16)
    ∷ [])

unfoldable pub get_next_assertion : State → Reply × State
get_next_assertion s =
    if s.pending_assertions == 0
    then ((err_no_operation_pending, none), s)
    else ((ctap2_ok, none), record s { pending_assertions = s.pending_assertions - 1 })

-- The reply, with the handler's state, the storage and the world.
abbrev pub Outcome : Type 0 → Type 0
Outcome W = Reply × State × Storage × W

-- The two commands of src/fido2/commands/ctap2_commands.c: from the data, its length and the buffer.
pub record Commands (W : Type 0) : Type 0 where
  pub make_credential : List ℕ → ℕ → List ℕ → Storage → W → Handled W
  pub get_assertion : List ℕ → ℕ → List ℕ → Storage → W → Handled W

module _ {W : Type 0} (p : Platform W) (board : Board W) where
  -- The end of a reset, from what the storage says.
  unfoldable pub reset_formatted : State → Code × Storage × W → Outcome W
  reset_formatted s (ok, storage, w) =
      ((ctap2_ok, none), record s { pending_assertions = 0 }, storage, w)
  reset_formatted s (_, storage, w) = ((err_processing, none), s, storage, w)

  unfoldable pub reset : State → Storage → W → Outcome W
  reset s storage w =
      let (pressed, w') = board.button_wait_press 10000 w in
      if not pressed
      then ((err_user_action_timeout, none), s, storage, w')
      else reset_formatted s (format p storage w')

-- The memory that a pointer leads to.
abbrev pub memory : Option (List ℕ) → List ℕ
memory none = []
memory (some bytes) = bytes

abbrev pub is_null : Option (List ℕ) → Bool
is_null none = true
is_null (some bytes) = false

module _ {W : Type 0} (p : Platform W) (board : Board W) (commands : Commands W)
    (skip_value : Decoder → Decoder) (stale : ℕ) where
  -- A handler that does not touch the state of the protocol handler.
  abbrev unchanged : State → Handled W → Outcome W
  unchanged s (reply, storage, w) = (reply, s, storage, w)

  abbrev if_any : State → Option (Handled W) → Option (Outcome W)
  if_any s none = none
  if_any s (some handled) = some (unchanged s handled)

  -- `none` is a write behind the end of an array.
  unfoldable pub run_command : Request → List ℕ → State → Storage → W → Option (Outcome W)
  run_command r buffer s storage w =
      let request_data = memory r.content in
      if r.cmd == 0x01
      then some (unchanged s (commands.make_credential request_data r.data_len buffer storage w))
      else if r.cmd == 0x02
      then some (unchanged s (commands.get_assertion request_data r.data_len buffer storage w))
      else if r.cmd == 0x04
      then some (get_info buffer (is_pin_set storage), s, storage, w)
      else if r.cmd == 0x06
      then if_any s
          (handle_client_pin p board skip_value stale request_data r.data_len buffer storage w)
      else if r.cmd == 0x07
      then some (reset p board s storage w)
      else if r.cmd == 0x08
      then some ((get_next_assertion s).0, (get_next_assertion s).1, storage, w)
      else some ((err_invalid_command, none), s, storage, w)

  unfoldable pub process_request :
      Option Request → Option (List ℕ) → State → Storage → W → Option (Outcome W)
  process_request none response s storage w = some ((err_invalid_parameter, none), s, storage, w)
  process_request (some r) none s storage w = some ((err_invalid_parameter, none), s, storage, w)
  process_request (some r) (some buffer) s storage w =
      if not s.initialized
      then some ((err_invalid_command, none), s, storage, w)
      else if ltb 0 r.data_len && is_null r.content
      then some ((err_invalid_parameter, none), s, storage, w)
      else if ltb max_message_size r.data_len
      then some ((err_request_too_large, none), s, storage, w)
      else run_command r buffer s storage w
