-- ===== src/Transport.antt =====
-- src/transport/transport.c: the registry of transports, with its active and its locked transport.
-- A transport's own state, which its functions may change, is a value of the parameter `W`.
mod Tests
pub mod Invariant
pub mod Lock
use open_fido.Common.{
  ℕ, Bool, true, false, not, ◌&&◌, ◌||◌, List, length, Option, none, some, ℤ, pos, negsuc, ◌==◌,
  if◌then◌else◌,
}

-- `transport_type_t`; `type_max` also stands for every larger value.
pub data TransportType : Type 0 where
  usb ble type_max : TransportType

abbrev pub same_type : TransportType → TransportType → Bool
same_type usb usb = true
same_type ble ble = true
same_type type_max type_max = true
same_type _ _ = false

abbrev pub is_max : TransportType → Bool
is_max t = same_type t type_max

abbrev pub is_some : {A : Type 0} → Option A → Bool
is_some none = false
is_some (some a) = true

-- The codes of transport.h.
abbrev pub transport_ok : ℤ
transport_ok = pos 0

abbrev pub error_invalid_param : ℤ
error_invalid_param = negsuc 1

abbrev pub error_not_initialized : ℤ
error_not_initialized = negsuc 2

abbrev pub error_not_registered : ℤ
error_not_registered = negsuc 3

abbrev pub error_already_registered : ℤ
error_already_registered = negsuc 4

abbrev pub error_no_active_transport : ℤ
error_no_active_transport = negsuc 5

abbrev pub error_not_connected : ℤ
error_not_connected = negsuc 6

abbrev pub error_locked : ℤ
error_locked = negsuc 8

-- `transport_ops_t`; a NULL function pointer is `none`. `receive` hands out the bytes and the
-- command with its code. `get_name`, which nothing here calls, is left out.
pub record Ops (W : Type 0) : Type 0 where
  pub send : Option (List ℕ → W → ℤ × W)
  pub receive : Option (ℕ → W → (ℤ × List ℕ × ℕ) × W)
  pub is_connected : Option (W → Bool × W)

-- `transport_entry_t`
pub record Entry (W : Type 0) : Type 0 where
  pub registered : Bool
  pub ops : Ops W

-- `transport_state_t`; the array `transports` has an entry for each of the two types.
pub record State (W : Type 0) : Type 0 where
  pub initialized : Bool
  pub usb_entry : Entry W
  pub ble_entry : Entry W
  pub active_transport : TransportType
  pub operation_in_progress : Bool
  pub locked : Bool
  pub locked_transport : TransportType

module _ {W : Type 0} where
  -- An entry whose bytes are all zero.
  abbrev pub no_entry : Entry W
  no_entry = record {
    registered = false;
    ops = record { send = none; receive = none; is_connected = none };
  }

  -- The static value of `state`, and the one that `transport_init` leaves, up to `initialized`.
  abbrev pub cleared : Bool → State W
  cleared initialized = record {
    initialized = initialized;
    usb_entry = no_entry;
    ble_entry = no_entry;
    active_transport = type_max;
    operation_in_progress = false;
    locked = false;
    locked_transport = type_max;
  }

  -- `state.transports[type]`; at `type_max` there is none.
  abbrev pub entry : State W → TransportType → Entry W
  entry s usb = s.usb_entry
  entry s ble = s.ble_entry
  entry s type_max = no_entry

  abbrev pub set_entry : State W → TransportType → Entry W → State W
  set_entry s usb e = record s { usb_entry = e }
  set_entry s ble e = record s { ble_entry = e }
  set_entry s type_max e = s

  unfoldable pub init : State W → ℤ × State W
  init s = if s.initialized then (transport_ok, s) else (transport_ok, cleared true)

  unfoldable pub register : State W → TransportType → Option (Ops W) → ℤ × State W
  register s t none =
      if not s.initialized then (error_not_initialized, s) else (error_invalid_param, s)
  register s t (some ops) =
      if not s.initialized
      then (error_not_initialized, s)
      else if is_max t
      then (error_invalid_param, s)
      else if not (is_some ops.send) || not (is_some ops.receive) || not (is_some ops.is_connected)
      then (error_invalid_param, s)
      else if (entry s t).registered
      then (error_already_registered, s)
      else (transport_ok, set_entry s t (record { registered = true; ops = ops }))

  -- The active transport is cleared first, then the lock, then the entry.
  abbrev pub clear_active : State W → TransportType → State W
  clear_active s t =
      if same_type s.active_transport t then record s { active_transport = type_max } else s

  abbrev pub clear_locked : State W → TransportType → State W
  clear_locked s t =
      if same_type s.locked_transport t
      then record s { locked = false; locked_transport = type_max }
      else s

  unfoldable pub unregister : State W → TransportType → ℤ × State W
  unregister s t =
      if not s.initialized
      then (error_not_initialized, s)
      else if is_max t
      then (error_invalid_param, s)
      else if not (entry s t).registered
      then (error_not_registered, s)
      else (transport_ok, set_entry (clear_locked (clear_active s t) t) t no_entry)

  unfoldable pub is_registered : State W → TransportType → Bool
  is_registered s t = if not s.initialized || is_max t then false else (entry s t).registered

  unfoldable pub set_active : State W → TransportType → ℤ × State W
  set_active s t =
      if not s.initialized
      then (error_not_initialized, s)
      else if is_max t
      then (error_invalid_param, s)
      else if not (entry s t).registered
      then (error_not_registered, s)
      else if s.locked && not (same_type s.locked_transport t)
      then (error_locked, s)
      else (transport_ok, record s { active_transport = t })

  unfoldable pub get_active : State W → TransportType
  get_active s = s.active_transport

  unfoldable pub is_active : State W → TransportType → Bool
  is_active s t = if not s.initialized || is_max t then false else same_type s.active_transport t

  -- A call through a function pointer; `none` says that the pointer is NULL.
  abbrev pub call : {A R : Type 0} → Option (A → W → R × W) → A → W → Option (R × W)
  call none a w = none
  call (some f) a w = some (f a w)

  abbrev pub call_connected : Option (W → Bool × W) → W → Option (Bool × W)
  call_connected none w = none
  call_connected (some f) w = some (f w)

  -- Bytes go out only behind a positive answer of `is_connected`. A negative code of the
  -- transport is passed on as it is.
  unfoldable pub send_connected : Ops W → List ℕ → Option (Bool × W) → Option (ℤ × W)
  send_connected ops bytes none = none
  send_connected ops bytes (some (false, w)) = some (error_not_connected, w)
  send_connected ops bytes (some (true, w)) = call ops.send bytes w

  -- `bytes` is `none` for NULL.
  unfoldable pub send_on : State W → TransportType → Option (List ℕ) → W → Option (ℤ × W)
  send_on s t none w =
      if not s.initialized then some (error_not_initialized, w) else some (error_invalid_param, w)
  send_on s t (some bytes) w =
      if not s.initialized
      then some (error_not_initialized, w)
      else if is_max t
      then some (error_invalid_param, w)
      else if length bytes == 0
      then some (error_invalid_param, w)
      else if not (entry s t).registered
      then some (error_not_registered, w)
      else send_connected (entry s t).ops bytes (call_connected (entry s t).ops.is_connected w)

  unfoldable pub send : State W → Option (List ℕ) → W → Option (ℤ × W)
  send s none w =
      if not s.initialized then some (error_not_initialized, w) else some (error_invalid_param, w)
  send s (some bytes) w =
      if not s.initialized
      then some (error_not_initialized, w)
      else if length bytes == 0
      then some (error_invalid_param, w)
      else if is_max s.active_transport
      then some (error_no_active_transport, w)
      else send_on s s.active_transport (some bytes) w

  -- `room` is `none` for a NULL buffer, and else its size.
  unfoldable pub receive_from :
      State W → TransportType → Option ℕ → W → Option ((ℤ × List ℕ × ℕ) × W)
  receive_from s t none w =
      if not s.initialized
      then some ((error_not_initialized, List.[], 0), w)
      else some ((error_invalid_param, List.[], 0), w)
  receive_from s t (some room) w =
      if not s.initialized
      then some ((error_not_initialized, List.[], 0), w)
      else if is_max t
      then some ((error_invalid_param, List.[], 0), w)
      else if room == 0
      then some ((error_invalid_param, List.[], 0), w)
      else if not (entry s t).registered
      then some ((error_not_registered, List.[], 0), w)
      else call (entry s t).ops.receive room w

  unfoldable pub is_connected : State W → TransportType → W → Option (Bool × W)
  is_connected s t w =
      if not s.initialized || is_max t
      then some (false, w)
      else if not (entry s t).registered
      then some (false, w)
      else call_connected (entry s t).ops.is_connected w

  -- One round of the loop of `transport_any_connected`, and the rest if it does not return.
  unfoldable pub connected_or : Entry W → (W → Option (Bool × W)) → W → Option (Bool × W)
  connected_or e rest w =
      if not e.registered then rest w else elim (call_connected e.ops.is_connected w) [
        | none ↦ none
        | some (true, w') ↦ some (true, w')
        | some (false, w') ↦ rest w'
      ]

  unfoldable pub any_connected : State W → W → Option (Bool × W)
  any_connected s w =
      if not s.initialized
      then some (false, w)
      else connected_or s.usb_entry (connected_or s.ble_entry (λ w'. some (false, w'))) w

  unfoldable pub set_busy : State W → Bool → State W
  set_busy s busy = record s { operation_in_progress = busy }

  unfoldable pub is_busy : State W → Bool
  is_busy s = s.operation_in_progress

  unfoldable pub lock : State W → TransportType → ℤ × State W
  lock s t =
      if not s.initialized
      then (error_not_initialized, s)
      else if is_max t
      then (error_invalid_param, s)
      else if not (entry s t).registered
      then (error_not_registered, s)
      else if s.locked && not (same_type s.locked_transport t)
      then (error_locked, s)
      else (transport_ok, record s { locked = true; locked_transport = t })

  unfoldable pub unlock : State W → State W
  unlock s = if s.locked then record s { locked = false; locked_transport = type_max } else s

  unfoldable pub is_locked : State W → Bool
  is_locked s = s.locked

  unfoldable pub get_locked : State W → TransportType
  get_locked s = s.locked_transport
