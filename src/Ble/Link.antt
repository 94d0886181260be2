-- ===== src/Ble/Link.antt =====
-- src/ble/ble_transport.c: the state of the transport, its timestamps, its power modes, and the
-- response that it sends.
use open_fido.Common.{
  ℕ, ◌+◌, ◌-◌, ◌%◌, ◌^◌, Bool, true, false, not, ◌||◌, ◌&&◌, List, [], ◌∷◌, length, Option, some,
  none, if◌then◌else◌, ◌==◌, ltb, leb, ℤ, pos, negsuc,
}
use open_fido.Fragment.{Reassembler, Result, ok, fail, create, max_message_size}
use open_fido.Ble.Hal.{Hal, AdvParams, handle_invalid, LedPattern, idle, ble_advertising}
use open_fido.Ble.Service.{Service, send_status}

abbrev pub ble_ok : ℤ
ble_ok = pos 0

abbrev pub ble_error : ℤ
ble_error = negsuc 0

abbrev pub ble_invalid_param : ℤ
ble_invalid_param = negsuc 1

abbrev pub ble_not_initialized : ℤ
ble_not_initialized = negsuc 2

abbrev pub ble_not_connected : ℤ
ble_not_connected = negsuc 3

abbrev pub ble_busy : ℤ
ble_busy = negsuc 4

abbrev pub ble_not_encrypted : ℤ
ble_not_encrypted = negsuc 5

abbrev pub ble_not_paired : ℤ
ble_not_paired = negsuc 6

-- Whether a code of this file is BLE_TRANSPORT_OK, which is 0.
abbrev pub is_ok : ℤ → Bool
is_ok (pos n) = n == 0
is_ok (negsuc n) = false

-- `ble_transport_state_t`, in its order.
pub data Phase : Type 0 where
  phase_idle advertising connected processing : Phase

-- `state >= BLE_TRANSPORT_STATE_CONNECTED`
abbrev pub at_least_connected : Phase → Bool
at_least_connected connected = true
at_least_connected processing = true
at_least_connected _ = false

abbrev pub is_processing : Phase → Bool
is_processing processing = true
is_processing _ = false

abbrev pub is_connected_phase : Phase → Bool
is_connected_phase connected = true
is_connected_phase _ = false

abbrev pub is_advertising : Phase → Bool
is_advertising advertising = true
is_advertising _ = false

abbrev pub is_idle : Phase → Bool
is_idle phase_idle = true
is_idle _ = false

-- `ble_connection_state_t`; `connection_time_ms`, which nothing reads, is left out.
pub record Connection : Type 0 where
  pub conn_handle : ℕ
  pub is_connected : Bool
  pub is_encrypted : Bool
  pub is_paired : Bool
  pub mtu : ℕ
  pub last_activity_ms : ℕ
  pub pairing_attempts : ℕ
  pub pairing_block_until_ms : ℕ

-- `ble_transport_ctx_t`, with the service below it and the world. `callbacks` says whether they are
-- stored.
pub record Link (W : Type 0) : Type 0 where
  pub initialized : Bool
  pub phase : Phase
  pub callbacks : Bool
  pub connection : Connection
  pub rx_fragment : Reassembler
  pub low_power_mode : Bool
  pub last_global_activity_ms : ℕ
  pub service : Service
  pub world : W

-- The difference of two `uint64_t`.
abbrev pub since : ℕ → ℕ → ℕ
since now before = (now + 2 ^ 64 - before) % 2 ^ 64

unfoldable pub ble_is_connected : {W : Type 0} → Link W → Bool
ble_is_connected l =
    l.connection.is_connected
    && (not (l.connection.conn_handle == handle_invalid) && at_least_connected l.phase)

module _ {W : Type 0} (hal : Hal W) where
  abbrev pub now : Link W → ℕ
  now l = hal.get_timestamp_ms l.world

  abbrev pub set_led : LedPattern → Link W → Link W
  set_led pattern l = record l { world = hal.led_set_pattern pattern l.world }

  abbrev pub update_global_activity_timestamp : Link W → Link W
  update_global_activity_timestamp l = record l { last_global_activity_ms = now l }

  abbrev pub update_activity_timestamp : Link W → Link W
  update_activity_timestamp l =
      let c = l.connection in
      let t = now l in
      record l { connection = record c { last_activity_ms = t }; last_global_activity_ms = t }

  -- `set_connection_params_active` and `set_connection_params_idle`, from the interval.
  abbrev pub set_connection_params : ℕ → ℕ → Link W → Link W
  set_connection_params interval_min interval_max l =
      let (done, w) =
        hal.update_connection_params l.connection.conn_handle interval_min interval_max 0 4000
          l.world in
      if l.connection.conn_handle == handle_invalid then l else record l { world = w }

  abbrev pub set_connection_params_active : Link W → Link W
  set_connection_params_active l = set_connection_params 8 15 l

  abbrev pub set_connection_params_idle : Link W → Link W
  set_connection_params_idle l = set_connection_params 100 200 l

  -- `enter_low_power_mode` for true and `exit_low_power_mode` for false; their codes are not used.
  unfoldable pub set_low_power_mode : Bool → Link W → Link W
  set_low_power_mode enable l =
      let (done, w) = hal.set_low_power_advertising enable l.world in
      if (if enable then l.low_power_mode else not l.low_power_mode)
      then l
      else if not (is_advertising l.phase)
      then record l { low_power_mode = enable }
      else if done
      then record l { low_power_mode = enable; world = w }
      else record l { world = w }

  -- `ble_transport_update_power_state`, with `update_connection_state`.
  unfoldable pub update_power_state : Link W → Link W
  update_power_state l =
      let quiet = leb 1000 (since (now l) l.connection.last_activity_ms) in
      let all_quiet = leb 1000 (since (now l) l.last_global_activity_ms) in
      if not l.initialized
      then l
      else if l.connection.is_connected
      then if quiet && is_connected_phase l.phase then set_connection_params_idle l else l
      else if is_advertising l.phase && (all_quiet && not l.low_power_mode)
      then set_low_power_mode true l
      else l

  unfoldable pub should_enter_deep_sleep : Link W → Bool
  should_enter_deep_sleep l =
      if not l.initialized
      then false
      else if l.connection.is_connected || is_processing l.phase
      then false
      else leb 300000 (since (now l) l.last_global_activity_ms)

  abbrev pub low_power_params : AdvParams
  low_power_params = record {
    interval_min_ms = 1000;
    interval_max_ms = 2000;
    timeout_s = 0;
    connectable = true;
  }

  -- The end of `ble_transport_start`, on the world that the last call left.
  abbrev pub started : Link W → W → Link W
  started l w = set_led ble_advertising (
      update_global_activity_timestamp
        (record l { phase = advertising; low_power_mode = true; world = w }))

  -- The stack is restarted once where advertising fails.
  unfoldable pub ble_start : Link W → ℤ × Link W
  ble_start l =
      let (done, w) = hal.start_advertising (some low_power_params) l.world in
      let (again, w1) = hal.ble_init (hal.deinit w) in
      let (recovered, w2) = hal.start_advertising (some low_power_params) w1 in
      if not l.initialized
      then (ble_not_initialized, l)
      else if not (is_idle l.phase)
      then (ble_ok, l)
      else if done
      then (ble_ok, started l w)
      else if not again
      then (ble_error, record l { world = w1 })
      else if not recovered
      then (ble_error, record l { world = w2 })
      else (ble_ok, started l w2)

  unfoldable pub ble_stop : Link W → ℤ × Link W
  ble_stop l =
      let w = hal.stop_advertising l.world in
      let c = l.connection in
      let (_, w') = hal.disconnect c.conn_handle w in
      let closed : Link W =
        if c.conn_handle == handle_invalid
        then record l { world = w }
        else record l { connection = record c { conn_handle = handle_invalid }; world = w' } in
      if not l.initialized
      then (ble_not_initialized, l)
      else (ble_ok, set_led idle (record closed { phase = phase_idle }))

  unfoldable pub ble_disconnect : Link W → ℤ × Link W
  ble_disconnect l =
      let (done, w) = hal.disconnect l.connection.conn_handle l.world in
      if not l.initialized
      then (ble_not_initialized, l)
      else if l.connection.conn_handle == handle_invalid
      then (ble_not_connected, l)
      else (if done then ble_ok else ble_error, record l { world = w })

  unfoldable pub enter_deep_sleep : Link W → ℤ × Link W
  enter_deep_sleep l =
      let (done, w) = hal.enter_deep_sleep (hal.stop_advertising l.world) in
      let (_, w') = hal.start_advertising none w in
      if not l.initialized
      then (ble_not_initialized, l)
      else if l.connection.is_connected || is_processing l.phase
      then (ble_busy, l)
      else if done
      then (ble_ok, set_led idle (record l { phase = phase_idle; world = w }))
      else (ble_error, record l { world = w' })

  unfoldable pub wake_from_deep_sleep : Link W → ℤ × Link W
  wake_from_deep_sleep l =
      let (done, w) = hal.wake_from_sleep l.world in
      let (code, l') = ble_start (update_global_activity_timestamp (record l { world = w })) in
      if not l.initialized
      then (ble_not_initialized, l)
      else if not done
      then (ble_error, record l { world = w })
      else (if is_ok code then ble_ok else ble_error, l')

  -- The loop of `ble_transport_send_response` over the fragments that are left.
  unfoldable pub send_fragments : List (List ℕ) → Link W → ℤ × Link W
  send_fragments [] l = (ble_ok, update_activity_timestamp l)
  send_fragments (fragment ∷ fragments) l =
      let (code, w) = send_status hal l.connection.conn_handle (some fragment) l.service l.world in
      let rest = send_fragments fragments (record l { world = w }) in
      if not (ble_is_connected l)
      then (ble_not_connected, l)
      else if is_ok code
      then rest
      else (ble_error, record l { world = w })

  -- The fragments, from what `ble_fragment_create` gives. Its loop ends, so that the first clause is
  -- not met.
  unfoldable pub send_created : Option (Result (List (List ℕ))) → Link W → ℤ × Link W
  send_created none l = (ble_error, l)
  send_created (some (fail e)) l = (ble_error, l)
  send_created (some (ok fragments)) l = send_fragments fragments l

  -- `alloc i` says whether the memory for fragment `i` is there.
  unfoldable pub send_response : (ℕ → Bool) → Option (List ℕ) → Link W → ℤ × Link W
  send_response alloc none l =
      if not l.initialized then (ble_not_initialized, l) else (ble_invalid_param, l)
  send_response alloc (some bytes) l =
      if not l.initialized
      then (ble_not_initialized, l)
      else if length bytes == 0
      then (ble_invalid_param, l)
      else if ltb max_message_size (length bytes)
      then (ble_invalid_param, l)
      else if not (ble_is_connected l)
      then (ble_not_connected, l)
      else if not l.connection.is_encrypted
      then (ble_not_encrypted, l)
      else if not l.connection.is_paired
      then (ble_not_paired, l)
      else send_created (create alloc (some bytes) l.connection.mtu) (update_activity_timestamp l)

  unfoldable pub send_ctap_error_response : (ℕ → Bool) → ℕ → Link W → Link W
  send_ctap_error_response alloc code l =
      if not (ble_is_connected l) then l else (send_response alloc (some (code ∷ [])) l).1
