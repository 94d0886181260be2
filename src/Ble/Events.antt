-- ===== src/Ble/Events.antt =====
-- src/ble/ble_transport.c: what a fragment of a request and the events of the stack do, with the
-- registry of src/transport/transport.c, and the initialisation.
use open_fido.Common.{
  ℕ, ◌+◌, ◌%◌, ◌^◌, Bool, true, false, not, ◌&&◌, List, [], length, Option, some, none,
  if◌then◌else◌, ◌==◌, ltb, leb, ℤ, pos,
}
use open_fido.Fragment.{
  Reassembler, Result, ok, fail, Error, invalid_param, invalid_seq, too_large, max_message_size,
  reset, add, is_complete, get_message, init as fragment_init,
}
use open_fido.Transport.{
  State as Registry, ble, set_busy, is_busy, lock, unlock, is_locked, set_active, is_active,
  register, Ops,
}
use open_fido.Ble.Hal.{
  Hal, handle_invalid, Event, connected, disconnected, write, notify_enabled, notify_disabled,
  mtu_changed, encryption_changed, pairing_request, pairing_complete, pairing_failed, other,
  SecurityConfig, authenticated, numeric, ble_advertising, ble_connected, ble_processing, idle,
}
use open_fido.Ble.Service.{on_control_point_write, set_status_notify_enabled, service_init}
use open_fido.Ble.Link.{
  Link, Connection, phase_idle, advertising, processing, connected as in_connection, is_processing,
  ble_is_connected, ble_ok, ble_error, ble_invalid_param, ble_not_initialized, ble_not_connected,
  ble_not_encrypted, ble_not_paired, ble_busy, is_ok, set_led, update_activity_timestamp,
  set_connection_params_active, set_connection_params_idle, set_low_power_mode, send_response,
  send_ctap_error_response, now,
}

-- The transport with the registry that it shares with USB.
pub record Device (W : Type 0) : Type 0 where
  pub link : Link W
  pub registry : Registry (Link W)

-- `ble_transport_callbacks_t`; `none` is NULL.
pub record Callbacks (W : Type 0) : Type 0 where
  pub on_ctap_request : Option (List ℕ → Device W → Device W)
  pub on_connection_change : Option (Bool → Device W → Device W)

abbrev pub with_link : {W : Type 0} → Link W → Device W → Device W
with_link l d = record d { link = l }

abbrev pub with_connection : {W : Type 0} → Connection → Link W → Link W
with_connection c l = record l { connection = c }

abbrev pub with_rx : {W : Type 0} → Reassembler → Link W → Link W
with_rx r l = record l { rx_fragment = r }

-- `callbacks` are those of `ble_transport_init`, and `alloc i` says whether the memory for fragment `i`
-- of a response is there.
module _ {W : Type 0} (hal : Hal W) (alloc : ℕ → Bool) where
  unfoldable pub cleanup_operation_state : Device W → Device W
  cleanup_operation_state d =
      let l = with_rx (reset d.link.rx_fragment) d.link in
      let g = if is_busy d.registry then set_busy d.registry false else d.registry in
      record {
        link =
            if is_processing l.phase
            then set_led hal ble_connected (record l { phase = in_connection })
            else l;
        registry = if is_locked g then unlock g else g;
      }

  abbrev pub send_error : ℕ → Device W → Device W
  send_error code d = with_link (send_ctap_error_response hal alloc code d.link) d

  -- The CTAP error for what `ble_fragment_add` says.
  unfoldable pub fragment_error : Error → ℕ
  fragment_error invalid_param = 0x02
  fragment_error invalid_seq = 0x04
  fragment_error too_large = 0x39
  fragment_error _ = 0x01

  abbrev pub call_request :
      Option (List ℕ → Device W → Device W) → Bool → List ℕ → Device W → Device W
  call_request none stored message d = d
  call_request (some f) stored message d = if stored then f message d else d

  abbrev pub call_change : Option (Bool → Device W → Device W) → Bool → Bool → Device W → Device W
  call_change none stored up d = d
  call_change (some f) stored up d = if stored then f up d else d

  -- The registry and the transport when a request starts to be processed.
  abbrev pub begin_processing : Device W → Device W
  begin_processing d =
      let l = set_connection_params_active hal d.link in
      record {
        link = set_led hal ble_processing (record l { phase = processing });
        registry = set_busy (lock (set_active d.registry ble).1 ble).1 true;
      }

  abbrev pub end_processing : Device W → Device W
  end_processing d =
      let l = with_rx (reset d.link.rx_fragment) d.link in
      let l' = set_led hal ble_connected (record l { phase = in_connection }) in
      record {
        link = set_connection_params_idle hal (update_activity_timestamp hal l');
        registry = unlock (set_busy d.registry false);
      }

  -- A message that is complete.
  unfoldable pub process_message : Callbacks W → Result (List ℕ) → Device W → ℤ × Device W
  process_message callbacks (fail e) d = (ble_error, send_error 0x01 (cleanup_operation_state d))
  process_message callbacks (ok message) d =
      let d' = begin_processing d in
      if is_busy d.registry && not (is_active d.registry ble)
      then (ble_busy, send_error 0x06 (cleanup_operation_state d))
      else (
        ble_ok,
        end_processing (call_request callbacks.on_ctap_request d'.link.callbacks message d'),
      )

  -- What follows the addition of a fragment.
  unfoldable pub process_added :
      Callbacks W → Result (Unit {0}) × Reassembler → Device W → ℤ × Device W
  process_added callbacks (fail e, r) d = (
    ble_error,
    send_error (fragment_error e) (cleanup_operation_state (with_link (with_rx r d.link) d)),
  )
  process_added callbacks (ok _, r) d =
      let d' = with_link (with_rx r d.link) d in
      if is_complete r then process_message callbacks (get_message r) d' else (ble_ok, d')

  unfoldable pub process_request : Callbacks W → Option (List ℕ) → Device W → ℤ × Device W
  process_request callbacks none d =
      if not d.link.initialized then (ble_not_initialized, d) else (ble_invalid_param, d)
  process_request callbacks (some bytes) d =
      let l = update_activity_timestamp hal d.link in
      if not d.link.initialized
      then (ble_not_initialized, d)
      else if length bytes == 0
      then (ble_invalid_param, d)
      else if ltb max_message_size (length bytes)
      then (ble_invalid_param, send_error 0x03 (cleanup_operation_state d))
      else if not (ble_is_connected d.link)
      then (ble_not_connected, cleanup_operation_state d)
      else if not d.link.connection.is_encrypted
      then (ble_not_encrypted, send_error 0x40 (cleanup_operation_state d))
      else if not d.link.connection.is_paired
      then (ble_not_paired, send_error 0x40 (cleanup_operation_state d))
      else process_added callbacks (add l.rx_fragment (some bytes)) (with_link l d)

  abbrev pub is_pairing_blocked : Link W → Bool
  is_pairing_blocked l = ltb (now hal l) l.connection.pairing_block_until_ms

  unfoldable pub handle_pairing_request : ℕ → Link W → Link W
  handle_pairing_request conn l =
      if is_pairing_blocked l
      then record l { world = hal.pairing_confirm conn false l.world }
      else l

  unfoldable pub paired_encrypted : ℕ → Option Bool → Link W → Link W
  paired_encrypted conn none l = record l { world = (hal.disconnect conn l.world).1 }
  paired_encrypted conn (some encrypted) l =
      let c = l.connection in
      let l' = with_connection (record c { is_encrypted = encrypted }) l in
      if not encrypted then record l' { world = (hal.disconnect conn l.world).1 } else l'

  unfoldable pub handle_pairing_complete : ℕ → Link W → Link W
  handle_pairing_complete conn l =
      let c = l.connection in
      let c' : Connection = record c {
        pairing_attempts = 0;
        pairing_block_until_ms = 0;
        is_paired = true;
      } in
      paired_encrypted conn (hal.is_encrypted conn l.world) (with_connection c' l)

  -- `pairing_attempts` is a byte.
  unfoldable pub handle_pairing_failed : ℕ → Link W → Link W
  handle_pairing_failed conn l =
      let c = l.connection in
      let attempts = (c.pairing_attempts + 1) % 2 ^ 8 in
      if leb 3 attempts
      then record l {
        connection = record c {
          pairing_attempts = attempts;
          pairing_block_until_ms = (now hal l + 60000) % 2 ^ 64;
          is_paired = false;
        };
        world = (hal.disconnect conn l.world).1;
      }
      else with_connection (record c { pairing_attempts = attempts; is_paired = false }) l

  abbrev pub mtu_or_default : Option ℕ → ℕ
  mtu_or_default none = 23
  mtu_or_default (some mtu) = mtu

  -- The connection that an event reports.
  abbrev pub new_connection : ℕ → Link W → Link W
  new_connection conn l =
      let c = l.connection in
      let opened : Connection = record c {
        conn_handle = conn;
        is_connected = true;
        is_encrypted = false;
        is_paired = false;
      } in
      let l1 = update_activity_timestamp hal (with_connection opened l) in
      let c1 = l1.connection in
      with_connection (record c1 { mtu = mtu_or_default (hal.get_mtu conn l1.world) }) l1

  unfoldable pub on_connected : Callbacks W → ℕ → Device W → Device W
  on_connected callbacks conn d =
      let l =
        set_connection_params_active hal
          (new_connection conn (set_low_power_mode hal false d.link)) in
      let l' = set_led hal ble_connected (record l { phase = in_connection }) in
      call_change callbacks.on_connection_change l'.callbacks true
        (with_link (with_rx (reset l'.rx_fragment) l') d)

  -- Advertising again, with one more try behind a failure.
  unfoldable pub advertise_again : Link W → Link W
  advertise_again l =
      let (done, w) = hal.start_advertising none l.world in
      let (recovered, w') = hal.start_advertising none (hal.stop_advertising w) in
      if done
      then record l { world = w }
      else if recovered
      then record l { world = w' }
      else set_led hal idle (record l { phase = phase_idle; world = w' })

  abbrev pub closed : Link W → Link W
  closed l =
      let c = l.connection in
      with_connection
        (record c {
          conn_handle = handle_invalid;
          is_connected = false;
          is_encrypted = false;
          is_paired = false;
          last_activity_ms = 0;
        })
        l

  unfoldable pub on_disconnected : Callbacks W → Device W → Device W
  on_disconnected callbacks d =
      let d1 = if is_processing d.link.phase then cleanup_operation_state d else d in
      let r = d1.link.rx_fragment in
      let l1 = closed (with_rx (if r.in_progress then reset r else r) d1.link) in
      let l2 = set_led hal ble_advertising (record l1 { phase = advertising }) in
      let d2 = call_change callbacks.on_connection_change l2.callbacks false (with_link l2 d1) in
      with_link (advertise_again d2.link) d2

  -- A write that the service passes on is a fragment of a request.
  unfoldable pub on_write : Callbacks W → ℕ → ℕ → Option (List ℕ) → Device W → Device W
  on_write callbacks conn char none d = d
  on_write callbacks conn char (some bytes) d =
      let l = update_activity_timestamp hal d.link in
      let d' = with_link l d in
      if length bytes == 0
      then d
      else if ltb max_message_size (length bytes)
      then with_link (with_rx (reset d.link.rx_fragment) d.link) d
      else if not (char == l.service.control_point_handle)
      then d'
      else elim (on_control_point_write hal conn (some bytes) l.service l.world) [
        | none ↦ d'
        | some fragment ↦ (process_request callbacks (some fragment) d').1
      ]

  abbrev pub set_notify : Bool → ℕ → Link W → Link W
  set_notify enabled char l =
      if char == l.service.status_handle
      then record l { service = set_status_notify_enabled enabled l.service }
      else l

  unfoldable pub on_encryption_changed : ℕ → Bool → Device W → Device W
  on_encryption_changed conn encrypted d =
      let c = d.link.connection in
      let d1 = with_link (with_connection (record c { is_encrypted = encrypted }) d.link) d in
      let d2 = if is_processing d.link.phase then cleanup_operation_state d1 else d1 in
      let l2 = d2.link in
      if encrypted
      then d1
      else with_link (record l2 { world = (hal.disconnect conn l2.world).1 }) d2

  unfoldable pub on_ble_event : Callbacks W → Event → Device W → Device W
  on_ble_event callbacks (connected conn) d = on_connected callbacks conn d
  on_ble_event callbacks (disconnected conn) d = on_disconnected callbacks d
  on_ble_event callbacks (write conn char bytes) d = on_write callbacks conn char bytes d
  on_ble_event callbacks (notify_enabled conn char) d = with_link (set_notify true char d.link) d
  on_ble_event callbacks (notify_disabled conn char) d = with_link (set_notify false char d.link) d
  on_ble_event callbacks (mtu_changed mtu) d =
      let c = d.link.connection in
      with_link (with_connection (record c { mtu = if ltb mtu 23 then 23 else mtu }) d.link) d
  on_ble_event callbacks (encryption_changed conn encrypted) d =
      on_encryption_changed conn encrypted d
  on_ble_event callbacks (pairing_request conn) d = with_link (handle_pairing_request conn d.link) d
  on_ble_event callbacks (pairing_complete conn) d =
      with_link (handle_pairing_complete conn d.link) d
  on_ble_event callbacks (pairing_failed conn) d = with_link (handle_pairing_failed conn d.link) d
  on_ble_event callbacks other d = d

  abbrev pub security_config : SecurityConfig
  security_config = record {
    mode = authenticated;
    pairing = numeric;
    bonding_enabled = true;
    mitm_protection = true;
  }

  -- `given` says whether the callbacks are there; `reassembly_buffer` is the static array.
  unfoldable pub ble_init : Bool → List ℕ → Link W → ℤ × Link W
  ble_init given reassembly_buffer l =
      let (up, w) = hal.ble_init l.world in
      let (_, w1) = hal.set_security_config security_config w in
      let (code, service, w2) = service_init hal true l.service w1 in
      if not given
      then (ble_invalid_param, l)
      else if l.initialized
      then (ble_ok, l)
      else if not (hal.is_supported l.world)
      then (ble_error, l)
      else if not up
      then (ble_error, record l { callbacks = false; world = w })
      else if not (is_ok code)
      then (ble_error, record l { callbacks = false; service = service; world = hal.deinit w2 })
      else (
        ble_ok,
        record l {
          initialized = true;
          phase = phase_idle;
          callbacks = true;
          rx_fragment = fragment_init reassembly_buffer;
          service = service;
          world = w2;
        },
      )

  -- The wrapper for the registry gives the number of bytes.
  unfoldable pub send_wrapper : List ℕ → Link W → ℤ × Link W
  send_wrapper bytes l =
      let (code, l') = send_response hal alloc (some bytes) l in
      (if is_ok code then pos (length bytes) else code, l')

  abbrev pub receive_wrapper : ℕ → Link W → (ℤ × List ℕ × ℕ) × Link W
  receive_wrapper room l = ((pos 0, [], 0), l)

  abbrev pub ble_ops : Ops (Link W)
  ble_ops = record {
    send = some send_wrapper;
    receive = some receive_wrapper;
    is_connected = some (λ l. (ble_is_connected l, l));
  }

  unfoldable pub ble_register : Device W → ℤ × Device W
  ble_register d =
      let (code, g) = register d.registry ble (some ble_ops) in
      if not d.link.initialized
      then (ble_not_initialized, d)
      else (if is_ok code then ble_ok else ble_error, record d { registry = g })
