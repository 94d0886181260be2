-- ===== src/Ble/Tests.antt =====
-- Runs of src/ble/ble_transport.c on a stack whose world is its clock, and its theorems at concrete
-- inputs.
use open_fido.Ble.Gate.{none_completes, serve, serve-IsUnpaired, IsUnpaired, with_request}
use open_fido.Ble.Block.{none_ends, serve-blocked}
use open_fido.Ble.Events.{
  on_write, on_encryption_changed, on_disconnected, advertise_again, handle_pairing_failed,
  on_connected, process_message, Device, Callbacks, on_ble_event, with_link, process_request,
  process_added, cleanup_operation_state,
}
use open_fido.Fragment.{
  get_message, create, continuations, behind, init as fragment_init, add, is_complete,
}
use open_fido.Transport.{is_active, State as Registry, usb, is_busy}
use open_fido.Common.{ℕ, ◌+◌, ◌≡◌, inr, true, false, List, [], ◌∷◌, some, none, refl, arith, ltb}
use open_fido.Ble.Hal.{
  Hal, Event, connected, disconnected, write, encryption_changed, pairing_failed, pairing_request,
}
use open_fido.Ble.Service.{Service, on_control_point_write, is_authorized, send_status}
use open_fido.Ble.Link.{
  Link, Connection, connected as in_connection, send_response, ble_busy, ble_is_connected,
  send_created, send_fragments, set_low_power_mode, send_ctap_error_response, now,
}
use open_fido.Ble.Contention.{process_request-IsFree, IsFree}
use open_fido.Ble.Sending.{Sent, send_response-Sent}

abbrev hal : Hal ℕ
hal = record {
  is_supported = λ w. true;
  ble_init = λ w. (true, w);
  deinit = λ w. w;
  set_security_config = λ c w. (true, w);
  start_advertising = λ p w. (true, w);
  stop_advertising = λ w. w;
  set_low_power_advertising = λ b w. (true, w);
  enter_deep_sleep = λ w. (true, w);
  wake_from_sleep = λ w. (true, w);
  disconnect = λ h w. (true, w);
  get_mtu = λ h w. some 64;
  is_encrypted = λ h w. some true;
  update_connection_params = λ h a b c d w. (true, w);
  pairing_confirm = λ h b w. w + 1;
  register_service = λ u w. (some 1, w);
  add_characteristic = λ s u p n w. (some 2, w);
  set_value = λ h v w. w;
  notify = λ h c f w. (true, w + 1);
  get_timestamp_ms = λ w. w;
  led_set_pattern = λ p w. w;
}

abbrev service : Service
service = record {
  initialized = true;
  callbacks = true;
  service_handle = 1;
  control_point_handle = 2;
  status_handle = 3;
  control_point_length_handle = 4;
  service_revision_handle = 5;
  service_revision_bitfield_handle = 6;
  status_notify_enabled = true;
}

abbrev secure : Connection
secure = record {
  conn_handle = 7;
  is_connected = true;
  is_encrypted = true;
  is_paired = true;
  mtu = 23;
  last_activity_ms = 0;
  pairing_attempts = 0;
  pairing_block_until_ms = 0;
}

abbrev link : Link ℕ
link = record {
  initialized = true;
  phase = in_connection;
  callbacks = true;
  connection = secure;
  rx_fragment = fragment_init [];
  low_power_mode = false;
  last_global_activity_ms = 0;
  service = service;
  world = 1000;
}

-- An operation over USB is under way.
abbrev registry : Registry (Link ℕ)
registry = record {
  initialized = true;
  usb_entry = record {
    registered = true;
    ops = record { send = none; receive = none; is_connected = none };
  };
  ble_entry = record {
    registered = true;
    ops = record { send = none; receive = none; is_connected = none };
  };
  active_transport = usb;
  operation_in_progress = true;
  locked = true;
  locked_transport = usb;
}

abbrev device : Device ℕ
device = record { link = link; registry = registry }

abbrev callbacks : Callbacks ℕ
callbacks = record { on_ctap_request = some (λ m d. d); on_connection_change = none }

-- A reconnection of a bonded peer, and its request.
abbrev back_again : List Event
back_again = connected 8 ∷ encryption_changed 8 true ∷ write 8 2 (some (0x80 ∷ 0 ∷ 1 ∷ 4 ∷ [])) ∷ []

abbrev reconnection : List Event
reconnection = disconnected 7 ∷ back_again

paired : device.link.connection.is_paired ≡ true
paired = refl

serve-IsUnpaired_example :
    (serve hal
        (λ i. true)
        (with_request hal (λ i. true) none callbacks)
        (disconnected 7 ∷ back_again)
        device
      ≡ serve hal (λ i. true) callbacks (disconnected 7 ∷ back_again) device)
    × IsUnpaired hal
        (λ i. true)
        (serve hal (λ i. true) callbacks (disconnected 7 ∷ back_again) device).link
unfolding none_completes
serve-IsUnpaired_example =
    serve-IsUnpaired hal (λ i. true) callbacks none (disconnected 7) back_again device
      (λ f up d e u. absurd (ground (arith, e))) refl (inr refl)

-- A request of one byte while USB works.
abbrev request : List ℕ
request = 0x80 ∷ 0 ∷ 1 ∷ 4 ∷ []

busy_run : (process_request hal (λ i. true) callbacks (some request) device).0 ≡ ble_busy
unfolding add ble_is_connected get_message is_active is_busy is_complete process_added
    process_message process_request
busy_run = refl

process_request-IsFree_example :
    IsFree hal
      (λ i. true)
      (process_request hal (λ i. true) callbacks (some request) device).1.registry
process_request-IsFree_example =
    process_request-IsFree hal (λ i. true) callbacks request device
      (process_request hal (λ i. true) callbacks (some request) device).1
      (process_request hal (λ i. true) callbacks (some request) device).0 refl
      (λ e. ground (arith, e)) refl (λ e. ground (arith, e, busy_run))

abbrev response : List ℕ
response = 0 ∷ 1 ∷ 2 ∷ 3 ∷ 4 ∷ []

abbrev after_sending : Link ℕ
after_sending = (send_response hal (λ i. true) (some response) link).1

send_response-Sent_example : Sent hal (λ i. true) response link
unfolding send_response ble_is_connected send_created create behind continuations send_fragments
    send_status is_authorized
send_response-Sent_example = send_response-Sent hal (λ i. true) response link after_sending refl

abbrev twice_failed : Device ℕ
twice_failed = record device {
  link = record link { connection = record secure { pairing_attempts = 2; is_paired = false } };
}

abbrev no_callbacks : Callbacks ℕ
no_callbacks = record { on_ctap_request = none; on_connection_change = none }

blocked_time :
    ltb
      (now hal
        (serve hal (λ i. true) no_callbacks (pairing_failed 7 ∷ reconnection) twice_failed).link)
      61000
    ≡ true
unfolding advertise_again ble_is_connected cleanup_operation_state handle_pairing_failed
    is_authorized on_ble_event on_connected on_control_point_write on_disconnected
    on_encryption_changed on_write process_request send_ctap_error_response send_response serve
    set_low_power_mode
blocked_time = refl

abbrev blocked : Device ℕ
blocked = serve hal (λ i. true) no_callbacks (pairing_failed 7 ∷ reconnection) twice_failed

serve-blocked_example :
    on_ble_event hal (λ i. true) no_callbacks (pairing_request 8) blocked
    ≡ with_link
        (record blocked.link { world = hal.pairing_confirm 8 false blocked.link.world })
        blocked
unfolding none_ends serve
serve-blocked_example =
    serve-blocked hal (λ i. true) no_callbacks reconnection 7 8 twice_failed
      (record {
        request = λ f m d e. absurd (ground (arith, e));
        change = λ f up d e. absurd (ground (arith, e));
      })
      refl refl (ground (arith, blocked_time))
