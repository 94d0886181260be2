-- ===== src/Transport/Tests.antt =====
-- Runs of src/transport/transport.c, and its theorems at concrete inputs.
use open_fido.Common.{ℕ, true, false, ◌≡◌, List, [], ◌∷◌, length, some, arith, refl, pos}
use open_fido.Transport
use open_fido.Transport.{
  State, TransportType, usb, ble, type_max, Ops, cleared, entry, set_active, lock, error_locked,
  send, send_on, receive_from, any_connected,
}
use open_fido.Transport.Invariant.{
  Call, init_call, register_call, lock_call, set_active_call, unregister_call, run, step, IsValid,
  run-IsValid,
}
use open_fido.Transport.Lock.{IsHeld, lock_excludes}

-- A transport that keeps the number of bytes sent so far.
abbrev counting : Ops ℕ
counting = record {
  send = some (λ bytes w. (pos (length bytes), w));
  receive = some (λ room w. ((pos 0, [], 0), w));
  is_connected = some (λ w. (true, w));
}

abbrev setup : List (Call ℕ)
setup =
    init_call
    ∷ register_call usb (some counting)
    ∷ register_call ble (some counting)
    ∷ lock_call usb
    ∷ []

abbrev tries : List (Call ℕ)
tries = set_active_call ble ∷ lock_call ble ∷ unregister_call type_max ∷ []

abbrev ready : State ℕ
ready = record (cleared true) {
  usb_entry = record { registered = true; ops = counting };
  ble_entry = record { registered = true; ops = counting };
  locked = true;
  locked_transport = usb;
}

setup-ready : run (cleared false) setup ≡ ready
unfolding run step Transport.init Transport.register lock
setup-ready = refl

run-IsValid_example : IsValid (run (cleared false) setup)
run-IsValid_example = run-IsValid setup

ready-IsValid : IsValid ready
ready-IsValid = ground arith

lock_excludes_example :
    let s' = run ready tries in
    IsHeld usb s' × (set_active s' ble ≡ (error_locked, s')) × (lock s' ble ≡ (error_locked, s'))
unfolding run step set_active lock Transport.unregister
lock_excludes_example =
    lock_excludes usb ble ready tries (record { running = refl; taken = refl; holder = refl })
      (refl, (refl, (refl, tt))) refl refl
