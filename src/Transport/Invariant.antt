-- ===== src/Transport/Invariant.antt =====
-- What holds of the registry of src/transport/transport.c after any calls.
use open_fido.Common.{
  Bool, true, false, ◌≡◌, ◌≢◌, List, [], ◌∷◌, ℕ, Option, some, none, arith, not, ◌&&◌, ◌||◌, refl,
  Bool-cases, inr, inl,
}
use open_fido.Transport.{
  State, Entry, Ops, TransportType, usb, ble, type_max, entry, is_max, is_some, cleared, init,
  register, unregister, set_active, set_busy, lock, unlock, send, send_on, receive_from, call,
  any_connected, send_connected, connected_or, call_connected,
}

-- The calls that change the registry.
pub data Call (W : Type 0) : Type 0 where
  init_call : Call W
  register_call : TransportType → Option (Ops W) → Call W
  unregister_call : TransportType → Call W
  set_active_call : TransportType → Call W
  set_busy_call : Bool → Call W
  lock_call : TransportType → Call W
  unlock_call : Call W

module _ {W : Type 0} where
  -- A registered transport has the functions that are called.
  abbrev pub has_ops : Entry W → Bool
  has_ops e =
      not e.registered
      || (is_some e.ops.send && (is_some e.ops.receive && is_some e.ops.is_connected))

  -- The active transport is registered, and the lock names a registered transport while it is
  -- held, and none while it is free.
  pub record IsValid (s : State W) : Type 0 where
    pub usb_ops : has_ops s.usb_entry ≡ true
    pub ble_ops : has_ops s.ble_entry ≡ true
    pub active : (is_max s.active_transport || (entry s s.active_transport).registered) ≡ true
    pub held : (not s.locked || (entry s s.locked_transport).registered) ≡ true
    pub free : (s.locked || is_max s.locked_transport) ≡ true

  -- The registry behind one call.
  unfoldable pub step : State W → Call W → State W
  step s init_call = (init s).1
  step s (register_call t ops) = (register s t ops).1
  step s (unregister_call t) = (unregister s t).1
  step s (set_active_call t) = (set_active s t).1
  step s (set_busy_call b) = set_busy s b
  step s (lock_call t) = (lock s t).1
  step s unlock_call = unlock s

  unfoldable pub run : State W → List (Call W) → State W
  run s [] = s
  run s (c ∷ cs) = run (step s c) cs

  register-IsValid :
      (s : State W) (t : TransportType) (ops : Option (Ops W))
      → IsValid s
      → IsValid (register s t ops).1
  unfolding register
  register-IsValid s t none v = ground arith
  register-IsValid s usb (some ops) v = ground arith
  register-IsValid s ble (some ops) v = ground arith
  register-IsValid s type_max (some ops) v = ground arith

  unregister-IsValid : (s : State W) (t : TransportType) → IsValid s → IsValid (unregister s t).1
  unfolding unregister
  unregister-IsValid s usb v = ground arith
  unregister-IsValid s ble v = ground arith
  unregister-IsValid s type_max v = ground arith

  set_active-IsValid : (s : State W) (t : TransportType) → IsValid s → IsValid (set_active s t).1
  unfolding set_active
  set_active-IsValid s usb v = ground arith
  set_active-IsValid s ble v = ground arith
  set_active-IsValid s type_max v = ground arith

  lock-IsValid : (s : State W) (t : TransportType) → IsValid s → IsValid (lock s t).1
  unfolding lock
  lock-IsValid s usb v = ground arith
  lock-IsValid s ble v = ground arith
  lock-IsValid s type_max v = ground arith

  step-IsValid : (s : State W) (c : Call W) → IsValid s → IsValid (step s c)
  unfolding step init set_busy unlock
  step-IsValid s init_call v = ground arith
  step-IsValid s (register_call t ops) v = register-IsValid s t ops v
  step-IsValid s (unregister_call t) v = unregister-IsValid s t v
  step-IsValid s (set_active_call t) v = set_active-IsValid s t v
  step-IsValid s (set_busy_call b) v = ground arith
  step-IsValid s (lock_call t) v = lock-IsValid s t v
  step-IsValid s unlock_call v = ground arith

  run-from-IsValid : (s : State W) (cs : List (Call W)) → IsValid s → IsValid (run s cs)
  unfolding run
  run-from-IsValid s [] v = v
  run-from-IsValid s (c ∷ cs) v = run-from-IsValid (step s c) cs (step-IsValid s c v)

  -- From the static initial state on, after any calls, the active transport is registered, the
  -- lock names a registered transport exactly while it is held, and a registered transport has the
  -- functions that are called.
  pub run-IsValid : (cs : List (Call W)) → IsValid (run (cleared false) cs)
  run-IsValid cs = run-from-IsValid (cleared false) cs (ground arith)

  call-ne-none :
      {A R : Type 0} (f : Option (A → W → R × W)) (a : A) (w : W)
      → is_some f ≡ true
      → call f a w ≢ none
  call-ne-none none a w h = λ e. cc
  call-ne-none (some f) a w h = λ e. cc

  call_connected-some :
      (f : Option (W → Bool × W)) (w : W)
      → is_some f ≡ true
      → (b : Bool) × (w' : W) × (call_connected f w ≡ some (b, w'))
  call_connected-some none w h = absurd (cc)
  call_connected-some (some f) w h = ((f w).0, (f w).1, refl)

  -- An entry of a valid state, asked to send.
  send_entry-ne-none :
      (e : Entry W) (bytes : List ℕ) (w : W)
      → has_ops e ≡ true
      → e.registered ≡ true
      → send_connected e.ops bytes (call_connected e.ops.is_connected w) ≢ none
  send_entry-ne-none e bytes w h r =
      let (b, w', p) = call_connected-some e.ops.is_connected w (ground arith) in rw p (go b w')
    where
      go : (b : Bool) (w' : W) → send_connected e.ops bytes (some (b, w')) ≢ none
      go true w' = unfold send_connected in call-ne-none e.ops.send bytes w' (ground arith)
      go false w' = unfold send_connected in λ p. cc

  entry-has_ops : (s : State W) (t : TransportType) → IsValid s → has_ops (entry s t) ≡ true
  entry-has_ops s usb v = v.usb_ops
  entry-has_ops s ble v = v.ble_ops
  entry-has_ops s type_max v = refl

  -- In a valid state a send never calls through a NULL pointer, whatever its arguments.
  send_on-ne-none :
      (s : State W) (t : TransportType) (bytes : Option (List ℕ)) (w : W)
      → IsValid s
      → send_on s t bytes w ≢ none
  unfolding send_on
  send_on-ne-none s t none w v = ground arith
  send_on-ne-none s t (some bytes) w v =
      ground (arith, send_entry-ne-none (entry s t) bytes w (entry-has_ops s t v))

  send-ne-none : (s : State W) (bytes : Option (List ℕ)) (w : W) → IsValid s → send s bytes w ≢ none
  unfolding send
  send-ne-none s none w v = ground arith
  send-ne-none s (some bytes) w v =
      ground (arith, send_on-ne-none s s.active_transport (some bytes) w v)

  receive_from-ne-none :
      (s : State W) (t : TransportType) (room : Option ℕ) (w : W)
      → IsValid s
      → receive_from s t room w ≢ none
  unfolding receive_from
  receive_from-ne-none s t none w v = ground arith
  receive_from-ne-none s t (some room) w v =
      ground (arith, call-ne-none (entry s t).ops.receive room w, entry-has_ops s t v)

  connected_or-ne-none :
      (e : Entry W) (rest : W → Option (Bool × W)) (w : W)
      → has_ops e ≡ true
      → ((w' : W) → rest w' ≢ none)
      → connected_or e rest w ≢ none
  connected_or-ne-none e rest w h r = elim (Bool-cases e.registered) [
    | inr off ↦ unfold connected_or in rw off (r w)
    | inl on ↦
        let (b, w', p) = call_connected-some e.ops.is_connected w (ground arith) in go on b w' p
  ]
    where
      go :
          e.registered ≡ true
          → (b : Bool) (w' : W) → call_connected e.ops.is_connected w ≡ some (b, w')
          → connected_or e rest w ≢ none
      go on true w' p = unfold connected_or in ground arith
      go on false w' p = unfold connected_or in ground (arith, r w')

  any_connected-ne-none : (s : State W) (w : W) → IsValid s → any_connected s w ≢ none
  unfolding any_connected
  any_connected-ne-none s w v = ground (
    arith,
    connected_or-ne-none s.usb_entry (connected_or s.ble_entry (λ w'. some (false, w'))) w v.usb_ops
        (λ w'.
          connected_or-ne-none s.ble_entry (λ w'. some (false, w')) w' v.ble_ops (λ w'. λ e. cc)),
  )

  -- In a valid state no operation calls through a NULL pointer, whatever its arguments.
  no_null_call :
      (s : State W) (t : TransportType) (bytes : Option (List ℕ)) (room : Option ℕ) (w : W)
      → IsValid s
      → (send s bytes w ≢ none)
        × (send_on s t bytes w ≢ none)
        × (receive_from s t room w ≢ none)
        × (any_connected s w ≢ none)
  no_null_call s t bytes room w v = (
    send-ne-none s bytes w v,
    send_on-ne-none s t bytes w v,
    receive_from-ne-none s t room w v,
    any_connected-ne-none s w v,
  )
