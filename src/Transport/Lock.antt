-- ===== src/Transport/Lock.antt =====
-- The lock of src/transport/transport.c excludes the other transport until it is released.
use open_fido.Common.{Bool, true, false, ◌≡◌, List, [], ◌∷◌, Option, some, none, arith, All, refl}
use open_fido.Transport.{
  State, TransportType, usb, ble, type_max, entry, same_type, lock, set_active, register,
  unregister, init, set_busy, error_locked, Ops, is_max,
}
use open_fido.Transport.Invariant.{
  Call, init_call, register_call, unregister_call, set_active_call, set_busy_call, lock_call,
  unlock_call, step, run,
}

same_type→eq : (t u : TransportType) → same_type t u ≡ true → t ≡ u
same_type→eq usb usb e = refl
same_type→eq ble ble e = refl
same_type→eq type_max type_max e = refl
same_type→eq usb ble e = absurd (cc)
same_type→eq usb type_max e = absurd (cc)
same_type→eq ble usb e = absurd (cc)
same_type→eq ble type_max e = absurd (cc)
same_type→eq type_max usb e = absurd (cc)
same_type→eq type_max ble e = absurd (cc)

module _ {W : Type 0} where
  -- Whether a call releases a lock on `t`.
  abbrev pub releases : TransportType → Call W → Bool
  releases t (unregister_call u) = same_type t u
  releases t unlock_call = true
  releases t _ = false

  -- The registry is running and its lock is held by `t`.
  pub record IsHeld (t : TransportType) (s : State W) : Type 0 where
    pub running : s.initialized ≡ true
    pub taken : s.locked ≡ true
    pub holder : s.locked_transport ≡ t

  register-IsHeld :
      (t u : TransportType) (ops : Option (Ops W)) (s : State W)
      → IsHeld t s
      → IsHeld t (register s u ops).1
  unfolding register
  register-IsHeld t u none s h = ground arith
  register-IsHeld t usb (some ops) s h = ground arith
  register-IsHeld t ble (some ops) s h = ground arith
  register-IsHeld t type_max (some ops) s h = ground arith

  unregister-IsHeld :
      (t u : TransportType) (s : State W)
      → same_type t u ≡ false
      → IsHeld t s
      → IsHeld t (unregister s u).1
  unfolding unregister
  unregister-IsHeld t usb s n h = ground arith
  unregister-IsHeld t ble s n h = ground arith
  unregister-IsHeld t type_max s n h = ground arith

  step-IsHeld :
      (t : TransportType) (s : State W) (c : Call W)
      → releases t c ≡ false
      → IsHeld t s
      → IsHeld t (step s c)
  unfolding step init set_active set_busy lock
  step-IsHeld t s init_call n h = ground arith
  step-IsHeld t s (register_call u ops) n h = register-IsHeld t u ops s h
  step-IsHeld t s (unregister_call u) n h = unregister-IsHeld t u s n h
  step-IsHeld t s (set_active_call u) n h = ground arith
  step-IsHeld t s (set_busy_call b) n h = ground arith
  step-IsHeld t s (lock_call u) n h = ground (arith, same_type→eq s.locked_transport u)
  step-IsHeld t s unlock_call n h = absurd (cc)

  run-IsHeld :
      (t : TransportType) (s : State W) (cs : List (Call W))
      → All (λ c. releases t c ≡ false) cs
      → IsHeld t s
      → IsHeld t (run s cs)
  unfolding run
  run-IsHeld t s [] n h = h
  run-IsHeld t s (c ∷ cs) n h = run-IsHeld t (step s c) cs n.1 (step-IsHeld t s c n.0 h)

  registered→real :
      (s : State W) (u : TransportType) → (entry s u).registered ≡ true → is_max u ≡ false
  registered→real s usb r = refl
  registered→real s ble r = refl
  registered→real s type_max r = absurd (cc)

  -- A lock outlives all calls but `transport_unlock` and the unregistering of its holder. As long
  -- as it is held, another registered transport can neither be made active nor be locked, and the
  -- attempt changes nothing.
  pub lock_excludes :
      (t u : TransportType) (s : State W) (cs : List (Call W))
      → IsHeld t s
      → All (λ c. releases t c ≡ false) cs
      → same_type t u ≡ false
      → (entry (run s cs) u).registered ≡ true
      → let s' = run s cs in
        IsHeld t s' × (set_active s' u ≡ (error_locked, s')) × (lock s' u ≡ (error_locked, s'))
  unfolding set_active lock
  lock_excludes t u s cs h n other r =
      let h' = run-IsHeld t s cs n h in
      let holder : same_type (run s cs).locked_transport u ≡ false = rw h'.holder other in
      let real : is_max u ≡ false = registered→real (run s cs) u r in
      (h', ground (arith, h', holder, real), ground (arith, h', holder, real))
