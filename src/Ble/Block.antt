-- ===== src/Ble/Block.antt =====
-- The block on pairing of src/ble/ble_transport.c, through the events of the stack.
use open_fido.Common.{
  ℕ, ◌+◌, ◌%◌, ◌^◌, ◌<◌, Bool, true, false, not, ◌&&◌, List, [], ◌∷◌, Option, some, none, ◌≡◌, refl,
  arith, ◌∙◌, ap, leb,
}
use open_fido.Ble.Hal.{
  Hal, Event, other, connected, disconnected, write, notify_enabled, notify_disabled, mtu_changed,
  encryption_changed, pairing_request, pairing_complete, pairing_failed,
}
use open_fido.Ble.Service.{on_control_point_write}
use open_fido.Ble.Link.{update_activity_timestamp, set_low_power_mode, now}
use open_fido.Ble.Events.{
  Device, Callbacks, with_link, on_write, on_ble_event, on_connected, on_disconnected,
  on_encryption_changed, handle_pairing_request, handle_pairing_failed,
}
use open_fido.Ble.Gate.{cleanup-connection, advertise_again-connection, serve}
use open_fido.Ble.Lockout.{lockout, KeepsLockout, call_change-lockout, process_request-lockout}

module _ {W : Type 0} (hal : Hal W) (alloc : ℕ → Bool) where
  on_write-lockout :
      (c : Callbacks W) (conn char : ℕ) (bytes : Option (List ℕ)) (d : Device W)
      → KeepsLockout hal alloc c
      → lockout hal alloc (on_write hal alloc c conn char bytes d).link ≡ lockout hal alloc d.link
  unfolding on_write
  on_write-lockout c conn char none d k = refl
  on_write-lockout c conn char (some bytes) d k = go _ refl
    where
      d1 : Device W
      d1 = with_link (update_activity_timestamp hal d.link) d

      go :
          (o : Option (List ℕ))
          → on_control_point_write hal conn (some bytes) d1.link.service d1.link.world ≡ o
          → lockout hal alloc (on_write hal alloc c conn char (some bytes) d).link
            ≡ lockout hal alloc d.link
      go none e = ground (arith, e)
      go (some fragment) e =
          let v = process_request-lockout hal alloc c fragment d1 k in ground (arith, e, v)

  on_disconnected-lockout :
      (c : Callbacks W) (d : Device W)
      → KeepsLockout hal alloc c
      → lockout hal alloc (on_disconnected hal alloc c d).link ≡ lockout hal alloc d.link
  unfolding on_disconnected
  on_disconnected-lockout c d k =
      ap (λ q. (q.pairing_attempts, q.pairing_block_until_ms))
        (advertise_again-connection hal alloc _)
      ∙ (call_change-lockout hal alloc c _ false _ k
          ∙ let kept = cleanup-connection hal alloc d in ground (arith, kept))

  on_connected-lockout :
      (c : Callbacks W) (conn : ℕ) (d : Device W)
      → KeepsLockout hal alloc c
      → lockout hal alloc (on_connected hal alloc c conn d).link ≡ lockout hal alloc d.link
  unfolding on_connected set_low_power_mode
  on_connected-lockout c conn d k = call_change-lockout hal alloc c _ true _ k ∙ ground arith

  on_encryption_changed-lockout :
      (conn : ℕ) (encrypted : Bool) (d : Device W)
      → lockout hal alloc (on_encryption_changed hal alloc conn encrypted d).link
        ≡ lockout hal alloc d.link
  unfolding on_encryption_changed
  on_encryption_changed-lockout conn encrypted d =
      let c = d.link.connection in
      let d1 : Device W = record d {
        link = record d.link { connection = record c { is_encrypted = encrypted } };
      } in
      let kept = cleanup-connection hal alloc d1 in ground (arith, kept)

  -- Whether an event ends a pairing, well or not.
  abbrev pub ends_pairing : Event → Bool
  ends_pairing (pairing_complete conn) = true
  ends_pairing (pairing_failed conn) = true
  ends_pairing _ = false

  step-lockout :
      (c : Callbacks W) (e : Event) (d : Device W)
      → KeepsLockout hal alloc c
      → ends_pairing e ≡ false
      → lockout hal alloc (on_ble_event hal alloc c e d).link ≡ lockout hal alloc d.link
  unfolding on_ble_event handle_pairing_request
  step-lockout c (connected conn) d k n = on_connected-lockout c conn d k
  step-lockout c (disconnected conn) d k n = on_disconnected-lockout c d k
  step-lockout c (write conn char bytes) d k n = on_write-lockout c conn char bytes d k
  step-lockout c (notify_enabled conn char) d k n = ground arith
  step-lockout c (notify_disabled conn char) d k n = ground arith
  step-lockout c (mtu_changed mtu) d k n = refl
  step-lockout c (encryption_changed conn encrypted) d k n =
      on_encryption_changed-lockout conn encrypted d
  step-lockout c (pairing_request conn) d k n = ground arith
  step-lockout c (pairing_complete conn) d k n = absurd (ground (arith, n))
  step-lockout c (pairing_failed conn) d k n = absurd (ground (arith, n))
  step-lockout c other d k n = refl

  unfoldable pub none_ends : List Event → Bool
  none_ends [] = true
  none_ends (e ∷ es) = not (ends_pairing e) && none_ends es

  serve-lockout :
      (c : Callbacks W) (es : List Event) (d : Device W)
      → KeepsLockout hal alloc c
      → none_ends es ≡ true
      → lockout hal alloc (serve hal alloc c es d).link ≡ lockout hal alloc d.link
  unfolding serve none_ends
  serve-lockout c [] d k n = refl
  serve-lockout c (e ∷ es) d k n =
      serve-lockout c es (on_ble_event hal alloc c e d) k (ground (arith, n))
      ∙ step-lockout c e d k (ground (arith, n))

  -- A pairing that fails as the third in a row or later, counted in a byte, blocks pairing for 60
  -- seconds: whatever events follow, reconnections included, as long as none of them completes a
  -- pairing or reports another failure, a request to pair before that time is answered with a
  -- refusal, and changes nothing else. The callbacks of the application leave the count and the block
  -- alone.
  pub serve-blocked :
      (c : Callbacks W) (es : List Event) (conn conn' : ℕ) (d : Device W)
      → KeepsLockout hal alloc c
      → leb 3 ((d.link.connection.pairing_attempts + 1) % 2 ^ 8) ≡ true
      → none_ends es ≡ true
      → let l = (serve hal alloc c (pairing_failed conn ∷ es) d).link in
        now hal l < (now hal d.link + 60000) % 2 ^ 64
        → on_ble_event hal alloc c
            (pairing_request conn')
            (serve hal alloc c (pairing_failed conn ∷ es) d)
          ≡ with_link
              (record l { world = hal.pairing_confirm conn' false l.world })
              (serve hal alloc c (pairing_failed conn ∷ es) d)
  unfolding serve on_ble_event handle_pairing_failed handle_pairing_request
  serve-blocked c es conn conn' d k third n early =
      let d1 = on_ble_event hal alloc c (pairing_failed conn) d in
      let until : d1.link.connection.pairing_block_until_ms ≡ (now hal d.link + 60000) % 2 ^ 64 =
        ground (arith, third) in
      let kept = ap (λ q. q.1) (serve-lockout c es d1 k n) in ground (arith, until, kept, early)
