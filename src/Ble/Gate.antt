-- ===== src/Ble/Gate.antt =====
-- Which requests reach the application: src/ble/ble_transport.c looks at the connection first.
use open_fido.Common.{
  ℕ, Bool, false, List, Option, some, none, ◌≡◌, refl, arith, ◌∙◌, ap, true, ◌∷◌, not, [], ◌&&◌,
  ◌⊎◌, inl, inr,
}
use open_fido.Ble.Hal.{
  Hal, Event, other, pairing_complete, connected, disconnected, write, notify_enabled,
  notify_disabled, mtu_changed, encryption_changed, pairing_request, pairing_failed,
}
use open_fido.Ble.Link.{Link, send_response, send_ctap_error_response, update_activity_timestamp}
use open_fido.Ble.Events.{
  Device, Callbacks, cleanup_operation_state, process_request, on_write, on_disconnected,
  on_connected, call_change, advertise_again, with_link, on_encryption_changed, on_ble_event,
  handle_pairing_request, handle_pairing_failed,
}
use open_fido.Ble.Service.{on_control_point_write}

module _ {W : Type 0} (hal : Hal W) (alloc : ℕ → Bool) where
  abbrev pub IsUnpaired : Link W → Type 0
  IsUnpaired l = l.connection.is_paired ≡ false

  -- No error is sent on such a connection.
  pub send_error-unpaired :
      (code : ℕ) (l : Link W) → IsUnpaired l → send_ctap_error_response hal alloc code l ≡ l
  unfolding send_ctap_error_response send_response
  send_error-unpaired code l u = ground (arith, u)

  process_request-same :
      (c c' : Callbacks W) (bytes : Option (List ℕ)) (d : Device W)
      → IsUnpaired d.link
      → process_request hal alloc c bytes d ≡ process_request hal alloc c' bytes d
  unfolding process_request
  process_request-same c c' none d u = refl
  process_request-same c c' (some bytes) d u = ground (arith, u)

  pub cleanup-connection :
      (d : Device W) → (cleanup_operation_state hal alloc d).link.connection ≡ d.link.connection
  unfolding cleanup_operation_state
  cleanup-connection d = ground arith

  process_request-IsUnpaired :
      (c : Callbacks W) (bytes : Option (List ℕ)) (d : Device W)
      → IsUnpaired d.link
      → IsUnpaired (process_request hal alloc c bytes d).1.link
  unfolding process_request
  process_request-IsUnpaired c none d u = ground (arith, u)
  process_request-IsUnpaired c (some bytes) d u =
      let d' = cleanup_operation_state hal alloc d in
      let u' : IsUnpaired d'.link = ap (λ k. k.is_paired) (cleanup-connection d) ∙ u in
      let sent3 = send_error-unpaired 0x03 d'.link u' in
      let sent40 = send_error-unpaired 0x40 d'.link u' in ground (arith, u, u', sent3, sent40)

  -- The callback for connections does not report a pairing by itself.
  abbrev pub LeavesUnpaired : Callbacks W → Type 0
  LeavesUnpaired c =
      (f : Bool → Device W → Device W) (up : Bool) (d : Device W)
      → c.on_connection_change ≡ some f
      → IsUnpaired d.link
      → IsUnpaired (f up d).link

  call_change-IsUnpaired :
      (c : Callbacks W) (stored up : Bool) (d : Device W)
      → LeavesUnpaired c
      → IsUnpaired d.link
      → IsUnpaired (call_change hal alloc c.on_connection_change stored up d).link
  call_change-IsUnpaired c stored up d leaves u = go c.on_connection_change refl
    where
      go :
          (o : Option (Bool → Device W → Device W))
          → c.on_connection_change ≡ o
          → IsUnpaired (call_change hal alloc o stored up d).link
      go none e = u
      go (some f) e = let v = leaves f up d e u in ground (arith, u, v)

  on_write-IsUnpaired :
      (c : Callbacks W) (conn char : ℕ) (bytes : Option (List ℕ)) (d : Device W)
      → IsUnpaired d.link
      → IsUnpaired (on_write hal alloc c conn char bytes d).link
  unfolding on_write
  on_write-IsUnpaired c conn char none d u = u
  on_write-IsUnpaired c conn char (some bytes) d u = go _ refl
    where
      d1 : Device W
      d1 = with_link (update_activity_timestamp hal d.link) d

      go :
          (o : Option (List ℕ))
          → on_control_point_write hal conn (some bytes) d1.link.service d1.link.world ≡ o
          → IsUnpaired (on_write hal alloc c conn char (some bytes) d).link
      go none e = ground (arith, u, e)
      go (some fragment) e =
          let v = process_request-IsUnpaired c (some fragment) d1 u in ground (arith, u, e, v)

  on_write-same :
      (c c' : Callbacks W) (conn char : ℕ) (bytes : Option (List ℕ)) (d : Device W)
      → IsUnpaired d.link
      → on_write hal alloc c conn char bytes d ≡ on_write hal alloc c' conn char bytes d
  unfolding on_write
  on_write-same c c' conn char none d u = refl
  on_write-same c c' conn char (some bytes) d u = go _ refl
    where
      d1 : Device W
      d1 = with_link (update_activity_timestamp hal d.link) d

      go :
          (o : Option (List ℕ))
          → on_control_point_write hal conn (some bytes) d1.link.service d1.link.world ≡ o
          → on_write hal alloc c conn char (some bytes) d
            ≡ on_write hal alloc c' conn char (some bytes) d
      go none e = ground (arith, e)
      go (some fragment) e =
          let v = process_request-same c c' (some fragment) d1 u in ground (arith, e, v)

  pub advertise_again-connection :
      (l : Link W) → (advertise_again hal alloc l).connection ≡ l.connection
  unfolding advertise_again
  advertise_again-connection l = ground arith

  on_disconnected-IsUnpaired :
      (c : Callbacks W) (d : Device W)
      → LeavesUnpaired c
      → IsUnpaired (on_disconnected hal alloc c d).link
  unfolding on_disconnected
  on_disconnected-IsUnpaired c d leaves =
      ap (λ k. k.is_paired) (advertise_again-connection _)
      ∙ call_change-IsUnpaired c _ false _ leaves refl

  on_connected-IsUnpaired :
      (c : Callbacks W) (conn : ℕ) (d : Device W)
      → LeavesUnpaired c
      → IsUnpaired (on_connected hal alloc c conn d).link
  unfolding on_connected
  on_connected-IsUnpaired c conn d leaves = call_change-IsUnpaired c _ true _ leaves (ground arith)

  on_encryption_changed-IsUnpaired :
      (conn : ℕ) (encrypted : Bool) (d : Device W)
      → IsUnpaired d.link
      → IsUnpaired (on_encryption_changed hal alloc conn encrypted d).link
  unfolding on_encryption_changed
  on_encryption_changed-IsUnpaired conn encrypted d u =
      let c = d.link.connection in
      let d1 : Device W = record d {
        link = record d.link { connection = record c { is_encrypted = encrypted } };
      } in
      let kept = cleanup-connection d1 in ground (arith, u, kept)

  handle_pairing-IsUnpaired :
      (conn : ℕ) (l : Link W)
      → IsUnpaired l
      → IsUnpaired (handle_pairing_request hal alloc conn l)
        × IsUnpaired (handle_pairing_failed hal alloc conn l)
  unfolding handle_pairing_request handle_pairing_failed
  handle_pairing-IsUnpaired conn l u = (ground (arith, u), ground (arith, u))

  abbrev pub completes_pairing : Event → Bool
  completes_pairing (pairing_complete conn) = true
  completes_pairing _ = false

  step-IsUnpaired :
      (c : Callbacks W) (e : Event) (d : Device W)
      → LeavesUnpaired c
      → completes_pairing e ≡ false
      → IsUnpaired d.link
      → IsUnpaired (on_ble_event hal alloc c e d).link
  unfolding on_ble_event
  step-IsUnpaired c (connected conn) d leaves n u = on_connected-IsUnpaired c conn d leaves
  step-IsUnpaired c (disconnected conn) d leaves n u = on_disconnected-IsUnpaired c d leaves
  step-IsUnpaired c (write conn char bytes) d leaves n u = on_write-IsUnpaired c conn char bytes d u
  step-IsUnpaired c (notify_enabled conn char) d leaves n u = ground (arith, u)
  step-IsUnpaired c (notify_disabled conn char) d leaves n u = ground (arith, u)
  step-IsUnpaired c (mtu_changed mtu) d leaves n u = u
  step-IsUnpaired c (encryption_changed conn encrypted) d leaves n u =
      on_encryption_changed-IsUnpaired conn encrypted d u
  step-IsUnpaired c (pairing_request conn) d leaves n u =
      (handle_pairing-IsUnpaired conn d.link u).0
  step-IsUnpaired c (pairing_complete conn) d leaves n u = absurd (ground (arith, n))
  step-IsUnpaired c (pairing_failed conn) d leaves n u = (handle_pairing-IsUnpaired conn d.link u).1
  step-IsUnpaired c other d leaves n u = u

  -- The same callbacks but for requests.
  abbrev pub with_request : Option (List ℕ → Device W → Device W) → Callbacks W → Callbacks W
  with_request request c = record c { on_ctap_request = request }

  step-same :
      (c : Callbacks W) (request : Option (List ℕ → Device W → Device W)) (e : Event) (d : Device W)
      → IsUnpaired d.link
      → on_ble_event hal alloc (with_request request c) e d ≡ on_ble_event hal alloc c e d
  unfolding on_ble_event on_connected on_disconnected
  step-same c request (connected conn) d u = refl
  step-same c request (disconnected conn) d u = refl
  step-same c request (write conn char bytes) d u =
      on_write-same (with_request request c) c conn char bytes d u
  step-same c request _ d u = refl

  -- The events, one after another.
  unfoldable pub serve : Callbacks W → List Event → Device W → Device W
  serve c [] d = d
  serve c (e ∷ es) d = serve c es (on_ble_event hal alloc c e d)

  unfoldable pub none_completes : List Event → Bool
  none_completes [] = true
  none_completes (e ∷ es) = not (completes_pairing e) && none_completes es

  serve-same :
      (c : Callbacks W) (request : Option (List ℕ → Device W → Device W)) (es : List Event)
      (d : Device W)
      → LeavesUnpaired c
      → none_completes es ≡ true
      → IsUnpaired d.link
      → (serve (with_request request c) es d ≡ serve c es d) × IsUnpaired (serve c es d).link
  unfolding serve none_completes
  serve-same c request [] d leaves n u = (refl, u)
  serve-same c request (e ∷ es) d leaves n u =
      let calm : completes_pairing e ≡ false = ground (arith, n) in
      let (rest, last) =
        serve-same c request es (on_ble_event hal alloc c e d) leaves (ground (arith, n))
          (step-IsUnpaired c e d leaves calm u) in
      (ap (serve (with_request request c) es) (step-same c request e d u) ∙ rest, last)

  -- The event opens or closes a connection.
  abbrev pub changes_connection : Event → Bool
  changes_connection (connected conn) = true
  changes_connection (disconnected conn) = true
  changes_connection _ = false

  changed-IsUnpaired :
      (c : Callbacks W) (e : Event) (d : Device W)
      → LeavesUnpaired c
      → changes_connection e ≡ true
      → IsUnpaired (on_ble_event hal alloc c e d).link
  unfolding on_ble_event
  changed-IsUnpaired c (connected conn) d leaves t = on_connected-IsUnpaired c conn d leaves
  changed-IsUnpaired c (disconnected conn) d leaves t = on_disconnected-IsUnpaired c d leaves
  changed-IsUnpaired c _ d leaves t = absurd (ground (arith, t))

  changed-same :
      (c : Callbacks W) (request : Option (List ℕ → Device W → Device W)) (e : Event) (d : Device W)
      → changes_connection e ≡ true
      → on_ble_event hal alloc (with_request request c) e d ≡ on_ble_event hal alloc c e d
  unfolding on_ble_event on_connected on_disconnected
  changed-same c request (connected conn) d t = refl
  changed-same c request (disconnected conn) d t = refl
  changed-same c request _ d t = absurd (ground (arith, t))

  -- A device that is not paired, or, in whatever state it is, one whose first event opens or closes a
  -- connection: through its events, none of which is the completion of a pairing, no request
  -- reaches the application. Whatever is put in place of its callback for requests, the transport
  -- ends in the same state, and unpaired. So it is with a paired peer that disconnects, connects
  -- again and is encrypted. The callback for connections leaves an unpaired device unpaired.
  pub serve-IsUnpaired :
      (c : Callbacks W) (request : Option (List ℕ → Device W → Device W)) (e : Event)
      (es : List Event) (d : Device W)
      → LeavesUnpaired c
      → none_completes (e ∷ es) ≡ true
      → IsUnpaired d.link ⊎ (changes_connection e ≡ true)
      → (serve (with_request request c) (e ∷ es) d ≡ serve c (e ∷ es) d)
        × IsUnpaired (serve c (e ∷ es) d).link
  unfolding serve none_completes
  serve-IsUnpaired c request e es d leaves n (inl u) = serve-same c request (e ∷ es) d leaves n u
  serve-IsUnpaired c request e es d leaves n (inr changes) =
      let (rest, last) =
        serve-same c request es (on_ble_event hal alloc c e d) leaves (ground (arith, n))
          (changed-IsUnpaired c e d leaves changes) in
      (ap (serve (with_request request c) es) (changed-same c request e d changes) ∙ rest, last)
