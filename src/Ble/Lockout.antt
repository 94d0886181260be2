-- ===== src/Ble/Lockout.antt =====
-- The block on pairing after three failures of src/ble/ble_transport.c, through the events that follow.
use open_fido.Common.{ℕ, Bool, List, [], ◌∷◌, Option, some, none, ◌≡◌, refl, arith, ◌∙◌, ap}
use open_fido.Fragment.{Reassembler, Result, ok, fail, create, add, get_message}
use open_fido.Ble.Hal.{Hal}
use open_fido.Ble.Service.{send_status}
use open_fido.Ble.Link.{
  Link, send_fragments, send_created, send_response, send_ctap_error_response,
  update_activity_timestamp,
}
use open_fido.Ble.Events.{
  Device, Callbacks, with_link, with_rx, cleanup_operation_state, send_error, process_request,
  process_added, process_message, begin_processing, end_processing, call_request, call_change,
  fragment_error,
}
use open_fido.Ble.Gate.{cleanup-connection}

module _ {W : Type 0} (hal : Hal W) (alloc : ℕ → Bool) where
  -- The failures counted, and the end of the block.
  abbrev pub lockout : Link W → ℕ × ℕ
  lockout l = (l.connection.pairing_attempts, l.connection.pairing_block_until_ms)

  send_fragments-lockout :
      (fragments : List (List ℕ)) (l : Link W)
      → lockout (send_fragments hal fragments l).1 ≡ lockout l
  unfolding send_fragments
  send_fragments-lockout [] l = refl
  send_fragments-lockout (fragment ∷ fragments) l =
      let sending = send_status hal l.connection.conn_handle (some fragment) l.service l.world in
      let here : Link W = record l { world = sending.1 } in
      let rest = send_fragments-lockout fragments here in ground (arith, rest)

  send_created-lockout :
      (o : Option (Result (List (List ℕ)))) (l : Link W)
      → lockout (send_created hal o l).1 ≡ lockout l
  unfolding send_created
  send_created-lockout none l = refl
  send_created-lockout (some (fail x)) l = refl
  send_created-lockout (some (ok fragments)) l = send_fragments-lockout fragments l

  send_error-lockout :
      (code : ℕ) (l : Link W) → lockout (send_ctap_error_response hal alloc code l) ≡ lockout l
  unfolding send_ctap_error_response send_response
  send_error-lockout code l =
      let sent =
        send_created-lockout (create alloc (some (code ∷ [])) l.connection.mtu)
          (update_activity_timestamp hal l) in
      ground (arith, sent)

  refusal-lockout :
      (code : ℕ) (d : Device W)
      → lockout (send_error hal alloc code (cleanup_operation_state hal alloc d)).link
        ≡ lockout d.link
  refusal-lockout code d =
      send_error-lockout code (cleanup_operation_state hal alloc d).link
      ∙ ap (λ c. (c.pairing_attempts, c.pairing_block_until_ms)) (cleanup-connection hal alloc d)

  -- The callbacks of the application leave the count and the block alone.
  pub record KeepsLockout (c : Callbacks W) : Type 0 where
    pub request :
        (f : List ℕ → Device W → Device W) (message : List ℕ) (d : Device W)
        → c.on_ctap_request ≡ some f
        → lockout (f message d).link ≡ lockout d.link
    pub change :
        (f : Bool → Device W → Device W) (up : Bool) (d : Device W)
        → c.on_connection_change ≡ some f
        → lockout (f up d).link ≡ lockout d.link

  call_request-lockout :
      (c : Callbacks W) (stored : Bool) (message : List ℕ) (d : Device W)
      → KeepsLockout c
      → lockout (call_request hal alloc c.on_ctap_request stored message d).link ≡ lockout d.link
  call_request-lockout c stored message d k = go c.on_ctap_request refl
    where
      go :
          (o : Option (List ℕ → Device W → Device W))
          → c.on_ctap_request ≡ o
          → lockout (call_request hal alloc o stored message d).link ≡ lockout d.link
      go none e = refl
      go (some f) e = let v = k.request f message d e in ground (arith, v)

  pub call_change-lockout :
      (c : Callbacks W) (stored up : Bool) (d : Device W)
      → KeepsLockout c
      → lockout (call_change hal alloc c.on_connection_change stored up d).link ≡ lockout d.link
  call_change-lockout c stored up d k = go c.on_connection_change refl
    where
      go :
          (o : Option (Bool → Device W → Device W))
          → c.on_connection_change ≡ o
          → lockout (call_change hal alloc o stored up d).link ≡ lockout d.link
      go none e = refl
      go (some f) e = let v = k.change f up d e in ground (arith, v)

  process_message-lockout :
      (c : Callbacks W) (r : Result (List ℕ)) (d : Device W)
      → KeepsLockout c
      → lockout (process_message hal alloc c r d).1.link ≡ lockout d.link
  unfolding process_message
  process_message-lockout c (fail x) d k = refusal-lockout 0x01 d
  process_message-lockout c (ok message) d k =
      let refused = refusal-lockout 0x06 d in
      let d1 = begin_processing hal alloc d in
      let begun : lockout d1.link ≡ lockout d.link = ground arith in
      let called = call_request-lockout c d1.link.callbacks message d1 k in
      let ended : lockout
            (end_processing hal alloc
              (call_request hal alloc c.on_ctap_request d1.link.callbacks message d1)).link
          ≡ lockout (call_request hal alloc c.on_ctap_request d1.link.callbacks message d1).link =
        ground arith in
      let whole = ended ∙ called ∙ begun in ground (arith, refused, whole)

  process_added-lockout :
      (c : Callbacks W) (added : Result (Unit {0}) × Reassembler) (d : Device W)
      → KeepsLockout c
      → lockout (process_added hal alloc c added d).1.link ≡ lockout d.link
  unfolding process_added
  process_added-lockout c (fail x, r) d k =
      refusal-lockout (fragment_error hal alloc x) (with_link (with_rx r d.link) d)
  process_added-lockout c (ok _, r) d k =
      let all = process_message-lockout c (get_message r) (with_link (with_rx r d.link) d) k in
      ground (arith, all)

  pub process_request-lockout :
      (c : Callbacks W) (bytes : List ℕ) (d : Device W)
      → KeepsLockout c
      → lockout (process_request hal alloc c (some bytes) d).1.link ≡ lockout d.link
  unfolding process_request
  process_request-lockout c bytes d k =
      let l = update_activity_timestamp hal d.link in
      let long = refusal-lockout 0x03 d in
      let strange = refusal-lockout 0x40 d in
      let cleaned : lockout (cleanup_operation_state hal alloc d).link ≡ lockout d.link =
        ap (λ q. (q.pairing_attempts, q.pairing_block_until_ms)) (cleanup-connection hal alloc d) in
      let added = process_added-lockout c (add l.rx_fragment (some bytes)) (with_link l d) k in
      ground (arith, long, strange, cleaned, added)
