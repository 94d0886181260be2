-- ===== src/Ble/Sending.antt =====
-- What a response that src/ble/ble_transport.c reports as sent has done.
use open_fido.Common.{
  ℕ, Bool, true, List, [], ◌∷◌, Option, some, none, ◌≡◌, refl, arith, Bool-cases, inl, inr, subst,
}
use open_fido.Fragment.{Reassembler, Result, ok, fail, create, get_message}
use open_fido.Fragment.Reassembly.{IsValid}
use open_fido.Fragment.RoundTrip.{feed, feed-create}
use open_fido.Ble.Hal.{Hal}
use open_fido.Ble.Service.{Service, send_status, is_authorized}
use open_fido.Ble.Link.{
  Link, ble_ok, is_ok, send_fragments, send_created, send_response, ble_is_connected,
  update_activity_timestamp,
}

module _ {W : Type 0} (hal : Hal W) where
  -- Every fragment went out in turn, each as a notification that the stack accepted, to a client that
  -- had them enabled and over a connection that the stack calls encrypted.
  pub data Notified (s : Service) (conn : ℕ) : List (List ℕ) → W → Type 0 where
    all_sent : (w : W) → Notified s conn [] w
    sent :
        (fragment : List ℕ) (fragments : List (List ℕ)) (w : W)
        → is_authorized hal conn w ≡ true
        → s.status_notify_enabled ≡ true
        → (hal.notify conn s.status_handle fragment w).0 ≡ true
        → Notified s conn fragments (hal.notify conn s.status_handle fragment w).1
        → Notified s conn (fragment ∷ fragments) w

  send_status-ok :
      (s : Service) (conn : ℕ) (bytes : List ℕ) (w : W)
      → is_ok (send_status hal conn (some bytes) s w).0 ≡ true
      → (is_authorized hal conn w ≡ true)
        × (s.status_notify_enabled ≡ true)
        × ((hal.notify conn s.status_handle bytes w).0 ≡ true)
        × ((send_status hal conn (some bytes) s w).1 ≡ (hal.notify conn s.status_handle bytes w).1)
  unfolding send_status
  send_status-ok s conn bytes w e =
      (ground (arith, e), ground (arith, e), ground (arith, e), ground (arith, e))

  send_fragments-Notified :
      (fragments : List (List ℕ)) (l l' : Link W)
      → send_fragments hal fragments l ≡ (ble_ok, l')
      → Notified l.service l.connection.conn_handle fragments l.world
  unfolding send_fragments
  send_fragments-Notified [] l l' e = all_sent l.world
  send_fragments-Notified (fragment ∷ fragments) l l' e =
      let conn = l.connection.conn_handle in
      let sending = send_status hal conn (some fragment) l.service l.world in
      let here : Link W = record l { world = sending.1 } in
      elim (Bool-cases (ble_is_connected l)) [
        | inr apart ↦ absurd (ground (arith, e, apart))
        | inl there ↦ elim (Bool-cases (is_ok sending.0)) [
          | inr failed ↦ absurd (ground (arith, e, there, failed))
          | inl accepted ↦
              let (authorized, enabled, notified, after) =
                send_status-ok l.service conn fragment l.world accepted in
              let rest =
                send_fragments-Notified fragments here l' (ground (arith, e, there, accepted)) in
              sent fragment fragments l.world authorized enabled notified
                (subst (Notified l.service conn fragments) after rest)
        ]
      ]

  -- What stands behind a response that was sent.
  pub record Sent (alloc : ℕ → Bool) (bytes : List ℕ) (l : Link W) : Type 0 where
    pub there : ble_is_connected l ≡ true
    pub encrypted : l.connection.is_encrypted ≡ true
    pub paired : l.connection.is_paired ≡ true
    pub fragments : List (List ℕ)
    pub made : create alloc (some bytes) l.connection.mtu ≡ some (ok fragments)
    pub notified : Notified l.service l.connection.conn_handle fragments l.world
    pub readable : (r : Reassembler) → IsValid r → get_message (feed r fragments).1 ≡ ok bytes

  send_created-ok :
      (l l' : Link W) (o : Option (Result (List (List ℕ))))
      → send_created hal o l ≡ (ble_ok, l')
      → (fragments : List (List ℕ)) × (o ≡ some (ok fragments))
        × (send_fragments hal fragments l ≡ (ble_ok, l'))
  unfolding send_created
  send_created-ok l l' none e = absurd (ground (arith, e))
  send_created-ok l l' (some (fail x)) e = absurd (ground (arith, e))
  send_created-ok l l' (some (ok fragments)) e = (fragments, refl, e)

  -- The record, from its parts.
  Sent-parts :
      (alloc : ℕ → Bool) (bytes : List ℕ) (l l' : Link W)
      → ble_is_connected l ≡ true
      → l.connection.is_encrypted ≡ true
      → l.connection.is_paired ≡ true
      → (fragments : List (List ℕ)) × (create alloc (some bytes) l.connection.mtu
          ≡ some (ok fragments))
        × (send_fragments hal fragments (update_activity_timestamp hal l) ≡ (ble_ok, l'))
      → Sent alloc bytes l
  Sent-parts alloc bytes l l' there encrypted paired (fragments, made, went) = record {
    there = there;
    encrypted = encrypted;
    paired = paired;
    fragments = fragments;
    made = made;
    notified = send_fragments-Notified fragments (update_activity_timestamp hal l) l' went;
    readable = λ r v. (feed-create alloc bytes l.connection.mtu {fragments = fragments} r v made).1;
  }

  -- A response that is reported as sent: the device is connected, and the connection encrypted and
  -- paired. Its fragments were notified one after another, each accepted by the stack, to a client
  -- that had notifications enabled. A client that puts these fragments together, from any state of
  -- its buffer, reads the response.
  pub send_response-Sent :
      (alloc : ℕ → Bool) (bytes : List ℕ) (l l' : Link W)
      → send_response hal alloc (some bytes) l ≡ (ble_ok, l')
      → Sent alloc bytes l
  unfolding send_response
  send_response-Sent alloc bytes l l' e =
      let there : ble_is_connected l ≡ true = ground (arith, e) in
      let encrypted : l.connection.is_encrypted ≡ true = ground (arith, e, there) in
      let paired : l.connection.is_paired ≡ true = ground (arith, e, there) in
      Sent-parts alloc bytes l l' there encrypted paired (
        send_created-ok (update_activity_timestamp hal l) l'
          (create alloc (some bytes) l.connection.mtu)
          (ground (arith, e, there, encrypted, paired)))
