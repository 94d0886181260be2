-- ===== src/Ble/Contention.antt =====
-- What a request over BLE that src/ble/ble_transport.c refuses does to the registry of
-- src/transport/transport.c.
use open_fido.Common.{
  ℕ, Bool, true, false, List, [], ◌∷◌, some, ◌≡◌, ◌≢◌, refl, arith, Bool-cases, inl, inr, length, ℤ,
  ltb,
}
use open_fido.Fragment.{Reassembler, Result, ok, fail, add, is_complete, get_message}
use open_fido.Transport.{State as Registry, is_busy, is_locked, set_busy, unlock}
use open_fido.Ble.Hal.{Hal}
use open_fido.Ble.Link.{Link, ble_ok, update_activity_timestamp, ble_is_connected}
use open_fido.Ble.Events.{
  Device, Callbacks, with_link, with_rx, cleanup_operation_state, send_error, process_request,
  process_added, process_message, fragment_error,
}

module _ {W : Type 0} (hal : Hal W) (alloc : ℕ → Bool) where
  -- No operation is under way, and no transport has the lock.
  abbrev pub IsFree : Registry (Link W) → Type 0
  IsFree g = (is_busy g ≡ false) × (is_locked g ≡ false)

  cleanup-IsFree : (d : Device W) → IsFree (cleanup_operation_state hal alloc d).registry
  unfolding cleanup_operation_state is_busy is_locked set_busy unlock
  cleanup-IsFree d = (ground arith, ground arith)

  -- What the refusals have in common.
  refusal-IsFree :
      (code : ℕ) (d : Device W)
      → IsFree (send_error hal alloc code (cleanup_operation_state hal alloc d)).registry
  refusal-IsFree code d = cleanup-IsFree d

  process_message-IsFree :
      (c : Callbacks W) (r : Result (List ℕ)) (d d' : Device W) (code : ℤ)
      → process_message hal alloc c r d ≡ (code, d')
      → code ≢ ble_ok
      → IsFree d'.registry
  unfolding process_message
  process_message-IsFree c (fail x) d d' code e n =
      let (busy, locked) = refusal-IsFree 0x01 d in
      (ground (arith, e, busy), ground (arith, e, locked))
  process_message-IsFree c (ok message) d d' code e n =
      let (busy, locked) = refusal-IsFree 0x06 d in
      (ground (arith, e, n, busy), ground (arith, e, n, locked))

  process_added-IsFree :
      (c : Callbacks W) (added : Result (Unit {0}) × Reassembler) (d d' : Device W) (code : ℤ)
      → process_added hal alloc c added d ≡ (code, d')
      → code ≢ ble_ok
      → IsFree d'.registry
  unfolding process_added
  process_added-IsFree c (fail x, r) d d' code e n =
      let (busy, locked) =
        refusal-IsFree (fragment_error hal alloc x) (with_link (with_rx r d.link) d) in
      (ground (arith, e, busy), ground (arith, e, locked))
  process_added-IsFree c (ok _, r) d d' code e n = elim (Bool-cases (is_complete r)) [
    | inl all ↦
        process_message-IsFree c (get_message r) (with_link (with_rx r d.link) d) d' code
          (ground (arith, e, all)) n
    | inr part ↦ absurd (n (ground (arith, e, part)))
  ]

  -- A fragment that the transport refuses, whether it comes over a connection that is not encrypted or
  -- not paired, is malformed or out of order, or completes a request while another transport works,
  -- leaves the registry without an operation and without a lock, whoever had them before. The
  -- transport is initialised and the fragment is not empty.
  pub process_request-IsFree :
      (c : Callbacks W) (bytes : List ℕ) (d d' : Device W) (code : ℤ)
      → d.link.initialized ≡ true
      → bytes ≢ []
      → process_request hal alloc c (some bytes) d ≡ (code, d')
      → code ≢ ble_ok
      → IsFree d'.registry
  unfolding process_request
  process_request-IsFree c [] d d' code i full e n = absurd (full refl)
  process_request-IsFree c (b ∷ bs) d d' code i full e n =
      let (busy, locked) = cleanup-IsFree d in
      let l = update_activity_timestamp hal d.link in
      elim (Bool-cases (ltb 7609 (length (b ∷ bs)))) [
        | inl long ↦ (ground (arith, e, i, long, busy), ground (arith, e, i, long, locked))
        | inr fits ↦ elim (Bool-cases (ble_is_connected d.link)) [
          | inr apart ↦
              (ground (arith, e, i, fits, apart, busy), ground (arith, e, i, fits, apart, locked))
          | inl there ↦ elim (Bool-cases d.link.connection.is_encrypted) [
            | inr plain ↦ (
              ground (arith, e, i, fits, there, plain, busy),
              ground (arith, e, i, fits, there, plain, locked),
            )
            | inl sealed ↦ elim (Bool-cases d.link.connection.is_paired) [
              | inr strange ↦ (
                ground (arith, e, i, fits, there, sealed, strange, busy),
                ground (arith, e, i, fits, there, sealed, strange, locked),
              )
              | inl paired ↦
                  process_added-IsFree c (add l.rx_fragment (some (b ∷ bs))) (with_link l d) d' code
                    (ground (arith, e, i, fits, there, sealed, paired)) n
            ]
          ]
        ]
      ]
