-- ===== src/UsbHid/RoundTrip.antt =====
-- A message that src/usb/usb_hid.c sends and receives over a wire that loses nothing.
use native.Mathlib.Decide.{dec_lt}
use open_fido.Common.{
  ℕ, zero, suc, ◌+◌, ◌-◌, ◌%◌, ◌^◌, ◌≤◌, ◌<◌, ◌≡◌, min, List, [], ◌∷◌, ◌++◌, length, take, drop,
  replicate, get_or, some, true, pos, arith, refl, take-length-append, length-take, if◌then◌else◌,
  be_bytes, append_assoc, not, length-drop, append-nil, take-add, ltb, take_all, subst, ◌∙◌, ap,
  sym, bit_or, ◌*◌, ◌/◌,
}
use open_fido.UsbHid.{
  send_rest, receive_rest, packet_cid, cont_payload, cont_packet, Hal, nothing, got, usb_hid_send,
  receive_packet, init_packet, usb_hid_receive, init_payload, ctaphid_cbor,
}
use open_fido.Common.Bits.{shift-bit_or}

-- A wire: the packets that are under way, the next one first.
unfoldable pub wire : Hal (List (List ℕ))
wire = record {
  usb_init = λ q. (true, q);
  usb_send = λ packet q. (true, q ++ packet ∷ []);
  usb_receive =
      λ timeout q. elim q [ [] ↦ (nothing (pos 0), []) | packet ∷ rest ↦ (got packet, rest) ];
}

-- The continuation packets of the bytes from `sent` on.
tail_packets : ℕ → ℕ → List ℕ → ℕ → ℕ → List (List ℕ)
tail_packets zero cid bytes sent seq = []
tail_packets (suc fuel) cid bytes sent seq =
    let n = min (length bytes - sent) cont_payload in
    let rest = tail_packets fuel cid bytes (sent + n) ((seq + 1) % 256) in
    if not (ltb sent (length bytes))
    then []
    else cont_packet cid seq (take n (drop sent bytes)) ∷ rest

send_rest-tail_packets :
    (fuel cid : ℕ) (bytes : List ℕ) (sent seq : ℕ) (q : List (List ℕ))
    → sent ≤ length bytes
    → length bytes < sent + fuel
    → send_rest wire fuel cid bytes sent seq q
      ≡ some (pos (length bytes), q ++ tail_packets fuel cid bytes sent seq)
unfolding send_rest tail_packets wire
send_rest-tail_packets zero cid bytes sent seq q h f = absurd (omega arith)
send_rest-tail_packets (suc fuel) cid bytes sent seq q h f =
    let n = min (length bytes - sent) cont_payload in
    let packet = cont_packet cid seq (take n (drop sent bytes)) in
    let more =
      send_rest-tail_packets fuel cid bytes (sent + n) ((seq + 1) % 256) (q ++ packet ∷ []) in
    let assoc =
      append_assoc q (packet ∷ []) (tail_packets fuel cid bytes (sent + n) ((seq + 1) % 256)) in
    ground (arith, more, assoc, append-nil q)

cid_bytes : (cid : ℕ) (rest : List ℕ) → cid < 2 ^ 32 → packet_cid (be_bytes 4 cid ++ rest) ≡ cid
unfolding packet_cid
cid_bytes cid rest h = omega arith

take-payload :
    (payload pad : List ℕ) (n : ℕ) → n ≡ length payload → take n (payload ++ pad) ≡ payload
take-payload payload pad n e = rw e (take-length-append payload pad)

-- A continuation packet read back.
cont_packet-read :
    (cid seq : ℕ) (payload : List ℕ)
    → cid < 2 ^ 32
    → (packet_cid (cont_packet cid seq payload) ≡ cid)
      × (get_or (cont_packet cid seq payload) 4 0 ≡ seq)
      × (take (length payload) (drop 5 (cont_packet cid seq payload)) ≡ payload)
unfolding cont_packet
cont_packet-read cid seq payload h = (
  cid_bytes cid _ h,
  refl,
  take-payload payload (replicate (cont_payload - length payload) 0) (length payload) refl,
)

-- One round of the loop, at a packet that fits.
receive_rest-packet :
    (fuel cid total seq : ℕ) (acc packet : List ℕ) (q : List (List ℕ))
    → length acc < total
    → packet_cid packet ≡ cid
    → get_or packet 4 0 ≡ seq
    → receive_rest wire (suc fuel) cid total seq acc (packet ∷ q)
      ≡ receive_rest wire fuel cid total
          ((seq + 1) % 256)
          (acc ++ take (min (total - length acc) cont_payload) (drop 5 packet))
          q
unfolding receive_rest wire
receive_rest-packet fuel cid total seq acc packet q l c s = ground arith

tail_packets-packet :
    (fuel cid : ℕ) (bytes : List ℕ) (sent seq : ℕ)
    → sent < length bytes
    → let n = min (length bytes - sent) cont_payload in
      tail_packets (suc fuel) cid bytes sent seq
      ≡ cont_packet cid seq (take n (drop sent bytes))
        ∷ tail_packets fuel cid bytes (sent + n) ((seq + 1) % 256)
unfolding tail_packets
tail_packets-packet fuel cid bytes sent seq l = ground arith

tail_packets_end :
    (fuel cid : ℕ) (bytes : List ℕ) (sent seq : ℕ)
    → length bytes ≤ sent
    → tail_packets (suc fuel) cid bytes sent seq ≡ []
unfolding tail_packets
tail_packets_end fuel cid bytes sent seq l = ground arith

receive_rest_end :
    (fuel cid total seq : ℕ) (acc : List ℕ) (q : List (List ℕ))
    → total ≡ length acc
    → receive_rest wire (suc fuel) cid total seq acc q ≡ some ((pos total, acc), q)
unfolding receive_rest
receive_rest_end fuel cid total seq acc q e = ground arith

receive_rest-tail_packets :
    (fuel cid : ℕ) (bytes : List ℕ) (sent seq : ℕ)
    → cid < 2 ^ 32
    → sent ≤ length bytes
    → length bytes < sent + fuel
    → receive_rest wire fuel cid
        (length bytes)
        seq
        (take sent bytes)
        (tail_packets fuel cid bytes sent seq)
      ≡ some ((pos (length bytes), bytes), [])
receive_rest-tail_packets zero cid bytes sent seq c h f = absurd (omega arith)
receive_rest-tail_packets (suc fuel) cid bytes sent seq c h f =
    let before : length (take sent bytes) ≡ sent = omega (arith, length-take sent bytes) in
    elim (dec_lt sent (length bytes)) [
      | no l ↦
          let all : take sent bytes ≡ bytes = take_all sent bytes (omega arith) in
          rw (tail_packets_end fuel cid bytes sent seq (omega arith), all)
            (receive_rest_end fuel cid (length bytes) seq bytes [] refl)
      | yes l ↦
          let n = min (length bytes - sent) cont_payload in
          let payload = take n (drop sent bytes) in
          let (is_cid, is_seq, is_payload) = cont_packet-read cid seq payload c in
          let size : length payload ≡ n =
            omega (arith, length-take n (drop sent bytes), length-drop sent bytes) in
          let more =
            receive_rest-tail_packets fuel cid bytes (sent + n) ((seq + 1) % 256) c (omega arith)
              (omega arith) in
          let packet = cont_packet cid seq payload in
          let read : take (min (length bytes - length (take sent bytes)) cont_payload)
                (drop 5 packet)
              ≡ payload =
            rw before (subst (λ k. take k (drop 5 packet) ≡ payload) size is_payload) in
          let tail = tail_packets fuel cid bytes (sent + n) ((seq + 1) % 256) in
          rw (tail_packets-packet fuel cid bytes sent seq l) (
            receive_rest-packet fuel cid (length bytes) seq (take sent bytes) packet tail
              (omega arith) is_cid is_seq
            ∙ ap (λ acc. receive_rest wire fuel cid (length bytes) ((seq + 1) % 256) acc tail)
                (ap (λ t. take sent bytes ++ t) read ∙ sym (take-add sent n bytes))
            ∙ more)
    ]

-- The first packet read back.
init_packet-read :
    (cid len : ℕ) (payload : List ℕ)
    → cid < 2 ^ 32
    → len < 2 ^ 16
    → let packet = init_packet cid ctaphid_cbor len payload in
      (packet_cid packet ≡ cid)
      × (get_or packet 4 0 ≡ 0x10)
      × (bit_or (get_or packet 5 0 * 2 ^ 8) (get_or packet 6 0) ≡ len)
      × (take (length payload) (drop 7 packet) ≡ payload)
unfolding init_packet
init_packet-read cid len payload c l =
    let word : bit_or (len / 2 ^ 8 % 256 * 2 ^ 8) (len % 256) ≡ len =
      shift-bit_or 8 (len / 2 ^ 8 % 256) (len % 256) (omega arith) ∙ omega arith in
    (
      cid_bytes cid _ c,
      refl,
      word,
      take-payload payload (replicate (init_payload - length payload) 0) (length payload) refl,
    )

receive_packet-init :
    (cid max_len : ℕ) (bytes : List ℕ)
    → cid < 2 ^ 32
    → length bytes < 2 ^ 16
    → length bytes ≤ max_len
    → let n = min (length bytes) init_payload in
      receive_packet wire
        (init_packet cid ctaphid_cbor (length bytes) (take n bytes))
        max_len
        (tail_packets (suc (length bytes)) cid bytes n 0)
      ≡ some ((pos (length bytes), bytes), some 0x10, cid, [])
unfolding receive_packet
receive_packet-init cid max_len bytes c l m =
    let n = min (length bytes) init_payload in
    let (is_cid, is_cmd, is_len, is_payload) =
      init_packet-read cid (length bytes) (take n bytes) c l in
    let size : length (take n bytes) ≡ n = omega (arith, length-take n bytes) in
    let packet = init_packet cid ctaphid_cbor (length bytes) (take n bytes) in
    let first : take n (drop 7 packet) ≡ take n bytes =
      subst (λ k. take k (drop 7 packet) ≡ take n bytes) size is_payload in
    let rest =
      receive_rest-tail_packets (suc (length bytes)) cid bytes n 0 c (omega arith) (omega arith) in
    rw (is_cid, is_cmd, is_len, first) (ground (arith, rest, m))

-- A message of 1 to 65535 bytes that `usb_hid_send` puts on a wire that loses nothing, and that
-- fits the receiver's buffer, `usb_hid_receive` gives back whole, as a CBOR command on the sender's
-- channel, and takes all of its packets off the wire.
pub usb_hid_receive-usb_hid_send :
    (cid old_cid max_len : ℕ) (bytes : List ℕ)
    → cid < 2 ^ 32
    → 0 < length bytes
    → length bytes < 2 ^ 16
    → length bytes ≤ max_len
    → (q : List (List ℕ)) × (usb_hid_send wire cid (some bytes) [] ≡ some (pos (length bytes), q))
      × (usb_hid_receive wire old_cid max_len q
          ≡ some ((pos (length bytes), bytes), some 0x10, cid, []))
unfolding usb_hid_send usb_hid_receive
usb_hid_receive-usb_hid_send cid old_cid max_len bytes c p l m =
    let n = min (length bytes) init_payload in
    let first = init_packet cid ctaphid_cbor (length bytes) (take n bytes) in
    let tail = tail_packets (suc (length bytes)) cid bytes n 0 in
    let sent =
      send_rest-tail_packets (suc (length bytes)) cid bytes n 0 (first ∷ []) (omega arith)
        (omega arith) in
    (
      first ∷ tail,
      unfold wire in ground (arith, sent),
      unfold wire in receive_packet-init cid max_len bytes c l m,
    )
