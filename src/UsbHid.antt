-- ===== src/UsbHid.antt =====
-- src/usb/usb_hid.c: CTAPHID packets on the USB endpoint. The state is `current_cid`. `W` is the
-- world behind the hardware calls, which are parameters: `hal_send` is `hal_usb_send` of a packet,
-- and says whether all of it went out; `hal_receive` is `hal_usb_receive` with its time-out. The
-- targets are little-endian, so `__builtin_bswap32` puts the channel's highest byte first.
pub mod RoundTrip
pub mod Receive
mod Tests
use open_fido.Common.{
  ℕ, zero, suc, ◌+◌, ◌-◌, ◌*◌, ◌/◌, ◌%◌, ◌^◌, min, bit_and, bit_or, Bool, true, false, not, List,
  [], ◌∷◌, ◌++◌, length, take, drop, get_or, replicate, Option, none, some, if◌then◌else◌, ltb,
  ◌==◌, ℤ, pos, negsuc, be_bytes,
}

-- What `hal_usb_receive` left: the 64 bytes of the packet, or its code that is not positive.
pub data Received : Type 0 where
  got : List ℕ → Received
  nothing : ℤ → Received

pub record Hal (W : Type 0) : Type 0 where
  pub usb_init : W → Bool × W
  pub usb_send : List ℕ → W → Bool × W
  pub usb_receive : ℕ → W → Received × W

abbrev pub packet_size : ℕ
packet_size = 64

abbrev pub init_payload : ℕ
init_payload = 57

abbrev pub cont_payload : ℕ
cont_payload = 59

abbrev pub ctaphid_cbor : ℕ
ctaphid_cbor = 0x10

abbrev pub ctaphid_init : ℕ
ctaphid_init = 0x06

-- `memset(packet, 0, 64)` and the fields.
unfoldable pub init_packet : ℕ → ℕ → ℕ → List ℕ → List ℕ
init_packet cid cmd len payload =
    be_bytes 4 cid
    ++ cmd
      ∷ (len / 2 ^ 8 % 256)
      ∷ (len % 256)
      ∷ (payload ++ replicate (init_payload - length payload) 0)

unfoldable pub cont_packet : ℕ → ℕ → List ℕ → List ℕ
cont_packet cid seq payload =
    be_bytes 4 cid ++ seq ∷ (payload ++ replicate (cont_payload - length payload) 0)

-- `__builtin_bswap32(pkt->cid)`
unfoldable pub packet_cid : List ℕ → ℕ
packet_cid packet =
    ((get_or packet 0 0 * 256 + get_or packet 1 0) * 256 + get_or packet 2 0) * 256
    + get_or packet 3 0

module _ {W : Type 0} (hal : Hal W) where
  -- The code, and `current_cid`.
  unfoldable pub usb_hid_init : ℕ → W → ℤ × ℕ × W
  usb_hid_init cid w =
      let (done, w') = hal.usb_init w in
      if done then (pos 0, 2 ^ 32 - 1, w') else (negsuc 0, cid, w')

  -- The loop over the continuation packets; `none` says that the fuel ran out.
  unfoldable pub send_rest : ℕ → ℕ → List ℕ → ℕ → ℕ → W → Option (ℤ × W)
  send_rest zero cid bytes sent seq w = none
  send_rest (suc fuel) cid bytes sent seq w =
      let to_copy = min (length bytes - sent) cont_payload in
      let (ok, w') = hal.usb_send (cont_packet cid seq (take to_copy (drop sent bytes))) w in
      let rest = send_rest fuel cid bytes (sent + to_copy) ((seq + 1) % 256) w' in
      if not (ltb sent (length bytes))
      then some (pos sent, w)
      else if not ok
      then some (negsuc 0, w')
      else rest

  unfoldable pub usb_hid_send : ℕ → Option (List ℕ) → W → Option (ℤ × W)
  usb_hid_send cid none w = some (negsuc 0, w)
  usb_hid_send cid (some bytes) w =
      let to_copy = min (length bytes) init_payload in
      let (ok, w') =
        hal.usb_send (init_packet cid ctaphid_cbor (length bytes) (take to_copy bytes)) w in
      if length bytes == 0
      then some (negsuc 0, w)
      else if not ok
      then some (negsuc 0, w')
      else send_rest (suc (length bytes)) cid bytes to_copy 0 w'

  -- The code, and the first `received` bytes of `data`.
  abbrev pub Message : Type 0
  Message = ℤ × List ℕ

  -- The loop over the continuation packets, with the bytes received so far.
  unfoldable pub receive_rest : ℕ → ℕ → ℕ → ℕ → List ℕ → W → Option (Message × W)
  receive_rest zero cid total_len expected_seq bytes w = none
  receive_rest (suc fuel) cid total_len expected_seq bytes w =
      let (reply, w') = hal.usb_receive 1000 w in
      elim (ltb (length bytes) total_len) [
        | false ↦ some ((pos (length bytes), bytes), w)
        | true ↦ elim reply [
          | nothing code ↦ some ((negsuc 1, bytes), w')
          | got packet ↦
              let to_copy = min (total_len - length bytes) cont_payload in
              let rest =
                receive_rest fuel cid total_len ((expected_seq + 1) % 256)
                  (bytes ++ take to_copy (drop 5 packet)) w' in
              if not (packet_cid packet == cid)
              then some ((negsuc 0, bytes), w')
              else if not (get_or packet 4 0 == expected_seq)
              then some ((negsuc 0, bytes), w')
              else rest
        ]
      ]

  abbrev pub new_cid : ℕ
  new_cid = 0x12345678

  -- The answer to INIT: the nonce, the channel given out, and the versions.
  unfoldable pub init_response : List ℕ → List ℕ
  init_response packet =
      init_packet (2 ^ 32 - 1) ctaphid_init 17
        (take 8 (drop 7 packet) ++ be_bytes 4 new_cid ++ 2 ∷ 0 ∷ 0 ∷ 0 ∷ 0 ∷ [])

  -- What follows the first packet: the message, the command, and `current_cid`.
  unfoldable pub receive_packet : List ℕ → ℕ → W → Option (Message × Option ℕ × ℕ × W)
  receive_packet packet max_len w =
      let cid = packet_cid packet in
      let command = bit_and (get_or packet 4 0) 0x7F in
      let total_len = bit_or (get_or packet 5 0 * 2 ^ 8) (get_or packet 6 0) in
      let to_copy = min total_len init_payload in
      if ltb max_len total_len
      then some ((negsuc 0, []), some command, cid, w)
      else if command == ctaphid_init
      then some ((pos 0, []), some command, new_cid, (hal.usb_send (init_response packet) w).1)
      else elim (receive_rest (suc total_len) cid total_len 0 (take to_copy (drop 7 packet)) w) [
        | none ↦ none
        | some (m, w') ↦ some (m, some command, cid, w')
      ]

  unfoldable pub usb_hid_receive : ℕ → ℕ → W → Option (Message × Option ℕ × ℕ × W)
  usb_hid_receive cid max_len w =
      let (reply, w') = hal.usb_receive 0 w in
      elim reply [
        | nothing code ↦ some ((code, []), none, cid, w')
        | got packet ↦ receive_packet packet max_len w'
      ]

unfoldable pub usb_hid_is_connected : ℕ → Bool
usb_hid_is_connected cid = not (cid == 0)
