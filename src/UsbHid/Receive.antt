-- ===== src/UsbHid/Receive.antt =====
-- What `usb_hid_receive` of src/usb/usb_hid.c does on any packets.
use open_fido.Common.{
  ℕ, zero, suc, ◌+◌, ◌-◌, ◌%◌, ◌≤◌, ◌<◌, ◌≡◌, min, List, ◌++◌, length, take, drop, get_or, Option,
  some, pos, arith, refl, ℤ, negsuc, length-take, length-drop, ap, length-append, Bool-cases, ◌==◌,
  ◌&&◌, inl, inr, dec_lt, bit_and, [], none, bit_or, ◌*◌, ◌^◌,
}
use open_fido.UsbHid.{
  Hal, receive_rest, got, packet_size, cont_payload, Received, nothing, packet_cid, usb_hid_receive,
  receive_packet, init_payload, ctaphid_init, new_cid, init_response,
}

-- What is documented of the endpoint: what it delivers is a whole packet, and the code without a
-- packet is not positive.
pub record WholePackets {W : Type 0} (hal : Hal W) : Type 0 where
  pub whole :
      (timeout : ℕ) (packet : List ℕ) (w w' : W)
      → hal.usb_receive timeout w ≡ (got packet, w')
      → length packet ≡ packet_size
  pub not_positive :
      (timeout n : ℕ) (code : ℤ) (w w' : W)
      → hal.usb_receive timeout w ≡ (nothing code, w')
      → code ≡ pos n
      → n ≡ 0

module _ {W : Type 0} (hal : Hal W) where
  -- No more bytes than announced, and a count that is not negative is theirs.
  pub record Within (total : ℕ) (code : ℤ) (bytes : List ℕ) : Type 0 where
    pub fits : length bytes ≤ total
    pub counted : (n : ℕ) → code ≡ pos n → n ≡ length bytes

  -- The loop comes to an end, within the bounds.
  abbrev Ends : ℕ → Option ((ℤ × List ℕ) × W) → Type 0
  Ends total r =
      (code : ℤ) × (bytes : List ℕ) × (w' : W) × (r ≡ some ((code, bytes), w'))
      × Within total code bytes

  grows :
      (total : ℕ) (bytes packet : List ℕ)
      → length packet ≡ packet_size
      → length bytes < total
      → let n = min (total - length bytes) cont_payload in
        let bytes' = bytes ++ take n (drop 5 packet) in
        (length bytes < length bytes') × (length bytes' ≤ total)
  grows total bytes packet s l =
      let n = min (total - length bytes) cont_payload in
      let size : length (take n (drop 5 packet)) ≡ n =
        omega (arith, length-take n (drop 5 packet), length-drop 5 packet) in
      omega (arith, length-append bytes (take n (drop 5 packet)))

  receive_rest-Ends :
      (fuel cid total seq : ℕ) (bytes : List ℕ) (w : W)
      → WholePackets hal
      → length bytes ≤ total
      → total < length bytes + fuel
      → Ends total (receive_rest hal fuel cid total seq bytes w)
  receive_rest-Ends zero cid total seq bytes w h l f = absurd (omega arith)
  receive_rest-Ends (suc fuel) cid total seq bytes w h l f =
      let next =
        λ (b : List ℕ) (w' : W). receive_rest-Ends fuel cid total ((seq + 1) % 256) b w' h in
      elim (dec_lt (length bytes) total) [
        | no end ↦ (pos (length bytes), bytes, w, unfold receive_rest in ground arith, ground arith)
        | yes more ↦ go next more (hal.usb_receive 1000 w).0 refl
      ]
    where
      go :
          ((b : List ℕ) (w' : W)
            → length b ≤ total
            → total < length b + fuel
            → Ends total (receive_rest hal fuel cid total ((seq + 1) % 256) b w'))
          → length bytes < total
          → (reply : Received) → (hal.usb_receive 1000 w).0 ≡ reply
          → Ends total (receive_rest hal (suc fuel) cid total seq bytes w)
      go next more (nothing code) e = (
        negsuc 1,
        bytes,
        (hal.usb_receive 1000 w).1,
        unfold receive_rest in ground (arith, e),
        ground arith,
      )
      go next more (got packet) e =
          let w' = (hal.usb_receive 1000 w).1 in
          let n = min (total - length bytes) cont_payload in
          let bytes' = bytes ++ take n (drop 5 packet) in
          let size = h.whole 1000 packet w w' (ap (λ r. (r, w')) e) in
          let (longer, fits) = grows total bytes packet size more in
          elim (Bool-cases ((packet_cid packet == cid) && (get_or packet 4 0 == seq))) [
            | inl right ↦
                let (code, out, w'', r, within) = next bytes' w' fits (omega arith) in
                (code, out, w'', unfold receive_rest in ground (arith, e, right, r), within)
            | inr wrong ↦
                (negsuc 0, bytes, w', unfold receive_rest in ground (arith, e, wrong), ground arith)
          ]

  -- The call comes to an end, within the bounds.
  abbrev pub Returns : ℕ → Option ((ℤ × List ℕ) × Option ℕ × ℕ × W) → Type 0
  Returns max_len r =
      (code : ℤ) × (bytes : List ℕ) × (command : Option ℕ) × (cid' : ℕ) × (w' : W) × (r
        ≡ some ((code, bytes), command, cid', w'))
      × Within max_len code bytes

  receive_packet-Returns :
      (packet : List ℕ) (max_len : ℕ) (w : W)
      → WholePackets hal
      → length packet ≡ packet_size
      → Returns max_len (receive_packet hal packet max_len w)
  receive_packet-Returns packet max_len w h s =
      let cid = packet_cid packet in
      let command = bit_and (get_or packet 4 0) 0x7F in
      let total = bit_or (get_or packet 5 0 * 2 ^ 8) (get_or packet 6 0) in
      let first = take (min total init_payload) (drop 7 packet) in
      let size : length first ≤ total =
        omega (arith, length-take (min total init_payload) (drop 7 packet)) in
      elim (dec_lt max_len total) [
        | yes large ↦ (
          negsuc 0,
          [],
          some command,
          cid,
          w,
          unfold receive_packet in ground arith,
          ground arith,
        )
        | no fits ↦ elim (Bool-cases (command == ctaphid_init)) [
          | inl asked ↦ (
            pos 0,
            [],
            some command,
            new_cid hal,
            (hal.usb_send (init_response hal packet) w).1,
            unfold receive_packet in ground arith,
            ground arith,
          )
          | inr other ↦
              let (code, bytes, w', r, within) =
                receive_rest-Ends (suc total) cid total 0 first w h size (omega arith) in
              (
                code,
                bytes,
                some command,
                cid,
                w',
                unfold receive_packet in ground (arith, r),
                record { fits = omega (arith, within.fits); counted = within.counted },
              )
        ]
      ]

  -- On any packets, `usb_hid_receive` returns. It never gives more bytes than the caller has room
  -- for, and a code that is not negative is the number of bytes it gives. What the endpoint
  -- delivers are whole packets.
  pub usb_hid_receive_lem :
      (cid max_len : ℕ) (w : W)
      → WholePackets hal
      → Returns max_len (usb_hid_receive hal cid max_len w)
  usb_hid_receive_lem cid max_len w h = go (hal.usb_receive 0 w).0 refl
    where
      go :
          (reply : Received)
          → (hal.usb_receive 0 w).0 ≡ reply
          → Returns max_len (usb_hid_receive hal cid max_len w)
      go (nothing code) e =
          let w' = (hal.usb_receive 0 w).1 in
          (
            code,
            [],
            none,
            cid,
            w',
            unfold usb_hid_receive in ground (arith, e),
            record {
              fits = omega arith;
              counted = λ n c. h.not_positive 0 n code w w' (ap (λ r. (r, w')) e) c;
            },
          )
      go (got packet) e =
          let w' = (hal.usb_receive 0 w).1 in
          let (code, bytes, command, cid', w'', r, within) =
            receive_packet-Returns packet max_len w' h
              (h.whole 0 packet w w' (ap (λ r. (r, w')) e)) in
          (code, bytes, command, cid', w'', unfold usb_hid_receive in ground (arith, e, r), within)
