-- ===== src/UsbHid/Tests.antt =====
-- A message over the wire of src/usb/usb_hid.c at a concrete length.
use open_fido.Common.{ℕ, ◌≡◌, List, [], replicate, some, pos, arith, true}
use open_fido.UsbHid.Receive.{WholePackets, Returns, usb_hid_receive_lem}
use open_fido.UsbHid.{usb_hid_send, Hal, usb_hid_receive, got}
use open_fido.UsbHid.RoundTrip.{wire, usb_hid_receive-usb_hid_send}

abbrev sent_bytes : List ℕ
sent_bytes = replicate 130 7

usb_hid_receive-usb_hid_send_example :
    (q : List (List ℕ)) × (usb_hid_send wire 9 (some sent_bytes) [] ≡ some (pos 130, q))
    × (usb_hid_receive wire 1 200 q ≡ some ((pos 130, sent_bytes), some 0x10, 9, []))
usb_hid_receive-usb_hid_send_example =
    usb_hid_receive-usb_hid_send 9 1 200 sent_bytes (omega arith) (omega arith) (omega arith)
      (omega arith)

-- An endpoint that delivers packets of zeros.
abbrev zeros : Hal (Unit {0})
zeros = record {
  usb_init = λ w. (true, w);
  usb_send = λ packet w. (true, w);
  usb_receive = λ timeout w. (got (replicate 64 0), w);
}

zeros-WholePackets : WholePackets zeros
zeros-WholePackets = record {
  whole = λ timeout packet w w' e. ground arith;
  not_positive = λ timeout n code w w' e c. absurd (cc);
}

usb_hid_receive_lem_example : Returns zeros 100 (usb_hid_receive zeros 1 100 tt)
usb_hid_receive_lem_example = usb_hid_receive_lem zeros 1 100 tt zeros-WholePackets
