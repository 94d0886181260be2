-- ===== src/Ccid/Tests.antt =====
-- Runs of the reader of src/usb/usb_ccid.c, and its theorems at concrete messages.
use open_fido.Common.{
  ℕ, ◌≡◌, ◌≢◌, ◌≤◌, List, [], ◌∷◌, Option, none, some, length, replicate, true, false, arith, refl,
  pos, suc, zero,
}
use open_fido.Ccid.{
  State, Command, Response, Handler, usb_ccid_register_app, find_app, default_atr, app_at, answer,
  usb_ccid_process_message, usb_ccid_init, suc, parse_apdu, register_in, handle_xfr_block, App,
  dw_length, data_block, copy_into, process_apdu, bytes_eq,
}
use open_fido.Piv
use open_fido.Ccid.Routing.{xfr_block, block, select_and_use}
use open_fido.Ccid.PivCard.{
  run_messages, piv_handler, OnlyPiv, run_messages-SameSecrets, Withholds, answer_of,
}
use open_fido.Ccid.Apdu.{apdu_bytes, Reads, parse_apdu-apdu_bytes}
use open_fido.Piv.Laws.{SameSecrets}
use open_fido.Common.Memory.{copy_into, bytes_eq}

abbrev garbage : List ℕ
garbage = replicate 255 0xA5

parse_apdu-apdu_bytes_example :
    let bytes = apdu_bytes 0x00 0xCB 0x3F 0xFF (0x5C ∷ 0x01 ∷ 0x7E ∷ []) (some 0) in
    (cmd : Command) × (parse_apdu garbage bytes (length bytes) ≡ some (some cmd))
    × Reads cmd 0x00 0xCB 0x3F 0xFF (0x5C ∷ 0x01 ∷ 0x7E ∷ []) (some 0)
parse_apdu-apdu_bytes_example =
    parse_apdu-apdu_bytes garbage 0x00 0xCB 0x3F 0xFF (0x5C ∷ 0x01 ∷ 0x7E ∷ []) (some 0) refl
      (omega arith)

-- An application that counts its commands.
abbrev counter : Handler ℕ
counter cmd n = some (answer 0x90 0x00, suc n)

abbrev counter_aid : List ℕ
counter_aid = 0xA0 ∷ 0x01 ∷ []

abbrev with_counter : State ℕ
with_counter = record {
  card_present = true;
  slot_status = 1;
  sequence = 0;
  atr = default_atr;
  selected_app = 0xFF;
  app_registry = some (record { aid = counter_aid; handler = counter }) ∷ replicate 3 none;
}

registers_counter :
    usb_ccid_register_app counter_aid (some counter) usb_ccid_init ≡ (pos 0, with_counter)
unfolding usb_ccid_register_app usb_ccid_init register_in
registers_counter = refl

no_counter : find_app {W = ℕ} 0 counter_aid (usb_ccid_init {W = ℕ}).app_registry ≡ none
unfolding find_app usb_ccid_init
no_counter = refl

select_and_use_example :
    let m = xfr_block 0 1 (apdu_bytes 0x00 0xA4 0x04 0x00 counter_aid none) in
    (s2 : State ℕ) × (usb_ccid_process_message garbage m with_counter 4
      ≡ some (pos 0, block m (answer 0x90 0x00), s2, 4))
    × ((cla ins p1 p2 : ℕ) (content : List ℕ) (le : Option ℕ)
        → ins ≢ 0xA4
        → length content ≤ 255
        → let m' = xfr_block 0 2 (apdu_bytes cla ins p1 p2 content le) in
          (cmd : Command) × Reads cmd cla ins p1 p2 content le
          × ((r : Response) (w' : ℕ)
              → counter cmd 4 ≡ some (r, w')
              → usb_ccid_process_message garbage m' s2 4
                ≡ some (pos 0, block m' r, record s2 { sequence = 2 }, w')))
select_and_use_example =
    select_and_use garbage counter_aid counter usb_ccid_init with_counter 0 1 2 4 refl no_counter
      registers_counter

-- A reader with PIV selected.
abbrev piv_reader : State Piv.State
piv_reader = record {
  card_present = true;
  slot_status = 0;
  sequence = 0;
  atr = default_atr;
  selected_app = 0;
  app_registry = some (record { aid = 0xA0 ∷ []; handler = piv_handler }) ∷ replicate 3 none;
}

piv_reader-OnlyPiv : OnlyPiv piv_reader
unfolding app_at
piv_reader-OnlyPiv = record { only = only_first }
  where
    only_first :
        (i : ℕ) (app : App Piv.State)
        → app_at i piv_reader.app_registry ≡ some app
        → app.handler ≡ piv_handler
    only_first zero app e = ground (arith, e)
    only_first (suc zero) app e = absurd (cc)
    only_first (suc (suc zero)) app e = absurd (cc)
    only_first (suc (suc (suc zero))) app e = absurd (cc)
    only_first (suc (suc (suc (suc i)))) app e = absurd (cc)

-- A VERIFY with the wrong PIN.
abbrev wrong_pin : List ℕ
wrong_pin = xfr_block 0 1 (apdu_bytes 0x00 0x20 0x00 0x80 (replicate 6 0x30) none)

abbrev after_wrong : Piv.State
after_wrong = record Piv.init { pin_retries = 2 }

abbrev after_reader : State Piv.State
after_reader = record piv_reader { sequence = 1 }

runs_wrong :
    run_messages ((garbage, wrong_pin) ∷ []) piv_reader Piv.init ≡ some (after_reader, after_wrong)
unfolding run_messages usb_ccid_process_message handle_xfr_block parse_apdu dw_length data_block
    process_apdu copy_into app_at piv_handler answer_of Piv.init Piv.handle_apdu Piv.handle_verify
    bytes_eq
runs_wrong = refl

Withholds-wrong : Withholds Piv.init.pin (garbage, wrong_pin)
unfolding parse_apdu dw_length copy_into Piv.init
Withholds-wrong cmd e p = ground (arith, e, p.0, p.1)

init_locked : Piv.init.pin_verified ≡ false
unfolding Piv.init
init_locked = refl

run_messages-SameSecrets_example : SameSecrets Piv.init after_wrong
run_messages-SameSecrets_example =
    run_messages-SameSecrets ((garbage, wrong_pin) ∷ []) piv_reader after_reader Piv.init
      after_wrong piv_reader-OnlyPiv init_locked (Withholds-wrong, tt) runs_wrong
