-- ===== src/Ccid/Routing.antt =====
-- An application that is registered with src/usb/usb_ccid.c, selected and used by messages.
use open_fido.Common.{
  ℕ, ◌+◌, ◌≤◌, ◌<◌, ◌^◌, ◌≡◌, List, [], ◌∷◌, Option, none, some, length, arith, ◌%◌, ◌/◌,
  length-append, ◌≢◌, ◌++◌, take, pos, ◌∙◌, sym, ap,
}
use open_fido.Ccid.Apdu.{apdu_bytes, Reads, parse_apdu-apdu_bytes}
use open_fido.Ccid.{
  usb_ccid_process_message, dw_length, handle_xfr_block, Command, State, parse_apdu, data_block,
  process_apdu, handle_select, Response, Handler, App, response_header, find_app,
  usb_ccid_register_app, app_at, answer, take, pos,
}
use open_fido.Ccid.Registry.{registered, register_in-found}

-- PC_to_RDR_XfrBlock with an APDU.
abbrev pub xfr_block : ℕ → ℕ → List ℕ → List ℕ
xfr_block slot seq apdu =
    let len = length apdu in
    0x6F
    ∷ (len % 256)
    ∷ (len / 2 ^ 8 % 256)
    ∷ (len / 2 ^ 16 % 256)
    ∷ (len / 2 ^ 24 % 256)
    ∷ slot
    ∷ seq
    ∷ 0
    ∷ 0
    ∷ 0
    ∷ apdu

dw_length-xfr_block :
    (slot seq : ℕ) (apdu : List ℕ)
    → length apdu < 2 ^ 32
    → dw_length (xfr_block slot seq apdu) ≡ length apdu
unfolding dw_length
dw_length-xfr_block slot seq apdu l = omega arith

length-apdu_bytes :
    (cla ins p1 p2 : ℕ) (content : List ℕ) (le : Option ℕ)
    → length (apdu_bytes cla ins p1 p2 content le) ≤ length content + 6
length-apdu_bytes cla ins p1 p2 [] none = omega arith
length-apdu_bytes cla ins p1 p2 [] (some le) = omega arith
length-apdu_bytes cla ins p1 p2 (b ∷ content) none = omega (arith, length-append content [])
length-apdu_bytes cla ins p1 p2 (b ∷ content) (some le) =
    omega (arith, length-append content (le ∷ []))

-- The reader's answer with a response in it.
abbrev pub block : List ℕ → Response → List ℕ
block m r =
    response_header 0x80 ((length r.bytes + 2) % 2 ^ 16) m 0x00 0 ++ r.bytes ++ r.sw1 ∷ r.sw2 ∷ []

module _ {W : Type 0} where
  -- What the reader makes of an XfrBlock message with an APDU.
  process-xfr_block :
      (stack : List ℕ) (slot seq : ℕ) (apdu : List ℕ) (cmd : Command) (s : State W) (w : W)
      → length apdu < 2 ^ 32
      → parse_apdu stack apdu (length apdu) ≡ some (some cmd)
      → usb_ccid_process_message stack (xfr_block slot seq apdu) s w
        ≡ data_block (xfr_block slot seq apdu) (process_apdu cmd (record s { sequence = seq }) w)
  unfolding usb_ccid_process_message handle_xfr_block
  process-xfr_block stack slot seq apdu cmd s w l p =
      let size = dw_length-xfr_block slot seq apdu l in ground (arith, size, p)

  -- SELECT of an AID that stands first at entry `k`.
  process_apdu-select :
      (cmd : Command) (aid : List ℕ) (k : ℕ) (s : State W) (w : W)
      → Reads cmd 0x00 0xA4 0x04 0x00 aid none
      → find_app 0 aid s.app_registry ≡ some k
      → process_apdu cmd s w ≡ some (answer 0x90 0x00, record s { selected_app = k }, w)
  unfolding process_apdu handle_select
  process_apdu-select cmd aid k s w r f =
      let same : find_app 0 (take cmd.lc cmd.bytes) s.app_registry ≡ some k = rw r.is_content f in
      ground (arith, same, r.is_ins, r.is_p1)

  process_apdu-selected :
      (cmd : Command) (app : App W) (s : State W) (r : Response) (w w' : W)
      → cmd.ins ≢ 0xA4
      → app_at s.selected_app s.app_registry ≡ some app
      → app.handler cmd w ≡ some (r, w')
      → process_apdu cmd s w ≡ some (r, s, w')
  unfolding process_apdu
  process_apdu-selected cmd app s r w w' n a h = ground (arith, a, h)

  select_message :
      (stack aid : List ℕ) (s : State W) (k slot seq : ℕ) (w : W)
      → length stack ≡ 255
      → length aid ≤ 16
      → find_app 0 aid s.app_registry ≡ some k
      → let m = xfr_block slot seq (apdu_bytes 0x00 0xA4 0x04 0x00 aid none) in
        usb_ccid_process_message stack m s w
        ≡ some (pos 0, block m (answer 0x90 0x00), record s { sequence = seq; selected_app = k }, w)
  unfolding data_block
  select_message stack aid s k slot seq w l short found =
      let apdu = apdu_bytes 0x00 0xA4 0x04 0x00 aid none in
      let (cmd, p, reads) =
        parse_apdu-apdu_bytes stack 0x00 0xA4 0x04 0x00 aid none l (omega arith) in
      let small : length apdu < 2 ^ 32 =
        omega (arith, length-apdu_bytes 0x00 0xA4 0x04 0x00 aid none) in
      process-xfr_block stack slot seq apdu cmd s w small p
      ∙ ap (data_block (xfr_block slot seq apdu))
          (process_apdu-select cmd aid k (record s { sequence = seq }) w reads found)

  use_message :
      (stack : List ℕ) (s : State W) (app : App W) (slot seq : ℕ) (w : W)
      → length stack ≡ 255
      → app_at s.selected_app s.app_registry ≡ some app
      → (cla ins p1 p2 : ℕ) (content : List ℕ) (le : Option ℕ) → ins ≢ 0xA4
      → length content ≤ 255
      → let m = xfr_block slot seq (apdu_bytes cla ins p1 p2 content le) in
        (cmd : Command) × Reads cmd cla ins p1 p2 content le
        × ((r : Response) (w' : W)
            → app.handler cmd w ≡ some (r, w')
            → usb_ccid_process_message stack m s w
              ≡ some (pos 0, block m r, record s { sequence = seq }, w'))
  unfolding data_block
  use_message stack s app slot seq w l there cla ins p1 p2 content le n c =
      let apdu = apdu_bytes cla ins p1 p2 content le in
      let (cmd, p, reads) = parse_apdu-apdu_bytes stack cla ins p1 p2 content le l c in
      let small : length apdu < 2 ^ 32 =
        omega (arith, length-apdu_bytes cla ins p1 p2 content le) in
      let other : cmd.ins ≢ 0xA4 = λ q. n (sym reads.is_ins ∙ q) in
      (
        cmd,
        reads,
        λ r w' h.
            process-xfr_block stack slot seq apdu cmd s w small p
            ∙ ap (data_block (xfr_block slot seq apdu))
                (process_apdu-selected cmd app (record s { sequence = seq }) r w w' other there h),
      )

  -- An application is registered under an AID that no other has. Then the message with SELECT of
  -- that AID is answered by 9000; and the message with any other APDU behind it reaches the
  -- application's handler as the command whose bytes were sent, and carries the handler's answer
  -- back, with the message's slot and sequence number.
  pub select_and_use :
      (stack aid : List ℕ) (handler : Handler W) (s s1 : State W) (slot seq seq' : ℕ) (w : W)
      → length stack ≡ 255
      → find_app 0 aid s.app_registry ≡ none
      → usb_ccid_register_app aid (some handler) s ≡ (pos 0, s1)
      → let m = xfr_block slot seq (apdu_bytes 0x00 0xA4 0x04 0x00 aid none) in
        (s2 : State W) × (usb_ccid_process_message stack m s1 w
          ≡ some (pos 0, block m (answer 0x90 0x00), s2, w))
        × ((cla ins p1 p2 : ℕ) (content : List ℕ) (le : Option ℕ)
            → ins ≢ 0xA4
            → length content ≤ 255
            → let m' = xfr_block slot seq' (apdu_bytes cla ins p1 p2 content le) in
              (cmd : Command) × Reads cmd cla ins p1 p2 content le
              × ((r : Response) (w' : W)
                  → handler cmd w ≡ some (r, w')
                  → usb_ccid_process_message stack m' s2 w
                    ≡ some (pos 0, block m' r, record s2 { sequence = seq' }, w')))
  select_and_use stack aid handler s s1 slot seq seq' w l f e =
      let app : App W = record { aid = aid; handler = handler } in
      let (short, apps, made, after) = registered aid handler s s1 e in
      let (k, found, there) = register_in-found app 0 s.app_registry apps f made in
      let found' : find_app 0 aid s1.app_registry ≡ some k = ground (arith, found, after) in
      let there' : app_at k s1.app_registry ≡ some app = ground (arith, there, after) in
      let s2 : State W = record s1 { sequence = seq; selected_app = k } in
      (
        s2,
        select_message stack aid s1 k slot seq w l short found',
        λ cla ins p1 p2 content le n c.
            use_message stack s2 app slot seq' w l there' cla ins p1 p2 content le n c,
      )
