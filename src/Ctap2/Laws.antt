-- ===== src/Ctap2/Laws.antt =====
-- The dispatch, the reset and the pending assertions of src/fido2/core/ctap2.c.
use open_fido.Common.{
  ℕ, ◌≡◌, ◌≢◌, true, false, List, Option, none, some, Bool-cases, inl, inr, arith, refl, subst,
  if-both, not, ltb, ◌&&◌, ◌==◌,
}
use open_fido.Cbor.Base.{Decoder}
use open_fido.Storage.Base.{Platform, Code, ok, State as Storage}
use open_fido.Storage.Pin.{is_pin_set}
use open_fido.Storage.Device.{format}
use open_fido.Storage.DeviceLaws.{format-ok}
use open_fido.U2f.{Board}
use open_fido.Ctap2.{
  State, Request, Outcome, Commands, process_request, run_command, reset, reset_formatted,
  get_next_assertion, ctap2_init, handle_client_pin, Handled, memory, if_any, is_null,
}
use open_fido.Ctap2.Pin.{handle_client_pin, Handled}

module _ {W : Type 0} (p : Platform W) (board : Board W) (commands : Commands W)
    (skip_value : Decoder → Decoder) (stale : ℕ) where
  -- The requests that a device serves, one after another.
  pub data Served : State → Storage → W → State → Storage → W → Type 0 where
    start : (s : State) (t : Storage) (w : W) → Served s t w s t w
    serve :
        (r : Option Request) (buffer : Option (List ℕ)) (a : ℕ × Option (List ℕ)) (s s1 s2 : State)
        (t t1 t2 : Storage) (w w1 w2 : W)
        → Served s t w s1 t1 w1
        → process_request p board commands skip_value stale r buffer s1 t1 w1 ≡ some (a, s2, t2, w2)
        → Served s t w s2 t2 w2

  -- An answer with no assertion pending.
  abbrev NonePending : Option (Outcome W) → Type 0
  NonePending none = Unit
  NonePending (some (a, s, t, w)) = s.pending_assertions ≡ 0

  if_any-NonePending :
      (s : State) (o : Option (Handled W))
      → s.pending_assertions ≡ 0
      → NonePending (if_any p board commands skip_value stale s o)
  if_any-NonePending s none h = tt
  if_any-NonePending s (some (r, t, w)) h = h

  reset_formatted-pending :
      (s : State) (o : Code × Storage × W)
      → s.pending_assertions ≡ 0
      → (reset_formatted p board s o).1.pending_assertions ≡ 0
  unfolding reset_formatted
  reset_formatted-pending s (ok, t, w) h = refl
  reset_formatted-pending s (_, t, w) h = h

  reset-pending :
      (s : State) (t : Storage) (w : W)
      → s.pending_assertions ≡ 0
      → (reset p board s t w).1.pending_assertions ≡ 0
  unfolding reset
  reset-pending s t w h =
      if-both (λ (o : Outcome W). o.1.pending_assertions ≡ 0)
        (not (board.button_wait_press 10000 w).0) _ _ h
        (reset_formatted-pending s (format p t (board.button_wait_press 10000 w).1) h)

  process_request-NonePending :
      (r : Option Request) (buffer : Option (List ℕ)) (s : State) (t : Storage) (w : W)
      → s.pending_assertions ≡ 0
      → NonePending (process_request p board commands skip_value stale r buffer s t w)
  unfolding process_request run_command get_next_assertion
  process_request-NonePending none buffer s t w h = h
  process_request-NonePending (some r) none s t w h = h
  process_request-NonePending (some r) (some buffer) s t w h =
      let handled =
        if_any-NonePending s
          (handle_client_pin p board skip_value stale (memory r.content) r.data_len buffer t w) h in
      if-both NonePending (not s.initialized) _ _ h (
        if-both NonePending (ltb 0 r.data_len && is_null r.content) _ _ h (
          if-both NonePending (ltb 1024 r.data_len) _ _ h (
            if-both NonePending (r.cmd == 1) _ _ h (
              if-both NonePending (r.cmd == 2) _ _ h (
                if-both NonePending (r.cmd == 4) _ _ h (
                  if-both NonePending (r.cmd == 6) _ _ handled (
                    if-both NonePending (r.cmd == 7) _ _ (reset-pending s t w h)
                      (if-both NonePending (r.cmd == 8) _ _ (ground (arith, h)) h))))))))

  Served-pending :
      (s s' : State) (t t' : Storage) (w w' : W)
      → s.pending_assertions ≡ 0
      → Served s t w s' t' w'
      → s'.pending_assertions ≡ 0
  Served-pending s s' t t' w w' h (start _ _ _) = h
  Served-pending s s' t t' w w' h (serve r buffer a _ s1 _ _ t1 _ _ w1 _ before e) =
      let h1 = Served-pending s s1 t t1 w w1 h before in
      subst NonePending e (process_request-NonePending r buffer s1 t1 w1 h1)

  -- After `ctap2_init`, whatever requests are served, no assertion is ever pending, so that
  -- GetNextAssertion is refused and changes nothing.
  get_next_assertion-refused :
      (s s' : State) (t t' : Storage) (w w' : W)
      → Served (ctap2_init s).1 t w s' t' w'
      → get_next_assertion s' ≡ ((0x2A, none), s')
  unfolding get_next_assertion ctap2_init
  get_next_assertion-refused s s' t t' w w' served =
      let none_pending = Served-pending (ctap2_init s).1 s' t t' w w' refl served in
      ground (arith, none_pending)

module _ {W : Type 0} (p : Platform W) (board : Board W) where
  -- A reset that is answered with success asked for the button, and leaves storage without a PIN,
  -- with all retries and a counter at 0. Every other answer to a reset keeps the assertions that
  -- are pending.
  pub reset_lem :
      (s s' : State) (a : ℕ) (r : Option (List ℕ)) (t t' : Storage) (w w' : W)
      → reset p board s t w ≡ ((a, r), s', t', w')
      → (a ≡ 0
          → ((board.button_wait_press 10000 w).0 ≡ true)
            × (is_pin_set t' ≡ false)
            × (t'.pin_data.pin_retries ≡ 8)
            × (t'.global_counter ≡ 0)
            × (s'.pending_assertions ≡ 0))
        × (a ≢ 0 → s' ≡ s)
  unfolding reset reset_formatted
  reset_lem s s' a r t t' w w' e = elim (Bool-cases (board.button_wait_press 10000 w).0) [
    | inl pressed ↦ pressed_lem pressed _ refl (ground (arith, e, pressed))
    | inr refused ↦ (λ z. absurd (ground (arith, e, refused, z)), λ _. ground (arith, e, refused))
  ]
    where
      pressed_lem :
          (board.button_wait_press 10000 w).0 ≡ true
          → (o : Code × Storage × W) → format p t (board.button_wait_press 10000 w).1 ≡ o
          → reset_formatted p board s o ≡ ((a, r), s', t', w')
          → (a ≡ 0
              → ((board.button_wait_press 10000 w).0 ≡ true)
                × (is_pin_set t' ≡ false)
                × (t'.pin_data.pin_retries ≡ 8)
                × (t'.global_counter ≡ 0)
                × (s'.pending_assertions ≡ 0))
            × (a ≢ 0 → s' ≡ s)
      pressed_lem pressed (ok, t1, w1) formatted h =
          let (unset, retries, counter, _) = format-ok p t t1 _ w1 formatted in
          (
            λ z. (
              pressed,
              unfold is_pin_set in ground (arith, h, unset),
              ground (arith, h, retries),
              ground (arith, h, counter),
              ground (arith, h),
            ),
            λ n. absurd (ground (arith, h, n)),
          )
      pressed_lem pressed (_, t1, w1) formatted h =
          (λ z. absurd (ground (arith, h, z)), λ _. ground (arith, h))
