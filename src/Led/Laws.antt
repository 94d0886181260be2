-- ===== src/Led/Laws.antt =====
-- Which patterns src/utils/led_patterns.c shows, and that a pattern with a number of repetitions ends.
use open_fido.Common.{
  ℕ, zero, suc, ◌+◌, ◌*◌, ◌<◌, ◌≤◌, true, false, List, [], ◌∷◌, length, ◌≡◌, refl, arith, subst,
  sym, ap, ◌∙◌,
}
use open_fido.Led.{LedState, idle, elapsed, update}

-- Every time is at least `d` ms behind the one before.
pub data AreSpaced (d : ℕ) : ℕ → List ℕ → Type 0 where
  no_more : (last : ℕ) → AreSpaced d last []
  later :
      (last now : ℕ) (times : List ℕ)
      → d ≤ elapsed now last
      → AreSpaced d now times
      → AreSpaced d last (now ∷ times)

unfoldable pub update_all : List ℕ → LedState → LedState
update_all [] s = s
update_all (now ∷ times) s = update_all times (update now s)

-- The state after the LED went on, and after it went off again.
abbrev lit : ℕ → LedState → LedState
lit now s = record s {
  led_on = true;
  last_update_ms = now;
  lamp = true;
  repeat_counter = s.repeat_counter + 1;
}

abbrev dark : ℕ → LedState → LedState
dark now s = record s { led_on = false; last_update_ms = now; lamp = false }

update-lit :
    (now : ℕ) (s : LedState)
    → s.led_on ≡ false
    → s.repeat_counter < s.current_pattern.repeat_count
    → s.current_pattern.repeat_count ≤ 255
    → s.current_pattern.off_ms ≤ elapsed now s.last_update_ms
    → update now s ≡ lit now s
unfolding update
update-lit now s off more byte due = ground (arith, off, more, byte, due)

update-dark :
    (now : ℕ) (s : LedState)
    → s.led_on ≡ true
    → s.repeat_counter < s.current_pattern.repeat_count
    → s.current_pattern.on_ms ≤ elapsed now s.last_update_ms
    → update now s ≡ dark now s
unfolding update
update-dark now s on more due = ground (arith, on, more, due)

update-idle :
    (now : ℕ) (s : LedState)
    → 0 < s.current_pattern.repeat_count
    → s.current_pattern.repeat_count ≤ s.repeat_counter
    → update now s ≡ record s { lamp = false; current_type = idle }
unfolding update
update-idle now s some_count done = ground (arith, some_count, done)

-- A pattern that repeats ends: when the LED is off and `suc n` repetitions are left, two updates for
-- each of them, far enough apart for both phases, leave the LED off and the state idle.
pub update_all-ends :
    (n d : ℕ) (times : List ℕ) (s : LedState)
    → s.led_on ≡ false
    → s.current_pattern.repeat_count ≡ s.repeat_counter + suc n
    → s.current_pattern.repeat_count ≤ 255
    → s.current_pattern.on_ms ≤ d
    → s.current_pattern.off_ms ≤ d
    → AreSpaced d s.last_update_ms times
    → length times ≡ 2 * suc n
    → ((update_all times s).current_type ≡ idle) × ((update_all times s).lamp ≡ false)
unfolding update_all
update_all-ends n d [] s off left byte on_d off_d spaced len = absurd (omega (arith, len))
update_all-ends n d (t ∷ []) s off left byte on_d off_d spaced len = absurd (omega (arith, len))
update_all-ends zero d (t ∷ u ∷ []) s off left byte on_d off_d (later _ _ _ due spaced) len =
    let first = update-lit t s off (omega (arith, left)) byte (omega (arith, off_d, due)) in
    let second = update-idle u (lit t s) (omega (arith, left)) (omega (arith, left)) in
    let both : update u (update t s) ≡ record (lit t s) { lamp = false; current_type = idle } =
      ap (update u) first ∙ second in
    rw both (refl, refl)
update_all-ends zero d (t ∷ u ∷ v ∷ times) s off left byte on_d off_d spaced len =
    absurd (omega (arith, len))
update_all-ends (suc n) d (t ∷ u ∷ times) s off left byte on_d off_d
      (later _ _ _ due (later _ _ _ due2 spaced)) len =
    let first = update-lit t s off (omega (arith, left)) byte (omega (arith, off_d, due)) in
    let second = update-dark u (lit t s) refl (omega (arith, left)) (omega (arith, on_d, due2)) in
    let rest =
      update_all-ends n d times (dark u (lit t s)) refl (omega (arith, left)) byte on_d off_d spaced
        (omega (arith, len)) in
    let both : update u (update t s) ≡ dark u (lit t s) = ap (update u) first ∙ second in
    subst (λ x. ((update_all times x).current_type ≡ idle) × ((update_all times x).lamp ≡ false))
      (sym both) rest
