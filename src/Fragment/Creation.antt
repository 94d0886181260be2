-- ===== src/Fragment/Creation.antt =====
-- `ble_fragment_create` of src/ble/ble_fragment.c: it ends, its fragments fit the MTU, and which
-- messages it can cut.
use open_fido.Common.{
  ℕ, zero, suc, ◌+◌, ◌-◌, ◌*◌, ◌%◌, ◌≤◌, ◌<◌, ◌≡◌, ◌≢◌, refl, arith, List, [], ◌∷◌, Option, some,
  none, length, min, Bool, true, All, bit_or, take, drop, length-take,
}
use open_fido.Fragment.{
  create, continuations, behind, Result, ok, fail, too_large, max_fragments, max_message_size,
  first_fragment,
}
use native.Mathlib.Decide.{dec_lt}

behind-ne-none :
    (fragment : List ℕ) (o : Option (Result (List (List ℕ)))) → o ≢ none → behind fragment o ≢ none
unfolding behind
behind-ne-none fragment none h e = h refl
behind-ne-none fragment (some (ok fragments)) h e = cc
behind-ne-none fragment (some (fail c)) h e = cc

continuations-ne-none :
    (alloc : ℕ → Bool) (message : List ℕ) (mtu fuel offset frag_count seq : ℕ)
    → 2 ≤ mtu
    → length message - offset < fuel
    → continuations alloc message mtu fuel offset frag_count seq ≢ none
unfolding continuations
continuations-ne-none alloc message mtu zero offset frag_count seq hm h = absurd (omega arith)
continuations-ne-none alloc message mtu (suc fuel) offset frag_count seq hm h =
    let n = min (length message - offset) (mtu - 1) in
    ground (
      arith,
      continuations-ne-none alloc message mtu fuel (offset + n) (frag_count + 1) ((seq + 1) % 128)
          hm,
      behind-ne-none (bit_or 0x00 seq ∷ take n (drop offset message))
          (continuations alloc message mtu fuel (offset + n) (frag_count + 1) ((seq + 1) % 128)),
    )

-- `ble_fragment_create` always comes to an end, with fragments or with an error.
create-ne-none :
    (alloc : ℕ → Bool) (message : Option (List ℕ)) (mtu : ℕ) → create alloc message mtu ≢ none
unfolding create
create-ne-none alloc none mtu = λ e. cc
create-ne-none alloc (some message) mtu =
    let n = min (length message) (mtu - 3) in
    ground (
      arith,
      continuations-ne-none alloc message mtu (suc (length message)) n 1 1,
      behind-ne-none (first_fragment message mtu)
          (continuations alloc message mtu (suc (length message)) n 1 1),
    )

-- What one fragment of at most `mtu` bytes each can carry in all: the first has three bytes of
-- overhead, the 127 others have one.
pub capacity : ℕ → ℕ
capacity mtu = (mtu - 3) + 127 * (mtu - 1)

abbrev AreFragments : ℕ → ℕ → List (List ℕ) → Type 0
AreFragments mtu room fragments = All (λ f. length f ≤ mtu) fragments × (length fragments ≤ room)

module _ (message : List ℕ) (mtu : ℕ) (wide : 2 ≤ mtu) where
  abbrev loop : ℕ → ℕ → ℕ → ℕ → Option (Result (List (List ℕ)))
  loop = continuations (λ _. true) message mtu

  loop_fits :
      (fuel offset room seq : ℕ)
      → room ≤ 128
      → length message - offset < fuel
      → length message ≤ offset + room * (mtu - 1)
      → (fragments : List (List ℕ)) × (loop fuel offset (128 - room) seq ≡ some (ok fragments))
        × AreFragments mtu room fragments
  unfolding continuations behind
  loop_fits zero offset room seq hr hf h = absurd (omega arith)
  loop_fits (suc fuel) offset zero seq hr hf h = ([], ground arith, (tt, omega arith))
  loop_fits (suc fuel) offset (suc room) seq hr hf h = elim (dec_lt offset (length message)) [
    | no end ↦ ([], ground arith, (tt, omega arith))
    | yes more ↦
        let n = min (length message - offset) (mtu - 1) in
        let fragment = bit_or 0x00 seq ∷ take n (drop offset message) in
        let less : length message ≤ offset + n + room * (mtu - 1) = ground arith in
        let (rest, made, sizes) =
          loop_fits fuel (offset + n) room ((seq + 1) % 128) (omega arith) (omega arith) less in
        let next : 128 - suc room + 1 ≡ 128 - room = omega arith in
        (
          fragment ∷ rest,
          ground (arith, made, next),
          ((omega (arith, length-take n (drop offset message)), sizes.0), omega arith),
        )
  ]

  loop_too_large :
      (fuel offset room seq : ℕ)
      → room ≤ 128
      → length message - offset < fuel
      → offset + room * (mtu - 1) < length message
      → loop fuel offset (128 - room) seq ≡ some (fail too_large)
  unfolding continuations behind
  loop_too_large zero offset room seq hr hf h = absurd (omega arith)
  loop_too_large (suc fuel) offset zero seq hr hf h = ground arith
  loop_too_large (suc fuel) offset (suc room) seq hr hf h =
      let n = min (length message - offset) (mtu - 1) in
      let over : offset + (mtu - 1) + room * (mtu - 1) < length message = ground arith in
      let next : 128 - suc room + 1 ≡ 128 - room = omega arith in
      ground (arith, next, loop_too_large fuel (offset + n) room ((seq + 1) % 128))

-- With enough memory, a message of 1 to 7609 bytes is cut exactly when it is within the capacity of
-- its MTU; every fragment then fits the MTU, and there are at most 128 of them. A larger message is
-- refused as too large.
create-capacity :
    (message : List ℕ) (mtu : ℕ)
    → 1 ≤ length message
    → length message ≤ max_message_size
    → 3 ≤ mtu
    → (length message ≤ capacity mtu
        → (fragments : List (List ℕ)) × (create (λ _. true) (some message) mtu
            ≡ some (ok fragments))
          × All (λ f. length f ≤ mtu) fragments
          × (length fragments ≤ max_fragments))
      × (capacity mtu < length message
          → create (λ _. true) (some message) mtu ≡ some (fail too_large))
unfolding create behind capacity
create-capacity message mtu h1 h2 h3 =
    let n = min (length message) (mtu - 3) in
    (
      λ fits.
          let (rest, made, sizes) =
            loop_fits message mtu (omega arith) (suc (length message)) n 127 1 (omega arith)
              (omega arith) (omega arith) in
          (
            first_fragment message mtu ∷ rest,
            ground (arith, made),
            (omega (arith, length-take n message), sizes.0),
            omega arith,
          ),
      λ over.
          ground (arith, loop_too_large message mtu (omega arith) (suc (length message)) n 127 1),
    )
