-- ===== src/Fragment/RoundTrip.antt =====
-- Fragments made by `ble_fragment_create` of src/ble/ble_fragment.c are put together again by
-- `ble_fragment_add`.
use open_fido.Common.{
  ℕ, zero, suc, ◌+◌, ◌-◌, ◌*◌, ◌/◌, ◌%◌, ◌^◌, ◌≤◌, ◌<◌, ◌≡◌, refl, arith, List, ◌∷◌, true, length,
  take, some, bit_or, [], drop, length-take, length-drop, take_all, min, size_mod, take-add, Bool,
  Option, none,
}
use open_fido.Fragment.{
  Reassembler, add, add_initial, add_continuation, next_seq, create, continuations, get_message,
  Result, ok, fail, copy_into, behind, is_complete, max_message_size, first_fragment,
}
use native.Mathlib.Decide.{dec_lt}
use open_fido.Fragment.Reassembly.{IsValid, add-IsValid}
use open_fido.Common.Memory.{copy_into, take-copy_into}
use open_fido.Common.Bits.{top_bit, zero-bit_or, shift-bit_or}

-- The fragments of a list in turn, up to the first that is refused.
pub feed : Reassembler → List (List ℕ) → Result (Unit {0}) × Reassembler
feed r [] = (ok tt, r)
feed r (fragment ∷ fragments) =
    let (ret, r') = add r (some fragment) in
    elim ret [ ok _ ↦ feed r' fragments | fail c ↦ (fail c, r') ]

-- The reassembler stands behind the first `offset` bytes of this message.
record IsBehind (message : List ℕ) (offset seq : ℕ) (r : Reassembler) : Type 0 where
  valid : IsValid r
  running : r.in_progress ≡ true
  total : r.total_len ≡ length message
  received : r.received_len ≡ offset
  turn : r.seq ≡ seq
  bytes : take offset r.buffer ≡ take offset message

-- A continuation in turn that fits is copied whole.
add-continuation :
    (r : Reassembler) (chunk : List ℕ)
    → IsValid r
    → r.in_progress ≡ true
    → r.received_len + length chunk ≤ r.total_len
    → add r (some (r.seq ∷ chunk)) ≡ (
      ok tt,
      record r {
        buffer = copy_into r.buffer r.received_len chunk;
        received_len = r.received_len + length chunk;
        seq = (r.seq + 1) % 128;
      },
    )
unfolding add add_continuation next_seq
add-continuation r chunk v p h = ground (
  arith,
  top_bit r.seq,
  take_all (min (length chunk) ((r.total_len + size_mod - r.received_len) % size_mod)) chunk,
)

-- One continuation, with the bytes that come next.
add-next :
    (message : List ℕ) (offset seq n : ℕ) (r : Reassembler)
    → IsBehind message offset seq r
    → offset + n ≤ length message
    → let (ret, r') = add r (some (bit_or 0x00 seq ∷ take n (drop offset message))) in
      (ret ≡ ok tt) × IsBehind message (offset + n) ((seq + 1) % 128) r'
add-next message offset seq n r b h =
    let chunk = take n (drop offset message) in
    let size : length chunk ≡ n =
      omega (arith, length-take n (drop offset message), length-drop offset message) in
    let step = add-continuation r chunk b.valid b.running (omega arith) in
    let copied = take-copy_into chunk r.buffer r.received_len (omega arith) in
    let valid = add-IsValid r (some (r.seq ∷ chunk)) b.valid in
    rw (zero-bit_or, ← b.turn, step)
      (
        refl,
        record {
          valid = rw step at valid;
          running = b.running;
          total = b.total;
          received = omega arith;
          turn = refl;
          bytes = ground (arith, copied, take-add offset n message);
        },
      )

feed-cons :
    (r : Reassembler) (fragment : List ℕ) (fragments : List (List ℕ))
    → (add r (some fragment)).0 ≡ ok tt
    → feed r (fragment ∷ fragments) ≡ feed (add r (some fragment)).1 fragments
unfolding feed
feed-cons r fragment fragments h = rw (h, feed)

-- Behind the whole message the reassembler hands it out.
behind_all :
    (message : List ℕ) (offset seq : ℕ) (r : Reassembler)
    → IsBehind message offset seq r
    → length message ≤ offset
    → get_message r ≡ ok message
unfolding get_message is_complete
behind_all message offset seq r b h = ground (arith, b.bytes, take_all offset message)

behind-eq_ok :
    (fragment : List ℕ) (o : Option (Result (List (List ℕ)))) (fragments : List (List ℕ))
    → behind fragment o ≡ some (ok fragments)
    → (rest : List (List ℕ)) × (o ≡ some (ok rest)) × (fragments ≡ fragment ∷ rest)
unfolding behind
behind-eq_ok fragment none fragments e = absurd (cc)
behind-eq_ok fragment (some (ok rest)) fragments e = (rest, refl, ground arith)
behind-eq_ok fragment (some (fail c)) fragments e = absurd (cc)

module _ (alloc : ℕ → Bool) (message : List ℕ) (mtu : ℕ) where
  abbrev data_len : ℕ → ℕ
  data_len offset = min (length message - offset) (mtu - 1)

  abbrev continuation : ℕ → ℕ → List ℕ
  continuation offset seq = bit_or 0x00 seq ∷ take (data_len offset) (drop offset message)

  -- What a successful run of the loop did in its first round.
  continuations-stop :
      (fuel offset frag_count seq : ℕ)
      → length message ≤ offset
      → continuations alloc message mtu (suc fuel) offset frag_count seq ≡ some (ok [])
  unfolding continuations
  continuations-stop fuel offset frag_count seq h = ground arith

  continuations-go :
      (fuel offset frag_count seq : ℕ) {fragments : List (List ℕ)}
      → offset < length message
      → continuations alloc message mtu (suc fuel) offset frag_count seq ≡ some (ok fragments)
      → behind (continuation offset seq) (
          continuations alloc message mtu fuel
            (offset + data_len offset)
            (frag_count + 1)
            ((seq + 1) % 128))
        ≡ some (ok fragments)
  unfolding continuations
  continuations-go fuel offset frag_count seq h e = ground arith

  -- Fed to a reassembler that has the bytes so far, they complete the message.
  continuations-fed :
      (fuel offset frag_count seq : ℕ) (fragments : List (List ℕ)) (r : Reassembler)
      → IsBehind message offset seq r
      → continuations alloc message mtu fuel offset frag_count seq ≡ some (ok fragments)
      → let (ret, r') = feed r fragments in
        (ret ≡ ok tt) × (get_message r' ≡ ok message) × IsValid r'
  unfolding feed
  continuations-fed zero offset frag_count seq fragments r b e = unfold continuations in absurd (cc)
  continuations-fed (suc fuel) offset frag_count seq fragments r b e =
      elim (dec_lt offset (length message)) [
        | no end ↦
            let nil : fragments ≡ [] =
              ground (arith, continuations-stop fuel offset frag_count seq (omega arith)) in
            rw nil (refl, behind_all message offset seq r b (omega arith), b.valid)
        | yes more ↦
            let (rest, e', shape) =
              behind-eq_ok (continuation offset seq) _ fragments
                (continuations-go fuel offset frag_count seq more e) in
            let (ret, b') = add-next message offset seq (data_len offset) r b (omega arith) in
            rw (shape, feed-cons r (continuation offset seq) rest ret)
              (continuations-fed fuel (offset + data_len offset) (frag_count + 1) ((seq + 1) % 128)
                rest _ b' e')
      ]

add-initial :
    (hi lo total : ℕ) (chunk : List ℕ) (r : Reassembler)
    → bit_or (hi * 2 ^ 8) lo ≡ total
    → total ≤ max_message_size
    → length chunk ≤ total
    → add r (some (0x80 ∷ hi ∷ lo ∷ chunk)) ≡ (
      ok tt,
      record {
        buffer = copy_into r.buffer 0 chunk;
        total_len = total;
        received_len = length chunk;
        seq = 1;
        in_progress = true;
      },
    )
unfolding add add_initial next_seq
add-initial hi lo total chunk r e h fits = ground (arith, take_all (min (length chunk) total) chunk)

-- What a successful `ble_fragment_create` has checked, and where its result comes from.
create-some :
    (alloc : ℕ → Bool) (message : List ℕ) (mtu : ℕ) {fragments : List (List ℕ)}
    → create alloc (some message) mtu ≡ some (ok fragments)
    → (length message ≤ max_message_size)
      × (behind (first_fragment message mtu) (
            continuations alloc message mtu
              (suc (length message))
              (min (length message) (mtu - 3))
              1
              1)
          ≡ some (ok fragments))
unfolding create
create-some alloc message mtu e = ground arith

-- The first fragment starts the message, whatever the reassembler held before.
add-first :
    (message : List ℕ) (mtu : ℕ) (r : Reassembler)
    → IsValid r
    → length message ≤ max_message_size
    → let (ret, r') = add r (some (first_fragment message mtu)) in
      (ret ≡ ok tt) × IsBehind message (min (length message) (mtu - 3)) 1 r'
add-first message mtu r v h =
    let len = length message in
    let n = min len (mtu - 3) in
    let chunk = take n message in
    let size : length chunk ≡ n = omega (arith, length-take n message) in
    let step =
      add-initial (len / 2 ^ 8 % 256) (len % 256) len chunk r
        (omega (arith, shift-bit_or 8 (len / 2 ^ 8 % 256) (len % 256))) h (omega arith) in
    let copied = take-copy_into chunk r.buffer 0 (omega arith) in
    let valid = add-IsValid r (some (first_fragment message mtu)) v in
    rw step (
      refl,
      record {
        valid = rw step at valid;
        running = refl;
        total = refl;
        received = size;
        turn = refl;
        bytes = ground (arith, copied);
      },
    )

-- Where `ble_fragment_create` makes fragments of a message, a reassembler in any valid state
-- accepts them all, and then hands out the message that was cut.
pub feed-create :
    (alloc : ℕ → Bool) (message : List ℕ) (mtu : ℕ) {fragments : List (List ℕ)} (r : Reassembler)
    → IsValid r
    → create alloc (some message) mtu ≡ some (ok fragments)
    → let (ret, r') = feed r fragments in (ret ≡ ok tt) × (get_message r' ≡ ok message) × IsValid r'
feed-create alloc message mtu {fragments} r v e =
    let n = min (length message) (mtu - 3) in
    let (small, made) = create-some alloc message mtu e in
    let (rest, e', shape) = behind-eq_ok (first_fragment message mtu) _ fragments made in
    let (ret, b) = add-first message mtu r v small in
    rw (shape, feed-cons r (first_fragment message mtu) rest ret)
      (continuations-fed alloc message mtu (suc (length message)) n 1 1 rest _ b e')
