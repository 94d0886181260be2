-- ===== src/Fragment.antt =====
-- src/ble/ble_fragment.c: messages cut into fragments for BLE, and put together again. A pointer
-- that may be NULL is an `Option`; the pointers to the state and to the outputs are not NULL.
mod Tests
pub mod Creation
pub mod Reassembly
pub mod RoundTrip
use open_fido.Common.{
  ℕ, zero, suc, ◌+◌, ◌-◌, ◌*◌, ◌%◌, ◌^◌, bit_and, bit_or, Bool, true, false, not, List, [], ◌∷◌,
  Option, none, some, length, get_or, take, drop, ltb, leb, ◌==◌, if◌then◌else◌, min, ◌||◌,
  size_mod, ◌&&◌, ◌/◌,
}
use open_fido.Common.Memory.{copy_into}

-- The codes BLE_FRAGMENT_ERROR_*.
pub data Error : Type 0 where
  invalid_param no_mem invalid_seq too_large incomplete : Error

pub data Result {ℓ} (A : Type ℓ) : Type ℓ where
  ok : A → Result A
  fail : Error → Result A

abbrev pub max_message_size : ℕ
max_message_size = 7609

abbrev pub max_fragments : ℕ
max_fragments = 128

-- `ble_fragment_buffer_t`; `buffer` is the static array `reassembly_buffer`.
pub record Reassembler : Type 0 where
  pub buffer : List ℕ
  pub total_len : ℕ
  pub received_len : ℕ
  pub seq : ℕ
  pub in_progress : Bool

-- `ble_fragment_init`, over the static array.
unfoldable pub init : List ℕ → Reassembler
init reassembly_buffer = record {
  buffer = reassembly_buffer;
  total_len = 0;
  received_len = 0;
  seq = 0;
  in_progress = false;
}

unfoldable pub next_seq : Reassembler → Reassembler
next_seq r = record r { seq = (r.seq + 1) % 128 }

-- The branch for an initial fragment, from its length bytes and what follows them.
unfoldable pub add_initial : Reassembler → List ℕ → Result (Unit {0}) × Reassembler
unfolding next_seq
add_initial r fragment =
    let total = bit_or (get_or fragment 1 0 * 2 ^ 8) (get_or fragment 2 0) in
    let data_len = min (length fragment - 3) total in
    if ltb (length fragment) 3
    then (fail invalid_param, r)
    else if ltb max_message_size total
    then (fail too_large, r)
    else (
      ok tt,
      next_seq (record {
        buffer = copy_into r.buffer 0 (take data_len (drop 3 fragment));
        total_len = total;
        received_len = data_len;
        seq = 0;
        in_progress = true;
      }),
    )

-- The branch for a continuation. `total_len - received_len` is a `size_t`.
unfoldable pub add_continuation : Reassembler → List ℕ → Result (Unit {0}) × Reassembler
unfolding next_seq
add_continuation r fragment =
    let remaining = (r.total_len + size_mod - r.received_len) % size_mod in
    let data_len = min (length fragment - 1) remaining in
    if not r.in_progress
    then (fail invalid_seq, r)
    else if not (get_or fragment 0 0 % 128 == r.seq)
    then (fail invalid_seq, r)
    else (
      ok tt,
      next_seq (record r {
        buffer = copy_into r.buffer r.received_len (take data_len (drop 1 fragment));
        received_len = r.received_len + data_len;
      }),
    )

unfoldable pub add : Reassembler → Option (List ℕ) → Result (Unit {0}) × Reassembler
unfolding add_initial add_continuation
add r none = (fail invalid_param, r)
add r (some []) = (fail invalid_param, r)
add r (some (cmd ∷ rest)) =
    if not (bit_and cmd 0x80 == 0)
    then add_initial r (cmd ∷ rest)
    else add_continuation r (cmd ∷ rest)

unfoldable pub is_complete : Reassembler → Bool
is_complete r = r.in_progress && leb r.total_len r.received_len

unfoldable pub get_message : Reassembler → Result (List ℕ)
unfolding is_complete
get_message r = if not (is_complete r) then fail incomplete else ok (take r.total_len r.buffer)

unfoldable pub reset : Reassembler → Reassembler
reset r = record r { total_len = 0; received_len = 0; seq = 0; in_progress = false }

-- The fragments that follow the first, unless making them failed.
unfoldable pub behind : List ℕ → Option (Result (List (List ℕ))) → Option (Result (List (List ℕ)))
behind fragment none = none
behind fragment (some (ok fragments)) = some (ok (fragment ∷ fragments))
behind fragment (some (fail c)) = some (fail c)

-- The loop of `ble_fragment_create` over continuations; `alloc i` says whether the `malloc` of
-- fragment `i` succeeds, and a failure frees the fragments made so far. `none` says that the fuel
-- ran out.
unfoldable pub continuations :
    (ℕ → Bool) → List ℕ → ℕ → ℕ → ℕ → ℕ → ℕ → Option (Result (List (List ℕ)))
continuations alloc message mtu zero offset frag_count seq = none
continuations alloc message mtu (suc fuel) offset frag_count seq =
    let data_len = min (length message - offset) (mtu - 1) in
    let fragment = bit_or 0x00 seq ∷ take data_len (drop offset message) in
    let rest : Option (Result (List (List ℕ))) =
      continuations alloc message mtu fuel (offset + data_len) (frag_count + 1) ((seq + 1) % 128) in
    if not (ltb offset (length message))
    then some (ok [])
    else if leb max_fragments frag_count
    then some (fail too_large)
    else if not (alloc frag_count)
    then some (fail no_mem)
    else behind fragment rest

-- cmd, the length in two bytes, and the first bytes of the message.
abbrev pub first_fragment : List ℕ → ℕ → List ℕ
first_fragment message mtu =
    let len = length message in
    0x80 ∷ (len / 2 ^ 8 % 256) ∷ (len % 256) ∷ take (min len (mtu - 3)) message

unfoldable pub create : (ℕ → Bool) → Option (List ℕ) → ℕ → Option (Result (List (List ℕ)))
create alloc none mtu = some (fail invalid_param)
create alloc (some message) mtu =
    let len = length message in
    let data_len = min len (mtu - 3) in
    if len == 0 || ltb max_message_size len
    then some (fail too_large)
    else if ltb mtu 3
    then some (fail invalid_param)
    else if not (alloc 0)
    then some (fail no_mem)
    else behind (first_fragment message mtu)
        (continuations alloc message mtu (suc len) data_len 1 1)
