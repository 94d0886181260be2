-- ===== src/Fragment/Reassembly.antt =====
-- Reassembly in src/ble/ble_fragment.c: its invariant, and that it undoes the fragmentation.
use open_fido.Common.{
  ℕ, ◌+◌, ◌-◌, ◌*◌, ◌%◌, ◌^◌, ◌≤◌, ◌<◌, ◌≡◌, arith, length, Option, List, some, ◌∷◌, take, min,
  bit_or, get_or, drop, size_mod, none, [],
}
use open_fido.Fragment.{Reassembler, add, add_initial, add_continuation, next_seq, max_message_size}
use open_fido.Common.Memory.{length-copy_into}

-- The state of the reassembler: the static array has its size, and what was received fits the
-- message, which fits the array.
pub record IsValid (r : Reassembler) : Type 0 where
  pub extent : length r.buffer ≡ max_message_size
  pub total : r.total_len ≤ max_message_size
  pub received : r.received_len ≤ r.total_len
  pub seq : r.seq < 128

-- No fragment, well formed or not, breaks the invariant.
pub add-IsValid :
    (r : Reassembler) (fragment : Option (List ℕ)) → IsValid r → IsValid (add r fragment).1
unfolding add add_initial add_continuation next_seq
add-IsValid r none v = v
add-IsValid r (some []) v = v
add-IsValid r (some (cmd ∷ rest)) v = ground (
  arith,
  length-copy_into
      (take (min (length rest - 2) (bit_or (get_or rest 0 0 * 2 ^ 8) (get_or rest 1 0)))
        (drop 2 rest))
      r.buffer 0,
  length-copy_into
      (take (min (length rest) ((r.total_len + size_mod - r.received_len) % size_mod)) rest)
      r.buffer r.received_len,
)
