-- ===== src/Fragment/Tests.antt =====
-- Runs of src/ble/ble_fragment.c, and its theorems at concrete inputs.
use open_fido.Common.{ℕ, ◌≡◌, refl, arith, List, [], ◌∷◌, replicate, some, true}
use open_fido.Fragment.{Reassembler, init, create, ok, get_message, continuations, behind}
use open_fido.Fragment.Reassembly.{IsValid}
use open_fido.Fragment.RoundTrip.{feed, feed-create}

abbrev idle : Reassembler
idle = init (replicate 7609 0)

abbrev message : List ℕ
message = 10 ∷ 11 ∷ 12 ∷ 13 ∷ 14 ∷ 15 ∷ []

abbrev pieces : List (List ℕ)
pieces = (0x80 ∷ 0 ∷ 6 ∷ 10 ∷ []) ∷ (1 ∷ 11 ∷ 12 ∷ 13 ∷ []) ∷ (2 ∷ 14 ∷ 15 ∷ []) ∷ []

create-pieces : create (λ _. true) (some message) 4 ≡ some (ok pieces)
unfolding create continuations behind
create-pieces = refl

idle-IsValid : IsValid idle
unfolding init
idle-IsValid = record {
  extent = refl;
  total = omega arith;
  received = omega arith;
  seq = omega arith;
}

feed-create_example :
    let (ret, r') = feed idle pieces in (ret ≡ ok tt) × (get_message r' ≡ ok message) × IsValid r'
feed-create_example = feed-create (λ _. true) message 4 idle idle-IsValid create-pieces
