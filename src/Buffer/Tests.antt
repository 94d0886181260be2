-- ===== src/Buffer/Tests.antt =====
-- Runs of src/utils/buffer.c, and its theorems at concrete inputs.
use open_fido.Common.{ℕ, ◌≡◌, refl, List, [], ◌∷◌}
use open_fido.Buffer.{constant_time_compare}

abbrev secret : List ℕ
secret = 1 ∷ 2 ∷ 3 ∷ 4 ∷ []

compare_differs : constant_time_compare secret (1 ∷ 2 ∷ 7 ∷ 4 ∷ []) 4 ≡ 4
unfolding constant_time_compare
compare_differs = refl
