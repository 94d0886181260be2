-- ===== src/Ctap2/Blobs/Laws.antt =====
-- What src/fido2/extensions/ctap2_large_blobs.c reads behind a write.
use open_fido.Common.{ℕ, ◌≤◌, List, length, ◌≡◌}
use open_fido.Ctap2.Blobs.{Blobs}

module _ (sha256 : List ℕ → List ℕ) where
  -- The array has its 2048 bytes, and the size fits into it.
  pub record IsValidBlobs (b : Blobs) : Type 0 where
    pub full : length b.memory ≡ 2048
    pub fits : b.size ≤ 2048
