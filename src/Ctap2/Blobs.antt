-- ===== src/Ctap2/Blobs.antt =====
-- src/fido2/extensions/ctap2_large_blobs.c: the large blob, behind the loop that reads the
-- parameters. `none` is an access behind the end of an array. `size_t` has 32 bits.
pub mod Laws
use open_fido.Common.{
  ℕ, ◌+◌, ◌-◌, ◌%◌, ◌||◌, Bool, true, false, List, [], ◌∷◌, ◌++◌, length, take, drop, replicate,
  Option, some, none, if◌then◌else◌, ltb, ◌==◌, size_mod,
}
use open_fido.Common.Memory.{copy_into}
use open_fido.Cbor.Encoder.{encode_uint, encode_bytes, encode_map_start}
use open_fido.Ctap2.Base.{
  Reply, encoded, ctap2_ok, err_invalid_parameter, err_missing_parameter, err_request_too_large,
}

-- `large_blob_storage`
pub record Blobs : Type 0 where
  pub memory : List ℕ
  pub size : ℕ
  pub initialized : Bool

abbrev pub max_blob_size : ℕ
max_blob_size = 2048

-- The local variables of `ctap2_large_blobs`.
pub record BlobRequest : Type 0 where
  pub offset : ℕ
  pub len : ℕ
  pub set_data : List ℕ
  pub is_get : Bool
  pub is_set : Bool

abbrev pub blobs_reply : List ℕ → List ℕ → Reply
blobs_reply buffer bytes =
    encoded buffer
      ((λ e. encode_map_start e 1) ∷ (λ e. encode_uint e 1) ∷ (λ e. encode_bytes e bytes) ∷ [])

-- `crypto_sha256` comes from outside.
module _ (sha256 : List ℕ → List ℕ) where
  -- The empty array and the start of its hash.
  unfoldable pub init_blobs : Blobs → Blobs
  init_blobs b = if b.initialized then b else record {
    memory = copy_into b.memory 0 (0x80 ∷ take 16 (sha256 (0x80 ∷ [])));
    size = 17;
    initialized = true;
  }

  -- The bytes that a request for this offset and length reads.
  unfoldable pub read_blobs : Blobs → ℕ → ℕ → List ℕ
  read_blobs b offset len =
      let available = b.size - offset in
      take (if (len == 0) || ltb available len then available else len) (drop offset b.memory)

  unfoldable pub lb_get : Blobs → ℕ → ℕ → List ℕ → Reply × Blobs
  lb_get b offset len buffer =
      let b' = init_blobs b in
      if ltb b'.size offset
      then ((err_invalid_parameter, none), b')
      else (blobs_reply buffer (read_blobs b' offset len), b')

  -- The sum that is compared with the size of the array wraps around.
  unfoldable pub lb_set : Blobs → ℕ → List ℕ → Option (Reply × Blobs)
  lb_set b offset bytes =
      let b' = init_blobs b in
      let end = (offset + length bytes) % size_mod in
      if ltb max_blob_size end
      then some ((err_request_too_large, none), b')
      else if ltb max_blob_size (offset + length bytes)
      then none
      else some (
        (ctap2_ok, some []),
        record {
          memory = copy_into b'.memory offset bytes;
          size = if ltb b'.size end then end else b'.size;
          initialized = b'.initialized;
        },
      )

  -- Nothing is asked of the PIN.
  unfoldable pub large_blobs : BlobRequest → List ℕ → Blobs → Option (Reply × Blobs)
  large_blobs r buffer b =
      if r.is_get
      then some (lb_get b r.offset r.len buffer)
      else if r.is_set
      then lb_set b r.offset r.set_data
      else some ((err_missing_parameter, none), b)
