-- ===== src/Cbor/Encoder/Append.antt =====
-- What the encoder of src/fido2/core/cbor.c writes: each operation appends the bytes of its item,
-- or reports that they do not fit.
use open_fido.Common.{
  ℕ, ◌+◌, ◌%◌, ◌^◌, ◌<◌, ◌≡◌, arith, List, [], ◌∷◌, ◌++◌, length, take, leb, if◌then◌else◌, IsU64,
  length-append, ◌≤◌, Bool-cases, inl, ◌∙◌, inr, refl,
}
use open_fido.Common.Memory.{
  copy_into, copy_into-append, take-copy_into, length-copy_into, take-copy_into_before,
}
use open_fido.Common.Bits.{shift-bit_or}
use open_fido.Cbor.Base.{ok, fail, overflow, Encoder, IsValid}
use open_fido.Cbor.Head.{header}
use open_fido.Cbor.Encoder.{Step, put_byte, encode_type_value, put_payload, encode_string}

-- The bytes that have been written.
abbrev pub written : Encoder → List ℕ
written e = take e.offset e.buffer

-- The context after these bytes have been written, with no check.
unfoldable pub append_bytes : Encoder → List ℕ → Encoder
unfolding copy_into
append_bytes e bytes = record e {
  buffer = copy_into e.buffer e.offset bytes;
  offset = e.offset + length bytes;
}

-- The bytes are appended where there is room for all of them.
unfoldable pub append_if_room : Encoder → List ℕ → Step
append_if_room e bytes =
    if leb (e.offset + length bytes) e.buffer_size
    then (ok tt, append_bytes e bytes)
    else (fail overflow, e)

append_bytes-append :
    (e : Encoder) (xs ys : List ℕ) → append_bytes (append_bytes e xs) ys ≡ append_bytes e (xs ++ ys)
unfolding append_bytes
append_bytes-append e xs ys =
    ground (arith, copy_into-append xs ys e.buffer e.offset, length-append xs ys)

put_byte-eq :
    (e : Encoder) (b : ℕ) → e.offset < 2 ^ 31 → put_byte e b ≡ append_bytes e ((b % 256) ∷ [])
unfolding put_byte append_bytes
put_byte-eq e b h = ground arith

encode_type_value-eq :
    (e : Encoder) (major value : ℕ)
    → IsValid e
    → major < 8
    → IsU64 value
    → encode_type_value e major value ≡ append_if_room e (header major value)
unfolding encode_type_value append_if_room header append_bytes
encode_type_value-eq e major value v hm hv = ground (
  arith,
  shift-bit_or 5 major value,
  shift-bit_or 5 major 24,
  shift-bit_or 5 major 25,
  shift-bit_or 5 major 26,
  shift-bit_or 5 major 27,
)

written-append_bytes :
    (e : Encoder) (bytes : List ℕ)
    → e.offset + length bytes ≤ length e.buffer
    → written (append_bytes e bytes) ≡ written e ++ bytes
unfolding append_bytes
written-append_bytes e bytes h = take-copy_into bytes e.buffer e.offset h

append_bytes-IsValid :
    (e : Encoder) (bytes : List ℕ)
    → IsValid e
    → e.offset + length bytes ≤ e.buffer_size
    → IsValid (append_bytes e bytes)
unfolding append_bytes
append_bytes-IsValid e bytes v h = ground (arith, length-copy_into bytes e.buffer e.offset)

-- What a caller sees of a step that was to write `bytes`: all of them or none, and the code says which.
abbrev pub Appends : Encoder → List ℕ → Step → Type 0
Appends e bytes (ret, e') =
    IsValid e'
    × (e'.buffer_size ≡ e.buffer_size)
    × (ret ≡ (if leb (e.offset + length bytes) e.buffer_size then ok tt else fail overflow))
    × (written e'
        ≡ (if leb (e.offset + length bytes) e.buffer_size then written e ++ bytes else written e))

append_if_room-Appends :
    (e : Encoder) (bytes : List ℕ) → IsValid e → Appends e bytes (append_if_room e bytes)
unfolding append_if_room
append_if_room-Appends e bytes v = elim (Bool-cases (leb (e.offset + length bytes) e.buffer_size)) [
  | inl fits ↦ rw fits (
    append_bytes-IsValid e bytes v (ground arith),
    size e bytes,
    refl,
    written-append_bytes e bytes (ground arith),
  )
  | inr full ↦ rw full (v, refl, refl, refl)
]
  where
    size : (e : Encoder) (bytes : List ℕ) → (append_bytes e bytes).buffer_size ≡ e.buffer_size
    size e bytes = unfold append_bytes in refl

-- Where the whole shortest head fits, it is appended and the code is CBOR_OK; otherwise nothing is
-- written and the code is CBOR_ERROR_OVERFLOW. The context stays valid and keeps its size.
pub encode_type_value-Appends :
    (e : Encoder) (major value : ℕ)
    → IsValid e
    → major < 8
    → IsU64 value
    → Appends e (header major value) (encode_type_value e major value)
encode_type_value-Appends e major value v hm hv =
    rw (encode_type_value-eq e major value v hm hv)
      (append_if_room-Appends e (header major value) v)

put_payload-eq :
    (e : Encoder) (bytes : List ℕ)
    → IsValid e
    → length bytes < 2 ^ 31
    → put_payload e bytes ≡ append_if_room e bytes
unfolding put_payload append_if_room append_bytes
put_payload-eq e bytes v h = ground arith

encode_string-eq :
    (e : Encoder) (major : ℕ) (payload : List ℕ)
    → IsValid e
    → major < 8
    → length payload < 2 ^ 31
    → let head = header major (length payload) in
      encode_string e major payload ≡ (
        if leb (e.offset + length head) e.buffer_size
        then append_if_room (append_bytes e head) payload
        else (fail overflow, e))
unfolding encode_string append_if_room
encode_string-eq e major payload v hm hp =
    let head = header major (length payload) in
    ground (
      arith,
      encode_type_value-eq e major (length payload) v hm,
      append_bytes-IsValid e head v,
      put_payload-eq (append_bytes e head) payload,
    )

append_bytes-before :
    (e : Encoder) (bytes : List ℕ) → take e.offset (append_bytes e bytes).buffer ≡ written e
unfolding append_bytes
append_bytes-before e bytes = take-copy_into_before bytes e.buffer e.offset e.offset (omega arith)

append_twice :
    (e : Encoder) (xs ys : List ℕ)
    → (if leb (e.offset + length xs) e.buffer_size
        then append_if_room (append_bytes e xs) ys
        else (fail overflow, e))
      ≡ (if leb (e.offset + length (xs ++ ys)) e.buffer_size
          then (ok tt, append_bytes e (xs ++ ys))
          else if leb (e.offset + length xs) e.buffer_size
          then (fail overflow, append_bytes e xs)
          else (fail overflow, e))
unfolding append_if_room append_bytes
append_twice e xs ys = ground (arith, length-append xs ys, append_bytes-append e xs ys)

-- A string of less than 2 ^ 31 bytes is accepted exactly when its head and its bytes fit, and is
-- then appended whole; otherwise the code is CBOR_ERROR_OVERFLOW. Either way the context stays valid
-- and the bytes written before are kept.
pub encode_string_lem :
    (e : Encoder) (major : ℕ) (payload : List ℕ)
    → IsValid e
    → major < 8
    → length payload < 2 ^ 31
    → let item = header major (length payload) ++ payload in
      let (ret, e') = encode_string e major payload in
      IsValid e'
      × (ret ≡ (if leb (e.offset + length item) e.buffer_size then ok tt else fail overflow))
      × (take e.offset e'.buffer ≡ written e)
      × (ret ≡ ok tt → written e' ≡ written e ++ item)
encode_string_lem e major payload v hm hp =
    let head = header major (length payload) in
    let item = head ++ payload in
    rw (encode_string-eq e major payload v hm hp ∙ append_twice e head payload)
      (elim (Bool-cases (leb (e.offset + length item) e.buffer_size)) [
        | inl fits ↦ rw fits (
          append_bytes-IsValid e item v (ground arith),
          refl,
          append_bytes-before e item,
          λ _. written-append_bytes e item (ground arith),
        )
        | inr full ↦ rw full (elim (Bool-cases (leb (e.offset + length head) e.buffer_size)) [
          | inl head_fits ↦ rw head_fits (
            append_bytes-IsValid e head v (ground arith),
            refl,
            append_bytes-before e head,
            λ p. cc,
          )
          | inr none_fits ↦ rw none_fits (v, refl, refl, λ p. cc)
        ])
      ])
