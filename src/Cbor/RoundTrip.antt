-- ===== src/Cbor/RoundTrip.antt =====
-- What the encoder of src/fido2/core/cbor.c writes, its decoder reads back.
use open_fido.Common.{
  ℕ, ◌≤◌, ◌<◌, ◌≡◌, arith, List, [], ◌++◌, length, drop, All, IsByte, ◌^◌, size_mod, length-take,
  IsU64, All-append, drop_all, ap, All-take, length-append, drop-get_or, subst, ◌∙◌, sym,
  drop-length-append, append-nil, ℤ, pos, negsuc,
}
use open_fido.Cbor.Base.{Result, ok, fail, IsI64, Encoder, Decoder, IsValid, unread}
use open_fido.Cbor.Head.{header, header-IsByte, parse_head-header, parse_string-header}
use open_fido.Cbor.Encoder.{encode_int, encode_uint, encode_bytes, encode_string, encode_type_value}
use open_fido.Cbor.Encoder.Append.{written, encode_type_value-Appends, encode_string_lem}
use open_fido.Cbor.Decoder.{
  decode_int, decode_bytes, decode_type_value, get_type, map_result, decode_uint, to_i64,
  to_negative_i64,
}
use open_fido.Cbor.Decoder.Parse.{view, decode_type_value-parse_head}
use open_fido.Cbor.Decoder.Safety.{decode_bytes-parse_string}

-- A decoder over what `e'` has written, at the place where `e` stood.
abbrev pub reader : Encoder → Encoder → Decoder
reader e e' = record { buffer = written e'; buffer_size = e'.offset; offset = e.offset }

-- What was appended between the two contexts is what the reader has to read.
module _ (e e' : Encoder) (bytes : List ℕ) (v : IsValid e) (v' : IsValid e')
    (appended : written e' ≡ written e ++ bytes) where
  unread-reader : unread (reader e e') ≡ bytes
  unread-reader =
      let n : e.offset ≡ length (written e) = omega (arith, length-take e.offset e.buffer) in
      rw appended (
        subst (λ k. drop k (written e ++ bytes) ≡ bytes) (sym n)
          (drop-length-append (written e) bytes))

  reader-IsValid : IsValid (reader e e')
  reader-IsValid = omega (
    arith,
    length-take e.offset e.buffer,
    length-take e'.offset e'.buffer,
    ap length appended,
    length-append (written e) bytes,
  )

  reader-IsByte : All IsByte e.buffer → All IsByte bytes → All IsByte (written e')
  reader-IsByte b bs =
      rw appended (All-append IsByte (written e) bytes (All-take IsByte e.offset e.buffer b) bs)

-- The type that `cbor_decoder_get_type` sees at a head.
get_type-header :
    (d : Decoder) (major value : ℕ)
    → IsValid d
    → major < 8
    → unread d ≡ header major value
    → get_type d ≡ ok major
unfolding get_type header
get_type-header d major value v hm h =
    ground (arith, drop_all d.offset d.buffer, drop-get_or d.offset d.buffer 0)

-- A head that was written in full is read back by `cbor_decode_type_value`.
head_read_back :
    (e : Encoder) (major value : ℕ)
    → IsValid e
    → All IsByte e.buffer
    → major < 8
    → IsU64 value
    → (encode_type_value e major value).0 ≡ ok tt
    → let d = reader e (encode_type_value e major value).1 in
      (get_type d ≡ ok major) × (view (decode_type_value d major) ≡ ok (value, []))
head_read_back e major value v b hm hv r =
    let (v', _, code, text) = encode_type_value-Appends e major value v hm hv in
    let bytes = header major value in
    let appended : written (encode_type_value e major value).1 ≡ written e ++ bytes =
      ground arith in
    let d = reader e (encode_type_value e major value).1 in
    let rest = unread-reader e _ bytes v v' appended in
    let valid = reader-IsValid e _ bytes v v' appended in
    (
      get_type-header d major value valid hm rest,
      decode_type_value-parse_head d major valid
            (reader-IsByte e _ bytes v v' appended b (header-IsByte major value hm))
          ∙ rw (rest, ← append-nil bytes) (parse_head-header major value [] hm hv),
    )

view-map_result {ℓ κ} :
    {A : Type ℓ} {B : Type κ} (f : A → B) (r : Result A × Decoder) {a : A} {rest : List ℕ}
    → view r ≡ ok (a, rest)
    → view (map_result f r) ≡ ok (f a, rest)
view-map_result f (ok a, d) h = cc
view-map_result f (fail c, d) h = cc

-- Every `int64_t` that `cbor_encode_int` writes, `cbor_decode_int` reads back, with nothing left.
decode_int-encode_int :
    (e : Encoder) (stale : ℕ) (value : ℤ)
    → IsValid e
    → All IsByte e.buffer
    → IsI64 value
    → (encode_int e value).0 ≡ ok tt
    → view (decode_int stale (reader e (encode_int e value).1)) ≡ ok (value, [])
unfolding encode_int encode_uint decode_int decode_uint
decode_int-encode_int e stale (pos n) v b h r =
    let (type, value) = head_read_back e 0 n v b (omega arith) (omega arith) r in
    let small : to_i64 n ≡ pos n = unfold to_i64 in ground arith in
    rw (type, decode_int) (view-map_result to_i64 _ value ∙ rw small)
decode_int-encode_int e stale (negsuc n) v b h r =
    let (type, value) = head_read_back e 1 n v b (omega arith) (omega arith) r in
    let small : to_negative_i64 n ≡ negsuc n = unfold to_negative_i64 in ground arith in
    rw (type, decode_int) (view-map_result to_negative_i64 _ value ∙ rw small)

-- Every byte string that `cbor_encode_bytes` writes, `cbor_decode_bytes` reads back into a room
-- that is large enough.
decode_bytes-encode_bytes :
    (e : Encoder) (bytes : List ℕ) (room : ℕ)
    → IsValid e
    → All IsByte e.buffer
    → All IsByte bytes
    → length bytes < 2 ^ 31
    → length bytes ≤ room
    → room < size_mod
    → (encode_bytes e bytes).0 ≡ ok tt
    → view (decode_bytes room (reader e (encode_bytes e bytes).1)) ≡ ok (bytes, [])
unfolding encode_bytes
decode_bytes-encode_bytes e bytes room v b bs h hr hm r =
    let (v', _, _, text) = encode_string_lem e 2 bytes v (omega arith) h in
    let item = header 2 (length bytes) ++ bytes in
    let d = reader e (encode_string e 2 bytes).1 in
    let rest = unread-reader e _ item v v' (text r) in
    let all =
      All-append IsByte (header 2 (length bytes)) bytes (header-IsByte 2 _ (omega arith)) bs in
    decode_bytes-parse_string d room (reader-IsValid e _ item v v' (text r))
      (reader-IsByte e _ item v v' (text r) b all) hm
    ∙ rw rest (
        rw (append-nil bytes) at
          (parse_string-header 2 room bytes [] (omega arith) (omega arith) hr))
