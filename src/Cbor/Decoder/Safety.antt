-- ===== src/Cbor/Decoder/Safety.antt =====
-- Memory safety and error paths of the decoder of src/fido2/core/cbor.c, on any input.
use open_fido.Common.{
  ℕ, ◌+◌, ◌-◌, ◌≤◌, ◌<◌, ◌≡◌, arith, length, take, drop, leb, if◌then◌else◌, size_mod, ◌&&◌, All,
  IsByte, ◌⊎◌, ◌%◌, length-drop, drop-drop,
}
use open_fido.Cbor.Base.{Result, ok, fail, overflow, Decoder, IsValid, unread, invalid}
use open_fido.Cbor.Decoder.{
  take_bytes, decode_text, decode_int, decode_bytes, get_type, decode_uint, decode_type_value,
}
use open_fido.Cbor.Head.{parse_string, parse_head}
use open_fido.Cbor.Decoder.Parse.{
  view, Keeps, Keeps-IsValid, decode_type_value-Keeps, decode_type_value-parse_head,
}

-- A copy out of the buffer: exactly the bytes asked for where they are there and fit the room.
pub take_bytes-eq :
    (d : Decoder) (room n : ℕ)
    → IsValid d
    → room < size_mod
    → take_bytes room n d ≡ (
        if leb (d.offset + n) d.buffer_size && leb n room
        then (ok (take n (unread d)), record d { offset = d.offset + n })
        else (fail overflow, d))
unfolding take_bytes
take_bytes-eq d room n v h = ground arith

-- A head is parsed, then the copy: the two operations on strings, at any major type.
copy-parse_string :
    (d : Decoder) (major room : ℕ)
    → IsValid d
    → All IsByte d.buffer
    → room < size_mod
    → let (ret, d') = decode_type_value d major in
      view (elim ret [ ok n ↦ take_bytes room n d' | fail c ↦ (fail c, d') ])
      ≡ parse_string major room (unread d)
unfolding parse_string
copy-parse_string d major room v b h =
    let kept = decode_type_value-Keeps d major v b in
    let parsed = decode_type_value-parse_head d major v b in
    go (decode_type_value d major) kept parsed
  where
    go :
        (r : Result ℕ × Decoder)
        → Keeps d r.1
        → view r ≡ parse_head major (unread d)
        → view (elim r.0 [ ok n ↦ take_bytes room n r.1 | fail c ↦ (fail c, r.1) ])
          ≡ elim (parse_head major (unread d)) [
            | ok (n, rest) ↦
                if leb n (length rest) && leb n room
                then ok (take n rest, drop n rest)
                else fail overflow
            | fail c ↦ fail c
          ]
    go (ok n, d') k p = rw (← p) (
        ground (
          arith,
          take_bytes-eq d' room n (Keeps-IsValid v k) h,
          length-drop d'.offset d'.buffer,
          drop-drop n d'.offset d'.buffer,
        ))
    go (fail c, d') k p = rw (← p)

-- `cbor_decode_bytes` on any input: it hands out the string that stands at the offset, where all
-- of it is there and fits the room; otherwise it reports an error.
pub decode_bytes-parse_string :
    (d : Decoder) (room : ℕ)
    → IsValid d
    → All IsByte d.buffer
    → room < size_mod
    → view (decode_bytes room d) ≡ parse_string 2 room (unread d)
unfolding decode_bytes
decode_bytes-parse_string d room v b h = copy-parse_string d 2 room v b h

-- `cbor_decode_text` likewise, with one byte of the room left for the terminator. The room must
-- not be empty.
decode_text-parse_string :
    (d : Decoder) (room : ℕ)
    → IsValid d
    → All IsByte d.buffer
    → 1 ≤ room
    → room < size_mod
    → view (decode_text room d) ≡ parse_string 3 (room - 1) (unread d)
unfolding decode_text
decode_text-parse_string d room v b h1 h =
    let e : (room + size_mod - 1) % size_mod ≡ room - 1 = omega arith in
    rw (← e) (copy-parse_string d 3 ((room + size_mod - 1) % size_mod) v b (omega arith))

-- With an empty room `cbor_decode_text` takes a string of any length that the buffer holds.
decode_text_no_room :
    (d : Decoder)
    → IsValid d
    → All IsByte d.buffer
    → view (decode_text 0 d) ≡ parse_string 3 (size_mod - 1) (unread d)
unfolding decode_text
decode_text_no_room d v b = copy-parse_string d 3 (size_mod - 1) v b (omega arith)

-- At the end of the buffer `cbor_decode_int` reports an error and stays where it is, whatever
-- its uninitialised local holds.
decode_int_exhausted :
    (stale : ℕ) (d : Decoder)
    → d.buffer_size ≤ d.offset
    → ((decode_int stale d).0 ≡ fail overflow ⊎ (decode_int stale d).0 ≡ fail invalid)
      × ((decode_int stale d).1 ≡ d)
unfolding decode_int get_type decode_uint decode_type_value
decode_int_exhausted stale d h = ground arith
