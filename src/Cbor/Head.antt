-- ===== src/Cbor/Head.antt =====
-- The head of a CBOR item (RFC 8949, section 3) as a list of bytes, and a parser of it on lists.
use open_fido.Common.{
  ℕ, zero, suc, ◌+◌, ◌*◌, ◌/◌, ◌%◌, ◌^◌, ◌≤◌, ◌<◌, ◌≡◌, arith, List, [], ◌∷◌, ◌++◌, length,
  be_bytes, ltb, leb, ◌==◌, if◌then◌else◌, IsU64, ◌&&◌, length-append, take-length-append, take,
  drop-length-append, drop, All, IsByte,
}
use open_fido.Cbor.Base.{Result, ok, fail, overflow, invalid}

-- The shortest head with this major type and argument.
unfoldable pub header : ℕ → ℕ → List ℕ
header major v =
    if ltb v 24
    then (major * 32 + v) ∷ []
    else if leb v 0xff
    then (major * 32 + 24) ∷ be_bytes 1 v
    else if leb v 0xffff
    then (major * 32 + 25) ∷ be_bytes 2 v
    else if leb v 0xffff_ffff
    then (major * 32 + 26) ∷ be_bytes 4 v
    else (major * 32 + 27) ∷ be_bytes 8 v

-- `n` bytes as a number, behind the digits `acc`.
unfoldable pub parse_be : ℕ → ℕ → List ℕ → Result (ℕ × List ℕ)
parse_be zero acc bytes = ok (acc, bytes)
parse_be (suc n) acc [] = fail overflow
parse_be (suc n) acc (b ∷ bytes) = parse_be n (acc * 256 + b) bytes

unfoldable pub parse_argument : ℕ → List ℕ → Result (ℕ × List ℕ)
parse_argument info bytes =
    if ltb info 24
    then ok (info, bytes)
    else if info == 24
    then parse_be 1 0 bytes
    else if info == 25
    then parse_be 2 0 bytes
    else if info == 26
    then parse_be 4 0 bytes
    else if info == 27
    then parse_be 8 0 bytes
    else fail invalid

-- A head of major type `major`: its argument, and the bytes behind it.
unfoldable pub parse_head : ℕ → List ℕ → Result (ℕ × List ℕ)
parse_head major [] = fail overflow
parse_head major (b ∷ bytes) =
    if b / 32 == major then parse_argument (b % 32) bytes else fail invalid

-- A string of major type `major` and at most `room` bytes, and the bytes behind it.
unfoldable pub parse_string : ℕ → ℕ → List ℕ → Result (List ℕ × List ℕ)
parse_string major room bytes = elim (parse_head major bytes) [
  | ok (n, rest) ↦
      if leb n (length rest) && leb n room then ok (take n rest, drop n rest) else fail overflow
  | fail c ↦ fail c
]

-- Reading back the bytes of a number, at each width that a head can have.
parse_be_1 :
    (v : ℕ) (rest : List ℕ) → v < 2 ^ 8 → parse_be 1 0 (be_bytes 1 v ++ rest) ≡ ok (v, rest)
unfolding parse_be
parse_be_1 v rest h = ground arith

parse_be_2 :
    (v : ℕ) (rest : List ℕ) → v < 2 ^ 16 → parse_be 2 0 (be_bytes 2 v ++ rest) ≡ ok (v, rest)
unfolding parse_be
parse_be_2 v rest h = ground arith

parse_be_4 :
    (v : ℕ) (rest : List ℕ) → v < 2 ^ 32 → parse_be 4 0 (be_bytes 4 v ++ rest) ≡ ok (v, rest)
unfolding parse_be
parse_be_4 v rest h = ground arith

parse_be_8 :
    (v : ℕ) (rest : List ℕ) → v < 2 ^ 64 → parse_be 8 0 (be_bytes 8 v ++ rest) ≡ ok (v, rest)
unfolding parse_be
parse_be_8 v rest h = ground arith

-- Parsing the shortest head gives its argument back, whatever follows.
pub parse_head-header :
    (major v : ℕ) (rest : List ℕ)
    → major < 8
    → IsU64 v
    → parse_head major (header major v ++ rest) ≡ ok (v, rest)
unfolding parse_head parse_argument header
parse_head-header major v rest hm hv =
    ground (arith, parse_be_1 v rest, parse_be_2 v rest, parse_be_4 v rest, parse_be_8 v rest)

-- Parsing a string that fits gives its bytes back, whatever follows.
pub parse_string-header :
    (major room : ℕ) (bytes rest : List ℕ)
    → major < 8
    → IsU64 (length bytes)
    → length bytes ≤ room
    → parse_string major room (header major (length bytes) ++ (bytes ++ rest)) ≡ ok (bytes, rest)
unfolding parse_string
parse_string-header major room bytes rest hm hv hr = ground (
  arith,
  parse_head-header major (length bytes) (bytes ++ rest) hm hv,
  length-append bytes rest,
  take-length-append bytes rest,
  drop-length-append bytes rest,
)

pub header-IsByte : (major v : ℕ) → major < 8 → All IsByte (header major v)
unfolding header
header-IsByte major v h = ground arith
