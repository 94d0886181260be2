-- ===== src/Cbor/Skip/Items.antt =====
-- Data items as trees, their bytes, and what `cbor_decoder_skip` does on them.
use open_fido.Common.{
  zero, ℕ, ◌+◌, List, suc, IsU64, length, ◌≡◌, ◌<◌, ◌++◌, All, ◌^◌, ◌/◌, some, IsByte, ◌*◌, ◌%◌,
  arith, ◌∷◌, drop_all, drop-get_or, [], ◌⊎◌, ◌∙◌, drop-cons, ◌≤◌, refl, append_assoc, length-drop,
  inl, inr, ap, length-append, sym, drop-drop, drop-length-append,
}
use open_fido.Cbor.Skip.{
  skip, Skipped, some, skip_by_type, pass_over, decode_type_value, skip_items, skip_counted,
}
use open_fido.Cbor.Head.{header, parse_head-header}
use open_fido.Cbor.Base.{Decoder, unread, IsValid, ok, Result, fail}
use Prim.Native.Nat.{max}
use open_fido.Cbor.Decoder.{decode_type_value, decode_map_start, decode_array_start}
use open_fido.Cbor.Decoder.Parse.{
  Keeps, view, Keeps-IsValid, decode_type_value-parse_head, decode_type_value-Keeps,
}

-- Data items without tags, floats and simple values that have a byte of their own. A map's keys and values
-- alternate in one list.
mutual
  pub data Item : Type 0 where
    uint : ℕ → Item
    nint : ℕ → Item
    byte_string : List ℕ → Item
    text_string : List ℕ → Item
    array : Items → Item
    map : Items → Item
    simple : ℕ → Item

  pub data Items : Type 0 where
    nil : Items
    cons : Item → Items → Items

unfoldable pub count : Items → ℕ
count nil = 0
count (cons x xs) = suc (count xs)

unfoldable mutual
  pub item_bytes : Item → List ℕ
  item_bytes (uint n) = header 0 n
  item_bytes (nint n) = header 1 n
  item_bytes (byte_string b) = header 2 (length b) ++ b
  item_bytes (text_string b) = header 3 (length b) ++ b
  item_bytes (array xs) = header 4 (count xs) ++ items_bytes xs
  item_bytes (map xs) = header 5 (count xs / 2) ++ items_bytes xs
  item_bytes (simple n) = (7 * 32 + n) ∷ []

  pub items_bytes : Items → List ℕ
  items_bytes nil = []
  items_bytes (cons x xs) = item_bytes x ++ items_bytes xs

-- How deep arrays and maps are nested.
unfoldable mutual
  pub depth : Item → ℕ
  depth (uint n) = 0
  depth (nint n) = 0
  depth (byte_string b) = 0
  depth (text_string b) = 0
  depth (array xs) = suc (items_depth xs)
  depth (map xs) = suc (items_depth xs)
  depth (simple n) = 0

  pub items_depth : Items → ℕ
  items_depth nil = 0
  items_depth (cons x xs) = max (depth x) (items_depth xs)

-- Arguments in range, and as many values as keys in a map.
unfoldable mutual
  pub IsItem : Item → Type 0
  IsItem (uint n) = IsU64 n
  IsItem (nint n) = IsU64 n
  IsItem (byte_string b) = length b < 2 ^ 31
  IsItem (text_string b) = length b < 2 ^ 31
  IsItem (array xs) = (count xs < 2 ^ 31) × AreItems xs
  IsItem (map xs) = (count xs < 2 ^ 31) × (count xs % 2 ≡ 0) × AreItems xs
  IsItem (simple n) = n < 24

  pub AreItems : Items → Type 0
  AreItems nil = Unit {0}
  AreItems (cons x xs) = IsItem x × AreItems xs

-- A decoder that can go on, with these bytes to read, in the same memory as `d`.
record Continues (d : Decoder) (rest : List ℕ) (d' : Decoder) : Type 0 where
  bytes : unread d' ≡ rest
  valid : IsValid d'
  memory : d'.buffer ≡ d.buffer

abbrev Skips : Decoder → List ℕ → Skipped → Type 0
Skips d rest s = (d' : Decoder) × (s ≡ some (ok tt, d')) × Continues d rest d'

-- A head at the decoder is read, and the bytes behind it are next.
read_head :
    (d : Decoder) (major value : ℕ) (rest : List ℕ)
    → IsValid d
    → All IsByte d.buffer
    → major < 8
    → IsU64 value
    → unread d ≡ header major value ++ rest
    → (d' : Decoder) × (decode_type_value d major ≡ (ok value, d')) × Continues d rest d'
read_head d major value rest v b hm hv e =
    let parsed : view (decode_type_value d major) ≡ ok (value, rest) =
      decode_type_value-parse_head d major v b ∙ rw e (parse_head-header major value rest hm hv) in
    go (decode_type_value d major) (decode_type_value-Keeps d major v b) parsed
  where
    go :
        (r : Result ℕ × Decoder)
        → Keeps d r.1
        → view r ≡ ok (value, rest)
        → (d' : Decoder) × (r ≡ (ok value, d')) × Continues d rest d'
    go (ok n, d') k p = (
      d',
      ground arith,
      record { bytes = ground arith; valid = Keeps-IsValid v k; memory = k.buffer },
    )
    go (fail c, d') k p = absurd (cc)

-- What `cbor_decoder_skip` sees of the head before it switches on its type.
skip_at_head :
    (fuel : ℕ) (d : Decoder) (major value : ℕ) (rest : List ℕ)
    → IsValid d
    → major < 8
    → unread d ≡ header major value ++ rest
    → skip (suc fuel) d ≡ skip_by_type (skip fuel) major d
unfolding skip header
skip_at_head fuel d major value rest v hm e =
    ground (arith, drop_all d.offset d.buffer, drop-get_or d.offset d.buffer 0)

skip_string :
    (d : Decoder) (major : ℕ) (b rest : List ℕ)
    → IsValid d
    → All IsByte d.buffer
    → major < 8
    → length b < 2 ^ 31
    → unread d ≡ (header major (length b) ++ b) ++ rest
    → Skips d rest (some (pass_over (decode_type_value d major)))
skip_string d major b rest v bs hm hb e =
    let (d', r, k) =
      read_head d major (length b) (b ++ rest) v bs hm (omega arith)
        (e ∙ append_assoc (header major (length b)) b rest) in
    let room : d'.offset + length b ≤ d'.buffer_size =
      omega (
        arith,
        length-drop d'.offset d'.buffer,
        ap length k.bytes,
        length-append b rest,
        k.valid,
      ) in
    (
      record d' { offset = d'.offset + length b },
      rw r (ground arith),
      record {
        bytes =
            sym (drop-drop (length b) d'.offset d'.buffer) ∙ rw k.bytes (drop-length-append b rest);
        valid = ground arith;
        memory = k.memory;
      },
    )

-- One item is skipped by the call that the loop makes for it.
abbrev SkipsItem : ℕ → Item → Type 0
SkipsItem f x =
    (d : Decoder) (rest : List ℕ)
    → IsValid d
    → All IsByte d.buffer
    → unread d ≡ item_bytes x ++ rest
    → Skips d rest (skip (suc f) d)

abbrev SkipsItems : ℕ → Items → Type 0
SkipsItems f xs =
    (d : Decoder) (rest : List ℕ)
    → IsValid d
    → All IsByte d.buffer
    → unread d ≡ items_bytes xs ++ rest
    → Skips d rest (skip_items (skip (suc f)) (count xs) d)

skips_cons :
    (f : ℕ) (x : Item) (xs : Items) → SkipsItem f x → SkipsItems f xs → SkipsItems f (cons x xs)
unfolding skip_items count items_bytes
skips_cons f x xs one more d rest v b e =
    let (d', r, k) =
      one d (items_bytes xs ++ rest) v b (e ∙ append_assoc (item_bytes x) (items_bytes xs) rest) in
    let (d'', r', k') = more d' rest k.valid (rw k.memory b) k.bytes in
    (
      d'',
      rw (r, skip_items) r',
      record { bytes = k'.bytes; valid = k'.valid; memory = k'.memory ∙ k.memory },
    )

Skips-number :
    (f major n : ℕ) (d : Decoder) (rest : List ℕ)
    → (major ≡ 0) ⊎ (major ≡ 1)
    → IsU64 n
    → IsValid d
    → All IsByte d.buffer
    → unread d ≡ header major n ++ rest
    → Skips d rest (skip (suc f) d)
unfolding skip_by_type
Skips-number f major n d rest m h v b e =
    let (d', r, k) = read_head d major n rest v b (omega arith) h e in
    (d', skip_at_head f d major n rest v (omega arith) e ∙ ground arith, k)

Skips-text :
    (f major : ℕ) (t : List ℕ) (d : Decoder) (rest : List ℕ)
    → (major ≡ 2) ⊎ (major ≡ 3)
    → length t < 2 ^ 31
    → IsValid d
    → All IsByte d.buffer
    → unread d ≡ (header major (length t) ++ t) ++ rest
    → Skips d rest (skip (suc f) d)
unfolding skip_by_type
Skips-text f major t d rest m h v b e =
    let (d', r, k) = skip_string d major t rest v b (omega arith) h e in
    (
      d',
      skip_at_head f d major (length t) (t ++ rest) v (omega arith)
            (e ∙ append_assoc (header major (length t)) t rest)
          ∙ ground arith,
      k,
    )

skips_array :
    (f : ℕ) (xs : Items) → count xs < 2 ^ 31 → SkipsItems f xs → SkipsItem (suc f) (array xs)
unfolding skip_by_type skip_counted decode_array_start item_bytes
skips_array f xs h more d rest v b e =
    let at = e ∙ append_assoc (header 4 (count xs)) (items_bytes xs) rest in
    let (d', r, k) =
      read_head d 4 (count xs) (items_bytes xs ++ rest) v b (omega arith) (omega arith) at in
    let (d'', r', k') = more d' rest k.valid (rw k.memory b) k.bytes in
    let whole : count xs % 2 ^ 32 ≡ count xs = omega arith in
    (
      d'',
      skip_at_head (suc f) d 4 (count xs) _ v (omega arith) at ∙ rw r (rw whole r'),
      record { bytes = k'.bytes; valid = k'.valid; memory = k'.memory ∙ k.memory },
    )

skips_map :
    (f : ℕ) (xs : Items)
    → count xs < 2 ^ 31
    → count xs % 2 ≡ 0
    → SkipsItems f xs
    → SkipsItem (suc f) (map xs)
unfolding skip_by_type skip_counted decode_map_start item_bytes
skips_map f xs h even more d rest v b e =
    let at = e ∙ append_assoc (header 5 (count xs / 2)) (items_bytes xs) rest in
    let (d', r, k) =
      read_head d 5 (count xs / 2) (items_bytes xs ++ rest) v b (omega arith) (omega arith) at in
    let (d'', r', k') = more d' rest k.valid (rw k.memory b) k.bytes in
    let whole : count xs / 2 % 2 ^ 32 * 2 % 2 ^ 32 ≡ count xs = omega arith in
    (
      d'',
      skip_at_head (suc f) d 5 (count xs / 2) _ v (omega arith) at ∙ rw r (rw whole r'),
      record { bytes = k'.bytes; valid = k'.valid; memory = k'.memory ∙ k.memory },
    )

skips_simple : (f n : ℕ) → n < 24 → SkipsItem f (simple n)
unfolding skip skip_by_type item_bytes
skips_simple f n h d rest v b e =
    let (byte, next, room) = drop-cons d.offset d.buffer (7 * 32 + n) 0 rest e in
    (
      record d { offset = d.offset + 1 },
      ground arith,
      record { bytes = next; valid = ground arith; memory = refl },
    )

mutual
  unfolding depth items_depth IsItem AreItems item_bytes items_bytes skip_items count

  skip_item : (x : Item) (f : ℕ) → IsItem x → depth x ≤ f → SkipsItem f x
  skip_item (uint n) f w h d rest v b e = Skips-number f 0 n d rest (inl refl) w v b e
  skip_item (nint n) f w h d rest v b e = Skips-number f 1 n d rest (inr refl) w v b e
  skip_item (byte_string t) f w h d rest v b e = Skips-text f 2 t d rest (inl refl) w v b e
  skip_item (text_string t) f w h d rest v b e = Skips-text f 3 t d rest (inr refl) w v b e
  skip_item (array xs) zero w h d rest v b e = absurd (omega arith)
  skip_item (array xs) (suc f) w h d rest v b e =
      skips_array f xs w.0 (skip_each xs f w.1 (omega arith)) d rest v b e
  skip_item (map xs) zero w h d rest v b e = absurd (omega arith)
  skip_item (map xs) (suc f) w h d rest v b e =
      skips_map f xs w.0 w.1 (skip_each xs f w.2 (omega arith)) d rest v b e
  skip_item (simple n) f w h d rest v b e = skips_simple f n w d rest v b e

  skip_each : (xs : Items) (f : ℕ) → AreItems xs → items_depth xs ≤ f → SkipsItems f xs
  skip_each nil f w h d rest v b e = (d, refl, record { bytes = e; valid = v; memory = refl })
  skip_each (cons x xs) f w h d rest v b e =
      skips_cons f x xs (skip_item x f w.0 (omega arith)) (skip_each xs f w.1 (omega arith)) d rest
        v b e

-- In a valid decoder `cbor_decoder_skip` passes over exactly one item of these kinds, whatever bytes
-- follow it: an integer, a string of fewer than 2^31 bytes, a simple value below 24, or an array or
-- a map of fewer than 2^31 such items, keys and values counted each; all heads are the shortest. A
-- fuel above the depth of the nesting is enough. Tags, floats and simple values with a byte of their
-- own are no such items.
pub skip-item_bytes :
    (x : Item) (fuel : ℕ) (d : Decoder) (rest : List ℕ)
    → IsItem x
    → depth x < fuel
    → IsValid d
    → All IsByte d.buffer
    → unread d ≡ item_bytes x ++ rest
    → (d' : Decoder) × (skip fuel d ≡ some (ok tt, d'))
      × (unread d' ≡ rest)
      × IsValid d'
      × (d'.buffer ≡ d.buffer)
skip-item_bytes x zero d rest w h v b e = absurd (omega arith)
skip-item_bytes x (suc f) d rest w h v b e =
    let (d', r, k) = skip_item x f w (omega arith) d rest v b e in
    (d', r, k.bytes, k.valid, k.memory)
