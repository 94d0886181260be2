-- ===== src/Ccid/Apdu.antt =====
-- Command APDUs (ISO 7816-4, short form) as bytes, and what `parse_apdu` of src/usb/usb_ccid.c
-- reads from them.
use open_fido.Common.{
  ℕ, ◌+◌, ◌≤◌, ◌≡◌, ◌≢◌, List, [], ◌∷◌, ◌++◌, length, take, Option, none, some, arith, refl,
  append-nil, take-length-append, length-append, get_or-append,
}
use open_fido.Ccid.{parse_apdu, Command, copy_into}
use open_fido.Common.Memory.{take-copy_into, copy_into}

abbrev pub le_bytes : Option ℕ → List ℕ
le_bytes none = []
le_bytes (some le) = le ∷ []

-- The APDU's bytes: the four cases, by whether there are data and whether a response is expected.
abbrev pub body_bytes : List ℕ → Option ℕ → List ℕ
body_bytes [] le = le_bytes le
body_bytes (b ∷ content) le = length (b ∷ content) ∷ ((b ∷ content) ++ le_bytes le)

abbrev pub apdu_bytes : ℕ → ℕ → ℕ → ℕ → List ℕ → Option ℕ → List ℕ
apdu_bytes cla ins p1 p2 content le = cla ∷ ins ∷ p1 ∷ p2 ∷ body_bytes content le

abbrev le_or_zero : Option ℕ → ℕ
le_or_zero none = 0
le_or_zero (some le) = le

-- The command that the bytes stand for.
pub record Reads (cmd : Command) (cla ins p1 p2 : ℕ) (content : List ℕ) (le : Option ℕ)
    : Type 0 where
  pub is_cla : cmd.cla ≡ cla
  pub is_ins : cmd.ins ≡ ins
  pub is_p1 : cmd.p1 ≡ p1
  pub is_p2 : cmd.p2 ≡ p2
  pub is_lc : cmd.lc ≡ length content
  pub is_content : take cmd.lc cmd.bytes ≡ content
  pub is_le : cmd.le ≡ le_or_zero le

module _ (stack : List ℕ) (cla ins p1 p2 : ℕ) where
  abbrev parsed : List ℕ → Option ℕ → Command
  parsed content le = record {
    cla = cla;
    ins = ins;
    p1 = p1;
    p2 = p2;
    lc = length content;
    bytes = copy_into stack 0 content;
    le = le_or_zero le;
  }

  parse_apdu-parsed :
      (content : List ℕ) (le : Option ℕ)
      → let bytes = apdu_bytes cla ins p1 p2 content le in
        parse_apdu stack bytes (length bytes) ≡ some (some (parsed content le))
  unfolding parse_apdu
  parse_apdu-parsed [] none = unfold copy_into in refl
  parse_apdu-parsed [] (some le) = unfold copy_into in refl
  parse_apdu-parsed (b ∷ content) none =
      ground (arith, append-nil content, take-length-append (b ∷ content) [])
  parse_apdu-parsed (b ∷ content) (some le) = ground (
    arith,
    length-append (b ∷ content) (le ∷ []),
    take-length-append (b ∷ content) (le ∷ []),
    get_or-append (b ∷ content) (le ∷ []) 0,
  )

  -- Parsing the bytes of an APDU of up to 255 bytes of data gives its four header bytes, its data
  -- and its expected length back, in each of the four cases.
  pub parse_apdu-apdu_bytes :
      (content : List ℕ) (le : Option ℕ)
      → length stack ≡ 255
      → length content ≤ 255
      → let bytes = apdu_bytes cla ins p1 p2 content le in
        (cmd : Command) × (parse_apdu stack bytes (length bytes) ≡ some (some cmd))
        × Reads cmd cla ins p1 p2 content le
  parse_apdu-apdu_bytes content le s l = (
    parsed content le,
    parse_apdu-parsed content le,
    record {
      is_cla = refl;
      is_ins = refl;
      is_p1 = refl;
      is_p2 = refl;
      is_lc = refl;
      is_content =
          let e : 0 + length content ≡ length content = omega arith in
          rw e at (take-copy_into content stack 0 (omega arith));
      is_le = refl;
    },
  )

-- A length within the message is never read past.
pub parse_apdu-ne-none :
    (stack bytes : List ℕ) (len : ℕ) → len ≤ length bytes → parse_apdu stack bytes len ≢ none
unfolding parse_apdu
parse_apdu-ne-none stack bytes len l = ground arith
