-- ===== src/Storage/CredentialRoundTrip.antt =====
-- The bytes of a credential that src/storage/storage.c encrypts, and what it reads from them.
use open_fido.Common.{
  ℕ, ◌+◌, ◌≤◌, ◌≡◌, false, List, ◌∷◌, ◌++◌, length, take, drop, some, arith, refl, sym,
  take-length-append, get_or, drop-length-append, get_or-drop, drop-drop, ◌∙◌, ap, ◌%◌, ltb,
  append_assoc,
}
use open_fido.Storage.Credentials.{deserialize, serialize, Credential, deserialize_at}

take_front : (xs ys : List ℕ) (n : ℕ) → length xs ≡ n → take n (xs ++ ys) ≡ xs
take_front xs ys n e = rw (← e) (take-length-append xs ys)

drop_front : (xs ys : List ℕ) (n : ℕ) → length xs ≡ n → drop n (xs ++ ys) ≡ ys
drop_front xs ys n e = rw (← e) (drop-length-append xs ys)

get_or-drop_zero : (n x : ℕ) (xs r : List ℕ) → drop n xs ≡ x ∷ r → get_or xs n 0 ≡ x
get_or-drop_zero n x xs r e =
    let h : get_or (drop n xs) 0 0 ≡ get_or xs (n + 0) 0 = get_or-drop n 0 xs 0 in
    let z : n + 0 ≡ n = omega arith in
    sym (ap (λ k. get_or xs k 0) z) ∙ sym h ∙ ap (λ l. get_or l 0 0) e

-- The parts of a text whose lengths are known.
layout :
    (r u k t : List ℕ) (x y a b d : ℕ)
    → length r ≡ a
    → length u ≡ b
    → length k ≡ d
    → let text = r ++ (u ++ x ∷ (k ++ y ∷ t)) in
      (take a text ≡ r)
      × (take b (drop a text) ≡ u)
      × (get_or text (a + b) 0 ≡ x)
      × (take d (drop (a + (b + 1)) text) ≡ k)
      × (get_or text (a + (b + 1) + d) 0 ≡ y)
layout r u k t x y a b d ha hb hd =
    let text = r ++ (u ++ x ∷ (k ++ y ∷ t)) in
    let from_u : drop a text ≡ u ++ x ∷ (k ++ y ∷ t) = drop_front r _ a ha in
    let from_x : drop (a + b) text ≡ x ∷ (k ++ y ∷ t) =
      sym (drop-drop b a text) ∙ ap (drop b) from_u ∙ drop_front u _ b hb in
    let one : a + (b + 1) ≡ a + b + 1 = omega arith in
    let from_k : drop (a + (b + 1)) text ≡ k ++ y ∷ t =
      rw one (sym (drop-drop 1 (a + b) text) ∙ ap (drop 1) from_x) in
    let from_y : drop (a + (b + 1) + d) text ≡ y ∷ t =
      sym (drop-drop d (a + (b + 1)) text) ∙ ap (drop d) from_k ∙ drop_front k _ d hd in
    (
      take_front r _ a ha,
      ap (take b) from_u ∙ take_front u _ b hb,
      get_or-drop_zero (a + b) x text _ from_x,
      ap (take d) from_k ∙ take_front k _ d hd,
      get_or-drop_zero (a + (b + 1) + d) y text _ from_y,
    )

deserialize_at_parts :
    (old : Credential) (text : List ℕ) (len : ℕ)
    → len ≤ 64
    → get_or text (32 + (len + 1) + 32) 0 ≡ 0
    → deserialize_at old text len
      ≡ some (record old {
        rp_id_hash = take 32 text;
        user_id = take len (drop 32 text);
        private_key = take 32 (drop (32 + (len + 1)) text);
        resident = false;
      })
unfolding deserialize_at
deserialize_at_parts old text len l f =
    let in_range : ltb 64 len ≡ false = ground arith in rw (f, in_range) refl

-- A credential without names whose user id has 64 bytes, and whose RP hash and key have 32 each, is
-- read back from its bytes, whatever follows them: they give the caller's structure its RP, its
-- user, its key and its flag, and leave its other fields.
pub deserialize-serialize :
    (old c : Credential) (rest : List ℕ)
    → c.resident ≡ false
    → length c.rp_id_hash ≡ 32
    → length c.user_id ≡ 64
    → length c.private_key ≡ 32
    → deserialize old (serialize c ++ rest)
      ≡ some (record old {
        rp_id_hash = c.rp_id_hash;
        user_id = c.user_id;
        private_key = c.private_key;
        resident = false;
      })
deserialize-serialize old c rest n r u k =
    let x = length c.user_id % 256 in
    let whole : serialize c ++ rest
        ≡ c.rp_id_hash ++ (c.user_id ++ x ∷ (c.private_key ++ 0 ∷ rest)) =
      unfold serialize in rw n (simp (append_assoc)) in
    let (hash, user, len, key, flag) =
      layout c.rp_id_hash c.user_id c.private_key rest x 0 32 64 32 r u k in
    let text = c.rp_id_hash ++ (c.user_id ++ x ∷ (c.private_key ++ 0 ∷ rest)) in
    let size : x ≡ 64 = omega arith in
    let read : deserialize old text ≡ deserialize_at old text 64 =
      unfold deserialize in ap (deserialize_at old text) (len ∙ size) in
    rw whole
      (read ∙ deserialize_at_parts old text 64 (omega arith) flag ∙ rw (hash, user, key) refl)
