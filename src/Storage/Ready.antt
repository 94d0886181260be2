-- ===== src/Storage/Ready.antt =====
-- What src/storage/storage.c gives only when it is initialized, and the counter then.
use open_fido.Common.{ℕ, List, Option, some, none, true, ◌≡◌, ◌+◌, ◌%◌, ◌^◌, arith, ◌∷◌}
use open_fido.Storage.Base.{State, Platform, ok}
use open_fido.Storage.Device.{get_and_increment_counter}
use open_fido.Storage.Credentials.{Cipher, Credential, find_credential, find_credentials_by_rp}

module _ {W : Type 0} (p : Platform W) where
  pub counter_drawn :
      (s : State) (w : W)
      → s.initialized ≡ true
      → ((get_and_increment_counter p s w).0.1 ≡ some s.global_counter)
        × ((get_and_increment_counter p s w).1.global_counter ≡ (s.global_counter + 1) % 2 ^ 32)
  unfolding get_and_increment_counter
  counter_drawn s w ready = (ground (arith, ready), ground (arith, ready))

module _ {W : Type 0} (p : Platform W) (cipher : Cipher) where
  pub find_credential-initialized :
      (s : State) (id : Option (List ℕ)) (old c : Credential) (w : W)
      → find_credential p cipher s id old w ≡ some (ok, c)
      → s.initialized ≡ true
  unfolding find_credential
  find_credential-initialized s none old c w e = absurd (ground (arith, e))
  find_credential-initialized s (some id) old c w e = ground (arith, e)

  pub find_credentials_by_rp-initialized :
      (s : State) (hash : List ℕ) (olds cs : List Credential) (c : Credential) (w : W)
      → find_credentials_by_rp p cipher s (some hash) olds w ≡ some (ok, c ∷ cs)
      → s.initialized ≡ true
  unfolding find_credentials_by_rp
  find_credentials_by_rp-initialized s hash olds cs c w e = ground (arith, e)
