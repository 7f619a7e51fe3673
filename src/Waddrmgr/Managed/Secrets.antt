-- ===== src/Waddrmgr/Managed/Secrets.antt =====
-- What `PrivKey` (waddrmgr/address_managed.go) returns.
use btc_wallet.Base.{
  ℕ, ◌≡◌, ◌≢◌, ◌∙◌, refl, ap, subst, Bool, true, false, ◌==◌, ◌&&◌, none, some, length, arith,
}
use btc_wallet.Errors.{manager, err_crypto, err_watching_only, err_locked}
use btc_wallet.Go.{Result, ok, fail_if}
use btc_wallet.Go.Bytes.{Bytes}
use btc_wallet.Btcd.{Btcd, Btcec}
use btc_wallet.Snacl.{Crypto, nonce_size}
use btc_wallet.Snacl.Box.{BoxLaws, IsNonce, encrypt, decrypt, encrypt-length, decrypt-encrypted}
use btc_wallet.Walletdb.Bolt.{Bolt}
use btc_wallet.Walletdb.Bdb.{Action, lift, pure, ◌>>=◌, ◌>>◌}
use btc_wallet.Walletdb.Keeps.{bind_then, pure_then}
use btc_wallet.Waddrmgr.Errors.{wrap}
use btc_wallet.Waddrmgr.Rows.{AddressType}
use btc_wallet.Waddrmgr.Store.Steps.{lift_then, wrap_result-ok}
use btc_wallet.Waddrmgr.Manager.{
  DerivationPath, Pointer, ManagedAddress, AddressObject, managed_address, AccountInfo, Manager,
}
use btc_wallet.Waddrmgr.Managed.{
  new_managed_address_without_priv_key, text_result, validate, rederived_if,
}
use btc_wallet.Waddrmgr.Managed.Create.{new_managed_address, text_error}
use btc_wallet.Waddrmgr.Managed.Unlock.{unlock_managed, priv_key_of, on_object}
use btc_wallet.Waddrmgr.World.{
  World, Managed, found_or_panic, get_manager, get_object, put_object, sealed, read_random,
  allocate,
}

module _ (c : Crypto) (d : Btcd) where
  unlock_managed_opens :
      (key enc priv : Bytes) (a : ManagedAddress d)
      → a.priv_key_encrypted ≡ some enc
      → length enc ≢ 0
      → decrypt c key enc ≡ ok priv
      → unlock_managed c d key (record a { priv_key_ct = none })
        ≡ (ok priv, record a { priv_key_ct = some priv })
  unfolding unlock_managed
  unlock_managed_opens key enc priv a stored filled opened = rw (stored, is_false, opened) refl
    where
      is_false : (length enc == 0) ≡ false
      is_false = ground (arith, filled)

module _ ⦃b : Bolt⦄ (c : Crypto) (d : Btcd) where
  on_object_runs :
      {A B : Type 0} (p : Pointer) (rebuild : A → AddressObject d) (f : Action A B) (a a' : A)
      (r : Result B) (w : World d)
      → f a ≡ (r, a')
      → (on_object c d p rebuild f a w).0 ≡ r
  unfolding put_object btc_wallet.Waddrmgr.World.modify
  on_object_runs p rebuild f a a' r w h = ap (λ x. x.0) h

module _ ⦃b : Bolt⦄ (c : Crypto) (box_laws : BoxLaws c) (d : Btcd) (e : Btcec d)
    (random : ℕ → ℕ → Result Bytes) where
  -- The private key of an address with a new key.
  pub record HasKey (w : World d) (priv : Bytes) (a : ManagedAddress d) : Type 0 where
    pub enc : Bytes
    pub stored : a.priv_key_encrypted ≡ some enc
    pub clear : a.priv_key_ct ≡ some priv
    pub opened : decrypt c w.manager.crypto_key_priv enc ≡ ok priv
    pub filled : length enc ≢ 0

  new_managed_address-HasKey :
      (path : DerivationPath) (priv_key : e.PrivateKey) (addr_type : AddressType)
      (info : AccountInfo d) (w w' : World d) (a : ManagedAddress d)
      → IsNonce c (random nonce_size w.reads)
      → new_managed_address d e c random path priv_key addr_type info w ≡ (ok a, w')
      → HasKey w (e.serialize priv_key) a
  unfolding new_managed_address get_manager sealed
  new_managed_address-HasKey path priv_key addr_type info w w' a nonce h =
      let priv = e.serialize priv_key in
      let (enc, sealed_is, h1) =
        bind_then (wrap err_crypto (sealed d c random w.manager.crypto_key_priv priv)) _ w h in
      let (pub_addr, made, h2) =
        lift_then
          (new_managed_address_without_priv_key d e path (e.pub_key_of priv_key) true addr_type) _ _
          h1 in
      let address : ManagedAddress d = record pub_addr {
        priv_key_encrypted = some enc;
        priv_key_ct = some priv;
      } in
      let (msg, drawn, h3) = bind_then (text_error d e 16 (read_random d random 32)) _ _ h2 in
      let (u, valid, h4) = lift_then (text_result 17 (validate d e address msg priv_key)) _ _ h3 in
      let (v, same, h5) = lift_then (rederived_if d e info.acct_key_priv info address msg) _ _ h4 in
      let encrypted =
        wrap_result-ok err_crypto
          (encrypt c (random nonce_size w.reads) w.manager.crypto_key_priv priv)
          (ap (λ x. x.0) sealed_is) in
      subst (HasKey w priv) (pure_then address a _ w' h5) (record {
        enc = enc;
        stored = refl;
        clear = refl;
        opened =
            decrypt-encrypted c box_laws (random nonce_size w.reads) w.manager.crypto_key_priv priv
              enc nonce encrypted;
        filled = λ empty. absurd (
            omega (
              arith,
              empty,
              encrypt-length c box_laws (random nonce_size w.reads) w.manager.crypto_key_priv priv
                  enc nonce encrypted,
            ));
      })

  priv_key_found :
      (priv : Bytes) (w u : World d) (a : ManagedAddress d) (p : Pointer)
      → HasKey w priv a
      → u.manager.watching_only ≡ false
      → u.manager.locked ≡ false
      → u.manager.crypto_key_priv ≡ w.manager.crypto_key_priv
      → (priv_key_of c d p (record a { priv_key_ct = none }) u).0 ≡ ok priv
  unfolding priv_key_of get_manager
  priv_key_found priv w u a p has writes free same =
      ap (λ x. x.0) (both_pass u.manager.watching_only u.manager.locked _ u.manager u writes free)
      ∙ on_object_runs c d p managed_address (unlock_managed c d u.manager.crypto_key_priv)
          (record a { priv_key_ct = none }) (record a { priv_key_ct = some priv }) (ok priv) u
          (unlock_managed_opens c d u.manager.crypto_key_priv has.enc priv a has.stored has.filled
            (ap (λ k. decrypt c k has.enc) same ∙ has.opened))
    where
      both_pass :
          (x y : Bool) (k : Manager d → Managed d Bytes) (m : Manager d) (w : World d)
          → x ≡ false
          → y ≡ false
          → ((lift (fail_if (true && x) (manager err_watching_only))
                  >> (lift (fail_if (true && y) (manager err_locked)) >> pure m))
                >>= k)
              w
            ≡ k m w
      both_pass x y k m w writes free = rw (writes, free) refl

  -- An address that newManagedAddress has made from a private key without an error, with a nonce
  -- of 24 bytes, holds the bytes of that key, and after they are wiped PrivKey returns them again,
  -- in every state in which the manager does not only watch, is not locked and has the same
  -- private crypto key.
  pub new_managed_address-priv_key_of :
      (path : DerivationPath) (priv_key : e.PrivateKey) (addr_type : AddressType)
      (info : AccountInfo d) (w w' u : World d) (a : ManagedAddress d) (p : Pointer)
      → IsNonce c (random nonce_size w.reads)
      → new_managed_address d e c random path priv_key addr_type info w ≡ (ok a, w')
      → u.manager.watching_only ≡ false
      → u.manager.locked ≡ false
      → u.manager.crypto_key_priv ≡ w.manager.crypto_key_priv
      → (a.priv_key_ct ≡ some (e.serialize priv_key))
        × ((priv_key_of c d p (record a { priv_key_ct = none }) u).0 ≡ ok (e.serialize priv_key))
  new_managed_address-priv_key_of path priv_key addr_type info w w' u a p nonce made writes free
        same =
      let has = new_managed_address-HasKey path priv_key addr_type info w w' a nonce made in
      (has.clear, priv_key_found (e.serialize priv_key) w u a p has writes free same)
