-- ===== src/Waddrmgr/Manager/Create/Unlocked.antt =====
-- A manager that has been created and opened is unlocked with its private passphrase.
use btc_wallet.Base.{
  ℕ, ◌≡◌, ◌∙◌, refl, sym, ap, subst, Bool, true, false, not, ◌==◌, Option, some, List, [], ◌∷◌,
  length, drop, length-replicate, if◌then◌else◌, arith,
}
use btc_wallet.Go.{Result, ok, err, panic}
use btc_wallet.Go.Bytes.{Bytes}
use btc_wallet.Go.Endian.{uint32}
use btc_wallet.Btcd.{Btcd, Btcec}
use btc_wallet.Snacl.{Crypto, SecretKey, key_size}
use btc_wallet.Snacl.Derive.{CryptoLaws, derive_key}
use btc_wallet.Snacl.Box.{BoxLaws, IsNonce}
use btc_wallet.Walletdb.Bolt.{Bolt, BoltLaws, BucketPath}
use btc_wallet.Walletdb.Bdb.{Handle, nested_bucket, keys_of}
use btc_wallet.Walletdb.Keeps.{Keeps, Keeps-pure, Keeps-Any, Keeps-if, Keeps-bind, Keeps-lift_then}
use btc_wallet.Waddrmgr.Rows.{KeyScope, ScopeAddrSchema}
use btc_wallet.Waddrmgr.Keys.{scope_eq}
use btc_wallet.Waddrmgr.Store
use btc_wallet.Waddrmgr.Store.Params.{fetch_scope_addr_schema}
use btc_wallet.Waddrmgr.Manager.{ScopedKeyManager, Manager}
use btc_wallet.Waddrmgr.Manager.Create.{
  Draw, pub_salt, crypto_pub_bytes, crypto_pub_nonce, crypto_priv_bytes, crypto_priv_nonce,
  priv_salt, ScryptOptions, or_default, create,
}
use btc_wallet.Waddrmgr.Manager.Create.Steps.{IsOptions, Fills}
use btc_wallet.Waddrmgr.Manager.Create.Opened.{create-Opens}
use btc_wallet.Waddrmgr.Manager.Open.{
  derived, with_passphrase, open_manager, Scopes, new_scoped, set_scope, load_scopes,
  for_each_key_scope,
}
use btc_wallet.Waddrmgr.Manager.Unlock.{unlock}
use btc_wallet.Waddrmgr.Manager.Unlock.Idle.{IsIdle, AllIdle, unlocked_world, unlock_idle}
use btc_wallet.Waddrmgr.World.{World}

module _ ⦃b : Bolt⦄ {d : Btcd} where
  set_scope-AllIdle :
      (scope : KeyScope) (s : ScopedKeyManager d) (scopes : Scopes d)
      → IsIdle s
      → AllIdle scopes
      → AllIdle (set_scope d scope s scopes)
  set_scope-AllIdle scope s [] idle a = (idle, tt)
  set_scope-AllIdle scope s ((k, v) ∷ rest) idle (i, is) =
      set_or_keep (scope_eq k scope) (set_scope-AllIdle scope s rest idle is)
    where
      set_or_keep :
          (x : Bool)
          → AllIdle (set_scope d scope s rest)
          → AllIdle (if x then (k, s) ∷ rest else (k, v) ∷ set_scope d scope s rest)
      set_or_keep true below = (idle, is)
      set_or_keep false below = (i, below)

module _ ⦃b : Bolt⦄ (d : Btcd) where
  load_scopes-AllIdle :
      (ns : Handle) (ks : List Bytes) (scopes : Scopes d)
      → AllIdle scopes
      → Keeps (λ t. Unit {0}) (load_scopes d ns ks scopes) AllIdle
  unfolding load_scopes
  load_scopes-AllIdle ns [] scopes a = Keeps-pure scopes a
  load_scopes-AllIdle ns (k ∷ ks) scopes a =
      Keeps-if (not (length k == 8)) (load_scopes d ns ks scopes) _
        (load_scopes-AllIdle ns ks scopes a)
        (Keeps-lift_then (uint32 k) _ λ purpose. Keeps-lift_then (uint32 (drop 4 k)) _ λ coin.
          let scope : KeyScope = record { purpose = purpose; coin = coin } in
          Keeps-bind (fetch_scope_addr_schema ns scope) _ (Keeps-Any _) λ schema u.
            load_scopes-AllIdle ns ks (set_scope d scope (new_scoped d scope schema) scopes) (
              set_scope-AllIdle scope (new_scoped d scope schema) scopes
                (record { no_accounts = refl; none_waiting = refl }) a))

  for_each_key_scope-Keeps : (ns : Handle) → Keeps (λ t. Unit {0}) (for_each_key_scope d ns) AllIdle
  unfolding for_each_key_scope
  for_each_key_scope-Keeps ns =
      Keeps-bind (nested_bucket ns Store.Name.scope) _ (Keeps-Any _) λ bucket u.
        Keeps-bind (keys_of bucket) _ (Keeps-Any _) λ keys v. load_scopes-AllIdle ns keys [] tt

  -- The scopes of a manager that opening returns have nothing in memory.
  for_each_key_scope-AllIdle :
      (ns : Handle) (t t' : b.Tree) (scopes : Scopes d)
      → for_each_key_scope d ns t ≡ (ok scopes, t')
      → AllIdle scopes
  for_each_key_scope-AllIdle ns t t' scopes listed =
      ((for_each_key_scope-Keeps ns).run t tt).1 scopes (ap (λ r. r.0) listed)

derived_then :
    (r : Result (Unit {0})) (sk sk' : SecretKey)
    → derived r sk ≡ ok sk'
    → ◌≡◌ {A = Result (Unit {0}) × SecretKey} (r, sk) (ok tt, sk')
derived_then (ok u) sk sk' h = ap (λ k. (ok tt, k)) (ground arith)
derived_then (err e) sk sk' h = absurd (ground arith)
derived_then panic sk sk' h = absurd (ground arith)

with_passphrase_derives :
    (c : Crypto) (passphrase : Bytes) (sk0 sk : SecretKey)
    → with_passphrase c passphrase sk0 ≡ ok sk
    → derive_key c passphrase sk0 ≡ (ok tt, sk)
unfolding with_passphrase
with_passphrase_derives c passphrase sk0 sk h =
    derived_then (derive_key c passphrase sk0).0 (derive_key c passphrase sk0).1 sk h

module _ ⦃b : Bolt⦄ (laws : BoltLaws b) (c : Crypto) (crypto_laws : CryptoLaws c)
    (box_laws : BoxLaws c) (d : Btcd) (e : Btcec d) (draw : Draw → Result Bytes) (ns : BucketPath)
    (pub_filled : Fills 32 (draw pub_salt)) (priv_filled : Fills 32 (draw priv_salt))
    (key_filled : Fills 32 (draw crypto_pub_bytes))
    (priv_key_filled : Fills 32 (draw crypto_priv_bytes))
    (nonce : IsNonce c (draw crypto_pub_nonce)) (priv_nonce : IsNonce c (draw crypto_priv_nonce))
    (random : ℕ → ℕ → Result Bytes) (sha256 sha512 : Bytes → Bytes) where
  -- What creating, opening and unlocking a manager that has a root key comes to.
  pub record Unlockable (m : Manager d) (tree : b.Tree) (passphrase : Bytes) : Type 0 where
    pub after : World d
    pub unlocks :
        unlock c d e random sha256 sha512
          (some ns)
          passphrase
          (record { manager = m; tree = tree; reads = 0 })
        ≡ (ok tt, after)
    pub not_locked : after.manager.locked ≡ false
    pub crypto_key : draw crypto_priv_bytes ≡ ok after.manager.crypto_key_priv
    pub same_tree : after.tree ≡ tree

  -- A database in which Create has returned no error for a root key, where the drawn salts and
  -- crypto keys have 32 bytes, the nonces that encrypt the public and the private crypto key have
  -- 24, the options of scrypt fit in 64 bits and the listing of the scopes returns no error, is
  -- opened by Open with the public passphrase, and Unlock of the manager that Open returns, with
  -- the private passphrase, returns nil: the manager is not locked then, holds the private crypto
  -- key that Create has drawn, and the database is as it was.
  pub create_unlocks :
      (create_date : ℕ) (visited : List (KeyScope × ScopeAddrSchema)) (root : d.Key)
      (pub_passphrase priv_passphrase : Bytes) (config : Option ScryptOptions) (birthday : ℕ)
      (t t' : b.Tree) (salt : Bytes) (scopes : Scopes d)
      → IsOptions (or_default config)
      → create c d draw create_date visited
          (some ns)
          (some root)
          pub_passphrase
          priv_passphrase
          config
          birthday
          t
        ≡ (ok tt, t')
      → for_each_key_scope d (some ns) t' ≡ (ok scopes, t')
      → (m : Manager d) × (open_manager c d (ok salt) (some ns) pub_passphrase t' ≡ (ok m, t'))
        × Unlockable m t' priv_passphrase
  create_unlocks create_date visited root pub_passphrase priv_passphrase config birthday t t' salt
        scopes sized created listed =
      let opens =
        create-Opens laws c crypto_laws box_laws d draw ns pub_filled priv_filled key_filled nonce
          priv_nonce create_date visited (some root) pub_passphrase priv_passphrase config birthday
          t t' sized created (ok salt) salt scopes refl listed in
      let (sk, derived, enc, stored, key, drawn, decrypted) = opens.unlocks in
      let before : World d = record { manager = opens.m; tree = t'; reads = 0 } in
      (
        opens.m,
        opens.opened,
        record {
          after = unlocked_world c d e random sha256 sha512 ns priv_passphrase before sk enc key;
          unlocks =
              unlock_idle c d e random sha256 sha512 ns priv_passphrase before sk enc key
                opens.flags.0 opens.flags.1
                (subst AllIdle (sym opens.scoped)
                  (for_each_key_scope-AllIdle d (some ns) t' t' scopes listed))
                (with_passphrase_derives c priv_passphrase _ sk derived) stored decrypted
                (ap length opens.blank
                  ∙ length-replicate {A = ℕ} key_size 0
                  ∙ sym (priv_key_filled key drawn));
          not_locked = refl;
          crypto_key = drawn;
          same_tree = refl;
        },
      )
