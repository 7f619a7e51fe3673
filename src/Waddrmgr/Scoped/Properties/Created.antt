-- ===== src/Waddrmgr/Scoped/Properties/Created.antt =====
-- What `AccountProperties` (waddrmgr/scoped_manager.go) answers for an account that NewAccount made.
use btc_wallet.Base.{
  ℕ, ◌==◌, ◌||◌, ◌≡◌, ◌≢◌, ◌<◌, ◌^◌, ◌∙◌, refl, subst, inl, inr, Bool, Bool-cases, true, false,
  some, none, length, if◌then◌else◌, arith,
}
use btc_wallet.Errors.{text}
use btc_wallet.Go.{Result, ok, err}
use btc_wallet.Go.Bytes.{Bytes}
use btc_wallet.Btcd.{Btcd, BtcdLaws, Btcec}
use btc_wallet.Snacl.{Crypto}
use btc_wallet.Snacl.Box.{BoxLaws, IsNonce}
use btc_wallet.Walletdb.Bolt.{Bolt, BoltLaws, BucketPath}
use btc_wallet.Walletdb.Keeps.{bind_runs}
use btc_wallet.Waddrmgr.Rows.{KeyScope}
use btc_wallet.Waddrmgr.Keys.{imported_addr_account, is_default_scope, derive_account_key}
use btc_wallet.Waddrmgr.Manager.{Pointer, AccountInfo, ScopedKeyManager, Manager, find_scope}
use btc_wallet.Waddrmgr.Scoped.{next_account}
use btc_wallet.Waddrmgr.Store.Accounts.Ready.{IsReady}
use btc_wallet.Waddrmgr.Scoped.Load.{load_account_info}
use btc_wallet.Waddrmgr.Scoped.Load.Created.{loaded_account, loaded_account_made}
use btc_wallet.Waddrmgr.Scoped.Properties.{AccountProperties, held_properties, account_properties}
use btc_wallet.Waddrmgr.World.{World, get_manager, find_account}

or_right_false : (x : Bool) → (x || false) ≡ x
or_right_false true = refl
or_right_false false = refl

-- The properties of an account without addresses.
abbrev pub new_properties : (d : Btcd) → KeyScope → ℕ → Bytes → d.Key → Bool → AccountProperties d
new_properties d scope account name pub_key watching_only = record {
  account_number = account;
  account_name = name;
  external_key_count = 0;
  internal_key_count = 0;
  imported_key_count = 0;
  account_pub_key = some pub_key;
  master_key_fingerprint = 0;
  key_scope = scope;
  is_watch_only = watching_only;
  addr_schema = none;
}

module _ ⦃b : Bolt⦄ (c : Crypto) (d : Btcd) (e : Btcec d) (random : ℕ → ℕ → Result Bytes)
    (sha256 : Bytes → Bytes) (ns : BucketPath) (scope : KeyScope) where
  held_loaded :
      (account : ℕ) (w w' : World d) (name priv_enc : Bytes) (key pub_key : d.Key) (p : Pointer)
      → load_account_info c d e random sha256 (some ns) scope account w
        ≡ (ok (loaded_account d name priv_enc key pub_key p), w')
      → held_properties c d e random sha256 (some ns) scope account w ≡ (
        if is_default_scope scope
            then err (text 25)
            else ok (new_properties d scope account name pub_key w'.manager.watching_only),
        w',
      )
  unfolding held_properties get_manager
  held_loaded account w w' name priv_enc key pub_key p loaded =
      bind_runs (load_account_info c d e random sha256 (some ns) scope account) _ w w'
        (loaded_account d name priv_enc key pub_key p) loaded
      ∙ elim (Bool-cases (is_default_scope scope)) [
        | inl default ↦ rw default refl
        | inr other ↦ rw (other, or_right_false w'.manager.watching_only) refl
      ]

module _ ⦃b : Bolt⦄ (laws : BoltLaws b) (c : Crypto) (box_laws : BoxLaws c) (d : Btcd)
    (key_laws : BtcdLaws d) (e : Btcec d) (random : ℕ → ℕ → Result Bytes) (sha256 : Bytes → Bytes)
    (m : Manager d) (pub_nonce priv_nonce : Result Bytes) (pub_size : IsNonce c pub_nonce)
    (priv_size : IsNonce c priv_nonce) (ns : BucketPath) (scope : KeyScope) where
  -- After NewAccount has returned a number other than the one of imported addresses without an
  -- error, in a scope whose buckets are there, with a name shorter than 2^31 bytes, nonces of 24
  -- bytes, and keys and boxes that are read back, and where loadAccountInfo then returns the
  -- account without an error, by the same manager in a scope of its own that has no such account
  -- in memory, AccountProperties answers an error in a default scope, and in any other scope it
  -- returns the number, the name, no keys, the public key derived for that account, the
  -- fingerprint 0, no schema and whether the manager only watches.
  pub next_account-account_properties :
      (name : Bytes) (t t' : b.Tree) (n reads : ℕ) (s : ScopedKeyManager d) (w' : World d)
      (info : AccountInfo d)
      → IsReady ns scope t
      → length name < 2 ^ 31
      → next_account c d m pub_nonce priv_nonce (some ns) scope name t ≡ (ok n, t')
      → n ≢ imported_addr_account d
      → find_scope d scope m.scoped_managers ≡ some s
      → find_account n s.acct_info ≡ none
      → load_account_info c d e random sha256
          (some ns)
          scope
          n
          (record { manager = m; tree = t'; reads = reads })
        ≡ (ok info, w')
      → (coin_type_key key pub_key : d.Key) × (derive_account_key d coin_type_key n ≡ ok key)
        × (d.neuter key ≡ ok pub_key)
        × (account_properties c d e random sha256
              (some ns)
              scope
              n
              (record { manager = m; tree = t'; reads = reads })
            ≡ (
              if is_default_scope scope
                  then err (text 25)
                  else ok (new_properties d scope n name pub_key w'.manager.watching_only),
              w',
            ))
  unfolding account_properties
  next_account-account_properties name t t' n reads s w' info ready short created other scoped fresh
        loaded =
      let (coin_type_key, key, pub_key, derived, neutered, priv_enc, p, is) =
        loaded_account_made laws c box_laws d key_laws e random sha256 m pub_nonce priv_nonce
          pub_size priv_size ns scope name t t' n reads s w' info ready short created scoped fresh
          loaded in
      let not_imported : (n == imported_addr_account d) ≡ false = ground (arith, other) in
      (
        coin_type_key,
        key,
        pub_key,
        derived,
        neutered,
        rw not_imported (
            held_loaded c d e random sha256 ns scope n _ w' name priv_enc key pub_key p (
              subst
                (λ i.
                  load_account_info c d e random sha256 (some ns) scope n
                    (record { manager = m; tree = t'; reads = reads })
                  ≡ (ok i, w'))
                is loaded)),
      )
