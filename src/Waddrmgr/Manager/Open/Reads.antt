-- ===== src/Waddrmgr/Manager/Open/Reads.antt =====
-- What opening reads of the fixed entries, and what it comes down to where they are there.
use btc_wallet.Base.{ℕ, ◌≡◌, refl, Bool, true, false, some, [], ◌∷◌, arith, if◌then◌else◌}
use mathlib.Core.List.{reverse}
use btc_wallet.Errors.{Error, wrapped, err_wrong_passphrase}
use btc_wallet.Go.{Result, ok, err}
use btc_wallet.Go.Bytes.{Bytes, make_bytes, byte_at}
use btc_wallet.Go.Endian.{le_bytes, le_value, uint32-le_bytes, uint64_be}
use btc_wallet.Btcd.{Btcd}
use btc_wallet.Snacl.{Crypto, SecretKey, key_size}
use btc_wallet.Snacl.Box.{decrypt}
use btc_wallet.Snacl.Derive.{copy_over}
use btc_wallet.Walletdb.Bolt.{Bolt, BucketPath}
use btc_wallet.Walletdb.Bdb.{get, nested_bucket}
use btc_wallet.Waddrmgr.Rows.{uint32_to_bytes}
use btc_wallet.Waddrmgr.Manager.Create.{manager_exists}
use btc_wallet.Waddrmgr.Manager.Open.{
  Scopes, unmarshalled, unmarshalled_unless, with_passphrase, for_each_key_scope, new_manager,
  load_manager, open_manager,
}
use btc_wallet.Waddrmgr.Store
use btc_wallet.Waddrmgr.Store.Namespace.{latest_mgr_version}
use btc_wallet.Waddrmgr.Store.Params.{
  fetch_manager_version, fetch_watching_only, fetch_master_key_params, fetch_crypto_keys,
  fetch_birthday,
}

module _ ⦃b : Bolt⦄ (ns : BucketPath) where
  abbrev pub main_path : BucketPath
  main_path = Store.Name.main ∷ ns

  abbrev pub sync_path : BucketPath
  sync_path = Store.Name.sync ∷ ns

  -- The fixed entries of a manager.
  pub record Saved (t : b.Tree) (watching_only : Bool) (pub_params pub_enc : Bytes) : Type 0 where
    pub main_exists : b.exists t main_path ≡ true
    pub sync_exists : b.exists t sync_path ≡ true
    pub version :
        b.get t main_path Store.Name.mgr_version ≡ some (uint32_to_bytes latest_mgr_version)
    pub flag :
        b.get t main_path Store.Name.watching_only ≡ some ((if watching_only then 1 else 0) ∷ [])
    pub params : b.get t main_path Store.Name.master_pub_key ≡ some pub_params
    pub key : b.get t main_path Store.Name.crypto_pub_key ≡ some pub_enc
    pub unix : ℕ
    pub birthday : b.get t sync_path Store.Name.birthday ≡ some (le_bytes 8 unix)

  read_flag :
      (t : b.Tree) (watching_only : Bool)
      → b.exists t main_path ≡ true
      → b.get t main_path Store.Name.watching_only ≡ some ((if watching_only then 1 else 0) ∷ [])
      → fetch_watching_only (some ns) t ≡ (ok watching_only, t)
  unfolding fetch_watching_only nested_bucket get byte_at
  read_flag t true e flag = rw (e, flag) refl
  read_flag t false e flag = rw (e, flag) refl

  module _ (t : b.Tree) {watching_only : Bool} {pub_params pub_enc : Bytes}
      (s : Saved t watching_only pub_params pub_enc) where
    exists_read : manager_exists (some ns) t ≡ (ok true, t)
    unfolding manager_exists nested_bucket
    exists_read = rw s.main_exists refl

    version_read : fetch_manager_version (some ns) t ≡ (ok latest_mgr_version, t)
    unfolding fetch_manager_version nested_bucket get
    version_read =
        rw (s.main_exists, s.version) (rw (uint32-le_bytes latest_mgr_version (omega arith)) refl)

    flag_read : fetch_watching_only (some ns) t ≡ (ok watching_only, t)
    flag_read = read_flag t watching_only s.main_exists s.flag

    params_read :
        fetch_master_key_params (some ns) t
        ≡ (ok (pub_params, b.get t main_path Store.Name.master_priv_key), t)
    unfolding fetch_master_key_params nested_bucket get
    params_read = rw (s.main_exists, s.params) refl

    keys_read : fetch_crypto_keys (some ns) t ≡ (
      ok (
        pub_enc,
        b.get t main_path Store.Name.crypto_priv_key,
        b.get t main_path Store.Name.crypto_script_key,
      ),
      t,
    )
    unfolding fetch_crypto_keys nested_bucket get
    keys_read = rw (s.main_exists, s.key) refl

    birthday_read : (u : ℕ) × (fetch_birthday (some ns) t ≡ (ok u, t))
    unfolding fetch_birthday nested_bucket get uint64_be
    birthday_read = (le_value (reverse (le_bytes 8 s.unix)), rw (s.sync_exists, s.birthday) refl)

    module _ (c : Crypto) (d : Btcd) (random : Result Bytes) (passphrase : Bytes)
        (master_pub master_priv : SecretKey) (pub_read : unmarshalled pub_params ≡ ok master_pub)
        (priv_read : unmarshalled_unless watching_only
            (b.get t main_path Store.Name.master_priv_key)
          ≡ ok master_priv) where
      pub open_saved :
          {derived : SecretKey} {ct salt : Bytes} {scopes : Scopes d}
          → with_passphrase c passphrase master_pub ≡ ok derived
          → decrypt c derived.key pub_enc ≡ ok ct
          → random ≡ ok salt
          → for_each_key_scope d (some ns) t ≡ (ok scopes, t)
          → open_manager c d random (some ns) passphrase t ≡ (
            ok (
                new_manager d derived master_priv
                  (copy_over (make_bytes key_size) ct)
                  (b.get t main_path Store.Name.crypto_priv_key)
                  (b.get t main_path Store.Name.crypto_script_key)
                  salt
                  scopes
                  watching_only),
            t,
          )
      unfolding open_manager load_manager
      open_saved derived_key opened drawn listed =
          let (u, birthday) = birthday_read in
          rw
            (
              exists_read, version_read, flag_read, params_read, keys_read, birthday, priv_read,
              pub_read, derived_key, opened, drawn, listed,
            )
            refl

      pub open_refused :
          {e : Error}
          → with_passphrase c passphrase master_pub ≡ err e
          → open_manager c d random (some ns) passphrase t
            ≡ (err (wrapped err_wrong_passphrase e), t)
      unfolding open_manager load_manager
      open_refused wrong =
          let (u, birthday) = birthday_read in
          rw
            (
              exists_read, version_read, flag_read, params_read, keys_read, birthday, priv_read,
              pub_read, wrong,
            )
            refl
