-- ===== src/Waddrmgr/Store/Params/Laws.antt =====
-- What has been written under the fixed keys is read back, with one exception: the birthday.
use mathlib.Core.List.{reverse}
use btc_wallet.Base.{ℕ, ◌≡◌, ◌≢◌, refl, sym, inr, true, Option, none, some, ◌∷◌, arith, bytes_ne}
use btc_wallet.Go.{ok}
use btc_wallet.Go.Bytes.{Bytes, IsU32}
use btc_wallet.Go.Endian.{le_bytes, le_value, uint32-le_bytes, uint64_be}
use btc_wallet.Walletdb.Bolt.{Bolt, BoltLaws, BucketPath}
use btc_wallet.Walletdb.Bdb.{nested_bucket, get, put}
use btc_wallet.Waddrmgr.Store
use btc_wallet.Waddrmgr.Store.Params.{
  put_some, put_manager_version, fetch_manager_version, put_birthday, fetch_birthday,
  put_crypto_keys, fetch_crypto_keys,
}

module _ ⦃b : Bolt⦄ (laws : BoltLaws b) (ns : BucketPath) (t t' : b.Tree) where
  -- Where the sync bucket is there, the birthday that putBirthday stores without an error is read
  -- by fetchBirthday with its eight bytes reversed.
  pub birthday_reversed :
      (unix : ℕ)
      → b.exists t (Store.Name.sync ∷ ns) ≡ true
      → put_birthday (some ns) unix t ≡ (ok tt, t')
      → fetch_birthday (some ns) t' ≡ (ok (le_value (reverse (le_bytes 8 unix))), t')
  unfolding put_birthday fetch_birthday nested_bucket get put uint64_be
  birthday_reversed unix e h = ground (
    arith,
    laws.get-put_self t (Store.Name.sync ∷ ns) Store.Name.birthday (le_bytes 8 unix),
    laws.exists-put t (Store.Name.sync ∷ ns) Store.Name.birthday (le_bytes 8 unix)
        (Store.Name.sync ∷ ns),
  )

  -- Where the main bucket is there, a version of uint32 is read back as putManagerVersion wrote
  -- it, once the write has returned no error.
  pub manager_version_stored :
      (version : ℕ)
      → IsU32 version
      → b.exists t (Store.Name.main ∷ ns) ≡ true
      → put_manager_version (some ns) version t ≡ (ok tt, t')
      → fetch_manager_version (some ns) t' ≡ (ok version, t')
  unfolding put_manager_version fetch_manager_version nested_bucket get put
  manager_version_stored version hv e h = ground (
    arith,
    uint32-le_bytes version hv,
    laws.get-put_self t (Store.Name.main ∷ ns) Store.Name.mgr_version (le_bytes 4 version),
    laws.exists-put t (Store.Name.main ∷ ns) Store.Name.mgr_version (le_bytes 4 version)
        (Store.Name.main ∷ ns),
  )

-- A value that may be nil, and what was there before.
abbrev pub or_old : Option Bytes → Option Bytes → Option Bytes
or_old none old = old
or_old (some v) old = some v

module _ ⦃b : Bolt⦄ where
  -- A conditional `Put` that has returned no error.
  record Puts (p : BucketPath) (k : Bytes) (o : Option Bytes) (t t' : b.Tree) : Type 0 where
    self : b.get t' p k ≡ or_old o (b.get t p k)
    others : (q : BucketPath) (j : Bytes) → k ≢ j → b.get t' q j ≡ b.get t q j
    buckets : (q : BucketPath) → b.exists t' q ≡ b.exists t q

  put_some-Puts :
      BoltLaws b
      → (p : BucketPath) (k : Bytes) (o : Option Bytes) (t : b.Tree)
      → (put_some (some p) k o t).0 ≡ ok tt
      → Puts p k o t (put_some (some p) k o t).1
  unfolding put_some put
  put_some-Puts laws p k none t h = record {
    self = refl;
    others = λ q j d. refl;
    buckets = λ q. refl;
  }
  put_some-Puts laws p k (some v) t h =
      let done : (b.put t p k v).0 ≡ none = ground arith in
      record {
        self = laws.get-put_self t p k v done;
        others = λ q j d. laws.get-put_ne t p k v q j done (inr d);
        buckets = λ q. laws.exists-put t p k v q;
      }

  module _ (laws : BoltLaws b) (ns : BucketPath) (t t' : b.Tree) (pub_enc : Bytes)
      (priv_enc script_enc : Option Bytes) (main_exists : b.exists t (Store.Name.main ∷ ns) ≡ true)
      (stored : put_crypto_keys (some ns) (some pub_enc) priv_enc script_enc t ≡ (ok tt, t')) where
    abbrev main_path : BucketPath
    main_path = Store.Name.main ∷ ns

    abbrev t1 : b.Tree
    t1 = (put_some (some main_path) Store.Name.crypto_pub_key (some pub_enc) t).1

    abbrev t2 : b.Tree
    t2 = (put_some (some main_path) Store.Name.crypto_priv_key priv_enc t1).1

    abbrev t3 : b.Tree
    t3 = (put_some (some main_path) Store.Name.crypto_script_key script_enc t2).1

    steps :
        ((put_some (some main_path) Store.Name.crypto_pub_key (some pub_enc) t).0 ≡ ok tt)
        × ((put_some (some main_path) Store.Name.crypto_priv_key priv_enc t1).0 ≡ ok tt)
        × ((put_some (some main_path) Store.Name.crypto_script_key script_enc t2).0 ≡ ok tt)
        × (t' ≡ t3)
    unfolding put_crypto_keys nested_bucket
    steps = ground arith

    -- Where the main bucket is there and putCryptoKeys has returned no error for a public key that
    -- is not nil, the encrypted crypto keys are read back as they were stored; a key that was nil
    -- leaves what was there before.
    pub crypto_keys_stored : fetch_crypto_keys (some ns) t' ≡ (
      ok (
        pub_enc,
        or_old priv_enc (b.get t main_path Store.Name.crypto_priv_key),
        or_old script_enc (b.get t main_path Store.Name.crypto_script_key),
      ),
      t',
    )
    unfolding fetch_crypto_keys nested_bucket get
    crypto_keys_stored =
        let a = put_some-Puts laws main_path Store.Name.crypto_pub_key (some pub_enc) t steps.0 in
        let c = put_some-Puts laws main_path Store.Name.crypto_priv_key priv_enc t1 steps.1 in
        let d = put_some-Puts laws main_path Store.Name.crypto_script_key script_enc t2 steps.2 in
        let pub_ne_priv = bytes_ne Store.Name.crypto_pub_key Store.Name.crypto_priv_key refl in
        let pub_ne_script = bytes_ne Store.Name.crypto_pub_key Store.Name.crypto_script_key refl in
        let priv_ne_script =
          bytes_ne Store.Name.crypto_priv_key Store.Name.crypto_script_key refl in
        rw steps.3 (
          rw (
            d.buckets main_path,
            c.buckets main_path,
            a.buckets main_path,
            main_exists,
            d.others main_path Store.Name.crypto_pub_key (λ e. pub_ne_script (sym e)),
            c.others main_path Store.Name.crypto_pub_key (λ e. pub_ne_priv (sym e)),
            a.self,
            d.others main_path Store.Name.crypto_priv_key (λ e. priv_ne_script (sym e)),
            c.self,
            a.others main_path Store.Name.crypto_priv_key pub_ne_priv,
            d.self,
            c.others main_path Store.Name.crypto_script_key priv_ne_script,
            a.others main_path Store.Name.crypto_script_key pub_ne_script,
          ))
