-- ===== src/Waddrmgr/Manager/Create/Stored.antt =====
-- What `Create` leaves in the fixed entries, and that opening finds it.
use btc_wallet.Base.{
  ℕ, ◌≡◌, ◌≢◌, ◌∙◌, refl, sym, Bool, true, false, Option, some, [], ◌∷◌, bytes_ne, bytes_eq,
  if◌then◌else◌,
}
use btc_wallet.Go.{ok}
use btc_wallet.Go.Bytes.{Bytes}
use btc_wallet.Go.Endian.{le_bytes}
use btc_wallet.Walletdb.Bolt.{Bolt, BoltLaws, BucketPath}
use btc_wallet.Waddrmgr.Rows.{uint32_to_bytes}
use btc_wallet.Waddrmgr.Manager.Create.{PrivateKeys, two_days_before, store_keys}
use btc_wallet.Waddrmgr.Store.Params.Kept.{
  Keeps-put_some_ne, Keeps-put_master_key_params, Keeps-put_crypto_keys, Keeps-put_watching_only,
  Keeps-put_birthday,
}
use btc_wallet.Waddrmgr.Manager.Open.Reads.{Saved, main_path, sync_path}
use btc_wallet.Waddrmgr.Store
use btc_wallet.Waddrmgr.Store.Steps.{bind-ok, convert_then}
use btc_wallet.Walletdb.Keeps.{Keeps-bind}
use btc_wallet.Waddrmgr.Store.Keeps.{Has, put-Has, put_some-Has, kept, nested_bucket_then}
use btc_wallet.Waddrmgr.Store.Namespace.{latest_mgr_version}
use btc_wallet.Waddrmgr.Store.Params.{
  put_some, put_master_key_params, put_crypto_keys, put_watching_only, put_birthday,
}

module _ ⦃b : Bolt⦄ (laws : BoltLaws b) (ns : BucketPath) (t t' : b.Tree) where
  params-Has :
      (pub_params : Bytes) (priv_params : Option Bytes)
      → b.exists t (main_path ns) ≡ true
      → put_master_key_params (some ns) (some pub_params) priv_params t ≡ (ok tt, t')
      → Has (main_path ns) Store.Name.master_pub_key (some pub_params) t'
        × ((priv : Bytes)
            → priv_params ≡ some priv
            → Has (main_path ns) Store.Name.master_priv_key (some priv) t')
  unfolding put_master_key_params
  params-Has pub_params priv_params there h =
      let h' = sym (nested_bucket_then ns Store.Name.main _ t there) ∙ h in
      let (u, e1, e2) =
        bind-ok (put_some (some (main_path ns)) Store.Name.master_priv_key priv_params) _ t h' in
      let there1 =
        kept
          (Keeps-put_some_ne laws ns Store.Name.main Store.Name.master_pub_key
            (b.get t (main_path ns) Store.Name.master_pub_key) (some (main_path ns))
            Store.Name.master_priv_key priv_params (bytes_ne _ _ refl))
          e1 (refl, there) in
      (
        put_some-Has laws (main_path ns) Store.Name.master_pub_key pub_params (some pub_params) _ t'
            there1.1 refl e2,
        λ priv e.
            kept
              (Keeps-put_some_ne laws ns Store.Name.main Store.Name.master_priv_key (some priv)
                (some (main_path ns)) Store.Name.master_pub_key (some pub_params)
                (bytes_ne _ _ refl))
              e2
              (put_some-Has laws (main_path ns) Store.Name.master_priv_key priv priv_params t _
                there e e1),
      )

  keys-Has :
      (pub_enc : Bytes) (priv_enc script_enc : Option Bytes)
      → b.exists t (main_path ns) ≡ true
      → put_crypto_keys (some ns) (some pub_enc) priv_enc script_enc t ≡ (ok tt, t')
      → Has (main_path ns) Store.Name.crypto_pub_key (some pub_enc) t'
  unfolding put_crypto_keys
  keys-Has pub_enc priv_enc script_enc there h =
      let h' = sym (nested_bucket_then ns Store.Name.main _ t there) ∙ h in
      let (u, e1, e2) =
        bind-ok (put_some (some (main_path ns)) Store.Name.crypto_pub_key (some pub_enc)) _ t h' in
      let first =
        put_some-Has laws (main_path ns) Store.Name.crypto_pub_key pub_enc (some pub_enc) t _ there
          refl e1 in
      let keep = λ (k : Bytes) (o : Option Bytes) (d : k ≢ Store.Name.crypto_pub_key).
        Keeps-put_some_ne laws ns Store.Name.main Store.Name.crypto_pub_key (some pub_enc)
          (some (main_path ns)) k o d in
      kept
        (Keeps-bind _ _ (keep Store.Name.crypto_priv_key priv_enc (bytes_ne _ _ refl))
          λ _ _. keep Store.Name.crypto_script_key script_enc (bytes_ne _ _ refl))
        e2 first

  private_key-Has :
      (pub_enc priv : Bytes) (priv_enc script_enc : Option Bytes)
      → priv_enc ≡ some priv
      → b.exists t (main_path ns) ≡ true
      → put_crypto_keys (some ns) (some pub_enc) priv_enc script_enc t ≡ (ok tt, t')
      → Has (main_path ns) Store.Name.crypto_priv_key (some priv) t'
  unfolding put_crypto_keys
  private_key-Has pub_enc priv priv_enc script_enc is there h =
      let h' = sym (nested_bucket_then ns Store.Name.main _ t there) ∙ h in
      let (u1, e1, h1) =
        bind-ok (put_some (some (main_path ns)) Store.Name.crypto_pub_key (some pub_enc)) _ t h' in
      let there1 =
        kept
          (Keeps-put_some_ne laws ns Store.Name.main Store.Name.crypto_priv_key
            (b.get t (main_path ns) Store.Name.crypto_priv_key) (some (main_path ns))
            Store.Name.crypto_pub_key (some pub_enc) (bytes_ne _ _ refl))
          e1 (refl, there) in
      let (u2, e2, h2) =
        bind-ok (put_some (some (main_path ns)) Store.Name.crypto_priv_key priv_enc) _ _ h1 in
      kept
        (Keeps-put_some_ne laws ns Store.Name.main Store.Name.crypto_priv_key (some priv)
          (some (main_path ns)) Store.Name.crypto_script_key script_enc (bytes_ne _ _ refl))
        h2
        (put_some-Has laws (main_path ns) Store.Name.crypto_priv_key priv priv_enc _ _ there1.1 is
          e2)

  flag-Has :
      (watching_only : Bool)
      → b.exists t (main_path ns) ≡ true
      → put_watching_only (some ns) watching_only t ≡ (ok tt, t')
      → Has
          (main_path ns)
          Store.Name.watching_only
          (some ((if watching_only then 1 else 0) ∷ []))
          t'
  unfolding put_watching_only
  flag-Has watching_only there h =
      put-Has laws (main_path ns) _ _ t t' there
        (sym (nested_bucket_then ns Store.Name.main _ t there) ∙ h)

  birthday-Has :
      (unix : ℕ)
      → b.exists t (sync_path ns) ≡ true
      → put_birthday (some ns) unix t ≡ (ok tt, t')
      → Has (sync_path ns) Store.Name.birthday (some (le_bytes 8 unix)) t'
  unfolding put_birthday
  birthday-Has unix there h =
      put-Has laws (sync_path ns) _ _ t t' there
        (sym (nested_bucket_then ns Store.Name.sync _ t there) ∙ h)

-- What the last writes keep, the keys of the entries told apart by the test.
module _ ⦃b : Bolt⦄ (laws : BoltLaws b) (ns : BucketPath) {t t' : b.Tree} (name j : Bytes)
    {v : Option Bytes} where
  params_keep :
      (pub_params priv_params : Option Bytes)
      → bytes_eq Store.Name.master_priv_key j ≡ false
      → bytes_eq Store.Name.master_pub_key j ≡ false
      → put_master_key_params (some ns) pub_params priv_params t ≡ (ok tt, t')
      → Has (name ∷ ns) j v t
      → Has (name ∷ ns) j v t'
  params_keep pub_params priv_params n1 n2 h =
      kept
        (Keeps-put_master_key_params laws ns name j v (some ns) pub_params priv_params
          (bytes_ne _ _ n1) (bytes_ne _ _ n2))
        h

  keys_keep :
      (pub_enc priv_enc script_enc : Option Bytes)
      → bytes_eq Store.Name.crypto_pub_key j ≡ false
      → bytes_eq Store.Name.crypto_priv_key j ≡ false
      → bytes_eq Store.Name.crypto_script_key j ≡ false
      → put_crypto_keys (some ns) pub_enc priv_enc script_enc t ≡ (ok tt, t')
      → Has (name ∷ ns) j v t
      → Has (name ∷ ns) j v t'
  keys_keep pub_enc priv_enc script_enc n1 n2 n3 h =
      kept
        (Keeps-put_crypto_keys laws ns name j v (some ns) pub_enc priv_enc script_enc
          (bytes_ne _ _ n1) (bytes_ne _ _ n2) (bytes_ne _ _ n3))
        h

  flag_keep :
      (watching_only : Bool)
      → bytes_eq Store.Name.watching_only j ≡ false
      → put_watching_only (some ns) watching_only t ≡ (ok tt, t')
      → Has (name ∷ ns) j v t
      → Has (name ∷ ns) j v t'
  flag_keep w n h = kept (Keeps-put_watching_only laws ns name j v (some ns) w (bytes_ne _ _ n)) h

  birthday_keep :
      (unix : ℕ)
      → bytes_eq Store.Name.birthday j ≡ false
      → put_birthday (some ns) unix t ≡ (ok tt, t')
      → Has (name ∷ ns) j v t
      → Has (name ∷ ns) j v t'
  birthday_keep u n h = kept (Keeps-put_birthday laws ns name j v (some ns) u (bytes_ne _ _ n)) h

module _ ⦃b : Bolt⦄ (laws : BoltLaws b) (ns : BucketPath) {t u t' : b.Tree} (name j : Bytes)
    {v : Option Bytes} where
  end_keep :
      (watching_only : Bool) (unix : ℕ)
      → bytes_eq Store.Name.watching_only j ≡ false
      → bytes_eq Store.Name.birthday j ≡ false
      → put_watching_only (some ns) watching_only t ≡ (ok tt, u)
      → put_birthday (some ns) unix u ≡ (ok tt, t')
      → Has (name ∷ ns) j v t
      → Has (name ∷ ns) j v t'
  end_keep watching_only unix n1 n2 e h has =
      birthday_keep laws ns name j unix n2 h (flag_keep laws ns name j watching_only n1 e has)

module _ ⦃b : Bolt⦄ (laws : BoltLaws b) (ns : BucketPath) (t t' : b.Tree)
    (pub_params pub_enc : Bytes) (keys : PrivateKeys) (watching_only : Bool) (unix : ℕ) where
  -- The last writes, after which opening finds what it reads.
  pub store_keys-Saved :
      Has (main_path ns) Store.Name.mgr_version (some (uint32_to_bytes latest_mgr_version)) t
      → b.exists t (sync_path ns) ≡ true
      → store_keys (some ns) pub_params pub_enc keys watching_only unix t ≡ (ok tt, t')
      → Saved ns t' watching_only pub_params pub_enc
        × ((priv : Bytes)
            → keys.0 ≡ some priv
            → b.get t' (main_path ns) Store.Name.master_priv_key ≡ some priv)
  unfolding store_keys
  store_keys-Saved version sync h =
      let (u1, e1, h1) =
        convert_then (put_master_key_params (some ns) (some pub_params) keys.0) _ t h in
      let (u2, e2, h2) =
        convert_then (put_crypto_keys (some ns) (some pub_enc) keys.1 keys.2) _ _ h1 in
      let (u3, e3, h3) = convert_then (put_watching_only (some ns) watching_only) _ _ h2 in
      let params = params-Has laws ns t _ pub_params keys.0 version.1 e1 in
      let version1 =
        params_keep laws ns Store.Name.main Store.Name.mgr_version _ _ refl refl e1 version in
      let version2 =
        keys_keep laws ns Store.Name.main Store.Name.mgr_version _ _ _ refl refl refl e2 version1 in
      let key2 = keys-Has laws ns _ _ pub_enc keys.1 keys.2 version1.1 e2 in
      let pub2 =
        keys_keep laws ns Store.Name.main Store.Name.master_pub_key _ _ _ refl refl refl e2
          params.0 in
      let version4 =
        end_keep laws ns Store.Name.main Store.Name.mgr_version _ _ refl refl e3 h3 version2 in
      let sync1 =
        params_keep laws ns Store.Name.sync Store.Name.birthday _ _ refl refl e1 (refl, sync) in
      let sync2 =
        keys_keep laws ns Store.Name.sync Store.Name.birthday _ _ _ refl refl refl e2 sync1 in
      let sync3 = flag_keep laws ns Store.Name.sync Store.Name.birthday _ refl e3 sync2 in
      let birthday = birthday-Has laws ns _ t' (two_days_before unix) sync3.1 h3 in
      (
        record {
          main_exists = version4.1;
          sync_exists = birthday.1;
          version = version4.0;
          flag =
              (birthday_keep laws ns Store.Name.main Store.Name.watching_only _ refl h3
                (flag-Has laws ns _ _ watching_only version2.1 e3)).0;
          params =
              (end_keep laws ns Store.Name.main Store.Name.master_pub_key _ _ refl refl e3 h3
                pub2).0;
          key =
              (end_keep laws ns Store.Name.main Store.Name.crypto_pub_key _ _ refl refl e3 h3
                key2).0;
          unix = two_days_before unix;
          birthday = birthday.0;
        },
        λ priv e.
            (end_keep laws ns Store.Name.main Store.Name.master_priv_key _ _ refl refl e3 h3 (
              keys_keep laws ns Store.Name.main Store.Name.master_priv_key _ _ _ refl refl refl e2
                (params.1 priv e))).0,
      )

  -- The encrypted private crypto key is found as well.
  pub store_keys-private :
      b.exists t (main_path ns) ≡ true
      → (priv : Bytes) → keys.1 ≡ some priv
      → store_keys (some ns) pub_params pub_enc keys watching_only unix t ≡ (ok tt, t')
      → b.get t' (main_path ns) Store.Name.crypto_priv_key ≡ some priv
  unfolding store_keys
  store_keys-private there priv is h =
      let (u1, e1, h1) =
        convert_then (put_master_key_params (some ns) (some pub_params) keys.0) _ t h in
      let (u2, e2, h2) =
        convert_then (put_crypto_keys (some ns) (some pub_enc) keys.1 keys.2) _ _ h1 in
      let (u3, e3, h3) = convert_then (put_watching_only (some ns) watching_only) _ _ h2 in
      let there1 =
        params_keep laws ns Store.Name.main Store.Name.mgr_version _ _ refl refl e1 (refl, there) in
      (end_keep laws ns Store.Name.main Store.Name.crypto_priv_key _ _ refl refl e3 h3
        (private_key-Has laws ns _ _ pub_enc priv keys.1 keys.2 is there1.1 e2)).0
