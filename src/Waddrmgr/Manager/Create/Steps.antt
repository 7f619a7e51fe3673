-- ===== src/Waddrmgr/Manager/Create/Steps.antt =====
-- The steps of a creation that has returned no error, and that its keys can be derived again.
use btc_wallet.Base.{
  ℕ, ◌^◌, ◌<◌, ◌≡◌, ◌≢◌, ◌∙◌, refl, sym, ap, Option, some, List, [], length, bytes_eq, not, ◌&&◌,
  if◌then◌else◌, arith,
}
use mathlib.Core.Path.{ap₂}
use btc_wallet.Errors.{snacl, invalid_password, err_crypto, err_key_chain}
use btc_wallet.Go.{Result, ok, err, panic}
use btc_wallet.Go.Bytes.{Bytes, make_bytes}
use btc_wallet.Btcd.{Btcd}
use btc_wallet.Snacl.{Crypto, SecretKey, key_size}
use btc_wallet.Snacl.Box.{encrypt}
use btc_wallet.Snacl.Derive.{
  CryptoLaws, new_secret_key, new_secret_key_lem, derive_key_refused, new_key_restored,
}
use btc_wallet.Snacl.Marshal.{marshal, unmarshal-marshal}
use btc_wallet.Walletdb.Bolt.{Bolt, BucketPath}
use btc_wallet.Walletdb.Bdb.{nested_bucket}
use btc_wallet.Waddrmgr.Errors.{wrap_result, convert_result}
use btc_wallet.Waddrmgr.Keys.{default_key_scopes}
use btc_wallet.Waddrmgr.Store.Namespace.{create_manager_ns}
use btc_wallet.Waddrmgr.Store.Params.{put_master_hd_keys}
use btc_wallet.Waddrmgr.Store.Steps.{
  bind-ok, lift_then, guard_then, convert_then, read_then, wrap_result-ok,
}
use btc_wallet.Waddrmgr.Rows.{KeyScope, ScopeAddrSchema}
use btc_wallet.Waddrmgr.Manager.Create.{
  Draw, pub_salt, crypto_pub_bytes, crypto_pub_nonce, priv_salt, passphrase_salt, crypto_priv_bytes,
  crypto_script_bytes, crypto_priv_nonce, crypto_script_nonce, root_priv_nonce, root_pub_nonce,
  PrivateKeys, ScryptOptions, no_key, only_key, secret_key, new_crypto_key, or_default, is_nil,
  manager_exists, sealed, create_key_scopes, store_keys, create_root, create_private, create,
}
use btc_wallet.Waddrmgr.Manager.Open.{zero_secret_key, unmarshalled, with_passphrase}

-- Options that are Go ints, and a reader that fills the salt when it returns no error.
pub record IsOptions (o : ScryptOptions) : Type 0 where
  pub n_size : o.n < 2 ^ 64
  pub r_size : o.r < 2 ^ 64
  pub p_size : o.p < 2 ^ 64

abbrev pub Fills : ℕ → Result Bytes → Type 0
Fills n r = (v : Bytes) → r ≡ ok v → length v ≡ n

module _ (c : Crypto) (laws : CryptoLaws c) where
  only_key-ok :
      (r : Result (Unit {0})) (sk0 sk : SecretKey)
      → only_key sk0 r ≡ ok sk
      → (r ≡ ok tt) × (sk0 ≡ sk)
  only_key-ok (ok u) sk0 sk h = (refl, ground arith)
  only_key-ok (err e) sk0 sk h = absurd (ground arith)
  only_key-ok panic sk0 sk h = absurd (ground arith)

  no_random :
      (random : Result Bytes) (passphrase : Bytes) (o : ScryptOptions) (sk : SecretKey)
      → ((v : Bytes) → ¬ (random ≡ ok v))
      → secret_key c random passphrase o ≡ ok sk
      → ⊥
  unfolding secret_key new_secret_key
  no_random (ok v) passphrase o sk n h = n v refl
  no_random (err e) passphrase o sk n h = ground arith
  no_random panic passphrase o sk n h = ground arith

  -- A key that was made and marshalled is read back, and its passphrase derives it again.
  pub secret_key_restored :
      (random : Result Bytes) (passphrase params : Bytes) (o : ScryptOptions) (sk : SecretKey)
      → Fills 32 random
      → IsOptions o
      → secret_key c random passphrase o ≡ ok sk
      → marshal sk ≡ ok params
      → (restored : SecretKey) × (unmarshalled params ≡ ok restored)
        × (with_passphrase c passphrase restored ≡ ok sk)
  unfolding secret_key unmarshalled with_passphrase
  secret_key_restored (ok salt) passphrase params o sk fills sized made marshalled =
      let (done, same) = only_key-ok _ _ sk made in
      let (restored, read, derived) =
        new_key_restored c laws no_key (record zero_secret_key { key = make_bytes key_size }) salt
          passphrase o.n o.r o.p (fills salt refl) sized.n_size sized.r_size sized.p_size refl sk
          (ap₂ (λ r k. (r, k)) done same) in
      (restored, rw marshalled at read, rw derived refl)
  secret_key_restored (err e) passphrase params o sk fills sized made marshalled =
      absurd (no_random (err e) passphrase o sk (λ v h. cc) made)
  secret_key_restored panic passphrase params o sk fills sized made marshalled =
      absurd (no_random panic passphrase o sk (λ v h. cc) made)

  -- Another passphrase, whose key has another digest, is refused.
  pub secret_key_refused :
      (random : Result Bytes) (passphrase params : Bytes) (o : ScryptOptions) (sk : SecretKey)
      → Fills 32 random
      → IsOptions o
      → secret_key c random passphrase o ≡ ok sk
      → marshal sk ≡ ok params
      → (salt key other other_key : Bytes) → random ≡ ok salt
      → c.scrypt passphrase salt o.n o.r o.p ≡ ok key
      → c.scrypt other salt o.n o.r o.p ≡ ok other_key
      → c.sha256 other_key ≢ c.sha256 key
      → (restored : SecretKey) × (unmarshalled params ≡ ok restored)
        × (with_passphrase c other restored ≡ err (snacl invalid_password))
  unfolding secret_key unmarshalled with_passphrase
  secret_key_refused random passphrase params o sk fills sized made marshalled salt key other
        other_key drawn e e' differ =
      let blank : SecretKey = record zero_secret_key { key = make_bytes key_size } in
      let fresh : SecretKey = record {
        key = key;
        parameters = record { salt = salt; digest = c.sha256 key; n = o.n; r = o.r; p = o.p };
      } in
      let lemma = new_secret_key_lem c laws no_key blank salt passphrase o.n o.r o.p key e in
      let (done, same) = only_key-ok _ _ sk (rw drawn at made) in
      let is_fresh : fresh ≡ sk = sym (ap (λ x. x.1) lemma) ∙ same in
      let read = unmarshal-marshal fresh blank (record {
        salt_size = fills salt drawn;
        digest_size = laws.sha256_size key;
        n_size = sized.n_size;
        r_size = sized.r_size;
        p_size = sized.p_size;
      }) in
      let marshalled_read : unmarshalled params
          ≡ ok (record blank { parameters = fresh.parameters }) =
        rw (ap marshal is_fresh ∙ marshalled) at read in
      (
        record blank { parameters = fresh.parameters },
        marshalled_read,
        rw
            (derive_key_refused c laws other other_key
              (record blank { parameters = fresh.parameters }) refl (laws.sha256_bytes key) e'
              differ)
            refl,
      )

manager_exists_tree :
    ⦃b : Bolt⦄ → (ns : BucketPath) (t : b.Tree) → (manager_exists (some ns) t).1 ≡ t
unfolding manager_exists nested_bucket
manager_exists_tree ns t = refl

module _ ⦃b : Bolt⦄ (c : Crypto) (d : Btcd) (draw : Draw → Result Bytes) (ns : BucketPath) where
  -- The parameters that are stored with a root key are those of a key that was made.
  pub private_params :
      (root : d.Key) (crypto_pub passphrase : Bytes) (o : ScryptOptions) (t t' : b.Tree)
      (keys : PrivateKeys)
      → create_private c d draw (some ns) (some root) crypto_pub passphrase o t ≡ (ok keys, t')
      → (sk : SecretKey) × (params : Bytes) × (secret_key c (draw priv_salt) passphrase o ≡ ok sk)
        × (marshal sk ≡ ok params)
        × (keys.0 ≡ some params)
        × (crypto_priv : Bytes) × (draw crypto_priv_bytes ≡ ok crypto_priv)
        × (priv_enc : Bytes) × (encrypt c (draw crypto_priv_nonce) sk.key crypto_priv ≡ ok priv_enc)
        × (keys.1 ≡ some priv_enc)
  unfolding create_private create_root
  private_params root crypto_pub passphrase o t t' keys h =
      let (sk, e0, h0) =
        lift_then (wrap_result err_crypto (secret_key c (draw priv_salt) passphrase o)) _ t h in
      let (salt, e1, h1) = lift_then (wrap_result err_crypto (draw passphrase_salt)) _ t h0 in
      let (kp, e2, h2) =
        lift_then (wrap_result err_crypto (new_crypto_key (draw crypto_priv_bytes))) _ t h1 in
      let (ks, e3, h3) =
        lift_then (wrap_result err_crypto (new_crypto_key (draw crypto_script_bytes))) _ t h2 in
      let (pe, e4, h4) =
        lift_then (wrap_result err_crypto (encrypt c (draw crypto_priv_nonce) sk.key kp)) _ t h3 in
      let (se, e5, h5) =
        lift_then (wrap_result err_crypto (encrypt c (draw crypto_script_nonce) sk.key ks)) _ t
          h4 in
      let (root_pub, e6, h6) = lift_then (wrap_result err_key_chain (d.neuter root)) _ t h5 in
      let (u7, e7, h7) =
        bind-ok (create_key_scopes c d draw (some ns) default_key_scopes root crypto_pub kp) _ t
          h6 in
      let (hd_priv, e8, h8) =
        lift_then (convert_result (sealed c d draw root_priv_nonce kp root)) _ _ h7 in
      let (hd_pub, e9, h9) =
        lift_then (convert_result (sealed c d draw root_pub_nonce crypto_pub root_pub)) _ _ h8 in
      let (u10, e10, h10) =
        convert_then (put_master_hd_keys (some ns) (some hd_priv) (some hd_pub)) _ _ h9 in
      let (params, e11, h11) = lift_then (marshal sk) _ _ h10 in
      (
        sk,
        params,
        wrap_result-ok err_crypto _ e0,
        e11,
        ground arith,
        kp,
        wrap_result-ok err_crypto _ e2,
        pe,
        wrap_result-ok err_crypto _ e4,
        ground arith,
      )

  -- What `Create` without an error went through.
  pub record Steps (create_date : ℕ) (visited : List (KeyScope × ScopeAddrSchema))
      (root : Option d.Key) (pub_passphrase priv_passphrase : Bytes) (config : Option ScryptOptions)
      (birthday : ℕ) (t t' : b.Tree) : Type 0 where
    pub scopes : List (KeyScope × ScopeAddrSchema)
    pub t1 : b.Tree
    pub namespace_made : create_manager_ns create_date (some ns) scopes t ≡ (ok tt, t1)
    pub sk : SecretKey
    pub key_made : secret_key c (draw pub_salt) pub_passphrase (or_default config) ≡ ok sk
    pub crypto_pub : Bytes
    pub drawn : draw crypto_pub_bytes ≡ ok crypto_pub
    pub pub_enc : Bytes
    pub encrypted : encrypt c (draw crypto_pub_nonce) sk.key crypto_pub ≡ ok pub_enc
    pub params : Bytes
    pub marshalled : marshal sk ≡ ok params
    pub keys : PrivateKeys
    pub t2 : b.Tree
    pub private_made :
        create_private c d draw (some ns) root crypto_pub priv_passphrase (or_default config) t1
        ≡ (ok keys, t2)
    pub stored : store_keys (some ns) params pub_enc keys (is_nil root) birthday t2 ≡ (ok tt, t')

  pub create-Steps :
      (create_date : ℕ) (visited : List (KeyScope × ScopeAddrSchema)) (root : Option d.Key)
      (pub_passphrase priv_passphrase : Bytes) (config : Option ScryptOptions) (birthday : ℕ)
      (t t' : b.Tree)
      → create c d draw create_date visited
          (some ns)
          root
          pub_passphrase
          priv_passphrase
          config
          birthday
          t
        ≡ (ok tt, t')
      → Steps create_date visited root pub_passphrase priv_passphrase config birthday t t'
  unfolding create
  create-Steps create_date visited root pub_passphrase priv_passphrase config birthday t t' h =
      let (found, e0, h0) = read_then (manager_exists (some ns)) _ t (manager_exists_tree ns t) h in
      let (e1, h1) = guard_then found _ _ t h0 in
      let (e2, h2) = guard_then (not (is_nil root) && bytes_eq priv_passphrase []) _ _ t h1 in
      let (u3, e3, h3) =
        convert_then (create_manager_ns create_date (some ns) (if is_nil root then [] else visited))
          _ t h2 in
      let (sk, e4, h4) =
        lift_then
          (wrap_result err_crypto (secret_key c (draw pub_salt) pub_passphrase (or_default config)))
          _ _ h3 in
      let (kp, e5, h5) =
        lift_then (wrap_result err_crypto (new_crypto_key (draw crypto_pub_bytes))) _ _ h4 in
      let (pe, e6, h6) =
        lift_then (wrap_result err_crypto (encrypt c (draw crypto_pub_nonce) sk.key kp)) _ _ h5 in
      let (params, e7, h7) = lift_then (marshal sk) _ _ h6 in
      let (keys, e8, h8) =
        bind-ok (create_private c d draw (some ns) root kp priv_passphrase (or_default config)) _ _
          h7 in
      record {
        scopes = if is_nil root then [] else visited;
        t1 = _;
        namespace_made = e3;
        sk = sk;
        key_made = wrap_result-ok err_crypto _ e4;
        crypto_pub = kp;
        drawn = wrap_result-ok err_crypto _ e5;
        pub_enc = pe;
        encrypted = wrap_result-ok err_crypto _ e6;
        params = params;
        marshalled = e7;
        keys = keys;
        t2 = _;
        private_made = e8;
        stored = h8;
      }
