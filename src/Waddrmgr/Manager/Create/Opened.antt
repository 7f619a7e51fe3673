-- ===== src/Waddrmgr/Manager/Create/Opened.antt =====
-- A manager that has been created is opened with its public passphrase.
use btc_wallet.Base.{
  ℕ, ◌≡◌, ◌≢◌, ◌∙◌, refl, sym, ap, true, false, Option, none, some, List, bytes_ne,
}
use btc_wallet.Errors.{wrapped, snacl, invalid_password, err_wrong_passphrase}
use btc_wallet.Go.{Result, ok, err}
use btc_wallet.Go.Bytes.{Bytes, make_bytes}
use btc_wallet.Btcd.{Btcd}
use btc_wallet.Snacl.{Crypto, SecretKey, key_size}
use btc_wallet.Snacl.Box.{BoxLaws, IsNonce, decrypt, decrypt-encrypted}
use btc_wallet.Snacl.Derive.{CryptoLaws, copy_over_whole}
use btc_wallet.Walletdb.Bolt.{Bolt, BoltLaws, BucketPath}
use btc_wallet.Waddrmgr.Store
use btc_wallet.Waddrmgr.Store.Namespace.Created.{
  create_manager_ns-IsReady, create_manager_ns-version,
}
use btc_wallet.Waddrmgr.Store.Keeps.{kept}
use btc_wallet.Waddrmgr.Rows.{KeyScope, ScopeAddrSchema}
use btc_wallet.Waddrmgr.Manager.{Manager}
use btc_wallet.Waddrmgr.Manager.Create.{
  Draw, pub_salt, crypto_pub_bytes, crypto_pub_nonce, crypto_priv_bytes, crypto_priv_nonce,
  priv_salt, PrivateKeys, ScryptOptions, or_default, is_nil, create_private, create,
}
use btc_wallet.Waddrmgr.Manager.Open.{
  zero_secret_key, unmarshalled_unless, with_passphrase, Scopes, for_each_key_scope, new_manager,
  open_manager,
}
use btc_wallet.Waddrmgr.Manager.Create.Kept.{Keeps-create_private}
use btc_wallet.Waddrmgr.Manager.Create.Stored.{store_keys-Saved, store_keys-private}
use btc_wallet.Waddrmgr.Manager.Create.Steps.{
  IsOptions, Fills, secret_key_restored, secret_key_refused, private_params, Steps, create-Steps,
}
use btc_wallet.Waddrmgr.Manager.Open.Reads.{Saved, main_path, open_saved, open_refused}

-- Where there is a root key, the passphrase derives a key from what was stored, and with it the
-- private crypto key is decrypted from what was stored.
abbrev pub Unlocks :
    {K : Type 0} → Crypto → Result Bytes → Bytes → Option K → SecretKey → Option Bytes → Type 0
Unlocks c drawn passphrase none priv stored = Unit {0}
Unlocks c drawn passphrase (some k) priv stored =
    (sk : SecretKey) × (with_passphrase c passphrase priv ≡ ok sk)
    × (enc : Bytes) × (stored ≡ some enc)
    × (crypto_priv : Bytes) × (drawn ≡ ok crypto_priv)
    × (decrypt c sk.key enc ≡ ok crypto_priv)

-- The private keys that opening finds, and that the private passphrase unlocks them.
private_found :
    ⦃b : Bolt⦄
    → (c : Crypto) → CryptoLaws c
    → BoxLaws c
    → (d : Btcd) (draw : Draw → Result Bytes) (ns : BucketPath) (root : Option d.Key)
      (crypto_pub passphrase : Bytes) (o : ScryptOptions) (t1 t2 : b.Tree) (keys : PrivateKeys)
      (found stored : Option Bytes)
    → Fills 32 (draw priv_salt)
    → IsNonce c (draw crypto_priv_nonce)
    → IsOptions o
    → create_private c d draw (some ns) root crypto_pub passphrase o t1 ≡ (ok keys, t2)
    → ((priv : Bytes) → keys.0 ≡ some priv → found ≡ some priv)
    → ((priv : Bytes) → keys.1 ≡ some priv → stored ≡ some priv)
    → (priv : SecretKey) × (unmarshalled_unless (is_nil root) found ≡ ok priv)
      × Unlocks c (draw crypto_priv_bytes) passphrase root priv stored
unfolding unmarshalled_unless
private_found c laws boxes d draw ns none crypto_pub passphrase o t1 t2 keys found stored filled
      nonce sized made entry key_entry =
    (zero_secret_key, refl, tt)
private_found c laws boxes d draw ns (some root) crypto_pub passphrase o t1 t2 keys found stored
      filled nonce sized made entry key_entry =
    let (sk, params, secret, marshalled, is_params, kp, drawn, enc, encrypted, is_enc) =
      private_params c d draw ns root crypto_pub passphrase o t1 t2 keys made in
    let (restored, read, derived) =
      secret_key_restored c laws (draw priv_salt) passphrase params o sk filled sized secret
        marshalled in
    (
      restored,
      rw (entry params is_params) (rw read refl),
      (
        sk,
        derived,
        enc,
        key_entry enc is_enc,
        kp,
        drawn,
        decrypt-encrypted c boxes (draw crypto_priv_nonce) sk.key kp enc nonce encrypted,
      ),
    )

module _ ⦃b : Bolt⦄ (laws : BoltLaws b) (c : Crypto) (crypto_laws : CryptoLaws c)
    (box_laws : BoxLaws c) (d : Btcd) (draw : Draw → Result Bytes) (ns : BucketPath)
    (pub_filled : Fills 32 (draw pub_salt)) (priv_filled : Fills 32 (draw priv_salt))
    (key_filled : Fills 32 (draw crypto_pub_bytes)) (nonce : IsNonce c (draw crypto_pub_nonce))
    (priv_nonce : IsNonce c (draw crypto_priv_nonce)) (create_date : ℕ)
    (visited : List (KeyScope × ScopeAddrSchema)) (root : Option d.Key)
    (pub_passphrase priv_passphrase : Bytes) (config : Option ScryptOptions) (birthday : ℕ)
    (t t' : b.Tree) (sized : IsOptions (or_default config))
    (created : create c d draw create_date visited
        (some ns)
        root
        pub_passphrase
        priv_passphrase
        config
        birthday
        t
      ≡ (ok tt, t')) where
  steps :
      Steps c d draw ns create_date visited root pub_passphrase priv_passphrase config birthday t t'
  steps =
      create-Steps c d draw ns create_date visited root pub_passphrase priv_passphrase config
        birthday t t' created

  saved :
      Saved ns t' (is_nil root) steps.params steps.pub_enc
      × ((priv : Bytes)
          → steps.keys.0 ≡ some priv
          → b.get t' (main_path ns) Store.Name.master_priv_key ≡ some priv)
      × ((priv : Bytes)
          → steps.keys.1 ≡ some priv
          → b.get t' (main_path ns) Store.Name.crypto_priv_key ≡ some priv)
  saved =
      let (ready, main, sync) =
        create_manager_ns-IsReady laws ns create_date steps.scopes t steps.t1
          steps.namespace_made in
      let version =
        kept
          (Keeps-create_private laws ns Store.Name.main Store.Name.mgr_version _ c d draw root
            steps.crypto_pub priv_passphrase (or_default config) (bytes_ne _ _ refl)
            (bytes_ne _ _ refl))
          steps.private_made
          (create_manager_ns-version laws ns create_date steps.scopes t steps.t1
            steps.namespace_made) in
      let sync_kept =
        kept
          (Keeps-create_private laws ns Store.Name.sync Store.Name.birthday _ c d draw root
            steps.crypto_pub priv_passphrase (or_default config) (bytes_ne _ _ refl)
            (bytes_ne _ _ refl))
          steps.private_made (refl, sync) in
      let (main_saved, priv_saved) =
        store_keys-Saved laws ns steps.t2 t' steps.params steps.pub_enc steps.keys (is_nil root)
          birthday version sync_kept.1 steps.stored in
      (
        main_saved,
        priv_saved,
        λ priv is.
            store_keys-private laws ns steps.t2 t' steps.params steps.pub_enc steps.keys
              (is_nil root) birthday version.1 priv is steps.stored,
      )

  -- A manager that opening returns.
  pub record Opens (random : Result Bytes) (salt : Bytes) (scopes : Scopes d) : Type 0 where
    pub m : Manager d
    pub opened : open_manager c d random (some ns) pub_passphrase t' ≡ (ok m, t')
    pub crypto_key : draw crypto_pub_bytes ≡ ok m.crypto_key_pub
    pub scoped : m.scoped_managers ≡ scopes
    pub salted : m.priv_passphrase_salt ≡ salt
    pub flags : (m.watching_only ≡ is_nil root) × (m.locked ≡ true) × (m.closed ≡ false)
    -- The private passphrase unlocks what the manager holds.
    pub unlocks :
        Unlocks c
          (draw crypto_priv_bytes)
          priv_passphrase
          root
          m.master_key_priv
          m.crypto_key_priv_encrypted
    pub blank : m.crypto_key_priv ≡ make_bytes key_size

  -- A database in which Create has returned no error is opened by Open with the same public
  -- passphrase, where the drawn salts and the drawn public crypto key have 32 bytes and the nonces
  -- that encrypt the public and the private crypto key have 24, the options of scrypt fit in 64
  -- bits, the listing of the scopes returns no error, and the salt of the private passphrase is
  -- read: the manager holds the public crypto key that was drawn, the scopes and that salt, is
  -- locked and not closed, only watches exactly when Create had no root key, and, when there was
  -- one, the private passphrase unlocks the private crypto key that was drawn.
  pub create-Opens :
      (random : Result Bytes) (salt : Bytes) (scopes : Scopes d)
      → random ≡ ok salt
      → for_each_key_scope d (some ns) t' ≡ (ok scopes, t')
      → Opens random salt scopes
  unfolding new_manager
  create-Opens random salt scopes drawn listed =
      let (restored, read, derived) =
        secret_key_restored c crypto_laws (draw pub_salt) pub_passphrase steps.params
          (or_default config) steps.sk pub_filled sized steps.key_made steps.marshalled in
      let (priv, priv_read, unlocks) =
        private_found c crypto_laws box_laws d draw ns root steps.crypto_pub priv_passphrase
          (or_default config) steps.t1 steps.t2 steps.keys
          (b.get t' (main_path ns) Store.Name.master_priv_key)
          (b.get t' (main_path ns) Store.Name.crypto_priv_key) priv_filled priv_nonce sized
          steps.private_made saved.1 saved.2 in
      record {
        m = _;
        opened =
            open_saved ns t' saved.0 c d random pub_passphrase restored priv read priv_read derived
              (decrypt-encrypted c box_laws (draw crypto_pub_nonce) steps.sk.key steps.crypto_pub
                steps.pub_enc nonce steps.encrypted)
              drawn listed;
        crypto_key =
            steps.drawn
            ∙ ap ok (
                sym (
                  copy_over_whole c (make_bytes key_size) steps.crypto_pub
                    (sym (key_filled steps.crypto_pub steps.drawn))));
        scoped = refl;
        salted = refl;
        flags = (refl, refl, refl);
        unlocks = unlocks;
        blank = refl;
      }

  -- A database in which Create has returned no error is not opened by a passphrase whose derived
  -- key has another digest than that of the public passphrase: Open answers that the passphrase is
  -- wrong and leaves the database as it was, where the drawn salts and the drawn public crypto key
  -- have 32 bytes and the nonces that encrypt the public and the private crypto key have 24, and
  -- the options of scrypt fit in 64 bits.
  pub create_wrong_passphrase :
      (random : Result Bytes) (salt key other other_key : Bytes)
      → draw pub_salt ≡ ok salt
      → c.scrypt pub_passphrase salt
          (or_default config).n
          (or_default config).r
          (or_default config).p
        ≡ ok key
      → c.scrypt other salt (or_default config).n (or_default config).r (or_default config).p
        ≡ ok other_key
      → c.sha256 other_key ≢ c.sha256 key
      → open_manager c d random (some ns) other t'
        ≡ (err (wrapped err_wrong_passphrase (snacl invalid_password)), t')
  create_wrong_passphrase random salt key other other_key drawn e e' differ =
      let (restored, read, refused) =
        secret_key_refused c crypto_laws (draw pub_salt) pub_passphrase steps.params
          (or_default config) steps.sk pub_filled sized steps.key_made steps.marshalled salt key
          other other_key drawn e e' differ in
      let (priv, priv_read, unlocks) =
        private_found c crypto_laws box_laws d draw ns root steps.crypto_pub priv_passphrase
          (or_default config) steps.t1 steps.t2 steps.keys
          (b.get t' (main_path ns) Store.Name.master_priv_key)
          (b.get t' (main_path ns) Store.Name.crypto_priv_key) priv_filled priv_nonce sized
          steps.private_made saved.1 saved.2 in
      open_refused ns t' saved.0 c d random other restored priv read priv_read refused
