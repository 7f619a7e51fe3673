-- ===== src/Waddrmgr/Manager/Open.antt =====
-- Opening the address manager (waddrmgr/manager.go, `Open`, `loadManager` and `newManager`, with
-- `forEachKeyScope` of waddrmgr/db.go). `random` is what is read for the salt of the private
-- passphrase.
pub mod Reads
use btc_wallet.Base.{
  ℕ, ◌==◌, ltb, ◌||◌, not, Bool, true, false, Option, none, some, List, [], ◌∷◌, ◌++◌, length, take,
  drop, if◌then◌else◌,
}
use btc_wallet.Errors.{
  Error, manager, wrapped, err_database, err_upgrade, err_no_exist, err_crypto,
  err_wrong_passphrase,
}
use btc_wallet.Go.{Result, ok, err, panic, fail_if}
use btc_wallet.Go.Bytes.{Bytes, make_bytes}
use btc_wallet.Go.Endian.{uint32}
use btc_wallet.Btcd.{Btcd}
use btc_wallet.Snacl.{Crypto, SecretKey, Parameters, key_size}
use btc_wallet.Snacl.Box.{decrypt}
use btc_wallet.Snacl.Derive.{derive_key, copy_over}
use btc_wallet.Snacl.Marshal.{unmarshal}
use btc_wallet.Walletdb.Bolt.{Bolt}
use btc_wallet.Walletdb.Bdb.{
  Action, Tx, Handle, ◌>>=◌, ◌>>◌, pure, raise, lift, nested_bucket, keys_of,
}
use btc_wallet.Waddrmgr.Errors.{wrap, wrap_result, convert}
use btc_wallet.Waddrmgr.Rows.{KeyScope, ScopeAddrSchema, AddressType}
use btc_wallet.Waddrmgr.Keys.{scope_eq}
use btc_wallet.Waddrmgr.Manager.{Manager, ScopedKeyManager}
use btc_wallet.Waddrmgr.Manager.Create.{manager_exists}
use btc_wallet.Waddrmgr.Store
use btc_wallet.Waddrmgr.Store.Namespace.{latest_mgr_version}
use btc_wallet.Waddrmgr.Store.Params.{
  bytes_of, fetch_manager_version, fetch_watching_only, fetch_master_key_params, fetch_crypto_keys,
  fetch_birthday, fetch_scope_addr_schema,
}

-- The zero value of `snacl.SecretKey`; its key is a nil pointer.
abbrev pub zero_secret_key : SecretKey
zero_secret_key = record {
  key = [];
  parameters = record { salt = make_bytes 32; digest = make_bytes 32; n = 0; r = 0; p = 0 };
}

-- `Unmarshal` on a zero value, which first makes room for the key.
unfoldable pub unmarshalled : Bytes → Result SecretKey
unmarshalled params = unmarshal (record zero_secret_key { key = make_bytes key_size }) params

unfoldable pub unmarshalled_unless : Bool → Option Bytes → Result SecretKey
unmarshalled_unless true params = ok zero_secret_key
unmarshalled_unless false params = wrap_result err_crypto (unmarshalled (bytes_of params))

-- `DeriveKey` on a key of one's own: the key with what was derived, or the error.
abbrev pub derived : Result (Unit {0}) → SecretKey → Result SecretKey
derived (ok u) sk = ok sk
derived (err e) sk = err e
derived panic sk = panic

unfoldable pub with_passphrase : Crypto → Bytes → SecretKey → Result SecretKey
with_passphrase c passphrase sk = let (r, sk') = derive_key c passphrase sk in derived r sk'

-- `m[t] = append(m[t], scope)`
abbrev pub append_scope :
    AddressType → KeyScope → List (AddressType × List KeyScope) → List (AddressType × List KeyScope)
append_scope t scope [] = (t, scope ∷ []) ∷ []
append_scope t scope ((u, scopes) ∷ rest) =
    let tail = append_scope t scope rest in
    if t == u then (u, scopes ++ (scope ∷ [])) ∷ rest else (u, scopes) ∷ tail

module _ (d : Btcd) where
  abbrev pub new_scoped : KeyScope → ScopeAddrSchema → ScopedKeyManager d
  new_scoped scope schema = record {
    scope = scope;
    addr_schema = schema;
    addrs = [];
    acct_info = [];
    derive_on_unlock = [];
  }

  abbrev pub Scopes : Type 0
  Scopes = List (KeyScope × ScopedKeyManager d)

  -- The body of the `range` in `newManager`.
  abbrev external_schemas :
      Scopes → List (AddressType × List KeyScope) → List (AddressType × List KeyScope)
  external_schemas [] m = m
  external_schemas ((scope, s) ∷ rest) m =
      external_schemas rest (append_scope s.addr_schema.external_addr_type s.scope m)

  abbrev internal_schemas :
      Scopes → List (AddressType × List KeyScope) → List (AddressType × List KeyScope)
  internal_schemas [] m = m
  internal_schemas ((scope, s) ∷ rest) m =
      internal_schemas rest (append_scope s.addr_schema.internal_addr_type s.scope m)

  -- `newManager`
  unfoldable pub new_manager :
      SecretKey
      → SecretKey
      → Bytes
      → Option Bytes
      → Option Bytes
      → Bytes
      → Scopes
      → Bool
      → Manager d
  new_manager master_pub master_priv crypto_pub priv_enc script_enc salt scopes watching_only =
      record {
        objects = [];
        scoped_managers = scopes;
        external_addr_schemas = external_schemas scopes [];
        internal_addr_schemas = internal_schemas scopes [];
        watching_only = watching_only;
        master_key_pub = master_pub;
        master_key_priv = master_priv;
        crypto_key_pub = crypto_pub;
        crypto_key_priv = make_bytes key_size;
        crypto_key_priv_encrypted = priv_enc;
        crypto_key_script = make_bytes key_size;
        crypto_key_script_encrypted = script_enc;
        priv_passphrase_salt = salt;
        hashed_priv_passphrase = make_bytes 64;
        locked = true;
        closed = false;
      }

module _ ⦃b : Bolt⦄ (d : Btcd) where
  -- `scopedManagers[scope] = …`
  abbrev pub set_scope : KeyScope → ScopedKeyManager d → Scopes d → Scopes d
  set_scope scope s [] = (scope, s) ∷ []
  set_scope scope s ((k, v) ∷ rest) =
      let tail = set_scope scope s rest in if scope_eq k scope then (k, s) ∷ rest else (k, v) ∷ tail

  -- `forEachKeyScope` with the function of `loadManager`, once for each key of the bucket.
  unfoldable pub load_scopes : Handle → List Bytes → Scopes d → Tx (Scopes d)
  load_scopes ns [] scopes = pure scopes
  load_scopes ns (k ∷ ks) scopes =
      let rest = load_scopes ns ks in
      if not (length k == 8) then rest scopes else (do
        purpose ← lift (uint32 k)
        coin ← lift (uint32 (drop 4 k))
        let scope : KeyScope = record { purpose = purpose; coin = coin }
        scope_schema ← fetch_scope_addr_schema ns scope
        rest (set_scope scope (new_scoped d scope scope_schema) scopes))

  unfoldable pub for_each_key_scope : Handle → Tx (Scopes d)
  for_each_key_scope ns = do
    bucket ← nested_bucket ns Store.Name.scope
    keys ← keys_of bucket
    load_scopes ns keys []

module _ ⦃b : Bolt⦄ (c : Crypto) (d : Btcd) where
  unfoldable pub load_manager : Result Bytes → Handle → Bytes → Tx (Manager d)
  load_manager random ns pub_passphrase = do
    version ← wrap err_database (fetch_manager_version ns)
    lift (
        fail_if (ltb version latest_mgr_version || ltb latest_mgr_version version)
          (manager err_upgrade))
    watching_only ← convert (fetch_watching_only ns)
    params ← convert (fetch_master_key_params ns)
    keys ← convert (fetch_crypto_keys ns)
    birthday ← convert (fetch_birthday ns)
    master_key_priv ← lift (unmarshalled_unless watching_only params.1)
    master_key_pub ← lift (wrap_result err_crypto (unmarshalled params.0))
    derived_key_pub ←
        lift (wrap_result err_wrong_passphrase (with_passphrase c pub_passphrase master_key_pub))
    crypto_key_pub_ct ← lift (wrap_result err_crypto (decrypt c derived_key_pub.key keys.0))
    salt ← lift (wrap_result err_crypto random)
    scopes ← for_each_key_scope d ns
    pure (
        new_manager d derived_key_pub master_key_priv
          (copy_over (make_bytes key_size) crypto_key_pub_ct) keys.1 keys.2 salt scopes
          watching_only)

  -- `Open`, whose name is a keyword here.
  unfoldable pub open_manager : Result Bytes → Handle → Bytes → Tx (Manager d)
  open_manager random ns pub_passphrase = do
    exists ← manager_exists ns
    lift (fail_if (not exists) (manager err_no_exist))
    load_manager random ns pub_passphrase
