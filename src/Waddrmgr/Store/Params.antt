-- ===== src/Waddrmgr/Store/Params.antt =====
-- The fixed entries of a manager (waddrmgr/db.go): version, watching-only flag, birthday, keys and
-- key parameters, and the schemas and coin type keys of scopes. Stored keys are opaque bytes.
pub mod Laws
pub mod Kept
use btc_wallet.Base.{
  ℕ, Bool, true, false, not, Option, none, some, [], ◌∷◌, length, ◌==◌, if◌then◌else◌,
}
use btc_wallet.Errors.{manager, err_database, err_scope_not_found}
use btc_wallet.Go.{Result}
use btc_wallet.Go.Bytes.{Bytes, byte_at}
use btc_wallet.Go.Endian.{le_bytes, uint32, uint64_be}
use btc_wallet.Walletdb.Bolt.{Bolt}
use btc_wallet.Walletdb.Bdb.{Tx, Handle, ◌>>=◌, ◌>>◌, pure, raise, lift, nested_bucket, get, put}
use btc_wallet.Waddrmgr.Errors.{wrap}
use btc_wallet.Waddrmgr.Rows.{
  KeyScope, ScopeAddrSchema, scope_to_bytes, scope_schema_from_bytes, uint32_to_bytes,
}
use btc_wallet.Waddrmgr.Store
use btc_wallet.Waddrmgr.Store.{fetch_read_scope_bucket, fetch_write_scope_bucket, found_or}

-- `len(b)` of bytes that may be nil.
abbrev pub length_of : Option Bytes → ℕ
length_of none = 0
length_of (some v) = length v

abbrev pub bytes_of : Option Bytes → Bytes
bytes_of none = []
bytes_of (some v) = v

module _ ⦃b : Bolt⦄ where
  -- `if v != nil { err := bucket.Put(key, v) … }`
  unfoldable pub put_some : Handle → Bytes → Option Bytes → Tx (Unit {0})
  put_some bucket key none = pure tt
  put_some bucket key (some v) = wrap err_database (put bucket key v)

  unfoldable pub put_manager_version : Handle → ℕ → Tx (Unit {0})
  put_manager_version ns version = do
    bucket ← nested_bucket ns Store.Name.main
    wrap err_database (put bucket Store.Name.mgr_version (uint32_to_bytes version))

  unfoldable pub fetch_manager_version : Handle → Tx ℕ
  fetch_manager_version ns = do
    main_bucket ← nested_bucket ns Store.Name.main
    entry ← get main_bucket Store.Name.mgr_version
    ver_bytes ← found_or (manager err_database) entry
    lift (uint32 ver_bytes)

  unfoldable pub put_watching_only : Handle → Bool → Tx (Unit {0})
  put_watching_only ns watching_only = do
    bucket ← nested_bucket ns Store.Name.main
    wrap err_database (put bucket Store.Name.watching_only ((if watching_only then 1 else 0) ∷ []))

  unfoldable pub fetch_watching_only : Handle → Tx Bool
  fetch_watching_only ns = do
    bucket ← nested_bucket ns Store.Name.main
    buf ← get bucket Store.Name.watching_only
    if not (length_of buf == 1)
        then raise (manager err_database)
        else do flag ← lift (byte_at 0 (bytes_of buf)); pure (not (flag == 0))

  -- A time is its Unix seconds as the 64-bit pattern of an int64.
  unfoldable pub put_birthday : Handle → ℕ → Tx (Unit {0})
  put_birthday ns unix = do
    bucket ← nested_bucket ns Store.Name.sync
    wrap err_database (put bucket Store.Name.birthday (le_bytes 8 unix))

  unfoldable pub fetch_birthday : Handle → Tx ℕ
  fetch_birthday ns = do
    bucket ← nested_bucket ns Store.Name.sync
    birthday_timestamp ← get bucket Store.Name.birthday
    if not (length_of birthday_timestamp == 8)
        then raise (manager err_database)
        else lift (uint64_be (bytes_of birthday_timestamp))

  unfoldable pub put_master_hd_keys : Handle → Option Bytes → Option Bytes → Tx (Unit {0})
  put_master_hd_keys ns priv_enc pub_enc = do
    bucket ← nested_bucket ns Store.Name.main
    put_some bucket Store.Name.master_hd_priv priv_enc
    put_some bucket Store.Name.master_hd_pub pub_enc

  unfoldable pub fetch_master_hd_keys : Handle → Tx (Option Bytes × Option Bytes)
  fetch_master_hd_keys ns = do
    bucket ← nested_bucket ns Store.Name.main
    priv_enc ← get bucket Store.Name.master_hd_priv
    pub_enc ← get bucket Store.Name.master_hd_pub
    pure (priv_enc, pub_enc)

  unfoldable pub put_master_key_params : Handle → Option Bytes → Option Bytes → Tx (Unit {0})
  put_master_key_params ns pub_params priv_params = do
    bucket ← nested_bucket ns Store.Name.main
    put_some bucket Store.Name.master_priv_key priv_params
    put_some bucket Store.Name.master_pub_key pub_params

  unfoldable pub fetch_master_key_params : Handle → Tx (Bytes × Option Bytes)
  fetch_master_key_params ns = do
    bucket ← nested_bucket ns Store.Name.main
    entry ← get bucket Store.Name.master_pub_key
    pub_params ← found_or (manager err_database) entry
    priv_params ← get bucket Store.Name.master_priv_key
    pure (pub_params, priv_params)

  unfoldable pub put_crypto_keys :
      Handle → Option Bytes → Option Bytes → Option Bytes → Tx (Unit {0})
  put_crypto_keys ns pub_enc priv_enc script_enc = do
    bucket ← nested_bucket ns Store.Name.main
    put_some bucket Store.Name.crypto_pub_key pub_enc
    put_some bucket Store.Name.crypto_priv_key priv_enc
    put_some bucket Store.Name.crypto_script_key script_enc

  unfoldable pub fetch_crypto_keys : Handle → Tx (Bytes × Option Bytes × Option Bytes)
  fetch_crypto_keys ns = do
    bucket ← nested_bucket ns Store.Name.main
    entry ← get bucket Store.Name.crypto_pub_key
    pub_key ← found_or (manager err_database) entry
    priv_key ← get bucket Store.Name.crypto_priv_key
    script_key ← get bucket Store.Name.crypto_script_key
    pure (pub_key, priv_key, script_key)

  unfoldable pub put_coin_type_keys :
      Handle → KeyScope → Option Bytes → Option Bytes → Tx (Unit {0})
  put_coin_type_keys ns scope pub_enc priv_enc = do
    scoped ← fetch_write_scope_bucket ns scope
    put_some scoped Store.Name.coin_type_pub_key pub_enc
    put_some scoped Store.Name.coin_type_priv_key priv_enc

  unfoldable pub fetch_coin_type_keys : Handle → KeyScope → Tx (Bytes × Bytes)
  fetch_coin_type_keys ns scope = do
    scoped ← fetch_read_scope_bucket ns scope
    pub_entry ← get scoped Store.Name.coin_type_pub_key
    pub_enc ← found_or (manager err_database) pub_entry
    priv_entry ← get scoped Store.Name.coin_type_priv_key
    priv_enc ← found_or (manager err_database) priv_entry
    pure (pub_enc, priv_enc)

  unfoldable pub fetch_scope_addr_schema : Handle → KeyScope → Tx ScopeAddrSchema
  fetch_scope_addr_schema ns scope = do
    schema ← nested_bucket ns Store.Name.scope_schema
    path ← found_or (manager err_scope_not_found) schema
    entry ← get (some path) (scope_to_bytes scope)
    schema_bytes ← found_or (manager err_scope_not_found) entry
    lift (scope_schema_from_bytes schema_bytes)
