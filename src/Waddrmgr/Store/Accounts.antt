-- ===== src/Waddrmgr/Store/Accounts.antt =====
-- Accounts in the database (waddrmgr/account_info.go), with the number of the last account
-- (waddrmgr/db.go).
pub mod Ready
pub mod RoundTrip
pub mod Success
use btc_wallet.Base.{ℕ, ◌-◌, ◌^◌, Option, none, some, length, ◌==◌, not, Bool, if◌then◌else◌}
use btc_wallet.Errors.{Error, manager, err_database, err_account_not_found}
use btc_wallet.Go.{Result}
use btc_wallet.Go.Bytes.{Bytes}
use btc_wallet.Go.Endian.{uint32}
use btc_wallet.Walletdb.Bolt.{Bolt}
use btc_wallet.Walletdb.Bdb.{Tx, Handle, ◌>>=◌, ◌>>◌, pure, raise, lift, nested_bucket, get, put}
use btc_wallet.Waddrmgr.Errors.{wrap}
use btc_wallet.Waddrmgr.Rows.{
  KeyScope, ScopeAddrSchema, AccountRow, DefaultAccountRow, WatchOnlyAccountRow, account_default,
  account_watch_only, uint32_to_bytes, string_to_bytes,
}
use btc_wallet.Waddrmgr.Rows.Account.{
  serialize_account_row, deserialize_account_row, serialize_default_account_row,
  deserialize_default_account_row, serialize_watch_only_account_row,
  deserialize_watch_only_account_row,
}
use btc_wallet.Waddrmgr.Store
use btc_wallet.Waddrmgr.Store.{fetch_read_scope_bucket, fetch_write_scope_bucket, found_or}

-- The `interface{}` that `fetchAccountInfo` returns.
pub data RowInterface : Type 0 where
  default_row : DefaultAccountRow → RowInterface
  watch_only_row : WatchOnlyAccountRow → RowInterface

module _ ⦃b : Bolt⦄ where
  unfoldable pub put_account_row : Handle → KeyScope → ℕ → AccountRow → Tx (Unit {0})
  put_account_row ns scope account row = do
    scoped ← fetch_write_scope_bucket ns scope
    bucket ← nested_bucket scoped Store.Name.acct
    buf ← lift (serialize_account_row row)
    wrap err_database (put bucket (uint32_to_bytes account) buf)

  unfoldable pub put_account_id_index : Handle → KeyScope → ℕ → Bytes → Tx (Unit {0})
  put_account_id_index ns scope account name = do
    scoped ← fetch_write_scope_bucket ns scope
    bucket ← nested_bucket scoped Store.Name.acct_id_idx
    wrap err_database (put bucket (uint32_to_bytes account) (string_to_bytes name))

  unfoldable pub put_account_name_index : Handle → KeyScope → ℕ → Bytes → Tx (Unit {0})
  put_account_name_index ns scope account name = do
    scoped ← fetch_write_scope_bucket ns scope
    bucket ← nested_bucket scoped Store.Name.acct_name_idx
    wrap err_database (put bucket (string_to_bytes name) (uint32_to_bytes account))

  unfoldable pub put_account_info : Handle → KeyScope → ℕ → AccountRow → Bytes → Tx (Unit {0})
  put_account_info ns scope account acct_row name = do
    put_account_row ns scope account acct_row
    put_account_id_index ns scope account name
    put_account_name_index ns scope account name

  unfoldable pub put_default_account_info :
      Handle → KeyScope → ℕ → Bytes → Bytes → ℕ → ℕ → Bytes → Tx (Unit {0})
  put_default_account_info ns scope account pub_enc priv_enc ext int name = do
    raw_data ← lift (serialize_default_account_row pub_enc priv_enc ext int name)
    put_account_info ns scope account (record { acct_type = account_default; raw_data = raw_data })
        name

  pub put_watch_only_account_info :
      Handle → KeyScope → ℕ → Bytes → ℕ → ℕ → ℕ → Bytes → Option ScopeAddrSchema → Tx (Unit {0})
  put_watch_only_account_info ns scope account pub_enc fingerprint ext int name addr_schema = do
    raw_data ← lift (serialize_watch_only_account_row pub_enc fingerprint ext int name addr_schema)
    put_account_info ns scope account
        (record { acct_type = account_watch_only; raw_data = raw_data }) name

  unfoldable pub fetch_account_by_name : Handle → KeyScope → Bytes → Tx ℕ
  fetch_account_by_name ns scope name = do
    scoped ← fetch_read_scope_bucket ns scope
    idx_bucket ← nested_bucket scoped Store.Name.acct_name_idx
    entry ← get idx_bucket (string_to_bytes name)
    val ← found_or (manager err_account_not_found) entry
    lift (uint32 val)

  -- `switch row.acctType`
  abbrev typed_row : AccountRow → Tx RowInterface
  typed_row row =
      if row.acct_type == account_default
      then (do r ← lift (deserialize_default_account_row row); pure (default_row r))
      else if row.acct_type == account_watch_only
      then (do r ← lift (deserialize_watch_only_account_row row); pure (watch_only_row r))
      else raise (manager err_account_not_found)

  unfoldable pub fetch_account_info : Handle → KeyScope → ℕ → Tx RowInterface
  fetch_account_info ns scope account = do
    scoped ← fetch_read_scope_bucket ns scope
    acct_bucket ← nested_bucket scoped Store.Name.acct
    entry ← get acct_bucket (uint32_to_bytes account)
    serialized_row ← found_or (manager err_account_not_found) entry
    row ← lift (deserialize_account_row serialized_row)
    typed_row row

  abbrev account_or_none : Option Bytes → Tx ℕ
  account_or_none none = pure (2 ^ 32 - 1)
  account_or_none (some val) =
      if length val == 4 then lift (uint32 val) else raise (manager err_database)

  unfoldable pub fetch_last_account : Handle → KeyScope → Tx ℕ
  fetch_last_account ns scope = do
    scoped ← fetch_read_scope_bucket ns scope
    meta_bucket ← nested_bucket scoped Store.Name.meta
    val ← get meta_bucket Store.Name.last_account
    account_or_none val

  unfoldable pub put_last_account : Handle → KeyScope → ℕ → Tx (Unit {0})
  put_last_account ns scope account = do
    scoped ← fetch_write_scope_bucket ns scope
    bucket ← nested_bucket scoped Store.Name.meta
    wrap err_database (put bucket Store.Name.last_account (uint32_to_bytes account))
