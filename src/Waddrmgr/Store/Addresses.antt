-- ===== src/Waddrmgr/Store/Addresses.antt =====
-- Addresses in the database (waddrmgr/db.go). An address is stored under the hash of its id.
pub mod Laws
pub mod Scripts
use btc_wallet.Base.{ℕ, ◌+◌, Bool, true, false, Option, none, some, [], ◌∷◌, ◌==◌, if◌then◌else◌}
use btc_wallet.Errors.{ErrorCode, manager, err_database, err_address_not_found}
use btc_wallet.Go.{Result, ok, err, panic}
use btc_wallet.Go.Bytes.{Bytes, u32}
use btc_wallet.Walletdb.Bolt.{Bolt}
use btc_wallet.Walletdb.Bdb.{
  Tx, Action, Handle, ◌>>=◌, ◌>>◌, pure, raise, lift, nested_bucket, get, put,
  create_bucket_if_not_exists,
}
use btc_wallet.Waddrmgr.Errors.{wrap}
use btc_wallet.Waddrmgr.Rows.{
  KeyScope, AccountRow, AddressRow, account_default, account_watch_only, adt_script,
  uint32_to_bytes,
}
use btc_wallet.Waddrmgr.Rows.Account.{serialize_account_row, deserialize_account_row}
use btc_wallet.Waddrmgr.Rows.Account.Advance.{advance_row}
use btc_wallet.Waddrmgr.Rows.Address.{
  AddressRowInterface, serialize_address_row, deserialize_address_row, serialize_chained_address,
  serialize_script_address, typed_address_row,
}
use btc_wallet.Waddrmgr.Store
use btc_wallet.Waddrmgr.Store.{fetch_read_scope_bucket, fetch_write_scope_bucket, found_or}
use btc_wallet.Waddrmgr.Store.Params.{bytes_of}

abbrev pub null_val : Bytes
null_val = 0 ∷ []

-- `if err != nil { return false }`
abbrev answer {ℓ} : {S : Type 0} {A : Type ℓ} → Result A → (A → Action S Bool) → Action S Bool
answer (ok a) f t = f a t
answer (err e) f t = (ok false, t)
answer panic f t = (panic, t)

abbrev or_false {ℓ} : {S : Type 0} {A : Type ℓ} → Action S A → (A → Action S Bool) → Action S Bool
or_false m f s = let (r, t) = m s in answer r f t

-- `if err != nil { return managerError(c, …, nil) }`
abbrev drop_result {ℓ} : {A : Type ℓ} → ErrorCode → Result A → Result A
drop_result c (ok a) = ok a
drop_result c (err e) = err (manager c)
drop_result c panic = panic

abbrev drop_error {ℓ} : {S : Type 0} {A : Type ℓ} → ErrorCode → Action S A → Action S A
drop_error c m s = let (r, s') = m s in (drop_result c r, s')

abbrev is_some : Option Bytes → Bool
is_some none = false
is_some (some v) = true

-- `sha256` stands for `sha256.Sum256` of crypto/sha256, and `now` for the clock's Unix time.
module _ ⦃b : Bolt⦄ (sha256 : Bytes → Bytes) where
  unfoldable pub put_addr_account_index : Handle → KeyScope → ℕ → Bytes → Tx (Unit {0})
  put_addr_account_index ns scope account addr_hash = do
    scoped ← fetch_write_scope_bucket ns scope
    bucket ← nested_bucket scoped Store.Name.addr_acct_idx
    put bucket addr_hash (uint32_to_bytes account)
    account_bucket ← create_bucket_if_not_exists bucket (uint32_to_bytes account)
    wrap err_database (put account_bucket addr_hash null_val)

  unfoldable pub put_address : Handle → KeyScope → Bytes → AddressRow → Tx (Unit {0})
  put_address ns scope address_id row = do
    scoped ← fetch_write_scope_bucket ns scope
    bucket ← nested_bucket scoped Store.Name.addr
    let addr_hash = sha256 address_id
    serialized ← lift (serialize_address_row row)
    wrap err_database (put bucket addr_hash serialized)
    put_addr_account_index ns scope row.account addr_hash

  pub put_chained_address : ℕ → Handle → KeyScope → Bytes → ℕ → ℕ → ℕ → ℕ → ℕ → Tx (Unit {0})
  put_chained_address now ns scope address_id account status branch index addr_type = do
    scoped ← fetch_write_scope_bucket ns scope
    raw_data ← lift (serialize_chained_address branch index)
    put_address ns scope address_id (record {
      addr_type = addr_type;
      account = account;
      add_time = now;
      sync_status = status;
      raw_data = raw_data;
    })
    bucket ← nested_bucket scoped Store.Name.addr
    serialized_account ← get bucket (uint32_to_bytes account)
    row ← lift (deserialize_account_row (bytes_of serialized_account))
    new_row ← lift (advance_row branch index row)
    serialized_row ← lift (serialize_account_row new_row)
    wrap err_database (put bucket (uint32_to_bytes account) serialized_row)

  unfoldable pub put_script_address :
      ℕ → Handle → KeyScope → Bytes → ℕ → ℕ → Bytes → Bytes → Tx (Unit {0})
  put_script_address now ns scope address_id account status encrypted_hash encrypted_script = do
    raw_data ← lift (serialize_script_address encrypted_hash encrypted_script)
    put_address ns scope address_id (record {
      addr_type = adt_script;
      account = account;
      add_time = now;
      sync_status = status;
      raw_data = raw_data;
    })

  pub fetch_address_by_hash : Handle → KeyScope → Bytes → Tx AddressRowInterface
  fetch_address_by_hash ns scope addr_hash = do
    scoped ← fetch_read_scope_bucket ns scope
    bucket ← nested_bucket scoped Store.Name.addr
    entry ← get bucket addr_hash
    serialized_row ← found_or (manager err_address_not_found) entry
    row ← lift (deserialize_address_row serialized_row)
    lift (typed_address_row row)

  pub fetch_address : Handle → KeyScope → Bytes → Tx AddressRowInterface
  fetch_address ns scope address_id = fetch_address_by_hash ns scope (sha256 address_id)

  pub fetch_address_used : Handle → KeyScope → Bytes → Tx Bool
  fetch_address_used ns scope address_id = or_false (fetch_read_scope_bucket ns scope) (λ scoped. do
    bucket ← nested_bucket scoped Store.Name.used_addr
    entry ← get bucket (sha256 address_id)
    pure (is_some entry))

  unfoldable pub mark_address_used : Handle → KeyScope → Bytes → Tx (Unit {0})
  mark_address_used ns scope address_id = do
    scoped ← fetch_write_scope_bucket ns scope
    bucket ← nested_bucket scoped Store.Name.used_addr
    val ← get bucket (sha256 address_id)
    if is_some val
        then pure tt
        else drop_error err_database (put bucket (sha256 address_id) null_val)
