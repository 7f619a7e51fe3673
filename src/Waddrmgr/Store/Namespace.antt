-- ===== src/Waddrmgr/Store/Namespace.antt =====
-- The creation of the address manager's buckets (waddrmgr/db.go, `createManagerNS` and
-- `createScopedManagerNS`). The map of default scopes is the list of its entries in the order in
-- which the `range` visits them.
pub mod Created
use btc_wallet.Base.{ℕ, List, [], ◌∷◌}
use btc_wallet.Errors.{err_database}
use btc_wallet.Go.Endian.{le_bytes}
use btc_wallet.Walletdb.Bolt.{Bolt}
use btc_wallet.Walletdb.Bdb.{Tx, Handle, ◌>>=◌, ◌>>◌, pure, put, create_bucket}
use btc_wallet.Waddrmgr.Errors.{wrap}
use btc_wallet.Waddrmgr.Rows.{KeyScope, ScopeAddrSchema, scope_to_bytes, scope_schema_to_bytes}
use btc_wallet.Waddrmgr.Store
use btc_wallet.Waddrmgr.Store.Accounts.{put_last_account}
use btc_wallet.Waddrmgr.Store.Params.{put_manager_version}

-- `DefaultAccountNum`
abbrev pub default_account_num : ℕ
default_account_num = 0

-- The `Number`s of `versions` (waddrmgr/migrations.go), and `latestMgrVersion`, the last of them.
abbrev pub versions : List ℕ
versions = 2 ∷ 5 ∷ 6 ∷ 7 ∷ 8 ∷ []

abbrev last_of : List ℕ → ℕ
last_of [] = 0
last_of (n ∷ []) = n
last_of (n ∷ (m ∷ ns)) = last_of (m ∷ ns)

abbrev pub latest_mgr_version : ℕ
latest_mgr_version = last_of versions

module _ ⦃b : Bolt⦄ where
  -- Here `ns` is the bucket of all scopes.
  unfoldable pub create_scoped_manager_ns : Handle → KeyScope → Tx (Unit {0})
  create_scoped_manager_ns ns scope = do
    scope_bucket ← wrap err_database (create_bucket ns (scope_to_bytes scope))
    acct_bucket ← wrap err_database (create_bucket scope_bucket Store.Name.acct)
    addr_bucket ← wrap err_database (create_bucket scope_bucket Store.Name.addr)
    used_addr_bucket ← wrap err_database (create_bucket scope_bucket Store.Name.used_addr)
    addr_acct_idx_bucket ← wrap err_database (create_bucket scope_bucket Store.Name.addr_acct_idx)
    acct_name_idx_bucket ← wrap err_database (create_bucket scope_bucket Store.Name.acct_name_idx)
    acct_id_idx_bucket ← wrap err_database (create_bucket scope_bucket Store.Name.acct_id_idx)
    meta_bucket ← wrap err_database (create_bucket scope_bucket Store.Name.meta)
    pure tt

  -- The body of the `range` over the default scopes, once for each entry.
  unfoldable pub create_scopes :
      Handle → Handle → Handle → List (KeyScope × ScopeAddrSchema) → Tx (Unit {0})
  create_scopes ns scope_bucket scope_schemas [] = pure tt
  create_scopes ns scope_bucket scope_schemas ((scope, schema) ∷ rest) = do
    put scope_schemas (scope_to_bytes scope) (scope_schema_to_bytes schema)
    create_scoped_manager_ns scope_bucket scope
    put_last_account ns scope default_account_num
    create_scopes ns scope_bucket scope_schemas rest

  -- `create_date` is the clock's Unix time.
  unfoldable pub create_manager_ns : ℕ → Handle → List (KeyScope × ScopeAddrSchema) → Tx (Unit {0})
  create_manager_ns create_date ns default_scopes = do
    main_bucket ← wrap err_database (create_bucket ns Store.Name.main)
    sync_bucket ← wrap err_database (create_bucket ns Store.Name.sync)
    scope_bucket ← wrap err_database (create_bucket ns Store.Name.scope)
    scope_schemas ← wrap err_database (create_bucket ns Store.Name.scope_schema)
    create_scopes ns scope_bucket scope_schemas default_scopes
    put_manager_version ns latest_mgr_version
    wrap err_database (put main_bucket Store.Name.mgr_create_date (le_bytes 8 create_date))
