-- ===== src/Waddrmgr/Store.antt =====
-- The address manager's buckets (waddrmgr/db.go): names, scopes, and the buckets of one scope.
-- `ns` is the bucket of the address manager's namespace.
pub mod Name
pub mod Steps
pub mod Keeps
pub mod Namespace
pub mod Params
pub mod Accounts
pub mod Addresses
use btc_wallet.Base.{Option, none, some}
use btc_wallet.Errors.{Error, manager, err_scope_not_found}
use btc_wallet.Go.{Result}
use btc_wallet.Walletdb.Bolt.{Bolt}
use btc_wallet.Walletdb.Bdb.{Tx, Handle, ◌>>=◌, ◌>>◌, pure, raise, nested_bucket}
use btc_wallet.Waddrmgr.Rows.{KeyScope, scope_to_bytes}

-- `if b == nil { return nil, err }`
abbrev pub found_or {ℓ} : {S : Type 0} {A : Type ℓ} → Error → Option A → S → Result A × S
found_or e none = raise e
found_or e (some a) = pure a

module _ ⦃b : Bolt⦄ where
  unfoldable pub fetch_read_scope_bucket : Handle → KeyScope → Tx Handle
  fetch_read_scope_bucket ns scope = do
    root ← nested_bucket ns Name.scope
    scoped ← nested_bucket root (scope_to_bytes scope)
    path ← found_or (manager err_scope_not_found) scoped
    pure (some path)

  unfoldable pub fetch_write_scope_bucket : Handle → KeyScope → Tx Handle
  fetch_write_scope_bucket ns scope = do
    root ← nested_bucket ns Name.scope
    scoped ← nested_bucket root (scope_to_bytes scope)
    path ← found_or (manager err_scope_not_found) scoped
    pure (some path)
