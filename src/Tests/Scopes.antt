-- ===== src/Tests/Scopes.antt =====
-- A new scope in a manager that is open.
use btc_wallet.Base.{◌≡◌, ◌⊎◌, refl, true, false, some, [], ◌∷◌, ◌++◌, replicate}
use btc_wallet.Go.{Result, ok}
use btc_wallet.Go.Bytes.{Bytes, codes, copy_into, set_byte}
use btc_wallet.Go.Endian.{put_uint32}
use btc_wallet.Snacl.Box.{encrypt, decrypt}
use btc_wallet.Walletdb.Bolt.{BucketPath}
use btc_wallet.Walletdb.Memory.{MemoryTree, memory}
use btc_wallet.Walletdb.Bdb.{nested_bucket, get, put, create_bucket}
use btc_wallet.Waddrmgr.Rows.{KeyScope, ScopeAddrSchema, scope_schema_to_bytes}
use btc_wallet.Waddrmgr.Rows.Account.{serialize_account_row, serialize_default_account_row}
use btc_wallet.Waddrmgr.Keys.{
  key_scope_bip0084, derive_account_key, derive_coin_type_key, check_branch_keys,
}
use btc_wallet.Waddrmgr.Manager.{Manager, fetch_scoped_key_manager}
use btc_wallet.Waddrmgr.Manager.Create.{Draw, create_manager_key_scope}
use btc_wallet.Waddrmgr.Manager.Open.{new_scoped}
use btc_wallet.Waddrmgr.Manager.Scopes.{
  root_priv, key_scope_of, with_scope, new_scoped_key_manager, new_scoped_found,
}
use btc_wallet.Waddrmgr.Store
use btc_wallet.Waddrmgr.Store.{fetch_write_scope_bucket}
use btc_wallet.Waddrmgr.Store.Accounts.{
  put_default_account_info, put_account_info, put_account_row, put_account_id_index,
  put_account_name_index,
}
use btc_wallet.Waddrmgr.Store.Namespace.{create_scoped_manager_ns}
use btc_wallet.Waddrmgr.Store.Params.{put_some, put_coin_type_keys, fetch_master_hd_keys}
use btc_wallet.Tests.Toys.{keys, boxes, manager_of}

abbrev ns : BucketPath
ns = codes "waddrmgr" ∷ []

abbrev before : MemoryTree
before = record {
  buckets =
      (Store.Name.main ∷ ns) ∷ (Store.Name.scope ∷ ns) ∷ (Store.Name.scope_schema ∷ ns) ∷ ns ∷ [];
  cells =
      (
        Store.Name.main ∷ ns,
        Store.Name.master_hd_priv,
        replicate 24 3 ++ ((77 ∷ []) ++ replicate 16 0),
      )
      ∷ [];
}

abbrev draw : Draw → Result Bytes
draw n = ok (replicate 24 6)

abbrev m : Manager keys
m = manager_of false false

abbrev scope : KeyScope
scope = record { purpose = 1017; coin = 0 }

abbrev schema : ScopeAddrSchema
schema = record { external_addr_type = 4; internal_addr_type = 4 }

abbrev after : MemoryTree
after = (new_scoped_key_manager boxes keys draw m (some ns) scope schema before).1

scope_run :
    new_scoped_key_manager boxes keys draw m (some ns) scope schema before
    ≡ (ok (with_scope boxes keys draw m scope schema), after)
unfolding new_scoped_key_manager root_priv fetch_master_hd_keys decrypt key_scope_of
    create_manager_key_scope create_scoped_manager_ns create_bucket put nested_bucket get encrypt
    put_uint32 copy_into set_byte put_coin_type_keys put_some fetch_write_scope_bucket
    put_default_account_info put_account_info put_account_row put_account_id_index
    put_account_name_index serialize_default_account_row serialize_account_row derive_coin_type_key
    derive_account_key check_branch_keys scope_schema_to_bytes
scope_run = refl

new_scoped_found_example :
    ((m.watching_only ≡ true) ⊎ (m.locked ≡ false))
    × (fetch_scoped_key_manager keys (with_scope boxes keys draw m scope schema) scope
        ≡ ok (new_scoped keys scope schema))
    × (fetch_scoped_key_manager keys (with_scope boxes keys draw m scope schema) key_scope_bip0084
        ≡ fetch_scoped_key_manager keys m key_scope_bip0084)
new_scoped_found_example =
    new_scoped_found boxes keys draw m (with_scope boxes keys draw m scope schema) (some ns) scope
      schema before after scope_run key_scope_bip0084 refl
