-- ===== src/Tests/Namespace.antt =====
-- A namespace with two scopes, created in memory.
use btc_wallet.Base.{◌≡◌, refl, true, some, List, [], ◌∷◌, All}
use btc_wallet.Go.{ok}
use btc_wallet.Go.Bytes.{codes}
use btc_wallet.Walletdb.Bolt.{BucketPath}
use btc_wallet.Walletdb.Memory.{MemoryTree, memory, memory_laws}
use btc_wallet.Walletdb.Bdb.{nested_bucket, put, create_bucket}
use btc_wallet.Waddrmgr.Rows.{KeyScope, ScopeAddrSchema, scope_schema_to_bytes}
use btc_wallet.Waddrmgr.Store
use btc_wallet.Waddrmgr.Store.{fetch_write_scope_bucket}
use btc_wallet.Waddrmgr.Store.Accounts.{put_last_account}
use btc_wallet.Waddrmgr.Store.Accounts.Ready.{IsReady}
use btc_wallet.Waddrmgr.Store.Params.{put_manager_version}
use btc_wallet.Waddrmgr.Store.Namespace.{create_scoped_manager_ns, create_scopes, create_manager_ns}
use btc_wallet.Waddrmgr.Store.Namespace.Created.{create_manager_ns-IsReady}

abbrev ns : BucketPath
ns = codes "waddrmgr" ∷ []

abbrev empty : MemoryTree
empty = record { buckets = ns ∷ []; cells = [] }

abbrev scopes : List (KeyScope × ScopeAddrSchema)
scopes =
    (record { purpose = 84; coin = 0 }, record { external_addr_type = 4; internal_addr_type = 4 })
    ∷ (record { purpose = 44; coin = 0 }, record { external_addr_type = 0; internal_addr_type = 0 })
    ∷ []

abbrev created : MemoryTree
created = (create_manager_ns 1700000000 (some ns) scopes empty).1

creation : create_manager_ns 1700000000 (some ns) scopes empty ≡ (ok tt, created)
unfolding create_manager_ns create_scopes create_scoped_manager_ns put_last_account
    put_manager_version fetch_write_scope_bucket nested_bucket put create_bucket
    scope_schema_to_bytes
creation = refl

create_manager_ns-IsReady_example :
    All (λ (scope, schema). IsReady ns scope created) scopes
    × (memory.exists created (Store.Name.main ∷ ns) ≡ true)
    × (memory.exists created (Store.Name.sync ∷ ns) ≡ true)
create_manager_ns-IsReady_example =
    create_manager_ns-IsReady memory_laws ns 1700000000 scopes empty created creation
