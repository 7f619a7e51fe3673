-- ===== src/Tests/Created.antt =====
-- A manager that `Create` of waddrmgr/manager.go writes into a tree in memory, and the listing of its
-- scopes.
use btc_wallet.Base.{
  ℕ, List, drop, ◌∙◌, ◌≡◌, refl, true, some, [], ◌∷◌, ◌++◌, replicate, length, length-replicate,
  arith,
}
use btc_wallet.Go.{Result, ok}
use btc_wallet.Go.Bytes.{Bytes, codes, copy_into, set_byte, byte_at}
use btc_wallet.Go.Endian.{put_uint32, put_uint64, uint32}
use btc_wallet.Snacl.Box.{encrypt}
use btc_wallet.Snacl.Marshal.{marshal}
use btc_wallet.Snacl.Derive.{new_secret_key, derive_key_only}
use btc_wallet.Walletdb.Bolt.{BucketPath}
use btc_wallet.Walletdb.Memory.{MemoryTree, memory, member, find_cell, bucket_keys, cell_keys}
use btc_wallet.Walletdb.Bdb.{nested_bucket, get, put, keys_of, create_bucket}
use btc_wallet.Waddrmgr.Rows.{
  KeyScope, ScopeAddrSchema, scope_to_bytes, scope_schema_to_bytes, scope_schema_from_bytes,
}
use btc_wallet.Waddrmgr.Rows.Account.{serialize_account_row, serialize_default_account_row}
use btc_wallet.Waddrmgr.Keys.{
  scope_addr_map, key_scope_bip0044, key_scope_bip0049_plus, key_scope_bip0084, key_scope_bip0086,
  derive_account_key, derive_coin_type_key, check_branch_keys,
}
use btc_wallet.Waddrmgr.Manager.{ScopedKeyManager}
use btc_wallet.Waddrmgr.Manager.Create.{
  Draw, ScryptOptions, manager_exists, secret_key, create_manager_key_scope, create_key_scopes,
  create_root, create_private, store_keys, create,
}
use btc_wallet.Waddrmgr.Manager.Create.Steps.{IsOptions}
use btc_wallet.Waddrmgr.Manager.Open.{
  Scopes, set_scope, new_scoped, load_scopes, for_each_key_scope,
}
use btc_wallet.Waddrmgr.Store
use btc_wallet.Waddrmgr.Store.{fetch_read_scope_bucket, fetch_write_scope_bucket}
use btc_wallet.Waddrmgr.Store.Accounts.{
  put_last_account, put_default_account_info, put_account_info, put_account_row,
  put_account_id_index, put_account_name_index,
}
use btc_wallet.Waddrmgr.Store.Namespace.{create_scoped_manager_ns, create_scopes, create_manager_ns}
use btc_wallet.Waddrmgr.Store.Params.{
  put_some, put_manager_version, put_coin_type_keys, put_master_hd_keys, put_master_key_params,
  put_crypto_keys, put_watching_only, put_birthday, fetch_scope_addr_schema,
}
use btc_wallet.Tests.Toys.{keys, boxes}

abbrev pub ns : BucketPath
ns = codes "waddrmgr" ∷ []

abbrev pub empty_tree : MemoryTree
empty_tree = record { buckets = ns ∷ []; cells = [] }

-- Every read gives bytes of the length asked for.
abbrev pub draw : Draw → Result Bytes
draw Draw.crypto_pub_nonce = ok (replicate 24 6)
draw Draw.crypto_priv_nonce = ok (replicate 24 6)
draw Draw.crypto_script_nonce = ok (replicate 24 6)
draw (Draw.coin_type_pub_nonce s) = ok (replicate 24 6)
draw (Draw.coin_type_priv_nonce s) = ok (replicate 24 6)
draw (Draw.acct_pub_nonce s) = ok (replicate 24 6)
draw (Draw.acct_priv_nonce s) = ok (replicate 24 6)
draw Draw.root_priv_nonce = ok (replicate 24 6)
draw Draw.root_pub_nonce = ok (replicate 24 6)
draw other = ok (replicate 32 4)

pub filled : (n : ℕ) (b : ℕ) (v : Bytes) → ok (replicate n b) ≡ ok v → length v ≡ n
filled n b v e = ground (arith, length-replicate n b)

abbrev pub options : ScryptOptions
options = record { n = 16; r = 8; p = 1 }

pub options-IsOptions : IsOptions options
options-IsOptions = record { n_size = omega arith; r_size = omega arith; p_size = omega arith }

abbrev pub created_tree : MemoryTree
created_tree =
    (create boxes keys draw 1700000000 scope_addr_map (some ns) (some 5) (9 ∷ []) (8 ∷ [])
      (some options) 1700000000 empty_tree).1

pub create_run :
    create boxes keys draw 1700000000 scope_addr_map
      (some ns)
      (some 5)
      (9 ∷ [])
      (8 ∷ [])
      (some options)
      1700000000
      empty_tree
    ≡ (ok tt, created_tree)
unfolding create manager_exists create_manager_ns create_scopes create_scoped_manager_ns
    create_bucket put_last_account put_manager_version put nested_bucket get secret_key
    new_secret_key derive_key_only encrypt marshal copy_into put_uint64 put_uint32 set_byte
    create_private create_root create_key_scopes create_manager_key_scope put_coin_type_keys
    put_some fetch_write_scope_bucket put_default_account_info put_account_info put_account_row
    put_account_id_index put_account_name_index serialize_default_account_row serialize_account_row
    derive_coin_type_key derive_account_key check_branch_keys put_master_hd_keys store_keys
    put_master_key_params put_crypto_keys put_watching_only put_birthday scope_schema_to_bytes
create_run = refl

abbrev scoped : KeyScope → ℕ → ℕ → KeyScope × ScopedKeyManager keys
scoped scope external internal = (
  scope,
  record {
    scope = scope;
    addr_schema = record { external_addr_type = external; internal_addr_type = internal };
    addrs = [];
    acct_info = [];
    derive_on_unlock = [];
  },
)

abbrev pub scopes : Scopes keys
scopes =
    scoped key_scope_bip0044 0 0
    ∷ scoped key_scope_bip0086 6 6
    ∷ scoped key_scope_bip0084 4 4
    ∷ scoped key_scope_bip0049_plus 3 4
    ∷ []

-- What the tree holds of the scopes.
scope_entries :
    (member (Store.Name.scope ∷ ns) created_tree.buckets ≡ true)
    × (member (Store.Name.scope_schema ∷ ns) created_tree.buckets ≡ true)
    × (bucket_keys (Store.Name.scope ∷ ns) created_tree.buckets
          ++ cell_keys (Store.Name.scope ∷ ns) created_tree.cells
        ≡ scope_to_bytes key_scope_bip0044
          ∷ scope_to_bytes key_scope_bip0086
          ∷ scope_to_bytes key_scope_bip0084
          ∷ scope_to_bytes key_scope_bip0049_plus
          ∷ [])
    × (find_cell
          (Store.Name.scope_schema ∷ ns)
          (scope_to_bytes key_scope_bip0044)
          created_tree.cells
        ≡ some (0 ∷ 0 ∷ []))
    × (find_cell
          (Store.Name.scope_schema ∷ ns)
          (scope_to_bytes key_scope_bip0086)
          created_tree.cells
        ≡ some (6 ∷ 6 ∷ []))
    × (find_cell
          (Store.Name.scope_schema ∷ ns)
          (scope_to_bytes key_scope_bip0084)
          created_tree.cells
        ≡ some (4 ∷ 4 ∷ []))
    × (find_cell
          (Store.Name.scope_schema ∷ ns)
          (scope_to_bytes key_scope_bip0049_plus)
          created_tree.cells
        ≡ some (4 ∷ 3 ∷ []))
unfolding create manager_exists create_manager_ns create_scopes create_scoped_manager_ns
    create_bucket put_last_account put_manager_version put nested_bucket get secret_key
    new_secret_key derive_key_only encrypt marshal copy_into put_uint64 put_uint32 set_byte
    create_private create_root create_key_scopes create_manager_key_scope put_coin_type_keys
    put_some fetch_write_scope_bucket put_default_account_info put_account_info put_account_row
    put_account_id_index put_account_name_index serialize_default_account_row serialize_account_row
    derive_coin_type_key derive_account_key check_branch_keys put_master_hd_keys store_keys
    put_master_key_params put_crypto_keys put_watching_only put_birthday scope_schema_to_bytes
scope_entries = (refl, refl, refl, refl, refl, refl, refl)

-- One step of the loop over the scopes, for a scope whose schema is read.
load_step :
    (k : Bytes) (scope : KeyScope) (schema : ScopeAddrSchema) (ks : List Bytes) (acc : Scopes keys)
    → length k ≡ 8
    → uint32 k ≡ ok scope.purpose
    → uint32 (drop 4 k) ≡ ok scope.coin
    → fetch_scope_addr_schema (some ns) scope created_tree ≡ (ok schema, created_tree)
    → load_scopes keys (some ns) (k ∷ ks) acc created_tree
      ≡ load_scopes keys
          (some ns)
          ks
          (set_scope keys scope (new_scoped keys scope schema) acc)
          created_tree
unfolding load_scopes
load_step k scope schema ks acc size purpose coin read = rw (size, purpose, coin, read) refl

read_44 :
    fetch_scope_addr_schema (some ns) key_scope_bip0044 created_tree
    ≡ (ok (record { external_addr_type = 0; internal_addr_type = 0 }), created_tree)
unfolding fetch_scope_addr_schema nested_bucket get scope_schema_from_bytes byte_at
read_44 = rw (scope_entries.1, scope_entries.3) refl

read_86 :
    fetch_scope_addr_schema (some ns) key_scope_bip0086 created_tree
    ≡ (ok (record { external_addr_type = 6; internal_addr_type = 6 }), created_tree)
unfolding fetch_scope_addr_schema nested_bucket get scope_schema_from_bytes byte_at
read_86 = rw (scope_entries.1, scope_entries.4) refl

read_84 :
    fetch_scope_addr_schema (some ns) key_scope_bip0084 created_tree
    ≡ (ok (record { external_addr_type = 4; internal_addr_type = 4 }), created_tree)
unfolding fetch_scope_addr_schema nested_bucket get scope_schema_from_bytes byte_at
read_84 = rw (scope_entries.1, scope_entries.5) refl

read_49 :
    fetch_scope_addr_schema (some ns) key_scope_bip0049_plus created_tree
    ≡ (ok (record { external_addr_type = 3; internal_addr_type = 4 }), created_tree)
unfolding fetch_scope_addr_schema nested_bucket get scope_schema_from_bytes byte_at
read_49 = rw (scope_entries.1, scope_entries.6) refl

abbrev schema_of : ℕ → ℕ → ScopeAddrSchema
schema_of external internal = record {
  external_addr_type = external;
  internal_addr_type = internal;
}

abbrev ks1 : List Bytes
ks1 = scope_to_bytes key_scope_bip0049_plus ∷ []

abbrev ks2 : List Bytes
ks2 = scope_to_bytes key_scope_bip0084 ∷ ks1

abbrev ks3 : List Bytes
ks3 = scope_to_bytes key_scope_bip0086 ∷ ks2

no_more :
    (acc : Scopes keys) → load_scopes keys (some ns) [] acc created_tree ≡ (ok acc, created_tree)
unfolding load_scopes
no_more acc = refl

byte_runs :
    (uint32 (scope_to_bytes key_scope_bip0044) ≡ ok 44)
    × (uint32 (drop 4 (scope_to_bytes key_scope_bip0044)) ≡ ok 0)
    × (uint32 (scope_to_bytes key_scope_bip0086) ≡ ok 86)
    × (uint32 (drop 4 (scope_to_bytes key_scope_bip0086)) ≡ ok 0)
    × (uint32 (scope_to_bytes key_scope_bip0084) ≡ ok 84)
    × (uint32 (drop 4 (scope_to_bytes key_scope_bip0084)) ≡ ok 0)
    × (uint32 (scope_to_bytes key_scope_bip0049_plus) ≡ ok 49)
    × (uint32 (drop 4 (scope_to_bytes key_scope_bip0049_plus)) ≡ ok 0)
unfolding uint32
byte_runs = (refl, refl, refl, refl, refl, refl, refl, refl)

pub listed : for_each_key_scope keys (some ns) created_tree ≡ (ok scopes, created_tree)
unfolding for_each_key_scope nested_bucket keys_of
listed =
    rw (scope_entries.0, scope_entries.2)
      (load_step (scope_to_bytes key_scope_bip0044) key_scope_bip0044 (schema_of 0 0) ks3 [] refl
          byte_runs.0 byte_runs.1 read_44
        ∙ load_step (scope_to_bytes key_scope_bip0086) key_scope_bip0086 (schema_of 6 6) ks2
            (scoped key_scope_bip0044 0 0 ∷ []) refl byte_runs.2 byte_runs.3 read_86
        ∙ load_step (scope_to_bytes key_scope_bip0084) key_scope_bip0084 (schema_of 4 4) ks1
            (scoped key_scope_bip0044 0 0 ∷ scoped key_scope_bip0086 6 6 ∷ []) refl byte_runs.4
            byte_runs.5 read_84
        ∙ load_step (scope_to_bytes key_scope_bip0049_plus) key_scope_bip0049_plus (schema_of 3 4)
            []
            (scoped key_scope_bip0044 0 0
              ∷ scoped key_scope_bip0086 6 6
              ∷ scoped key_scope_bip0084 4 4
              ∷ [])
            refl byte_runs.6 byte_runs.7 read_49
        ∙ no_more scopes)
