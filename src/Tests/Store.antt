-- ===== src/Tests/Store.antt =====
-- The store of accounts, addresses and fixed keys, run on a tree in memory.
use mathlib.Core.List.{reverse}
use btc_wallet.Base.{◌≡◌, refl, true, none, some, [], ◌∷◌, bytes_ne, arith}
use btc_wallet.Errors.{manager, err_database}
use btc_wallet.Go.{ok, err, panic}
use btc_wallet.Go.Bytes.{Bytes, codes, copy_into, set_byte}
use btc_wallet.Go.Endian.{put_uint32, put_uint64, le_value, le_bytes}
use btc_wallet.Walletdb.Bolt.{BucketPath}
use btc_wallet.Walletdb.Memory.{MemoryTree, memory, memory_laws}
use btc_wallet.Walletdb.Bdb.{nested_bucket, get, put, create_bucket_if_not_exists}
use btc_wallet.Waddrmgr.Rows.{KeyScope, account_default}
use btc_wallet.Waddrmgr.Rows.Account.{serialize_account_row, serialize_default_account_row}
use btc_wallet.Waddrmgr.Rows.Account.Layout.{default_account_layout}
use btc_wallet.Waddrmgr.Rows.Address.{serialize_script_address, serialize_address_row}
use btc_wallet.Waddrmgr.Store
use btc_wallet.Waddrmgr.Store.{fetch_read_scope_bucket, fetch_write_scope_bucket}
use btc_wallet.Waddrmgr.Store.Accounts.{
  default_row, put_account_row, put_account_id_index, put_account_name_index, put_account_info,
  put_default_account_info, fetch_account_info, fetch_account_by_name, fetch_last_account,
}
use btc_wallet.Waddrmgr.Store.Accounts.Ready.{scope_path, IsReady}
use btc_wallet.Waddrmgr.Store.Accounts.RoundTrip.{default_account_stored, default_account_frame}
use btc_wallet.Waddrmgr.Store.Accounts.Success.{put_default_account_info_succeeds}
use btc_wallet.Waddrmgr.Store.Addresses.{
  put_addr_account_index, put_address, put_chained_address, put_script_address, fetch_address,
  fetch_address_used, mark_address_used,
}
use btc_wallet.Waddrmgr.Store.Addresses.Laws.{put_chained_address_panics, mark_address_used_lem}
use btc_wallet.Waddrmgr.Store.Addresses.Scripts.{script_address_unreadable}
use btc_wallet.Waddrmgr.Store.Params.{
  put_some, put_manager_version, put_birthday, fetch_birthday, put_crypto_keys, fetch_crypto_keys,
}
use btc_wallet.Waddrmgr.Store.Params.Laws.{birthday_reversed, crypto_keys_stored}

abbrev pub ns : BucketPath
ns = codes "waddrmgr" ∷ []

abbrev pub scope : KeyScope
scope = record { purpose = 84; coin = 0 }

abbrev pub tree : MemoryTree
tree = record {
  buckets =
      (Store.Name.main ∷ ns)
      ∷ (Store.Name.sync ∷ ns)
      ∷ (Store.Name.scope ∷ ns)
      ∷ scope_path ns scope
      ∷ (Store.Name.acct ∷ scope_path ns scope)
      ∷ (Store.Name.acct_id_idx ∷ scope_path ns scope)
      ∷ (Store.Name.acct_name_idx ∷ scope_path ns scope)
      ∷ (Store.Name.meta ∷ scope_path ns scope)
      ∷ (Store.Name.addr ∷ scope_path ns scope)
      ∷ (Store.Name.used_addr ∷ scope_path ns scope)
      ∷ (Store.Name.addr_acct_idx ∷ scope_path ns scope)
      ∷ [];
  cells = [];
}

tree-IsReady : IsReady ns scope tree
tree-IsReady = record {
  root_exists = refl;
  scope_exists = refl;
  acct_exists = refl;
  id_idx_exists = refl;
  name_idx_exists = refl;
  meta_exists = refl;
  addr_exists = refl;
  used_addr_exists = refl;
  addr_acct_idx_exists = refl;
}

abbrev name : Bytes
name = codes "savings"

abbrev with_account : MemoryTree
with_account = (put_default_account_info (some ns) scope 7 (1 ∷ 2 ∷ []) (3 ∷ []) 4 5 name tree).1

stored_account :
    put_default_account_info (some ns) scope 7 (1 ∷ 2 ∷ []) (3 ∷ []) 4 5 name tree
    ≡ (ok tt, with_account)
unfolding put_default_account_info put_account_info put_account_row put_account_id_index
    put_account_name_index fetch_write_scope_bucket nested_bucket put serialize_default_account_row
    serialize_account_row put_uint32 copy_into set_byte
stored_account = refl

default_account_stored_example :
    (fetch_account_info (some ns) scope 7 with_account ≡ (
      ok (
          default_row (record {
            row = record {
              acct_type = account_default;
              raw_data = default_account_layout (1 ∷ 2 ∷ []) (3 ∷ []) 4 5 name;
            };
            pub_key_encrypted = 1 ∷ 2 ∷ [];
            priv_key_encrypted = 3 ∷ [];
            next_external_index = 4;
            next_internal_index = 5;
            name = name;
          })),
      with_account,
    ))
    × (fetch_account_by_name (some ns) scope name with_account ≡ (ok 7, with_account))
default_account_stored_example =
    default_account_stored memory_laws ns scope 7 (1 ∷ 2 ∷ []) (3 ∷ []) 4 5 name tree with_account
      tree-IsReady (omega arith) (omega arith) (omega arith) (omega arith) stored_account

default_account_frame_example :
    ((fetch_account_info (some ns) scope 8 with_account).0
      ≡ (fetch_account_info (some ns) scope 8 tree).0)
    × ((fetch_account_by_name (some ns) scope (codes "default") with_account).0
        ≡ (fetch_account_by_name (some ns) scope (codes "default") tree).0)
    × ((fetch_last_account (some ns) scope with_account).0
        ≡ (fetch_last_account (some ns) scope tree).0)
default_account_frame_example =
    default_account_frame memory_laws ns scope 7 (1 ∷ 2 ∷ []) (3 ∷ []) 4 5 name tree with_account
      tree-IsReady (omega arith) (omega arith) (omega arith) (omega arith) stored_account 8
      (codes "default") (omega arith) (omega arith) (bytes_ne _ _ refl)

-- In place of SHA-256: a function that tells the ids below apart.
abbrev digest : Bytes → Bytes
digest b = 1 ∷ b

abbrev with_mark : MemoryTree
with_mark = (mark_address_used digest (some ns) scope (9 ∷ []) tree).1

marked : mark_address_used digest (some ns) scope (9 ∷ []) tree ≡ (ok tt, with_mark)
unfolding mark_address_used fetch_write_scope_bucket nested_bucket get put
marked = refl

mark_address_used_lem_example :
    (fetch_address_used digest (some ns) scope (9 ∷ []) with_mark ≡ (ok true, with_mark))
    × ((fetch_address_used digest (some ns) scope (8 ∷ []) with_mark).0
        ≡ (fetch_address_used digest (some ns) scope (8 ∷ []) tree).0)
mark_address_used_lem_example =
    mark_address_used_lem digest ns scope memory_laws tree with_mark (9 ∷ []) (8 ∷ []) tree-IsReady
      marked (bytes_ne _ _ refl)

put_chained_address_panics_example :
    put_chained_address digest 1700000000 (some ns) scope (9 ∷ []) 7 2 0 3 0 tree ≡ (panic, tree)
put_chained_address_panics_example =
    put_chained_address_panics digest ns scope tree 1700000000 (9 ∷ []) 7 2 0 3 0 tree-IsReady

abbrev with_script : MemoryTree
with_script =
    (put_script_address digest 1700000000 (some ns) scope (9 ∷ []) 7 2 (5 ∷ 6 ∷ []) (7 ∷ []) tree).1

script_stored :
    put_script_address digest 1700000000 (some ns) scope (9 ∷ []) 7 2 (5 ∷ 6 ∷ []) (7 ∷ []) tree
    ≡ (ok tt, with_script)
unfolding put_script_address put_address put_addr_account_index fetch_write_scope_bucket
    nested_bucket put create_bucket_if_not_exists serialize_script_address serialize_address_row
    put_uint32 put_uint64 copy_into set_byte
script_stored = refl

script_address_unreadable_example :
    fetch_address digest (some ns) scope (9 ∷ []) with_script
    ≡ (err (manager err_database), with_script)
script_address_unreadable_example =
    script_address_unreadable digest ns scope memory_laws tree with_script 1700000000 (9 ∷ []) 7 2
      (5 ∷ 6 ∷ []) (7 ∷ []) tree-IsReady (omega arith) (omega arith) script_stored

abbrev with_version : MemoryTree
with_version = (put_manager_version (some ns) 8 tree).1

version_stored : put_manager_version (some ns) 8 tree ≡ (ok tt, with_version)
unfolding put_manager_version nested_bucket put
version_stored = refl

abbrev with_birthday : MemoryTree
with_birthday = (put_birthday (some ns) 1700000000 tree).1

birthday_stored : put_birthday (some ns) 1700000000 tree ≡ (ok tt, with_birthday)
unfolding put_birthday nested_bucket put
birthday_stored = refl

birthday_reversed_example :
    fetch_birthday (some ns) with_birthday
    ≡ (ok (le_value (reverse (le_bytes 8 1700000000))), with_birthday)
birthday_reversed_example =
    birthday_reversed memory_laws ns tree with_birthday 1700000000 refl birthday_stored

abbrev with_keys : MemoryTree
with_keys = (put_crypto_keys (some ns) (some (1 ∷ [])) none (some (3 ∷ [])) tree).1

keys_stored :
    put_crypto_keys (some ns) (some (1 ∷ [])) none (some (3 ∷ [])) tree ≡ (ok tt, with_keys)
unfolding put_crypto_keys put_some nested_bucket put
keys_stored = refl

crypto_keys_stored_example :
    fetch_crypto_keys (some ns) with_keys ≡ (ok (1 ∷ [], none, some (3 ∷ [])), with_keys)
crypto_keys_stored_example =
    crypto_keys_stored memory_laws ns tree with_keys (1 ∷ []) none (some (3 ∷ [])) refl keys_stored

put_default_account_info_succeeds_example :
    (put_default_account_info (some ns) scope 7 (1 ∷ 2 ∷ []) (3 ∷ []) 4 5 name tree).0 ≡ ok tt
put_default_account_info_succeeds_example =
    put_default_account_info_succeeds memory_laws ns scope tree 7 name (1 ∷ 2 ∷ []) (3 ∷ []) 4 5
      refl tree-IsReady (record { row_free = refl; id_free = refl; name_free = refl }) (omega arith)
      (omega arith)
