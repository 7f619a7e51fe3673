-- ===== src/Tests/Accounts.antt =====
-- Names, keys and new accounts, run on a tree in memory.
use btc_wallet.Base.{
  ℕ, ◌+◌, ◌^◌, ◌≤◌, ◌<◌, ◌≡◌, ◌⊎◌, refl, false, some, [], ◌∷◌, ◌++◌, replicate, length, arith,
}
use btc_wallet.Errors.{manager, err_coin_type_too_high}
use btc_wallet.Go.{Result, ok, err}
use btc_wallet.Go.Bytes.{Bytes, u32, codes, copy_into, set_byte}
use btc_wallet.Go.Endian.{le_bytes, put_uint32, uint32}
use btc_wallet.Snacl.Box.{encrypt, decrypt}
use btc_wallet.Walletdb.Memory.{MemoryTree, memory, memory_laws}
use btc_wallet.Walletdb.Bdb.{nested_bucket, get, put}
use btc_wallet.Waddrmgr.Rows.Account.{serialize_account_row, serialize_default_account_row}
use btc_wallet.Waddrmgr.Keys.{
  validate_account_name, is_reserved_account_name, derive_account_key, derive_coin_type_key,
  coin_type_key_derived,
}
use btc_wallet.Waddrmgr.Manager.{Manager}
use btc_wallet.Waddrmgr.Store
use btc_wallet.Waddrmgr.Store.{fetch_read_scope_bucket, fetch_write_scope_bucket}
use btc_wallet.Waddrmgr.Store.Accounts.{
  RowInterface, fetch_account_by_name, fetch_last_account, put_last_account,
  put_default_account_info, put_account_info, put_account_row, put_account_id_index,
  put_account_name_index,
}
use btc_wallet.Waddrmgr.Store.Accounts.Ready.{scope_path, IsReady}
use btc_wallet.Waddrmgr.Store.Params.{fetch_coin_type_keys}
use btc_wallet.Waddrmgr.Scoped.{lookup_account, new_account, next_account, new_raw_account}
use btc_wallet.Waddrmgr.Scoped.Refines.{Agrees, account_map, insert, next_account_refines}
use btc_wallet.Waddrmgr.Scoped.Created.{
  Accepted, Stored, next_account-Stored, new_raw_account-Stored,
}
use btc_wallet.Tests.Store.{ns, scope, tree}
use btc_wallet.Tests.Toys.{keys, keys-BtcdLaws, boxes, boxes-BoxLaws, manager_of}

coin_type_key_derived_example :
    ((2 ^ 31 ≤ 0) × (derive_coin_type_key keys 9 scope ≡ err (manager err_coin_type_too_high)))
    ⊎ ((p : ℕ) × (p < 2 ^ 32)
        × ((84 < 2 ^ 31 × (p ≡ 2 ^ 31 + 84)) ⊎ (2 ^ 31 ≤ 84 × (2 ^ 31 + p ≡ 84)))
        × (0 < 2 ^ 31)
        × (derive_coin_type_key keys 9 scope ≡ ok (9 + p + (2 ^ 31 + 0))))
coin_type_key_derived_example =
    coin_type_key_derived keys keys-BtcdLaws 9 scope (omega arith) (omega arith)

-- The coin type's keys, and account 0 as the last one.
abbrev pub with_coin : MemoryTree
with_coin = record tree {
  cells =
      (scope_path ns scope, Store.Name.coin_type_pub_key, 5 ∷ [])
      ∷ (
        scope_path ns scope,
        Store.Name.coin_type_priv_key,
        replicate 24 3 ++ ((77 ∷ []) ++ replicate 16 0),
      )
      ∷ (Store.Name.meta ∷ scope_path ns scope, Store.Name.last_account, le_bytes 4 0)
      ∷ [];
}

pub with_coin-IsReady : IsReady ns scope with_coin
with_coin-IsReady = record {
  root_exists = refl;
  scope_exists = refl;
  acct_exists = refl;
  id_idx_exists = refl;
  name_idx_exists = refl;
  meta_exists = refl;
  addr_exists = refl;
  used_addr_exists = refl;
  addr_acct_idx_exists = refl;
}

abbrev pub nonce : Result Bytes
nonce = ok (replicate 24 6)

pub nonce_size : (v : Bytes) → nonce ≡ ok v → length v ≡ 24
nonce_size v e = ground arith

abbrev open_manager_state : Manager keys
open_manager_state = manager_of false false

abbrev after_next : MemoryTree
after_next =
    (next_account boxes keys open_manager_state nonce nonce (some ns) scope (codes "savings")
      with_coin).1

next_run :
    next_account boxes keys open_manager_state nonce nonce
      (some ns)
      scope
      (codes "savings")
      with_coin
    ≡ (ok 1, after_next)
unfolding next_account new_account lookup_account fetch_account_by_name fetch_last_account
    fetch_coin_type_keys fetch_read_scope_bucket fetch_write_scope_bucket nested_bucket get put
    put_default_account_info put_account_info put_account_row put_account_id_index
    put_account_name_index put_last_account serialize_default_account_row serialize_account_row
    put_uint32 copy_into set_byte uint32 validate_account_name is_reserved_account_name
    derive_account_key encrypt decrypt
next_run = refl

next_account-Stored_example :
    (last : ℕ) × ((fetch_last_account (some ns) scope with_coin).0 ≡ ok last)
    × (1 ≡ u32 (last + 1))
    × Accepted boxes keys open_manager_state nonce nonce ns scope (codes "savings") with_coin
    × Stored boxes keys open_manager_state nonce nonce ns scope 1 (codes "savings") after_next
next_account-Stored_example =
    next_account-Stored boxes keys open_manager_state nonce nonce ns scope memory_laws boxes-BoxLaws
      keys-BtcdLaws nonce_size nonce_size with_coin after_next with_coin-IsReady (codes "savings")
      (omega arith) 1 next_run

-- In place of the decimal digits of a number.
abbrev digits : ℕ → Bytes
digits n = (48 + n) ∷ []

abbrev after_raw : MemoryTree
after_raw =
    (new_raw_account boxes keys open_manager_state nonce nonce (some ns) scope digits 7 with_coin).1

raw_run :
    new_raw_account boxes keys open_manager_state nonce nonce (some ns) scope digits 7 with_coin
    ≡ (ok tt, after_raw)
unfolding new_raw_account new_account lookup_account fetch_account_by_name fetch_coin_type_keys
    fetch_read_scope_bucket fetch_write_scope_bucket nested_bucket get put put_default_account_info
    put_account_info put_account_row put_account_id_index put_account_name_index put_last_account
    serialize_default_account_row serialize_account_row put_uint32 copy_into set_byte uint32
    validate_account_name is_reserved_account_name derive_account_key encrypt decrypt
raw_run = refl

new_raw_account-Stored_example :
    Accepted boxes keys open_manager_state nonce nonce ns scope (codes "act:" ++ digits 7) with_coin
    × Stored boxes keys open_manager_state nonce nonce ns scope 7
        (codes "act:" ++ digits 7)
        after_raw
new_raw_account-Stored_example =
    new_raw_account-Stored boxes keys open_manager_state nonce nonce ns scope memory_laws
      boxes-BoxLaws keys-BtcdLaws nonce_size nonce_size with_coin after_raw with_coin-IsReady digits
      7 (omega arith) (omega arith) raw_run

next_account_refines_example :
    (row : RowInterface) × Agrees
      (account_map ns scope after_next)
      (insert 1 (codes "savings") row (account_map ns scope with_coin))
next_account_refines_example =
    next_account_refines boxes keys open_manager_state nonce nonce ns scope memory_laws
      boxes-BoxLaws keys-BtcdLaws nonce_size nonce_size with_coin after_next with_coin-IsReady
      (codes "savings") (omega arith) 1 next_run
