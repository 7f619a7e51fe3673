-- ===== src/Tests/Addresses.antt =====
-- Accounts and addresses, run on a manager with one scope.
use btc_wallet.Base.{
  ℕ, ◌≡◌, ◌≢◌, refl, none, some, true, false, [], ◌∷◌, ◌++◌, replicate, if◌then◌else◌, arith,
}
use btc_wallet.Errors.{text}
use btc_wallet.Go.{ok, err}
use btc_wallet.Go.Bytes.{codes}
use btc_wallet.Walletdb.Memory.{MemoryTree, memory, memory_laws}
use btc_wallet.Waddrmgr.Rows.{ScriptAddressRow, witness_pub_key}
use btc_wallet.Waddrmgr.Rows.Address.{script_row}
use btc_wallet.Waddrmgr.Manager.{
  AccountInfo, ScopedKeyManager, Manager, ManagedAddress, DerivationPath,
}
use btc_wallet.Waddrmgr.Managed.{
  derive_key, address_of, new_managed_address_without_priv_key, validate,
}
use btc_wallet.Waddrmgr.Managed.Create.{
  new_managed_address, new_managed_address_from_ext_key, new_script_address,
}
use btc_wallet.Waddrmgr.Managed.Unlock.{priv_key_of, script}
use btc_wallet.Waddrmgr.Managed.Secrets.{new_managed_address-priv_key_of}
use btc_wallet.Waddrmgr.Managed.Scripts.{loaded_script-never}
use btc_wallet.Snacl.Box.{encrypt, decrypt}
use btc_wallet.Go.Bytes.{copy_into, set_byte, byte_at, slice}
use btc_wallet.Go.Endian.{put_uint32, uint32, read_uint32}
use btc_wallet.Walletdb.Bdb.{nested_bucket, get, put}
use btc_wallet.Waddrmgr.Rows.Account.{
  serialize_account_row, serialize_default_account_row, deserialize_account_row,
  deserialize_default_account_row,
}
use btc_wallet.Waddrmgr.Keys.{
  validate_account_name, is_reserved_account_name, derive_account_key, is_default_scope,
}
use btc_wallet.Waddrmgr.Store.{fetch_read_scope_bucket, fetch_write_scope_bucket}
use btc_wallet.Waddrmgr.Store.Accounts.{
  fetch_account_by_name, fetch_last_account, put_last_account, put_default_account_info,
  put_account_info, put_account_row, put_account_id_index, put_account_name_index,
  fetch_account_info,
}
use btc_wallet.Waddrmgr.Store.Params.{fetch_coin_type_keys}
use btc_wallet.Waddrmgr.Scoped.Account.{account_of, decrypt_key}
use btc_wallet.Waddrmgr.Scoped.{next_account, new_account, lookup_account}
use btc_wallet.Waddrmgr.Scoped.Load.{
  wait_for_key, key_to_managed, last_addr, remember, load_uncached, load_account_info,
  script_address_row_to_managed, row_interface_to_managed,
}
use btc_wallet.Waddrmgr.Scoped.Load.Cached.{IsCached, load_account_info-IsCached}
use btc_wallet.Waddrmgr.Scoped.Load.Created.{HasAccount, next_account-load_account_info}
use btc_wallet.Waddrmgr.Scoped.Next.Never.{
  ChildOutcome, next_child_outcome, IsNothing, next_branch_addresses-IsNothing,
}
use btc_wallet.Waddrmgr.Scoped.Next.Loop.{next_infos, next_addresses, next_branch_addresses}
use btc_wallet.Waddrmgr.Scoped.Next.{start, store_all}
use btc_wallet.Waddrmgr.Scoped.Properties.{account_properties}
use btc_wallet.Waddrmgr.Scoped.Properties.Created.{next_account-account_properties, new_properties}
use btc_wallet.Waddrmgr.World.{
  World, in_tree, get_manager, modify, read_random, sealed, get_scoped, put_scoped, allocate,
}
use btc_wallet.Tests.Accounts.{with_coin, with_coin-IsReady, nonce, nonce_size}
use btc_wallet.Tests.Store.{ns, scope}
use btc_wallet.Tests.Toys.{keys, keys-BtcdLaws, curve, random, boxes, boxes-BoxLaws, manager_of}

abbrev scoped : ScopedKeyManager keys
scoped = record {
  scope = scope;
  addr_schema = record {
    external_addr_type = witness_pub_key;
    internal_addr_type = witness_pub_key;
  };
  addrs = [];
  acct_info = [];
  derive_on_unlock = [];
}

abbrev working : Manager keys
working = record (manager_of false false) { scoped_managers = (scope, scoped) ∷ [] }

abbrev savings_tree : MemoryTree
savings_tree =
    (next_account boxes keys working nonce nonce (some ns) scope (codes "savings") with_coin).1

savings_run :
    next_account boxes keys working nonce nonce (some ns) scope (codes "savings") with_coin
    ≡ (ok 1, savings_tree)
unfolding next_account new_account lookup_account fetch_account_by_name fetch_last_account
    fetch_coin_type_keys fetch_read_scope_bucket fetch_write_scope_bucket nested_bucket get put
    put_default_account_info put_account_info put_account_row put_account_id_index
    put_account_name_index put_last_account serialize_default_account_row serialize_account_row
    put_uint32 copy_into set_byte uint32 validate_account_name is_reserved_account_name
    derive_account_key encrypt decrypt
savings_run = refl

abbrev before : World keys
before = record { manager = working; tree = savings_tree; reads = 0 }

abbrev after : World keys
after = (load_account_info boxes keys curve random (λ b. b) (some ns) scope 1 before).1

-- Account 1.
abbrev savings : AccountInfo keys
savings = record {
  acct_name = codes "savings";
  acct_type = 0;
  acct_key_encrypted = some (replicate 24 6 ++ (2147483726 ∷ replicate 16 0));
  acct_key_priv = some 2147483726;
  acct_key_pub = some 2147483726;
  next_external_index = 0;
  last_external_addr = none;
  next_internal_index = 0;
  last_internal_addr = some 0;
  addr_schema = none;
  master_key_fingerprint = 0;
}

load_run :
    load_account_info boxes keys curve random (λ b. b) (some ns) scope 1 before
    ≡ (ok savings, after)
unfolding load_account_info load_uncached last_addr remember key_to_managed wait_for_key
    new_managed_address_from_ext_key new_managed_address new_managed_address_without_priv_key
    address_of validate derive_key account_of decrypt_key in_tree get_manager modify read_random
    sealed get_scoped put_scoped allocate fetch_account_info deserialize_account_row
    deserialize_default_account_row encrypt decrypt fetch_read_scope_bucket nested_bucket get uint32
    next_account new_account lookup_account fetch_account_by_name fetch_last_account
    fetch_coin_type_keys fetch_write_scope_bucket put put_default_account_info put_account_info
    put_account_row put_account_id_index put_account_name_index put_last_account
    serialize_default_account_row serialize_account_row put_uint32 copy_into set_byte
    validate_account_name is_reserved_account_name derive_account_key byte_at read_uint32 slice
load_run = refl

load_account_info-IsCached_example :
    IsCached boxes keys curve random (λ b. b) (some ns) scope 1 after savings
    × (load_account_info boxes keys curve random (λ b. b) (some ns) scope 1 after
        ≡ (ok savings, after))
load_account_info-IsCached_example =
    load_account_info-IsCached boxes keys curve random (λ b. b) (some ns) scope 1 before after
      savings load_run

next_account-load_account_info_example :
    (coin_type_key key pub_key : ℕ) × (derive_account_key keys coin_type_key 1 ≡ ok key)
    × (keys.neuter key ≡ ok pub_key)
    × HasAccount keys (codes "savings") key pub_key savings
next_account-load_account_info_example =
    next_account-load_account_info memory_laws boxes boxes-BoxLaws keys keys-BtcdLaws curve random
      (λ b. b) working nonce nonce nonce_size nonce_size ns scope (codes "savings") with_coin
      savings_tree 1 0 scoped after savings with_coin-IsReady (omega arith) savings_run refl refl
      load_run

in_scope : is_default_scope scope ≡ true
unfolding is_default_scope
in_scope = refl

next_account-account_properties_example :
    (coin_type_key key pub_key : ℕ) × (derive_account_key keys coin_type_key 1 ≡ ok key)
    × (keys.neuter key ≡ ok pub_key)
    × (account_properties boxes keys curve random (λ b. b) (some ns) scope 1 before ≡ (
      if is_default_scope scope
          then err (text 25)
          else ok
              (new_properties keys scope 1 (codes "savings") pub_key after.manager.watching_only),
      after,
    ))
next_account-account_properties_example =
    next_account-account_properties memory_laws boxes boxes-BoxLaws keys keys-BtcdLaws curve random
      (λ b. b) working nonce nonce nonce_size nonce_size ns scope (codes "savings") with_coin
      savings_tree 1 0 scoped after savings with_coin-IsReady (omega arith) savings_run
      (λ e. absurd (ground arith)) refl refl load_run

next_child_outcome_example : ChildOutcome keys 5 3 9
next_child_outcome_example = next_child_outcome keys 5 3 9

-- The account is in memory, and no addresses are asked for.
abbrev held : World keys
held = record before {
  manager = record working {
    scoped_managers = (scope, record scoped { acct_info = (1, savings) ∷ [] }) ∷ [];
  };
}

none_run :
    next_branch_addresses boxes keys curve random
      (λ b. b)
      1700000000
      (some ns)
      scope
      1
      true
      1
      0
      held
    ≡ some (
      ok (
        [],
        record {
          account = 1;
          address_info = [];
          internal = true;
          next_index = 0;
          watch_only = false;
        },
      ),
      held,
    )
unfolding next_branch_addresses next_addresses next_infos store_all start load_account_info
    get_manager get_scoped
none_run = refl

next_branch_addresses-IsNothing_example :
    IsNothing boxes keys curve random
      (λ b. b)
      1700000000
      (some ns)
      scope
      0
      (
        [],
        record {
          account = 1;
          address_info = [];
          internal = true;
          next_index = 0;
          watch_only = false;
        },
      )
next_branch_addresses-IsNothing_example =
    next_branch_addresses-IsNothing boxes keys curve random (λ b. b) 1700000000 (some ns) scope 1 1
      0 true held held
      (
        [],
        record {
          account = 1;
          address_info = [];
          internal = true;
          next_index = 0;
          watch_only = false;
        },
      )
      none_run

abbrev path : DerivationPath
path = record {
  internal_account = 1;
  account = 0;
  branch = 0;
  index = 4;
  master_key_fingerprint = 0;
}

-- The address whose private key is 9, of an account without its own.
abbrev no_key : AccountInfo keys
no_key = record savings { acct_key_priv = none }

abbrev address_9 : ManagedAddress keys
address_9 = record {
  derivation_path = path;
  address = some (9 ∷ []);
  imported = false;
  internal = false;
  compressed = true;
  addr_type = witness_pub_key;
  pub_key = 9;
  priv_key_encrypted = some (replicate 24 6 ++ (9 ∷ replicate 16 0));
  priv_key_ct = some (9 ∷ []);
}

address_run :
    new_managed_address keys curve boxes random path 9 witness_pub_key no_key held
    ≡ (ok address_9, record held { reads = 2 })
unfolding new_managed_address new_managed_address_without_priv_key address_of validate get_manager
    sealed read_random encrypt
address_run = refl

new_managed_address-priv_key_of_example :
    (address_9.priv_key_ct ≡ some (9 ∷ []))
    × ((priv_key_of boxes keys 0 (record address_9 { priv_key_ct = none }) held).0 ≡ ok (9 ∷ []))
new_managed_address-priv_key_of_example =
    new_managed_address-priv_key_of boxes boxes-BoxLaws keys curve random path 9 witness_pub_key
      no_key held (record held { reads = 2 }) held address_9 0 nonce_size address_run refl refl refl

abbrev script_entry : ScriptAddressRow
script_entry = record {
  row = record { addr_type = 2; account = 1; add_time = 0; sync_status = 0; raw_data = [] };
  encrypted_hash = replicate 24 6 ++ (5 ∷ replicate 16 0);
  encrypted_script = replicate 24 6 ++ (3 ∷ replicate 16 0);
}

abbrev loaded : World keys
loaded =
    (row_interface_to_managed boxes keys curve random (λ b. b) (some ns) scope
      (script_row script_entry) held).1

script_run :
    row_interface_to_managed boxes keys curve random
      (λ b. b)
      (some ns)
      scope
      (script_row script_entry)
      held
    ≡ (ok 0, loaded)
unfolding row_interface_to_managed script_address_row_to_managed new_script_address get_manager
    allocate modify decrypt
script_run = refl

loaded_script-never_example : (script boxes keys 0 loaded).0 ≢ ok (3 ∷ [])
loaded_script-never_example =
    loaded_script-never boxes keys curve random (λ b. b) (some ns) scope (script_row script_entry)
      held loaded loaded 0 tt script_run refl (3 ∷ [])
