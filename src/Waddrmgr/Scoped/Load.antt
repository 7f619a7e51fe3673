-- ===== src/Waddrmgr/Scoped/Load.antt =====
-- The accounts and addresses that a scoped manager holds in memory, made from what the database has
-- (waddrmgr/scoped_manager.go): `keyToManaged`, `loadAccountInfo`, `deriveKeyFromPath`,
-- `loadAndCacheAddress` with `rowInterfaceToManaged` and what it calls, and `DeriveFromKeyPath`. The
-- receiver is the manager of `scope`.
pub mod Cached
pub mod Created
use btc_wallet.Base.{
  ℕ, ◌-◌, ◌==◌, Bool, true, Option, none, some, List, [], ◌∷◌, ◌++◌, length, bytes_eq,
  if◌then◌else◌,
}
use btc_wallet.Errors.{err_crypto}
use btc_wallet.Go.{Result, ok, panic}
use btc_wallet.Go.Bytes.{Bytes}
use btc_wallet.Btcd.{Btcd, Btcec}
use btc_wallet.Snacl.{Crypto}
use btc_wallet.Snacl.Box.{decrypt}
use btc_wallet.Walletdb.Bolt.{Bolt}
use btc_wallet.Walletdb.Bdb.{Handle, ◌>>=◌, ◌>>◌, pure, lift}
use btc_wallet.Waddrmgr.Errors.{wrap_result, convert}
use btc_wallet.Waddrmgr.Rows.{
  KeyScope, ChainAddressRow, ImportedAddressRow, ScriptAddressRow, WitnessScriptAddressRow,
}
use btc_wallet.Waddrmgr.Rows.Address.{
  AddressRowInterface, chain_row, imported_row, script_row, witness_script_row,
}
use btc_wallet.Waddrmgr.Keys.{external_branch, internal_branch, imported_addr_account}
use btc_wallet.Waddrmgr.Manager.{
  DerivationPath, Pointer, AddressObject, managed_address, script_address, witness_script_address,
  taproot_script_address, AccountInfo, Manager,
}
use btc_wallet.Waddrmgr.Store.Accounts.{RowInterface, fetch_account_info}
use btc_wallet.Waddrmgr.Store.Addresses.{fetch_address}
use btc_wallet.Waddrmgr.Managed.{derive_key, key_of, new_managed_address_without_priv_key}
use btc_wallet.Waddrmgr.Managed.Create.{
  new_managed_address_from_ext_key, new_script_address, new_witness_script_address,
}
use btc_wallet.Waddrmgr.Scoped.Account.{account_addr_type, account_of, has_private_key}
use btc_wallet.Waddrmgr.World.{
  Managed, found_or_panic, in_tree, get_manager, get_object, get_scoped, put_scoped, allocate,
  find_account, set_account,
}

-- `ImportedDerivationPath`
abbrev imported_derivation_path : Btcd → DerivationPath
imported_derivation_path d = record {
  internal_account = imported_addr_account d;
  account = 0;
  branch = 0;
  index = 0;
  master_key_fingerprint = 0;
}

-- `m[key] = p`
abbrev pub set_addr : Bytes → Pointer → List (Bytes × Pointer) → List (Bytes × Pointer)
set_addr key p [] = (key, p) ∷ []
set_addr key p ((k, q) ∷ rest) =
    let tail = set_addr key p rest in if bytes_eq k key then (k, p) ∷ rest else (k, q) ∷ tail

module _ (d : Btcd) where
  -- `Address` of an object.
  abbrev pub address_of_object : AddressObject d → Option d.Address
  address_of_object (managed_address a) = a.address
  address_of_object (script_address a) = some a.address
  address_of_object (witness_script_address a) = some a.base.address
  address_of_object (taproot_script_address a key) = some a.base.address

module _ ⦃b : Bolt⦄ (c : Crypto) (d : Btcd) (e : Btcec d) (random : ℕ → ℕ → Result Bytes)
    (sha256 : Bytes → Bytes) (ns : Handle) (scope : KeyScope) where
  -- What is derived from a public key waits for the private one.
  unfoldable pub wait_for_key : d.Key → Pointer → DerivationPath → Managed d (Unit {0})
  wait_for_key derived_key p path = do
    s ← get_scoped d scope
    if d.is_private derived_key
        then pure tt
        else put_scoped d scope (record s {
          derive_on_unlock =
              s.derive_on_unlock
              ++ (record { managed_addr = p; branch = path.branch; index = path.index } ∷ []);
        })

  -- `keyToManaged`
  unfoldable pub key_to_managed : d.Key → DerivationPath → AccountInfo d → Managed d Pointer
  key_to_managed derived_key path info = do
    s ← get_scoped d scope
    let internal = path.branch == internal_branch
    ma ←
        new_managed_address_from_ext_key d e c random path derived_key
          (account_addr_type d s info internal) info
    p ← allocate d (managed_address (record ma { internal = internal }))
    wait_for_key derived_key p path
    pure p

  -- The last address of the account, which is that of the external branch; at index 0 it is the
  -- first one.
  unfoldable pub last_addr : ℕ → AccountInfo d → Bool → Managed d Pointer
  last_addr account info private = do
    acct_key_pub ← lift (found_or_panic info.acct_key_pub)
    last_key ← lift (derive_key d info external_branch (info.next_external_index - 1) private)
    key_to_managed last_key
        (record {
          internal_account = account;
          account = e.child_index acct_key_pub;
          branch = external_branch;
          index = info.next_external_index - 1;
          master_key_fingerprint = info.master_key_fingerprint;
        })
        info

  -- `s.acctInfo[account] = acctInfo`
  unfoldable pub remember : ℕ → AccountInfo d → Managed d (AccountInfo d)
  remember account info = do
    s ← get_scoped d scope
    put_scoped d scope (record s { acct_info = set_account account info s.acct_info })
    pure info

  unfoldable pub load_uncached : ℕ → Managed d (AccountInfo d)
  load_uncached account = do
    row ← in_tree d (convert (fetch_account_info ns scope account))
    m ← get_manager d
    made ← lift (account_of d c m row)
    p ← last_addr account made.0 made.1
    remember account (record (made.0) { last_internal_addr = some p })

  abbrev pub cached_or :
      Option (AccountInfo d) → Managed d (AccountInfo d) → Managed d (AccountInfo d)
  cached_or none m = m
  cached_or (some info) m = pure info

  -- `loadAccountInfo`
  unfoldable pub load_account_info : ℕ → Managed d (AccountInfo d)
  load_account_info account = do
    s ← get_scoped d scope
    cached_or (find_account account s.acct_info) (load_uncached account)

  -- `deriveKeyFromPath`: the address's key, the account's key, and the fingerprint.
  unfoldable pub derive_key_from_path : ℕ → ℕ → ℕ → Bool → Managed d (d.Key × Option d.Key × ℕ)
  derive_key_from_path internal_account branch index private = do
    info ← load_account_info internal_account
    key ← lift (derive_key d info branch index private)
    pure (key, key_of d info private, info.master_key_fingerprint)

  -- `chainAddressRowToManaged`
  unfoldable pub chain_address_row_to_managed : ChainAddressRow → Managed d Pointer
  chain_address_row_to_managed row = do
    m ← get_manager d
    keys ← derive_key_from_path row.row.account row.branch row.index (has_private_key d m)
    info ← load_account_info row.row.account
    acct_key ← lift (found_or_panic keys.1)
    key_to_managed (keys.0)
        (record {
          internal_account = row.row.account;
          account = e.child_index acct_key;
          branch = row.branch;
          index = row.index;
          master_key_fingerprint = keys.2;
        })
        info

  -- `importedAddressRowToManaged`
  unfoldable pub imported_address_row_to_managed : ImportedAddressRow → Managed d Pointer
  imported_address_row_to_managed row = do
    m ← get_manager d
    s ← get_scoped d scope
    pub_bytes ← lift (wrap_result err_crypto (decrypt c m.crypto_key_pub row.encrypted_pub_key))
    pub_key ← lift (wrap_result err_crypto (e.parse_pub_key pub_bytes))
    ma ← lift (
        new_managed_address_without_priv_key d e (imported_derivation_path d) pub_key
          (length pub_bytes == e.compressed_size) s.addr_schema.external_addr_type)
    allocate d (
        managed_address
          (record ma { priv_key_encrypted = some row.encrypted_priv_key; imported = true }))

  -- `scriptAddressRowToManaged` and `witnessScriptAddressRowToManaged`
  unfoldable pub script_address_row_to_managed : ScriptAddressRow → Managed d Pointer
  script_address_row_to_managed row = do
    m ← get_manager d
    script_hash ← lift (wrap_result err_crypto (decrypt c m.crypto_key_pub row.encrypted_hash))
    o ← new_script_address d e row.row.account script_hash row.encrypted_script
    allocate d o

  unfoldable pub witness_script_address_row_to_managed : WitnessScriptAddressRow → Managed d Pointer
  witness_script_address_row_to_managed row = do
    m ← get_manager d
    script_hash ← lift (wrap_result err_crypto (decrypt c m.crypto_key_pub row.encrypted_hash))
    o ←
        new_witness_script_address d e row.row.account script_hash row.encrypted_script
          row.witness_version row.is_secret_script
    allocate d o

  -- `rowInterfaceToManaged`
  unfoldable pub row_interface_to_managed : AddressRowInterface → Managed d Pointer
  row_interface_to_managed (chain_row row) = chain_address_row_to_managed row
  row_interface_to_managed (imported_row row) = imported_address_row_to_managed row
  row_interface_to_managed (script_row row) = script_address_row_to_managed row
  row_interface_to_managed (witness_script_row row) = witness_script_address_row_to_managed row

  -- `loadAndCacheAddress`; no error is a pointer to a ManagerError, so each is converted.
  unfoldable pub load_and_cache_address : d.Address → Managed d Pointer
  load_and_cache_address address = do
    row ← in_tree d (convert (fetch_address sha256 ns scope (e.address_script address)))
    p ← row_interface_to_managed row
    o ← get_object d p
    managed ← lift (found_or_panic (address_of_object d o))
    s ← get_scoped d scope
    put_scoped d scope (record s { addrs = set_addr (e.address_script managed) p s.addrs })
    pure p

  -- `DeriveFromKeyPath`
  unfoldable pub derive_from_key_path : DerivationPath → Managed d Pointer
  derive_from_key_path path = do
    m ← get_manager d
    keys ← derive_key_from_path path.internal_account path.branch path.index (has_private_key d m)
    info ← load_account_info path.internal_account
    key_to_managed (keys.0) path info
