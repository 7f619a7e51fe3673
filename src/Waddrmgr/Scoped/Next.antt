-- ===== src/Waddrmgr/Scoped/Next.antt =====
-- New addresses of an account: the parts of `nextAddresses` (waddrmgr/scoped_manager.go) without
-- loops that have no bound. The function that is handed to `OnCommit` is a value. `now` is the clock.
pub mod Loop
pub mod Never
use btc_wallet.Base.{
  ℕ, ◌+◌, ◌-◌, ◌^◌, ◌==◌, ◌||◌, ltb, not, ◌&&◌, Bool, true, false, Option, none, some, List, [],
  ◌∷◌, ◌++◌, length, bytes_eq, if◌then◌else◌,
}
use btc_wallet.Errors.{
  Error, text, manager, wrapped, err_account_num_too_high, err_too_many_addresses, err_key_chain,
  err_crypto,
}
use btc_wallet.Go.{Result, ok, err, panic, fail_if}
use btc_wallet.Go.Bytes.{Bytes, u32}
use btc_wallet.Btcd.{Btcd, Btcec}
use btc_wallet.Snacl.{Crypto}
use btc_wallet.Walletdb.Bolt.{Bolt}
use btc_wallet.Walletdb.Bdb.{Handle, ◌>>=◌, ◌>>◌, pure, raise, lift}
use btc_wallet.Waddrmgr.Errors.{wrap, wrap_result, convert}
use btc_wallet.Waddrmgr.Rows.{KeyScope, AddressType, ss_full, ss_none, adt_chain}
use btc_wallet.Waddrmgr.Keys.{
  external_branch, internal_branch, is_library, max_account_num, max_addresses_per_account,
  imported_addr_account,
}
use btc_wallet.Waddrmgr.Manager.{
  DerivationPath, Pointer, UnlockDeriveInfo, AddressObject, managed_address, script_address,
  witness_script_address, taproot_script_address, AccountInfo, Manager,
}
use btc_wallet.Waddrmgr.Store.Addresses.{put_chained_address, put_script_address}
use btc_wallet.Waddrmgr.Store.Params.{bytes_of}
use btc_wallet.Waddrmgr.Managed.Create.{new_managed_address_from_ext_key}
use btc_wallet.Waddrmgr.Scoped.{without}
use btc_wallet.Waddrmgr.Scoped.Account.{account_addr_type}
use btc_wallet.Waddrmgr.Scoped.Load.{
  address_of_object, load_account_info, load_and_cache_address, set_addr,
}
use btc_wallet.Waddrmgr.World.{
  World, Managed, found_or_panic, in_tree, get_manager, get_object, get_scoped, put_scoped,
  allocate, sealed, find_account, set_account,
}

-- What is known before the loop: the account's key, the branch's, and the next index.
pub record Start (d : Btcd) : Type 0 where
  pub acct_key : d.Key
  pub branch_key : d.Key
  pub branch : ℕ
  pub next_index : ℕ
  pub addr_type : AddressType
  pub watch_only : Bool

-- What the function for `OnCommit` holds.
pub record OnCommit : Type 0 where
  pub account : ℕ
  pub address_info : List UnlockDeriveInfo
  pub internal : Bool
  pub next_index : ℕ
  pub watch_only : Bool

module _ ⦃b : Bolt⦄ (c : Crypto) (d : Btcd) (e : Btcec d) (random : ℕ → ℕ → Result Bytes)
    (sha256 : Bytes → Bytes) (now : ℕ) (ns : Handle) (scope : KeyScope) where
  -- The key that the branch is derived from.
  abbrev key_for : Manager d → AccountInfo d → Bool → Option d.Key
  key_for m info watch_only =
      if not m.locked && not watch_only then info.acct_key_priv else info.acct_key_pub

  -- Up to the loop.
  unfoldable pub start : AccountInfo d → ℕ → Bool → Managed d (Start d)
  start info num_addresses internal = do
    m ← get_manager d
    s ← get_scoped d scope
    let watch_only = m.watching_only || (length (bytes_of info.acct_key_encrypted) == 0)
    let branch = if internal then internal_branch else external_branch
    let next_index = if internal then info.next_internal_index else info.next_external_index
    lift (
        fail_if
          (ltb (max_addresses_per_account d) num_addresses
            || ltb (max_addresses_per_account d) (u32 (next_index + num_addresses)))
          (manager err_too_many_addresses))
    acct_key ← lift (found_or_panic (key_for m info watch_only))
    branch_key ← lift (wrap_result err_key_chain (d.derive_non_standard acct_key branch))
    pure (record {
      acct_key = acct_key;
      branch_key = branch_key;
      branch = branch;
      next_index = next_index;
      addr_type = account_addr_type d s info internal;
      watch_only = watch_only;
    })

  -- The address of a child, whose index is one below the next.
  unfoldable pub child_address :
      ℕ → AccountInfo d → Bool → Start d → d.Key → ℕ → Managed d UnlockDeriveInfo
  child_address account info internal from key next_index = do
    let index = u32 (next_index + (2 ^ 32 - 1))
    ma ←
        new_managed_address_from_ext_key d e c random
          (record {
            internal_account = account;
            account = e.child_index from.acct_key;
            branch = from.branch;
            index = index;
            master_key_fingerprint = info.master_key_fingerprint;
          })
          key from.addr_type info
    p ← allocate d (managed_address (record ma { internal = internal }))
    pure (record { managed_addr = p; branch = from.branch; index = index })

  -- The `switch` that writes an address.
  unfoldable pub store_object :
      ℕ → UnlockDeriveInfo → Bytes → AddressObject d → Managed d (Unit {0})
  store_object account info address_id (managed_address a) = in_tree d (
      convert (
        put_chained_address sha256 now ns scope address_id account ss_full info.branch info.index
          adt_chain))
  store_object account info address_id (script_address a) = do
    m ← get_manager d
    encrypted_hash ← wrap err_crypto (sealed d c random m.crypto_key_pub (e.hash_of a.address))
    in_tree d (
        convert (
          put_script_address sha256 now ns scope (e.hash_of a.address) (imported_addr_account d)
            ss_none encrypted_hash (bytes_of a.script_encrypted)))
  store_object account info address_id (witness_script_address a) = pure tt
  store_object account info address_id (taproot_script_address a key) = pure tt

  -- `delete(s.addrs, …)` where the address read is another one.
  unfoldable pub forget_if : Bool → Bytes → Managed d (Unit {0})
  forget_if false key = pure tt
  forget_if true key = do
    s ← get_scoped d scope
    put_scoped d scope (record s { addrs = without key s.addrs })

  -- The loop that writes the addresses, whose body ends with an error.
  unfoldable pub store_all : ℕ → List UnlockDeriveInfo → Managed d (Unit {0})
  store_all account [] = pure tt
  store_all account (info ∷ rest) = do
    o ← get_object d info.managed_addr
    address ← lift (found_or_panic (address_of_object d o))
    store_object account info (e.address_script address) o
    p ← convert (load_and_cache_address c d e random sha256 ns scope address)
    disk ← get_object d p
    disk_address ← lift (found_or_panic (address_of_object d disk))
    forget_if (not (bytes_eq (e.address_string address) (e.address_string disk_address)))
        (e.address_script disk_address)
    raise (text 23)

  -- The function for `OnCommit`.
  unfoldable pub commit_all : Bool → List UnlockDeriveInfo → Managed d (Unit {0})
  commit_all watch_only [] = pure tt
  commit_all watch_only (info ∷ rest) = do
    o ← get_object d info.managed_addr
    address ← lift (found_or_panic (address_of_object d o))
    m ← get_manager d
    s ← get_scoped d scope
    put_scoped d scope (record s {
      addrs = set_addr (e.address_script address) info.managed_addr s.addrs;
      derive_on_unlock =
          if m.locked && not watch_only
          then s.derive_on_unlock ++ (info ∷ [])
          else s.derive_on_unlock;
    })
    commit_all watch_only rest

  abbrev last_of : List UnlockDeriveInfo → Option UnlockDeriveInfo
  last_of [] = none
  last_of (info ∷ []) = some info
  last_of (info ∷ (next ∷ rest)) = last_of (next ∷ rest)

  abbrev advanced : Bool → ℕ → Pointer → AccountInfo d → AccountInfo d
  advanced true next p info = record info {
    next_internal_index = next;
    last_internal_addr = some p;
  }
  advanced false next p info = record info {
    next_external_index = next;
    last_external_addr = some p;
  }

  unfoldable pub run_on_commit : OnCommit → Managed d (Unit {0})
  run_on_commit f = do
    commit_all f.watch_only f.address_info
    last ← lift (found_or_panic (last_of f.address_info))
    s ← get_scoped d scope
    info ← lift (found_or_panic (find_account f.account s.acct_info))
    put_scoped d scope (record s {
      acct_info =
          set_account f.account (advanced f.internal f.next_index last.managed_addr info)
            s.acct_info;
    })
