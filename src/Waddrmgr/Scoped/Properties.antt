-- ===== src/Waddrmgr/Scoped/Properties.antt =====
-- The properties of an account (waddrmgr/scoped_manager.go, `AccountProperties` and
-- `cloneKeyWithVersion`), with `forEachAccountAddress` of waddrmgr/db.go.
pub mod Created
use btc_wallet.Base.{
  ℕ, ◌+◌, ◌==◌, ◌&&◌, ◌||◌, not, Bool, true, false, Option, none, some, List, [], ◌∷◌,
  if◌then◌else◌,
}
use btc_wallet.Errors.{Error, text}
use btc_wallet.Go.{Result, ok, err, panic}
use btc_wallet.Go.Bytes.{Bytes, u32}
use btc_wallet.Btcd.{Btcd, Btcec}
use btc_wallet.Snacl.{Crypto}
use btc_wallet.Walletdb.Bolt.{Bolt}
use btc_wallet.Walletdb.Bdb.{
  Action, Tx, Handle, ◌>>=◌, ◌>>◌, pure, lift, nested_bucket, keys_of, get,
}
use btc_wallet.Waddrmgr.Errors.{convert}
use btc_wallet.Waddrmgr.Rows.{KeyScope, ScopeAddrSchema, account_default, uint32_to_bytes}
use btc_wallet.Waddrmgr.Rows.Address.{AddressRowInterface}
use btc_wallet.Waddrmgr.Keys.{imported_addr_account, imported_addr_account_name, is_default_scope}
use btc_wallet.Waddrmgr.Manager.{AccountInfo, Manager}
use btc_wallet.Waddrmgr.Store
use btc_wallet.Waddrmgr.Store.{fetch_read_scope_bucket}
use btc_wallet.Waddrmgr.Store.Addresses.{fetch_address_by_hash}
use btc_wallet.Waddrmgr.Scoped.Load.{load_account_info}
use btc_wallet.Waddrmgr.World.{Managed, in_tree, get_manager, get_scoped}

pub record AccountProperties (d : Btcd) : Type 0 where
  pub account_number : ℕ
  pub account_name : Bytes
  pub external_key_count : ℕ
  pub internal_key_count : ℕ
  pub imported_key_count : ℕ
  pub account_pub_key : Option d.Key
  pub master_key_fingerprint : ℕ
  pub key_scope : KeyScope
  pub is_watch_only : Bool
  pub addr_schema : Option ScopeAddrSchema

-- An account's addresses: `f` takes the rows in turn, from a value to the next.
module _ ⦃b : Bolt⦄ (sha256 : Bytes → Bytes) (ns : Handle) (scope : KeyScope) {A : Type 0}
    (f : AddressRowInterface → A → Result A) where
  abbrev row_of : Option Bytes → Bytes → A → Tx A
  row_of none key a = pure a
  row_of (some v) key a = do row ← fetch_address_by_hash sha256 ns scope key; lift (f row a)

  unfoldable pub for_each_row : Handle → List Bytes → A → Tx A
  for_each_row bucket [] a = pure a
  for_each_row bucket (key ∷ rest) a = do
    v ← get bucket key
    a' ← row_of v key a
    for_each_row bucket rest a'

  abbrev rows_of : Handle → A → Tx A
  rows_of none a = pure a
  rows_of (some path) a = convert (do ks ← keys_of (some path); for_each_row (some path) ks a)

  -- `forEachAccountAddress`
  unfoldable pub for_each_account_address : ℕ → A → Tx A
  for_each_account_address account a = do
    scoped ← fetch_read_scope_bucket ns scope
    index ← nested_bucket scoped Store.Name.addr_acct_idx
    bucket ← nested_bucket index (uint32_to_bytes account)
    rows_of bucket a

module _ ⦃b : Bolt⦄ (c : Crypto) (d : Btcd) (e : Btcec d) (random : ℕ → ℕ → Result Bytes)
    (sha256 : Bytes → Bytes) (ns : Handle) (scope : KeyScope) where
  -- `cloneKeyWithVersion`, which is not implemented.
  abbrev clone_key_with_version : Option d.Key → Result (Option d.Key)
  clone_key_with_version key = err (text 24)

  -- The error of cloning the key is replaced.
  abbrev pub cloned_if : Bool → Option d.Key → Result (Option d.Key)
  cloned_if false key = ok key
  cloned_if true key = replaced (clone_key_with_version key)
    where
      replaced : Result (Option d.Key) → Result (Option d.Key)
      replaced (ok k) = ok k
      replaced (err x) = err (text 25)
      replaced panic = panic

  abbrev is_none {ℓ} : {A : Type ℓ} → Option A → Bool
  is_none none = true
  is_none (some a) = false

  -- `AccountProperties` of an account that is not the one of imported addresses.
  unfoldable pub held_properties : ℕ → Managed d (AccountProperties d)
  held_properties account = do
    info ← load_account_info c d e random sha256 ns scope account
    m ← get_manager d
    acct_pub_key ← lift (
        cloned_if ((info.acct_type == account_default) && is_default_scope scope) info.acct_key_pub)
    pure (record {
      account_number = account;
      account_name = info.acct_name;
      external_key_count = info.next_external_index;
      internal_key_count = info.next_internal_index;
      imported_key_count = 0;
      account_pub_key = acct_pub_key;
      master_key_fingerprint = info.master_key_fingerprint;
      key_scope = scope;
      is_watch_only = m.watching_only || is_none info.acct_key_priv;
      addr_schema = info.addr_schema;
    })

  unfoldable pub imported_properties : ℕ → Managed d (AccountProperties d)
  imported_properties account = do
    m ← get_manager d
    count ← in_tree d (
        for_each_account_address sha256 ns scope (λ row n. ok (u32 (n + 1)))
          (imported_addr_account d) 0)
    pure (record {
      account_number = account;
      account_name = imported_addr_account_name;
      external_key_count = 0;
      internal_key_count = 0;
      imported_key_count = count;
      account_pub_key = none;
      master_key_fingerprint = 0;
      key_scope = scope;
      is_watch_only = m.watching_only;
      addr_schema = none;
    })

  -- `AccountProperties`
  unfoldable pub account_properties : ℕ → Managed d (AccountProperties d)
  account_properties account =
      if account == imported_addr_account d
      then imported_properties account
      else held_properties account
