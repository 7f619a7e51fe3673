-- ===== src/Waddrmgr/Manager.antt =====
-- The state of the address manager (waddrmgr/manager.go, waddrmgr/scoped_manager.go,
-- waddrmgr/account_info.go). A Go map is the list of its entries. The mutexes, the cache of private
-- keys, which nothing reads, and the network's parameters are left out.
pub mod Create
pub mod Open
pub mod Lock
pub mod Scopes
pub mod Unlock
use btc_wallet.Base.{ℕ, Bool, true, List, [], ◌∷◌, Option, none, some, if◌then◌else◌}
use btc_wallet.Errors.{manager, err_scope_not_found}
use btc_wallet.Go.{Result, ok, err}
use btc_wallet.Go.Bytes.{Bytes}
use btc_wallet.Btcd.{Btcd}
use btc_wallet.Snacl.{SecretKey}
use btc_wallet.Waddrmgr.Rows.{KeyScope, ScopeAddrSchema, AddressType}
use btc_wallet.Waddrmgr.Keys.{scope_eq}

pub record DerivationPath : Type 0 where
  pub internal_account : ℕ
  pub account : ℕ
  pub branch : ℕ
  pub index : ℕ
  pub master_key_fingerprint : ℕ

-- A pointer to an address object is its place in the manager's `objects`.
abbrev pub Pointer : Type 0
Pointer = ℕ

pub record UnlockDeriveInfo : Type 0 where
  pub managed_addr : Pointer
  pub branch : ℕ
  pub index : ℕ

module _ (d : Btcd) where
  -- `managedAddress`; `none` in place of an address, or of clear or encrypted bytes, is nil.
  pub record ManagedAddress : Type 0 where
    pub derivation_path : DerivationPath
    pub address : Option d.Address
    pub imported : Bool
    pub internal : Bool
    pub compressed : Bool
    pub addr_type : AddressType
    pub pub_key : d.PublicKey
    pub priv_key_encrypted : Option Bytes
    pub priv_key_ct : Option Bytes

  -- `baseScriptAddress`, with the address of the object that holds it.
  pub record ScriptAddress : Type 0 where
    pub account : ℕ
    pub address : d.Address
    pub script_encrypted : Option Bytes
    pub script_clear_text : Option Bytes

  -- `witnessScriptAddress`; a Taproot script address adds its tweaked key.
  pub record WitnessScriptAddress : Type 0 where
    pub base : ScriptAddress
    pub witness_version : ℕ
    pub is_secret_script : Bool

  -- The types behind the interface `ManagedAddress`.
  pub data AddressObject : Type 0 where
    managed_address : ManagedAddress → AddressObject
    script_address : ScriptAddress → AddressObject
    witness_script_address : WitnessScriptAddress → AddressObject
    taproot_script_address : WitnessScriptAddress → d.PublicKey → AddressObject

  pub record AccountInfo : Type 0 where
    pub acct_name : Bytes
    pub acct_type : ℕ
    pub acct_key_encrypted : Option Bytes
    pub acct_key_priv : Option d.Key
    pub acct_key_pub : Option d.Key
    pub next_external_index : ℕ
    pub last_external_addr : Option Pointer
    pub next_internal_index : ℕ
    pub last_internal_addr : Option Pointer
    pub addr_schema : Option ScopeAddrSchema
    pub master_key_fingerprint : ℕ

  pub record ScopedKeyManager : Type 0 where
    pub scope : KeyScope
    pub addr_schema : ScopeAddrSchema
    pub addrs : List (Bytes × Pointer)
    pub acct_info : List (ℕ × AccountInfo)
    pub derive_on_unlock : List UnlockDeriveInfo

  pub record Manager : Type 0 where
    pub objects : List AddressObject
    pub scoped_managers : List (KeyScope × ScopedKeyManager)
    pub external_addr_schemas : List (AddressType × List KeyScope)
    pub internal_addr_schemas : List (AddressType × List KeyScope)
    pub watching_only : Bool
    pub master_key_pub : SecretKey
    pub master_key_priv : SecretKey
    pub crypto_key_pub : Bytes
    pub crypto_key_priv : Bytes
    pub crypto_key_priv_encrypted : Option Bytes
    pub crypto_key_script : Bytes
    pub crypto_key_script_encrypted : Option Bytes
    pub priv_passphrase_salt : Bytes
    pub hashed_priv_passphrase : Bytes
    pub locked : Bool
    pub closed : Bool

  -- `Close` of the manager.
  abbrev pub close : Manager → Manager
  close m = record m { closed = true }

  abbrev pub find_scope : KeyScope → List (KeyScope × ScopedKeyManager) → Option ScopedKeyManager
  find_scope scope [] = none
  find_scope scope ((s, sm) ∷ rest) = if scope_eq s scope then some sm else find_scope scope rest

  abbrev or_scope_error : Option ScopedKeyManager → Result ScopedKeyManager
  or_scope_error none = err (manager err_scope_not_found)
  or_scope_error (some sm) = ok sm

  -- `FetchScopedKeyManager`
  unfoldable pub fetch_scoped_key_manager : Manager → KeyScope → Result ScopedKeyManager
  fetch_scoped_key_manager m scope = or_scope_error (find_scope scope m.scoped_managers)
