-- ===== src/Waddrmgr/Rows.antt =====
-- The rows of the address manager's database: their types, and the conversions of scopes, schemas,
-- account numbers and names to bytes (waddrmgr/db.go, with the types of waddrmgr/address.go and
-- waddrmgr/scoped_manager.go). A Go enumeration over uint8 is a number below 256, since the
-- conversions from bytes produce any of them.
pub mod Account
pub mod Address
use btc_wallet.Base.{ℕ, ◌%◌, ◌++◌, Option, length}
use btc_wallet.Base.{[], ◌∷◌, Bool}
use btc_wallet.Go.{Result, ok, ◌>>=◌}
use btc_wallet.Go.Bytes.{Bytes, u32, byte_at}
use btc_wallet.Go.Endian.{le_bytes}

-- `AddressType` of waddrmgr/address.go.
abbrev pub AddressType : Type 0
AddressType = ℕ

abbrev pub pub_key_hash : AddressType
pub_key_hash = 0

abbrev pub script : AddressType
script = 1

abbrev pub nested_witness_pub_key : AddressType
nested_witness_pub_key = 3

abbrev pub witness_pub_key : AddressType
witness_pub_key = 4

abbrev pub witness_script : AddressType
witness_script = 5

abbrev pub taproot_pub_key : AddressType
taproot_pub_key = 6

abbrev pub taproot_script : AddressType
taproot_script = 7

-- `accountType`
abbrev pub account_default : ℕ
account_default = 0

abbrev pub account_watch_only : ℕ
account_watch_only = 1

-- `syncStatus`
abbrev pub ss_none : ℕ
ss_none = 0

abbrev pub ss_full : ℕ
ss_full = 2

-- `addressType`, the kind of a stored address row.
abbrev pub adt_chain : ℕ
adt_chain = 0

abbrev pub adt_import : ℕ
adt_import = 1

abbrev pub adt_script : ℕ
adt_script = 2

abbrev pub adt_witness_script : ℕ
adt_witness_script = 3

abbrev pub adt_taproot_script : ℕ
adt_taproot_script = 4

pub record KeyScope : Type 0 where
  pub purpose : ℕ
  pub coin : ℕ

pub record ScopeAddrSchema : Type 0 where
  pub external_addr_type : AddressType
  pub internal_addr_type : AddressType

-- The array of 8 bytes that two `PutUint32` fill.
abbrev pub scope_to_bytes : KeyScope → Bytes
scope_to_bytes scope = le_bytes 4 scope.purpose ++ le_bytes 4 scope.coin

unfoldable pub scope_schema_to_bytes : ScopeAddrSchema → Bytes
scope_schema_to_bytes schema =
    (schema.internal_addr_type % 256) ∷ (schema.external_addr_type % 256) ∷ []

unfoldable pub scope_schema_from_bytes : Bytes → Result ScopeAddrSchema
scope_schema_from_bytes schema_bytes = do
  internal ← byte_at 0 schema_bytes
  external ← byte_at 1 schema_bytes
  ok (record { external_addr_type = external; internal_addr_type = internal })

abbrev pub uint32_to_bytes : ℕ → Bytes
uint32_to_bytes number = le_bytes 4 number

-- The size in front, then the bytes of the string.
abbrev pub string_to_bytes : Bytes → Bytes
string_to_bytes s = uint32_to_bytes (u32 (length s)) ++ s

pub record AccountRow : Type 0 where
  pub acct_type : ℕ
  pub raw_data : Bytes

pub record DefaultAccountRow : Type 0 where
  pub row : AccountRow
  pub pub_key_encrypted : Bytes
  pub priv_key_encrypted : Bytes
  pub next_external_index : ℕ
  pub next_internal_index : ℕ
  pub name : Bytes

pub record WatchOnlyAccountRow : Type 0 where
  pub row : AccountRow
  pub pub_key_encrypted : Bytes
  pub master_key_fingerprint : ℕ
  pub next_external_index : ℕ
  pub next_internal_index : ℕ
  pub name : Bytes
  pub addr_schema : Option ScopeAddrSchema

pub record AddressRow : Type 0 where
  pub addr_type : ℕ
  pub account : ℕ
  pub add_time : ℕ
  pub sync_status : ℕ
  pub raw_data : Bytes

pub record ChainAddressRow : Type 0 where
  pub row : AddressRow
  pub branch : ℕ
  pub index : ℕ

pub record ImportedAddressRow : Type 0 where
  pub row : AddressRow
  pub encrypted_pub_key : Bytes
  pub encrypted_priv_key : Bytes

pub record ScriptAddressRow : Type 0 where
  pub row : AddressRow
  pub encrypted_hash : Bytes
  pub encrypted_script : Bytes

pub record WitnessScriptAddressRow : Type 0 where
  pub row : AddressRow
  pub witness_version : ℕ
  pub is_secret_script : Bool
  pub encrypted_hash : Bytes
  pub encrypted_script : Bytes
