-- ===== src/Waddrmgr/Rows/Address.antt =====
-- The rows of addresses and their byte formats (waddrmgr/db.go). Offsets are uint32 and wrap.
pub mod Layout
use btc_wallet.Base.{ℕ, ◌+◌, ◌%◌, Bool, true, false, not, ltb, ◌==◌, length, if◌then◌else◌}
use btc_wallet.Errors.{manager, err_database}
use btc_wallet.Go.{Result, ok, err, ◌>>=◌, ◌>>◌, fail_if}
use btc_wallet.Go.Bytes.{Bytes, u32, make_bytes, slice, copy_into, set_byte, byte_at, copy_of}
use btc_wallet.Go.Endian.{put_uint32, put_uint64, read_uint32, read_uint64}
use btc_wallet.Waddrmgr.Rows.{
  AddressRow, ChainAddressRow, ImportedAddressRow, ScriptAddressRow, WitnessScriptAddressRow,
  adt_chain, adt_import, adt_script, adt_witness_script, adt_taproot_script,
}

-- `make([]byte, 0)` has no room for the two numbers.
pub serialize_chained_address : ℕ → ℕ → Result Bytes
serialize_chained_address branch index = do
  let raw_data = make_bytes 0
  raw1 ← put_uint32 0 4 branch raw_data
  put_uint32 4 8 index raw1

pub deserialize_chained_address : AddressRow → Result ChainAddressRow
deserialize_chained_address row = do
  fail_if (not (length row.raw_data == 8)) (manager err_database)
  branch ← read_uint32 0 4 row.raw_data
  index ← read_uint32 4 8 row.raw_data
  ok (record { row = row; branch = branch; index = index })

pub serialize_imported_address : Bytes → Bytes → Result Bytes
serialize_imported_address encrypted_pub_key encrypted_priv_key = do
  let pub_len = u32 (length encrypted_pub_key)
  let priv_len = u32 (length encrypted_priv_key)
  let raw_data = make_bytes (u32 (8 + pub_len + priv_len))
  raw1 ← put_uint32 0 4 pub_len raw_data
  raw2 ← copy_into 4 (u32 (4 + pub_len)) encrypted_pub_key raw1
  let offset = u32 (4 + pub_len)
  raw3 ← put_uint32 offset (u32 (offset + 4)) priv_len raw2
  let offset1 = u32 (offset + 4)
  copy_into offset1 (u32 (offset1 + priv_len)) encrypted_priv_key raw3

pub deserialize_imported_address : AddressRow → Result ImportedAddressRow
deserialize_imported_address row = do
  fail_if (ltb (length row.raw_data) 8) (manager err_database)
  pub_len ← read_uint32 0 4 row.raw_data
  pub_part ← slice 4 (u32 (4 + pub_len)) row.raw_data
  let offset = u32 (4 + pub_len)
  priv_len ← read_uint32 offset (u32 (offset + 4)) row.raw_data
  let offset1 = u32 (offset + 4)
  priv_part ← slice offset1 (u32 (offset1 + priv_len)) row.raw_data
  ok (record {
    row = row;
    encrypted_pub_key = copy_of pub_len pub_part;
    encrypted_priv_key = copy_of priv_len priv_part;
  })

unfoldable pub serialize_script_address : Bytes → Bytes → Result Bytes
serialize_script_address encrypted_hash encrypted_script = do
  let hash_len = u32 (length encrypted_hash)
  let script_len = u32 (length encrypted_script)
  let raw_data = make_bytes (u32 (8 + hash_len + script_len))
  raw1 ← put_uint32 0 4 hash_len raw_data
  raw2 ← copy_into 4 (u32 (4 + hash_len)) encrypted_hash raw1
  let offset = u32 (4 + hash_len)
  raw3 ← put_uint32 offset (u32 (offset + 4)) script_len raw2
  let offset1 = u32 (offset + 4)
  copy_into offset1 (u32 (offset1 + script_len)) encrypted_script raw3

pub deserialize_script_address : AddressRow → Result ScriptAddressRow
deserialize_script_address row = do
  fail_if (ltb (length row.raw_data) 8) (manager err_database)
  hash_len ← read_uint32 0 4 row.raw_data
  hash_part ← slice 4 (u32 (4 + hash_len)) row.raw_data
  let offset = u32 (4 + hash_len)
  script_len ← read_uint32 offset (u32 (offset + 4)) row.raw_data
  let offset1 = u32 (offset + 4)
  script_part ← slice offset1 (u32 (offset1 + script_len)) row.raw_data
  ok (record {
    row = row;
    encrypted_hash = copy_of hash_len hash_part;
    encrypted_script = copy_of script_len script_part;
  })

pub serialize_witness_script_address : ℕ → Bool → Bytes → Bytes → Result Bytes
serialize_witness_script_address witness_version is_secret_script encrypted_hash encrypted_script =
    do
      let hash_len = u32 (length encrypted_hash)
      let script_len = u32 (length encrypted_script)
      let raw_data = make_bytes (u32 (10 + hash_len + script_len))
      raw1 ← set_byte 0 witness_version raw_data
      raw2 ← if is_secret_script then set_byte 1 1 raw1 else ok raw1
      raw3 ← put_uint32 2 6 hash_len raw2
      raw4 ← copy_into 6 (u32 (6 + hash_len)) encrypted_hash raw3
      let offset = u32 (6 + hash_len)
      raw5 ← put_uint32 offset (u32 (offset + 4)) script_len raw4
      let offset1 = u32 (offset + 4)
      copy_into offset1 (u32 (offset1 + script_len)) encrypted_script raw5

pub deserialize_witness_script_address : AddressRow → Result WitnessScriptAddressRow
deserialize_witness_script_address row = do
  fail_if (ltb (length row.raw_data) 10) (manager err_database)
  witness_version ← byte_at 0 row.raw_data
  secret ← byte_at 1 row.raw_data
  hash_len ← read_uint32 2 6 row.raw_data
  hash_part ← slice 6 (u32 (6 + hash_len)) row.raw_data
  let offset = u32 (6 + hash_len)
  script_len ← read_uint32 offset (u32 (offset + 4)) row.raw_data
  let offset1 = u32 (offset + 4)
  script_part ← slice offset1 (u32 (offset1 + script_len)) row.raw_data
  ok (record {
    row = row;
    witness_version = witness_version;
    is_secret_script = secret == 1;
    encrypted_hash = copy_of hash_len hash_part;
    encrypted_script = copy_of script_len script_part;
  })

unfoldable pub serialize_address_row : AddressRow → Result Bytes
serialize_address_row row = do
  let rdlen = length row.raw_data
  let buf = make_bytes (18 + rdlen)
  buf1 ← set_byte 0 (row.addr_type % 256) buf
  buf2 ← put_uint32 1 5 row.account buf1
  buf3 ← put_uint64 5 13 row.add_time buf2
  buf4 ← set_byte 13 (row.sync_status % 256) buf3
  buf5 ← put_uint32 14 18 (u32 rdlen) buf4
  copy_into 18 (18 + rdlen) row.raw_data buf5

pub deserialize_address_row : Bytes → Result AddressRow
deserialize_address_row serialize_address = do
  fail_if (not (length serialize_address == 18)) (manager err_database)
  addr_type ← byte_at 0 serialize_address
  account ← read_uint32 1 5 serialize_address
  add_time ← read_uint64 5 13 serialize_address
  sync_status ← byte_at 13 serialize_address
  rdlen ← read_uint32 14 18 serialize_address
  part ← slice 18 (u32 (18 + rdlen)) serialize_address
  ok (record {
    addr_type = addr_type;
    account = account;
    add_time = add_time;
    sync_status = sync_status;
    raw_data = copy_of rdlen part;
  })

-- The `interface{}` of `fetchAddressByHash`.
pub data AddressRowInterface : Type 0 where
  chain_row : ChainAddressRow → AddressRowInterface
  imported_row : ImportedAddressRow → AddressRowInterface
  script_row : ScriptAddressRow → AddressRowInterface
  witness_script_row : WitnessScriptAddressRow → AddressRowInterface

-- `switch row.addrType`
pub typed_address_row : AddressRow → Result AddressRowInterface
typed_address_row row =
    if row.addr_type == adt_chain
    then (do r ← deserialize_chained_address row; ok (chain_row r))
    else if row.addr_type == adt_import
    then (do r ← deserialize_imported_address row; ok (imported_row r))
    else if row.addr_type == adt_script
    then (do r ← deserialize_script_address row; ok (script_row r))
    else if row.addr_type == adt_witness_script
    then (do r ← deserialize_witness_script_address row; ok (witness_script_row r))
    else if row.addr_type == adt_taproot_script
    then (do r ← deserialize_witness_script_address row; ok (witness_script_row r))
    else err (manager err_database)
