-- ===== src/Waddrmgr/Rows/Account.antt =====
-- The rows of accounts and their byte formats (waddrmgr/account_info.go). Offsets and sizes are
-- uint32 where the source computes them so, and then wrap.
pub mod Layout
pub mod RoundTrip
pub mod Advance
pub mod WatchOnly
use btc_wallet.Base.{
  ℕ, ◌+◌, ◌-◌, ◌%◌, ◌++◌, Bool, true, false, not, List, [], ◌∷◌, Option, none, some, ltb, ◌==◌,
  length, take, drop, if◌then◌else◌,
}
use btc_wallet.Errors.{Error, manager, err_database, library}
use btc_wallet.Go.{Result, ok, err, ◌>>=◌, ◌>>◌, fail_if}
use btc_wallet.Go.Bytes.{Bytes, u32, make_bytes, slice, copy_into, set_byte, byte_at, copy_of}
use btc_wallet.Go.Endian.{le_bytes, put_uint32, read_uint32, uint32}
use btc_wallet.Waddrmgr.Rows.{
  AccountRow, DefaultAccountRow, WatchOnlyAccountRow, ScopeAddrSchema, scope_schema_to_bytes,
  scope_schema_from_bytes,
}

unfoldable pub serialize_account_row : AccountRow → Result Bytes
serialize_account_row row = do
  let rdlen = length row.raw_data
  let buf = make_bytes (rdlen + 5)
  buf1 ← set_byte 0 (row.acct_type % 256) buf
  buf2 ← put_uint32 1 5 (u32 rdlen) buf1
  copy_into 5 (5 + rdlen) row.raw_data buf2

unfoldable pub deserialize_account_row : Bytes → Result AccountRow
deserialize_account_row serialized_account = do
  fail_if (ltb (length serialized_account) 5) (manager err_database)
  acct_type ← byte_at 0 serialized_account
  rdlen ← read_uint32 1 5 serialized_account
  part ← slice 5 (u32 (5 + rdlen)) serialized_account
  ok (record { acct_type = acct_type; raw_data = copy_of rdlen part })

unfoldable pub serialize_default_account_row : Bytes → Bytes → ℕ → ℕ → Bytes → Result Bytes
serialize_default_account_row pub_enc priv_enc next_external_index next_internal_index name = do
  let pub_len = u32 (length pub_enc)
  let priv_len = u32 (length priv_enc)
  let name_len = u32 (length name)
  let raw_data = make_bytes (u32 (20 + pub_len + priv_len + name_len))
  raw1 ← put_uint32 0 4 pub_len raw_data
  raw2 ← copy_into 4 (u32 (4 + pub_len)) pub_enc raw1
  let offset = u32 (4 + pub_len)
  raw3 ← put_uint32 offset (u32 (offset + 4)) priv_len raw2
  let offset1 = u32 (offset + 4)
  raw4 ← copy_into offset1 (u32 (offset1 + priv_len)) priv_enc raw3
  let offset2 = u32 (offset1 + priv_len)
  raw5 ← put_uint32 offset2 (u32 (offset2 + 4)) next_external_index raw4
  let offset3 = u32 (offset2 + 4)
  raw6 ← put_uint32 offset3 (u32 (offset3 + 4)) next_internal_index raw5
  let offset4 = u32 (offset3 + 4)
  raw7 ← put_uint32 offset4 (u32 (offset4 + 4)) name_len raw6
  let offset5 = u32 (offset4 + 4)
  copy_into offset5 (u32 (offset5 + name_len)) name raw7

unfoldable pub deserialize_default_account_row : AccountRow → Result DefaultAccountRow
deserialize_default_account_row row = do
  fail_if (ltb (length row.raw_data) 20) (manager err_database)
  pub_len ← read_uint32 0 4 row.raw_data
  pub_part ← slice 4 (u32 (4 + pub_len)) row.raw_data
  let offset = u32 (4 + pub_len)
  priv_len ← read_uint32 offset (u32 (offset + 4)) row.raw_data
  let offset1 = u32 (offset + 4)
  priv_part ← slice offset1 (u32 (offset1 + priv_len)) row.raw_data
  let offset2 = u32 (offset1 + priv_len)
  next_external_index ← read_uint32 offset2 (u32 (offset2 + 4)) row.raw_data
  let offset3 = u32 (offset2 + 4)
  next_internal_index ← read_uint32 offset3 (u32 (offset3 + 4)) row.raw_data
  let offset4 = u32 (offset3 + 4)
  name_len ← read_uint32 offset4 (u32 (offset4 + 4)) row.raw_data
  let offset5 = u32 (offset4 + 4)
  name ← slice offset5 (u32 (offset5 + name_len)) row.raw_data
  ok (record {
    row = row;
    pub_key_encrypted = copy_of pub_len pub_part;
    priv_key_encrypted = copy_of priv_len priv_part;
    next_external_index = next_external_index;
    next_internal_index = next_internal_index;
    name = name;
  })

-- `scopeSchemaToBytes` where there is a schema.
abbrev schema_bytes : Option ScopeAddrSchema → Bytes
schema_bytes none = []
schema_bytes (some schema) = scope_schema_to_bytes schema

abbrev schema_flag : Option ScopeAddrSchema → ℕ
schema_flag none = 0
schema_flag (some schema) = 1

-- `binary.Write` to a `bytes.Buffer` appends, and does not fail for these types.
unfoldable pub serialize_watch_only_account_row :
    Bytes → ℕ → ℕ → ℕ → Bytes → Option ScopeAddrSchema → Result Bytes
unfolding scope_schema_to_bytes
serialize_watch_only_account_row pub_enc master_key_fingerprint next_external_index
      next_internal_index name addr_schema =
    ok (
      le_bytes 4 (u32 (length pub_enc))
      ++ (pub_enc
          ++ (le_bytes 4 master_key_fingerprint
              ++ (le_bytes 4 next_external_index
                  ++ (le_bytes 4 next_internal_index
                      ++ (le_bytes 4 (u32 (length name))
                          ++ (name ++ (schema_flag addr_schema ∷ schema_bytes addr_schema))))))))

-- `io.EOF` and `io.ErrUnexpectedEOF`
abbrev pub eof : Error
eof = library 0

abbrev pub unexpected_eof : Error
unexpected_eof = library 1

-- `binary.Read` of `n` bytes from a reader that holds `r`: the bytes, and what is left.
unfoldable pub read_full : ℕ → Bytes → Result (Bytes × Bytes)
read_full n r =
    if ltb (length r) n
    then err (if length r == 0 then eof else unexpected_eof)
    else ok (take n r, drop n r)

unfoldable pub read_number : Bytes → Result (ℕ × Bytes)
read_number r = do (bs, rest) ← read_full 4 r; v ← uint32 bs; ok (v, rest)

read_schema : Bool → Bytes → Result (Option ScopeAddrSchema)
read_schema false r = ok none
read_schema true r = do
  (bs, rest) ← read_full 2 r
  schema ← scope_schema_from_bytes bs
  ok (some schema)

-- There is no read for the fingerprint, so the field keeps its zero value.
unfoldable pub deserialize_watch_only_account_row : AccountRow → Result WatchOnlyAccountRow
unfolding read_schema
deserialize_watch_only_account_row row = do
  fail_if (ltb (length row.raw_data) 21) (manager err_database)
  (pub_len, r1) ← read_number row.raw_data
  (pub_enc, r2) ← read_full pub_len r1
  (next_external_index, r3) ← read_number r2
  (next_internal_index, r4) ← read_number r3
  (name_len, r5) ← read_number r4
  (name, r6) ← read_full name_len r5
  (flag, r7) ← read_full 1 r6
  exists ← byte_at 0 flag
  addr_schema ← read_schema (not (exists == 0)) r7
  ok (record {
    row = row;
    pub_key_encrypted = pub_enc;
    master_key_fingerprint = 0;
    next_external_index = next_external_index;
    next_internal_index = next_internal_index;
    name = name;
    addr_schema = addr_schema;
  })
