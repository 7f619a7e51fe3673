-- ===== src/Waddrmgr/Rows/Address/Layout.antt =====
-- What the address rows look like in bytes, and what is read back from them.
use btc_wallet.Base.{
  ℕ, ◌+◌, ◌%◌, ◌^◌, ◌<◌, ◌≡◌, refl, ap, [], ◌∷◌, ◌++◌, append_assoc, append-nil, length,
  length-append, ltb-false, arith,
}
use btc_wallet.Errors.{manager, err_database}
use btc_wallet.Go.{ok, err, panic, ◌>>=◌}
use btc_wallet.Go.Bytes.{
  Bytes, u32, make_bytes, At-start_eq, At-append, slice-At, copy_into-fill, set_byte-fill,
  copy_of_whole, copy_into,
}
use btc_wallet.Go.Endian.{le_bytes, put_uint32, put_uint32-fill, put_uint64-fill, read_uint32-At}
use btc_wallet.Waddrmgr.Rows.{AddressRow}
use btc_wallet.Waddrmgr.Rows.Address.{
  serialize_chained_address, serialize_script_address, deserialize_script_address,
  serialize_address_row, deserialize_address_row,
}

abbrev pub script_address_layout : Bytes → Bytes → Bytes
script_address_layout hash script =
    le_bytes 4 (length hash) ++ (hash ++ (le_bytes 4 (length script) ++ script))

module _ (hash script : Bytes) where
  abbrev h : ℕ
  h = length hash

  abbrev s : ℕ
  s = length script

  abbrev p2 : Bytes
  p2 = le_bytes 4 (u32 h) ++ hash

  abbrev p3 : Bytes
  p3 = p2 ++ le_bytes 4 (u32 s)

  lengths : (length p2 ≡ 4 + h) × (length p3 ≡ 8 + h)
  lengths = omega (arith, length-append p2 (le_bytes 4 (u32 s)))

  regroup :
      8 + h + s < 2 ^ 32 → ((p3 ++ script) ++ make_bytes 0) ≡ script_address_layout hash script
  regroup fits =
      let wh : u32 h ≡ h = omega arith in
      let ws : u32 s ≡ s = omega arith in rw (wh, ws) (simp (append_assoc, append-nil))

  pub serialize_script_address-layout :
      8 + h + s < 2 ^ 32
      → serialize_script_address hash script ≡ ok (script_address_layout hash script)
  unfolding serialize_script_address
  serialize_script_address-layout fits =
      rw
        (put_uint32-fill [] (u32 h) 0 4 (u32 (8 + u32 h + u32 s)) (4 + h + s) refl refl
          (omega arith))
        (rw
          (copy_into-fill (le_bytes 4 (u32 h)) hash 4 o1 (4 + h + s) (4 + s) refl (omega arith)
            (omega arith))
          (rw
            (put_uint32-fill p2 (u32 s) o1 o2 (4 + s) s (omega (arith, lengths)) (omega arith)
              (omega arith))
            (rw
              (copy_into-fill p3 script o2 (u32 (o2 + u32 s)) s 0 (omega (arith, lengths))
                (omega arith) (omega arith))
              (ap ok (regroup fits)))))
    where
      o1 : ℕ
      o1 = u32 (4 + u32 h)

      o2 : ℕ
      o2 = u32 (o1 + 4)

module _ (row : AddressRow) (hash script : Bytes) where
  abbrev raw : Bytes
  raw = row.raw_data

  pub deserialize_script_address-layout :
      raw ≡ script_address_layout hash script
      → 8 + length hash + length script < 2 ^ 32
      → deserialize_script_address row
        ≡ ok (record { row = row; encrypted_hash = hash; encrypted_script = script })
  unfolding deserialize_script_address
  deserialize_script_address-layout e fits =
      let at0 = At-start_eq raw _ e in
      let at1 = At-append raw 0 4 (le_bytes 4 (length hash)) _ at0 (omega arith) in
      let at2 = At-append raw 4 o1 hash _ at1 (omega arith) in
      let at3 = At-append raw o1 o2 (le_bytes 4 (length script)) script at2 (omega arith) in
      rw (read_uint32-At raw 0 4 (length hash) _ at0 refl (omega arith)) (
        rw (slice-At raw 4 o1 hash _ at1 (omega arith)) (
          rw (read_uint32-At raw o1 o2 (length script) script at2 (omega arith) (omega arith)) (
            rw
              (slice-At raw o2 (u32 (o2 + length script)) script [] (rw append-nil at3)
                (omega arith))
              (rw (
                ltb-false (length raw) 8 (omega (arith, at3.measured)),
                copy_of_whole (length hash) hash refl,
                copy_of_whole (length script) script refl,
              )))))
    where
      o1 : ℕ
      o1 = u32 (4 + length hash)

      o2 : ℕ
      o2 = u32 (o1 + 4)

-- The hash and the script of a script address are read back from the data of its row as they were
-- serialized, when their sizes fit in uint32.
pub script_address_roundtrip :
    (row : AddressRow) (hash script : Bytes)
    → 8 + length hash + length script < 2 ^ 32
    → (do
      raw_data ← serialize_script_address hash script
      deserialize_script_address (record row { raw_data = raw_data }))
      ≡ ok (record {
        row = record row { raw_data = script_address_layout hash script };
        encrypted_hash = hash;
        encrypted_script = script;
      })
script_address_roundtrip row hash script fits =
    rw (serialize_script_address-layout hash script fits) (
      deserialize_script_address-layout
        (record row { raw_data = script_address_layout hash script }) hash script refl fits)

-- A chained address is never serialized: the call panics for every branch and index.
pub serialize_chained_address_panics :
    (branch index : ℕ) → serialize_chained_address branch index ≡ panic
unfolding serialize_chained_address put_uint32 copy_into
serialize_chained_address_panics branch index = refl

abbrev pub address_layout : AddressRow → Bytes
address_layout row =
    row.addr_type
    ∷ (le_bytes 4 row.account
        ++ (le_bytes 8 row.add_time
            ++ (row.sync_status ∷ (le_bytes 4 (length row.raw_data) ++ row.raw_data))))

module _ (row : AddressRow) where
  abbrev n : ℕ
  n = length row.raw_data

  pub serialize_address_row-layout :
      row.addr_type < 256
      → row.sync_status < 256
      → n < 2 ^ 32
      → serialize_address_row row ≡ ok (address_layout row)
  unfolding serialize_address_row
  serialize_address_row-layout ht hs hl =
      rw (set_byte-fill [] tag 0 (18 + n) (17 + n) refl (omega arith)) (
        rw (put_uint32-fill q1 row.account 1 5 (17 + n) (13 + n) refl refl (omega arith)) (
          rw (put_uint64-fill q2 row.add_time 5 13 (13 + n) (5 + n) refl refl (omega arith)) (
            rw (set_byte-fill q3 status 13 (5 + n) (4 + n) refl (omega arith)) (
              rw (put_uint32-fill q4 (u32 n) 14 18 (4 + n) n refl refl (omega arith)) (
                rw (copy_into-fill q5 row.raw_data 18 (18 + n) n 0 refl refl (omega arith))
                  (rw (append-nil row.raw_data, word, small_tag, small_status)))))))
    where
      tag : ℕ
      tag = row.addr_type % 256

      status : ℕ
      status = row.sync_status % 256

      q1 : Bytes
      q1 = tag ∷ []

      q2 : Bytes
      q2 = q1 ++ le_bytes 4 row.account

      q3 : Bytes
      q3 = q2 ++ le_bytes 8 row.add_time

      q4 : Bytes
      q4 = q3 ++ (status ∷ [])

      q5 : Bytes
      q5 = q4 ++ le_bytes 4 (u32 n)

      word : u32 n ≡ n
      word = omega arith

      small_tag : row.addr_type % 256 ≡ row.addr_type
      small_tag = omega arith

      small_status : row.sync_status % 256 ≡ row.sync_status
      small_status = omega arith

pub address_layout_rejected :
    (row : AddressRow)
    → 0 < length row.raw_data
    → deserialize_address_row (address_layout row) ≡ err (manager err_database)
unfolding deserialize_address_row
address_layout_rejected row some_data = ground arith

-- A serialized address row that carries any data, with a type and a status of one byte and a size
-- that fits in uint32, is refused by deserializeAddressRow with a database error.
pub address_row_rejected :
    (row : AddressRow)
    → row.addr_type < 256
    → row.sync_status < 256
    → length row.raw_data < 2 ^ 32
    → 0 < length row.raw_data
    → (serialize_address_row row >>= deserialize_address_row) ≡ err (manager err_database)
address_row_rejected row ht hs hl some_data =
    rw (serialize_address_row-layout row ht hs hl) (address_layout_rejected row some_data)
