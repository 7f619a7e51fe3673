-- ===== src/Waddrmgr/Rows/Account/Layout.antt =====
-- What the account rows look like in bytes, and that they are read back.
use btc_wallet.Base.{
  ℕ, ◌+◌, ◌%◌, ◌^◌, ◌<◌, ◌≡◌, refl, ap, [], ◌∷◌, ◌++◌, append_assoc, append-nil, length,
  length-append, arith,
}
use btc_wallet.Go.{ok}
use btc_wallet.Go.Bytes.{
  Bytes, u32, make_bytes, At, At-start, At-append, slice-At, copy_into-fill, set_byte-fill,
  byte_at-At, copy_of_whole,
}
use btc_wallet.Go.Endian.{le_bytes, put_uint32-fill, read_uint32-At}
use btc_wallet.Waddrmgr.Rows.{AccountRow}
use btc_wallet.Waddrmgr.Rows.Account.{
  serialize_account_row, deserialize_account_row, serialize_default_account_row,
}

-- Fields in the order in which they stand in the row.
abbrev pub account_layout : AccountRow → Bytes
account_layout row = row.acct_type ∷ (le_bytes 4 (length row.raw_data) ++ row.raw_data)

abbrev pub default_account_layout : Bytes → Bytes → ℕ → ℕ → Bytes → Bytes
default_account_layout pub_enc priv_enc ext int name =
    le_bytes 4 (length pub_enc)
    ++ (pub_enc
        ++ (le_bytes 4 (length priv_enc)
            ++ (priv_enc
                ++ (le_bytes 4 ext ++ (le_bytes 4 int ++ (le_bytes 4 (length name) ++ name))))))

pub serialize_account_row-layout :
    (row : AccountRow)
    → row.acct_type < 256
    → length row.raw_data + 5 < 2 ^ 32
    → serialize_account_row row ≡ ok (account_layout row)
unfolding serialize_account_row
serialize_account_row-layout row ht hl =
    rw (set_byte-fill [] (row.acct_type % 256) 0 (n + 5) (n + 4) refl (omega arith)) (
      rw (put_uint32-fill _ (u32 n) 1 5 (n + 4) n refl refl (omega arith)) (
        rw (copy_into-fill _ row.raw_data 5 (5 + n) n 0 refl refl (omega arith))
          (rw (append-nil row.raw_data, word, tag))))
  where
    n : ℕ
    n = length row.raw_data

    word : u32 n ≡ n
    word = omega arith

    tag : row.acct_type % 256 ≡ row.acct_type
    tag = omega arith

-- A stored account row is read back as it was.
pub deserialize_account_row-layout :
    (row : AccountRow)
    → length row.raw_data + 5 < 2 ^ 32
    → deserialize_account_row (account_layout row) ≡ ok row
unfolding deserialize_account_row
deserialize_account_row-layout row hl = rw (byte_at-At raw 0 row.acct_type _ (At-start raw)) (
    rw (read_uint32-At raw 1 5 n row.raw_data at1 refl (omega arith)) (
      rw (slice-At raw 5 (u32 (5 + n)) row.raw_data [] at5 (omega arith))
        (ground (arith, copy_of_whole n row.raw_data refl))))
  where
    n : ℕ
    n = length row.raw_data

    raw : Bytes
    raw = account_layout row

    at1 : At raw 1 (le_bytes 4 n ++ row.raw_data)
    at1 = At-append raw 0 1 (row.acct_type ∷ []) _ (At-start raw) (omega arith)

    at5 : At raw 5 (row.raw_data ++ [])
    at5 = rw append-nil (At-append raw 1 5 (le_bytes 4 n) _ at1 (omega arith))

-- What has been written before each step of `serialize_default_account_row`, and its length.
module _ (pub_enc priv_enc : Bytes) (ext int : ℕ) (name : Bytes) where
  abbrev pub_size : ℕ
  pub_size = length pub_enc

  abbrev priv_size : ℕ
  priv_size = length priv_enc

  abbrev name_size : ℕ
  name_size = length name

  abbrev p2 : Bytes
  p2 = le_bytes 4 (u32 pub_size) ++ pub_enc

  abbrev p3 : Bytes
  p3 = p2 ++ le_bytes 4 (u32 priv_size)

  abbrev p4 : Bytes
  p4 = p3 ++ priv_enc

  abbrev p5 : Bytes
  p5 = p4 ++ le_bytes 4 ext

  abbrev p6 : Bytes
  p6 = p5 ++ le_bytes 4 int

  abbrev p7 : Bytes
  p7 = p6 ++ le_bytes 4 (u32 name_size)

  lengths :
      (length p2 ≡ 4 + pub_size)
      × (length p3 ≡ 8 + pub_size)
      × (length p4 ≡ 8 + pub_size + priv_size)
      × (length p5 ≡ 12 + pub_size + priv_size)
      × (length p6 ≡ 16 + pub_size + priv_size)
      × (length p7 ≡ 20 + pub_size + priv_size)
  lengths = omega (
    arith,
    length-append p2 (le_bytes 4 (u32 priv_size)),
    length-append p3 priv_enc,
    length-append p4 (le_bytes 4 ext),
    length-append p5 (le_bytes 4 int),
    length-append p6 (le_bytes 4 (u32 name_size)),
  )

  regroup :
      20 + pub_size + priv_size + name_size < 2 ^ 32
      → ((p7 ++ name) ++ make_bytes 0) ≡ default_account_layout pub_enc priv_enc ext int name
  regroup h =
      let wa : u32 pub_size ≡ pub_size = omega arith in
      let wb : u32 priv_size ≡ priv_size = omega arith in
      let wc : u32 name_size ≡ name_size = omega arith in
      rw (wa, wb, wc) (simp (append_assoc, append-nil))

  -- The writes into one buffer, at offsets that are uint32, give the fields one after another.
  pub serialize_default_account_row-layout :
      20 + pub_size + priv_size + name_size < 2 ^ 32
      → serialize_default_account_row pub_enc priv_enc ext int name
        ≡ ok (default_account_layout pub_enc priv_enc ext int name)
  unfolding serialize_default_account_row
  serialize_default_account_row-layout h =
      rw
        (put_uint32-fill [] (u32 pub_size) 0 4
          (u32 (20 + u32 pub_size + u32 priv_size + u32 name_size))
          (16 + pub_size + priv_size + name_size) refl refl (omega arith))
        (rw
          (copy_into-fill (le_bytes 4 (u32 pub_size)) pub_enc 4 o1
            (16 + pub_size + priv_size + name_size) (16 + priv_size + name_size) refl (omega arith)
            (omega arith))
          (rw
            (put_uint32-fill p2 (u32 priv_size) o1 o2 (16 + priv_size + name_size)
              (12 + priv_size + name_size) (omega (arith, lengths)) (omega arith) (omega arith))
            (rw
              (copy_into-fill p3 priv_enc o2 o3 (12 + priv_size + name_size) (12 + name_size)
                (omega (arith, lengths)) (omega arith) (omega arith))
              (rw
                (put_uint32-fill p4 ext o3 o4 (12 + name_size) (8 + name_size)
                  (omega (arith, lengths)) (omega arith) (omega arith))
                (rw
                  (put_uint32-fill p5 int o4 o5 (8 + name_size) (4 + name_size)
                    (omega (arith, lengths)) (omega arith) (omega arith))
                  (rw
                    (put_uint32-fill p6 (u32 name_size) o5 o6 (4 + name_size) name_size
                      (omega (arith, lengths)) (omega arith) (omega arith))
                    (rw
                      (copy_into-fill p7 name o6 (u32 (o6 + u32 name_size)) name_size 0
                        (omega (arith, lengths)) (omega arith) (omega arith))
                      (ap ok (regroup h)))))))))
    where
      o1 : ℕ
      o1 = u32 (4 + u32 pub_size)

      o2 : ℕ
      o2 = u32 (o1 + 4)

      o3 : ℕ
      o3 = u32 (o2 + u32 priv_size)

      o4 : ℕ
      o4 = u32 (o3 + 4)

      o5 : ℕ
      o5 = u32 (o4 + 4)

      o6 : ℕ
      o6 = u32 (o5 + 4)
