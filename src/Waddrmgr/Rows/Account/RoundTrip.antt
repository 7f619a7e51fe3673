-- ===== src/Waddrmgr/Rows/Account/RoundTrip.antt =====
-- Default account rows read back from their layout, and the round trip.
use btc_wallet.Base.{
  ℕ, ◌+◌, ◌^◌, ◌<◌, ◌≡◌, refl, [], append-nil, length, length-append, ltb-false, arith,
}
use btc_wallet.Go.{ok, ◌>>=◌}
use btc_wallet.Go.Bytes.{Bytes, u32, IsU32, At-start_eq, At-append, slice-At, copy_of_whole}
use btc_wallet.Go.Endian.{le_bytes, read_uint32-At}
use btc_wallet.Waddrmgr.Rows.{AccountRow, account_default}
use btc_wallet.Waddrmgr.Rows.Account.{
  serialize_account_row, deserialize_account_row, serialize_default_account_row,
  deserialize_default_account_row,
}
use btc_wallet.Waddrmgr.Rows.Account.Layout.{
  default_account_layout, serialize_account_row-layout, deserialize_account_row-layout,
  serialize_default_account_row-layout,
}

-- Reading the fields back, each at the offset that the length of the one before it gives.
module _ (row : AccountRow) (pub_enc priv_enc : Bytes) (ext int : ℕ) (name : Bytes) where
  abbrev raw : Bytes
  raw = row.raw_data

  pub deserialize_default_account_row-layout :
      raw ≡ default_account_layout pub_enc priv_enc ext int name
      → 20 + length pub_enc + length priv_enc + length name < 2 ^ 32
      → ext < 2 ^ 32
      → int < 2 ^ 32
      → deserialize_default_account_row row
        ≡ ok (record {
          row = row;
          pub_key_encrypted = pub_enc;
          priv_key_encrypted = priv_enc;
          next_external_index = ext;
          next_internal_index = int;
          name = name;
        })
  unfolding deserialize_default_account_row
  deserialize_default_account_row-layout e h he hi =
      let at0 = At-start_eq raw _ e in
      let at1 = At-append raw 0 4 (le_bytes 4 (length pub_enc)) _ at0 (omega arith) in
      let at2 = At-append raw 4 o1 pub_enc _ at1 (omega arith) in
      let at3 = At-append raw o1 o2 (le_bytes 4 (length priv_enc)) _ at2 (omega arith) in
      let at4 = At-append raw o2 o3 priv_enc _ at3 (omega arith) in
      let at5 = At-append raw o3 o4 (le_bytes 4 ext) _ at4 (omega arith) in
      let at6 = At-append raw o4 o5 (le_bytes 4 int) _ at5 (omega arith) in
      let at7 = At-append raw o5 o6 (le_bytes 4 (length name)) name at6 (omega arith) in
      rw (read_uint32-At raw 0 4 (length pub_enc) _ at0 refl (omega arith)) (
        rw (slice-At raw 4 o1 pub_enc _ at1 (omega arith)) (
          rw (read_uint32-At raw o1 o2 (length priv_enc) _ at2 (omega arith) (omega arith)) (
            rw (slice-At raw o2 o3 priv_enc _ at3 (omega arith)) (
              rw (read_uint32-At raw o3 o4 ext _ at4 (omega arith) he) (
                rw (read_uint32-At raw o4 o5 int _ at5 (omega arith) hi) (
                  rw (read_uint32-At raw o5 o6 (length name) name at6 (omega arith) (omega arith)) (
                    rw
                      (slice-At raw o6 (u32 (o6 + length name)) name [] (rw append-nil at7)
                        (omega arith))
                      (rw (
                        ltb-false (length raw) 20 (omega (arith, at7.measured)),
                        copy_of_whole (length pub_enc) pub_enc refl,
                        copy_of_whole (length priv_enc) priv_enc refl,
                      )))))))))
    where
      o1 : ℕ
      o1 = u32 (4 + length pub_enc)

      o2 : ℕ
      o2 = u32 (o1 + 4)

      o3 : ℕ
      o3 = u32 (o2 + length priv_enc)

      o4 : ℕ
      o4 = u32 (o3 + 4)

      o5 : ℕ
      o5 = u32 (o4 + 4)

      o6 : ℕ
      o6 = u32 (o5 + 4)

pub default_account_row_size :
    (pub_enc priv_enc : Bytes) (ext int : ℕ) (name : Bytes)
    → length (default_account_layout pub_enc priv_enc ext int name)
      ≡ 20 + length pub_enc + length priv_enc + length name
default_account_row_size pub_enc priv_enc ext int name = omega (arith, length-append {0})

-- A default account that is serialized comes back from deserializeAccountRow and
-- deserializeDefaultAccountRow with every field as it was, when its indices are of uint32 and the
-- sizes of its fields fit in uint32.
pub default_account_roundtrip :
    (pub_enc priv_enc : Bytes) (ext int : ℕ) (name : Bytes)
    → 25 + length pub_enc + length priv_enc + length name < 2 ^ 32
    → IsU32 ext
    → IsU32 int
    → (do
      raw ← serialize_default_account_row pub_enc priv_enc ext int name
      buf ← serialize_account_row (record { acct_type = account_default; raw_data = raw })
      row ← deserialize_account_row buf
      deserialize_default_account_row row)
      ≡ ok (record {
        row = record {
          acct_type = account_default;
          raw_data = default_account_layout pub_enc priv_enc ext int name;
        };
        pub_key_encrypted = pub_enc;
        priv_key_encrypted = priv_enc;
        next_external_index = ext;
        next_internal_index = int;
        name = name;
      })
default_account_roundtrip pub_enc priv_enc ext int name h he hi =
    rw (serialize_default_account_row-layout pub_enc priv_enc ext int name (omega arith)) (
      rw (serialize_account_row-layout r (omega arith) (omega (arith, size))) (
        rw (deserialize_account_row-layout r (omega (arith, size))) (
          deserialize_default_account_row-layout r pub_enc priv_enc ext int name refl (omega arith)
            he hi)))
  where
    r : AccountRow
    r = record {
      acct_type = account_default;
      raw_data = default_account_layout pub_enc priv_enc ext int name;
    }

    size : length r.raw_data ≡ 20 + length pub_enc + length priv_enc + length name
    size = default_account_row_size pub_enc priv_enc ext int name
