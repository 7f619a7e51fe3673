-- ===== src/Tests/Rows.antt =====
-- Rows and errors, run on small concrete values.
use btc_wallet.Base.{ℕ, ◌≡◌, refl, none, some, [], ◌∷◌, ◌++◌, arith}
use btc_wallet.Go.{ok, ◌>>=◌}
use btc_wallet.Go.Bytes.{Bytes, codes, byte_at}
use btc_wallet.Go.Endian.{le_bytes, uint32}
use btc_wallet.Waddrmgr.Rows.{
  AccountRow, AddressRow, WatchOnlyAccountRow, account_default, account_watch_only,
  scope_schema_from_bytes,
}
use btc_wallet.Waddrmgr.Rows.Account.{
  serialize_account_row, deserialize_account_row, serialize_default_account_row,
  deserialize_default_account_row, serialize_watch_only_account_row,
  deserialize_watch_only_account_row, read_full, read_number,
}
use btc_wallet.Waddrmgr.Rows.Account.Layout.{default_account_layout}
use btc_wallet.Waddrmgr.Rows.Account.RoundTrip.{default_account_roundtrip}
use btc_wallet.Waddrmgr.Rows.Account.WatchOnly.{stored_row, watch_only_indices_shift}

abbrev name : Bytes
name = codes "savings"

default_account_roundtrip_example :
    (do
      raw ← serialize_default_account_row (1 ∷ 2 ∷ []) (3 ∷ []) 4 5 name
      buf ← serialize_account_row (record { acct_type = account_default; raw_data = raw })
      row ← deserialize_account_row buf
      deserialize_default_account_row row)
    ≡ ok (record {
      row = record {
        acct_type = account_default;
        raw_data = default_account_layout (1 ∷ 2 ∷ []) (3 ∷ []) 4 5 name;
      };
      pub_key_encrypted = 1 ∷ 2 ∷ [];
      priv_key_encrypted = 3 ∷ [];
      next_external_index = 4;
      next_internal_index = 5;
      name = name;
    })
default_account_roundtrip_example =
    default_account_roundtrip (1 ∷ 2 ∷ []) (3 ∷ []) 4 5 name (omega arith) (omega arith)
      (omega arith)

abbrev default_row : ℕ → ℕ → AccountRow
default_row ext int = record {
  acct_type = account_default;
  raw_data = default_account_layout (1 ∷ 2 ∷ []) (3 ∷ []) ext int name;
}

abbrev watch_only_bytes : Bytes
watch_only_bytes =
    le_bytes 4 2
    ++ (1
        ∷ 2
        ∷ (le_bytes 4 77
            ++ (le_bytes 4 4 ++ (le_bytes 4 0 ++ (le_bytes 4 7 ++ (name ++ (0 ∷ [])))))))

abbrev misread : WatchOnlyAccountRow
misread = record {
  row = record { acct_type = account_watch_only; raw_data = watch_only_bytes };
  pub_key_encrypted = 1 ∷ 2 ∷ [];
  master_key_fingerprint = 0;
  next_external_index = 77;
  next_internal_index = 4;
  name = [];
  addr_schema = some (record { internal_addr_type = 0; external_addr_type = 0 });
}

watch_only_run :
    (do row ← stored_row (1 ∷ 2 ∷ []) 77 4 0 name none; deserialize_watch_only_account_row row)
    ≡ ok misread
unfolding serialize_watch_only_account_row deserialize_watch_only_account_row read_full read_number
    uint32 byte_at scope_schema_from_bytes
watch_only_run = refl

watch_only_indices_shift_example :
    (misread.pub_key_encrypted ≡ 1 ∷ 2 ∷ [])
    × (misread.master_key_fingerprint ≡ 0)
    × (misread.next_external_index ≡ 77)
    × (misread.next_internal_index ≡ 4)
watch_only_indices_shift_example =
    watch_only_indices_shift (1 ∷ 2 ∷ []) 77 4 0 name none (omega arith) (omega arith) (omega arith)
      misread watch_only_run

abbrev address : AddressRow
address = record {
  addr_type = 2;
  account = 7;
  add_time = 1700000000;
  sync_status = 2;
  raw_data = 1 ∷ [];
}
