-- ===== src/Waddrmgr/Rows/Account/WatchOnly.antt =====
-- Watch-only rows: what `deserializeWatchOnlyAccountRow` makes of the bytes that
-- `serializeWatchOnlyAccountRow` wrote.
use btc_wallet.Base.{
  ℕ, ◌/◌, ◌%◌, ◌≡◌, false, [], ◌∷◌, ◌++◌, Option, none, some, length, length-append, ltb-false,
  take-append, drop-append, arith, ◌==◌, ltb, if◌then◌else◌,
}
use btc_wallet.Go.{Result, ok, ◌>>=◌}
use btc_wallet.Go.Bytes.{Bytes, u32, IsU32, byte_at}
use btc_wallet.Go.Endian.{le_bytes, uint32-le_bytes}
use btc_wallet.Waddrmgr.Rows.{
  AccountRow, WatchOnlyAccountRow, ScopeAddrSchema, account_watch_only, scope_schema_from_bytes,
}
use btc_wallet.Waddrmgr.Rows.Account.{
  serialize_watch_only_account_row, deserialize_watch_only_account_row, read_full, read_number,
  schema_flag, schema_bytes,
}

read_full-append :
    (front back : Bytes) → read_full (length front) (front ++ back) ≡ ok (front, back)
unfolding read_full
read_full-append front back = rw (
  ltb-false (length (front ++ back)) (length front) (omega (arith, length-append front back)),
  take-append front back,
  drop-append front back,
)

read_number-append :
    (v : ℕ) (back : Bytes) → IsU32 v → read_number (le_bytes 4 v ++ back) ≡ ok (v, back)
unfolding read_number
read_number-append v back h = rw (read_full-append (le_bytes 4 v) back) (rw (uint32-le_bytes v h))

-- The row that `putWatchOnlyAccountInfo` stores.
abbrev pub stored_row : Bytes → ℕ → ℕ → ℕ → Bytes → Option ScopeAddrSchema → Result AccountRow
stored_row pub_enc fingerprint ext int name schema = do
  raw ← serialize_watch_only_account_row pub_enc fingerprint ext int name schema
  ok (record { acct_type = account_watch_only; raw_data = raw })

module _ (pub_enc : Bytes) (fingerprint ext int : ℕ) (name : Bytes)
    (schema : Option ScopeAddrSchema) (hp : IsU32 (length pub_enc)) (hf : IsU32 fingerprint)
    (he : IsU32 ext) where
  -- Whatever is read back from a watch-only row, stored with a fingerprint and an external index
  -- of uint32 and a key whose size fits in uint32, has its key, and every number after it one
  -- place too early: the fingerprint as the next external index and the external index as the
  -- internal one; the fingerprint reads as 0.
  pub watch_only_indices_shift :
      (r : WatchOnlyAccountRow)
      → (do
        row ← stored_row pub_enc fingerprint ext int name schema
        deserialize_watch_only_account_row row)
        ≡ ok r
      → (r.pub_key_encrypted ≡ pub_enc)
        × (r.master_key_fingerprint ≡ 0)
        × (r.next_external_index ≡ fingerprint)
        × (r.next_internal_index ≡ ext)
  unfolding deserialize_watch_only_account_row serialize_watch_only_account_row
  watch_only_indices_shift r e =
      let decoded =
        rw
          (
            word,
            read_number-append (length pub_enc) _ hp,
            read_full-append pub_enc _,
            read_number-append fingerprint _ hf,
            read_number-append ext _ he,
          )
          at e in
      ground arith
    where
      word : u32 (length pub_enc) ≡ length pub_enc
      word = omega arith

module _ (pub_enc : Bytes) (fingerprint ext : ℕ) (name : Bytes)
    (schema : Option ScopeAddrSchema) where
  abbrev n : ℕ
  n = u32 (length name)

  -- A watch-only account with no internal address yet, with a fingerprint and an external index of
  -- uint32 and a key whose size fits in uint32, is read back with an empty name, the fingerprint
  -- as the next external index, the external index as the internal one, and a schema taken from
  -- the length of its name.
  pub watch_only_fresh_misread :
      IsU32 (length pub_enc)
      → IsU32 fingerprint
      → IsU32 ext
      → (do
        row ← stored_row pub_enc fingerprint ext 0 name schema
        deserialize_watch_only_account_row row)
        ≡ (do
          row ← stored_row pub_enc fingerprint ext 0 name schema
          ok (record {
            row = row;
            pub_key_encrypted = pub_enc;
            master_key_fingerprint = 0;
            next_external_index = fingerprint;
            next_internal_index = ext;
            name = [];
            addr_schema =
                if length name % 256 == 0
                then none
                else some (record {
                  internal_addr_type = length name / 256 % 256;
                  external_addr_type = length name / 65536 % 256;
                });
          }))
  unfolding deserialize_watch_only_account_row serialize_watch_only_account_row
      scope_schema_from_bytes byte_at
  watch_only_fresh_misread hp hf he =
      rw
        (
          word,
          read_number-append (length pub_enc) _ hp,
          read_full-append pub_enc _,
          read_number-append fingerprint _ hf,
          read_number-append ext _ he,
          read_number-append 0 _ (omega arith),
          long,
          read_full-append [] _,
          read_full-append (n % 256 ∷ []) _,
        )
        (ground (arith, read_full-append (n / 256 % 256 ∷ n / 256 / 256 % 256 ∷ []) rest))
    where
      rest : Bytes
      rest = n / 256 / 256 / 256 % 256 ∷ (name ++ (schema_flag schema ∷ schema_bytes schema))

      fields : Bytes
      fields =
          le_bytes 4 fingerprint
          ++ (le_bytes 4 ext
              ++ (le_bytes 4 0
                  ++ (le_bytes 4 n ++ (name ++ (schema_flag schema ∷ schema_bytes schema)))))

      long : ltb (length (le_bytes 4 (length pub_enc) ++ (pub_enc ++ fields))) 21 ≡ false
      long = ltb-false _ 21 (
          omega (
            arith,
            length-append pub_enc fields,
            length-append name (schema_flag schema ∷ schema_bytes schema),
          ))

      word : u32 (length pub_enc) ≡ length pub_enc
      word = omega arith
