-- ===== src/Waddrmgr/Store/Addresses/Scripts.antt =====
-- Script addresses in a scope whose buckets are there: what is stored, and what is read back.
use btc_wallet.Base.{
  ℕ, ◌+◌, ◌^◌, ◌<◌, ◌≡◌, ◌≢◌, refl, sym, ap, ◌∙◌, inl, none, some, ◌∷◌, arith, bytes_ne, length,
  length-append, ◌++◌, subst,
}
use btc_wallet.Errors.{manager, err_database}
use btc_wallet.Go.{ok, err}
use btc_wallet.Go.Bytes.{Bytes}
use btc_wallet.Go.Endian.{le_bytes}
use btc_wallet.Walletdb.Bolt.{Bolt, BoltLaws, BucketPath}
use btc_wallet.Walletdb.Bdb.{nested_bucket, get, put}
use btc_wallet.Waddrmgr.Errors.{wrap}
use btc_wallet.Waddrmgr.Rows.{KeyScope, AddressRow, adt_script, uint32_to_bytes}
use btc_wallet.Waddrmgr.Rows.Address.{serialize_address_row}
use btc_wallet.Waddrmgr.Rows.Address.Layout.{
  address_layout, serialize_address_row-layout, script_address_layout,
  serialize_script_address-layout, address_layout_rejected,
}
use btc_wallet.Waddrmgr.Store
use btc_wallet.Waddrmgr.Store.{found_or}
use btc_wallet.Waddrmgr.Store.Accounts.Ready.{
  scope_path, IsReady, IsReady-Grows, put-IsReady, IsReady-Grows, fetch_write_scope_bucket_ready,
  fetch_read_scope_bucket_ready,
}
use btc_wallet.Waddrmgr.Store.Steps.{
  Grows, grows, bind-ok, put-Grows, put-get_ne, path_ne, create_if_then,
}
use btc_wallet.Waddrmgr.Store.Addresses.{
  put_addr_account_index, put_address, put_script_address, fetch_address_by_hash, fetch_address,
  null_val,
}

module _ ⦃b : Bolt⦄ (sha256 : Bytes → Bytes) (ns : BucketPath) (scope : KeyScope) where
  abbrev addr_path : BucketPath
  addr_path = Store.Name.addr ∷ scope_path ns scope

  abbrev idx_path : BucketPath
  idx_path = Store.Name.addr_acct_idx ∷ scope_path ns scope

  -- Indexing an address touches no bucket of addresses.
  put_addr_account_index-frame :
      BoltLaws b
      → (t t' : b.Tree) (account : ℕ) (addr_hash : Bytes) → IsReady ns scope t
      → put_addr_account_index sha256 (some ns) scope account addr_hash t ≡ (ok tt, t')
      → ((j : Bytes) → b.get t' addr_path j ≡ b.get t addr_path j) × Grows t t'
  unfolding put_addr_account_index nested_bucket put
  put_addr_account_index-frame laws t t' account addr_hash ready h =
      let h0 =
        rw (fetch_write_scope_bucket_ready ns scope t ready, ready.addr_acct_idx_exists) at h in
      let (u1, e1, h1) = bind-ok (put (some idx_path) addr_hash (uint32_to_bytes account)) _ t h0 in
      let (t2, c2, g2, h2) = create_if_then laws idx_path (uint32_to_bytes account) _ _ h1 in
      let g1 = put-Grows laws (some idx_path) addr_hash (uint32_to_bytes account) t in
      let g3 = put-Grows laws (some (uint32_to_bytes account ∷ idx_path)) addr_hash null_val t2 in
      (
        λ j.
            ap (λ x. b.get x.1 addr_path j) (sym h2)
            ∙ put-get_ne laws (uint32_to_bytes account ∷ idx_path) addr_hash null_val t2 addr_path j
                (inl deeper)
            ∙ g2 addr_path j
            ∙ put-get_ne laws idx_path addr_hash (uint32_to_bytes account) t addr_path j
                (inl (path_ne _ _ _ (bytes_ne _ _ refl))),
        subst (Grows t) (ap (λ x. x.1) h2) (grows g1 (grows c2.kept g3)),
      )
    where
      deeper : uint32_to_bytes account ∷ idx_path ≢ addr_path
      deeper e = absurd (omega (arith, ap length e))

  put_address-get :
      BoltLaws b
      → (t t' : b.Tree) (address_id buf : Bytes) (row : AddressRow) → IsReady ns scope t
      → serialize_address_row row ≡ ok buf
      → put_address sha256 (some ns) scope address_id row t ≡ (ok tt, t')
      → (b.get t' addr_path (sha256 address_id) ≡ some buf) × Grows t t'
  unfolding put_address nested_bucket put
  put_address-get laws t t' address_id buf row ready e h =
      let h0 = rw (fetch_write_scope_bucket_ready ns scope t ready, ready.addr_exists, e) at h in
      let (u1, e1, h1) =
        bind-ok (wrap err_database (put (some addr_path) (sha256 address_id) buf)) _ t h0 in
      let done : (b.put t addr_path (sha256 address_id) buf).0 ≡ none = ground arith in
      let (same, g) =
        put_addr_account_index-frame laws _ t' row.account (sha256 address_id)
          (put-IsReady ns scope laws t addr_path (sha256 address_id) buf ready) h1 in
      (
        same (sha256 address_id) ∙ laws.get-put_self t addr_path (sha256 address_id) buf done,
        grows (put-Grows laws (some addr_path) (sha256 address_id) buf t) g,
      )

  -- In a scope whose buckets are there, a script address that putScriptAddress has stored without
  -- an error, with a status of one byte and a hash and a script whose sizes fit in uint32, cannot
  -- be read again: fetchAddress answers with a database error.
  pub script_address_unreadable :
      BoltLaws b
      → (t t' : b.Tree) (now : ℕ) (address_id : Bytes) (account status : ℕ) (hash script : Bytes)
      → IsReady ns scope t
      → status < 256
      → 26 + length hash + length script < 2 ^ 32
      → put_script_address sha256 now (some ns) scope address_id account status hash script t
        ≡ (ok tt, t')
      → fetch_address sha256 (some ns) scope address_id t' ≡ (err (manager err_database), t')
  unfolding put_script_address fetch_address fetch_address_by_hash nested_bucket get
  script_address_unreadable laws t t' now address_id account status hash script ready hs fits h =
      let h0 = rw (serialize_script_address-layout hash script (omega arith)) at h in
      let (stored, g) =
        put_address-get laws t t' address_id (address_layout row) row ready
          (serialize_address_row-layout row (omega arith) hs (omega (arith, size))) h0 in
      let after = IsReady-Grows ns scope g ready in
      rw (
        fetch_read_scope_bucket_ready ns scope t' after,
        after.addr_exists,
        stored,
        address_layout_rejected row (omega (arith, size)),
      )
    where
      row : AddressRow
      row = record {
        addr_type = adt_script;
        account = account;
        add_time = now;
        sync_status = status;
        raw_data = script_address_layout hash script;
      }

      size : length (script_address_layout hash script) ≡ 8 + length hash + length script
      size = omega (arith, length-append hash (le_bytes 4 (length script) ++ script))
