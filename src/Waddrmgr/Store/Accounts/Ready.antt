-- ===== src/Waddrmgr/Store/Accounts/Ready.antt =====
-- A scope whose buckets are there, and what the operations on accounts come down to in it.
use btc_wallet.Base.{ℕ, ◌≡◌, ◌∙◌, true, Option, some, ◌∷◌, arith}
use btc_wallet.Errors.{manager, err_database, err_account_not_found}
use btc_wallet.Go.{ok}
use btc_wallet.Go.Bytes.{Bytes}
use btc_wallet.Go.Endian.{uint32}
use btc_wallet.Walletdb.Bolt.{Bolt, BoltLaws, BucketPath}
use btc_wallet.Walletdb.Bdb.{Tx, ◌>>=◌, lift, put, get, nested_bucket}
use btc_wallet.Waddrmgr.Errors.{wrap}
use btc_wallet.Waddrmgr.Rows.{
  KeyScope, AccountRow, scope_to_bytes, uint32_to_bytes, string_to_bytes,
}
use btc_wallet.Waddrmgr.Rows.Account.{serialize_account_row, deserialize_account_row}
use btc_wallet.Waddrmgr.Store
use btc_wallet.Waddrmgr.Store.{fetch_read_scope_bucket, fetch_write_scope_bucket, found_or}
use btc_wallet.Waddrmgr.Store.Steps.{Grows}
use btc_wallet.Waddrmgr.Store.Accounts.{
  RowInterface, put_account_row, put_account_id_index, put_account_name_index,
  fetch_account_by_name, fetch_account_info, typed_row, fetch_last_account, put_last_account,
  account_or_none,
}

-- The path of a scope's bucket under the namespace.
abbrev pub scope_path : BucketPath → KeyScope → BucketPath
scope_path ns scope = scope_to_bytes scope ∷ Store.Name.scope ∷ ns

-- What the reads make of the entry that they find.
module _ ⦃b : Bolt⦄ where
  abbrev pub name_reply : Option Bytes → Tx ℕ
  name_reply entry = do val ← found_or (manager err_account_not_found) entry; lift (uint32 val)

  abbrev pub row_reply : Option Bytes → Tx RowInterface
  row_reply entry = do
    serialized_row ← found_or (manager err_account_not_found) entry
    row ← lift (deserialize_account_row serialized_row)
    typed_row row

  -- The answer depends on the entry alone.
  pub name_reply_result :
      (o : Option Bytes) (s t : b.Tree) → (name_reply o s).0 ≡ (name_reply o t).0
  name_reply_result o s t = ground arith

  pub row_reply_result : (o : Option Bytes) (s t : b.Tree) → (row_reply o s).0 ≡ (row_reply o t).0
  row_reply_result o s t = ground arith

  pub last_account_result :
      (o : Option Bytes) (s t : b.Tree) → (account_or_none o s).0 ≡ (account_or_none o t).0
  last_account_result o s t = ground arith

module _ ⦃b : Bolt⦄ (ns : BucketPath) (scope : KeyScope) where
  pub record IsReady (t : b.Tree) : Type 0 where
    pub root_exists : b.exists t (Store.Name.scope ∷ ns) ≡ true
    pub scope_exists : b.exists t (scope_path ns scope) ≡ true
    pub acct_exists : b.exists t (Store.Name.acct ∷ scope_path ns scope) ≡ true
    pub id_idx_exists : b.exists t (Store.Name.acct_id_idx ∷ scope_path ns scope) ≡ true
    pub name_idx_exists : b.exists t (Store.Name.acct_name_idx ∷ scope_path ns scope) ≡ true
    pub meta_exists : b.exists t (Store.Name.meta ∷ scope_path ns scope) ≡ true
    pub addr_exists : b.exists t (Store.Name.addr ∷ scope_path ns scope) ≡ true
    pub used_addr_exists : b.exists t (Store.Name.used_addr ∷ scope_path ns scope) ≡ true
    pub addr_acct_idx_exists : b.exists t (Store.Name.addr_acct_idx ∷ scope_path ns scope) ≡ true

  pub put-IsReady :
      BoltLaws b
      → (t : b.Tree) (p : BucketPath) (k v : Bytes) → IsReady t
      → IsReady (b.put t p k v).1
  put-IsReady laws t p k v r = record {
    root_exists = laws.exists-put t p k v _ ∙ r.root_exists;
    scope_exists = laws.exists-put t p k v _ ∙ r.scope_exists;
    acct_exists = laws.exists-put t p k v _ ∙ r.acct_exists;
    id_idx_exists = laws.exists-put t p k v _ ∙ r.id_idx_exists;
    name_idx_exists = laws.exists-put t p k v _ ∙ r.name_idx_exists;
    meta_exists = laws.exists-put t p k v _ ∙ r.meta_exists;
    addr_exists = laws.exists-put t p k v _ ∙ r.addr_exists;
    used_addr_exists = laws.exists-put t p k v _ ∙ r.used_addr_exists;
    addr_acct_idx_exists = laws.exists-put t p k v _ ∙ r.addr_acct_idx_exists;
  }

  pub IsReady-Grows : {t t' : b.Tree} → Grows t t' → IsReady t → IsReady t'
  IsReady-Grows g r = record {
    root_exists = g _ r.root_exists;
    scope_exists = g _ r.scope_exists;
    acct_exists = g _ r.acct_exists;
    id_idx_exists = g _ r.id_idx_exists;
    name_idx_exists = g _ r.name_idx_exists;
    meta_exists = g _ r.meta_exists;
    addr_exists = g _ r.addr_exists;
    used_addr_exists = g _ r.used_addr_exists;
    addr_acct_idx_exists = g _ r.addr_acct_idx_exists;
  }

  module _ (t : b.Tree) (r : IsReady t) where
    pub fetch_write_scope_bucket_ready :
        fetch_write_scope_bucket (some ns) scope t ≡ (ok (some (scope_path ns scope)), t)
    unfolding fetch_write_scope_bucket nested_bucket
    fetch_write_scope_bucket_ready = ground (arith, r.root_exists, r.scope_exists)

    pub fetch_read_scope_bucket_ready :
        fetch_read_scope_bucket (some ns) scope t ≡ (ok (some (scope_path ns scope)), t)
    unfolding fetch_read_scope_bucket nested_bucket
    fetch_read_scope_bucket_ready = ground (arith, r.root_exists, r.scope_exists)

    -- Each write to an index or a row is one `Put`.
    pub put_account_row_ready :
        (account : ℕ) (row : AccountRow) {buf : Bytes}
        → serialize_account_row row ≡ ok buf
        → put_account_row (some ns) scope account row t
          ≡ wrap err_database
              (put (some (Store.Name.acct ∷ scope_path ns scope)) (uint32_to_bytes account) buf)
              t
    unfolding put_account_row nested_bucket
    put_account_row_ready account row e = rw (fetch_write_scope_bucket_ready, r.acct_exists, e)

    pub put_account_id_index_ready :
        (account : ℕ) (name : Bytes)
        → put_account_id_index (some ns) scope account name t
          ≡ wrap err_database
              (put
                (some (Store.Name.acct_id_idx ∷ scope_path ns scope))
                (uint32_to_bytes account)
                (string_to_bytes name))
              t
    unfolding put_account_id_index nested_bucket
    put_account_id_index_ready account name = rw (fetch_write_scope_bucket_ready, r.id_idx_exists)

    pub put_account_name_index_ready :
        (account : ℕ) (name : Bytes)
        → put_account_name_index (some ns) scope account name t
          ≡ wrap err_database
              (put
                (some (Store.Name.acct_name_idx ∷ scope_path ns scope))
                (string_to_bytes name)
                (uint32_to_bytes account))
              t
    unfolding put_account_name_index nested_bucket
    put_account_name_index_ready account name =
        rw (fetch_write_scope_bucket_ready, r.name_idx_exists)

    pub put_last_account_ready :
        (account : ℕ)
        → put_last_account (some ns) scope account t
          ≡ wrap err_database
              (put
                (some (Store.Name.meta ∷ scope_path ns scope))
                Store.Name.last_account
                (uint32_to_bytes account))
              t
    unfolding put_last_account nested_bucket
    put_last_account_ready account = rw (fetch_write_scope_bucket_ready, r.meta_exists)

    -- Each read depends on one entry of the tree.
    pub fetch_account_by_name_ready :
        (name : Bytes)
        → fetch_account_by_name (some ns) scope name t
          ≡ name_reply
              (b.get t (Store.Name.acct_name_idx ∷ scope_path ns scope) (string_to_bytes name))
              t
    unfolding fetch_account_by_name nested_bucket get
    fetch_account_by_name_ready name = rw (fetch_read_scope_bucket_ready, r.name_idx_exists)

    pub fetch_account_info_ready :
        (account : ℕ)
        → fetch_account_info (some ns) scope account t
          ≡ row_reply (b.get t (Store.Name.acct ∷ scope_path ns scope) (uint32_to_bytes account)) t
    unfolding fetch_account_info nested_bucket get
    fetch_account_info_ready account = rw (fetch_read_scope_bucket_ready, r.acct_exists)

    pub fetch_last_account_ready :
        fetch_last_account (some ns) scope t
        ≡ account_or_none
            (b.get t (Store.Name.meta ∷ scope_path ns scope) Store.Name.last_account)
            t
    unfolding fetch_last_account nested_bucket get
    fetch_last_account_ready = rw (fetch_read_scope_bucket_ready, r.meta_exists)
