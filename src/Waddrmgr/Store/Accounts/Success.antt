-- ===== src/Waddrmgr/Store/Accounts/Success.antt =====
-- When storing an account returns no error.
use btc_wallet.Base.{ℕ, ◌+◌, ◌<◌, ◌≤◌, ◌≡◌, refl, ◌∙◌, true, false, some, ◌∷◌, length, arith}
use btc_wallet.Errors.{err_database}
use btc_wallet.Go.{ok}
use btc_wallet.Go.Bytes.{Bytes}
use btc_wallet.Walletdb.Bolt.{Bolt, BoltLaws, BucketPath}
use btc_wallet.Walletdb.Bdb.{put}
use btc_wallet.Waddrmgr.Errors.{wrap}
use btc_wallet.Waddrmgr.Rows.{
  KeyScope, AccountRow, account_default, uint32_to_bytes, string_to_bytes,
}
use btc_wallet.Waddrmgr.Rows.Account.Layout.{
  account_layout, default_account_layout, serialize_account_row-layout,
  serialize_default_account_row-layout,
}
use btc_wallet.Waddrmgr.Rows.Account.RoundTrip.{default_account_row_size}
use btc_wallet.Waddrmgr.Store
use btc_wallet.Waddrmgr.Store.Accounts.{put_account_info, put_default_account_info}
use btc_wallet.Waddrmgr.Store.Accounts.Ready.{
  scope_path, IsReady, put-IsReady, put_account_row_ready, put_account_id_index_ready,
  put_account_name_index_ready,
}

module _ ⦃b : Bolt⦄ (laws : BoltLaws b) (ns : BucketPath) (scope : KeyScope) where
  -- A write of small bytes under a key that names no bucket succeeds in a writable transaction.
  put_succeeds :
      (t : b.Tree) (p : BucketPath) (k v : Bytes)
      → b.writable t ≡ true
      → b.exists t p ≡ true
      → b.exists t (k ∷ p) ≡ false
      → 0 < length k
      → length k ≤ 32768
      → length v ≤ 2147483646
      → wrap err_database (put (some p) k v) t ≡ (ok tt, (b.put t p k v).1)
  unfolding put
  put_succeeds t p k v w e n h1 h2 h3 = rw (laws.put_ok t p k v w e n h1 h2 h3) refl

  abbrev acct_path : BucketPath
  acct_path = Store.Name.acct ∷ scope_path ns scope

  abbrev id_path : BucketPath
  id_path = Store.Name.acct_id_idx ∷ scope_path ns scope

  abbrev name_path : BucketPath
  name_path = Store.Name.acct_name_idx ∷ scope_path ns scope

  module _ (t : b.Tree) (account : ℕ) (name : Bytes) where
    -- The keys of an account are the names of no buckets.
    pub record IsFree : Type 0 where
      pub row_free : b.exists t (uint32_to_bytes account ∷ acct_path) ≡ false
      pub id_free : b.exists t (uint32_to_bytes account ∷ id_path) ≡ false
      pub name_free : b.exists t (string_to_bytes name ∷ name_path) ≡ false

    -- In a writable transaction and a scope whose buckets are there, putDefaultAccountInfo returns
    -- no error, where the keys of the account name no buckets, its name has at most 32764 bytes,
    -- and its fields fit in a value of the database.
    pub put_default_account_info_succeeds :
        (pub_enc priv_enc : Bytes) (ext int : ℕ)
        → b.writable t ≡ true
        → IsReady ns scope t
        → IsFree
        → length name ≤ 32764
        → 25 + length pub_enc + length priv_enc + length name ≤ 2147483646
        → (put_default_account_info (some ns) scope account pub_enc priv_enc ext int name t).0
          ≡ ok tt
    unfolding put_default_account_info put_account_info
    put_default_account_info_succeeds pub_enc priv_enc ext int w ready free small fits =
        let r1 = put-IsReady ns scope laws t acct_path (uint32_to_bytes account) buf ready in
        let r2 =
          put-IsReady ns scope laws t1 id_path (uint32_to_bytes account) (string_to_bytes name)
            r1 in
        let step1 =
          put_account_row_ready ns scope t ready account row
            (serialize_account_row-layout row (omega arith) (omega (arith, size)))
          ∙ put_succeeds t acct_path (uint32_to_bytes account) buf w ready.acct_exists free.row_free
              (omega arith) (omega arith) (omega (arith, size)) in
        let step2 =
          put_account_id_index_ready ns scope t1 r1 account name
          ∙ put_succeeds t1 id_path (uint32_to_bytes account) (string_to_bytes name)
              (laws.writable-put t acct_path _ _ ∙ w) r1.id_idx_exists
              (laws.exists-put t acct_path _ _ _ ∙ free.id_free) (omega arith) (omega arith)
              (omega arith) in
        let step3 =
          put_account_name_index_ready ns scope t2 r2 account name
          ∙ put_succeeds t2 name_path (string_to_bytes name) (uint32_to_bytes account)
              (laws.writable-put t1 id_path _ _ ∙ laws.writable-put t acct_path _ _ ∙ w)
              r2.name_idx_exists
              (laws.exists-put t1 id_path _ _ _
                ∙ laws.exists-put t acct_path _ _ _
                ∙ free.name_free)
              (omega arith) (omega arith) (omega arith) in
        rw (serialize_default_account_row-layout pub_enc priv_enc ext int name (omega arith))
          (rw step1 (rw step2 (rw step3 refl)))
      where
        row : AccountRow
        row = record {
          acct_type = account_default;
          raw_data = default_account_layout pub_enc priv_enc ext int name;
        }

        buf : Bytes
        buf = account_layout row

        size :
            length (default_account_layout pub_enc priv_enc ext int name)
            ≡ 20 + length pub_enc + length priv_enc + length name
        size = default_account_row_size pub_enc priv_enc ext int name

        t1 : b.Tree
        t1 = (b.put t acct_path (uint32_to_bytes account) buf).1

        t2 : b.Tree
        t2 = (b.put t1 id_path (uint32_to_bytes account) (string_to_bytes name)).1
