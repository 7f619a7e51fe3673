-- ===== src/Waddrmgr/Scoped/Created.antt =====
-- A new account: what is found of it, and that the other accounts are as they were.
use btc_wallet.Base.{
  ℕ, ◌+◌, ◌<◌, ◌^◌, ◌≡◌, ◌≢◌, sym, ap, subst, ◌∙◌, false, some, [], ◌++◌, length, arith,
}
use btc_wallet.Errors.{Error}
use btc_wallet.Go.{Result, ok, err}
use btc_wallet.Go.Bytes.{Bytes, IsU32, u32, codes}
use btc_wallet.Btcd.{Btcd, BtcdLaws}
use btc_wallet.Snacl.{Crypto}
use btc_wallet.Snacl.Box.{decrypt, BoxLaws, IsNonce, encrypt-length, decrypt-encrypted}
use btc_wallet.Walletdb.Bolt.{Bolt, BoltLaws, BucketPath}
use btc_wallet.Waddrmgr.Rows.{KeyScope, account_default}
use btc_wallet.Waddrmgr.Rows.Account.Layout.{default_account_layout}
use btc_wallet.Waddrmgr.Keys.{
  derive_account_key, validate_account_name_iff, imported_addr_account_name,
}
use btc_wallet.Waddrmgr.Manager.{Manager}
use btc_wallet.Waddrmgr.Store.Steps.{guard_then, bind-ok, read_then}
use btc_wallet.Waddrmgr.Store.Accounts.{
  default_row, fetch_account_by_name, fetch_account_info, fetch_last_account,
}
use btc_wallet.Waddrmgr.Store.Accounts.Ready.{IsReady}
use btc_wallet.Waddrmgr.Store.Accounts.RoundTrip.{
  default_account_stored, default_account_frame, default_account-IsReady,
}
use btc_wallet.Waddrmgr.Scoped.{new_account, next_account, new_raw_account}
use btc_wallet.Waddrmgr.Scoped.Accounts.{
  Made, LastPut, new_account-Made, put_last_account-LastPut, last_account_tree,
}

module _ ⦃b : Bolt⦄ (c : Crypto) (d : Btcd) (m : Manager d) (pub_nonce priv_nonce : Result Bytes)
    (ns : BucketPath) (scope : KeyScope) where
  -- What a creation without an error leaves.
  pub record Stored (account : ℕ) (name : Bytes) (t' : b.Tree) : Type 0 where
    pub last : fetch_last_account (some ns) scope t' ≡ (ok account, t')
    pub by_name : (fetch_account_by_name (some ns) scope name t').0 ≡ ok account
    pub coin_type_key : d.Key
    pub key : d.Key
    pub pub_key : d.Key
    pub derived : derive_account_key d coin_type_key account ≡ ok key
    pub neutered : d.neuter key ≡ ok pub_key
    pub pub_enc : Bytes
    pub priv_enc : Bytes
    pub row :
        (fetch_account_info (some ns) scope account t').0
        ≡ ok (
            default_row (record {
              row = record {
                acct_type = account_default;
                raw_data = default_account_layout pub_enc priv_enc 0 0 name;
              };
              pub_key_encrypted = pub_enc;
              priv_key_encrypted = priv_enc;
              next_external_index = 0;
              next_internal_index = 0;
              name = name;
            }))
    pub pub_readable : decrypt c m.crypto_key_pub pub_enc ≡ ok (d.to_string pub_key)
    pub priv_readable : decrypt c m.crypto_key_priv priv_enc ≡ ok (d.to_string key)

  -- What it needs to have found.
  pub record Accepted (name : Bytes) (t : b.Tree) : Type 0 where
    pub writable : (m.watching_only ≡ false) × (m.locked ≡ false)
    pub not_empty : name ≢ []
    pub not_reserved : name ≢ imported_addr_account_name
    pub unused : (e : Error) × ((fetch_account_by_name (some ns) scope name t).0 ≡ err e)

  module _ (laws : BoltLaws b) (box_laws : BoxLaws c) (key_laws : BtcdLaws d)
      (pub_size : IsNonce c pub_nonce) (priv_size : IsNonce c priv_nonce) (t t' : b.Tree)
      (ready : IsReady ns scope t) (name : Bytes) (short : length name < 2 ^ 31) where
    Made-fits :
        (account : ℕ) (made : Made c d m pub_nonce priv_nonce ns scope account name t t')
        → 25 + length made.pub_enc + length made.priv_enc + length name < 2 ^ 32
    Made-fits account made = omega (
      arith,
      encrypt-length c box_laws pub_nonce _ _ _ pub_size made.pub_encrypted,
      encrypt-length c box_laws priv_nonce _ _ _ priv_size made.priv_encrypted,
      key_laws.to_string_size made.pub_key,
      key_laws.to_string_size made.key,
    )

    Made-LastPut :
        (account : ℕ)
        → IsU32 account
        → (made : Made c d m pub_nonce priv_nonce ns scope account name t t')
        → LastPut c d m pub_nonce priv_nonce ns scope account made.after_row t'
    Made-LastPut account ha made =
        put_last_account-LastPut c d m pub_nonce priv_nonce ns scope laws account ha made.after_row
          t'
          (default_account-IsReady laws ns scope account made.pub_enc made.priv_enc 0 0 name t
            made.after_row ready ha (omega arith) (omega arith) (Made-fits account made)
            made.row_stored)
          made.last_stored

    Made-Stored :
        (account : ℕ)
        → IsU32 account
        → Made c d m pub_nonce priv_nonce ns scope account name t t'
        → Stored account name t'
    Made-Stored account ha made =
        let stored =
          default_account_stored laws ns scope account made.pub_enc made.priv_enc 0 0 name t
            made.after_row ready ha (omega arith) (omega arith) (Made-fits account made)
            made.row_stored in
        let put = Made-LastPut account ha made in
        record {
          last = put.last;
          by_name = put.by_name name ∙ ap (λ x. x.0) stored.1;
          coin_type_key = made.coin_type_key;
          key = made.key;
          pub_key = made.pub_key;
          derived = made.derived;
          neutered = made.neutered;
          pub_enc = made.pub_enc;
          priv_enc = made.priv_enc;
          row = put.info account ∙ ap (λ x. x.0) stored.0;
          pub_readable = decrypt-encrypted c box_laws pub_nonce _ _ _ pub_size made.pub_encrypted;
          priv_readable =
              decrypt-encrypted c box_laws priv_nonce _ _ _ priv_size made.priv_encrypted;
        }

    -- What a creation under one number leaves of the others.
    Made-frame :
        (account : ℕ)
        → IsU32 account
        → Made c d m pub_nonce priv_nonce ns scope account name t t'
        → (other : ℕ) (label : Bytes) → IsU32 other
        → account ≢ other
        → name ≢ label
        → ((fetch_account_info (some ns) scope other t').0
            ≡ (fetch_account_info (some ns) scope other t).0)
          × ((fetch_account_by_name (some ns) scope label t').0
              ≡ (fetch_account_by_name (some ns) scope label t).0)
    Made-frame account ha made other label ho ne_account ne_name =
        let put = Made-LastPut account ha made in
        let (row, index, last) =
          default_account_frame laws ns scope account made.pub_enc made.priv_enc 0 0 name t
            made.after_row ready ha (omega arith) (omega arith) (Made-fits account made)
            made.row_stored other label ho ne_account ne_name in
        (put.info other ∙ row, put.by_name label ∙ index)

    next_account-Made :
        (n : ℕ)
        → next_account c d m pub_nonce priv_nonce (some ns) scope name t ≡ (ok n, t')
        → (m.watching_only ≡ false)
          × (m.locked ≡ false)
          × (last : ℕ) × ((fetch_last_account (some ns) scope t).0 ≡ ok last)
          × (n ≡ u32 (last + 1))
          × Made c d m pub_nonce priv_nonce ns scope n name t t'
    unfolding next_account
    next_account-Made n h =
        let (writes, h1) = guard_then m.watching_only _ _ t h in
        let (unlocked, h2) = guard_then m.locked _ _ t h1 in
        let (last, e, h3) =
          read_then (fetch_last_account (some ns) scope) _ t
            (last_account_tree c d m pub_nonce priv_nonce ns scope t ready) h2 in
        let (w, done, h4) =
          bind-ok (new_account c d m pub_nonce priv_nonce (some ns) scope (u32 (last + 1)) name) _ t
            h3 in
        let same : u32 (last + 1) ≡ n = ground arith in
        let made =
          new_account-Made c d m pub_nonce priv_nonce ns scope (u32 (last + 1)) name t t' ready
            (ground arith) in
        (
          writes,
          unlocked,
          last,
          e,
          sym same,
          subst (λ k. Made c d m pub_nonce priv_nonce ns scope k name t t') same made,
        )

    Made-Accepted :
        {account : ℕ}
        → m.watching_only ≡ false
        → m.locked ≡ false
        → Made c d m pub_nonce priv_nonce ns scope account name t t'
        → Accepted name t
    Made-Accepted writes unlocked made =
        let named = (validate_account_name_iff name).0 made.valid in
        record {
          writable = (writes, unlocked);
          not_empty = named.0;
          not_reserved = named.1;
          unused = made.unused;
        }

    -- NewAccount that returns no error, in a scope whose buckets are there, with a name shorter
    -- than 2^31 bytes, nonces of 24 bytes, and keys and boxes that are read back, returns the
    -- number after the last account as a uint32. The manager was not locked and not watching only,
    -- the name was neither empty nor reserved nor found, and afterwards the number is the last
    -- account, is found under the name, and has a row with the name, indices 0, and the encrypted
    -- private and public keys derived for that account.
    pub next_account-Stored :
        (n : ℕ)
        → next_account c d m pub_nonce priv_nonce (some ns) scope name t ≡ (ok n, t')
        → (last : ℕ) × ((fetch_last_account (some ns) scope t).0 ≡ ok last)
          × (n ≡ u32 (last + 1))
          × Accepted name t
          × Stored n name t'
    next_account-Stored n h =
        let (writes, unlocked, last, e, same, made) = next_account-Made n h in
        (
          last,
          e,
          same,
          Made-Accepted writes unlocked made,
          Made-Stored n (rw same (omega arith)) made,
        )

    -- The other accounts.
    pub next_account_frame :
        (n : ℕ)
        → next_account c d m pub_nonce priv_nonce (some ns) scope name t ≡ (ok n, t')
        → (other : ℕ) (label : Bytes) → IsU32 other
        → n ≢ other
        → name ≢ label
        → ((fetch_account_info (some ns) scope other t').0
            ≡ (fetch_account_info (some ns) scope other t).0)
          × ((fetch_account_by_name (some ns) scope label t').0
              ≡ (fetch_account_by_name (some ns) scope label t).0)
    next_account_frame n h =
        let (writes, unlocked, last, e, same, made) = next_account-Made n h in
        Made-frame n (rw same (omega arith)) made

  module _ (laws : BoltLaws b) (box_laws : BoxLaws c) (key_laws : BtcdLaws d)
      (pub_size : IsNonce c pub_nonce) (priv_size : IsNonce c priv_nonce) (t t' : b.Tree)
      (ready : IsReady ns scope t) (decimal : ℕ → Bytes) (number : ℕ) (small : IsU32 number)
      (short : length (codes "act:" ++ decimal number) < 2 ^ 31) where
    -- NewRawAccount that returns no error, for a number of uint32 in a scope whose buckets are
    -- there, with a name shorter than 2^31 bytes, nonces of 24 bytes, and keys and boxes that are
    -- read back, makes that number the last account, whatever the last one was, and stores a row
    -- for it with the encrypted keys derived for it; the name was neither empty nor reserved nor
    -- found, and the manager was not locked and not watching only.
    pub new_raw_account-Stored :
        new_raw_account c d m pub_nonce priv_nonce (some ns) scope decimal number t ≡ (ok tt, t')
        → Accepted (codes "act:" ++ decimal number) t
          × Stored number (codes "act:" ++ decimal number) t'
    unfolding new_raw_account
    new_raw_account-Stored h =
        let name = codes "act:" ++ decimal number in
        let (writes, h1) = guard_then m.watching_only _ _ t h in
        let (unlocked, h2) = guard_then m.locked _ _ t h1 in
        let made = new_account-Made c d m pub_nonce priv_nonce ns scope number name t t' ready h2 in
        (
          Made-Accepted laws box_laws key_laws pub_size priv_size t t' ready name short writes
              unlocked made,
          Made-Stored laws box_laws key_laws pub_size priv_size t t' ready name short number small
              made,
        )
