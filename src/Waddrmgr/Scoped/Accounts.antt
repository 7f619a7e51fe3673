-- ===== src/Waddrmgr/Scoped/Accounts.antt =====
-- A new account: what its creation has done once it has returned no error.
use btc_wallet.Base.{ℕ, ◌≡◌, refl, subst, ◌∙◌, inl, none, some, ◌∷◌, bytes_ne, arith}
use btc_wallet.Errors.{Error, manager, err_locked, err_key_chain, err_crypto, err_duplicate_account}
use btc_wallet.Go.{Result, ok, err, panic}
use btc_wallet.Go.Bytes.{Bytes, IsU32}
use btc_wallet.Go.Endian.{uint32-le_bytes}
use btc_wallet.Btcd.{Btcd}
use btc_wallet.Snacl.{Crypto}
use btc_wallet.Snacl.Box.{encrypt, decrypt}
use btc_wallet.Walletdb.Bolt.{Bolt, BoltLaws, BucketPath}
use btc_wallet.Walletdb.Bdb.{get, put}
use btc_wallet.Waddrmgr.Rows.{KeyScope, string_to_bytes, uint32_to_bytes}
use btc_wallet.Waddrmgr.Keys.{derive_account_key, validate_account_name}
use btc_wallet.Waddrmgr.Manager.{Manager}
use btc_wallet.Waddrmgr.Store
use btc_wallet.Waddrmgr.Store.Steps.{path_ne, bind-ok, lift_then, read_then, wrap_result-ok}
use btc_wallet.Waddrmgr.Store.Params.{fetch_coin_type_keys}
use btc_wallet.Waddrmgr.Store.Accounts.{
  fetch_account_by_name, fetch_account_info, fetch_last_account, put_default_account_info,
  put_last_account,
}
use btc_wallet.Waddrmgr.Store.Accounts.Ready.{
  scope_path, IsReady, put-IsReady, name_reply_result, row_reply_result,
  fetch_account_by_name_ready, fetch_account_info_ready, fetch_last_account_ready,
  put_last_account_ready, fetch_read_scope_bucket_ready,
}
use btc_wallet.Waddrmgr.Scoped.{refused, refuse_found, lookup_account, new_account}

refused-ok :
    {A : Type 0} (e : Error) (r : Result A) {u : Unit {0}}
    → refused e r ≡ ok u
    → (x : Error) × (r ≡ err x)
refused-ok e (ok a) h = absurd (ground arith)
refused-ok e (err x) h = (x, refl)
refused-ok e panic h = absurd (ground arith)

module _ ⦃b : Bolt⦄ (c : Crypto) (d : Btcd) (m : Manager d) (pub_nonce priv_nonce : Result Bytes)
    (ns : BucketPath) (scope : KeyScope) where
  -- Everything that a creation without an error went through.
  pub record Made (account : ℕ) (name : Bytes) (t t' : b.Tree) : Type 0 where
    pub valid : validate_account_name name ≡ ok tt
    pub unused : (e : Error) × ((fetch_account_by_name (some ns) scope name t).0 ≡ err e)
    pub coin_type_keys : Bytes × Bytes
    pub fetched : (fetch_coin_type_keys (some ns) scope t).0 ≡ ok coin_type_keys
    pub serialized : Bytes
    pub decrypted : decrypt c m.crypto_key_priv coin_type_keys.1 ≡ ok serialized
    pub coin_type_key : d.Key
    pub parsed : d.new_key_from_string serialized ≡ ok coin_type_key
    pub key : d.Key
    pub derived : derive_account_key d coin_type_key account ≡ ok key
    pub pub_key : d.Key
    pub neutered : d.neuter key ≡ ok pub_key
    pub pub_enc : Bytes
    pub pub_encrypted : encrypt c pub_nonce m.crypto_key_pub (d.to_string pub_key) ≡ ok pub_enc
    pub priv_enc : Bytes
    pub priv_encrypted : encrypt c priv_nonce m.crypto_key_priv (d.to_string key) ≡ ok priv_enc
    pub after_row : b.Tree
    pub row_stored :
        put_default_account_info (some ns) scope account pub_enc priv_enc 0 0 name t
        ≡ (ok tt, after_row)
    pub last_stored : put_last_account (some ns) scope account after_row ≡ (ok tt, t')

  lookup_tree :
      (name : Bytes) (t : b.Tree)
      → IsReady ns scope t
      → (lookup_account (some ns) scope name t).1 ≡ t
  unfolding lookup_account
  lookup_tree name t r = rw (fetch_account_by_name_ready ns scope t r name) (ground arith)

  pub last_account_tree :
      (t : b.Tree) → IsReady ns scope t → (fetch_last_account (some ns) scope t).1 ≡ t
  last_account_tree t r = rw (fetch_last_account_ready ns scope t r) (ground arith)

  coin_type_keys_tree :
      (t : b.Tree) → IsReady ns scope t → (fetch_coin_type_keys (some ns) scope t).1 ≡ t
  unfolding fetch_coin_type_keys get
  coin_type_keys_tree t r = rw (fetch_read_scope_bucket_ready ns scope t r) (ground arith)

  pub new_account-Made :
      (account : ℕ) (name : Bytes) (t t' : b.Tree)
      → IsReady ns scope t
      → new_account c d m pub_nonce priv_nonce (some ns) scope account name t ≡ (ok tt, t')
      → Made account name t t'
  unfolding new_account lookup_account
  new_account-Made account name t t' r h =
      let (u, valid, h1) = lift_then _ _ t h in
      let (v, absent, h2) =
        read_then
          (refuse_found (manager err_duplicate_account) (lookup_account (some ns) scope name)) _ t
          (lookup_tree name t r) h1 in
      let (keys, fetched, h3) =
        read_then (fetch_coin_type_keys (some ns) scope) _ t (coin_type_keys_tree t r) h2 in
      let (serialized, e4, h4) = lift_then _ _ t h3 in
      let (coin_type_key, e5, h5) = lift_then _ _ t h4 in
      let (key, e6, h6) = lift_then _ _ t h5 in
      let (pub_key, e7, h7) = lift_then _ _ t h6 in
      let (pub_enc, e8, h8) = lift_then _ _ t h7 in
      let (priv_enc, e9, h9) = lift_then _ _ t h8 in
      let (w, stored, h10) =
        bind-ok (put_default_account_info (some ns) scope account pub_enc priv_enc 0 0 name) _ t
          h9 in
      record {
        valid = valid;
        unused = refused-ok _ _ absent;
        coin_type_keys = keys;
        fetched = fetched;
        serialized = serialized;
        decrypted = wrap_result-ok err_locked _ e4;
        coin_type_key = coin_type_key;
        parsed = wrap_result-ok err_key_chain _ e5;
        key = key;
        derived = wrap_result-ok err_key_chain _ e6;
        pub_key = pub_key;
        neutered = wrap_result-ok err_key_chain _ e7;
        pub_enc = pub_enc;
        pub_encrypted = wrap_result-ok err_crypto _ e8;
        priv_enc = priv_enc;
        priv_encrypted = wrap_result-ok err_crypto _ e9;
        after_row = _;
        row_stored = stored;
        last_stored = h10;
      }

  -- What `putLastAccount` without an error does.
  pub record LastPut (account : ℕ) (t t' : b.Tree) : Type 0 where
    pub ready : IsReady ns scope t'
    pub last : fetch_last_account (some ns) scope t' ≡ (ok account, t')
    pub by_name :
        (name : Bytes)
        → (fetch_account_by_name (some ns) scope name t').0
          ≡ (fetch_account_by_name (some ns) scope name t).0
    pub info :
        (n : ℕ)
        → (fetch_account_info (some ns) scope n t').0 ≡ (fetch_account_info (some ns) scope n t).0

  pub put_last_account-LastPut :
      (laws : BoltLaws b) (account : ℕ)
      → IsU32 account
      → (t t' : b.Tree) → IsReady ns scope t
      → put_last_account (some ns) scope account t ≡ (ok tt, t')
      → LastPut account t t'
  unfolding put
  put_last_account-LastPut laws account ha t t' r h =
      let step = put_last_account_ready ns scope t r account in
      let done : (b.put t meta_path Store.Name.last_account (uint32_to_bytes account)).0 ≡ none =
        ground (arith, step) in
      let after : IsReady ns scope u =
        put-IsReady ns scope laws t meta_path Store.Name.last_account (uint32_to_bytes account) r in
      subst (LastPut account t) (ground (arith, step)) (record {
        ready = after;
        last =
            fetch_last_account_ready ns scope u after
            ∙ rw
                (laws.get-put_self t meta_path Store.Name.last_account (uint32_to_bytes account)
                  done)
                (rw (uint32-le_bytes account ha) refl);
        by_name = λ name.
            rw
              (
                fetch_account_by_name_ready ns scope u after name,
                fetch_account_by_name_ready ns scope t r name,
                laws.get-put_ne t meta_path Store.Name.last_account (uint32_to_bytes account)
                    (Store.Name.acct_name_idx ∷ scope_path ns scope) (string_to_bytes name) done
                    (inl (path_ne _ _ _ (bytes_ne _ _ refl))),
              )
              (name_reply_result
                (b.get t (Store.Name.acct_name_idx ∷ scope_path ns scope) (string_to_bytes name)) u
                t);
        info = λ n.
            rw
              (
                fetch_account_info_ready ns scope u after n,
                fetch_account_info_ready ns scope t r n,
                laws.get-put_ne t meta_path Store.Name.last_account (uint32_to_bytes account)
                    (Store.Name.acct ∷ scope_path ns scope) (uint32_to_bytes n) done
                    (inl (path_ne _ _ _ (bytes_ne _ _ refl))),
              )
              (row_reply_result
                (b.get t (Store.Name.acct ∷ scope_path ns scope) (uint32_to_bytes n)) u t);
      })
    where
      meta_path : BucketPath
      meta_path = Store.Name.meta ∷ scope_path ns scope

      u : b.Tree
      u = (b.put t meta_path Store.Name.last_account (uint32_to_bytes account)).1
