-- ===== src/Waddrmgr/Store/Accounts/RoundTrip.antt =====
-- An account that has been stored is found by number and by name, and nothing else has changed.
use btc_wallet.Base.{
  ℕ, ◌^◌, ◌<◌, ◌+◌, ◌≡◌, ◌≢◌, refl, sym, ap, ◌∙◌, ◌⊎◌, inl, inr, none, some, ◌∷◌, drop, arith,
  bytes_ne, length,
}
use btc_wallet.Go.{ok}
use btc_wallet.Go.Bytes.{Bytes, IsU32}
use btc_wallet.Go.Endian.{le_value, le_value-le_bytes, uint32-le_bytes}
use btc_wallet.Walletdb.Bolt.{Bolt, BoltLaws, BucketPath}
use btc_wallet.Walletdb.Bdb.{put}
use btc_wallet.Waddrmgr.Rows.{
  KeyScope, AccountRow, account_default, uint32_to_bytes, string_to_bytes,
}
use btc_wallet.Waddrmgr.Rows.Account.{serialize_account_row}
use btc_wallet.Waddrmgr.Rows.Account.Layout.{
  account_layout, default_account_layout, serialize_account_row-layout,
  deserialize_account_row-layout, serialize_default_account_row-layout,
}
use btc_wallet.Waddrmgr.Rows.Account.RoundTrip.{
  deserialize_default_account_row-layout, default_account_row_size,
}
use btc_wallet.Waddrmgr.Store
use btc_wallet.Waddrmgr.Store.{found_or}
use btc_wallet.Waddrmgr.Store.Steps.{path_ne}
use btc_wallet.Waddrmgr.Store.Accounts.{
  default_row, put_account_info, put_default_account_info, fetch_account_by_name,
  fetch_account_info, fetch_last_account,
}
use btc_wallet.Waddrmgr.Store.Accounts.Ready.{
  scope_path, IsReady, put-IsReady, put_account_row_ready, put_account_id_index_ready,
  put_account_name_index_ready, fetch_account_by_name_ready, fetch_account_info_ready,
  fetch_last_account_ready, row_reply_result, name_reply_result, last_account_result,
}

uint32_to_bytes_ne : (m n : ℕ) → IsU32 m → IsU32 n → m ≢ n → uint32_to_bytes m ≢ uint32_to_bytes n
uint32_to_bytes_ne m n hm hn d e =
    d (sym (le_value-le_bytes 4 m hm) ∙ ap le_value e ∙ le_value-le_bytes 4 n hn)

string_to_bytes_ne : (s t : Bytes) → s ≢ t → string_to_bytes s ≢ string_to_bytes t
string_to_bytes_ne s t d e = d (ap (drop 4) e)

module _ ⦃b : Bolt⦄ (laws : BoltLaws b) (ns : BucketPath) (scope : KeyScope) where
  abbrev acct_path : BucketPath
  acct_path = Store.Name.acct ∷ scope_path ns scope

  abbrev id_path : BucketPath
  id_path = Store.Name.acct_id_idx ∷ scope_path ns scope

  abbrev name_path : BucketPath
  name_path = Store.Name.acct_name_idx ∷ scope_path ns scope

  abbrev meta_path : BucketPath
  meta_path = Store.Name.meta ∷ scope_path ns scope

  module _ (t : b.Tree) (account : ℕ) (buf name : Bytes) where
    abbrev t1 : b.Tree
    t1 = (b.put t acct_path (uint32_to_bytes account) buf).1

    abbrev t2 : b.Tree
    t2 = (b.put t1 id_path (uint32_to_bytes account) (string_to_bytes name)).1

    abbrev t3 : b.Tree
    t3 = (b.put t2 name_path (string_to_bytes name) (uint32_to_bytes account)).1

    -- The three writes of `putAccountInfo`, all without an error.
    record Written (t' : b.Tree) : Type 0 where
      row_put : (b.put t acct_path (uint32_to_bytes account) buf).0 ≡ none
      id_put : (b.put t1 id_path (uint32_to_bytes account) (string_to_bytes name)).0 ≡ none
      name_put : (b.put t2 name_path (string_to_bytes name) (uint32_to_bytes account)).0 ≡ none
      tree : t' ≡ t3

    put_account_info-Written :
        (row : AccountRow) (t' : b.Tree)
        → IsReady ns scope t
        → serialize_account_row row ≡ ok buf
        → put_account_info (some ns) scope account row name t ≡ (ok tt, t')
        → Written t'
    unfolding put_account_info put
    put_account_info-Written row t' r e h =
        let r1 = put-IsReady ns scope laws t acct_path (uint32_to_bytes account) buf r in
        let r2 =
          put-IsReady ns scope laws t1 id_path (uint32_to_bytes account) (string_to_bytes name)
            r1 in
        ground (
          arith,
          put_account_row_ready ns scope t r account row e,
          put_account_id_index_ready ns scope t1 r1 account name,
          put_account_name_index_ready ns scope t2 r2 account name,
        )

    module _ (t' : b.Tree) (w : Written t') where
      get_row : b.get t' acct_path (uint32_to_bytes account) ≡ some buf
      get_row = rw w.tree (
          laws.get-put_ne t2 name_path _ _ acct_path _ w.name_put
            (inl (path_ne _ _ _ (bytes_ne _ _ refl)))
          ∙ laws.get-put_ne t1 id_path _ _ acct_path _ w.id_put
              (inl (path_ne _ _ _ (bytes_ne _ _ refl)))
          ∙ laws.get-put_self t acct_path _ _ w.row_put)

      get_name : b.get t' name_path (string_to_bytes name) ≡ some (uint32_to_bytes account)
      get_name = rw w.tree (laws.get-put_self t2 name_path _ _ w.name_put)

      -- An entry that none of the three writes names is as it was.
      get_other :
          (q : BucketPath) (j : Bytes)
          → ((acct_path ≢ q) ⊎ (uint32_to_bytes account ≢ j))
          → ((id_path ≢ q) ⊎ (uint32_to_bytes account ≢ j))
          → ((name_path ≢ q) ⊎ (string_to_bytes name ≢ j))
          → b.get t' q j ≡ b.get t q j
      get_other q j da di dn = rw w.tree (
          laws.get-put_ne t2 name_path _ _ q j w.name_put dn
          ∙ laws.get-put_ne t1 id_path _ _ q j w.id_put di
          ∙ laws.get-put_ne t acct_path _ _ q j w.row_put da)

      Written-IsReady : IsReady ns scope t → IsReady ns scope t'
      Written-IsReady r = rw w.tree (
          put-IsReady ns scope laws t2 name_path _ _ (
            put-IsReady ns scope laws t1 id_path _ _ (put-IsReady ns scope laws t acct_path _ _ r)))

  module _ (account : ℕ) (pub_enc priv_enc : Bytes) (ext int : ℕ) (name : Bytes) (t t' : b.Tree)
      (ready : IsReady ns scope t) (ha : IsU32 account) (he : IsU32 ext) (hi : IsU32 int)
      (hl : 25 + length pub_enc + length priv_enc + length name < 2 ^ 32)
      (stored : put_default_account_info (some ns) scope account pub_enc priv_enc ext int name t
        ≡ (ok tt, t')) where
    abbrev raw : Bytes
    raw = default_account_layout pub_enc priv_enc ext int name

    abbrev row : AccountRow
    row = record { acct_type = account_default; raw_data = raw }

    fits : length raw + 5 < 2 ^ 32
    fits = omega (arith, default_account_row_size pub_enc priv_enc ext int name)

    written : Written t account (account_layout row) name t'
    unfolding put_default_account_info
    written =
        put_account_info-Written t account (account_layout row) name row t' ready
          (serialize_account_row-layout row (omega arith) fits)
          (rw (serialize_default_account_row-layout pub_enc priv_enc ext int name (omega arith)) at
            stored)

    after : IsReady ns scope t'
    after = Written-IsReady t account (account_layout row) name t' written ready

    -- The buckets of the scope are still there.
    pub default_account-IsReady : IsReady ns scope t'
    default_account-IsReady = after

    unchanged :
        (q : BucketPath) (j : Bytes)
        → ((acct_path ≢ q) ⊎ (uint32_to_bytes account ≢ j))
        → ((id_path ≢ q) ⊎ (uint32_to_bytes account ≢ j))
        → ((name_path ≢ q) ⊎ (string_to_bytes name ≢ j))
        → b.get t' q j ≡ b.get t q j
    unchanged = get_other t account (account_layout row) name t' written

    -- In a scope whose buckets are there, after putDefaultAccountInfo has returned no error for
    -- numbers of uint32 and fields whose sizes fit in uint32, fetchAccountInfo finds the account
    -- under its number with every field that was stored, and fetchAccountByName finds the number
    -- under its name.
    pub default_account_stored :
        (fetch_account_info (some ns) scope account t' ≡ (
          ok (
              default_row (record {
                row = row;
                pub_key_encrypted = pub_enc;
                priv_key_encrypted = priv_enc;
                next_external_index = ext;
                next_internal_index = int;
                name = name;
              })),
          t',
        ))
        × (fetch_account_by_name (some ns) scope name t' ≡ (ok account, t'))
    default_account_stored = (
      fetch_account_info_ready ns scope t' after account
          ∙ rw (
            get_row t account (account_layout row) name t' written,
            deserialize_account_row-layout row fits,
            deserialize_default_account_row-layout row pub_enc priv_enc ext int name refl
                (omega arith) he hi,
          ),
      fetch_account_by_name_ready ns scope t' after name
          ∙ rw
              (get_name t account (account_layout row) name t' written, uint32-le_bytes account ha),
    )

    -- In a scope whose buckets are there, putDefaultAccountInfo that returns no error, for numbers
    -- of uint32 and fields whose sizes fit in uint32, leaves what is found under every other
    -- number of uint32 and every other name, and the number of the last account, as they were.
    pub default_account_frame :
        (other : ℕ) (label : Bytes)
        → IsU32 other
        → account ≢ other
        → name ≢ label
        → ((fetch_account_info (some ns) scope other t').0
            ≡ (fetch_account_info (some ns) scope other t).0)
          × ((fetch_account_by_name (some ns) scope label t').0
              ≡ (fetch_account_by_name (some ns) scope label t).0)
          × ((fetch_last_account (some ns) scope t').0 ≡ (fetch_last_account (some ns) scope t).0)
    default_account_frame other label ho d dl = (
      rw
          (
            fetch_account_info_ready ns scope t' after other,
            fetch_account_info_ready ns scope t ready other,
            unchanged acct_path (uint32_to_bytes other)
                (inr (uint32_to_bytes_ne account other ha ho d))
                (inr (uint32_to_bytes_ne account other ha ho d))
                (inl (path_ne _ _ _ (bytes_ne _ _ refl))),
          )
          (row_reply_result (b.get t acct_path (uint32_to_bytes other)) t' t),
      rw
          (
            fetch_account_by_name_ready ns scope t' after label,
            fetch_account_by_name_ready ns scope t ready label,
            unchanged name_path (string_to_bytes label) (inl (path_ne _ _ _ (bytes_ne _ _ refl)))
                (inl (path_ne _ _ _ (bytes_ne _ _ refl))) (inr (string_to_bytes_ne name label dl)),
          )
          (name_reply_result (b.get t name_path (string_to_bytes label)) t' t),
      rw
          (
            fetch_last_account_ready ns scope t' after,
            fetch_last_account_ready ns scope t ready,
            unchanged meta_path Store.Name.last_account (inl (path_ne _ _ _ (bytes_ne _ _ refl)))
                (inl (path_ne _ _ _ (bytes_ne _ _ refl))) (inl (path_ne _ _ _ (bytes_ne _ _ refl))),
          )
          (last_account_result (b.get t meta_path Store.Name.last_account) t' t),
    )
