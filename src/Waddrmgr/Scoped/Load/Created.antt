-- ===== src/Waddrmgr/Scoped/Load/Created.antt =====
-- An account that has been created is loaded with its keys.
use btc_wallet.Base.{ℕ, ◌≡◌, ◌∙◌, ◌<◌, ◌^◌, refl, sym, ap, true, false, none, some, length}
use btc_wallet.Go.{Result, ok}
use btc_wallet.Go.Bytes.{Bytes}
use btc_wallet.Btcd.{Btcd, BtcdLaws, Btcec}
use btc_wallet.Snacl.{Crypto}
use btc_wallet.Snacl.Box.{BoxLaws, IsNonce, decrypt}
use btc_wallet.Walletdb.Bolt.{Bolt, BoltLaws, BucketPath}
use btc_wallet.Walletdb.Bdb.{lift, ◌>>=◌}
use btc_wallet.Walletdb.Keeps.{Yields, Yields-bind, bind_runs}
use btc_wallet.Waddrmgr.Errors.{convert, convert_result}
use btc_wallet.Waddrmgr.Rows.{KeyScope, DefaultAccountRow, account_default}
use btc_wallet.Waddrmgr.Keys.{derive_account_key}
use btc_wallet.Waddrmgr.Manager.{Pointer, AccountInfo, ScopedKeyManager, Manager, find_scope}
use btc_wallet.Waddrmgr.Scoped.{next_account}
use btc_wallet.Waddrmgr.Store.Accounts.Ready.{IsReady}
use btc_wallet.Waddrmgr.Scoped.Created.{next_account-Stored}
use btc_wallet.Waddrmgr.Scoped.Account.{account_of, decrypt_key}
use btc_wallet.Waddrmgr.Scoped.Load.{last_addr, remember, load_uncached, load_account_info}
use btc_wallet.Waddrmgr.Scoped.Load.Cached.{remember-IsCached}
use btc_wallet.Waddrmgr.Store.Accounts.{default_row, fetch_account_info}
use btc_wallet.Waddrmgr.World.{World, Managed, in_tree, get_manager, get_scoped, find_account}

module _ (d : Btcd) where
  -- What the account in memory has of the one that was made.
  pub record HasAccount (name : Bytes) (key pub_key : d.Key) (info : AccountInfo d) : Type 0 where
    pub named : info.acct_name ≡ name
    pub unused : (info.next_external_index ≡ 0) × (info.next_internal_index ≡ 0)
    pub private_key : info.acct_key_priv ≡ some key
    pub public_key : info.acct_key_pub ≡ some pub_key

  abbrev made_account : DefaultAccountRow → d.Key → d.Key → AccountInfo d
  made_account row key pub_key = record {
    acct_name = row.name;
    acct_type = row.row.acct_type;
    acct_key_encrypted = some row.priv_key_encrypted;
    acct_key_priv = some key;
    acct_key_pub = some pub_key;
    next_external_index = row.next_external_index;
    last_external_addr = none;
    next_internal_index = row.next_internal_index;
    last_internal_addr = none;
    addr_schema = none;
    master_key_fingerprint = 0;
  }

  -- What loadAccountInfo makes of the row that NewAccount stored.
  abbrev pub loaded_account : Bytes → Bytes → d.Key → d.Key → Pointer → AccountInfo d
  loaded_account name priv_enc key pub_key p = record {
    acct_name = name;
    acct_type = account_default;
    acct_key_encrypted = some priv_enc;
    acct_key_priv = some key;
    acct_key_pub = some pub_key;
    next_external_index = 0;
    last_external_addr = none;
    next_internal_index = 0;
    last_internal_addr = some p;
    addr_schema = none;
    master_key_fingerprint = 0;
  }

  account_of-default :
      (c : Crypto) (laws : BtcdLaws d) (m : Manager d) (row : DefaultAccountRow)
      (key pub_key : d.Key)
      → m.locked ≡ false
      → m.watching_only ≡ false
      → decrypt c m.crypto_key_pub row.pub_key_encrypted ≡ ok (d.to_string pub_key)
      → decrypt c m.crypto_key_priv row.priv_key_encrypted ≡ ok (d.to_string key)
      → account_of d c m (default_row row) ≡ ok (made_account row key pub_key, true)
  unfolding account_of decrypt_key
  account_of-default c laws m row key pub_key free writes pub_read priv_read =
      rw
        (
          free,
          writes,
          pub_read,
          priv_read,
          laws.new_key_from_string-to_string pub_key,
          laws.new_key_from_string-to_string key,
        )
        refl

module _ ⦃b : Bolt⦄ (c : Crypto) (d : Btcd) (e : Btcec d) (random : ℕ → ℕ → Result Bytes)
    (sha256 : Bytes → Bytes) (ns : BucketPath) (scope : KeyScope) (account : ℕ) where
  -- The rest, when the account's row has been read.
  abbrev last_and_remember : AccountInfo d → Managed d (AccountInfo d)
  last_and_remember made = last_addr c d e random sha256 (some ns) scope account made true >>= λ p.
      remember c d e random sha256 (some ns) scope account
        (record made { last_internal_addr = some p })

  loads_steps :
      (row : DefaultAccountRow) (key pub_key : d.Key) (w : World d) (s : ScopedKeyManager d)
      → find_scope d scope w.manager.scoped_managers ≡ some s
      → find_account account s.acct_info ≡ none
      → (fetch_account_info (some ns) scope account w.tree).0 ≡ ok (default_row row)
      → account_of d c w.manager (default_row row) ≡ ok (made_account d row key pub_key, true)
      → load_account_info c d e random sha256 (some ns) scope account w
        ≡ last_and_remember
            (made_account d row key pub_key)
            (record w { tree = (fetch_account_info (some ns) scope account w.tree).1 })
  unfolding load_account_info load_uncached get_scoped get_manager in_tree
  loads_steps row key pub_key w s scoped fresh fetched made = rw scoped (
      rw fresh (
        bind_runs (in_tree d (convert (fetch_account_info (some ns) scope account))) _ w
          (record w { tree = (fetch_account_info (some ns) scope account w.tree).1 })
          (default_row row)
          (ap
            (λ r. (
              convert_result r,
              record w { tree = (fetch_account_info (some ns) scope account w.tree).1 },
            ))
            fetched)
        ∙ bind_runs (lift (account_of d c w.manager (default_row row))) _ _ _
            (made_account d row key pub_key, true)
            (ap
              (λ r. (r, record w { tree = (fetch_account_info (some ns) scope account w.tree).1 }))
              made)))

  loads_made :
      (row : DefaultAccountRow) (key pub_key : d.Key) (w w' : World d) (info : AccountInfo d)
      (s : ScopedKeyManager d)
      → find_scope d scope w.manager.scoped_managers ≡ some s
      → find_account account s.acct_info ≡ none
      → (fetch_account_info (some ns) scope account w.tree).0 ≡ ok (default_row row)
      → account_of d c w.manager (default_row row) ≡ ok (made_account d row key pub_key, true)
      → load_account_info c d e random sha256 (some ns) scope account w ≡ (ok info, w')
      → (p : Pointer) × (info
          ≡ record (made_account d row key pub_key) { last_internal_addr = some p })
  loads_made row key pub_key w w' info s scoped fresh fetched made h =
      finished.at (record w { tree = (fetch_account_info (some ns) scope account w.tree).1 }) w'
        info (sym (loads_steps row key pub_key w s scoped fresh fetched made) ∙ h)
    where
      finished :
          Yields
            (λ given w'.
              (p : Pointer) × (given
                ≡ record (made_account d row key pub_key) { last_internal_addr = some p }))
            (last_and_remember (made_account d row key pub_key))
      finished =
          Yields-bind
            (last_addr c d e random sha256 (some ns) scope account (made_account d row key pub_key)
              true)
            _
            λ p. record {
              at = λ w w' given g. (
                p,
                ((remember-IsCached c d e random sha256 (some ns) scope account _).at w w' given
                    g).1,
              );
            }

module _ ⦃b : Bolt⦄ (laws : BoltLaws b) (c : Crypto) (box_laws : BoxLaws c) (d : Btcd)
    (key_laws : BtcdLaws d) (e : Btcec d) (random : ℕ → ℕ → Result Bytes) (sha256 : Bytes → Bytes)
    (m : Manager d) (pub_nonce priv_nonce : Result Bytes) (pub_size : IsNonce c pub_nonce)
    (priv_size : IsNonce c priv_nonce) (ns : BucketPath) (scope : KeyScope) where
  pub loaded_account_made :
      (name : Bytes) (t t' : b.Tree) (n reads : ℕ) (s : ScopedKeyManager d) (w' : World d)
      (info : AccountInfo d)
      → IsReady ns scope t
      → length name < 2 ^ 31
      → next_account c d m pub_nonce priv_nonce (some ns) scope name t ≡ (ok n, t')
      → find_scope d scope m.scoped_managers ≡ some s
      → find_account n s.acct_info ≡ none
      → load_account_info c d e random sha256
          (some ns)
          scope
          n
          (record { manager = m; tree = t'; reads = reads })
        ≡ (ok info, w')
      → (coin_type_key key pub_key : d.Key) × (derive_account_key d coin_type_key n ≡ ok key)
        × (d.neuter key ≡ ok pub_key)
        × (priv_enc : Bytes) × (p : Pointer) × (info ≡ loaded_account d name priv_enc key pub_key p)
  loaded_account_made name t t' n reads s w' info ready short created scoped fresh loaded =
      let (last, was, same, accepted, stored) =
        next_account-Stored c d m pub_nonce priv_nonce ns scope laws box_laws key_laws pub_size
          priv_size t t' ready name short n created in
      let (p, is) =
        loads_made c d e random sha256 ns scope n _ stored.key stored.pub_key
          (record { manager = m; tree = t'; reads = reads }) w' info s scoped fresh stored.row
          (account_of-default d c key_laws m _ stored.key stored.pub_key accepted.writable.1
            accepted.writable.0 stored.pub_readable stored.priv_readable)
          loaded in
      (
        stored.coin_type_key, stored.key, stored.pub_key, stored.derived, stored.neutered,
        stored.priv_enc, p, is,
      )

  -- After NewAccount has returned a number without an error, in a scope whose buckets are there,
  -- with a name shorter than 2^31 bytes, nonces of 24 bytes, and keys and boxes that are read
  -- back, what loadAccountInfo returns without an error for that number, by the same manager in a
  -- scope of its own that has no such account in memory, has the name, indices 0, and the private
  -- and the public key derived for that account.
  pub next_account-load_account_info :
      (name : Bytes) (t t' : b.Tree) (n reads : ℕ) (s : ScopedKeyManager d) (w' : World d)
      (info : AccountInfo d)
      → IsReady ns scope t
      → length name < 2 ^ 31
      → next_account c d m pub_nonce priv_nonce (some ns) scope name t ≡ (ok n, t')
      → find_scope d scope m.scoped_managers ≡ some s
      → find_account n s.acct_info ≡ none
      → load_account_info c d e random sha256
          (some ns)
          scope
          n
          (record { manager = m; tree = t'; reads = reads })
        ≡ (ok info, w')
      → (coin_type_key key pub_key : d.Key) × (derive_account_key d coin_type_key n ≡ ok key)
        × (d.neuter key ≡ ok pub_key)
        × HasAccount d name key pub_key info
  next_account-load_account_info name t t' n reads s w' info ready short created scoped fresh
        loaded =
      let (coin_type_key, key, pub_key, derived, neutered, priv_enc, p, is) =
        loaded_account_made name t t' n reads s w' info ready short created scoped fresh loaded in
      (
        coin_type_key,
        key,
        pub_key,
        derived,
        neutered,
        record {
          named = ap (λ i. i.acct_name) is;
          unused = (ap (λ i. i.next_external_index) is, ap (λ i. i.next_internal_index) is);
          private_key = ap (λ i. i.acct_key_priv) is;
          public_key = ap (λ i. i.acct_key_pub) is;
        },
      )
