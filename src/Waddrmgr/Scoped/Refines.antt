-- ===== src/Waddrmgr/Scoped/Refines.antt =====
-- The accounts of a scope as an abstract map from numbers to rows and from names to numbers, which
-- forgets the buckets, the encodings and the order of the writes.
use btc_wallet.Base.{
  ℕ, ◌+◌, ◌<◌, ◌^◌, ◌%◌, ◌≡◌, ◌≢◌, sym, ap, ◌==◌, inl, inr, Bool-cases, some, ◌∷◌, length, bytes_eq,
  bytes_eq_iff, arith, if◌then◌else◌,
}
use btc_wallet.Go.{Result, ok}
use btc_wallet.Go.Bytes.{Bytes, u32}
use btc_wallet.Btcd.{Btcd, BtcdLaws}
use btc_wallet.Snacl.{Crypto}
use btc_wallet.Snacl.Box.{BoxLaws, IsNonce}
use btc_wallet.Walletdb.Bolt.{Bolt, BoltLaws, BucketPath}
use btc_wallet.Waddrmgr.Rows.{KeyScope, account_default}
use btc_wallet.Waddrmgr.Rows.Account.Layout.{default_account_layout}
use btc_wallet.Waddrmgr.Manager.{Manager}
use btc_wallet.Waddrmgr.Store.Accounts.{
  RowInterface, default_row, fetch_account_by_name, fetch_account_info, fetch_last_account,
}
use btc_wallet.Waddrmgr.Store.Accounts.Ready.{IsReady}
use btc_wallet.Waddrmgr.Scoped.{next_account}
use btc_wallet.Waddrmgr.Scoped.Created.{next_account-Stored, next_account_frame}

pub record AccountMap : Type 0 where
  pub row : ℕ → Result RowInterface
  pub number : Bytes → Result ℕ
  pub last : Result ℕ

abbrev pub insert : ℕ → Bytes → RowInterface → AccountMap → AccountMap
insert n name row a = record {
  row = λ k. if k == n then ok row else a.row k;
  number = λ label. if bytes_eq label name then ok n else a.number label;
  last = ok n;
}

-- Equal on the numbers that a uint32 can be, and on every name.
pub record Agrees (a a' : AccountMap) : Type 0 where
  pub row : (k : ℕ) → a.row (u32 k) ≡ a'.row (u32 k)
  pub number : (label : Bytes) → a.number label ≡ a'.number label
  pub last : a.last ≡ a'.last

abbrev pub account_map : ⦃b : Bolt⦄ → BucketPath → KeyScope → b.Tree → AccountMap
account_map ns scope t = record {
  row = λ n. (fetch_account_info (some ns) scope n t).0;
  number = λ name. (fetch_account_by_name (some ns) scope name t).0;
  last = (fetch_last_account (some ns) scope t).0;
}

module _ ⦃b : Bolt⦄ (c : Crypto) (d : Btcd) (m : Manager d) (pub_nonce priv_nonce : Result Bytes)
    (ns : BucketPath) (scope : KeyScope) (laws : BoltLaws b) (box_laws : BoxLaws c)
    (key_laws : BtcdLaws d) (pub_size : IsNonce c pub_nonce) (priv_size : IsNonce c priv_nonce)
    (t t' : b.Tree) (ready : IsReady ns scope t) (name : Bytes) (short : length name < 2 ^ 31) where
  -- Seen as a map from numbers of uint32 to rows and from names to numbers, with the last number,
  -- a scope after NewAccount has returned no error is the scope before with the returned number,
  -- the name and one row inserted, and all else as it was, where the buckets of the scope are
  -- there, the name is shorter than 2^31 bytes, the nonces have 24 bytes, and keys and boxes are
  -- read back.
  pub next_account_refines :
      (n : ℕ)
      → next_account c d m pub_nonce priv_nonce (some ns) scope name t ≡ (ok n, t')
      → (row : RowInterface) × Agrees
          (account_map ns scope t')
          (insert n name row (account_map ns scope t))
  next_account_refines n h =
      let (last, read, same, accepted, stored) =
        next_account-Stored c d m pub_nonce priv_nonce ns scope laws box_laws key_laws pub_size
          priv_size t t' ready name short n h in
      let frame =
        next_account_frame c d m pub_nonce priv_nonce ns scope laws box_laws key_laws pub_size
          priv_size t t' ready name short n h in
      let value : RowInterface = default_row (record {
        row = record {
          acct_type = account_default;
          raw_data = default_account_layout stored.pub_enc stored.priv_enc 0 0 name;
        };
        pub_key_encrypted = stored.pub_enc;
        priv_key_encrypted = stored.priv_enc;
        next_external_index = 0;
        next_internal_index = 0;
        name = name;
      }) in
      let longer : name ≢ 0 ∷ name = λ e. omega (arith, ap length e) in
      (
        value,
        record {
          row = λ k. elim (Bool-cases (u32 k == n)) [
            | inl e ↦ let found : u32 k ≡ n = ground arith in rw e (rw found stored.row)
            | inr e ↦ rw e (frame (u32 k) (0 ∷ name) (omega arith) (ground arith) longer).0
          ];
          number = λ label. elim (Bool-cases (bytes_eq label name)) [
            | inl e ↦
                let found : label ≡ name = (bytes_eq_iff label name).0 e in
                rw e (rw found stored.by_name)
            | inr e ↦
                rw e
                  (frame ((n + 1) % 2 ^ 32) label (omega arith) (omega (arith, same))
                    (λ x. cc ((bytes_eq_iff label name).1 (sym x), e))).1
          ];
          last = ap (λ x. x.0) stored.last;
        },
      )
