-- ===== src/Waddrmgr/Store/Params/Kept.antt =====
-- The entries of a manager's fixed buckets that writes of the store leave as they were.
use btc_wallet.Base.{ℕ, suc, ◌≢◌, Bool, Option, none, some, ◌∷◌, length, arith}
use btc_wallet.Go.Bytes.{Bytes}
use btc_wallet.Walletdb.Bolt.{Bolt, BoltLaws, BucketPath}
use btc_wallet.Walletdb.Bdb.{Handle, put, nested_bucket}
use btc_wallet.Waddrmgr.Rows.Account.{serialize_account_row, serialize_default_account_row}
use btc_wallet.Waddrmgr.Rows.{KeyScope, AccountRow}
use btc_wallet.Waddrmgr.Store
use btc_wallet.Walletdb.Keeps.{Keeps, Any, Keeps-pure, Keeps-bind, Keeps-lift_then}
use btc_wallet.Waddrmgr.Store.Keeps.{
  Deep, Has, Keeps-wrap, Keeps-nested_bucket, Keeps-fetch_write_scope_bucket, Keeps-put_ne,
  Keeps-put-Deep,
}
use btc_wallet.Waddrmgr.Store.Accounts.{
  put_account_row, put_account_id_index, put_account_name_index, put_account_info,
  put_default_account_info,
}
use btc_wallet.Waddrmgr.Store.Params.{
  put_some, put_coin_type_keys, put_master_hd_keys, put_master_key_params, put_crypto_keys,
  put_watching_only, put_birthday,
}

module _ ⦃b : Bolt⦄ (laws : BoltLaws b) (ns : BucketPath) (name j : Bytes) (v : Option Bytes) where
  abbrev Entry : b.Tree → Type 0
  Entry = Has (name ∷ ns) j v

  -- A write into the bucket of a scope or below it.
  Keeps-put_scoped :
      (h : Handle) (k w : Bytes) → Deep (suc (suc (length ns))) h → Keeps Entry (put h k w) Any
  Keeps-put_scoped h k w deep = Keeps-put-Deep laws h k w deep

  Keeps-put_some_scoped :
      (h : Handle) (k : Bytes) (w : Option Bytes)
      → Deep (suc (suc (length ns))) h
      → Keeps Entry (put_some h k w) Any
  unfolding put_some
  Keeps-put_some_scoped h k none deep = Keeps-pure _ tt
  Keeps-put_some_scoped h k (some w) deep = Keeps-wrap _ _ (Keeps-put_scoped h k w deep)

  pub Keeps-put_some_ne :
      (h : Handle) (k : Bytes) (w : Option Bytes) → k ≢ j → Keeps Entry (put_some h k w) Any
  unfolding put_some
  Keeps-put_some_ne h k none d = Keeps-pure _ tt
  Keeps-put_some_ne h k (some w) d = Keeps-wrap _ _ (Keeps-put_ne laws h k w d)

  -- A handle one level further down is deep enough.
  deeper : (n : ℕ) (h : Handle) → Deep (suc n) h → Deep n h
  deeper n none d = tt
  deeper n (some p) d = omega arith

  module _ (scope : KeyScope) (account : ℕ) where
    Keeps-put_account_row :
        (row : AccountRow) → Keeps Entry (put_account_row (some ns) scope account row) Any
    unfolding put_account_row
    Keeps-put_account_row row = Keeps-bind _ _ (Keeps-fetch_write_scope_bucket ns scope) λ s d.
        Keeps-bind _ _ (Keeps-nested_bucket (suc (suc (length ns))) s Store.Name.acct d)
          λ bucket d'.
            Keeps-lift_then (serialize_account_row row) _
              λ buf. Keeps-wrap _ _ (Keeps-put_scoped bucket _ buf (deeper _ bucket d'))

    Keeps-put_account_id_index :
        (label : Bytes) → Keeps Entry (put_account_id_index (some ns) scope account label) Any
    unfolding put_account_id_index
    Keeps-put_account_id_index label =
        Keeps-bind _ _ (Keeps-fetch_write_scope_bucket ns scope) λ s d.
          Keeps-bind _ _ (Keeps-nested_bucket (suc (suc (length ns))) s Store.Name.acct_id_idx d)
            λ bucket d'. Keeps-wrap _ _ (Keeps-put_scoped bucket _ _ (deeper _ bucket d'))

    Keeps-put_account_name_index :
        (label : Bytes) → Keeps Entry (put_account_name_index (some ns) scope account label) Any
    unfolding put_account_name_index
    Keeps-put_account_name_index label =
        Keeps-bind _ _ (Keeps-fetch_write_scope_bucket ns scope) λ s d.
          Keeps-bind _ _ (Keeps-nested_bucket (suc (suc (length ns))) s Store.Name.acct_name_idx d)
            λ bucket d'. Keeps-wrap _ _ (Keeps-put_scoped bucket _ _ (deeper _ bucket d'))

    pub Keeps-put_default_account_info :
        (pub_enc priv_enc : Bytes) (ext int : ℕ) (label : Bytes)
        → Keeps Entry
            (put_default_account_info (some ns) scope account pub_enc priv_enc ext int label)
            Any
    unfolding put_default_account_info put_account_info
    Keeps-put_default_account_info pub_enc priv_enc ext int label =
        Keeps-lift_then (serialize_default_account_row pub_enc priv_enc ext int label) _ λ raw.
          Keeps-bind _ _ (Keeps-put_account_row _) λ _ _.
            Keeps-bind _ _ (Keeps-put_account_id_index label)
              λ _ _. Keeps-put_account_name_index label

  pub Keeps-put_coin_type_keys :
      (scope : KeyScope) (pub_enc priv_enc : Option Bytes)
      → Keeps Entry (put_coin_type_keys (some ns) scope pub_enc priv_enc) Any
  unfolding put_coin_type_keys
  Keeps-put_coin_type_keys scope pub_enc priv_enc =
      Keeps-bind _ _ (Keeps-fetch_write_scope_bucket ns scope) λ s d.
        Keeps-bind _ _ (Keeps-put_some_scoped s _ pub_enc d)
          λ _ _. Keeps-put_some_scoped s _ priv_enc d

  Keeps-Any_bucket : (h : Handle) (k : Bytes) → Keeps Entry (nested_bucket h k) Any
  unfolding nested_bucket
  Keeps-Any_bucket none k = record { run = λ t p. (p, λ a e. tt) }
  Keeps-Any_bucket (some q) k = record { run = λ t p. (p, λ a e. tt) }

  module _ (h : Handle) where
    pub Keeps-put_master_key_params :
        (pub_params priv_params : Option Bytes)
        → Store.Name.master_priv_key ≢ j
        → Store.Name.master_pub_key ≢ j
        → Keeps Entry (put_master_key_params h pub_params priv_params) Any
    unfolding put_master_key_params
    Keeps-put_master_key_params pub_params priv_params n1 n2 =
        Keeps-bind _ _ (Keeps-Any_bucket h Store.Name.main) λ bucket _.
          Keeps-bind _ _ (Keeps-put_some_ne bucket _ priv_params n1)
            λ _ _. Keeps-put_some_ne bucket _ pub_params n2

    pub Keeps-put_master_hd_keys :
        (priv_enc pub_enc : Option Bytes)
        → Store.Name.master_hd_priv ≢ j
        → Store.Name.master_hd_pub ≢ j
        → Keeps Entry (put_master_hd_keys h priv_enc pub_enc) Any
    unfolding put_master_hd_keys
    Keeps-put_master_hd_keys priv_enc pub_enc n1 n2 =
        Keeps-bind _ _ (Keeps-Any_bucket h Store.Name.main) λ bucket _.
          Keeps-bind _ _ (Keeps-put_some_ne bucket _ priv_enc n1)
            λ _ _. Keeps-put_some_ne bucket _ pub_enc n2

    pub Keeps-put_crypto_keys :
        (pub_enc priv_enc script_enc : Option Bytes)
        → Store.Name.crypto_pub_key ≢ j
        → Store.Name.crypto_priv_key ≢ j
        → Store.Name.crypto_script_key ≢ j
        → Keeps Entry (put_crypto_keys h pub_enc priv_enc script_enc) Any
    unfolding put_crypto_keys
    Keeps-put_crypto_keys pub_enc priv_enc script_enc n1 n2 n3 =
        Keeps-bind _ _ (Keeps-Any_bucket h Store.Name.main) λ bucket _.
          Keeps-bind _ _ (Keeps-put_some_ne bucket _ pub_enc n1) λ _ _.
            Keeps-bind _ _ (Keeps-put_some_ne bucket _ priv_enc n2)
              λ _ _. Keeps-put_some_ne bucket _ script_enc n3

    pub Keeps-put_watching_only :
        (flag : Bool) → Store.Name.watching_only ≢ j → Keeps Entry (put_watching_only h flag) Any
    unfolding put_watching_only
    Keeps-put_watching_only flag n =
        Keeps-bind _ _ (Keeps-Any_bucket h Store.Name.main)
          λ bucket _. Keeps-wrap _ _ (Keeps-put_ne laws bucket _ _ n)

    pub Keeps-put_birthday :
        (unix : ℕ) → Store.Name.birthday ≢ j → Keeps Entry (put_birthday h unix) Any
    unfolding put_birthday
    Keeps-put_birthday unix n =
        Keeps-bind _ _ (Keeps-Any_bucket h Store.Name.sync)
          λ bucket _. Keeps-wrap _ _ (Keeps-put_ne laws bucket _ _ n)
