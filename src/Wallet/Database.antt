-- ===== src/Wallet/Database.antt =====
-- Creating and opening a wallet in a database (wallet/wallet.go, `create` and `OpenWithRetry`). The
-- manager of transactions (wtxmgr/) has no state: its `Create` returns nil and its `Open` a value.
-- Neither transaction hands a function to `OnCommit`, and the callback of `create` is taken not to.
use btc_wallet.Base.{ℕ, ◌≡◌, ◌≢◌, refl, ◌&&◌, not, Bool, true, false, Option, none, some, List}
use btc_wallet.Errors.{text}
use btc_wallet.Go.{Result, ok, err, panic, fail_if}
use btc_wallet.Go.Bytes.{Bytes, codes}
use btc_wallet.Btcd.{Btcd}
use btc_wallet.Snacl.{Crypto}
use btc_wallet.Walletdb.Bolt.{Bolt}
use btc_wallet.Walletdb.Bdb.{Action, Tx, ◌>>=◌, ◌>>◌, pure, lift}
use btc_wallet.Walletdb.Transaction.{
  BoltDb, BoltDbLaws, read_bucket, create_top_level_bucket, update_tree, update_tree_failed,
}
use btc_wallet.Waddrmgr.Rows.{KeyScope, ScopeAddrSchema}
use btc_wallet.Waddrmgr.Manager.{Manager}
use btc_wallet.Waddrmgr.Manager.Create.{Draw, create}
use btc_wallet.Waddrmgr.Manager.Open.{open_manager}
use btc_wallet.Waddrmgr.Store.{found_or}

abbrev pub waddrmgr_namespace_key : Bytes
waddrmgr_namespace_key = codes "waddrmgr"

abbrev pub wtxmgr_namespace_key : Bytes
wtxmgr_namespace_key = codes "wtxmgr"

-- The root key: `seed` is what `GenerateSeed` returns, and the error of `NewMaster` is replaced.
abbrev some_key : {A : Type 0} → Result A → Result (Option A)
some_key (ok k) = ok (some k)
some_key (err e) = err (text 3)
some_key panic = panic

abbrev generated_key : {A : Type 0} → Result Bytes → (Bytes → Result A) → Result (Option A)
generated_key (ok v) new_master = some_key (new_master v)
generated_key (err e) new_master = err e
generated_key panic new_master = panic

module _ (d : Btcd) (seed : Result Bytes) (new_master : Bytes → Result d.Key) where
  unfoldable pub root_or_generated : Bool → Option d.Key → Result (Option d.Key)
  root_or_generated true root = ok root
  root_or_generated false (some k) = ok (some k)
  root_or_generated false none = generated_key seed new_master

  -- `rootKey != nil && !rootKey.IsPrivate()`
  abbrev is_public : Option d.Key → Bool
  is_public none = false
  is_public (some k) = not (d.is_private k)

module _ ⦃b : Bolt⦄ (database : BoltDb b) (c : Crypto) (d : Btcd) where
  -- The function that `create` runs in a transaction.
  unfoldable pub create_in :
      (Draw → Result Bytes)
      → ℕ
      → List (KeyScope × ScopeAddrSchema)
      → Option d.Key
      → Bytes
      → Bytes
      → ℕ
      → Option (Tx (Unit {0}))
      → Tx (Unit {0})
  create_in draw create_date visited root pub_pass priv_pass birthday callback = do
    addrmgr_ns ← create_top_level_bucket waddrmgr_namespace_key
    txmgr_ns ← create_top_level_bucket wtxmgr_namespace_key
    create c d draw create_date visited addrmgr_ns root pub_pass priv_pass none birthday
    called callback
    where
      called : Option (Tx (Unit {0})) → Tx (Unit {0})
      called none = pure tt
      called (some cb) = cb

  -- `create`; a nil `cb` is `none`.
  unfoldable pub create_wallet :
      Result Bytes
      → (Bytes → Result d.Key)
      → (Draw → Result Bytes)
      → ℕ
      → List (KeyScope × ScopeAddrSchema)
      → Bool
      → Option d.Key
      → Bytes
      → Bytes
      → ℕ
      → Option (Tx (Unit {0}))
      → Action database.Db (Unit {0})
  create_wallet seed new_master draw create_date visited is_watching_only root pub_pass priv_pass
        birthday callback =
      do
        root_key ← lift (root_or_generated d seed new_master is_watching_only root)
        lift (fail_if (not is_watching_only && is_public d seed new_master root_key) (text 4))
        update_tree database
            (create_in draw create_date visited root_key pub_pass priv_pass birthday callback)

  -- `OpenWithRetry`: the manager of the wallet.
  unfoldable pub open_in : Result Bytes → Bytes → Tx (Manager d)
  open_in random pub_pass = do
    addrmgr_bucket ← read_bucket waddrmgr_namespace_key
    addrmgr ← found_or (text 5) addrmgr_bucket
    txmgr_bucket ← read_bucket wtxmgr_namespace_key
    txmgr ← found_or (text 6) txmgr_bucket
    open_manager c d random (some addrmgr) pub_pass

  unfoldable pub open_with_retry : Result Bytes → Bytes → Action database.Db (Manager d)
  open_with_retry random pub_pass = update_tree database (open_in random pub_pass)

  module _ (laws : BoltDbLaws b database) (seed : Result Bytes) (new_master : Bytes → Result d.Key)
      (draw : Draw → Result Bytes) (create_date : ℕ) (visited : List (KeyScope × ScopeAddrSchema))
      (pub_pass priv_pass : Bytes) (birthday : ℕ) (callback : Option (Tx (Unit {0})))
      (x : database.Db) where
    updated-unchanged :
        (f : Tx (Unit {0}))
        → (update_tree database f x).0 ≢ ok tt
        → (update_tree database f x).1 ≡ x
    updated-unchanged f failed = update_tree_failed database laws f x (λ a. failed)

    -- A creation of a wallet that does not return nil, because of the root key, a bucket, the
    -- address manager, the callback or the commit, leaves the database as it was.
    pub create_wallet_failed :
        (is_watching_only : Bool) (root : Option d.Key)
        → (create_wallet seed new_master draw create_date visited is_watching_only root pub_pass
            priv_pass birthday callback x).0
          ≢ ok tt
        → (create_wallet seed new_master draw create_date visited is_watching_only root pub_pass
            priv_pass birthday callback x).1
          ≡ x
    unfolding create_wallet
    create_wallet_failed is_watching_only root =
        keyed (root_or_generated d seed new_master is_watching_only root)
      where
        guarded :
            (root_key : Option d.Key) (refuse : Bool)
            → ((lift (fail_if refuse (text 4))
                  >> update_tree database (
                      create_in draw create_date visited root_key pub_pass priv_pass birthday
                        callback))
                x).0
              ≢ ok tt
            → ((lift (fail_if refuse (text 4))
                  >> update_tree database (
                      create_in draw create_date visited root_key pub_pass priv_pass birthday
                        callback))
                x).1
              ≡ x
        guarded root_key true failed = refl
        guarded root_key false failed = updated-unchanged _ failed

        keyed :
            (r : Result (Option d.Key))
            → ((lift r >>= λ root_key.
                  lift (
                    fail_if (not is_watching_only && is_public d seed new_master root_key) (text 4))
                  >> update_tree database (
                      create_in draw create_date visited root_key pub_pass priv_pass birthday
                        callback))
                x).0
              ≢ ok tt
            → ((lift r >>= λ root_key.
                  lift (
                    fail_if (not is_watching_only && is_public d seed new_master root_key) (text 4))
                  >> update_tree database (
                      create_in draw create_date visited root_key pub_pass priv_pass birthday
                        callback))
                x).1
              ≡ x
        keyed (ok root_key) failed =
            guarded root_key (not is_watching_only && is_public d seed new_master root_key) failed
        keyed (err e) failed = refl
        keyed panic failed = refl
