-- ===== src/Tests/Wallet.antt =====
-- Transactions, the creation of a wallet in a database, and the loader.
use btc_wallet.Base.{ℕ, ◌+◌, ◌≡◌, refl, false, none, some, [], ◌∷◌, replicate}
use btc_wallet.Errors.{manager, err_empty_passphrase}
use btc_wallet.Go.{Result, ok, err, panic}
use btc_wallet.Go.Bytes.{Bytes, codes}
use btc_wallet.Walletdb.Memory.{MemoryTree, memory}
use btc_wallet.Walletdb.Bdb.{
  Action, Handle, ◌>>=◌, ◌>>◌, pure, nested_bucket, create_bucket_if_not_exists,
}
use btc_wallet.Walletdb.Transaction.{
  BoltDb, BoltDbLaws, TxState, in_order, in_tx, on_commit, create_top_level_bucket, update_tree,
  update, Outcome, update_atomic,
}
use btc_wallet.Waddrmgr.Keys.{scope_addr_map}
use btc_wallet.Waddrmgr.Manager.Create.{Draw, create, manager_exists}
use btc_wallet.Wallet.Database.{create_in, create_wallet, root_or_generated, create_wallet_failed}
use btc_wallet.Wallet.Loader.{
  Surroundings, Loader, new_loader, create_new_wallet, open_existing_wallet, unload_wallet,
  run_after_load,
}
use btc_wallet.Wallet.Loader.States.{Same, create_never_loads, OpenOutcome, UnloadOutcome}
use btc_wallet.Wallet.Loader.Reached.{
  open_outcome, unload_outcome, start, opens, runs, IsConsistent, reaches-IsConsistent,
}
use btc_wallet.Tests.Toys.{keys, boxes}

-- A database that is the tree that was committed last.
abbrev database : BoltDb memory
database = record {
  Db = MemoryTree;
  snapshot = λ w x. x;
  begin_failed = λ w x. none;
  commit = λ x t. (none, t);
  run_handlers = λ hs m. in_order hs m;
  rollback_failed = λ x. none;
}

database-BoltDbLaws : BoltDbLaws memory database
database-BoltDbLaws = record {
  snapshot-commit = λ x t w p k done. refl;
  commit_failed = λ x t failed. absurd (failed refl);
  handlers_called = λ hs m. refl;
}

abbrev empty_tree : MemoryTree
empty_tree = record { buckets = [] ∷ []; cells = [] }

-- A bucket, and a function for `OnCommit` that counts and panics.
abbrev panics_later : Action (TxState ℕ) Handle
panics_later = do
  bucket ← in_tx (create_top_level_bucket (codes "waddrmgr"))
  on_commit (λ n. (false, n + 1))
  pure bucket

panicked : (update database panics_later (empty_tree, 4)).0 ≡ panic
unfolding update in_tx on_commit create_top_level_bucket create_bucket_if_not_exists
panicked = refl

update_atomic_example :
    Outcome database panics_later empty_tree 4 (update database panics_later (empty_tree, 4))
update_atomic_example = update_atomic database database-BoltDbLaws panics_later empty_tree 4

abbrev draw : Draw → Result Bytes
draw d = ok (replicate 32 4)

abbrev run : Action MemoryTree (Unit {0})
run =
    create_wallet database boxes keys (ok []) (λ seed. ok 5) draw 1700000000 scope_addr_map false
      (some 5) (9 ∷ []) [] 1700000000 none

-- An empty private passphrase is refused after two buckets have been made.
refused : (run empty_tree).0 ≡ err (manager err_empty_passphrase)
unfolding create_wallet create_in create root_or_generated update_tree update in_tx
    create_top_level_bucket create_bucket_if_not_exists manager_exists nested_bucket
refused = refl

create_wallet_failed_example : (run empty_tree).1 ≡ empty_tree
create_wallet_failed_example =
    create_wallet_failed database boxes keys database-BoltDbLaws (ok []) (λ seed. ok 5) draw
      1700000000 scope_addr_map (9 ∷ []) [] 1700000000 none empty_tree false (some 5)
      (λ done. cc (done, refused))

-- Surroundings in which every call succeeds; a wallet is the database that it was opened in.
abbrev easy : Surroundings
easy = record {
  World = ℕ;
  Db = ℕ;
  Wallet = ℕ;
  Callback = ℕ;
  Key = ℕ;
  file_exists = λ w. (ok false, w);
  wallet_exists = λ w. (ok false, w);
  mkdir_all = λ w. (ok tt, w);
  check_create_dir = λ w. (ok tt, w);
  create_db = λ w. (ok (some 3, none), w + 1);
  open_db = λ w. (ok (some 4, none), w + 1);
  close_db = λ db w. (ok tt, w);
  create_wallet = λ db pub_pass priv_pass root birthday w. (ok tt, w);
  create_watching_only = λ db pub_pass birthday w. (ok tt, w);
  open_with_retry = λ db pub_pass w. (ok 6, w);
  start = λ v w. (ok tt, w);
  stop = λ v w. (ok tt, w);
  new_master = λ seed. ok 5;
  min_seed_bytes = 16;
  max_seed_bytes = 64;
  invalid_seed_len = 7;
}

abbrev fresh : Loader easy
fresh = new_loader easy 0

create_never_loads_example :
    Same easy fresh (create_new_wallet easy (9 ∷ []) (8 ∷ []) (some (replicate 32 1)) 0 fresh).1
create_never_loads_example =
    create_never_loads easy fresh (9 ∷ []) (8 ∷ []) (some (replicate 32 1)) 0

open_outcome_example :
    OpenOutcome easy fresh
      (open_existing_wallet easy (9 ∷ []) fresh).1
      (open_existing_wallet easy (9 ∷ []) fresh).0
open_outcome_example = open_outcome easy (9 ∷ []) fresh

abbrev with_wallet : Loader easy
with_wallet = record fresh { wallet = some 6; db = some 4 }

unload_outcome_example :
    UnloadOutcome easy with_wallet
      (unload_wallet easy with_wallet).1
      (unload_wallet easy with_wallet).0
unload_outcome_example = unload_outcome easy with_wallet

reaches-IsConsistent_example :
    IsConsistent easy 1 (open_existing_wallet easy (9 ∷ []) (run_after_load easy 2 fresh)).1
reaches-IsConsistent_example =
    reaches-IsConsistent easy fresh refl refl refl (opens (runs start 2) (9 ∷ []))
