-- ===== src/Walletdb/Transaction.antt =====
-- Transactions: `beginTx`, `View` and `Update` of walletdb/bdb/db.go, and the methods of `transaction`
-- in walletdb/bdb/tx.go. What a function does in a transaction acts on the tree of the transaction;
-- what the database holds changes when the transaction is committed. `reset` is left out:
-- `walletdb.View` and `walletdb.Update`, which make the calls, pass one that does nothing.
use btc_wallet.Base.{
  ◌≡◌, ◌≢◌, ◌⊎◌, refl, sym, ap, subst, inl, inr, Bool, true, false, Option, Option-cases, none,
  some, List, [], ◌∷◌, ◌++◌,
}
use btc_wallet.Go.{Result, ok, err, panic}
use btc_wallet.Go.Bytes.{Bytes}
use btc_wallet.Walletdb.Bolt.{Bolt, BoltError, BucketPath}
use btc_wallet.Walletdb.Bdb.{
  Action, Tx, Handle, convert_err, nested_bucket, create_bucket_if_not_exists,
}

-- A function for `OnCommit`, on what is in memory: whether it returns (or panics), and the memory
-- afterwards.
abbrev pub Handler : Type 0 → Type 0
Handler M = M → Bool × M

abbrev pub followed_by : {M : Type 0} → Handler M → Bool × M → Bool × M
followed_by next (true, m) = next m
followed_by next (false, m) = (false, m)

-- One function after the other, until one panics.
abbrev pub in_order : {M : Type 0} → List (Handler M) → Handler M
in_order [] m = (true, m)
in_order (h ∷ hs) m = followed_by (in_order hs) (h m)

-- The part of `bbolt.DB` and `bbolt.Tx` that is about whole transactions.
pub record BoltDb (b : Bolt) : Type 1 where
  pub Db : Type 0
  -- What a transaction that begins now sees, for writing or not.
  pub snapshot : Bool → Db → b.Tree
  -- `DB.Begin`: nil or an error
  pub begin_failed : Bool → Db → Option BoltError
  -- `Tx.Commit` up to the functions for `OnCommit`: nil or an error, and the database afterwards
  pub commit : Db → b.Tree → Option BoltError × Db
  -- What `Tx.Commit` does then with the functions that `Tx.OnCommit` was given, in that order
  pub run_handlers : {M : Type 0} → List (Handler M) → Handler M
  -- `Tx.Rollback` drops what the transaction did; nil or an error
  pub rollback_failed : Db → Option BoltError

-- What bbolt documents: a commit makes the transaction's tree what later transactions see, one that
-- fails changes nothing, and the functions for `OnCommit` are called in order after a commit.
pub record BoltDbLaws (b : Bolt) (d : BoltDb b) : Type 1 where
  pub snapshot-commit :
      (x : d.Db) (t : b.Tree) (w : Bool) (p : BucketPath) (k : Bytes)
      → (d.commit x t).0 ≡ none
      → b.get (d.snapshot w (d.commit x t).1) p k ≡ b.get t p k
  pub commit_failed : (x : d.Db) (t : b.Tree) → (d.commit x t).0 ≢ none → (d.commit x t).1 ≡ x
  pub handlers_called :
      {M : Type 0} → (hs : List (Handler M)) (m : M) → d.run_handlers hs m ≡ in_order hs m

module _ ⦃b : Bolt⦄ where
  -- `ReadBucket` and `ReadWriteBucket`
  unfoldable pub read_bucket : Bytes → Tx Handle
  read_bucket key = nested_bucket (some []) key

  unfoldable pub create_top_level_bucket : Bytes → Tx Handle
  create_top_level_bucket key = create_bucket_if_not_exists (some []) key

-- A read-write transaction: its tree, what is in memory besides, and the functions that were handed
-- to `OnCommit`.
pub record TxState ⦃b : Bolt⦄ (M : Type 0) : Type 0 where
  pub tree : b.Tree
  pub memory : M
  pub handlers : List (Handler M)

module _ ⦃b : Bolt⦄ {M : Type 0} where
  -- `OnCommit`
  unfoldable pub on_commit : Handler M → Action (TxState M) (Unit {0})
  on_commit h s = (ok tt, record s { handlers = s.handlers ++ (h ∷ []) })

  -- What acts on the database alone.
  unfoldable pub in_tx : {A : Type 0} → Tx A → Action (TxState M) A
  in_tx f s = let (r, t) = f s.tree in (r, record s { tree = t })

module _ ⦃b : Bolt⦄ (d : BoltDb b) where
  -- The results of `f`, in the order of the code: an error of `f`, then one of the rollback.
  abbrev pub viewed : {A : Type 0} → Result A → Option BoltError → Result A
  viewed (ok a) none = ok a
  viewed (ok a) (some e) = err (convert_err e)
  viewed (err e) r = err e
  viewed panic r = panic

  -- `if err != nil { return err }` after `Begin`.
  abbrev pub begun : {A S : Type 0} → Option BoltError → Action S A → Action S A
  begun none m x = m x
  begun (some e) m x = (err (convert_err e), x)

  unfoldable pub view : {A : Type 0} → Tx A → Action d.Db A
  view f x =
      begun (d.begin_failed false x)
        (λ y. (viewed (f (d.snapshot false y)).0 (d.rollback_failed y), y)) x

  -- What is there besides the database, and what follows the commit of a transaction.
  module _ {M : Type 0} where
    -- `tx.Commit()`; after a commit, a function for `OnCommit` may panic.
    abbrev pub handled : {A : Type 0} → A → d.Db → Bool × M → Result A × (d.Db × M)
    handled a x (true, m) = (ok a, (x, m))
    handled a x (false, m) = (panic, (x, m))

    abbrev pub committed :
        {A : Type 0} → Option BoltError → A → d.Db → TxState M → Result A × (d.Db × M)
    committed none a x s = handled a x (d.run_handlers s.handlers s.memory)
    committed (some e) a x s = (err (convert_err e), (x, s.memory))

    -- An error or a panic of `f` rolls the transaction back; the error of the rollback is dropped.
    abbrev pub updated : {A : Type 0} → Result A → TxState M → d.Db → Result A × (d.Db × M)
    updated (ok a) s x = let (e, x') = d.commit x s.tree in committed e a x' s
    updated (err e) s x = (err e, (x, s.memory))
    updated panic s x = (panic, (x, s.memory))

    -- What a transaction starts with.
    abbrev pub started : d.Db → M → TxState M
    started x m = record { tree = d.snapshot true x; memory = m; handlers = [] }

    unfoldable pub update : {A : Type 0} → Action (TxState M) A → Action (d.Db × M) A
    update f (x, m) =
        begun (d.begin_failed true x) (λ (y, n). let (r, s) = f (started y n) in updated r s y)
          (x, m)

    -- An update changed nothing in the database and returned no value, or it was committed: later
    -- transactions see the tree that `f` left, and the functions that `f` handed to `OnCommit` were
    -- called.
    pub data Outcome {A : Type 0} (f : Action (TxState M) A) (x : d.Db) (m : M)
        : Result A × (d.Db × M) → Type 0 where
      dropped :
          (r : Result A) (m' : M)
          → ((a : A) → r ≢ ok a)
          → (m' ≡ m) ⊎ (m' ≡ (f (started x m)).1.memory)
          → Outcome f x m (r, (x, m'))
      kept :
          (a : A) (s : TxState M) (x' : d.Db) (m' : M)
          → f (started x m) ≡ (ok a, s)
          → in_order s.handlers s.memory ≡ (true, m')
          → ((w : Bool) (p : BucketPath) (k : Bytes)
              → b.get (d.snapshot w x') p k ≡ b.get s.tree p k)
          → Outcome f x m (ok a, (x', m'))
      handler_panicked :
          (a : A) (s : TxState M) (x' : d.Db) (m' : M)
          → f (started x m) ≡ (ok a, s)
          → in_order s.handlers s.memory ≡ (false, m')
          → ((w : Bool) (p : BucketPath) (k : Bytes)
              → b.get (d.snapshot w x') p k ≡ b.get s.tree p k)
          → Outcome f x m (panic, (x', m'))

  -- An update whose function hands nothing to `OnCommit`, without what is in memory.
  unfoldable pub update_tree : {A : Type 0} → Tx A → Action d.Db A
  update_tree f x = let (r, (x', m)) = update (in_tx f) (x, tt) in (r, x')

  module _ (laws : BoltDbLaws b d) {M A : Type 0} (f : Action (TxState M) A) (x : d.Db)
      (m : M) where
    handled-Outcome :
        (a : A) (s : TxState M) (x' : d.Db)
        → f (started x m) ≡ (ok a, s)
        → ((w : Bool) (p : BucketPath) (k : Bytes) → b.get (d.snapshot w x') p k ≡ b.get s.tree p k)
        → (o : Bool × M) → in_order s.handlers s.memory ≡ o
        → Outcome f x m (handled a x' o)
    handled-Outcome a s x' ran sees (true, m') h = kept a s x' m' ran h sees
    handled-Outcome a s x' ran sees (false, m') h = handler_panicked a s x' m' ran h sees

    left_by :
        {r : Result A} {s : TxState M}
        → f (started x m) ≡ (r, s)
        → (s.memory ≡ m) ⊎ (s.memory ≡ (f (started x m)).1.memory)
    left_by h = inr (sym (ap (λ (r, s). s.memory) h))

    updated-Outcome :
        (r : Result A) (s : TxState M) → f (started x m) ≡ (r, s) → Outcome f x m (updated r s x)
    updated-Outcome (err e) s h = dropped (err e) s.memory (λ a n. cc) (left_by h)
    updated-Outcome panic s h = dropped panic s.memory (λ a n. cc) (left_by h)
    updated-Outcome (ok a) s h = elim (Option-cases (d.commit x s.tree).0) [
      | inl done ↦ rw done (
          handled-Outcome a s (d.commit x s.tree).1 h
            (λ w p k. laws.snapshot-commit x s.tree w p k done) (d.run_handlers s.handlers s.memory)
            (sym (laws.handlers_called s.handlers s.memory)))
      | inr (e, failed) ↦
          rw (failed, laws.commit_failed x s.tree (λ n. cc (n, failed)))
            (dropped (err (convert_err e)) s.memory (λ a n. cc) (left_by h))
    ]

    -- An update either leaves the database as it was, returns no value and calls none of the
    -- functions handed to OnCommit, what is in memory being as before or as its function left it,
    -- or its function returned a value and later transactions find in every bucket what it left
    -- there; then the functions that it handed to OnCommit were called in order, and the update
    -- returns the value where all of them return and panics where one panics.
    pub update_atomic : Outcome f x m (update f (x, m))
    unfolding update
    update_atomic = elim (Option-cases (d.begin_failed true x)) [
      | inl began ↦ rw began (updated-Outcome _ _ refl)
      | inr (e, failed) ↦ rw failed (dropped (err (convert_err e)) m (λ a n. cc) (inl refl))
    ]

  module _ (laws : BoltDbLaws b d) {A : Type 0} (f : Tx A) (x : d.Db) where
    pub update_tree_failed : ((a : A) → (update_tree f x).0 ≢ ok a) → (update_tree f x).1 ≡ x
    unfolding update_tree in_tx
    update_tree_failed failed = unchanged (update_atomic laws (in_tx f) x tt) failed
      where
        unchanged :
            {o : Result A × (d.Db × Unit {0})}
            → Outcome (in_tx f) x tt o
            → ((a : A) → o.0 ≢ ok a)
            → o.1.0 ≡ x
        unchanged (dropped r m' no_value uncalled) failed = refl
        unchanged (kept a s x' m' ran h sees) failed = absurd (failed a refl)
        unchanged (handler_panicked a s x' m' ran h sees) failed =
            let none_handed : [] ≡ s.handlers = ap (λ (r, t). t.handlers) ran in
            absurd (
              cc (
                ap (λ (returned, n). returned)
                  (subst (λ hs. in_order hs s.memory ≡ (false, m')) (sym none_handed) h)))
