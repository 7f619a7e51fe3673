-- ===== src/Wallet/Loader/States.antt =====
-- The loader as a state machine: what each method changes, and what holds however they are called.
use btc_wallet.Base.{
  ℕ, ◌≡◌, ◌≢◌, refl, inl, inr, Bool, true, false, Bool-cases, Option, none, some, [], ◌++◌, arith,
  if◌then◌else◌,
}
use btc_wallet.Errors.{Error, loader, loaded, not_loaded, already_exists}
use btc_wallet.Go.{Result, ok, err, panic, fail_if}
use btc_wallet.Go.Bytes.{Bytes}
use btc_wallet.Walletdb.Bdb.{Action}
use btc_wallet.Walletdb.Keeps.{Keeps, Any, Keeps-pure, Keeps-bind, Keeps-lift, Keeps-lift_then}
use btc_wallet.Wallet.Loader.{
  Surroundings, Loader, outside, read_loader, assign, is_some, exists_wallet, create_local_db,
  fill_db, create_new_wallet_from, root_key, create_new_wallet, calls, open_local_db, close_local,
  start_existing, started_wallet, open_or_close, opened_or_closed, stop_and_close,
}

module _ (s : Surroundings) where
  -- What no method but `OpenExistingWallet`, `UnloadWallet` and `RunAfterLoad` changes.
  pub record Same (l l' : Loader s) : Type 0 where
    pub wallet : l'.wallet ≡ l.wallet
    pub callbacks : l'.callbacks ≡ l.callbacks
    pub ran : l'.ran ≡ l.ran
    pub local_db : l'.local_db ≡ l.local_db

  module _ (l : Loader s) where
    Keeps-outside : {A : Type 0} (m : Action s.World A) → Keeps (Same l) (outside s m) Any
    unfolding outside
    Keeps-outside m = record {
      run = λ k h. (
        record { wallet = h.wallet; callbacks = h.callbacks; ran = h.ran; local_db = h.local_db },
        λ a e. tt,
      );
    }

    Keeps-read : Keeps (Same l) (read_loader s) Any
    unfolding read_loader
    Keeps-read = record { run = λ k h. (h, λ a e. tt) }

    Keeps-set_db : (db : Option s.Db) → Keeps (Same l) (assign s (λ k. record k { db = db })) Any
    unfolding assign
    Keeps-set_db db = record {
      run = λ k h. (
        record { wallet = h.wallet; callbacks = h.callbacks; ran = h.ran; local_db = h.local_db },
        λ a e. tt,
      );
    }

    Keeps-either :
        {A : Type 0} (x : Bool) (m n : Action s.World A)
        → Keeps (Same l) (if x then outside s m else outside s n) Any
    Keeps-either true m n = Keeps-outside m
    Keeps-either false m n = Keeps-outside n

    Keeps-exists_wallet : Keeps (Same l) (exists_wallet s) Any
    unfolding exists_wallet
    Keeps-exists_wallet = record {
      run = λ k h. (Keeps-either k.local_db s.file_exists s.wallet_exists).run k h;
    }

    Keeps-create_local_db : (x : Bool) → Keeps (Same l) (create_local_db s x) Any
    unfolding create_local_db
    Keeps-create_local_db false = Keeps-pure _ tt
    Keeps-create_local_db true = Keeps-bind _ _ (Keeps-outside s.mkdir_all) λ _ _.
        Keeps-bind _ _ (Keeps-outside s.create_db)
          λ opened _. Keeps-bind _ _ (Keeps-set_db opened.0) λ _ _. Keeps-lift _

    Keeps-create_new_wallet_from :
        (pub_passphrase priv_passphrase : Bytes) (root : Option s.Key) (birthday : ℕ)
        (watching_only : Bool)
        → Keeps
            (Same l)
            (create_new_wallet_from s pub_passphrase priv_passphrase root birthday watching_only)
            Any
    unfolding create_new_wallet_from
    Keeps-create_new_wallet_from pub_passphrase priv_passphrase root birthday watching_only =
        Keeps-bind _ _ Keeps-read λ k _.
          Keeps-lift_then (fail_if (is_some s k.wallet) (loader loaded)) _ λ _.
            Keeps-bind _ _ Keeps-exists_wallet λ found _.
              Keeps-lift_then (fail_if found (loader already_exists)) _ λ _.
                Keeps-bind _ _ (Keeps-create_local_db k.local_db) λ _ _.
                  Keeps-bind _ _ Keeps-read λ k' _.
                    Keeps-bind _ _
                      (Keeps-outside (
                        fill_db s watching_only k'.db pub_passphrase priv_passphrase root birthday))
                      λ _ _.
                        Keeps-bind _ _ (Keeps-outside (s.open_with_retry k'.db pub_passphrase))
                          λ w _. Keeps-bind _ _ (Keeps-outside (s.start w)) λ _ _. Keeps-pure _ tt

    -- CreateNewWallet, whatever it returns, leaves the loaded wallet, the waiting callbacks and
    -- the calls of callbacks as they were.
    pub create_never_loads :
        (pub_passphrase priv_passphrase : Bytes) (seed : Option Bytes) (birthday : ℕ)
        → Same l (create_new_wallet s pub_passphrase priv_passphrase seed birthday l).1
    unfolding create_new_wallet
    create_never_loads pub_passphrase priv_passphrase seed birthday =
        ((Keeps-lift_then (root_key s seed) _ λ root.
            Keeps-create_new_wallet_from pub_passphrase priv_passphrase root birthday false).run
          l (record { wallet = refl; callbacks = refl; ran = refl; local_db = refl })).0

    Keeps-open_local_db : (x : Bool) → Keeps (Same l) (open_local_db s x) Any
    unfolding open_local_db
    Keeps-open_local_db false = Keeps-pure _ tt
    Keeps-open_local_db true = Keeps-bind _ _ (Keeps-outside s.check_create_dir) λ _ _.
        Keeps-bind _ _ (Keeps-outside s.open_db)
          λ opened _. Keeps-bind _ _ (Keeps-set_db opened.0) λ _ _. Keeps-lift _

    close_local-Same : (e : Error) (k : Loader s) → Same l k → Same l (close_local s e k).1
    unfolding close_local
    close_local-Same x k h = elim (Bool-cases k.local_db) [
      | inl e ↦ record {
        wallet = ground (arith, h.wallet);
        callbacks = ground (arith, h.callbacks);
        ran = ground (arith, h.ran);
        local_db = ground (arith, h.local_db);
      }
      | inr e ↦ record {
        wallet = ground (arith, h.wallet);
        callbacks = ground (arith, h.callbacks);
        ran = ground (arith, h.ran);
        local_db = ground (arith, h.local_db);
      }
    ]

    opened_or_closed-Same :
        (r : Result s.Wallet) (k : Loader s) → Same l k → Same l (opened_or_closed s r k).1
    opened_or_closed-Same (ok w) k h = h
    opened_or_closed-Same (err e) k h = close_local-Same e k h
    opened_or_closed-Same panic k h = h

    Keeps-open_or_close :
        (db : Option s.Db) (pub_passphrase : Bytes)
        → Keeps (Same l) (open_or_close s db pub_passphrase) Any
    unfolding open_or_close
    Keeps-open_or_close db pub_passphrase = record {
      run = λ k h. (
        opened_or_closed-Same _ _ ((Keeps-outside (s.open_with_retry db pub_passphrase)).run k h).0,
        λ a e. tt,
      );
    }

    pub Keeps-started_wallet :
        (pub_passphrase : Bytes) → Keeps (Same l) (started_wallet s pub_passphrase) Any
    unfolding started_wallet start_existing
    Keeps-started_wallet pub_passphrase = Keeps-bind _ _ Keeps-read λ k _.
        Keeps-lift_then (fail_if (is_some s k.wallet) (loader loaded)) _ λ _.
          Keeps-bind _ _ (Keeps-open_local_db k.local_db) λ _ _. Keeps-bind _ _ Keeps-read λ k' _.
            Keeps-bind _ _ (Keeps-open_or_close k'.db pub_passphrase)
              λ w _. Keeps-bind _ _ (Keeps-outside (s.start w)) λ _ _. Keeps-pure _ tt

    pub Keeps-stop_and_close : (w : s.Wallet) → Keeps (Same l) (stop_and_close s w) Any
    unfolding stop_and_close
    Keeps-stop_and_close w =
        Keeps-bind _ _ (Keeps-outside (s.stop w))
          λ _ _. Keeps-bind _ _ Keeps-read λ k _. Keeps-outside _

  pub Same-refl : (l : Loader s) → Same l l
  Same-refl l = record { wallet = refl; callbacks = refl; ran = refl; local_db = refl }

  -- How `OpenExistingWallet` can end.
  pub data OpenOutcome (l l' : Loader s) (r : Result s.Wallet) : Type 0 where
    not_opened : ((w : s.Wallet) → r ≢ ok w) → Same l l' → OpenOutcome l l' r
    opened :
        (w : s.Wallet)
        → r ≡ ok w
        → l.wallet ≡ none
        → l'.wallet ≡ some w
        → l'.callbacks ≡ []
        → l'.ran ≡ l.ran ++ calls s w l.callbacks
        → l'.local_db ≡ l.local_db
        → OpenOutcome l l' r

  -- How `UnloadWallet` can end.
  pub data UnloadOutcome (l l' : Loader s) (r : Result (Unit {0})) : Type 0 where
    nothing_loaded : l.wallet ≡ none → r ≡ err (loader not_loaded) → l' ≡ l → UnloadOutcome l l' r
    not_unloaded : (w : s.Wallet) → l.wallet ≡ some w → r ≢ ok tt → Same l l' → UnloadOutcome l l' r
    unloaded :
        (w : s.Wallet)
        → l.wallet ≡ some w
        → r ≡ ok tt
        → l'.wallet ≡ none
        → l'.db ≡ none
        → (l'.callbacks ≡ l.callbacks) × (l'.ran ≡ l.ran) × (l'.local_db ≡ l.local_db)
        → UnloadOutcome l l' r
