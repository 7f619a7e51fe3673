-- ===== src/Wallet/Loader/Reached.antt =====
-- How the loader's methods end, and what holds however they are called.
use btc_wallet.Base.{
  ℕ, ◌+◌, ◌≡◌, refl, sym, ap, subst, ◌⊎◌, inl, inr, false, Option, none, some, List, [], ◌∷◌,
  length, length-append, arith,
}
use btc_wallet.Go.{Result, ok, err, panic}
use btc_wallet.Go.Bytes.{Bytes}
use btc_wallet.Walletdb.Bdb.{◌>>=◌, ◌>>◌, pure, lift}
use btc_wallet.Wallet.Loader.{
  Surroundings, Loader, read_loader, assign, is_some, create_new_wallet, calls, on_loaded,
  started_wallet, stop_and_close, unload, open_existing_wallet, unload_wallet, run_or_keep,
  run_after_load,
}
use btc_wallet.Wallet.Loader.States.{
  Same, Same-refl, Keeps-started_wallet, Keeps-stop_and_close, create_never_loads, OpenOutcome,
  not_opened, opened, UnloadOutcome, nothing_loaded, not_unloaded, unloaded,
}

module _ (s : Surroundings) where
  is_some-none : {A : Type 0} (o : Option A) → is_some s o ≡ false → o ≡ none
  is_some-none none e = refl
  is_some-none (some a) e = absurd (ground arith)

  -- A wallet is only started where none is loaded.
  started_wallet-none :
      (pub_passphrase : Bytes) (l : Loader s) (w : s.Wallet)
      → (started_wallet s pub_passphrase l).0 ≡ ok w
      → l.wallet ≡ none
  unfolding started_wallet read_loader
  started_wallet-none pub_passphrase l w e = go l.wallet refl
    where
      go : (o : Option s.Wallet) → l.wallet ≡ o → l.wallet ≡ none
      go none h = h
      go (some x) h = absurd (ground (arith, rw h at e))

  open_finish :
      (l k : Loader s) (r : Result s.Wallet)
      → ((w : s.Wallet) → r ≡ ok w → l.wallet ≡ none)
      → Same s l k
      → OpenOutcome s l
          ((lift r >>= λ w. assign s (on_loaded s w) >> pure w) k).1
          ((lift r >>= λ w. assign s (on_loaded s w) >> pure w) k).0
  unfolding assign on_loaded
  open_finish l k (ok w) free same =
      opened w refl (free w refl) refl refl (rw (same.ran, same.callbacks) refl) same.local_db
  open_finish l k (err e) free same = not_opened (λ w h. absurd (cc)) same
  open_finish l k panic free same = not_opened (λ w h. absurd (cc)) same

  -- OpenExistingWallet either returns no wallet and leaves the loaded wallet, the callbacks and
  -- the calls as they were, or no wallet was loaded, and the wallet that it returns is loaded,
  -- every waiting callback was called with it, in order, and none waits.
  pub open_outcome :
      (pub_passphrase : Bytes) (l : Loader s)
      → OpenOutcome s l
          (open_existing_wallet s pub_passphrase l).1
          (open_existing_wallet s pub_passphrase l).0
  unfolding open_existing_wallet
  open_outcome pub_passphrase l =
      open_finish l (started_wallet s pub_passphrase l).1 (started_wallet s pub_passphrase l).0
        (started_wallet-none pub_passphrase l)
        ((Keeps-started_wallet s l pub_passphrase).run l (Same-refl s l)).0

  unload_finish :
      (l k : Loader s) (w : s.Wallet) (r : Result (Unit {0}))
      → l.wallet ≡ some w
      → Same s l k
      → UnloadOutcome s l
          ((lift r >> assign s (λ x. record x { wallet = none; db = none })) k).1
          ((lift r >> assign s (λ x. record x { wallet = none; db = none })) k).0
  unfolding assign
  unload_finish l k w (ok u) e same =
      unloaded w e refl refl refl (same.callbacks, same.ran, same.local_db)
  unload_finish l k w (err x) e same = not_unloaded w e (λ h. absurd (cc)) same
  unload_finish l k w panic e same = not_unloaded w e (λ h. absurd (cc)) same

  -- UnloadWallet answers that nothing is loaded and changes nothing when there is no wallet; when
  -- stopping or closing fails the wallet stays loaded; otherwise neither the wallet nor the
  -- database is held any more, also for a loader that was given its database.
  pub unload_outcome :
      (l : Loader s) → UnloadOutcome s l (unload_wallet s l).1 (unload_wallet s l).0
  unfolding unload_wallet
  unload_outcome l = go l.wallet refl
    where
      go :
          (o : Option s.Wallet) → l.wallet ≡ o → UnloadOutcome s l (unload s o l).1 (unload s o l).0
      go none h = nothing_loaded h refl refl
      go (some w) h =
          unload_finish l (stop_and_close s w l).1 w (stop_and_close s w l).0 h
            ((Keeps-stop_and_close s l w).run l (Same-refl s l)).0

  -- The loaders that calls of the methods reach, with the number of calls of `RunAfterLoad`.
  pub data Reaches (l0 : Loader s) : ℕ → Loader s → Type 0 where
    start : Reaches l0 0 l0
    creates :
        {n : ℕ} {l : Loader s}
        → Reaches l0 n l
        → (pub_passphrase priv_passphrase : Bytes) (seed : Option Bytes) (birthday : ℕ)
        → Reaches l0 n (create_new_wallet s pub_passphrase priv_passphrase seed birthday l).1
    opens :
        {n : ℕ} {l : Loader s}
        → Reaches l0 n l
        → (pub_passphrase : Bytes) → Reaches l0 n (open_existing_wallet s pub_passphrase l).1
    unloads : {n : ℕ} {l : Loader s} → Reaches l0 n l → Reaches l0 n (unload_wallet s l).1
    runs :
        {n : ℕ} {l : Loader s}
        → Reaches l0 n l
        → (fn : s.Callback) → Reaches l0 (n + 1) (run_after_load s fn l)

  -- No callback waits while a wallet is loaded, and each callback waits or was called, once.
  pub record IsConsistent (n : ℕ) (l : Loader s) : Type 0 where
    pub idle : (l.wallet ≡ none) ⊎ (l.callbacks ≡ [])
    pub counted : length l.ran + length l.callbacks ≡ n

  Same-IsConsistent : (n : ℕ) (l l' : Loader s) → Same s l l' → IsConsistent n l → IsConsistent n l'
  Same-IsConsistent n l l' same c = record {
    idle = rw (same.wallet, same.callbacks) c.idle;
    counted = rw (same.ran, same.callbacks) c.counted;
  }

  length-calls : (w : s.Wallet) (fns : List s.Callback) → length (calls s w fns) ≡ length fns
  length-calls w [] = refl
  length-calls w (fn ∷ rest) = rw (length-calls w rest) refl

  open-IsConsistent :
      (n : ℕ) (l l' : Loader s) (r : Result s.Wallet)
      → OpenOutcome s l l' r
      → IsConsistent n l
      → IsConsistent n l'
  open-IsConsistent n l l' r (not_opened failed same) c = Same-IsConsistent n l l' same c
  open-IsConsistent n l l' r (opened w done free now empty called local) c = record {
    idle = inr empty;
    counted = omega (
      arith,
      c.counted,
      ap length empty,
      ap length called,
      length-append l.ran (calls s w l.callbacks),
      length-calls w l.callbacks,
    );
  }

  unload-IsConsistent :
      (n : ℕ) (l l' : Loader s) (r : Result (Unit {0}))
      → UnloadOutcome s l l' r
      → IsConsistent n l
      → IsConsistent n l'
  unload-IsConsistent n l l' r (nothing_loaded free refused same) c =
      subst (IsConsistent n) (sym same) c
  unload-IsConsistent n l l' r (not_unloaded w e failed same) c = Same-IsConsistent n l l' same c
  unload-IsConsistent n l l' r (unloaded w e done free closed (fns, ran, local)) c = record {
    idle = inl free;
    counted = rw (ran, fns) c.counted;
  }

  run-IsConsistent :
      (n : ℕ) (l : Loader s) (fn : s.Callback)
      → IsConsistent n l
      → IsConsistent (n + 1) (run_after_load s fn l)
  unfolding run_after_load
  run-IsConsistent n l fn c = go l.wallet refl
    where
      go : (o : Option s.Wallet) → l.wallet ≡ o → IsConsistent (n + 1) (run_or_keep s o fn l)
      go none h = record {
        idle = inl h;
        counted = omega (arith, c.counted, length-append l.callbacks (fn ∷ []));
      }
      go (some w) h = record {
        idle = c.idle;
        counted = omega (arith, c.counted, length-append l.ran ((fn, w) ∷ []));
      }

  -- From a loader with no wallet and no callbacks, whatever sequence of CreateNewWallet,
  -- OpenExistingWallet, UnloadWallet and RunAfterLoad is run, no callback waits while a wallet is
  -- loaded, and the callbacks handed in are as many as those that wait and the calls that were
  -- made.
  pub reaches-IsConsistent :
      (l0 : Loader s)
      → l0.wallet ≡ none
      → l0.callbacks ≡ []
      → l0.ran ≡ []
      → {n : ℕ} {l : Loader s} → Reaches l0 n l
      → IsConsistent n l
  reaches-IsConsistent l0 w c r start = record {
    idle = inl w;
    counted = omega (arith, ap length c, ap length r);
  }
  reaches-IsConsistent l0 w c r (creates {n} {l} before pub_pass priv_pass seed birthday) =
      Same-IsConsistent n l _ (create_never_loads s l pub_pass priv_pass seed birthday)
        (reaches-IsConsistent l0 w c r before)
  reaches-IsConsistent l0 w c r (opens {n} {l} before pub_pass) =
      open-IsConsistent n l _ _ (open_outcome pub_pass l) (reaches-IsConsistent l0 w c r before)
  reaches-IsConsistent l0 w c r (unloads {n} {l} before) =
      unload-IsConsistent n l _ _ (unload_outcome l) (reaches-IsConsistent l0 w c r before)
  reaches-IsConsistent l0 w c r (runs {n} {l} before fn) =
      run-IsConsistent n l fn (reaches-IsConsistent l0 w c r before)
