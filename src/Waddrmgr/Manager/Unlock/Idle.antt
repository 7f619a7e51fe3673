-- ===== src/Waddrmgr/Manager/Unlock/Idle.antt =====
-- Unlocking a manager that has no accounts and no waiting addresses in memory, as opening leaves it.
use btc_wallet.Base.{
  ℕ, ◌≡◌, ◌∙◌, refl, ap, inl, inr, Bool-cases, true, false, some, List, [], ◌∷◌, ◌++◌, All, length,
}
use btc_wallet.Errors.{err_crypto}
use btc_wallet.Go.{Result, ok}
use btc_wallet.Go.Bytes.{Bytes}
use btc_wallet.Btcd.{Btcd, Btcec}
use btc_wallet.Snacl.{Crypto, SecretKey}
use btc_wallet.Snacl.Box.{decrypt}
use btc_wallet.Snacl.Derive.{copy_over, copy_over_whole, derive_key}
use btc_wallet.Walletdb.Bolt.{Bolt, BucketPath}
use btc_wallet.Walletdb.Bdb.{lift}
use btc_wallet.Walletdb.Keeps.{bind_runs}
use btc_wallet.Waddrmgr.Errors.{wrap_result}
use btc_wallet.Waddrmgr.Rows.{KeyScope}
use btc_wallet.Waddrmgr.Keys.{scope_eq}
use btc_wallet.Waddrmgr.Manager.{ScopedKeyManager, find_scope}
use btc_wallet.Waddrmgr.Manager.Scopes.{scope_eq_refl}
use btc_wallet.Waddrmgr.Manager.Unlock.{
  salt_after, scopes_of, locked_after, locking, derive_master, derive_result, unlock_accounts,
  derive_waiting, unlock_scopes, set_unlocked, unlock_locked, unlock,
}
use btc_wallet.Waddrmgr.Manager.Unlock.Outcome.{unlock_branch}
use btc_wallet.Waddrmgr.Store.Params.{bytes_of}
use btc_wallet.Waddrmgr.World.{World, get_manager, modify, get_scoped}

module _ {d : Btcd} where
  pub record IsIdle (s : ScopedKeyManager d) : Type 0 where
    pub no_accounts : s.acct_info ≡ []
    pub none_waiting : s.derive_on_unlock ≡ []

  abbrev pub AllIdle : List (KeyScope × ScopedKeyManager d) → Type 0
  AllIdle scopes = All (λ (scope, s). IsIdle s) scopes

  -- A scope whose manager is found, and is idle.
  record Found (scopes : List (KeyScope × ScopedKeyManager d)) (scope : KeyScope) : Type 0 where
    s : ScopedKeyManager d
    found : find_scope d scope scopes ≡ some s
    idle : IsIdle s

  Found-below :
      (k : KeyScope) (v : ScopedKeyManager d) (rest : List (KeyScope × ScopedKeyManager d))
      → IsIdle v
      → (scope : KeyScope) → Found rest scope
      → Found ((k, v) ∷ rest) scope
  Found-below k v rest idle scope f = elim (Bool-cases (scope_eq k scope)) [
    | inl same ↦ record { s = v; found = rw same refl; idle = idle }
    | inr other ↦ record { s = f.s; found = rw other f.found; idle = f.idle }
  ]

  All-below :
      (k : KeyScope) (v : ScopedKeyManager d) (rest : List (KeyScope × ScopedKeyManager d))
      → IsIdle v
      → (scopes : List KeyScope) → All (Found rest) scopes
      → All (Found ((k, v) ∷ rest)) scopes
  All-below k v rest idle [] a = tt
  All-below k v rest idle (scope ∷ more) (f, fs) =
      (Found-below k v rest idle scope f, All-below k v rest idle more fs)

  All-Found :
      (scopes : List (KeyScope × ScopedKeyManager d))
      → AllIdle scopes
      → All (Found scopes) (scopes_of d scopes)
  All-Found [] a = tt
  All-Found ((k, v) ∷ rest) (idle, more) = (
    record { s = v; found = rw (scope_eq_refl k) refl; idle = idle },
    All-below k v rest idle (scopes_of d rest) (All-Found rest more),
  )

module _ ⦃b : Bolt⦄ (c : Crypto) (d : Btcd) (e : Btcec d) (random : ℕ → ℕ → Result Bytes)
    (sha256 sha512 : Bytes → Bytes) (path : BucketPath) where
  unlock_scopes-idle :
      (scopes : List KeyScope) (w : World d)
      → All (Found w.manager.scoped_managers) scopes
      → unlock_scopes c d e random sha256 sha512 (some path) scopes w ≡ (ok tt, w)
  unfolding unlock_scopes get_scoped unlock_accounts derive_waiting
  unlock_scopes-idle [] w a = refl
  unlock_scopes-idle (scope ∷ rest) w (f, fs) =
      rw (f.found, f.idle.no_accounts, f.found, f.idle.none_waiting) (unlock_scopes-idle rest w fs)

  module _ (passphrase : Bytes) (w : World d) (sk : SecretKey) (enc key : Bytes) where
    -- The manager afterwards.
    abbrev pub unlocked_world : World d
    unlocked_world = record w {
      manager = record (w.manager) {
        master_key_priv = sk;
        crypto_key_priv = key;
        locked = false;
        hashed_priv_passphrase = sha512 (w.manager.priv_passphrase_salt ++ passphrase);
        priv_passphrase_salt = salt_after passphrase w.manager.priv_passphrase_salt;
      };
    }

    abbrev derived_world : World d
    derived_world = record w { manager = record (w.manager) { master_key_priv = sk } }

    abbrev keyed_world : Bytes → World d
    keyed_world k = record w {
      manager = record (w.manager) { master_key_priv = sk; crypto_key_priv = k };
    }

    derive_master_runs :
        derive_key c passphrase w.manager.master_key_priv ≡ (ok tt, sk)
        → derive_master c d e random sha256 sha512 (some path) passphrase w ≡ (ok tt, derived_world)
    unfolding derive_master
    derive_master_runs derived =
        ap
          (λ (r, k).
            (derive_result r, record w { manager = record (w.manager) { master_key_priv = k } }))
          derived

    get_runs : (x : World d) → get_manager d x ≡ (ok x.manager, x)
    unfolding get_manager
    get_runs x = refl

    opened_key :
        w.manager.crypto_key_priv_encrypted ≡ some enc
        → decrypt c sk.key enc ≡ ok key
        → (x : World d)
        → lift {S = World d}
            (wrap_result err_crypto
              (decrypt c sk.key (bytes_of w.manager.crypto_key_priv_encrypted)))
            x
          ≡ (ok key, x)
    opened_key stored opened x =
        ap (λ r. (wrap_result err_crypto r, x))
          (ap (λ o. decrypt c sk.key (bytes_of o)) stored ∙ opened)

    copy_runs :
        length w.manager.crypto_key_priv ≡ length key
        → modify d
            (λ x. record x { crypto_key_priv = copy_over x.crypto_key_priv key })
            derived_world
          ≡ (ok tt, keyed_world key)
    unfolding modify
    copy_runs size =
        ap (λ k. (ok tt, keyed_world k)) (copy_over_whole c w.manager.crypto_key_priv key size)

    set_runs :
        set_unlocked c d e random sha256 sha512 (some path) passphrase (keyed_world key)
        ≡ (ok tt, unlocked_world)
    unfolding set_unlocked modify
    set_runs = refl

    unlock_locked_runs :
        AllIdle w.manager.scoped_managers
        → derive_key c passphrase w.manager.master_key_priv ≡ (ok tt, sk)
        → w.manager.crypto_key_priv_encrypted ≡ some enc
        → decrypt c sk.key enc ≡ ok key
        → length w.manager.crypto_key_priv ≡ length key
        → unlock_locked c d e random sha256 sha512 (some path) passphrase w
          ≡ (ok tt, unlocked_world)
    unfolding unlock_locked
    unlock_locked_runs idle derived stored opened size =
        bind_runs (derive_master c d e random sha256 sha512 (some path) passphrase) _ w
          derived_world tt (derive_master_runs derived)
        ∙ bind_runs (get_manager d) _ derived_world derived_world derived_world.manager (get_runs _)
        ∙ bind_runs
            (lift (
              wrap_result err_crypto
                (decrypt c sk.key (bytes_of w.manager.crypto_key_priv_encrypted))))
            _ derived_world derived_world key (opened_key stored opened _)
        ∙ bind_runs (modify d (λ x. record x { crypto_key_priv = copy_over x.crypto_key_priv key }))
            _ derived_world (keyed_world key) tt (copy_runs size)
        ∙ bind_runs
            (unlock_scopes c d e random sha256 sha512 (some path)
              (scopes_of d w.manager.scoped_managers))
            _ (keyed_world key) (keyed_world key) tt
            (unlock_scopes-idle _ (keyed_world key) (All-Found w.manager.scoped_managers idle))
        ∙ set_runs

    -- The branch returns without an error, so nothing is locked.
    pub unlock_idle :
        w.manager.watching_only ≡ false
        → w.manager.locked ≡ true
        → AllIdle w.manager.scoped_managers
        → derive_key c passphrase w.manager.master_key_priv ≡ (ok tt, sk)
        → w.manager.crypto_key_priv_encrypted ≡ some enc
        → decrypt c sk.key enc ≡ ok key
        → length w.manager.crypto_key_priv ≡ length key
        → unlock c d e random sha256 sha512 (some path) passphrase w ≡ (ok tt, unlocked_world)
    unfolding locking
    unlock_idle writes locked idle derived stored opened size =
        unlock_branch c d e random sha256 sha512 path passphrase w true writes locked
        ∙ ap (λ (r, w'). (r, record w' { manager = locked_after d r w'.manager }))
            (unlock_locked_runs idle derived stored opened size)
