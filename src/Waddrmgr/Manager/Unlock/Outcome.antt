-- ===== src/Waddrmgr/Manager/Unlock/Outcome.antt =====
-- How `Unlock` can end.
use btc_wallet.Base.{
  ℕ, ◌≡◌, ◌≢◌, ◌∙◌, refl, sym, inl, inr, Bool, Bool-cases, true, false, not, ◌∷◌, some, ◌++◌,
  bytes_eq, bytes_eq_iff, if◌then◌else◌, arith,
}
use btc_wallet.Errors.{Error, manager, err_watching_only, err_wrong_passphrase, err_crypto}
use btc_wallet.Go.{Result, ok, err, panic, fail_if, Result-cases}
use btc_wallet.Go.Bytes.{Bytes}
use btc_wallet.Btcd.{Btcd, Btcec}
use btc_wallet.Snacl.{Crypto}
use btc_wallet.Snacl.Box.{decrypt}
use btc_wallet.Snacl.Derive.{copy_over}
use btc_wallet.Waddrmgr.Errors.{wrap_result}
use btc_wallet.Waddrmgr.Store.Params.{bytes_of}
use btc_wallet.Walletdb.Bolt.{Bolt, BucketPath}
use btc_wallet.Walletdb.Bdb.{◌>>=◌, lift}
use btc_wallet.Walletdb.Keeps.{Leaves, Leaves-bind}
use btc_wallet.Waddrmgr.Manager.{Manager}
use btc_wallet.Waddrmgr.Manager.Lock.{lock_all, IsLocked}
use btc_wallet.Waddrmgr.Manager.Lock.Wiped.{lock_all-IsLocked}
use btc_wallet.Waddrmgr.Manager.Unlock.{
  salt_after, set_unlocked, derive_master, unlock_scopes, scopes_of, locking, unlock_locked,
  check_passphrase, unlock,
}
use btc_wallet.Waddrmgr.World.{World, Managed, get_manager, modify}

module _ {d : Btcd} where
  -- The passphrase whose hash the manager holds.
  pub record IsUnlocked (sha512 : Bytes → Bytes) (passphrase : Bytes) (m : Manager d) : Type 0 where
    pub not_locked : m.locked ≡ false
    pub hashed : m.hashed_priv_passphrase ≡ sha512 (m.priv_passphrase_salt ++ passphrase)

module _ ⦃b : Bolt⦄ (c : Crypto) (d : Btcd) (e : Btcec d) (random : ℕ → ℕ → Result Bytes)
    (sha256 sha512 : Bytes → Bytes) (path : BucketPath) (passphrase : Bytes) where
  abbrev branches : Bool → Managed d (Unit {0})
  branches l = locking d (
      if l
      then unlock_locked c d e random sha256 sha512 (some path) passphrase
      else check_passphrase c d e random sha256 sha512 (some path) passphrase)

  branch_taken :
      (x l y : Bool) (w : World d)
      → x ≡ false
      → l ≡ y
      → (lift (fail_if x (manager err_watching_only)) >>= λ _. branches l) w ≡ branches y w
  branch_taken x l y w writes same = rw (writes, same) refl

  -- The branch that a manager takes that does not only watch.
  pub unlock_branch :
      (w : World d) (y : Bool)
      → w.manager.watching_only ≡ false
      → w.manager.locked ≡ y
      → unlock c d e random sha256 sha512 (some path) passphrase w ≡ branches y w
  unfolding unlock get_manager
  unlock_branch w y writes same =
      branch_taken w.manager.watching_only w.manager.locked y w writes same

  -- The salt afterwards is set to zeros where the passphrase is empty.
  abbrev pub salted_world : World d → World d
  salted_world w = record w {
    manager = record (w.manager) {
      priv_passphrase_salt = salt_after passphrase w.manager.priv_passphrase_salt;
    };
  }

  tested :
      (w : World d) (y x : Bool)
      → y ≡ x
      → locking d (lift (fail_if (not y) (manager err_wrong_passphrase))) w ≡ (
          if x
          then (ok tt, w)
          else (err (manager err_wrong_passphrase), record w { manager = lock_all w.manager }))
  unfolding locking
  tested w true x h = rw⁻¹ h refl
  tested w false x h = rw⁻¹ h refl

  check_branch :
      (w : World d) (x : Bool)
      → bytes_eq
          (sha512 (w.manager.priv_passphrase_salt ++ passphrase))
          w.manager.hashed_priv_passphrase
        ≡ x
      → branches false w ≡ (
          if x then (ok tt, salted_world w) else (
            err (manager err_wrong_passphrase),
            record w { manager = lock_all (salted_world w).manager },
          ))
  unfolding check_passphrase get_manager modify locking
  check_branch w x h = tested (salted_world w) _ x h

  bytes_eq_no : (x y : Bytes) → x ≢ y → bytes_eq x y ≡ false
  bytes_eq_no x y differ = elim (Bool-cases (bytes_eq x y)) [
    | inl same ↦ absurd (differ ((bytes_eq_iff x y).0 same))
    | inr other ↦ other
  ]

  -- Unlock of a manager that does not only watch, is not locked and holds the hash of a
  -- passphrase, returns nil for a passphrase with that hash behind the salt, and for all others
  -- locks the manager and answers that the passphrase is wrong; nothing else changes but the salt,
  -- which becomes zero when the passphrase handed in is empty.
  pub unlock_checked :
      (w : World d) (right : Bytes)
      → w.manager.watching_only ≡ false
      → IsUnlocked sha512 right w.manager
      → (sha512 (w.manager.priv_passphrase_salt ++ passphrase)
            ≡ sha512 (w.manager.priv_passphrase_salt ++ right)
          → unlock c d e random sha256 sha512 (some path) passphrase w ≡ (ok tt, salted_world w))
        × (sha512 (w.manager.priv_passphrase_salt ++ passphrase)
              ≢ sha512 (w.manager.priv_passphrase_salt ++ right)
            → unlock c d e random sha256 sha512 (some path) passphrase w ≡ (
              err (manager err_wrong_passphrase),
              record w { manager = lock_all (salted_world w).manager },
            ))
  unlock_checked w right writes held = (
    λ same.
        unlock_branch w false writes held.not_locked
        ∙ check_branch w true ((bytes_eq_iff _ _).1 (same ∙ sym held.hashed)),
    λ differ.
        unlock_branch w false writes held.not_locked
        ∙ check_branch w false (bytes_eq_no _ _ (λ same. differ (same ∙ held.hashed))),
  )

module _ ⦃b : Bolt⦄ (c : Crypto) (d : Btcd) (e : Btcec d) (random : ℕ → ℕ → Result Bytes)
    (sha256 sha512 : Bytes → Bytes) (path : BucketPath) (first : ℕ) (rest : Bytes) where
  -- A passphrase that is not empty.
  abbrev passphrase : Bytes
  passphrase = first ∷ rest

  -- Every way in which `Unlock` can end.
  pub data UnlockOutcome (w w' : World d) (r : Result (Unit {0})) : Type 0 where
    watching :
        w.manager.watching_only ≡ true
        → r ≡ err (manager err_watching_only)
        → w' ≡ w
        → UnlockOutcome w w' r
    failed :
        w.manager.watching_only ≡ false
        → (x : Error) → r ≡ err x
        → IsLocked w'.manager
        → UnlockOutcome w w' r
    unlocked :
        w.manager.watching_only ≡ false
        → r ≡ ok tt
        → IsUnlocked sha512 passphrase w'.manager
        → UnlockOutcome w w' r
    panicked : w.manager.watching_only ≡ false → r ≡ panic → UnlockOutcome w w' r

  -- The branches of the guard, and of the lock after an error.
  locking_outcome :
      (m : Managed d (Unit {0})) (w : World d)
      → w.manager.watching_only ≡ false
      → ((m w).0 ≡ ok tt → IsUnlocked sha512 passphrase (m w).1.manager)
      → UnlockOutcome w (locking d m w).1 (locking d m w).0
  unfolding locking
  locking_outcome m w writes success = elim (Result-cases (m w).0) [
    | inl (u, done) ↦ rw done (unlocked writes refl (success done))
    | inr (inl (x, raised)) ↦ rw raised (failed writes x refl (lock_all-IsLocked (m w).1.manager))
    | inr (inr raised) ↦ rw raised (panicked writes refl)
  ]

  check-IsUnlocked :
      (w : World d)
      → w.manager.locked ≡ false
      → (check_passphrase c d e random sha256 sha512 (some path) passphrase w).0 ≡ ok tt
      → IsUnlocked sha512 passphrase
          (check_passphrase c d e random sha256 sha512 (some path) passphrase w).1.manager
  unfolding check_passphrase get_manager modify locking
  check-IsUnlocked w free h = record {
    not_locked = free;
    hashed = sym (
        (bytes_eq_iff _ _).0 (
          same
            (bytes_eq (sha512 (w.manager.priv_passphrase_salt ++ passphrase))
              w.manager.hashed_priv_passphrase)
            h));
  }
    where
      same : (x : Bool) → fail_if (not x) (manager err_wrong_passphrase) ≡ ok tt → x ≡ true
      same true k = refl
      same false k = absurd (ground arith)

  set_unlocked-IsUnlocked :
      Leaves
        (λ w. IsUnlocked sha512 passphrase w.manager)
        (set_unlocked c d e random sha256 sha512 (some path) passphrase)
  unfolding set_unlocked modify
  set_unlocked-IsUnlocked = record { at = λ w h. record { not_locked = refl; hashed = refl } }

  unlock_locked-IsUnlocked :
      Leaves
        (λ w. IsUnlocked sha512 passphrase w.manager)
        (unlock_locked c d e random sha256 sha512 (some path) passphrase)
  unfolding unlock_locked
  unlock_locked-IsUnlocked =
      Leaves-bind (derive_master c d e random sha256 sha512 (some path) passphrase) _ λ _.
        Leaves-bind (get_manager d) _ λ m.
          Leaves-bind
            (lift (
              wrap_result err_crypto
                (decrypt c m.master_key_priv.key (bytes_of m.crypto_key_priv_encrypted))))
            _
            λ key.
              Leaves-bind
                (modify d (λ x. record x { crypto_key_priv = copy_over x.crypto_key_priv key })) _
                λ _.
                  Leaves-bind
                    (unlock_scopes c d e random sha256 sha512 (some path)
                      (scopes_of d m.scoped_managers))
                    _ λ _. set_unlocked-IsUnlocked

  guarded :
      (w : World d) (x : Bool) (k : Managed d (Unit {0}))
      → w.manager.watching_only ≡ x
      → (x ≡ false → UnlockOutcome w (k w).1 (k w).0)
      → UnlockOutcome w
          ((lift (fail_if x (manager err_watching_only)) >>= λ _. k) w).1
          ((lift (fail_if x (manager err_watching_only)) >>= λ _. k) w).0
  guarded w true k watches rest = watching watches refl refl
  guarded w false k writes rest = rest refl

  either-IsUnlocked :
      (w : World d) (x : Bool) (m n : Managed d (Unit {0}))
      → (x ≡ true → (m w).0 ≡ ok tt → IsUnlocked sha512 passphrase (m w).1.manager)
      → (x ≡ false → (n w).0 ≡ ok tt → IsUnlocked sha512 passphrase (n w).1.manager)
      → ((if x then m else n) w).0 ≡ ok tt
      → IsUnlocked sha512 passphrase ((if x then m else n) w).1.manager
  either-IsUnlocked w true m n f g = f refl
  either-IsUnlocked w false m n f g = g refl

  -- For a passphrase that is not empty, Unlock answers an error and changes nothing in a manager
  -- that only watches; otherwise it panics, or it returns an error and has locked the manager,
  -- with its keys zero, no account with its private key, and no address in the map of addresses of
  -- a scope with its private key or its script in the clear except witness and Taproot script
  -- addresses, or it returns nil and the manager is not locked and holds the hash of that
  -- passphrase.
  pub unlock_outcome :
      (w : World d)
      → UnlockOutcome w
          (unlock c d e random sha256 sha512 (some path) passphrase w).1
          (unlock c d e random sha256 sha512 (some path) passphrase w).0
  unfolding unlock get_manager
  unlock_outcome w = guarded w w.manager.watching_only _ refl λ writes. locking_outcome _ w writes (
      either-IsUnlocked w w.manager.locked _ _ (λ l. unlock_locked-IsUnlocked.at w)
        (λ l. check-IsUnlocked w l))
