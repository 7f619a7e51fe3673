-- ===== src/Tests/Unlock.antt =====
-- Unlocking, run on a manager that has been created, and on one without scopes.
use btc_wallet.Base.{◌≡◌, ◌≢◌, refl, false, true, some, [], ◌∷◌, ◌++◌, replicate}
use btc_wallet.Errors.{manager, err_wrong_passphrase}
use btc_wallet.Go.{ok, err}
use btc_wallet.Go.Bytes.{Bytes}
use btc_wallet.Walletdb.Memory.{memory, memory_laws}
use btc_wallet.Waddrmgr.Keys.{scope_addr_map}
use btc_wallet.Waddrmgr.Manager.{Manager}
use btc_wallet.Waddrmgr.Manager.Create.Unlocked.{Unlockable, create_unlocks}
use btc_wallet.Waddrmgr.Manager.Open.{open_manager}
use btc_wallet.Waddrmgr.Manager.Lock.{lock_all}
use btc_wallet.Waddrmgr.Manager.Unlock.{unlock}
use btc_wallet.Waddrmgr.Manager.Unlock.Outcome.{UnlockOutcome, unlock_outcome, unlock_checked}
use btc_wallet.Waddrmgr.World.{World}
use btc_wallet.Tests.Toys.{keys, curve, random, boxes, boxes-BoxLaws, boxes-CryptoLaws, manager_of}
use btc_wallet.Tests.Created.{
  ns, empty_tree, draw, filled, options, options-IsOptions, created_tree, create_run, scopes,
  listed,
}

-- In place of the hash functions.
abbrev digest : Bytes → Bytes
digest b = b

create_unlocks_example :
    (m : Manager keys) × (open_manager boxes keys
        (ok (replicate 32 7))
        (some ns)
        (9 ∷ [])
        created_tree
      ≡ (ok m, created_tree))
    × Unlockable memory_laws boxes boxes-CryptoLaws boxes-BoxLaws keys curve draw ns
        (filled 32 4)
        (filled 32 4)
        (filled 32 4)
        (filled 32 4)
        (filled 24 6)
        (filled 24 6)
        random
        digest
        digest
        m
        created_tree
        (8 ∷ [])
create_unlocks_example =
    create_unlocks memory_laws boxes boxes-CryptoLaws boxes-BoxLaws keys curve draw ns (filled 32 4)
      (filled 32 4) (filled 32 4) (filled 32 4) (filled 24 6) (filled 24 6) random digest digest
      1700000000 scope_addr_map 5 (9 ∷ []) (8 ∷ []) (some options) 1700000000 empty_tree
      created_tree (replicate 32 7) scopes options-IsOptions create_run listed

abbrev locked_world : World keys
locked_world = record { manager = manager_of false true; tree = empty_tree; reads = 0 }

unlock_outcome_example :
    UnlockOutcome boxes keys curve random digest digest ns 8 [] locked_world
      (unlock boxes keys curve random digest digest (some ns) (8 ∷ []) locked_world).1
      (unlock boxes keys curve random digest digest (some ns) (8 ∷ []) locked_world).0
unlock_outcome_example = unlock_outcome boxes keys curve random digest digest ns 8 [] locked_world

-- Unlocked with the passphrase 8.
abbrev unlocked : World keys
unlocked = record locked_world {
  manager = record (manager_of false false) { hashed_priv_passphrase = replicate 32 4 ++ (8 ∷ []) };
}

unlock_checked_example :
    (digest (replicate 32 4 ++ (7 ∷ [])) ≡ digest (replicate 32 4 ++ (8 ∷ []))
      → unlock boxes keys curve random digest digest (some ns) (7 ∷ []) unlocked
        ≡ (ok tt, unlocked))
    × (digest (replicate 32 4 ++ (7 ∷ [])) ≢ digest (replicate 32 4 ++ (8 ∷ []))
        → unlock boxes keys curve random digest digest (some ns) (7 ∷ []) unlocked ≡ (
          err (manager err_wrong_passphrase),
          record unlocked { manager = lock_all unlocked.manager },
        ))
unlock_checked_example =
    unlock_checked boxes keys curve random digest digest ns (7 ∷ []) unlocked (8 ∷ []) refl
      (record { not_locked = refl; hashed = refl })
