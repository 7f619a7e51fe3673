-- ===== src/Waddrmgr/World.antt =====
-- A manager at work: what the methods of a scoped manager (waddrmgr/scoped_manager.go), of its
-- addresses and of `Unlock` act on. `random n i` is what the i-th read of n bytes from the random
-- number generator returns.
use btc_wallet.Base.{ℕ, ◌+◌, Option, none, some, List, [], ◌∷◌, length, ◌==◌, if◌then◌else◌}
use btc_wallet.Go.{Result, ok, panic}
use btc_wallet.Go.Bytes.{Bytes}
use btc_wallet.Btcd.{Btcd}
use btc_wallet.Snacl.{Crypto, nonce_size}
use btc_wallet.Snacl.Box.{encrypt}
use btc_wallet.Walletdb.Bolt.{Bolt}
use btc_wallet.Walletdb.Bdb.{Action, Tx}
use btc_wallet.Waddrmgr.Rows.{KeyScope}
use btc_wallet.Waddrmgr.Manager.{Pointer, AddressObject, ScopedKeyManager, Manager, find_scope}
use btc_wallet.Waddrmgr.Manager.Open.{set_scope}
use btc_wallet.Waddrmgr.Manager.Lock.{object_at}

pub record World ⦃b : Bolt⦄ (d : Btcd) : Type 0 where
  pub manager : Manager d
  pub tree : b.Tree
  -- How often the random number generator was read.
  pub reads : ℕ

-- A nil pointer panics when it is used.
abbrev pub found_or_panic {ℓ} : {A : Type ℓ} → Option A → Result A
found_or_panic none = panic
found_or_panic (some a) = ok a

module _ ⦃b : Bolt⦄ (d : Btcd) where
  abbrev pub Managed : Type 0 → Type 0
  Managed A = Action (World d) A

  unfoldable pub in_tree : {A : Type 0} → Tx A → Managed A
  in_tree m w = let (r, t) = m w.tree in (r, record w { tree = t })

  unfoldable pub get_manager : Managed (Manager d)
  get_manager w = (ok w.manager, w)

  unfoldable pub modify : (Manager d → Manager d) → Managed (Unit {0})
  modify f w = (ok tt, record w { manager = f w.manager })

  unfoldable pub read_random : (ℕ → ℕ → Result Bytes) → ℕ → Managed Bytes
  read_random random size w = (random size w.reads, record w { reads = w.reads + 1 })

  -- `Encrypt`, which reads its nonce.
  unfoldable pub sealed : Crypto → (ℕ → ℕ → Result Bytes) → Bytes → Bytes → Managed Bytes
  sealed c random key message w =
      (encrypt c (random nonce_size w.reads) key message, record w { reads = w.reads + 1 })

  -- The scoped manager behind a pointer, which the manager holds under its scope.
  unfoldable pub get_scoped : KeyScope → Managed (ScopedKeyManager d)
  get_scoped scope w = (found_or_panic (find_scope d scope w.manager.scoped_managers), w)

  abbrev pub with_scoped : KeyScope → ScopedKeyManager d → Manager d → Manager d
  with_scoped scope s m = record m { scoped_managers = set_scope d scope s m.scoped_managers }

  unfoldable pub put_scoped : KeyScope → ScopedKeyManager d → Managed (Unit {0})
  put_scoped scope s = modify (with_scoped scope s)

  -- A new object, and its address.
  unfoldable pub allocate : AddressObject d → Managed Pointer
  allocate o w =
      let m = w.manager in
      (ok (length m.objects), record w { manager = record m { objects = o ∷ m.objects } })

  unfoldable pub get_object : Pointer → Managed (AddressObject d)
  get_object p w = (found_or_panic (object_at w.manager.objects p), w)

  unfoldable pub set_at :
      Pointer → AddressObject d → List (AddressObject d) → List (AddressObject d)
  set_at p new [] = []
  set_at p new (o ∷ os) = let rest = set_at p new os in (if p == length os then new else o) ∷ rest

  unfoldable pub put_object : Pointer → AddressObject d → Managed (Unit {0})
  put_object p o = modify (λ m. record m { objects = set_at p o m.objects })

-- The entry of a map of accounts.
module _ {A : Type 0} where
  abbrev pub find_account : ℕ → List (ℕ × A) → Option A
  find_account n [] = none
  find_account n ((k, a) ∷ rest) = if k == n then some a else find_account n rest

  abbrev pub set_account : ℕ → A → List (ℕ × A) → List (ℕ × A)
  set_account n new [] = (n, new) ∷ []
  set_account n new ((k, a) ∷ rest) =
      let tail = set_account n new rest in if k == n then (k, new) ∷ rest else (k, a) ∷ tail
