-- ===== src/Waddrmgr/Manager/Lock/Wiped.antt =====
-- What locking wipes.
use btc_wallet.Base.{
  length-replicate, ℕ, ◌≡◌, ◌≢◌, ◌∙◌, refl, sym, ap, subst, ◌==◌, Bool, true, false, Option, none,
  some, List, [], ◌∷◌, All, length, if◌then◌else◌, arith,
}
use btc_wallet.Errors.{manager, err_watching_only, err_locked}
use btc_wallet.Go.{Result, ok, err}
use btc_wallet.Go.Bytes.{Bytes, make_bytes}
use btc_wallet.Btcd.{Btcd}
use btc_wallet.Snacl.Derive
use btc_wallet.Snacl.Derive.{zero_bytes}
use btc_wallet.Waddrmgr.Rows.{KeyScope}
use btc_wallet.Waddrmgr.Manager.{
  Pointer, AddressObject, managed_address, script_address, witness_script_address,
  taproot_script_address, AccountInfo, ScopedKeyManager, Manager,
}
use btc_wallet.Waddrmgr.Manager.Lock.{
  refusal, lock_object, object_at, lock_at, lock_addrs, lock_scopes, forget_keys, forget_scopes,
  lock_all, locked_unless, lock, IsWiped, IsWipedIfAny, WipedAt, IsForgotten, IsLocked, IsOutside,
  addrs_of,
}

zero_bytes-zero : (v : Bytes) → zero_bytes v ≡ zero_bytes (zero_bytes v)
zero_bytes-zero v = ap make_bytes (sym (length-replicate (length v) 0))

module _ {d : Btcd} where
  lock_object-IsWiped : (o : AddressObject d) → IsWiped (lock_object o)
  unfolding lock_object
  lock_object-IsWiped (managed_address a) = refl
  lock_object-IsWiped (script_address a) = refl
  lock_object-IsWiped (witness_script_address a) = tt
  lock_object-IsWiped (taproot_script_address a key) = tt

  length-lock_at : (p : Pointer) (os : List (AddressObject d)) → length (lock_at p os) ≡ length os
  unfolding lock_at
  length-lock_at p [] = refl
  length-lock_at p (o ∷ os) = rw (length-lock_at p os) refl

  abbrev locked_object : Option (AddressObject d) → Option (AddressObject d)
  locked_object none = none
  locked_object (some o) = some (lock_object o)

  object_at-lock_at :
      (p q : Pointer) (os : List (AddressObject d))
      → object_at (lock_at p os) q
        ≡ (if p == q then locked_object (object_at os q) else object_at os q)
  unfolding lock_at
  object_at-lock_at p q [] = ground arith
  object_at-lock_at p q (x ∷ os) = rw (length-lock_at p os, object_at-lock_at p q os) (ground arith)

  locked_object-IsWiped : (x : Option (AddressObject d)) → IsWipedIfAny (locked_object x)
  locked_object-IsWiped none = tt
  locked_object-IsWiped (some o) = lock_object-IsWiped o

  either_wiped :
      (same : Bool) (x : Option (AddressObject d))
      → IsWipedIfAny x
      → IsWipedIfAny (if same then locked_object x else x)
  either_wiped true x w = locked_object-IsWiped x
  either_wiped false x w = w

  lock_at_self : (p : Pointer) (os : List (AddressObject d)) → WipedAt (lock_at p os) p
  lock_at_self p os =
      let same : (p == p) ≡ true = ground arith in
      subst IsWipedIfAny (sym (object_at-lock_at p p os)) (
        subst (λ x. IsWipedIfAny (if x then locked_object (object_at os p) else object_at os p))
          (sym same) (locked_object-IsWiped (object_at os p)))

  lock_at-kept :
      (p q : Pointer) (os : List (AddressObject d)) → WipedAt os q → WipedAt (lock_at p os) q
  lock_at-kept p q os w =
      subst IsWipedIfAny (sym (object_at-lock_at p q os)) (either_wiped (p == q) (object_at os q) w)

  lock_addrs-kept :
      (addrs : List (Bytes × Pointer)) (q : Pointer) (os : List (AddressObject d))
      → WipedAt os q
      → WipedAt (lock_addrs addrs os) q
  unfolding lock_addrs
  lock_addrs-kept [] q os w = w
  lock_addrs-kept ((key, p) ∷ rest) q os w =
      lock_addrs-kept rest q (lock_at p os) (lock_at-kept p q os w)

  lock_addrs-wiped :
      (addrs : List (Bytes × Pointer)) (os : List (AddressObject d))
      → All (λ (key, p). WipedAt (lock_addrs addrs os) p) addrs
  unfolding lock_addrs
  lock_addrs-wiped [] os = tt
  lock_addrs-wiped ((key, p) ∷ rest) os = (
    lock_addrs-kept rest p (lock_at p os) (lock_at_self p os),
    lock_addrs-wiped rest (lock_at p os),
  )

  lock_scopes-kept :
      (scopes : List (KeyScope × ScopedKeyManager d)) (q : Pointer) (os : List (AddressObject d))
      → WipedAt os q
      → WipedAt (lock_scopes scopes os) q
  unfolding lock_scopes
  lock_scopes-kept [] q os w = w
  lock_scopes-kept ((scope, s) ∷ rest) q os w =
      lock_scopes-kept rest q (lock_addrs s.addrs os) (lock_addrs-kept s.addrs q os w)

  All-kept :
      (scopes : List (KeyScope × ScopedKeyManager d)) (addrs : List (Bytes × Pointer))
      (os : List (AddressObject d))
      → All (λ (key, p). WipedAt os p) addrs
      → All (λ (key, p). WipedAt (lock_scopes scopes os) p) addrs
  All-kept scopes [] os w = tt
  All-kept scopes ((key, p) ∷ rest) os (w, ws) =
      (lock_scopes-kept scopes p os w, All-kept scopes rest os ws)

  -- The scopes afterwards hold the addresses that they held.
  lock_scopes-wiped :
      (scopes : List (KeyScope × ScopedKeyManager d)) (os : List (AddressObject d))
      → All
          (λ (scope, s). All (λ (key, p). WipedAt (lock_scopes scopes os) p) s.addrs)
          (forget_scopes scopes)
  unfolding lock_scopes forget_scopes
  lock_scopes-wiped [] os = tt
  lock_scopes-wiped ((scope, s) ∷ rest) os = (
    All-kept rest s.addrs (lock_addrs s.addrs os) (lock_addrs-wiped s.addrs os),
    lock_scopes-wiped rest (lock_addrs s.addrs os),
  )

  forget_keys-IsForgotten : (infos : List (ℕ × AccountInfo d)) → IsForgotten (forget_keys infos)
  unfolding forget_keys
  forget_keys-IsForgotten [] = tt
  forget_keys-IsForgotten ((n, info) ∷ rest) = (refl, forget_keys-IsForgotten rest)

  forget_scopes-IsForgotten :
      (scopes : List (KeyScope × ScopedKeyManager d))
      → All (λ (scope, s). IsForgotten s.acct_info) (forget_scopes scopes)
  unfolding forget_scopes
  forget_scopes-IsForgotten [] = tt
  forget_scopes-IsForgotten ((scope, s) ∷ rest) =
      (forget_keys-IsForgotten s.acct_info, forget_scopes-IsForgotten rest)

  pub lock_all-IsLocked : (m : Manager d) → IsLocked (lock_all m)
  unfolding lock_all Derive.zero
  lock_all-IsLocked m = record {
    accounts = forget_scopes-IsForgotten m.scoped_managers;
    addresses = lock_scopes-wiped m.scoped_managers m.objects;
    keys = (
      zero_bytes-zero m.crypto_key_priv,
      zero_bytes-zero m.crypto_key_script,
      zero_bytes-zero m.master_key_priv.key,
      zero_bytes-zero m.hashed_priv_passphrase,
    );
    flag = refl;
  }

  -- What is not in the map of a scope is not visited.
  lock_at-other :
      (p q : Pointer) (os : List (AddressObject d))
      → p ≢ q
      → object_at (lock_at p os) q ≡ object_at os q
  lock_at-other p q os other =
      let differ : (p == q) ≡ false = ground arith in rw (object_at-lock_at p q os, differ) refl

  lock_addrs-other :
      (addrs : List (Bytes × Pointer)) (q : Pointer) (os : List (AddressObject d))
      → All (λ (key, p). p ≢ q) addrs
      → object_at (lock_addrs addrs os) q ≡ object_at os q
  unfolding lock_addrs
  lock_addrs-other [] q os others = refl
  lock_addrs-other ((key, p) ∷ rest) q os (other, others) =
      lock_addrs-other rest q (lock_at p os) others ∙ lock_at-other p q os other

  lock_scopes-other :
      (scopes : List (KeyScope × ScopedKeyManager d)) (q : Pointer) (os : List (AddressObject d))
      → IsOutside q scopes
      → object_at (lock_scopes scopes os) q ≡ object_at os q
  unfolding lock_scopes
  lock_scopes-other [] q os outside = refl
  lock_scopes-other ((scope, s) ∷ rest) q os (others, outside) =
      lock_scopes-other rest q (lock_addrs s.addrs os) outside
      ∙ lock_addrs-other s.addrs q os others

  lock_all-other :
      (m : Manager d) (q : Pointer)
      → IsOutside q m.scoped_managers
      → object_at (lock_all m).objects q ≡ object_at m.objects q
  unfolding lock_all
  lock_all-other m q outside = lock_scopes-other m.scoped_managers q m.objects outside

  forget_scopes-addrs :
      (scopes : List (KeyScope × ScopedKeyManager d))
      → addrs_of (forget_scopes scopes) ≡ addrs_of scopes
  unfolding forget_scopes
  forget_scopes-addrs [] = refl
  forget_scopes-addrs ((scope, s) ∷ rest) =
      ap (λ held. (scope, s.addrs) ∷ held) (forget_scopes-addrs rest)

  lock_all-addrs :
      (m : Manager d) → addrs_of (lock_all m).scoped_managers ≡ addrs_of m.scoped_managers
  unfolding lock_all
  lock_all-addrs m = forget_scopes-addrs m.scoped_managers

  -- Every way in which `Lock` can end.
  pub data LockOutcome (m : Manager d) : Result (Unit {0}) × Manager d → Type 0 where
    watching : m.watching_only ≡ true → LockOutcome m (err (manager err_watching_only), m)
    already :
        m.watching_only ≡ false → m.locked ≡ true → LockOutcome m (err (manager err_locked), m)
    now_locked :
        m.watching_only ≡ false
        → m.locked ≡ false
        → (m' : Manager d) → IsLocked m'
        → addrs_of m'.scoped_managers ≡ addrs_of m.scoped_managers
        → ((q : Pointer)
            → IsOutside q m.scoped_managers
            → object_at m'.objects q ≡ object_at m.objects q)
        → LockOutcome m (ok tt, m')

  outcome :
      (m : Manager d) (w l : Bool)
      → m.watching_only ≡ w
      → m.locked ≡ l
      → LockOutcome m (locked_unless (refusal w l) m)
  outcome m true l hw hl = watching hw
  outcome m false true hw hl = already hw hl
  outcome m false false hw hl =
      now_locked hw hl (lock_all m) (lock_all-IsLocked m) (lock_all-addrs m) (lock_all-other m)

  -- Lock answers an error and changes nothing in a manager that only watches or is locked already;
  -- otherwise it returns nil, and then no account has its private key, no address in the map of
  -- addresses of a scope has its private key or its script in the clear except the witness and
  -- Taproot script addresses, the scopes have the maps of addresses that they had, every address
  -- object that is in no such map is as it was, the private and script crypto keys, the private
  -- master key and the hashed passphrase are zero, and the manager is locked.
  pub lock_outcome : (m : Manager d) → LockOutcome m (lock m)
  unfolding lock
  lock_outcome m = outcome m m.watching_only m.locked refl refl
