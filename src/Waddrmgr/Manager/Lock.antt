-- ===== src/Waddrmgr/Manager/Lock.antt =====
-- Locking the address manager (waddrmgr/manager.go, `Lock` and `lock`, with the `lock` methods of the
-- addresses).
pub mod Wiped
use btc_wallet.Base.{
  length-replicate, ℕ, suc, zero, ◌≡◌, ◌≢◌, refl, sym, ap, subst, ◌==◌, ◌⊎◌, inl, inr, Bool,
  Bool-cases, true, false, Option, none, some, List, [], ◌∷◌, ◌++◌, All, length, if◌then◌else◌,
  arith,
}
use btc_wallet.Errors.{Error, manager, err_watching_only, err_locked}
use btc_wallet.Go.{Result, ok, err}
use btc_wallet.Go.Bytes.{Bytes, make_bytes}
use btc_wallet.Btcd.{Btcd}
use btc_wallet.Snacl.{SecretKey}
use btc_wallet.Snacl.Derive
use btc_wallet.Snacl.Derive.{zero_bytes}
use btc_wallet.Walletdb.Bdb.{Action, ◌>>=◌, ◌>>◌, pure, lift}
use btc_wallet.Waddrmgr.Rows.{KeyScope}
use btc_wallet.Waddrmgr.Manager.{
  Pointer, ManagedAddress, ScriptAddress, AddressObject, managed_address, script_address,
  witness_script_address, taproot_script_address, AccountInfo, ScopedKeyManager, Manager,
}

-- The guards of `Lock`.
abbrev refusal : Bool → Bool → Option Error
refusal true locked = some (manager err_watching_only)
refusal false true = some (manager err_locked)
refusal false false = none

module _ {d : Btcd} where
  -- The `switch` over the type of an address: the witness and Taproot script addresses have no case.
  unfoldable pub lock_object : AddressObject d → AddressObject d
  lock_object (managed_address a) = managed_address (record a { priv_key_ct = none })
  lock_object (script_address a) = script_address (record a { script_clear_text = none })
  lock_object (witness_script_address a) = witness_script_address a
  lock_object (taproot_script_address a key) = taproot_script_address a key

  -- The object behind a pointer.
  abbrev pub object_at : List (AddressObject d) → Pointer → Option (AddressObject d)
  object_at [] p = none
  object_at (o ∷ os) p = if p == length os then some o else object_at os p

  unfoldable pub lock_at : Pointer → List (AddressObject d) → List (AddressObject d)
  lock_at p [] = []
  lock_at p (o ∷ os) =
      let rest = lock_at p os in (if p == length os then lock_object o else o) ∷ rest

  -- `for _, ma := range manager.addrs`
  unfoldable pub lock_addrs :
      List (Bytes × Pointer) → List (AddressObject d) → List (AddressObject d)
  lock_addrs [] os = os
  lock_addrs ((key, p) ∷ rest) os = lock_addrs rest (lock_at p os)

  unfoldable pub lock_scopes :
      List (KeyScope × ScopedKeyManager d) → List (AddressObject d) → List (AddressObject d)
  lock_scopes [] os = os
  lock_scopes ((scope, s) ∷ rest) os = lock_scopes rest (lock_addrs s.addrs os)

  -- `acctInfo.acctKeyPriv = nil` for each account.
  unfoldable pub forget_keys : List (ℕ × AccountInfo d) → List (ℕ × AccountInfo d)
  forget_keys [] = []
  forget_keys ((n, info) ∷ rest) = (n, record info { acct_key_priv = none }) ∷ forget_keys rest

  unfoldable pub forget_scopes :
      List (KeyScope × ScopedKeyManager d) → List (KeyScope × ScopedKeyManager d)
  forget_scopes [] = []
  forget_scopes ((scope, s) ∷ rest) =
      (scope, record s { acct_info = forget_keys s.acct_info }) ∷ forget_scopes rest

  -- `lock`
  unfoldable pub lock_all : Manager d → Manager d
  lock_all m = record m {
    objects = lock_scopes m.scoped_managers m.objects;
    scoped_managers = forget_scopes m.scoped_managers;
    crypto_key_script = zero_bytes m.crypto_key_script;
    crypto_key_priv = zero_bytes m.crypto_key_priv;
    master_key_priv = Derive.zero m.master_key_priv;
    hashed_priv_passphrase = zero_bytes m.hashed_priv_passphrase;
    locked = true;
  }

  -- `Lock`
  abbrev locked_unless : Option Error → Manager d → Result (Unit {0}) × Manager d
  locked_unless none m = (ok tt, lock_all m)
  locked_unless (some e) m = (err e, m)

  unfoldable pub lock : Action (Manager d) (Unit {0})
  lock m = locked_unless (refusal m.watching_only m.locked) m

  -- Nothing secret in the clear, for the two types of addresses that are locked.
  abbrev pub IsWiped : AddressObject d → Type 0
  IsWiped (managed_address a) = a.priv_key_ct ≡ none
  IsWiped (script_address a) = a.script_clear_text ≡ none
  IsWiped (witness_script_address a) = Unit {0}
  IsWiped (taproot_script_address a key) = Unit {0}

  abbrev pub IsWipedIfAny : Option (AddressObject d) → Type 0
  IsWipedIfAny none = Unit {0}
  IsWipedIfAny (some o) = IsWiped o

  abbrev pub WipedAt : List (AddressObject d) → Pointer → Type 0
  WipedAt os p = IsWipedIfAny (object_at os p)

  -- No account has its private key.
  abbrev pub IsForgotten : List (ℕ × AccountInfo d) → Type 0
  IsForgotten infos = All (λ (n, info). info.acct_key_priv ≡ none) infos

  -- `addresses` is about the addresses in the maps `addrs`, the only ones that `lock` visits. The last
  -- addresses of an account and the entries of `deriveOnUnlock` are other objects.
  pub record IsLocked (m : Manager d) : Type 0 where
    pub accounts : All (λ (scope, s). IsForgotten s.acct_info) m.scoped_managers
    pub addresses :
        All (λ (scope, s). All (λ (key, p). WipedAt m.objects p) s.addrs) m.scoped_managers
    pub keys :
        (m.crypto_key_priv ≡ zero_bytes m.crypto_key_priv)
        × (m.crypto_key_script ≡ zero_bytes m.crypto_key_script)
        × (m.master_key_priv.key ≡ zero_bytes m.master_key_priv.key)
        × (m.hashed_priv_passphrase ≡ zero_bytes m.hashed_priv_passphrase)
    pub flag : m.locked ≡ true

  -- The object behind a pointer is in no scope's map `addrs`.
  abbrev pub IsOutside : Pointer → List (KeyScope × ScopedKeyManager d) → Type 0
  IsOutside q scopes = All (λ (scope, s). All (λ (key, p). p ≢ q) s.addrs) scopes

  -- The maps `addrs` of the scopes.
  abbrev pub addrs_of :
      List (KeyScope × ScopedKeyManager d) → List (KeyScope × List (Bytes × Pointer))
  addrs_of [] = []
  addrs_of ((scope, s) ∷ rest) = (scope, s.addrs) ∷ addrs_of rest
