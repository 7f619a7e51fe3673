-- ===== src/Waddrmgr/Manager/Unlock.antt =====
-- Unlocking the address manager (waddrmgr/manager.go, `Unlock`). `sha512` is `sha512.Sum512`.
pub mod Outcome
pub mod Idle
use btc_wallet.Base.{
  ℕ, not, ◌==◌, ◌&&◌, Bool, true, false, Option, none, some, List, [], ◌∷◌, ◌++◌, bytes_eq,
  if◌then◌else◌,
}
use btc_wallet.Errors.{
  Error, SnaclError, manager, wrapped, snacl, invalid_password, err_watching_only, err_crypto,
  err_key_chain, err_wrong_passphrase,
}
use btc_wallet.Go.{Result, ok, err, panic, fail_if}
use btc_wallet.Go.Bytes.{Bytes}
use btc_wallet.Btcd.{Btcd, Btcec}
use btc_wallet.Snacl.{Crypto}
use btc_wallet.Snacl.Box.{decrypt}
use btc_wallet.Snacl.Derive.{copy_over, derive_key, zero_bytes}
use btc_wallet.Walletdb.Bolt.{Bolt}
use btc_wallet.Walletdb.Bdb.{Handle, ◌>>=◌, ◌>>◌, pure, raise, lift}
use btc_wallet.Waddrmgr.Errors.{wrap, wrap_result}
use btc_wallet.Waddrmgr.Rows.{KeyScope}
use btc_wallet.Waddrmgr.Manager.{
  Pointer, UnlockDeriveInfo, AddressObject, managed_address, script_address, witness_script_address,
  taproot_script_address, AccountInfo, ScopedKeyManager, Manager,
}
use btc_wallet.Waddrmgr.Manager.Lock.{lock_all}
use btc_wallet.Waddrmgr.Store.Params.{bytes_of}
use btc_wallet.Waddrmgr.Scoped.Load.{derive_key_from_path}
use btc_wallet.Waddrmgr.World.{
  World, Managed, found_or_panic, get_manager, modify, get_scoped, put_scoped, get_object,
  put_object, sealed, set_account,
}

module _ (d : Btcd) where
  abbrev pub scopes_of : List (KeyScope × ScopedKeyManager d) → List KeyScope
  scopes_of [] = []
  scopes_of ((scope, s) ∷ rest) = scope ∷ scopes_of rest

  -- `InternalAccount` of an object.
  abbrev internal_account_of : AddressObject d → ℕ
  internal_account_of (managed_address a) = a.derivation_path.internal_account
  internal_account_of (script_address a) = a.account
  internal_account_of (witness_script_address a) = a.base.account
  internal_account_of (taproot_script_address a key) = a.base.account

  -- The `switch` over the type of a waiting address.
  abbrev with_private_key : Bytes → Bytes → AddressObject d → AddressObject d
  with_private_key encrypted key (managed_address a) =
      managed_address (record a { priv_key_encrypted = some encrypted; priv_key_ct = some key })
  with_private_key encrypted key (script_address a) = script_address a
  with_private_key encrypted key (witness_script_address a) = witness_script_address a
  with_private_key encrypted key (taproot_script_address a k) = taproot_script_address a k

  -- `deriveOnUnlock[1:]`, after an assignment to its first entry.
  abbrev rest_of : List UnlockDeriveInfo → Result (List UnlockDeriveInfo)
  rest_of [] = panic
  rest_of (info ∷ rest) = ok rest

-- `if err == snacl.ErrInvalidPassword { … }`
abbrev derive_error : Error → Error
derive_error (snacl invalid_password) = manager err_wrong_passphrase
derive_error e = wrapped err_crypto e

abbrev pub derive_result : Result (Unit {0}) → Result (Unit {0})
derive_result (ok u) = ok u
derive_result (err e) = err (derive_error e)
derive_result panic = panic

-- What is left of the salt: an empty passphrase appended to it is the salt itself, which is then
-- set to zeros.
abbrev pub salt_after : Bytes → Bytes → Bytes
salt_after [] salt = zero_bytes salt
salt_after (x ∷ passphrase) salt = salt

-- An error that the code drops, where the value is then nil and is used.
abbrev or_nil_used {ℓ} : {A : Type ℓ} → Result A → Result A
or_nil_used (ok a) = ok a
or_nil_used (err e) = panic
or_nil_used panic = panic

module _ ⦃b : Bolt⦄ (d : Btcd) where
  -- `m.lock()` before the return of an error.
  abbrev pub locked_after : {A : Type 0} → Result A → Manager d → Manager d
  locked_after (ok a) m = m
  locked_after (err x) m = lock_all m
  locked_after panic m = m

  unfoldable pub locking : {A : Type 0} → Managed d A → Managed d A
  locking m w = let (r, w') = m w in (r, record w' { manager = locked_after r w'.manager })

module _ ⦃b : Bolt⦄ (c : Crypto) (d : Btcd) (e : Btcec d) (random : ℕ → ℕ → Result Bytes)
    (sha256 sha512 : Bytes → Bytes) (ns : Handle) where
  -- `m.masterKeyPriv.DeriveKey(&passphrase)`
  unfoldable pub derive_master : Bytes → Managed d (Unit {0})
  derive_master passphrase w =
      let (r, sk) = derive_key c passphrase w.manager.master_key_priv in
      (derive_result r, record w { manager = record (w.manager) { master_key_priv = sk } })

  -- `for account, acctInfo := range manager.acctInfo`
  unfoldable pub unlock_accounts : KeyScope → List (ℕ × AccountInfo d) → Managed d (Unit {0})
  unlock_accounts scope [] = pure tt
  unlock_accounts scope ((account, info) ∷ rest) = do
    m ← get_manager d
    decrypted ←
        lift
          (wrap_result err_crypto (decrypt c m.crypto_key_priv (bytes_of info.acct_key_encrypted)))
    acct_key_priv ← lift (wrap_result err_key_chain (d.new_key_from_string decrypted))
    s ← get_scoped d scope
    put_scoped d scope (record s {
      acct_info =
          set_account account (record info { acct_key_priv = some acct_key_priv }) s.acct_info;
    })
    unlock_accounts scope rest

  -- `for _, info := range manager.deriveOnUnlock`
  unfoldable pub derive_waiting : KeyScope → List UnlockDeriveInfo → Managed d (Unit {0})
  derive_waiting scope [] = pure tt
  derive_waiting scope (info ∷ rest) = do
    o ← get_object d info.managed_addr
    keys ←
        derive_key_from_path c d e random sha256 ns scope (internal_account_of d o) info.branch
          info.index true
    priv_key ← lift (or_nil_used (e.ec_priv_key keys.0))
    m ← get_manager d
    priv_key_encrypted ←
        wrap err_crypto (sealed d c random m.crypto_key_priv (e.serialize priv_key))
    o' ← get_object d info.managed_addr
    put_object d info.managed_addr (with_private_key d priv_key_encrypted (e.serialize priv_key) o')
    s ← get_scoped d scope
    waiting ← lift (rest_of d s.derive_on_unlock)
    put_scoped d scope (record s { derive_on_unlock = waiting })
    derive_waiting scope rest

  -- `for _, manager := range m.scopedManagers`
  unfoldable pub unlock_scopes : List KeyScope → Managed d (Unit {0})
  unlock_scopes [] = pure tt
  unlock_scopes (scope ∷ rest) = do
    s ← get_scoped d scope
    unlock_accounts scope s.acct_info
    s' ← get_scoped d scope
    derive_waiting scope s'.derive_on_unlock
    unlock_scopes rest

  -- The last assignments.
  unfoldable pub set_unlocked : Bytes → Managed d (Unit {0})
  set_unlocked passphrase = modify d (λ x. record x {
    locked = false;
    hashed_priv_passphrase = sha512 (x.priv_passphrase_salt ++ passphrase);
    priv_passphrase_salt = salt_after passphrase x.priv_passphrase_salt;
  })

  -- A manager that is locked.
  unfoldable pub unlock_locked : Bytes → Managed d (Unit {0})
  unlock_locked passphrase = do
    derive_master passphrase
    m ← get_manager d
    decrypted_key ← lift (
        wrap_result err_crypto
          (decrypt c m.master_key_priv.key (bytes_of m.crypto_key_priv_encrypted)))
    modify d (λ x. record x { crypto_key_priv = copy_over x.crypto_key_priv decrypted_key })
    unlock_scopes (scopes_of d m.scoped_managers)
    set_unlocked passphrase

  -- A manager that is not.
  unfoldable pub check_passphrase : Bytes → Managed d (Unit {0})
  check_passphrase passphrase = do
    m ← get_manager d
    modify d (λ x. record x { priv_passphrase_salt = salt_after passphrase x.priv_passphrase_salt })
    lift (
        fail_if
          (not (bytes_eq (sha512 (m.priv_passphrase_salt ++ passphrase)) m.hashed_priv_passphrase))
          (manager err_wrong_passphrase))

  -- `Unlock`; the name of a nil bucket is not there to be printed.
  unfoldable pub unlock : Bytes → Managed d (Unit {0})
  unlock passphrase = do
    lift (found_or_panic ns)
    m ← get_manager d
    lift (fail_if m.watching_only (manager err_watching_only))
    locking d (if m.locked then unlock_locked passphrase else check_passphrase passphrase)
