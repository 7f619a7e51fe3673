-- ===== src/Waddrmgr/Scoped.antt =====
-- The accounts of a scope (waddrmgr/scoped_manager.go): `NewAccount`, `NewRawAccount`, `newAccount`,
-- `LookupAccount` and `MarkUsed`. The random bytes of each encryption are an argument.
pub mod Accounts
pub mod Account
pub mod Load
pub mod Next
pub mod Properties
pub mod Close
pub mod Created
pub mod Refines
use btc_wallet.Base.{ℕ, ◌+◌, Option, some, Bool, List, [], ◌∷◌, ◌++◌, bytes_eq, not, if◌then◌else◌}
use btc_wallet.Errors.{
  Error, manager, err_watching_only, err_locked, err_duplicate_account, err_key_chain, err_crypto,
}
use btc_wallet.Go.{Result, ok, err, panic, fail_if}
use btc_wallet.Go.Bytes.{Bytes, u32, codes}
use btc_wallet.Btcd.{Btcd}
use btc_wallet.Snacl.{Crypto}
use btc_wallet.Snacl.Box.{encrypt, decrypt}
use btc_wallet.Walletdb.Bolt.{Bolt}
use btc_wallet.Walletdb.Bdb.{Action, Tx, Handle, ◌>>=◌, ◌>>◌, pure, lift}
use btc_wallet.Waddrmgr.Errors.{wrap_result, convert}
use btc_wallet.Waddrmgr.Rows.{KeyScope}
use btc_wallet.Waddrmgr.Keys.{derive_account_key, validate_account_name}
use btc_wallet.Waddrmgr.Manager.{Manager, ScopedKeyManager, Pointer}
use btc_wallet.Waddrmgr.Store.Accounts.{
  fetch_account_by_name, fetch_last_account, put_default_account_info, put_last_account,
}
use btc_wallet.Waddrmgr.Store.Addresses.{mark_address_used}
use btc_wallet.Waddrmgr.Store.Params.{fetch_coin_type_keys}

-- `if err == nil { return e }`, where the error of the call is otherwise dropped.
abbrev pub refused {ℓ} : {A : Type ℓ} → Error → Result A → Result (Unit {0})
refused e (ok a) = err e
refused e (err x) = ok tt
refused e panic = panic

abbrev pub refuse_found {ℓ} : {S : Type 0} {A : Type ℓ} → Error → Action S A → Action S (Unit {0})
refuse_found e m s = let (r, s') = m s in (refused e r, s')

module _ ⦃b : Bolt⦄ where
  -- `LookupAccount` and `lookupAccount`
  unfoldable pub lookup_account : Handle → KeyScope → Bytes → Tx ℕ
  lookup_account ns scope name = fetch_account_by_name ns scope name

  -- What the method does to `addrs`.
  abbrev without : Bytes → List (Bytes × Pointer) → List (Bytes × Pointer)
  without key [] = []
  without key ((k, p) ∷ rest) =
      let kept = without key rest in if bytes_eq k key then kept else (k, p) ∷ kept

  -- `MarkUsed`, for the script address of the argument; the manager afterwards is the value.
  unfoldable pub mark_used :
      {d : Btcd} → (Bytes → Bytes) → Handle → ScopedKeyManager d → Bytes → Tx (ScopedKeyManager d)
  mark_used sha256 ns s address_id = do
    convert (mark_address_used sha256 ns s.scope address_id)
    pure (record s { addrs = without address_id s.addrs })

module _ ⦃b : Bolt⦄ (c : Crypto) (d : Btcd) (m : Manager d) (pub_nonce priv_nonce : Result Bytes)
    (ns : Handle) (scope : KeyScope) where
  unfoldable pub new_account : ℕ → Bytes → Tx (Unit {0})
  new_account account name = do
    lift (validate_account_name name)
    refuse_found (manager err_duplicate_account) (lookup_account ns scope name)
    keys ← fetch_coin_type_keys ns scope
    serialized_key_priv ← lift (wrap_result err_locked (decrypt c m.crypto_key_priv keys.1))
    coin_type_key_priv ←
        lift (wrap_result err_key_chain (d.new_key_from_string serialized_key_priv))
    acct_key_priv ←
        lift (wrap_result err_key_chain (derive_account_key d coin_type_key_priv account))
    acct_key_pub ← lift (wrap_result err_key_chain (d.neuter acct_key_priv))
    acct_pub_enc ←
        lift
          (wrap_result err_crypto (encrypt c pub_nonce m.crypto_key_pub (d.to_string acct_key_pub)))
    acct_priv_enc ← lift (
        wrap_result err_crypto (encrypt c priv_nonce m.crypto_key_priv (d.to_string acct_key_priv)))
    put_default_account_info ns scope account acct_pub_enc acct_priv_enc 0 0 name
    put_last_account ns scope account

  -- `NewAccount`
  unfoldable pub next_account : Bytes → Tx ℕ
  next_account name = do
    lift (fail_if m.watching_only (manager err_watching_only))
    lift (fail_if m.locked (manager err_locked))
    last ← fetch_last_account ns scope
    let account = u32 (last + 1)
    new_account account name
    pure account

  -- `NewRawAccount`; `decimal` is how fmt prints a uint32.
  unfoldable pub new_raw_account : (ℕ → Bytes) → ℕ → Tx (Unit {0})
  new_raw_account decimal number = do
    lift (fail_if m.watching_only (manager err_watching_only))
    lift (fail_if m.locked (manager err_locked))
    new_account number (codes "act:" ++ decimal number)
