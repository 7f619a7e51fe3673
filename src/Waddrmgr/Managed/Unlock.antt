-- ===== src/Waddrmgr/Managed/Unlock.antt =====
-- What addresses keep secret: `PrivKey` and `unlock` of waddrmgr/address_managed.go, `Script` and
-- `unlock` of waddrmgr/address_script.go, and `Script` of waddrmgr/address_witness.go. A method
-- acts on the object behind its pointer.
use btc_wallet.Base.{Bool, true, ◌&&◌, some, length, ◌==◌, if◌then◌else◌}
use btc_wallet.Errors.{manager, err_watching_only, err_locked, err_crypto}
use btc_wallet.Go.{ok, panic, fail_if}
use btc_wallet.Go.Bytes.{Bytes}
use btc_wallet.Btcd.{Btcd, Btcec}
use btc_wallet.Snacl.{Crypto}
use btc_wallet.Snacl.Box.{decrypt}
use btc_wallet.Walletdb.Bolt.{Bolt}
use btc_wallet.Walletdb.Bdb.{Action, ◌>>=◌, ◌>>◌, pure, lift}
use btc_wallet.Waddrmgr.Errors.{wrap_result}
use btc_wallet.Waddrmgr.Manager.{
  Pointer, ManagedAddress, ScriptAddress, WitnessScriptAddress, AddressObject, Manager,
  managed_address, script_address, witness_script_address, taproot_script_address,
}
use btc_wallet.Waddrmgr.Store.Params.{bytes_of}
use btc_wallet.Waddrmgr.World.{Managed, get_manager, get_object, put_object}

module _ (c : Crypto) (d : Btcd) where
  abbrev read_object : {A : Type 0} → Action A A
  read_object a = (ok a, a)

  abbrev assign : {A : Type 0} → (A → A) → Action A (Unit {0})
  assign f a = (ok tt, f a)

  -- `unlock` of an address with a key; the state is the address.
  unfoldable pub unlock_managed : Bytes → Action (ManagedAddress d) Bytes
  unlock_managed key = do
    a ← read_object
    lift (fail_if (length (bytes_of a.priv_key_encrypted) == 0) (manager err_watching_only))
    if length (bytes_of a.priv_key_ct) == 0
        then (do
          priv_key ← lift (wrap_result err_crypto (decrypt c key (bytes_of a.priv_key_encrypted)))
          assign (λ o. record o { priv_key_ct = some priv_key }))
        else pure tt
    a' ← read_object
    pure (bytes_of a'.priv_key_ct)

  -- `unlock` of an address with a script, which decrypts the clear text.
  unfoldable pub unlock_script : Bytes → Action (ScriptAddress d) Bytes
  unlock_script key = do
    a ← read_object
    if length (bytes_of a.script_clear_text) == 0
        then (do
          script ← lift (wrap_result err_crypto (decrypt c key (bytes_of a.script_clear_text)))
          assign (λ o. record o { script_clear_text = some script }))
        else pure tt
    a' ← read_object
    pure (bytes_of a'.script_clear_text)

  unfoldable pub unlock_witness : Bytes → Action (WitnessScriptAddress d) Bytes
  unlock_witness key a = let (r, s) = unlock_script key a.base in (r, record a { base = s })

module _ ⦃b : Bolt⦄ (c : Crypto) (d : Btcd) where
  -- A method on the object behind a pointer: its result, with the object that it leaves.
  abbrev pub on_object :
      {A B : Type 0} → Pointer → (A → AddressObject d) → Action A B → A → Managed d B
  on_object p rebuild f a = do let done = f a; put_object d p (rebuild done.1); lift done.0

  abbrev pub unlocked_manager : Bool → Managed d (Manager d)
  unlocked_manager needed = do
    m ← get_manager d
    lift (fail_if (needed && m.watching_only) (manager err_watching_only))
    lift (fail_if (needed && m.locked) (manager err_locked))
    pure m

  abbrev pub script_key : Bool → Manager d → Bytes
  script_key secret m = if secret then m.crypto_key_script else m.crypto_key_pub

  -- The bytes that `PrivKey` decrypts, for an address with a key.
  unfoldable pub priv_key_of : Pointer → ManagedAddress d → Managed d Bytes
  priv_key_of p a = do
    m ← unlocked_manager true
    on_object p managed_address (unlock_managed c d m.crypto_key_priv) a

  -- `PrivKey`
  unfoldable pub priv_key : (e : Btcec d) → Pointer → ManagedAddress d → Managed d e.PrivateKey
  priv_key e p a = do bytes ← priv_key_of p a; pure (e.priv_key_from_bytes bytes)

  -- `Script` of the three types of addresses with a script; an address with a key has none.
  unfoldable pub script_of : Pointer → AddressObject d → Managed d Bytes
  script_of p (managed_address a) = lift panic
  script_of p (script_address a) = do
    m ← unlocked_manager true
    on_object p script_address (unlock_script c d m.crypto_key_script) a
  script_of p (witness_script_address a) = do
    m ← unlocked_manager a.is_secret_script
    on_object p witness_script_address (unlock_witness c d (script_key a.is_secret_script m)) a
  script_of p (taproot_script_address a key) = do
    m ← unlocked_manager a.is_secret_script
    on_object p (λ o. taproot_script_address o key)
        (unlock_witness c d (script_key a.is_secret_script m)) a

  unfoldable pub script : Pointer → Managed d Bytes
  script p = do o ← get_object d p; script_of p o
