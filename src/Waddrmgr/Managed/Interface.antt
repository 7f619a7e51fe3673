-- ===== src/Waddrmgr/Managed/Interface.antt =====
-- What an address tells of itself: methods of waddrmgr/address_managed.go,
-- waddrmgr/address_script.go and waddrmgr/address_witness.go without an effect, with `TaprootScript`
-- and `ExportPrivKey`.
use btc_wallet.Base.{◌==◌, Bool, true, false, Option, none, some, if◌then◌else◌}
use btc_wallet.Errors.{text}
use btc_wallet.Go.{Result}
use btc_wallet.Go.Bytes.{Bytes}
use btc_wallet.Btcd.{Btcd, Btcec}
use btc_wallet.Snacl.{Crypto}
use btc_wallet.Walletdb.Bolt.{Bolt}
use btc_wallet.Walletdb.Bdb.{◌>>=◌, ◌>>◌, lift, raise}
use btc_wallet.Waddrmgr.Rows
use btc_wallet.Waddrmgr.Rows.{
  AddressType, KeyScope, taproot_pub_key, witness_script, taproot_script,
}
use btc_wallet.Waddrmgr.Manager.{
  DerivationPath, Pointer, ManagedAddress, AddressObject, ScopedKeyManager, managed_address,
  script_address, witness_script_address, taproot_script_address,
}
use btc_wallet.Waddrmgr.Managed.{pub_key_bytes_for}
use btc_wallet.Waddrmgr.Managed.Unlock.{priv_key, script}
use btc_wallet.Waddrmgr.World.{Managed}

module _ (d : Btcd) where
  -- `Imported`, `Internal`, `Compressed` and `AddrType`
  abbrev imported_of : AddressObject d → Bool
  imported_of (managed_address a) = a.imported
  imported_of (script_address a) = true
  imported_of (witness_script_address a) = true
  imported_of (taproot_script_address a key) = true

  abbrev internal_of : AddressObject d → Bool
  internal_of (managed_address a) = a.internal
  internal_of (script_address a) = false
  internal_of (witness_script_address a) = false
  internal_of (taproot_script_address a key) = false

  abbrev compressed_of : AddressObject d → Bool
  compressed_of (managed_address a) = a.compressed
  compressed_of (script_address a) = false
  compressed_of (witness_script_address a) = true
  compressed_of (taproot_script_address a key) = true

  abbrev addr_type_of : AddressObject d → AddressType
  addr_type_of (managed_address a) = a.addr_type
  addr_type_of (script_address a) = Rows.script
  addr_type_of (witness_script_address a) = witness_script
  addr_type_of (taproot_script_address a key) = taproot_script

  -- `DerivationInfo`; there is none for an imported address.
  abbrev derivation_info :
      ScopedKeyManager d → ManagedAddress d → Option (KeyScope × DerivationPath)
  derivation_info s a = if a.imported then none else some (s.scope, a.derivation_path)

  -- `pubKeyBytes`
  abbrev pub_key_bytes : Btcec d → ManagedAddress d → Bytes
  pub_key_bytes e a =
      if a.addr_type == taproot_pub_key
      then e.serialize_schnorr a.pub_key
      else pub_key_bytes_for d e a.pub_key a.compressed

module _ ⦃b : Bolt⦄ (c : Crypto) (d : Btcd) where
  -- `TaprootScript`, whose decoder is not implemented.
  unfoldable pub taproot_script_of : {Tapscript : Type 0} → Pointer → Managed d Tapscript
  taproot_script_of p = do script c d p; raise (text 26)

  -- `ExportPrivKey`, where `new_wif` is `btcutil.NewWIF` on the network of the manager.
  unfoldable pub export_priv_key :
      {Wif : Type 0}
      → (e : Btcec d) → (e.PrivateKey → Bool → Result Wif)
      → Pointer
      → ManagedAddress d
      → Managed d Wif
  export_priv_key e new_wif p a = do pk ← priv_key c d e p a; lift (new_wif pk a.compressed)
