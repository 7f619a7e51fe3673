-- ===== src/Waddrmgr/Managed/Create.antt =====
-- New addresses from keys and from what is stored: `newManagedAddress` and
-- `newManagedAddressFromExtKey` (waddrmgr/address_managed.go), `newScriptAddress`
-- (waddrmgr/address_script.go) and `newWitnessScriptAddress` (waddrmgr/address_witness.go).
use btc_wallet.Base.{ℕ, Bool, true, none, some, ◌==◌, if◌then◌else◌}
use btc_wallet.Errors.{text, err_crypto}
use btc_wallet.Go.{Result}
use btc_wallet.Go.Bytes.{Bytes}
use btc_wallet.Btcd.{Btcd, Btcec}
use btc_wallet.Snacl.{Crypto}
use btc_wallet.Walletdb.Bolt.{Bolt}
use btc_wallet.Walletdb.Bdb.{◌>>=◌, ◌>>◌, pure, raise, lift}
use btc_wallet.Waddrmgr.Errors.{wrap}
use btc_wallet.Waddrmgr.Rows.{AddressType}
use btc_wallet.Waddrmgr.Manager.{
  DerivationPath, ManagedAddress, AddressObject, AccountInfo, script_address,
  witness_script_address, taproot_script_address,
}
use btc_wallet.Waddrmgr.Managed.{
  text_result, new_managed_address_without_priv_key, validate, rederived_if,
}
use btc_wallet.Waddrmgr.World.{Managed, get_manager, sealed, read_random}

abbrev pub witness_version_v0 : ℕ
witness_version_v0 = 0

abbrev pub witness_version_v1 : ℕ
witness_version_v1 = 1

module _ ⦃b : Bolt⦄ (d : Btcd) (e : Btcec d) where
  abbrev pub text_error : {A : Type 0} → ℕ → Managed d A → Managed d A
  text_error n m w = let (r, w') = m w in (text_result n r, w')

  module _ (c : Crypto) (random : ℕ → ℕ → Result Bytes) where
    -- `newManagedAddress`, whose callers pass the account.
    unfoldable pub new_managed_address :
        DerivationPath → e.PrivateKey → AddressType → AccountInfo d → Managed d (ManagedAddress d)
    new_managed_address path priv_key addr_type info = do
      m ← get_manager d
      priv_key_encrypted ←
          wrap err_crypto (sealed d c random m.crypto_key_priv (e.serialize priv_key))
      pub_addr ←
          lift
            (new_managed_address_without_priv_key d e path (e.pub_key_of priv_key) true addr_type)
      let managed_addr : ManagedAddress d = record pub_addr {
        priv_key_encrypted = some priv_key_encrypted;
        priv_key_ct = some (e.serialize priv_key);
      }
      msg ← text_error 16 (read_random d random 32)
      lift (text_result 17 (validate d e managed_addr msg priv_key))
      lift (rederived_if d e info.acct_key_priv info managed_addr msg)
      pure managed_addr

    -- `newManagedAddressFromExtKey`
    unfoldable pub new_managed_address_from_ext_key :
        DerivationPath → d.Key → AddressType → AccountInfo d → Managed d (ManagedAddress d)
    new_managed_address_from_ext_key path key addr_type info =
        if d.is_private key
        then (do
          priv_key ← lift (e.ec_priv_key key)
          new_managed_address path priv_key addr_type info)
        else (do
          pub_key ← lift (e.ec_pub_key key)
          lift (new_managed_address_without_priv_key d e path pub_key true addr_type))

  -- `newScriptAddress`
  unfoldable pub new_script_address : ℕ → Bytes → Bytes → Managed d (AddressObject d)
  new_script_address account script_hash script_encrypted = do
    address ← lift (e.new_address_script_hash_from_hash script_hash)
    pure (
        script_address (record {
          account = account;
          address = address;
          script_encrypted = some script_encrypted;
          script_clear_text = none;
        }))

  -- `newWitnessScriptAddress`
  unfoldable pub new_witness_script_address :
      ℕ → Bytes → Bytes → ℕ → Bool → Managed d (AddressObject d)
  new_witness_script_address account script_ident script_encrypted witness_version
        is_secret_script =
      if witness_version == witness_version_v0
      then (do
        address ← lift (e.new_address_witness_script_hash script_ident)
        pure (
            witness_script_address (record {
              base = record {
                account = account;
                address = address;
                script_encrypted = some script_encrypted;
                script_clear_text = none;
              };
              witness_version = witness_version;
              is_secret_script = is_secret_script;
            })))
      else if witness_version == witness_version_v1
      then (do
        address ← lift (e.new_address_taproot script_ident)
        tweaked_pub_key ← lift (text_result 21 (e.parse_schnorr script_ident))
        pure (
            taproot_script_address
              (record {
                base = record {
                  account = account;
                  address = address;
                  script_encrypted = some script_encrypted;
                  script_clear_text = none;
                };
                witness_version = witness_version;
                is_secret_script = is_secret_script;
              })
              tweaked_pub_key))
      else raise (text 22)
