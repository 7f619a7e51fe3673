-- ===== src/Waddrmgr/Managed.antt =====
-- Addresses with their keys (waddrmgr/address_managed.go), and the derivation of an address's key
-- (`deriveKey` of waddrmgr/scoped_manager.go).
pub mod Create
pub mod Unlock
pub mod Secrets
pub mod Scripts
pub mod Interface
use btc_wallet.Base.{
  ℕ, not, ◌==◌, ◌||◌, Bool, true, false, Option, none, some, length, bytes_eq, if◌then◌else◌,
}
use btc_wallet.Errors.{Error, text, err_key_chain}
use btc_wallet.Go.{Result, ok, err, panic, ◌>>=◌, ◌>>◌, fail_if}
use btc_wallet.Go.Bytes.{Bytes}
use btc_wallet.Btcd.{Btcd, Btcec}
use btc_wallet.Waddrmgr.Errors.{wrap_result}
use btc_wallet.Waddrmgr.Rows
use btc_wallet.Waddrmgr.Rows.{AddressType, nested_witness_pub_key, witness_pub_key, taproot_pub_key}
use btc_wallet.Waddrmgr.Manager.{DerivationPath, ManagedAddress, AccountInfo, Manager}
use btc_wallet.Waddrmgr.Store.Params.{bytes_of}
use btc_wallet.Waddrmgr.World.{found_or_panic}

-- `fmt.Errorf` on an error.
abbrev pub text_result {ℓ} : {A : Type ℓ} → ℕ → Result A → Result A
text_result n (ok a) = ok a
text_result n (err e) = err (text n)
text_result n panic = panic

module _ (d : Btcd) where
  -- A key of an account, private or public, which may be nil.
  abbrev pub key_of : AccountInfo d → Bool → Option d.Key
  key_of info private = if private then info.acct_key_priv else info.acct_key_pub

  -- `deriveKey`
  unfoldable pub derive_key : AccountInfo d → ℕ → ℕ → Bool → Result d.Key
  derive_key info branch index private = do
    acct_key ← found_or_panic (key_of info private)
    branch_key ← wrap_result err_key_chain (d.derive_non_standard acct_key branch)
    wrap_result err_key_chain (d.derive_non_standard branch_key index)

module _ (d : Btcd) (e : Btcec d) where
  abbrev pub_key_bytes_for : d.PublicKey → Bool → Bytes
  pub_key_bytes_for key compressed =
      if compressed then e.serialize_compressed key else e.serialize_uncompressed key

  abbrev some_result : Result d.Address → Result (Option d.Address)
  some_result (ok a) = ok (some a)
  some_result (err x) = err x
  some_result panic = panic

  -- The `switch` over the type, which leaves the address nil for the types of scripts.
  unfoldable pub address_of : AddressType → d.PublicKey → Bytes → Result (Option d.Address)
  address_of addr_type key hash =
      if addr_type == nested_witness_pub_key
      then some_result (do
        wit_addr ← e.new_address_witness_pub_key_hash hash
        witness_program ← e.pay_to_addr_script wit_addr
        e.new_address_script_hash witness_program)
      else if addr_type == Rows.pub_key_hash
      then some_result (e.new_address_pub_key_hash hash)
      else if addr_type == witness_pub_key
      then some_result (e.new_address_witness_pub_key_hash hash)
      else if addr_type == taproot_pub_key
      then some_result
          (e.new_address_taproot (e.serialize_schnorr (e.compute_taproot_key_no_script key)))
      else ok none

  -- `newManagedAddressWithoutPrivKey`
  unfoldable pub new_managed_address_without_priv_key :
      DerivationPath → d.PublicKey → Bool → AddressType → Result (ManagedAddress d)
  new_managed_address_without_priv_key path key compressed addr_type = do
    address ← address_of addr_type key (e.hash160 (pub_key_bytes_for key compressed))
    ok (record {
      derivation_path = path;
      address = address;
      imported = false;
      internal = false;
      compressed = compressed;
      addr_type = addr_type;
      pub_key = key;
      priv_key_encrypted = none;
      priv_key_ct = none;
    })

  -- `addr.address.String() != a.address.String()`
  abbrev same_address : Option d.Address → Option d.Address → Result Bool
  same_address x y = do
    a ← found_or_panic x
    b ← found_or_panic y
    ok (bytes_eq (e.address_string a) (e.address_string b))

  -- The second `switch` of `Validate`.
  abbrev signed : AddressType → e.PrivateKey → Bytes → Result e.Signature
  signed addr_type key msg =
      if (addr_type == nested_witness_pub_key)
        || (addr_type == Rows.pub_key_hash)
        || (addr_type == witness_pub_key)
      then ok (e.ecdsa_sign key msg)
      else if addr_type == taproot_pub_key
      then text_result 13 (e.schnorr_sign key msg)
      else err (text 14)

  -- `Validate`
  unfoldable pub validate : ManagedAddress d → Bytes → e.PrivateKey → Result (Unit {0})
  validate a msg priv = do
    let base_pub_key = e.pub_key_of priv
    fail_if (not (e.is_equal a.pub_key base_pub_key)) (text 10)
    addr ←
        text_result 11 (
          new_managed_address_without_priv_key a.derivation_path a.pub_key a.compressed a.addr_type)
    same ← same_address addr.address a.address
    fail_if (not same) (text 12)
    sig ← signed a.addr_type (e.priv_key_from_bytes (bytes_of a.priv_key_ct)) msg
    fail_if (not (e.verify sig msg base_pub_key)) (text 15)

  -- The second check of `newManagedAddress`, where the account's private key is there.
  abbrev rederived_if : Option d.Key → AccountInfo d → ManagedAddress d → Bytes → Result (Unit {0})
  rederived_if none info a msg = ok tt
  rederived_if (some key) info a msg = do
    let path = a.derivation_path
    rederived_key ← text_result 18 (derive_key d info path.branch path.index true)
    fresh_priv_key ← text_result 19 (e.ec_priv_key rederived_key)
    text_result 20 (validate a msg fresh_priv_key)
