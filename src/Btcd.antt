-- ===== src/Btcd.antt =====
-- The packages of github.com/btcsuite/btcd that the address manager calls, as a parameter: extended
-- keys (btcutil/hdkeychain), elliptic curve keys (btcec) and addresses (btcutil). An error value of
-- these packages is the `library` error of its number.
use btc_wallet.Base.{ℕ, ◌≡◌, ◌≤◌, ◌^◌, Bool, length}
use btc_wallet.Go.{Result, ok}
use btc_wallet.Go.Bytes.{Bytes}

pub record Btcd : Type 1 where
  -- `hdkeychain.ExtendedKey`
  pub Key : Type 0
  -- `btcec.PublicKey` and `btcutil.Address`
  pub PublicKey : Type 0
  pub Address : Type 0
  -- `hdkeychain.HardenedKeyStart`
  pub hardened_key_start : ℕ
  pub is_private : Key → Bool
  pub derive_non_standard : Key → ℕ → Result Key
  pub neuter : Key → Result Key
  -- `ExtendedKey.String` and `hdkeychain.NewKeyFromString`
  pub to_string : Key → Bytes
  pub new_key_from_string : Bytes → Result Key
  -- The numbers of `hdkeychain.ErrInvalidChild` and `hdkeychain.ErrUnusableSeed`.
  pub invalid_child : ℕ
  pub unusable_seed : ℕ

-- What the package documents: hardened children start at 2^31, and a key's string is short and is
-- read back as the key.
pub record BtcdLaws (d : Btcd) : Type 0 where
  pub hardened : d.hardened_key_start ≡ 2 ^ 31
  pub to_string_size : (k : d.Key) → length (d.to_string k) ≤ 112
  pub new_key_from_string-to_string : (k : d.Key) → d.new_key_from_string (d.to_string k) ≡ ok k

-- Elliptic curve keys, signatures and addresses (btcec, btcutil, txscript).
pub record Btcec (d : Btcd) : Type 1 where
  -- `btcec.PrivateKey` and the interface `signature`
  pub PrivateKey : Type 0
  pub Signature : Type 0
  -- Of an extended key: `ECPrivKey`, `ECPubKey` and `ChildIndex`.
  pub ec_priv_key : d.Key → Result PrivateKey
  pub ec_pub_key : d.Key → Result d.PublicKey
  pub child_index : d.Key → ℕ
  -- `PrivateKey.PubKey`, `Serialize` and `PrivKeyFromBytes`
  pub pub_key_of : PrivateKey → d.PublicKey
  pub serialize : PrivateKey → Bytes
  pub priv_key_from_bytes : Bytes → PrivateKey
  -- `PublicKey.IsEqual`, its serializations, `ParsePubKey`, and those of schnorr
  pub is_equal : d.PublicKey → d.PublicKey → Bool
  pub serialize_compressed : d.PublicKey → Bytes
  pub serialize_uncompressed : d.PublicKey → Bytes
  pub serialize_schnorr : d.PublicKey → Bytes
  pub parse_pub_key : Bytes → Result d.PublicKey
  pub parse_schnorr : Bytes → Result d.PublicKey
  pub compressed_size : ℕ
  -- `ecdsa.Sign`, `schnorr.Sign` and `Verify`
  pub ecdsa_sign : PrivateKey → Bytes → Signature
  pub schnorr_sign : PrivateKey → Bytes → Result Signature
  pub verify : Signature → Bytes → d.PublicKey → Bool
  -- `Hash160`, `PayToAddrScript` and `ComputeTaprootKeyNoScript`
  pub hash160 : Bytes → Bytes
  pub pay_to_addr_script : d.Address → Result Bytes
  pub compute_taproot_key_no_script : d.PublicKey → d.PublicKey
  -- The constructors of addresses on the program's network
  pub new_address_pub_key_hash : Bytes → Result d.Address
  pub new_address_witness_pub_key_hash : Bytes → Result d.Address
  pub new_address_script_hash : Bytes → Result d.Address
  pub new_address_script_hash_from_hash : Bytes → Result d.Address
  pub new_address_witness_script_hash : Bytes → Result d.Address
  pub new_address_taproot : Bytes → Result d.Address
  -- `String`, `ScriptAddress` and `Hash160` of an address
  pub address_string : d.Address → Bytes
  pub address_script : d.Address → Bytes
  pub hash_of : d.Address → Bytes
