-- ===== src/Tests/Toys.antt =====
-- Simple functions in place of the packages that the manager calls.
use btc_wallet.Base.{
  ℕ, ◌+◌, ◌-◌, ◌==◌, refl, ap, ◌∙◌, some, [], ◌∷◌, ◌++◌, Bool, true, false, none, length,
  length-append, replicate, take, take-append, arith,
}
use btc_wallet.Errors.{library}
use btc_wallet.Go.{Result, ok, err}
use btc_wallet.Go.Bytes.{Bytes}
use btc_wallet.Btcd.{Btcd, BtcdLaws, Btcec}
use btc_wallet.Snacl.{Crypto, SecretKey}
use btc_wallet.Waddrmgr.Manager.{Manager}
use btc_wallet.Snacl.Box.{BoxLaws}
use btc_wallet.Snacl.Derive.{CryptoLaws}
use btc_wallet.Tests.Snacl.{toy, toy_size, toy-CryptoLaws}

-- A key is a number, and a child adds the index to it.
abbrev read_key : Bytes → Result ℕ
read_key (k ∷ []) = ok k
read_key b = err (library 3)

abbrev pub keys : Btcd
keys = record {
  Key = ℕ;
  PublicKey = ℕ;
  Address = Bytes;
  hardened_key_start = 2147483648;
  is_private = λ k. true;
  derive_non_standard = λ k i. ok (k + i);
  neuter = λ k. ok k;
  to_string = λ k. k ∷ [];
  new_key_from_string = read_key;
  invalid_child = 1;
  unusable_seed = 2;
}

pub keys-BtcdLaws : BtcdLaws keys
keys-BtcdLaws = record {
  hardened = refl;
  to_string_size = λ k. omega arith;
  new_key_from_string-to_string = λ k. refl;
}

-- A box is the message with 16 bytes after it.
abbrev pub boxes : Crypto
boxes = record toy {
  seal = λ message nonce key. message ++ replicate 16 0;
  open_box = λ box nonce key. some (take (length box - 16) box);
}

pub boxes-BoxLaws : BoxLaws boxes
boxes-BoxLaws = record {
  open_box-seal = λ message nonce key. ap some (
      ap (λ n. take n (message ++ replicate 16 0))
        (omega (arith, length-append message (replicate 16 0)))
      ∙ take-append message (replicate 16 0));
  seal_size = λ message nonce key. length-append message (replicate 16 0);
}

pub boxes-CryptoLaws : CryptoLaws boxes
boxes-CryptoLaws = record {
  scrypt_size = λ {password} e. toy_size password e;
  sha256_bytes = toy-CryptoLaws.sha256_bytes;
  sha256_size = toy-CryptoLaws.sha256_size;
}

abbrev no_secret : SecretKey
no_secret = record {
  key = replicate 32 0;
  parameters = record { salt = replicate 32 0; digest = replicate 32 0; n = 16; r = 8; p = 1 };
}

-- A manager without scopes, watching only or not, locked or not.
abbrev pub manager_of : Bool → Bool → Manager keys
manager_of watching_only locked = record {
  objects = [];
  scoped_managers = [];
  external_addr_schemas = [];
  internal_addr_schemas = [];
  watching_only = watching_only;
  master_key_pub = no_secret;
  master_key_priv = no_secret;
  crypto_key_pub = replicate 32 1;
  crypto_key_priv = replicate 32 2;
  crypto_key_priv_encrypted = none;
  crypto_key_script = replicate 32 3;
  crypto_key_script_encrypted = none;
  priv_passphrase_salt = replicate 32 4;
  hashed_priv_passphrase = replicate 64 0;
  locked = locked;
  closed = false;
}

-- A private key and a public key are the number of the extended key, and an address is its bytes.
abbrev read_pub_key : Bytes → Result ℕ
read_pub_key (k ∷ []) = ok k
read_pub_key b = err (library 4)

abbrev first_byte : Bytes → ℕ
first_byte [] = 0
first_byte (k ∷ rest) = k

abbrev pub curve : Btcec keys
curve = record {
  PrivateKey = ℕ;
  Signature = ℕ;
  ec_priv_key = λ k. ok k;
  ec_pub_key = λ k. ok k;
  child_index = λ k. k;
  pub_key_of = λ k. k;
  serialize = λ k. k ∷ [];
  priv_key_from_bytes = first_byte;
  is_equal = λ k l. k == l;
  serialize_compressed = λ k. k ∷ [];
  serialize_uncompressed = λ k. 4 ∷ k ∷ [];
  serialize_schnorr = λ k. k ∷ [];
  parse_pub_key = read_pub_key;
  parse_schnorr = read_pub_key;
  compressed_size = 1;
  ecdsa_sign = λ k msg. k;
  schnorr_sign = λ k msg. ok k;
  verify = λ s msg k. s == k;
  hash160 = λ b. b;
  pay_to_addr_script = λ a. ok a;
  compute_taproot_key_no_script = λ k. k;
  new_address_pub_key_hash = λ b. ok b;
  new_address_witness_pub_key_hash = λ b. ok b;
  new_address_script_hash = λ b. ok b;
  new_address_script_hash_from_hash = λ b. ok b;
  new_address_witness_script_hash = λ b. ok b;
  new_address_taproot = λ b. ok b;
  address_string = λ a. a;
  address_script = λ a. a;
  hash_of = λ a. a;
}

-- A read of random bytes.
abbrev pub random : ℕ → ℕ → Result Bytes
random n i = ok (replicate n 6)
