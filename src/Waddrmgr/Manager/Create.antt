-- ===== src/Waddrmgr/Manager/Create.antt =====
-- The creation of the address manager (waddrmgr/manager.go, `Create`). `draw` is what each read of
-- the random number generator returns, `create_date` the clock's Unix time, and `visited` the
-- entries of `ScopeAddrMap` in the order in which the `range` visits them. A time is its Unix
-- seconds, as the 64-bit pattern of an int64.
pub mod Kept
pub mod Stored
pub mod Steps
pub mod Opened
pub mod Unlocked
use btc_wallet.Base.{
  ℕ, ◌+◌, ◌-◌, ◌%◌, ◌^◌, ◌&&◌, not, Bool, true, false, bytes_eq, Option, none, some, List, [], ◌∷◌,
  if◌then◌else◌,
}
use btc_wallet.Errors.{
  Error, manager, wrapped, library, err_key_chain, err_crypto, err_already_exists,
  err_empty_passphrase,
}
use btc_wallet.Go.{Result, ok, err, panic, fail_if}
use btc_wallet.Go.Bytes.{Bytes, codes}
use btc_wallet.Btcd.{Btcd}
use btc_wallet.Snacl.{Crypto, SecretKey, Parameters}
use btc_wallet.Snacl.Box.{encrypt}
use btc_wallet.Snacl.Derive.{new_secret_key}
use btc_wallet.Snacl.Marshal.{marshal}
use btc_wallet.Walletdb.Bolt.{Bolt}
use btc_wallet.Walletdb.Bdb.{Tx, Handle, ◌>>=◌, ◌>>◌, pure, raise, lift, nested_bucket}
use btc_wallet.Waddrmgr.Errors.{wrap_result, convert, convert_result}
use btc_wallet.Waddrmgr.Rows.{KeyScope, ScopeAddrSchema}
use btc_wallet.Waddrmgr.Keys.{
  default_account_name, imported_addr_account_name, default_key_scopes, is_library,
  derive_coin_type_key, derive_account_key, check_branch_keys, imported_addr_account,
}
use btc_wallet.Waddrmgr.Store
use btc_wallet.Waddrmgr.Store.Accounts.{put_default_account_info}
use btc_wallet.Waddrmgr.Store.Namespace.{create_manager_ns, default_account_num}
use btc_wallet.Waddrmgr.Store.Params.{
  put_coin_type_keys, put_master_hd_keys, put_master_key_params, put_crypto_keys, put_watching_only,
  put_birthday,
}

pub record ScryptOptions : Type 0 where
  pub n : ℕ
  pub r : ℕ
  pub p : ℕ

abbrev pub default_scrypt_options : ScryptOptions
default_scrypt_options = record { n = 262144; r = 8; p = 1 }

-- The reads of the random number generator, in the order of the code.
pub data Draw : Type 0 where
  pub_salt crypto_pub_bytes crypto_pub_nonce : Draw
  priv_salt passphrase_salt crypto_priv_bytes crypto_script_bytes : Draw
  crypto_priv_nonce crypto_script_nonce : Draw
  coin_type_pub_nonce coin_type_priv_nonce acct_pub_nonce acct_priv_nonce : KeyScope → Draw
  root_priv_nonce root_pub_nonce : Draw

-- `managerExists`
module _ ⦃b : Bolt⦄ where
  abbrev is_found : Handle → Bool
  is_found none = false
  is_found (some p) = true

  unfoldable pub manager_exists : Handle → Tx Bool
  manager_exists none = pure false
  manager_exists (some p) = do
    main_bucket ← nested_bucket (some p) Store.Name.main
    pure (is_found main_bucket)

-- `if err == hdkeychain.ErrInvalidChild { … }`, where the seed is what is wrong.
abbrev unusable : Btcd → Error → Error
unusable d e =
    if is_library d.invalid_child e then wrapped err_key_chain (library d.unusable_seed) else e

abbrev unless_unusable {ℓ} : {A : Type ℓ} → Btcd → Result A → Result A
unless_unusable d (ok a) = ok a
unless_unusable d (err e) = err (unusable d e)
unless_unusable d panic = panic

-- `newSecretKey`: the new key, or the error.
abbrev only_key : SecretKey → Result (Unit {0}) → Result SecretKey
only_key sk (ok u) = ok sk
only_key sk (err e) = err e
only_key sk panic = panic

abbrev no_key : SecretKey
no_key = record { key = []; parameters = record { salt = []; digest = []; n = 0; r = 0; p = 0 } }

unfoldable pub secret_key : Crypto → Result Bytes → Bytes → ScryptOptions → Result SecretKey
secret_key c random passphrase config =
    let (r, sk) = new_secret_key c random passphrase config.n config.r config.p no_key in
    only_key sk r

-- `defaultNewCryptoKey`, which passes on `snacl.GenerateCryptoKey`.
abbrev pub new_crypto_key : Result Bytes → Result Bytes
new_crypto_key random = random

abbrev pub or_default : Option ScryptOptions → ScryptOptions
or_default none = default_scrypt_options
or_default (some config) = config

abbrev pub is_nil {ℓ} : {A : Type ℓ} → Option A → Bool
is_nil none = true
is_nil (some a) = false

-- `birthday.Add(-48 * time.Hour)`
abbrev pub two_days_before : ℕ → ℕ
two_days_before unix = (unix + (2 ^ 64 - 172800)) % 2 ^ 64

-- What is stored under the private key: the key's parameters and the two encrypted crypto keys.
abbrev pub PrivateKeys : Type 0
PrivateKeys = Option Bytes × Option Bytes × Option Bytes

module _ ⦃b : Bolt⦄ where
  -- The last writes.
  unfoldable pub store_keys : Handle → Bytes → Bytes → PrivateKeys → Bool → ℕ → Tx (Unit {0})
  store_keys ns pub_params crypto_key_pub_enc keys watching_only birthday = do
    convert (put_master_key_params ns (some pub_params) keys.0)
    convert (put_crypto_keys ns (some crypto_key_pub_enc) keys.1 keys.2)
    convert (put_watching_only ns watching_only)
    put_birthday ns (two_days_before birthday)

module _ ⦃b : Bolt⦄ (c : Crypto) (d : Btcd) (draw : Draw → Result Bytes) where
  -- `Encrypt([]byte(key.String()))`, with its error.
  abbrev pub sealed : Draw → Bytes → d.Key → Result Bytes
  sealed nonce crypto_key key = encrypt c (draw nonce) crypto_key (d.to_string key)

  abbrev key_sealed : Draw → Bytes → d.Key → Tx Bytes
  key_sealed nonce crypto_key key = lift (wrap_result err_crypto (sealed nonce crypto_key key))

  unfoldable pub create_manager_key_scope :
      Handle → KeyScope → d.Key → Bytes → Bytes → Tx (Unit {0})
  create_manager_key_scope ns scope root crypto_key_pub crypto_key_priv = do
    coin_type_key_priv ← lift (wrap_result err_key_chain (derive_coin_type_key d root scope))
    acct_key_priv ← lift (unless_unusable d (derive_account_key d coin_type_key_priv 0))
    lift (unless_unusable d (check_branch_keys d acct_key_priv))
    acct_key_pub ← lift (wrap_result err_key_chain (d.neuter acct_key_priv))
    coin_type_key_pub ← lift (wrap_result err_key_chain (d.neuter coin_type_key_priv))
    coin_type_pub_enc ← key_sealed (coin_type_pub_nonce scope) crypto_key_pub coin_type_key_pub
    coin_type_priv_enc ← key_sealed (coin_type_priv_nonce scope) crypto_key_priv coin_type_key_priv
    acct_pub_enc ← key_sealed (acct_pub_nonce scope) crypto_key_pub acct_key_pub
    acct_priv_enc ← key_sealed (acct_priv_nonce scope) crypto_key_priv acct_key_priv
    put_coin_type_keys ns scope (some coin_type_pub_enc) (some coin_type_priv_enc)
    put_default_account_info ns scope default_account_num acct_pub_enc acct_priv_enc 0 0
        default_account_name
    put_default_account_info ns scope (imported_addr_account d) [] [] 0 0 imported_addr_account_name

  -- The body of the `range` over the default scopes, once for each of them.
  unfoldable pub create_key_scopes : Handle → List KeyScope → d.Key → Bytes → Bytes → Tx (Unit {0})
  create_key_scopes ns [] root crypto_key_pub crypto_key_priv = pure tt
  create_key_scopes ns (scope ∷ rest) root crypto_key_pub crypto_key_priv = do
    convert (create_manager_key_scope ns scope root crypto_key_pub crypto_key_priv)
    create_key_scopes ns rest root crypto_key_pub crypto_key_priv

  -- The scopes and the root key, from `rootKey.Neuter` on.
  unfoldable pub create_root :
      Handle → d.Key → Bytes → SecretKey → Bytes → Bytes → Bytes → Tx PrivateKeys
  create_root ns root_key crypto_key_pub master_key_priv crypto_key_priv crypto_key_priv_enc
        crypto_key_script_enc =
      do
        root_pub_key ← lift (wrap_result err_key_chain (d.neuter root_key))
        create_key_scopes ns default_key_scopes root_key crypto_key_pub crypto_key_priv
        master_hd_priv_enc ← lift (convert_result (sealed root_priv_nonce crypto_key_priv root_key))
        master_hd_pub_enc ←
            lift (convert_result (sealed root_pub_nonce crypto_key_pub root_pub_key))
        convert (put_master_hd_keys ns (some master_hd_priv_enc) (some master_hd_pub_enc))
        priv_params ← lift (marshal master_key_priv)
        pure (some priv_params, some crypto_key_priv_enc, some crypto_key_script_enc)

  -- `if !isWatchingOnly { … }`: nothing for a nil root key.
  unfoldable pub create_private :
      Handle → Option d.Key → Bytes → Bytes → ScryptOptions → Tx PrivateKeys
  create_private ns none crypto_key_pub priv_passphrase config = pure (none, none, none)
  create_private ns (some root_key) crypto_key_pub priv_passphrase config = do
    master_key_priv ←
        lift (wrap_result err_crypto (secret_key c (draw priv_salt) priv_passphrase config))
    salt ← lift (wrap_result err_crypto (draw passphrase_salt))
    crypto_key_priv ← lift (wrap_result err_crypto (new_crypto_key (draw crypto_priv_bytes)))
    crypto_key_script ← lift (wrap_result err_crypto (new_crypto_key (draw crypto_script_bytes)))
    crypto_key_priv_enc ← lift (
        wrap_result err_crypto
          (encrypt c (draw crypto_priv_nonce) master_key_priv.key crypto_key_priv))
    crypto_key_script_enc ← lift (
        wrap_result err_crypto
          (encrypt c (draw crypto_script_nonce) master_key_priv.key crypto_key_script))
    create_root ns root_key crypto_key_pub master_key_priv crypto_key_priv crypto_key_priv_enc
        crypto_key_script_enc

  unfoldable pub create :
      ℕ
      → List (KeyScope × ScopeAddrSchema)
      → Handle
      → Option d.Key
      → Bytes
      → Bytes
      → Option ScryptOptions
      → ℕ
      → Tx (Unit {0})
  create create_date visited ns root_key pub_passphrase priv_passphrase config birthday = do
    let is_watching_only = is_nil root_key
    exists ← manager_exists ns
    lift (fail_if exists (manager err_already_exists))
    lift (
        fail_if (not is_watching_only && bytes_eq priv_passphrase [])
          (manager err_empty_passphrase))
    convert (create_manager_ns create_date ns (if is_watching_only then [] else visited))
    let options = or_default config
    master_key_pub ←
        lift (wrap_result err_crypto (secret_key c (draw pub_salt) pub_passphrase options))
    crypto_key_pub ← lift (wrap_result err_crypto (new_crypto_key (draw crypto_pub_bytes)))
    crypto_key_pub_enc ← lift (
        wrap_result err_crypto
          (encrypt c (draw crypto_pub_nonce) master_key_pub.key crypto_key_pub))
    pub_params ← lift (marshal master_key_pub)
    keys ← create_private ns root_key crypto_key_pub priv_passphrase options
    store_keys ns pub_params crypto_key_pub_enc keys is_watching_only birthday
