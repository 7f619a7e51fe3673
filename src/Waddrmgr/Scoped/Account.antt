-- ===== src/Waddrmgr/Scoped/Account.antt =====
-- An account in memory, made from its row: the closure `decryptKey` and the `switch` of
-- `loadAccountInfo`, and `accountAddrType` (waddrmgr/scoped_manager.go).
use btc_wallet.Base.{◌&&◌, not, Bool, true, false, Option, none, some, if◌then◌else◌}
use btc_wallet.Errors.{err_crypto}
use btc_wallet.Go.{Result, ok, err, panic, ◌>>=◌}
use btc_wallet.Go.Bytes.{Bytes}
use btc_wallet.Btcd.{Btcd}
use btc_wallet.Snacl.{Crypto}
use btc_wallet.Snacl.Box.{decrypt}
use btc_wallet.Waddrmgr.Errors.{wrap_result}
use btc_wallet.Waddrmgr.Rows.{AddressType, ScopeAddrSchema}
use btc_wallet.Waddrmgr.Manager.{AccountInfo, ScopedKeyManager, Manager}
use btc_wallet.Waddrmgr.Store.Accounts.{RowInterface, default_row, watch_only_row}

module _ (d : Btcd) where
  abbrev schema_or : Option ScopeAddrSchema → ScopeAddrSchema → ScopeAddrSchema
  schema_or none schema = schema
  schema_or (some own) schema = own

  -- `accountAddrType`
  abbrev pub account_addr_type : ScopedKeyManager d → AccountInfo d → Bool → AddressType
  account_addr_type s info internal =
      let schema = schema_or info.addr_schema s.addr_schema in
      if internal then schema.internal_addr_type else schema.external_addr_type

  abbrev pub has_private_key : Manager d → Bool
  has_private_key m = not m.locked && not m.watching_only

  module _ (c : Crypto) where
    -- `decryptKey`
    unfoldable pub decrypt_key : Bytes → Bytes → Result d.Key
    decrypt_key crypto_key encrypted_key = do
      serialized_key ← decrypt c crypto_key encrypted_key
      d.new_key_from_string serialized_key

    -- The error of decrypting a private key is not looked at; the key is then nil.
    abbrev pub key_or_nil : Result d.Key → Result (Option d.Key)
    key_or_nil (ok k) = ok (some k)
    key_or_nil (err e) = ok none
    key_or_nil panic = panic

    abbrev pub private_key_if : Bool → Bytes → Bytes → Result (Option d.Key)
    private_key_if true crypto_key encrypted = key_or_nil (decrypt_key crypto_key encrypted)
    private_key_if false crypto_key encrypted = ok none

    -- The account, and whether its private key is used.
    unfoldable pub account_of : Manager d → RowInterface → Result (AccountInfo d × Bool)
    account_of m (default_row row) = do
      acct_key_pub ← wrap_result err_crypto (decrypt_key m.crypto_key_pub row.pub_key_encrypted)
      acct_key_priv ← private_key_if (has_private_key m) m.crypto_key_priv row.priv_key_encrypted
      ok (
        record {
          acct_name = row.name;
          acct_type = row.row.acct_type;
          acct_key_encrypted = some row.priv_key_encrypted;
          acct_key_priv = acct_key_priv;
          acct_key_pub = some acct_key_pub;
          next_external_index = row.next_external_index;
          last_external_addr = none;
          next_internal_index = row.next_internal_index;
          last_internal_addr = none;
          addr_schema = none;
          master_key_fingerprint = 0;
        },
        has_private_key m,
      )
    account_of m (watch_only_row row) = do
      acct_key_pub ← wrap_result err_crypto (decrypt_key m.crypto_key_pub row.pub_key_encrypted)
      ok (
        record {
          acct_name = row.name;
          acct_type = row.row.acct_type;
          acct_key_encrypted = none;
          acct_key_priv = none;
          acct_key_pub = some acct_key_pub;
          next_external_index = row.next_external_index;
          last_external_addr = none;
          next_internal_index = row.next_internal_index;
          last_internal_addr = none;
          addr_schema = row.addr_schema;
          master_key_fingerprint = row.master_key_fingerprint;
        },
        false,
      )
