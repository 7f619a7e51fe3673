-- ===== src/Waddrmgr/Scoped/Close.antt =====
-- `Close` of a scope, with `zeroSensitivePublicData` (waddrmgr/scoped_manager.go).
use btc_wallet.Base.{ℕ, Option, none, some, List, [], ◌∷◌}
use btc_wallet.Go.{Result, ok, err, panic}
use btc_wallet.Btcd.{Btcd}
use btc_wallet.Walletdb.Bolt.{Bolt}
use btc_wallet.Walletdb.Bdb.{◌>>=◌, lift}
use btc_wallet.Waddrmgr.Rows.{KeyScope}
use btc_wallet.Waddrmgr.Manager.{AccountInfo}
use btc_wallet.Waddrmgr.World.{Managed, get_scoped, put_scoped}

module _ (d : Btcd) where
  -- A public key that is nil already panics.
  abbrev zeroed :
      Option d.Key
      → ℕ
      → AccountInfo d
      → Result (List (ℕ × AccountInfo d))
      → Result (List (ℕ × AccountInfo d))
  zeroed none account info rest = panic
  zeroed (some key) account info (ok rest) =
      ok ((account, record info { acct_key_pub = none }) ∷ rest)
  zeroed (some key) account info (err e) = err e
  zeroed (some key) account info panic = panic

  unfoldable pub zero_sensitive_public_data :
      List (ℕ × AccountInfo d) → Result (List (ℕ × AccountInfo d))
  zero_sensitive_public_data [] = ok []
  zero_sensitive_public_data ((account, info) ∷ rest) =
      zeroed info.acct_key_pub account info (zero_sensitive_public_data rest)

module _ ⦃b : Bolt⦄ (d : Btcd) where
  -- `Close`
  unfoldable pub close_scope : KeyScope → Managed d (Unit {0})
  close_scope scope = do
    s ← get_scoped d scope
    acct_info ← lift (zero_sensitive_public_data d s.acct_info)
    put_scoped d scope (record s { acct_info = acct_info })
