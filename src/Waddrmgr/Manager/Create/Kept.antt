-- ===== src/Waddrmgr/Manager/Create/Kept.antt =====
-- The entries of the manager's fixed buckets that the creation of scopes and accounts, and each later
-- step of `Create`, leave as they were.
use btc_wallet.Base.{◌≢◌, Option, none, some, List, [], ◌∷◌}
use btc_wallet.Errors.{err_key_chain, err_crypto}
use btc_wallet.Go.{Result}
use btc_wallet.Go.Bytes.{Bytes}
use btc_wallet.Btcd.{Btcd}
use btc_wallet.Snacl.{Crypto, SecretKey}
use btc_wallet.Snacl.Box.{encrypt}
use btc_wallet.Snacl.Marshal.{marshal}
use btc_wallet.Walletdb.Bolt.{Bolt, BoltLaws, BucketPath}
use btc_wallet.Walletdb.Bdb.{Tx, ◌>>=◌}
use btc_wallet.Waddrmgr.Errors.{wrap_result, convert_result}
use btc_wallet.Waddrmgr.Rows.{KeyScope}
use btc_wallet.Waddrmgr.Keys.{
  default_key_scopes, derive_coin_type_key, derive_account_key, check_branch_keys,
}
use btc_wallet.Waddrmgr.Manager.Create.{
  Draw, coin_type_pub_nonce, coin_type_priv_nonce, priv_salt, passphrase_salt, crypto_priv_bytes,
  crypto_script_bytes, crypto_priv_nonce, crypto_script_nonce, root_priv_nonce, root_pub_nonce,
  secret_key, new_crypto_key, create_root, acct_pub_nonce, acct_priv_nonce, unless_unusable, sealed,
  key_sealed, ScryptOptions, create_manager_key_scope, create_key_scopes, create_private,
}
use btc_wallet.Waddrmgr.Store
use btc_wallet.Walletdb.Keeps.{Keeps, Any, Keeps-pure, Keeps-bind, Keeps-lift_then}
use btc_wallet.Waddrmgr.Store.Keeps.{Has, Keeps-convert}
use btc_wallet.Waddrmgr.Store.Params.Kept.{
  Keeps-put_default_account_info, Keeps-put_coin_type_keys, Keeps-put_master_hd_keys,
}

module _ ⦃b : Bolt⦄ (laws : BoltLaws b) (ns : BucketPath) (name j : Bytes) (v : Option Bytes) where
  abbrev Entry : b.Tree → Type 0
  Entry = Has (name ∷ ns) j v

  module _ (c : Crypto) (d : Btcd) (draw : Draw → Result Bytes) where
    Keeps-key_sealed :
        (nonce : Draw) (crypto_key : Bytes) (key : d.Key) {f : Bytes → Tx (Unit {0})}
        → ((enc : Bytes) → Keeps Entry (f enc) Any)
        → Keeps Entry (key_sealed c d draw nonce crypto_key key >>= f) Any
    Keeps-key_sealed nonce crypto_key key k =
        Keeps-lift_then (wrap_result err_crypto (sealed c d draw nonce crypto_key key)) _ k

    Keeps-create_manager_key_scope :
        (scope : KeyScope) (root : d.Key) (crypto_pub crypto_priv : Bytes)
        → Keeps Entry
            (create_manager_key_scope c d draw (some ns) scope root crypto_pub crypto_priv)
            Any
    unfolding create_manager_key_scope
    Keeps-create_manager_key_scope scope root crypto_pub crypto_priv =
        Keeps-lift_then (wrap_result err_key_chain (derive_coin_type_key d root scope)) _ λ coin.
          Keeps-lift_then (unless_unusable d (derive_account_key d coin 0)) _ λ acct.
            Keeps-lift_then (unless_unusable d (check_branch_keys d acct)) _ λ _.
              Keeps-lift_then (wrap_result err_key_chain (d.neuter acct)) _ λ acct_pub.
                Keeps-lift_then (wrap_result err_key_chain (d.neuter coin)) _ λ coin_pub.
                  Keeps-key_sealed (coin_type_pub_nonce scope) crypto_pub coin_pub λ _.
                    Keeps-key_sealed (coin_type_priv_nonce scope) crypto_priv coin λ _.
                      Keeps-key_sealed (acct_pub_nonce scope) crypto_pub acct_pub λ _.
                        Keeps-key_sealed (acct_priv_nonce scope) crypto_priv acct λ _.
                          Keeps-bind _ _ (Keeps-put_coin_type_keys laws ns name j v scope _ _)
                            λ _ _.
                              Keeps-bind _ _
                                (Keeps-put_default_account_info laws ns name j v scope _ _ _ _ _ _)
                                λ _ _.
                                  Keeps-put_default_account_info laws ns name j v scope _ _ _ _ _ _

    Keeps-create_key_scopes :
        (scopes : List KeyScope) (root : d.Key) (crypto_pub crypto_priv : Bytes)
        → Keeps Entry (create_key_scopes c d draw (some ns) scopes root crypto_pub crypto_priv) Any
    unfolding create_key_scopes
    Keeps-create_key_scopes [] root crypto_pub crypto_priv = Keeps-pure _ tt
    Keeps-create_key_scopes (scope ∷ rest) root crypto_pub crypto_priv =
        Keeps-bind _ _
          (Keeps-convert _ (Keeps-create_manager_key_scope scope root crypto_pub crypto_priv))
          λ _ _. Keeps-create_key_scopes rest root crypto_pub crypto_priv

    Keeps-root :
        (root : d.Key) (crypto_pub : Bytes) (sk : SecretKey) (kp pe se : Bytes)
        → Store.Name.master_hd_priv ≢ j
        → Store.Name.master_hd_pub ≢ j
        → Keeps Entry (create_root c d draw (some ns) root crypto_pub sk kp pe se) Any
    unfolding create_root
    Keeps-root root crypto_pub sk kp pe se n1 n2 =
        Keeps-lift_then (wrap_result err_key_chain (d.neuter root)) _ λ root_pub.
          Keeps-bind _ _ (Keeps-create_key_scopes default_key_scopes root crypto_pub kp) λ _ _.
            Keeps-lift_then (convert_result (sealed c d draw root_priv_nonce kp root)) _ λ hd_priv.
              Keeps-lift_then (convert_result (sealed c d draw root_pub_nonce crypto_pub root_pub))
                _
                λ hd_pub.
                  Keeps-bind _ _
                    (Keeps-convert _ (
                      Keeps-put_master_hd_keys laws ns name j v (some ns) (some hd_priv)
                        (some hd_pub) n1 n2))
                    λ _ _. Keeps-lift_then (marshal sk) _ λ _. Keeps-pure _ tt

    -- Everything that `Create` does with private keys, as far as the entry's key is not the key of
    -- an encrypted root key.
    pub Keeps-create_private :
        (root : Option d.Key) (crypto_pub passphrase : Bytes) (config : ScryptOptions)
        → Store.Name.master_hd_priv ≢ j
        → Store.Name.master_hd_pub ≢ j
        → Keeps Entry (create_private c d draw (some ns) root crypto_pub passphrase config) Any
    unfolding create_private
    Keeps-create_private none crypto_pub passphrase config n1 n2 = Keeps-pure _ tt
    Keeps-create_private (some root) crypto_pub passphrase config n1 n2 =
        Keeps-lift_then (wrap_result err_crypto (secret_key c (draw priv_salt) passphrase config)) _
          λ sk. Keeps-lift_then (wrap_result err_crypto (draw passphrase_salt)) _ λ _.
            Keeps-lift_then (wrap_result err_crypto (new_crypto_key (draw crypto_priv_bytes))) _
              λ kp.
                Keeps-lift_then (wrap_result err_crypto (new_crypto_key (draw crypto_script_bytes)))
                  _
                  λ ks.
                    Keeps-lift_then
                      (wrap_result err_crypto (encrypt c (draw crypto_priv_nonce) sk.key kp)) _
                      λ pe.
                        Keeps-lift_then
                          (wrap_result err_crypto (encrypt c (draw crypto_script_nonce) sk.key ks))
                          _ λ se. Keeps-root root crypto_pub sk kp pe se n1 n2
