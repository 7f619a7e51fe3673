-- ===== src/Waddrmgr/Manager/Scopes.antt =====
-- A new scope in an open manager (waddrmgr/manager.go, `NewScopedKeyManager`). The manager afterwards
-- is the value; on an error it is as it was.
use btc_wallet.Base.{
  ◌≡◌, ◌∙◌, refl, sym, ◌⊎◌, inl, inr, Bool, Bool-cases, true, false, Option, none, some, [], ◌∷◌,
  arith,
}
use btc_wallet.Errors.{manager, err_locked, err_watching_only, err_crypto, err_database}
use btc_wallet.Go.{Result, ok, fail_if}
use btc_wallet.Go.Bytes.{Bytes}
use btc_wallet.Btcd.{Btcd}
use btc_wallet.Snacl.{Crypto}
use btc_wallet.Snacl.Box.{decrypt}
use btc_wallet.Walletdb.Bolt.{Bolt}
use btc_wallet.Walletdb.Bdb.{Tx, Handle, ◌>>=◌, ◌>>◌, pure, lift, nested_bucket, put}
use btc_wallet.Walletdb.Keeps.{bind_then}
use btc_wallet.Waddrmgr.Errors.{wrap_result}
use btc_wallet.Waddrmgr.Rows.{KeyScope, ScopeAddrSchema, scope_to_bytes, scope_schema_to_bytes}
use btc_wallet.Waddrmgr.Keys.{scope_eq}
use btc_wallet.Waddrmgr.Manager.{Manager, ScopedKeyManager, find_scope, fetch_scoped_key_manager}
use btc_wallet.Waddrmgr.Manager.Create.{Draw, create_manager_key_scope}
use btc_wallet.Waddrmgr.Manager.Open.{Scopes, append_scope, new_scoped, set_scope}
use btc_wallet.Waddrmgr.Store
use btc_wallet.Waddrmgr.Store.{found_or}
use btc_wallet.Waddrmgr.Store.Steps.{guard_then}
use btc_wallet.Waddrmgr.Store.Namespace.{create_scoped_manager_ns}
use btc_wallet.Waddrmgr.Store.Params.{fetch_master_hd_keys}

pub scope_eq_refl : (s : KeyScope) → scope_eq s s ≡ true
scope_eq_refl s = ground arith

module _ ⦃b : Bolt⦄ (d : Btcd) where
  pub find-set_self :
      (scope : KeyScope) (sm : ScopedKeyManager d) (scopes : Scopes d)
      → find_scope d scope (set_scope d scope sm scopes) ≡ some sm
  find-set_self scope sm [] = rw (scope_eq_refl scope) refl
  find-set_self scope sm ((k, v) ∷ rest) = elim (Bool-cases (scope_eq k scope)) [
    | inl same ↦ rw (same, same) refl
    | inr other ↦ rw (other, other) (find-set_self scope sm rest)
  ]

module _ ⦃b : Bolt⦄ (c : Crypto) (d : Btcd) (draw : Draw → Result Bytes) where
  -- `rootPriv`, which stays nil in a manager that only watches.
  unfoldable pub root_priv : Bool → Manager d → Handle → Tx (Option d.Key)
  root_priv true m ns = pure none
  root_priv false m ns = do
    lift (fail_if m.locked (manager err_locked))
    keys ← fetch_master_hd_keys ns
    master_root_priv_enc ← found_or (manager err_watching_only) keys.0
    serialized ← lift (wrap_result err_crypto (decrypt c m.crypto_key_priv master_root_priv_enc))
    root ← lift (wrap_result err_crypto (d.new_key_from_string serialized))
    pure (some root)

  -- `if !m.watchingOnly { … }`
  unfoldable pub key_scope_of : Manager d → Handle → KeyScope → Option d.Key → Tx (Unit {0})
  key_scope_of m ns scope none = pure tt
  key_scope_of m ns scope (some root) =
      create_manager_key_scope c d draw ns scope root m.crypto_key_pub m.crypto_key_priv

  abbrev pub with_scope : Manager d → KeyScope → ScopeAddrSchema → Manager d
  with_scope m scope schema = record m {
    scoped_managers = set_scope d scope (new_scoped d scope schema) m.scoped_managers;
    external_addr_schemas = append_scope schema.external_addr_type scope m.external_addr_schemas;
    internal_addr_schemas = append_scope schema.internal_addr_type scope m.internal_addr_schemas;
  }

  unfoldable pub new_scoped_key_manager :
      Manager d → Handle → KeyScope → ScopeAddrSchema → Tx (Manager d)
  new_scoped_key_manager m ns scope schema = do
    root ← root_priv m.watching_only m ns
    scope_bucket ← nested_bucket ns Store.Name.scope
    create_scoped_manager_ns scope_bucket scope
    scope_schemas ← nested_bucket ns Store.Name.scope_schema
    path ← found_or (manager err_database) scope_schemas
    put (some path) (scope_to_bytes scope) (scope_schema_to_bytes schema)
    key_scope_of m ns scope root
    pure (with_scope m scope schema)

  scope_eq_iff :
      (s u : KeyScope) → scope_eq s u ≡ true → (v : KeyScope) → scope_eq s v ≡ scope_eq u v
  scope_eq_iff s u e v = ground arith

  find-set_other :
      (scope other : KeyScope) (sm : ScopedKeyManager d) (scopes : Scopes d)
      → scope_eq scope other ≡ false
      → find_scope d other (set_scope d scope sm scopes) ≡ find_scope d other scopes
  find-set_other scope other sm [] differ = rw differ refl
  find-set_other scope other sm ((k, v) ∷ rest) differ = elim (Bool-cases (scope_eq k scope)) [
    | inl same ↦ rw same (rw (scope_eq_iff k scope same other ∙ differ) refl)
    | inr different ↦ rw different (rw (find-set_other scope other sm rest differ) refl)
  ]

  -- A manager that must not have been locked.
  root_priv-unlocked :
      (m : Manager d) (ns : Handle) (t : b.Tree) {r : Option d.Key} (t' : b.Tree)
      → root_priv m.watching_only m ns t ≡ (ok r, t')
      → (m.watching_only ≡ true) ⊎ (m.locked ≡ false)
  unfolding root_priv
  root_priv-unlocked m ns t t' h = elim (Bool-cases m.watching_only) [
    | inl watching ↦ inl watching
    | inr writes ↦ inr (guard_then m.locked _ _ t (rw writes at h)).0
  ]

  -- After NewScopedKeyManager has returned no error the manager was only watching or was not
  -- locked, the new scope is found with its schema and no accounts or addresses, and every other
  -- scope is found as before.
  pub new_scoped_found :
      (m m' : Manager d) (ns : Handle) (scope : KeyScope) (schema : ScopeAddrSchema) (t t' : b.Tree)
      → new_scoped_key_manager m ns scope schema t ≡ (ok m', t')
      → (other : KeyScope) → scope_eq scope other ≡ false
      → ((m.watching_only ≡ true) ⊎ (m.locked ≡ false))
        × (fetch_scoped_key_manager d m' scope ≡ ok (new_scoped d scope schema))
        × (fetch_scoped_key_manager d m' other ≡ fetch_scoped_key_manager d m other)
  unfolding new_scoped_key_manager fetch_scoped_key_manager
  new_scoped_found m m' ns scope schema t t' h other differ =
      let (root, e1, h1) = bind_then (root_priv m.watching_only m ns) _ t h in
      let (bucket, e2, h2) = bind_then (nested_bucket ns Store.Name.scope) _ _ h1 in
      let (u3, e3, h3) = bind_then (create_scoped_manager_ns bucket scope) _ _ h2 in
      let (schemas, e4, h4) = bind_then (nested_bucket ns Store.Name.scope_schema) _ _ h3 in
      let (path, e5, h5) = bind_then (found_or (manager err_database) schemas) _ _ h4 in
      let (u6, e6, h6) =
        bind_then (put (some path) (scope_to_bytes scope) (scope_schema_to_bytes schema)) _ _ h5 in
      let (u7, e7, h7) = bind_then (key_scope_of m ns scope root) _ _ h6 in
      let same : with_scope m scope schema ≡ m' = ground arith in
      (
        root_priv-unlocked m ns t _ e1,
        rw (sym same)
            (rw (find-set_self d scope (new_scoped d scope schema) m.scoped_managers) refl),
        rw (sym same) (
            rw (find-set_other scope other (new_scoped d scope schema) m.scoped_managers differ)
              refl),
      )
