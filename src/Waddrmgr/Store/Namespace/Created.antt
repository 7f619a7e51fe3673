-- ===== src/Waddrmgr/Store/Namespace/Created.antt =====
-- The buckets that are there after the address manager's namespace has been created.
use btc_wallet.Base.{
  ℕ, ◌≡◌, refl, ◌∙◌, sym, subst, bytes_ne, true, Bool-cases, none, some, List, [], ◌∷◌, All, ap,
  inl, inr,
}
use btc_wallet.Errors.{err_database}
use btc_wallet.Go.{ok}
use btc_wallet.Go.Endian.{le_bytes}
use btc_wallet.Walletdb.Bolt.{Bolt, BoltLaws, BucketPath}
use btc_wallet.Walletdb.Bdb.{Handle, put, nested_bucket}
use btc_wallet.Waddrmgr.Store.Steps.{Grows, grows, create_then, bind-ok, put-Grows}
use btc_wallet.Waddrmgr.Rows.{
  KeyScope, ScopeAddrSchema, scope_to_bytes, scope_schema_to_bytes, uint32_to_bytes,
}
use btc_wallet.Waddrmgr.Store
use btc_wallet.Waddrmgr.Store.Namespace.{
  create_scoped_manager_ns, create_scopes, create_manager_ns, latest_mgr_version,
  default_account_num,
}
use btc_wallet.Waddrmgr.Store.Accounts.{put_last_account}
use btc_wallet.Waddrmgr.Store.Params.{put_manager_version}
use btc_wallet.Waddrmgr.Store.Accounts.Ready.{
  IsReady, scope_path, IsReady-Grows, put_last_account_ready,
}
use btc_wallet.Waddrmgr.Store.Keeps.{
  Has, put-Has, kept, nested_bucket_then, Keeps-wrap, Keeps-put_ne,
}

module _ ⦃b : Bolt⦄ (laws : BoltLaws b) where
  module _ (ns : BucketPath) (scope : KeyScope) (t t' : b.Tree) where
    -- After `createScopedManagerNS` has returned no error, the scope has every bucket that the
    -- operations on its accounts use, and no bucket has gone.
    pub create_scoped_manager_ns-IsReady :
        b.exists t (Store.Name.scope ∷ ns) ≡ true
        → create_scoped_manager_ns (some (Store.Name.scope ∷ ns)) scope t ≡ (ok tt, t')
        → IsReady ns scope t' × Grows t t'
    unfolding create_scoped_manager_ns
    create_scoped_manager_ns-IsReady root h =
        let (c1, h1) = create_then laws (Store.Name.scope ∷ ns) (scope_to_bytes scope) _ t h in
        let (c2, h2) = create_then laws (scope_path ns scope) Store.Name.acct _ _ h1 in
        let (c3, h3) = create_then laws (scope_path ns scope) Store.Name.addr _ _ h2 in
        let (c4, h4) = create_then laws (scope_path ns scope) Store.Name.used_addr _ _ h3 in
        let (c5, h5) = create_then laws (scope_path ns scope) Store.Name.addr_acct_idx _ _ h4 in
        let (c6, h6) = create_then laws (scope_path ns scope) Store.Name.acct_name_idx _ _ h5 in
        let (c7, h7) = create_then laws (scope_path ns scope) Store.Name.acct_id_idx _ _ h6 in
        let (c8, h8) = create_then laws (scope_path ns scope) Store.Name.meta _ _ h7 in
        let g8 = subst (Grows _) (ap (λ x. x.1) h8) c8.kept in
        let g7 = grows c7.kept g8 in
        let g6 = grows c6.kept g7 in
        let g5 = grows c5.kept g6 in
        let g4 = grows c4.kept g5 in
        let g3 = grows c3.kept g4 in
        let g2 = grows c2.kept g3 in
        (
          record {
            root_exists = g2 _ (c1.kept _ root);
            scope_exists = g2 _ c1.self;
            acct_exists = g3 _ c2.self;
            id_idx_exists = g8 _ c7.self;
            name_idx_exists = g7 _ c6.self;
            addr_exists = g4 _ c3.self;
            used_addr_exists = g5 _ c4.self;
            addr_acct_idx_exists = g6 _ c5.self;
            meta_exists =
                subst (λ u. b.exists u (Store.Name.meta ∷ scope_path ns scope) ≡ true)
                  (ap (λ x. x.1) h8) c8.self;
          },
          grows c1.kept g2,
        )

  put_last_account-Grows :
      (ns : BucketPath) (scope : KeyScope) (account : ℕ) (t : b.Tree)
      → IsReady ns scope t
      → Grows t (put_last_account (some ns) scope account t).1
  put_last_account-Grows ns scope account t ready =
      rw (put_last_account_ready ns scope t ready account) (
        put-Grows laws (some (Store.Name.meta ∷ scope_path ns scope)) Store.Name.last_account
          (uint32_to_bytes account) t)

  put_manager_version-Grows :
      (h : Handle) (version : ℕ) (t : b.Tree) → Grows t (put_manager_version h version t).1
  unfolding put_manager_version nested_bucket put
  put_manager_version-Grows none version t q there = there
  put_manager_version-Grows (some p) version t q there =
      elim (Bool-cases (b.exists t (Store.Name.main ∷ p))) [
        | inl e ↦ rw e (
            put-Grows laws (some (Store.Name.main ∷ p)) Store.Name.mgr_version
              (uint32_to_bytes version) t q there)
        | inr e ↦ rw e there
      ]

  All-IsReady :
      (ns : BucketPath) (scopes : List (KeyScope × ScopeAddrSchema)) {t t' : b.Tree}
      → Grows t t'
      → All (λ (scope, schema). IsReady ns scope t) scopes
      → All (λ (scope, schema). IsReady ns scope t') scopes
  All-IsReady ns [] g r = tt
  All-IsReady ns ((scope, schema) ∷ rest) g (r, rs) =
      (IsReady-Grows ns scope g r, All-IsReady ns rest g rs)

  create_scopes-IsReady :
      (ns schemas : BucketPath) (scopes : List (KeyScope × ScopeAddrSchema)) (t t' : b.Tree)
      → b.exists t (Store.Name.scope ∷ ns) ≡ true
      → create_scopes (some ns) (some (Store.Name.scope ∷ ns)) (some schemas) scopes t ≡ (ok tt, t')
      → All (λ (scope, schema). IsReady ns scope t') scopes × Grows t t'
  unfolding create_scopes
  create_scopes-IsReady ns schemas [] t t' root h =
      (tt, subst (Grows t) (ap (λ x. x.1) h) (λ q there. there))
  create_scopes-IsReady ns schemas ((scope, schema) ∷ rest) t t' root h =
      let (u1, e1, h1) =
        bind-ok (put (some schemas) (scope_to_bytes scope) (scope_schema_to_bytes schema)) _ t h in
      let (u2, e2, h2) =
        bind-ok (create_scoped_manager_ns (some (Store.Name.scope ∷ ns)) scope) _ _ h1 in
      let (u3, e3, h3) = bind-ok (put_last_account (some ns) scope default_account_num) _ _ h2 in
      let g1 =
        put-Grows laws (some schemas) (scope_to_bytes scope) (scope_schema_to_bytes schema) t in
      let (ready, g2) = create_scoped_manager_ns-IsReady ns scope _ _ (g1 _ root) e2 in
      let g3 = put_last_account-Grows ns scope default_account_num _ ready in
      let g13 = grows g1 (grows g2 g3) in
      let (others, g4) = create_scopes-IsReady ns schemas rest _ t' (g13 _ root) h3 in
      ((IsReady-Grows ns scope (grows g3 g4) ready, others), grows g13 g4)

  -- After createManagerNS has returned no error, every default scope has the buckets that the
  -- operations on its accounts and addresses use, and the buckets for the fixed keys and the
  -- birthday are there.
  pub create_manager_ns-IsReady :
      (ns : BucketPath) (create_date : ℕ) (scopes : List (KeyScope × ScopeAddrSchema))
      (t t' : b.Tree)
      → create_manager_ns create_date (some ns) scopes t ≡ (ok tt, t')
      → All (λ (scope, schema). IsReady ns scope t') scopes
        × (b.exists t' (Store.Name.main ∷ ns) ≡ true)
        × (b.exists t' (Store.Name.sync ∷ ns) ≡ true)
  unfolding create_manager_ns
  create_manager_ns-IsReady ns create_date scopes t t' h =
      let (c1, h1) = create_then laws ns Store.Name.main _ t h in
      let (c2, h2) = create_then laws ns Store.Name.sync _ _ h1 in
      let (c3, h3) = create_then laws ns Store.Name.scope _ _ h2 in
      let (c4, h4) = create_then laws ns Store.Name.scope_schema _ _ h3 in
      let (u5, e5, h5) =
        bind-ok
          (create_scopes (some ns) (some (Store.Name.scope ∷ ns))
            (some (Store.Name.scope_schema ∷ ns)) scopes)
          _ _ h4 in
      let (u6, e6, h6) = bind-ok (put_manager_version (some ns) latest_mgr_version) _ _ h5 in
      let (ready, g5) =
        create_scopes-IsReady ns (Store.Name.scope_schema ∷ ns) scopes _ _ (c4.kept _ c3.self) e5 in
      let g6 = put_manager_version-Grows (some ns) latest_mgr_version _ in
      let g7 =
        put-Grows laws (some (Store.Name.main ∷ ns)) Store.Name.mgr_create_date
          (le_bytes 8 create_date) _ in
      let g67 = subst (Grows _) (ap (λ x. x.1) h6) (grows g6 g7) in
      let g = grows c3.kept (grows c4.kept (grows g5 g67)) in
      (All-IsReady ns scopes g67 ready, g _ (c2.kept _ c1.self), g _ c2.self)

  put_manager_version-Has :
      (ns : BucketPath) (version : ℕ) (t t' : b.Tree)
      → b.exists t (Store.Name.main ∷ ns) ≡ true
      → put_manager_version (some ns) version t ≡ (ok tt, t')
      → Has (Store.Name.main ∷ ns) Store.Name.mgr_version (some (uint32_to_bytes version)) t'
  unfolding put_manager_version
  put_manager_version-Has ns version t t' there h =
      put-Has laws (Store.Name.main ∷ ns) Store.Name.mgr_version (uint32_to_bytes version) t t'
        there (sym (nested_bucket_then ns Store.Name.main _ t there) ∙ h)

  -- The version that `createManagerNS` has stored.
  pub create_manager_ns-version :
      (ns : BucketPath) (create_date : ℕ) (scopes : List (KeyScope × ScopeAddrSchema))
      (t t' : b.Tree)
      → create_manager_ns create_date (some ns) scopes t ≡ (ok tt, t')
      → Has
          (Store.Name.main ∷ ns)
          Store.Name.mgr_version
          (some (uint32_to_bytes latest_mgr_version))
          t'
  unfolding create_manager_ns
  create_manager_ns-version ns create_date scopes t t' h =
      let (c1, h1) = create_then laws ns Store.Name.main _ t h in
      let (c2, h2) = create_then laws ns Store.Name.sync _ _ h1 in
      let (c3, h3) = create_then laws ns Store.Name.scope _ _ h2 in
      let (c4, h4) = create_then laws ns Store.Name.scope_schema _ _ h3 in
      let (u5, e5, h5) =
        bind-ok
          (create_scopes (some ns) (some (Store.Name.scope ∷ ns))
            (some (Store.Name.scope_schema ∷ ns)) scopes)
          _ _ h4 in
      let (ready, g5) =
        create_scopes-IsReady ns (Store.Name.scope_schema ∷ ns) scopes _ _ (c4.kept _ c3.self) e5 in
      let there = g5 _ (c4.kept _ (c3.kept _ (c2.kept _ c1.self))) in
      let (u6, e6, h6) = bind-ok (put_manager_version (some ns) latest_mgr_version) _ _ h5 in
      kept
        (Keeps-wrap err_database _ (
          Keeps-put_ne laws (some (Store.Name.main ∷ ns)) Store.Name.mgr_create_date
            (le_bytes 8 create_date)
            (bytes_ne Store.Name.mgr_create_date Store.Name.mgr_version refl)))
        h6 (put_manager_version-Has ns latest_mgr_version _ _ there e6)
