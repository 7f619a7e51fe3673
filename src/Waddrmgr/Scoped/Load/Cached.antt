-- ===== src/Waddrmgr/Scoped/Load/Cached.antt =====
-- What `loadAccountInfo` (waddrmgr/scoped_manager.go) leaves in memory.
use btc_wallet.Base.{
  ℕ, ◌==◌, ◌≡◌, ◌∙◌, refl, sym, ap, subst, inl, inr, Bool-cases, Option, none, some, List, [], ◌∷◌,
  arith,
}
use btc_wallet.Go.{Result, ok}
use btc_wallet.Go.Bytes.{Bytes}
use btc_wallet.Btcd.{Btcd, Btcec}
use btc_wallet.Snacl.{Crypto}
use btc_wallet.Walletdb.Bolt.{Bolt}
use btc_wallet.Walletdb.Bdb.{Handle, lift}
use btc_wallet.Walletdb.Keeps.{Yields, Yields-bind, pure_then, pure_state}
use btc_wallet.Waddrmgr.Errors.{convert}
use btc_wallet.Waddrmgr.Rows.{KeyScope}
use btc_wallet.Waddrmgr.Store.Accounts.{fetch_account_info}
use btc_wallet.Waddrmgr.Store.Steps.{lift_then}
use btc_wallet.Waddrmgr.Manager.{AccountInfo, ScopedKeyManager, find_scope}
use btc_wallet.Waddrmgr.Manager.Scopes.{find-set_self}
use btc_wallet.Waddrmgr.Scoped.Account.{account_of}
use btc_wallet.Waddrmgr.Scoped.Load.{
  last_addr, remember, load_uncached, cached_or, load_account_info,
}
use btc_wallet.Waddrmgr.World.{
  World, Managed, found_or_panic, in_tree, get_manager, get_scoped, with_scoped, put_scoped,
  find_account, set_account,
}

find-set_account :
    {A : Type 0} (n : ℕ) (a : A) (infos : List (ℕ × A))
    → find_account n (set_account n a infos) ≡ some a
find-set_account n a [] = ground arith
find-set_account n a ((k, v) ∷ rest) = elim (Bool-cases (k == n)) [
  | inl same ↦ rw same (rw same refl)
  | inr other ↦ rw other (rw other (find-set_account n a rest))
]

-- What is found where something is.
found_then : {A : Type 0} (o : Option A) (a : A) → found_or_panic o ≡ ok a → o ≡ some a
found_then none a h = absurd (ground arith)
found_then (some x) a h = ap some (ground arith)

module _ ⦃b : Bolt⦄ (c : Crypto) (d : Btcd) (e : Btcec d) (random : ℕ → ℕ → Result Bytes)
    (sha256 : Bytes → Bytes) (ns : Handle) (scope : KeyScope) (account : ℕ) where
  -- An account that is in memory.
  pub record IsCached (w : World d) (info : AccountInfo d) : Type 0 where
    pub s : ScopedKeyManager d
    pub scoped : find_scope d scope w.manager.scoped_managers ≡ some s
    pub held : find_account account s.acct_info ≡ some info

  cached_loads :
      (w : World d) (info : AccountInfo d)
      → IsCached w info
      → load_account_info c d e random sha256 ns scope account w ≡ (ok info, w)
  unfolding load_account_info get_scoped
  cached_loads w info cached = rw cached.scoped (rw cached.held refl)

  pub remember-IsCached :
      (info : AccountInfo d)
      → Yields
          (λ given w'. IsCached w' given × (given ≡ info))
          (remember c d e random sha256 ns scope account info)
  unfolding remember get_scoped put_scoped btc_wallet.Waddrmgr.World.modify
  remember-IsCached info = record {
    at = λ w w' given h.
        let (s, found, rest) =
          lift_then (found_or_panic (find_scope d scope w.manager.scoped_managers)) _ w h in
        let s' : ScopedKeyManager d = record s {
          acct_info = set_account account info s.acct_info;
        } in
        let after : World d = record w { manager = with_scoped d scope s' w.manager } in
        let same = pure_then info given after w' rest in
        (
          subst (λ x. IsCached x given) (pure_state info given after w' rest)
              (record {
                s = s';
                scoped = find-set_self d scope s' w.manager.scoped_managers;
                held = find-set_account account info s.acct_info ∙ ap some same;
              }),
          sym same,
        );
  }

  load_uncached-IsCached :
      Yields (λ given w'. IsCached w' given) (load_uncached c d e random sha256 ns scope account)
  unfolding load_uncached
  load_uncached-IsCached =
      Yields-bind (in_tree d (convert (fetch_account_info ns scope account))) _ λ row.
        Yields-bind (get_manager d) _ λ m. Yields-bind (lift (account_of d c m row)) _ λ made.
          Yields-bind (last_addr c d e random sha256 ns scope account made.0 made.1) _ λ p. record {
            at = λ w w' given h.
                ((remember-IsCached (record (made.0) { last_internal_addr = some p })).at w w' given
                  h).0;
          }

  cached_or-IsCached :
      (o : Option (AccountInfo d)) (s : ScopedKeyManager d) (w w' : World d) (info : AccountInfo d)
      → find_scope d scope w.manager.scoped_managers ≡ some s
      → find_account account s.acct_info ≡ o
      → cached_or c d e random sha256 ns scope o
          (load_uncached c d e random sha256 ns scope account)
          w
        ≡ (ok info, w')
      → IsCached w' info
  cached_or-IsCached none s w w' info scoped held h = load_uncached-IsCached.at w w' info h
  cached_or-IsCached (some found) s w w' info scoped held h =
      subst (λ x. IsCached x info) (pure_state found info w w' h)
        (record { s = s; scoped = scoped; held = held ∙ ap some (pure_then found info w w' h) })

  -- After loadAccountInfo has returned an account, the scope holds it in memory under its number,
  -- and loading it again returns the same account and changes nothing.
  pub load_account_info-IsCached :
      (w w' : World d) (info : AccountInfo d)
      → load_account_info c d e random sha256 ns scope account w ≡ (ok info, w')
      → IsCached w' info
        × (load_account_info c d e random sha256 ns scope account w' ≡ (ok info, w'))
  unfolding load_account_info get_scoped
  load_account_info-IsCached w w' info h =
      let (s, found, rest) =
        lift_then (found_or_panic (find_scope d scope w.manager.scoped_managers)) _ w h in
      let cached =
        cached_or-IsCached (find_account account s.acct_info) s w w' info
          (found_then (find_scope d scope w.manager.scoped_managers) s found) refl rest in
      (cached, cached_loads w' info cached)
