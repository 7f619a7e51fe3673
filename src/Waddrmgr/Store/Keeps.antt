-- ===== src/Waddrmgr/Store/Keeps.antt =====
-- The rules of `Keeps` for the calls of the address manager's store.
use btc_wallet.Base.{
  ℕ, suc, ◌≤◌, ◌≡◌, ◌≢◌, inl, inr, refl, ap, subst, ◌∙◌, true, Bool-cases, Option, none, some, ◌∷◌,
  length, arith,
}
use btc_wallet.Errors.{Error, ErrorCode, err_database}
use btc_wallet.Go.{ok}
use btc_wallet.Go.Bytes.{Bytes}
use btc_wallet.Walletdb.Bolt.{Bolt, BoltLaws, BucketPath}
use btc_wallet.Walletdb.Bdb.{Action, Tx, Handle, ◌>>=◌, nested_bucket, put}
use btc_wallet.Walletdb.Keeps.{Keeps, Any, Keeps-pure, Keeps-bind}
use btc_wallet.Waddrmgr.Errors.{wrap, convert}
use btc_wallet.Waddrmgr.Rows.{KeyScope, scope_to_bytes}
use btc_wallet.Waddrmgr.Store
use btc_wallet.Waddrmgr.Store.{fetch_write_scope_bucket, found_or}
use btc_wallet.Waddrmgr.Store.Params.{put_some}
use btc_wallet.Waddrmgr.Store.Steps.{put-get_ne, wrap_result-ok, convert_result-ok}

module _ {S : Type 0} {P : S → Type 0} where
  pub Keeps-found_or :
      {A : Type 0} {Q : A → Type 0} (e : Error) (o : Option A)
      → ((a : A) → o ≡ some a → Q a)
      → Keeps P (found_or e o) Q
  Keeps-found_or e none q = record { run = λ s h. (h, λ x d. absurd (ground arith)) }
  Keeps-found_or {Q = Q} e (some a) q = record { run = λ s h. (h, λ x d. q x (ground arith)) }

  module _ {A : Type 0} {Q : A → Type 0} where
    pub Keeps-wrap : (c : ErrorCode) (m : Action S A) → Keeps P m Q → Keeps P (wrap c m) Q
    Keeps-wrap c m k = record {
      run = λ s h. ((k.run s h).0, λ a e. (k.run s h).1 a (wrap_result-ok c _ e));
    }

    pub Keeps-convert : (m : Action S A) → Keeps P m Q → Keeps P (convert m) Q
    Keeps-convert m k = record {
      run = λ s h. ((k.run s h).0, λ a e. (k.run s h).1 a (convert_result-ok _ e));
    }

-- A bucket that is at least so many levels down.
abbrev pub Deep : ℕ → Handle → Type 0
Deep n none = Unit {0}
Deep n (some p) = n ≤ length p

module _ ⦃b : Bolt⦄ where
  pub Keeps-nested_bucket :
      {P : b.Tree → Type 0} (n : ℕ) (h : Handle) (k : Bytes)
      → Deep n h
      → Keeps P (nested_bucket h k) (Deep (suc n))
  unfolding nested_bucket
  Keeps-nested_bucket n none k d = record { run = λ t p. (p, λ a e. absurd (ground arith)) }
  Keeps-nested_bucket n (some q) k d = record { run = λ t p. (p, λ a e. deep a t e) }
    where
      deep : (a : Handle) (t : b.Tree) → (nested_bucket (some q) k t).0 ≡ ok a → Deep (suc n) a
      deep none t e = tt
      deep (some r) t e = elim (Bool-cases (b.exists t (k ∷ q))) [
        | inl there ↦
            let same : k ∷ q ≡ r = ground (arith, there) in
            subst (λ x. suc n ≤ length x) same (omega arith)
        | inr missing ↦ absurd (ground (arith, missing))
      ]

  pub Keeps-fetch_write_scope_bucket :
      {P : b.Tree → Type 0} (ns : BucketPath) (scope : KeyScope)
      → Keeps P (fetch_write_scope_bucket (some ns) scope) (Deep (suc (suc (length ns))))
  unfolding fetch_write_scope_bucket
  Keeps-fetch_write_scope_bucket ns scope =
      Keeps-bind _ _ (Keeps-nested_bucket (length ns) (some ns) Store.Name.scope (omega arith))
        λ root d.
          Keeps-bind _ _ (Keeps-nested_bucket (suc (length ns)) root (scope_to_bytes scope) d)
            λ scoped d'.
              Keeps-bind _ _
                (Keeps-found_or _ scoped λ p e. subst (Deep (suc (suc (length ns)))) e d')
                λ path deep. Keeps-pure _ deep

  -- An entry, and the bucket that it is in.
  abbrev pub Has : BucketPath → Bytes → Option Bytes → b.Tree → Type 0
  Has q j v t = (b.get t q j ≡ v) × (b.exists t q ≡ true)

  module _ (laws : BoltLaws b) {q : BucketPath} {j : Bytes} {v : Option Bytes} where
    pub Keeps-put_ne : (h : Handle) (k w : Bytes) → k ≢ j → Keeps (Has q j v) (put h k w) Any
    unfolding put
    Keeps-put_ne none k w d = record { run = λ t p. (p, λ a e. tt) }
    Keeps-put_ne (some r) k w d = record {
      run = λ t p.
          ((put-get_ne laws r k w t q j (inr d) ∙ p.0, laws.exists-put t r k w q ∙ p.1), λ a e. tt);
    }

    pub Keeps-put-Deep :
        (h : Handle) (k w : Bytes) → Deep (suc (length q)) h → Keeps (Has q j v) (put h k w) Any
    unfolding put
    Keeps-put-Deep none k w d = record { run = λ t p. (p, λ a e. tt) }
    Keeps-put-Deep (some r) k w d = record {
      run = λ t p. (
        (
          put-get_ne laws r k w t q j (inl (λ e. omega (arith, ap length e))) ∙ p.0,
          laws.exists-put t r k w q ∙ p.1,
        ),
        λ a e. tt,
      );
    }

  -- A write that has returned no error.
  pub put-Has :
      (laws : BoltLaws b) (p : BucketPath) (k v : Bytes) (t t' : b.Tree)
      → b.exists t p ≡ true
      → wrap err_database (put (some p) k v) t ≡ (ok tt, t')
      → Has p k (some v) t'
  unfolding put
  put-Has laws p k v t t' there h =
      let done : (b.put t p k v).0 ≡ none = ground arith in
      subst (Has p k (some v)) (ground arith)
        (laws.get-put_self t p k v done, laws.exists-put t p k v p ∙ there)

  pub put_some-Has :
      (laws : BoltLaws b) (p : BucketPath) (k v : Bytes) (o : Option Bytes) (t t' : b.Tree)
      → b.exists t p ≡ true
      → o ≡ some v
      → put_some (some p) k o t ≡ (ok tt, t')
      → Has p k (some v) t'
  unfolding put_some
  put_some-Has laws p k v none t t' there e h = absurd (ground arith)
  put_some-Has laws p k v (some w) t t' there e h =
      subst (λ o. Has p k o t') e (put-Has laws p k w t t' there h)

  -- A kept entry is there after an action that has returned no error.
  pub kept :
      {A : Type 0} {P : b.Tree → Type 0} {Q : A → Type 0} {m : Tx A} {t t' : b.Tree} {a : A}
      → Keeps P m Q
      → m t ≡ (ok a, t')
      → P t
      → P t'
  kept {P = P} k h p = subst P (ap (λ x. x.1) h) (k.run _ p).0

  -- What comes after a nested bucket that is there.
  pub nested_bucket_then :
      {A : Type 0} (p : BucketPath) (k : Bytes) (f : Handle → Tx A) (t : b.Tree)
      → b.exists t (k ∷ p) ≡ true
      → (nested_bucket (some p) k >>= f) t ≡ f (some (k ∷ p)) t
  unfolding nested_bucket
  nested_bucket_then p k f t there = rw there refl
