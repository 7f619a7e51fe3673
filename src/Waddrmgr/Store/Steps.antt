-- ===== src/Waddrmgr/Store/Steps.antt =====
-- Sequences of writes: what each step has done when the whole has returned no error, and that no
-- bucket goes.
use btc_wallet.Base.{
  ◌≡◌, ◌≢◌, ◌⊎◌, Option-cases, refl, subst, ap, ◌∙◌, Bool, true, false, Bool-cases, none, some, inl,
  inr, ◌∷◌, path_eq, path_eq_iff, arith,
}
use btc_wallet.Errors.{Error, ErrorCode, err_database}
use btc_wallet.Go.{Result, ok, err, panic, fail_if, Result-cases}
use btc_wallet.Go.Bytes.{Bytes}
use btc_wallet.Walletdb.Bolt.{Bolt, BoltLaws, BucketPath}
use btc_wallet.Walletdb.Bdb.{
  Action, Tx, Handle, ◌>>=◌, lift, create_bucket, create_bucket_if_not_exists, put,
}
use btc_wallet.Waddrmgr.Errors.{wrap, wrap_result, convert, convert_result}

pub path_ne : (n m : Bytes) (p : BucketPath) → n ≢ m → n ∷ p ≢ m ∷ p
path_ne n m p h e = h (cc)

module _ ⦃b : Bolt⦄ where
  -- Every bucket that was there is there.
  abbrev pub Grows : b.Tree → b.Tree → Type 0
  Grows t t' = (q : BucketPath) → b.exists t q ≡ true → b.exists t' q ≡ true

  pub grows : {t t' t'' : b.Tree} → Grows t t' → Grows t' t'' → Grows t t''
  grows f g q there = g q (f q there)

  -- The bucket `k` of `p` is there, and so is every bucket that was.
  pub record Created (p : BucketPath) (k : Bytes) (t t' : b.Tree) : Type 0 where
    pub self : b.exists t' (k ∷ p) ≡ true
    pub kept : Grows t t'

  -- What an action and the rest of a sequence did, when the whole has returned no error.
  pub bind-ok :
      {A B : Type 0} (m : Tx A) (f : A → Tx B) (t : b.Tree) {y : B} {t' : b.Tree}
      → (m >>= f) t ≡ (ok y, t')
      → (x : A) × (m t ≡ (ok x, (m t).1)) × (f x (m t).1 ≡ (ok y, t'))
  bind-ok m f t h = elim (Result-cases (m t).0) [
    | inl (x, e) ↦ (x, ap (λ r. (r, (m t).1)) e, rw e at h)
    | inr (inl (e, d)) ↦ absurd (ground (arith, rw d at h))
    | inr (inr d) ↦ absurd (ground (arith, rw d at h))
  ]

-- A step of a sequence that has returned no error has itself returned none.
pub lift_then :
    {S : Type 0} {A B : Type 0} (r : Result A) (f : A → Action S B) (s : S) {y : B} {s' : S}
    → (lift r >>= f) s ≡ (ok y, s')
    → (x : A) × (r ≡ ok x) × (f x s ≡ (ok y, s'))
lift_then (ok x) f s h = (x, refl, h)
lift_then (err e) f s h = absurd (ground arith)
lift_then panic f s h = absurd (ground arith)

pub guard_then :
    {S : Type 0} {B : Type 0} (c : Bool) (e : Error) (k : Action S B) (s : S) {y : B} {s' : S}
    → (lift (fail_if c e) >>= λ _. k) s ≡ (ok y, s')
    → (c ≡ false) × (k s ≡ (ok y, s'))
guard_then true e k s h = absurd (ground arith)
guard_then false e k s h = (refl, h)

pub wrap_result-ok :
    {A : Type 0} (c : ErrorCode) (r : Result A) {x : A} → wrap_result c r ≡ ok x → r ≡ ok x
wrap_result-ok c (ok x) h = h
wrap_result-ok c (err e) h = absurd (ground arith)
wrap_result-ok c panic h = absurd (ground arith)

pub convert_result-ok : {A : Type 0} (r : Result A) {x : A} → convert_result r ≡ ok x → r ≡ ok x
convert_result-ok (ok x) h = h
convert_result-ok (err e) h = absurd (ground arith)
convert_result-ok panic h = absurd (ground arith)

module _ ⦃b : Bolt⦄ where
  -- A step that converts its error.
  pub convert_then :
      {A B : Type 0} (m : Tx A) (f : A → Tx B) (t : b.Tree) {y : B} {t' : b.Tree}
      → (convert m >>= f) t ≡ (ok y, t')
      → (x : A) × (m t ≡ (ok x, (m t).1)) × (f x (m t).1 ≡ (ok y, t'))
  convert_then m f t h =
      let (x, e, rest) = bind-ok (convert m) f t h in
      (x, ap (λ r. (r, (m t).1)) (convert_result-ok _ (ap (λ p. p.0) e)), rest)

  -- A step that only reads.
  pub read_then :
      {A B : Type 0} (m : Tx A) (f : A → Tx B) (t : b.Tree) {y : B} {t' : b.Tree}
      → (m t).1 ≡ t
      → (m >>= f) t ≡ (ok y, t')
      → (x : A) × ((m t).0 ≡ ok x) × (f x t ≡ (ok y, t'))
  read_then m f t same h =
      let (x, e, rest) = bind-ok m f t h in (x, ap (λ p. p.0) e, rw same at rest)

module _ ⦃b : Bolt⦄ (laws : BoltLaws b) where
  pub create-kept :
      (p : BucketPath) (k : Bytes) (t : b.Tree)
      → (b.create_bucket t p k).0 ≡ none
      → (q : BucketPath) → b.exists t q ≡ true
      → b.exists (b.create_bucket t p k).1 q ≡ true
  create-kept p k t done q there = elim (Bool-cases (path_eq (k ∷ p) q)) [
    | inl same ↦
        let e : k ∷ p ≡ q = (path_eq_iff (k ∷ p) q).0 same in
        subst (λ r. b.exists (b.create_bucket t p k).1 r ≡ true) e
          (laws.exists-create_self t p k done)
    | inr other ↦
        laws.exists-create_ne t p k q done (λ e. cc (other, (path_eq_iff (k ∷ p) q).1 e)) ∙ there
  ]

  -- A call of `CreateBucket` that was followed by success has itself succeeded.
  pub create_then :
      {A : Type 0} (p : BucketPath) (k : Bytes) (f : Handle → Tx A) (t : b.Tree) {a : A}
      {t' : b.Tree}
      → (wrap err_database (create_bucket (some p) k) >>= f) t ≡ (ok a, t')
      → Created p k t (b.create_bucket t p k).1
        × (f (some (k ∷ p)) (b.create_bucket t p k).1 ≡ (ok a, t'))
  unfolding create_bucket
  create_then p k f t h =
      let done : (b.create_bucket t p k).0 ≡ none = ground arith in
      (
        record { self = laws.exists-create_self t p k done; kept = create-kept p k t done },
        ground arith,
      )

  pub put-Grows : (h : Handle) (k v : Bytes) (t : b.Tree) → Grows t (put h k v t).1
  unfolding put
  put-Grows none k v t q there = there
  put-Grows (some p) k v t q there = laws.exists-put t p k v q ∙ there

  -- The rest of what a `Put` leaves as it was, whether it succeeds or not.
  pub put-get_ne :
      (p : BucketPath) (k v : Bytes) (t : b.Tree) (q : BucketPath) (j : Bytes)
      → ((p ≢ q) ⊎ (k ≢ j))
      → b.get (b.put t p k v).1 q j ≡ b.get t q j
  put-get_ne p k v t q j d = elim (Option-cases (b.put t p k v).0) [
    | inl done ↦ laws.get-put_ne t p k v q j done d
    | inr (e, failed) ↦ rw (laws.put_failed t p k v (λ done. cc (done, failed))) refl
  ]

  -- What `CreateBucketIfNotExists` did when it was followed by success.
  pub create_if_then :
      {A : Type 0} (p : BucketPath) (k : Bytes) (f : Handle → Tx A) (t : b.Tree) {a : A}
      {t' : b.Tree}
      → (create_bucket_if_not_exists (some p) k >>= f) t ≡ (ok a, t')
      → (u : b.Tree) × Created p k t u
        × ((q : BucketPath) (j : Bytes) → b.get u q j ≡ b.get t q j)
        × (f (some (k ∷ p)) u ≡ (ok a, t'))
  unfolding create_bucket_if_not_exists
  create_if_then p k f t h = elim (Bool-cases (b.exists t (k ∷ p))) [
    | inl there ↦ elim (Option-cases (b.create_bucket_if_not_exists t p k).0) [
      | inl done ↦ (
        t,
        record { self = there; kept = λ q e. e },
        λ q j. refl,
        rw (laws.create_if-existing t p k there done) at h,
      )
      | inr (e, failed) ↦ absurd (ground (arith, rw failed at h))
    ]
    | inr missing ↦
        let h' = rw (laws.create_if-absent t p k missing) at h in
        let done : (b.create_bucket t p k).0 ≡ none = ground arith in
        (
          (b.create_bucket t p k).1,
          record { self = laws.exists-create_self t p k done; kept = create-kept p k t done },
          λ q j. laws.get-create t p k q j,
          ground arith,
        )
  ]
