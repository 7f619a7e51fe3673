-- ===== src/Walletdb/Keeps.antt =====
-- What an action leaves true of the state, whether it returns a value, an error, or panics, and what
-- is true of the value: one rule for each way to build an action.
use btc_wallet.Base.{◌≡◌, refl, inl, inr, subst, ap, Bool, true, false, if◌then◌else◌, arith}
use btc_wallet.Go.{Result, ok, Result-cases}
use btc_wallet.Walletdb.Bdb.{Action, pure, lift, ◌>>=◌}

pub record Keeps {S : Type 0} (P : S → Type 0) {A : Type 0} (m : Action S A) (Q : A → Type 0)
    : Type 0 where
  pub run : (s : S) → P s → P (m s).1 × ((a : A) → (m s).0 ≡ ok a → Q a)

abbrev pub Any : {A : Type 0} → A → Type 0
Any a = Unit {0}

module _ {S : Type 0} {P : S → Type 0} where
  pub Keeps-pure : {A : Type 0} {Q : A → Type 0} (a : A) → Q a → Keeps P (pure a) Q
  Keeps-pure {Q = Q} a q = record { run = λ s h. (h, λ x e. subst Q (ground arith) q) }

  pub Keeps-lift : {A : Type 0} (r : Result A) → Keeps P (lift r) Any
  Keeps-lift r = record { run = λ s h. (h, λ x e. tt) }

  pub Keeps-if :
      {A : Type 0} {Q : A → Type 0} (x : Bool) (m n : Action S A)
      → Keeps P m Q
      → Keeps P n Q
      → Keeps P (if x then m else n) Q
  Keeps-if true m n k l = k
  Keeps-if false m n k l = l

  pub Keeps-bind :
      {A B : Type 0} {Q : A → Type 0} {R : B → Type 0} (m : Action S A) (f : A → Action S B)
      → Keeps P m Q
      → ((a : A) → Q a → Keeps P (f a) R)
      → Keeps P (m >>= f) R
  Keeps-bind m f k l = record {
    run = λ s h. elim (Result-cases (m s).0) [
      | inl (a, e) ↦ rw e ((l a ((k.run s h).1 a e)).run (m s).1 (k.run s h).0)
      | inr (inl (x, e)) ↦ rw e ((k.run s h).0, λ y d. absurd (ground arith))
      | inr (inr e) ↦ rw e ((k.run s h).0, λ y d. absurd (ground arith))
    ];
  }

  pub Keeps-lift_then :
      {A B : Type 0} {R : B → Type 0} (r : Result A) (f : A → Action S B)
      → ((a : A) → Keeps P (f a) R)
      → Keeps P (lift r >>= f) R
  Keeps-lift_then r f l = Keeps-bind (lift r) f (Keeps-lift r) λ a u. l a

-- Every action keeps what is true of all states.
pub Keeps-Any : {S A : Type 0} (m : Action S A) → Keeps (λ s. Unit {0}) m Any
Keeps-Any m = record { run = λ s h. (tt, λ a e. tt) }

-- What a step and the rest of a sequence did, when the whole has returned no error.
pub bind_then :
    {S : Type 0} {A B : Type 0} (m : Action S A) (f : A → Action S B) (s : S) {y : B} {s' : S}
    → (m >>= f) s ≡ (ok y, s')
    → (x : A) × (m s ≡ (ok x, (m s).1)) × (f x (m s).1 ≡ (ok y, s'))
bind_then m f s h = elim (Result-cases (m s).0) [
  | inl (x, e) ↦ (x, ap (λ r. (r, (m s).1)) e, rw e at h)
  | inr (inl (e, d)) ↦ absurd (ground (arith, rw d at h))
  | inr (inr d) ↦ absurd (ground (arith, rw d at h))
]

-- What is true of the state whenever an action returns a value.
pub record Leaves {S A : Type 0} (P : S → Type 0) (m : Action S A) : Type 0 where
  pub at : (s : S) {a : A} → (m s).0 ≡ ok a → P (m s).1

-- It is enough that the last step sees to it.
pub Leaves-bind :
    {S A B : Type 0} {P : S → Type 0} (m : Action S A) (f : A → Action S B)
    → ((a : A) → Leaves P (f a))
    → Leaves P (m >>= f)
Leaves-bind m f l = record {
  at = λ s {a = y} h. elim (Result-cases (m s).0) [
    | inl (x, e) ↦ rw e ((l x).at (m s).1 (rw e at h))
    | inr (inl (x, e)) ↦ absurd (ground (arith, rw e at h))
    | inr (inr e) ↦ absurd (ground (arith, rw e at h))
  ];
}

-- What is true of the value and the state whenever an action returns a value.
pub record Yields {S A : Type 0} (P : A → S → Type 0) (m : Action S A) : Type 0 where
  pub at : (s s' : S) (a : A) → m s ≡ (ok a, s') → P a s'

pub Yields-bind :
    {S A B : Type 0} {P : B → S → Type 0} (m : Action S A) (f : A → Action S B)
    → ((a : A) → Yields P (f a))
    → Yields P (m >>= f)
Yields-bind m f l = record {
  at = λ s s' y h. let (x, e, rest) = bind_then m f s h in (l x).at (m s).1 s' y rest;
}

-- The rest of a sequence, after a step that has returned a value.
pub bind_runs {κ} :
    {S A : Type 0} {B : Type κ} (m : Action S A) (f : A → Action S B) (s s' : S) (a : A)
    → m s ≡ (ok a, s')
    → (m >>= f) s ≡ f a s'
bind_runs m f s s' a e = rw e refl

-- What a sequence that ends with a value has returned.
pub pure_then : {S A : Type 0} (x y : A) (s s' : S) → pure {S = S} x s ≡ (ok y, s') → x ≡ y
pure_then x y s s' h = ground arith

pub pure_state : {S A : Type 0} (x y : A) (s s' : S) → pure {S = S} x s ≡ (ok y, s') → s ≡ s'
pure_state x y s s' h = ap (λ r. r.1) h
