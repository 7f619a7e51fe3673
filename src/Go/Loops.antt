-- ===== src/Go/Loops.antt =====
-- Computations with loops that have no bound in the code. `none` is a computation whose loops have
-- not come to an end in the rounds that they were given.
use btc_wallet.Base.{◌≡◌, refl, Option, none, some, arith}
use btc_wallet.Go.{Result, ok, err, panic}
use btc_wallet.Walletdb.Bdb.{Action, pure}

abbrev pub Looping : Type 0 → Type 0 → Type 0
Looping S A = S → Option (Result A × S)

module _ {S : Type 0} where
  -- A computation without such loops.
  abbrev pub returns : {A : Type 0} → Action S A → Looping S A
  returns m s = some (m s)

  -- A loop that does not touch the state.
  abbrev pub looped : {A : Type 0} → Option (Result A) → Looping S A
  looped none s = none
  looped (some r) s = some (r, s)

  abbrev pub continue :
      {A B : Type 0} → Option (Result A × S) → (A → Looping S B) → Option (Result B × S)
  continue none f = none
  continue (some (ok a, s)) f = f a s
  continue (some (err e, s)) f = some (err e, s)
  continue (some (panic, s)) f = some (panic, s)

  infixl 5 ◌>>=◌ ◌>>◌
  abbrev pub ◌>>=◌ : {A B : Type 0} → Looping S A → (A → Looping S B) → Looping S B
  ◌>>=◌ m f s = continue (m s) f

  abbrev pub ◌>>◌ : {A B : Type 0} → Looping S A → Looping S B → Looping S B
  m >> n = m >>= λ _. n

  continued :
      {A B : Type 0} (f : A → Looping S B) (s' : S) (y : B) (o : Option (Result A × S))
      → continue o f ≡ some (ok y, s')
      → (x : A) × (s1 : S) × (o ≡ some (ok x, s1)) × (f x s1 ≡ some (ok y, s'))
  continued f s' y none h = absurd (ground arith)
  continued f s' y (some (ok x, s1)) h = (x, s1, refl, h)
  continued f s' y (some (err e, s1)) h = absurd (ground arith)
  continued f s' y (some (panic, s1)) h = absurd (ground arith)

  -- What a step and the rest did, when the whole has returned no error.
  pub loop_then :
      {A B : Type 0} (m : Looping S A) (f : A → Looping S B) (s : S) {s' : S} {y : B}
      → (m >>= f) s ≡ some (ok y, s')
      → (x : A) × (s1 : S) × (m s ≡ some (ok x, s1)) × (f x s1 ≡ some (ok y, s'))
  loop_then m f s {s' = s'} {y = y} h = continued f s' y (m s) h

  -- What a computation that only returns has returned.
  pub returned : {A : Type 0} (x y : A) (s s' : S) → returns (pure x) s ≡ some (ok y, s') → x ≡ y
  returned x y s s' h = ground arith

  -- A computation without loops that has returned no error.
  pub returns_ok :
      {A : Type 0} (m : Action S A) (s s' : S) (x : A)
      → returns m s ≡ some (ok x, s')
      → m s ≡ (ok x, s')
  returns_ok m s s' x h = ground arith
