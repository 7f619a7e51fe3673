-- ===== src/Go.antt =====
-- The parts of Go that the program's code is written in: results with an error or a panic, byte
-- slices with their bounds checks, and little- and big-endian integers (encoding/binary).
pub mod Bytes
pub mod Endian
pub mod Loops
use btc_wallet.Base.{◌≡◌, refl, ◌⊎◌, inl, inr, Bool, true, false}
use btc_wallet.Errors.{Error}

-- What a call returns: values, a non-nil error, or a run-time panic.
pub data Result {ℓ} (A : Type ℓ) : Type ℓ where
  ok : A → Result A
  err : Error → Result A
  panic : Result A

infixl 5 ◌>>=◌ ◌>>◌
abbrev pub ◌>>=◌ {ℓ κ} : {A : Type ℓ} {B : Type κ} → Result A → (A → Result B) → Result B
ok a >>= f = f a
err e >>= f = err e
panic >>= f = panic

abbrev pub ◌>>◌ {ℓ κ} : {A : Type ℓ} {B : Type κ} → Result A → Result B → Result B
m >> k = m >>= λ _. k

-- `if c { return …, e }`
abbrev pub fail_if : Bool → Error → Result (Unit {0})
fail_if true e = err e
fail_if false e = ok tt

-- A run-time bounds check.
abbrev pub check : Bool → Result (Unit {0})
check true = ok tt
check false = panic

pub Result-cases {ℓ} :
    {A : Type ℓ} (r : Result A)
    → ((a : A) × (r ≡ ok a)) ⊎ (((e : Error) × (r ≡ err e)) ⊎ (r ≡ panic))
Result-cases (ok a) = inl (a, refl)
Result-cases (err e) = inr (inl (e, refl))
Result-cases panic = inr (inr refl)
