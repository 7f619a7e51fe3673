-- ===== src/Base/Equality.antt =====
-- Boolean equality of lists, for byte strings and paths.
use Prim.Native.Nat.{ℕ}
use mathlib.Core.Path.{◌≡◌, refl, ap₂}
use mathlib.Core.Logic.{◌↔◌, ◌≢◌}
use mathlib.Core.Bool.{Bool, true, false, ◌&&◌}
use mathlib.Core.List.{List, [], ◌∷◌}
use native.Mathlib.Omega.{arith}
use btc_wallet.Base.Tests.{◌==◌}

module _ {ℓ} {A : Type ℓ} (eq : A → A → Bool) where
  abbrev pub list_eq : List A → List A → Bool
  list_eq [] [] = true
  list_eq [] (y ∷ ys) = false
  list_eq (x ∷ xs) [] = false
  list_eq (x ∷ xs) (y ∷ ys) = eq x y && list_eq xs ys

  module _ (iff : (a b : A) → (eq a b ≡ true) ↔ (a ≡ b)) where
    list_eq→eq : (xs ys : List A) → list_eq xs ys ≡ true → xs ≡ ys
    list_eq→eq [] [] h = refl
    list_eq→eq [] (y ∷ ys) h = cc
    list_eq→eq (x ∷ xs) [] h = cc
    list_eq→eq (x ∷ xs) (y ∷ ys) h =
        ap₂ (λ a l. a ∷ l) ((iff x y).0 (ground arith)) (list_eq→eq xs ys (ground arith))

    list_eq_refl : (xs : List A) → list_eq xs xs ≡ true
    list_eq_refl [] = refl
    list_eq_refl (x ∷ xs) = ground (arith, (iff x x).1 refl, list_eq_refl xs)

    pub list_eq_iff : (xs ys : List A) → (list_eq xs ys ≡ true) ↔ (xs ≡ ys)
    list_eq_iff xs ys = (list_eq→eq xs ys, λ e. rw e (list_eq_refl ys))

nat_eq_iff : (a b : ℕ) → ((a == b) ≡ true) ↔ (a ≡ b)
nat_eq_iff a b = ground arith

abbrev pub bytes_eq : List ℕ → List ℕ → Bool
bytes_eq = list_eq (λ a b. a == b)

pub bytes_eq_iff : (a b : List ℕ) → (bytes_eq a b ≡ true) ↔ (a ≡ b)
bytes_eq_iff = list_eq_iff (λ a b. a == b) nat_eq_iff

abbrev pub path_eq : List (List ℕ) → List (List ℕ) → Bool
path_eq = list_eq bytes_eq

pub path_eq_iff : (a b : List (List ℕ)) → (path_eq a b ≡ true) ↔ (a ≡ b)
path_eq_iff = list_eq_iff bytes_eq bytes_eq_iff

-- Byte strings that the test tells apart are different.
pub bytes_ne : (a b : List ℕ) → bytes_eq a b ≡ false → a ≢ b
bytes_ne a b h e = cc ((bytes_eq_iff a b).1 e)
