-- ===== src/Snacl/Compare.antt =====
-- `constantTimeCompare` (snacl/snacl.go), with the bit operations on bytes that it uses.
use btc_wallet.Base.{
  ℕ, zero, suc, ◌+◌, ◌-◌, ◌*◌, ◌/◌, ◌%◌, ◌^◌, ◌<◌, ◌≡◌, ◌≢◌, ◌↔◌, ap, not, ◌==◌, if◌then◌else◌, [],
  ◌∷◌, length, All, arith, Bool-cases, inl, inr,
}
use btc_wallet.Go.Bytes.{Bytes, IsByte, u32}

-- `x | y` and `x ^ y` on the lowest `n` bits.
or_bits : ℕ → ℕ → ℕ → ℕ
or_bits zero x y = 0
or_bits (suc n) x y = (if x % 2 + y % 2 == 0 then 0 else 1) + 2 * or_bits n (x / 2) (y / 2)

xor_bits : ℕ → ℕ → ℕ → ℕ
xor_bits zero x y = 0
xor_bits (suc n) x y = (if x % 2 == y % 2 then 0 else 1) + 2 * xor_bits n (x / 2) (y / 2)

-- The loop: `v |= x[i] ^ y[i]` over slices of the same length.
fold_difference : ℕ → Bytes → Bytes → ℕ
fold_difference v (x ∷ xs) (y ∷ ys) = fold_difference (or_bits 8 v (xor_bits 8 x y)) xs ys
fold_difference v _ _ = v

-- `v ^ 0` is `v`, the subtraction is on uint32, and the shift keeps the highest bit.
pub constant_time_compare : Bytes → Bytes → ℕ
constant_time_compare x y =
    if not (length x == length y) then 0 else u32 (fold_difference 0 x y + (2 ^ 32 - 1)) / 2 ^ 31

half_lt : (n x : ℕ) → x < 2 ^ suc n → x / 2 < 2 ^ n
half_lt n x h = omega arith

or_bits-zero : (n x y : ℕ) → x < 2 ^ n → y < 2 ^ n → (or_bits n x y ≡ 0) ↔ ((x ≡ 0) × (y ≡ 0))
unfolding or_bits
or_bits-zero zero x y hx hy = ground arith
or_bits-zero (suc n) x y hx hy =
    ground (arith, or_bits-zero n (x / 2) (y / 2) (half_lt n x hx) (half_lt n y hy))

or_bits_bound : (n x y : ℕ) → or_bits n x y < 2 ^ n
unfolding or_bits
or_bits_bound zero x y = omega arith
or_bits_bound (suc n) x y = ground (arith, or_bits_bound n (x / 2) (y / 2))

xor_bits-zero : (n x y : ℕ) → x < 2 ^ n → y < 2 ^ n → (xor_bits n x y ≡ 0) ↔ (x ≡ y)
unfolding xor_bits
xor_bits-zero zero x y hx hy = ground arith
xor_bits-zero (suc n) x y hx hy =
    ground (arith, xor_bits-zero n (x / 2) (y / 2) (half_lt n x hx) (half_lt n y hy))

xor_bits_bound : (n x y : ℕ) → xor_bits n x y < 2 ^ n
unfolding xor_bits
xor_bits_bound zero x y = omega arith
xor_bits_bound (suc n) x y = ground (arith, xor_bits_bound n (x / 2) (y / 2))

fold_difference-zero :
    (v : ℕ) (xs ys : Bytes)
    → v < 256
    → All IsByte xs
    → All IsByte ys
    → length xs ≡ length ys
    → (fold_difference v xs ys < 256) × ((fold_difference v xs ys ≡ 0) ↔ ((v ≡ 0) × (xs ≡ ys)))
unfolding fold_difference
fold_difference-zero v [] [] hv bx by e = (hv, ground arith)
fold_difference-zero v [] (y ∷ ys) hv bx by e = absurd (omega arith)
fold_difference-zero v (x ∷ xs) [] hv bx by e = absurd (omega arith)
fold_difference-zero v (x ∷ xs) (y ∷ ys) hv (hx, bx) (hy, by) e =
    let (bound, ih) =
      fold_difference-zero (or_bits 8 v (xor_bits 8 x y)) xs ys (or_bits_bound 8 v (xor_bits 8 x y))
        bx by (omega arith) in
    let o = or_bits-zero 8 v (xor_bits 8 x y) hv (xor_bits_bound 8 x y) in
    let d = xor_bits-zero 8 x y hx hy in (bound, ground arith)

-- On strings of bytes constantTimeCompare answers 1 for equal ones and 0 for all others.
pub constant_time_compare_lem :
    (x y : Bytes)
    → All IsByte x
    → All IsByte y
    → ((constant_time_compare x y ≡ 1) ↔ (x ≡ y)) × ((constant_time_compare x y ≡ 0) ↔ (x ≢ y))
unfolding constant_time_compare
constant_time_compare_lem x y bx by = elim (Bool-cases (length x == length y)) [
  | inl same ↦
      let (bound, zero_iff) = fold_difference-zero 0 x y (omega arith) bx by (ground arith) in
      ground arith
  | inr other ↦ ground (arith, λ (e : x ≡ y). ap length e)
]
