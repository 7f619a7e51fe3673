-- ===== src/Go/Endian.antt =====
-- encoding/binary: fixed-width integers in little- and big-endian order.
use mathlib.Core.List.{reverse}
use btc_wallet.Base.{
  ℕ, zero, suc, ◌+◌, ◌*◌, ◌/◌, ◌%◌, ◌^◌, ◌-◌, ◌<◌, ◌≤◌, ◌≡◌, refl, ap, [], ◌∷◌, ◌++◌, leb, length,
  drop, length-take, take_all, true, length-drop, take, arith,
}
use native.Mathlib.Nat.{pow-succ'}
use btc_wallet.Go.{Result, ok, ◌>>=◌, ◌>>◌, check}
use btc_wallet.Go.Bytes.{
  Bytes, At, make_bytes, slice, slice-At, slice_in_bounds, copy_into, copy_into-fill,
}

-- The `n` low bytes of a number, the lowest first.
abbrev pub le_bytes : ℕ → ℕ → Bytes
le_bytes zero v = []
le_bytes (suc n) v = v % 256 ∷ le_bytes n (v / 256)

abbrev pub le_value : Bytes → ℕ
le_value [] = 0
le_value (b ∷ bs) = b + 256 * le_value bs

-- `binary.LittleEndian.PutUint32(buf[lo:hi], v)`
unfoldable pub put_uint32 : ℕ → ℕ → ℕ → Bytes → Result Bytes
put_uint32 lo hi v buf = do check (leb (lo + 4) hi); copy_into lo hi (le_bytes 4 v) buf

-- `binary.LittleEndian.PutUint64(buf[lo:hi], v)`
unfoldable pub put_uint64 : ℕ → ℕ → ℕ → Bytes → Result Bytes
put_uint64 lo hi v buf = do check (leb (lo + 8) hi); copy_into lo hi (le_bytes 8 v) buf

-- `binary.LittleEndian.Uint32(bs)`
unfoldable pub uint32 : Bytes → Result ℕ
uint32 bs = do check (leb 4 (length bs)); ok (le_value (take 4 bs))

-- `binary.LittleEndian.Uint64(bs)`
unfoldable pub uint64 : Bytes → Result ℕ
uint64 bs = do check (leb 8 (length bs)); ok (le_value (take 8 bs))

-- `binary.BigEndian.Uint64(bs)`
unfoldable pub uint64_be : Bytes → Result ℕ
uint64_be bs = do check (leb 8 (length bs)); ok (le_value (reverse (take 8 bs)))

pub length-le_bytes : (n v : ℕ) → length (le_bytes n v) ≡ n
length-le_bytes zero v = refl
length-le_bytes (suc n) v = omega (arith, length-le_bytes n (v / 256))

quotient_lt : (n v : ℕ) → v < 256 ^ suc n → v / 256 < 256 ^ n
quotient_lt n v h = omega (arith, pow-succ' 256 n)

pub le_value-le_bytes : (n v : ℕ) → v < 256 ^ n → le_value (le_bytes n v) ≡ v
le_value-le_bytes zero v h = omega arith
le_value-le_bytes (suc n) v h = omega (arith, le_value-le_bytes n (v / 256) (quotient_lt n v h))

-- An unsigned 32-bit number that was written is read back.
pub uint32-le_bytes : (v : ℕ) → v < 2 ^ 32 → uint32 (le_bytes 4 v) ≡ ok v
unfolding uint32
uint32-le_bytes v h = ap ok (le_value-le_bytes 4 v h)

pub uint64-le_bytes : (v : ℕ) → v < 2 ^ 64 → uint64 (le_bytes 8 v) ≡ ok v
unfolding uint64
uint64-le_bytes v h = ap ok (le_value-le_bytes 8 v h)

pub put_uint32-fill :
    (pre : Bytes) (v lo hi m n : ℕ)
    → lo ≡ length pre
    → hi ≡ lo + 4
    → m ≡ 4 + n
    → put_uint32 lo hi v (pre ++ make_bytes m) ≡ ok ((pre ++ le_bytes 4 v) ++ make_bytes n)
unfolding put_uint32
put_uint32-fill pre v lo hi m n el eh em =
    ground (arith, copy_into-fill pre (le_bytes 4 v) lo hi m n el eh em)

pub put_uint64-fill :
    (pre : Bytes) (v lo hi m n : ℕ)
    → lo ≡ length pre
    → hi ≡ lo + 8
    → m ≡ 8 + n
    → put_uint64 lo hi v (pre ++ make_bytes m) ≡ ok ((pre ++ le_bytes 8 v) ++ make_bytes n)
unfolding put_uint64
put_uint64-fill pre v lo hi m n el eh em =
    ground (arith, copy_into-fill pre (le_bytes 8 v) lo hi m n el eh em)

-- `binary.LittleEndian.Uint32(raw[lo:hi])`
unfoldable pub read_uint32 : ℕ → ℕ → Bytes → Result ℕ
read_uint32 lo hi raw = slice lo hi raw >>= uint32

pub read_uint32-At :
    (raw : Bytes) (lo hi v : ℕ) (back : Bytes)
    → At raw lo (le_bytes 4 v ++ back)
    → hi ≡ lo + 4
    → v < 2 ^ 32
    → read_uint32 lo hi raw ≡ ok v
unfolding read_uint32
read_uint32-At raw lo hi v back a e h =
    rw (slice-At raw lo hi (le_bytes 4 v) back a e) (uint32-le_bytes v h)

-- `binary.LittleEndian.Uint64(raw[lo:hi])`
unfoldable pub read_uint64 : ℕ → ℕ → Bytes → Result ℕ
read_uint64 lo hi raw = slice lo hi raw >>= uint64

pub read_uint64-At :
    (raw : Bytes) (lo hi v : ℕ) (back : Bytes)
    → At raw lo (le_bytes 8 v ++ back)
    → hi ≡ lo + 8
    → v < 2 ^ 64
    → read_uint64 lo hi raw ≡ ok v
unfolding read_uint64
read_uint64-At raw lo hi v back a e h =
    rw (slice-At raw lo hi (le_bytes 8 v) back a e) (uint64-le_bytes v h)

pub read_uint64_in_bounds :
    (lo hi : ℕ) (raw : Bytes)
    → hi ≡ lo + 8
    → hi ≤ length raw
    → read_uint64 lo hi raw ≡ ok (le_value (take 8 (drop lo raw)))
unfolding read_uint64 uint64
read_uint64_in_bounds lo hi raw e h =
    rw
      (
        slice_in_bounds lo hi raw (omega arith) h,
        width,
        take_all 8 (take 8 (drop lo raw)) short,
        full,
      )
      refl
  where
    width : hi - lo ≡ 8
    width = omega arith

    short : length (take 8 (drop lo raw)) ≤ 8
    short = omega (arith, length-take 8 (drop lo raw))

    full : leb 8 (length (take 8 (drop lo raw))) ≡ true
    full = ground (arith, length-take 8 (drop lo raw), length-drop lo raw)
