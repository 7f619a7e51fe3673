-- ===== src/Go/Bytes.antt =====
-- Byte slices. A slice expression or a `copy` works on the model of an array made by `make`, whose
-- capacity is its length, so a bound past the end panics.
use btc_wallet.Base.{
  ℕ, ◌+◌, ◌-◌, ◌%◌, ◌^◌, ◌≤◌, ◌<◌, ◌≡◌, refl, sym, ap, ◌∙◌, subst, List, [], ◌∷◌, ◌++◌, append-nil,
  leb, ◌&&◌, length, take, drop, replicate, append_assoc, arith, take-append, drop-append, take_all,
  drop-length, drop-drop, length-append, length-replicate, replicate-add,
}
use mathlib.Core.Path.{ap₂}
use Prim.Native.Char.{code}
use Prim.Native.String.{String}
use btc_wallet.Go.{Result, ok, panic, ◌>>◌, check}

abbrev pub Bytes : Type 0
Bytes = List ℕ

-- The bytes of a string constant in ASCII, `[]byte("…")`.
abbrev pub codes : String → Bytes
codes String.[] = []
codes (String.◌∷◌ c s) = code c ∷ codes s

abbrev pub IsByte : ℕ → Type 0
IsByte b = b < 256

-- The conversion `uint32(x)`, and the result of arithmetic on `uint32`.
abbrev pub u32 : ℕ → ℕ
u32 n = n % 2 ^ 32

abbrev pub IsU32 : ℕ → Type 0
IsU32 n = n < 2 ^ 32

abbrev pub u64 : ℕ → ℕ
u64 n = n % 2 ^ 64

abbrev pub IsU64 : ℕ → Type 0
IsU64 n = n < 2 ^ 64

-- `make([]byte, n)`
abbrev pub make_bytes : ℕ → Bytes
make_bytes n = replicate n 0

-- `buf[lo:hi]`
unfoldable pub slice : ℕ → ℕ → Bytes → Result Bytes
slice lo hi buf = do check (leb lo hi && leb hi (length buf)); ok (take (hi - lo) (drop lo buf))

-- `buf` after `copy(buf[lo:hi], src)`: no more than the window holds is copied.
unfoldable pub copy_into : ℕ → ℕ → Bytes → Bytes → Result Bytes
copy_into lo hi src buf = do
  check (leb lo hi && leb hi (length buf))
  let part = take (hi - lo) src
  ok (take lo buf ++ (part ++ drop (lo + length part) buf))

-- `buf[i] = v`
unfoldable pub set_byte : ℕ → ℕ → Bytes → Result Bytes
unfolding copy_into
set_byte i v buf = copy_into i (i + 1) (v ∷ []) buf

first_byte : Bytes → Result ℕ
first_byte [] = panic
first_byte (b ∷ bs) = ok b

-- `buf[i]`
unfoldable pub byte_at : ℕ → Bytes → Result ℕ
unfolding first_byte
byte_at i buf = first_byte (drop i buf)

-- `dst := make([]byte, n); copy(dst, src)`
abbrev pub copy_of : ℕ → Bytes → Bytes
copy_of n src = take n src ++ drop (length (take n src)) (make_bytes n)

pub copy_of_whole : (n : ℕ) (src : Bytes) → length src ≡ n → copy_of n src ≡ src
copy_of_whole n src e =
    rw (take_all n src (omega arith), e)
      (ap (λ l. src ++ l)
          (subst (λ k. drop k (make_bytes n) ≡ []) (length-replicate n 0)
            (drop-length (make_bytes n)))
        ∙ append-nil src)

-- The reader's position: `rest` is what `raw` holds from offset `lo` on.
pub record At (raw : Bytes) (lo : ℕ) (rest : Bytes) : Type 0 where
  pub dropped : drop lo raw ≡ rest
  pub measured : lo + length rest ≡ length raw

pub At-start : (raw : Bytes) → At raw 0 raw
At-start raw = record { dropped = refl; measured = omega arith }

pub At-start_eq : (raw rest : Bytes) → raw ≡ rest → At raw 0 rest
At-start_eq raw rest e = record { dropped = e; measured = omega (arith, ap length e) }

-- The position moves past a field that stands in front.
pub At-append :
    (raw : Bytes) (lo hi : ℕ) (front back : Bytes)
    → At raw lo (front ++ back)
    → hi ≡ lo + length front
    → At raw hi back
At-append raw lo hi front back a e = record {
  dropped = rw e (
      sym (drop-drop lo (length front) raw)
      ∙ ap (drop (length front)) a.dropped
      ∙ drop-append front back);
  measured = omega (arith, a.measured, length-append front back);
}

pub slice_in_bounds :
    (lo hi : ℕ) (buf : Bytes)
    → lo ≤ hi
    → hi ≤ length buf
    → slice lo hi buf ≡ ok (take (hi - lo) (drop lo buf))
unfolding slice
slice_in_bounds lo hi buf p q = ground arith

pub copy_into_in_bounds :
    (lo hi : ℕ) (src buf : Bytes)
    → lo ≤ hi
    → hi ≤ length buf
    → length src ≤ hi - lo
    → copy_into lo hi src buf ≡ ok (take lo buf ++ (src ++ drop (lo + length src) buf))
unfolding copy_into
copy_into_in_bounds lo hi src buf p q fits = rw (take_all (hi - lo) src fits) (ground arith)

pub slice-At :
    (raw : Bytes) (lo hi : ℕ) (front back : Bytes)
    → At raw lo (front ++ back)
    → hi ≡ lo + length front
    → slice lo hi raw ≡ ok front
slice-At raw lo hi front back a e =
    slice_in_bounds lo hi raw (omega arith) (omega (arith, a.measured, length-append front back))
    ∙ ap ok (ap₂ take width a.dropped ∙ take-append front back)
  where
    width : hi - lo ≡ length front
    width = omega arith

-- Filling the zeros that follow what has been written.
pub copy_into-fill :
    (pre src : Bytes) (lo hi m n : ℕ)
    → lo ≡ length pre
    → hi ≡ lo + length src
    → m ≡ length src + n
    → copy_into lo hi src (pre ++ make_bytes m) ≡ ok ((pre ++ src) ++ make_bytes n)
copy_into-fill pre src lo hi m n el eh em =
    copy_into_in_bounds lo hi src (pre ++ make_bytes m) (omega arith) (omega (arith, total))
      (omega arith)
    ∙ ap ok filled
  where
    total : length (pre ++ make_bytes m) ≡ length pre + m
    total = length-append pre (make_bytes m) ∙ ap (λ k. length pre + k) (length-replicate m 0)

    taken : take lo (pre ++ make_bytes m) ≡ pre
    taken = rw el (take-append pre (make_bytes m))

    zeros : make_bytes m ≡ make_bytes (length src) ++ make_bytes n
    zeros = rw em (replicate-add (length src) n 0)

    behind : drop lo (pre ++ make_bytes m) ≡ make_bytes (length src) ++ make_bytes n
    behind = rw el (drop-append pre (make_bytes m)) ∙ zeros

    dropped : drop (lo + length src) (pre ++ make_bytes m) ≡ make_bytes n
    dropped =
        sym (drop-drop lo (length src) (pre ++ make_bytes m))
        ∙ ap (drop (length src)) behind
        ∙ subst (λ k. drop k (make_bytes (length src) ++ make_bytes n) ≡ make_bytes n)
            (length-replicate (length src) 0) (drop-append (make_bytes (length src)) (make_bytes n))

    filled :
        take lo (pre ++ make_bytes m) ++ (src ++ drop (lo + length src) (pre ++ make_bytes m))
        ≡ (pre ++ src) ++ make_bytes n
    filled = ap₂ (λ a b. a ++ (src ++ b)) taken dropped ∙ sym (append_assoc pre src (make_bytes n))

pub set_byte-fill :
    (pre : Bytes) (v lo m n : ℕ)
    → lo ≡ length pre
    → m ≡ 1 + n
    → set_byte lo v (pre ++ make_bytes m) ≡ ok ((pre ++ v ∷ []) ++ make_bytes n)
unfolding set_byte
set_byte-fill pre v lo m n el em = copy_into-fill pre (v ∷ []) lo (lo + 1) m n el (omega arith) em

pub byte_at-At :
    (raw : Bytes) (lo b : ℕ) (back : Bytes) → At raw lo (b ∷ back) → byte_at lo raw ≡ ok b
unfolding byte_at
byte_at-At raw lo b back a = rw a.dropped
