-- ===== src/Walletdb/Memory.antt =====
-- A transaction's tree kept as two lists, to show that the laws of `Bolt` can be met and to run the
-- program's operations on.
use btc_wallet.Base.{
  ◌≡◌, ◌≢◌, ◌<◌, length, refl, ap, ◌⊎◌, Bool, true, false, ◌&&◌, ◌||◌, Option, none, some, List, [],
  ◌∷◌, ◌++◌, path_eq, path_eq_iff, bytes_eq, bytes_eq_iff, arith, if◌then◌else◌,
}
use btc_wallet.Go.Bytes.{Bytes}
use btc_wallet.Walletdb.Bolt.{Bolt, BoltLaws, BoltError, BucketPath}

pub record MemoryTree : Type 0 where
  pub buckets : List BucketPath
  pub cells : List (BucketPath × Bytes × Bytes)

abbrev pub member : BucketPath → List BucketPath → Bool
member p [] = false
member p (q ∷ qs) = path_eq p q || member p qs

abbrev pub find_cell : BucketPath → Bytes → List (BucketPath × Bytes × Bytes) → Option Bytes
find_cell p k [] = none
find_cell p k ((q, j, v) ∷ cells) =
    if path_eq q p && bytes_eq j k then some v else find_cell p k cells

abbrev pub bucket_keys : BucketPath → List BucketPath → List Bytes
bucket_keys p [] = []
bucket_keys p ([] ∷ qs) = bucket_keys p qs
bucket_keys p ((k ∷ q) ∷ qs) = let keys = bucket_keys p qs in if path_eq q p then k ∷ keys else keys

abbrev pub cell_keys : BucketPath → List (BucketPath × Bytes × Bytes) → List Bytes
cell_keys p [] = []
cell_keys p ((q, k, v) ∷ cells) =
    let keys = cell_keys p cells in if path_eq q p then k ∷ keys else keys

abbrev is_none : Option Bytes → Bool
is_none none = true
is_none (some v) = false

abbrev memory_put : MemoryTree → BucketPath → Bytes → Bytes → Option BoltError × MemoryTree
memory_put t p [] v = (some BoltError.key_required, t)
memory_put t p (c ∷ k) v =
    if member ((c ∷ k) ∷ p) t.buckets
    then (some BoltError.incompatible_value, t)
    else if member p t.buckets
    then (none, record t { cells = (p, c ∷ k, v) ∷ t.cells })
    else (some BoltError.bucket_not_found, t)

abbrev memory_create : MemoryTree → BucketPath → Bytes → Option BoltError × MemoryTree
memory_create t p [] = (some BoltError.bucket_name_required, t)
memory_create t p (c ∷ k) =
    if member ((c ∷ k) ∷ p) t.buckets
    then (some BoltError.bucket_exists, t)
    else if is_none (find_cell p (c ∷ k) t.cells)
    then (none, record t { buckets = ((c ∷ k) ∷ p) ∷ t.buckets })
    else (some BoltError.incompatible_value, t)

abbrev memory_create_if : MemoryTree → BucketPath → Bytes → Option BoltError × MemoryTree
memory_create_if t p k = if member (k ∷ p) t.buckets then (none, t) else memory_create t p k

instance abbrev pub memory : Bolt
memory = record {
  Tree = MemoryTree;
  writable = λ t. true;
  exists = λ t p. member p t.buckets;
  get = λ t p k. find_cell p k t.cells;
  keys = λ t p. bucket_keys p t.buckets ++ cell_keys p t.cells;
  put = memory_put;
  create_bucket = memory_create;
  create_bucket_if_not_exists = memory_create_if;
}

find-put_self :
    (t : MemoryTree) (p : BucketPath) (k v : Bytes)
    → (memory_put t p k v).0 ≡ none
    → find_cell p k (memory_put t p k v).1.cells ≡ some v
find-put_self t p [] v h = cc
find-put_self t p (c ∷ k) v h =
    ground (arith, (path_eq_iff p p).1 refl, (bytes_eq_iff (c ∷ k) (c ∷ k)).1 refl)

find-put_ne :
    (t : MemoryTree) (p : BucketPath) (k v : Bytes) (q : BucketPath) (j : Bytes)
    → (memory_put t p k v).0 ≡ none
    → ((p ≢ q) ⊎ (k ≢ j))
    → find_cell q j (memory_put t p k v).1.cells ≡ find_cell q j t.cells
find-put_ne t p [] v q j h d = cc
find-put_ne t p (c ∷ k) v q j h d = ground (arith, path_eq_iff p q, bytes_eq_iff (c ∷ k) j)

module _ (t : MemoryTree) (p : BucketPath) where
  buckets-put : (k v : Bytes) (q : BucketPath) → (memory_put t p k v).1.buckets ≡ t.buckets
  buckets-put [] v q = refl
  buckets-put (c ∷ k) v q = ground arith

  put_failed_lem : (k v : Bytes) → (memory_put t p k v).0 ≢ none → (memory_put t p k v).1 ≡ t
  put_failed_lem [] v h = refl
  put_failed_lem (c ∷ k) v h = ground arith

  put_ok_lem :
      (k v : Bytes)
      → member p t.buckets ≡ true
      → member (k ∷ p) t.buckets ≡ false
      → 0 < length k
      → (memory_put t p k v).0 ≡ none
  put_ok_lem [] v e f h = absurd (omega arith)
  put_ok_lem (c ∷ k) v e f h = ground arith

  create_self :
      (k : Bytes)
      → (memory_create t p k).0 ≡ none
      → member (k ∷ p) (memory_create t p k).1.buckets ≡ true
  create_self [] h = cc
  create_self (c ∷ k) h = ground (arith, (path_eq_iff ((c ∷ k) ∷ p) ((c ∷ k) ∷ p)).1 refl)

  create_ne :
      (k : Bytes) (q : BucketPath)
      → (memory_create t p k).0 ≡ none
      → k ∷ p ≢ q
      → member q (memory_create t p k).1.buckets ≡ member q t.buckets
  create_ne [] q h d = cc
  create_ne (c ∷ k) q h d = ground (arith, path_eq_iff q ((c ∷ k) ∷ p))

  cells-create : (k : Bytes) → (memory_create t p k).1.cells ≡ t.cells
  cells-create [] = refl
  cells-create (c ∷ k) = ground arith

pub memory_laws : BoltLaws memory
memory_laws = record {
  get-put_self = find-put_self;
  get-put_ne = find-put_ne;
  exists-put = λ t p k v q. ap (member q) (buckets-put t p k v q);
  put_ok = λ t p k v _ e f h _ _. put_ok_lem t p k v e f h;
  writable-put = λ t p k v. refl;
  put_failed = put_failed_lem;
  exists-create_self = create_self;
  exists-create_ne = create_ne;
  get-create = λ t p k q j. ap (find_cell q j) (cells-create t p k);
  create_if-existing = λ t p k e done. ground arith;
  create_if-absent = λ t p k e. ground arith;
}
