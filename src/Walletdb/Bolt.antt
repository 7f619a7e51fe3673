-- ===== src/Walletdb/Bolt.antt =====
-- The part of go.etcd.io/bbolt that the driver calls, as a parameter: what one read-write
-- transaction sees is a `Tree` of nested buckets. A bucket is named by its path, innermost first.
use btc_wallet.Base.{
  ℕ, ◌≡◌, ◌≢◌, ◌⊎◌, ◌<◌, ◌≤◌, Bool, true, false, Option, none, some, List, ◌∷◌, length,
}
use btc_wallet.Go.Bytes.{Bytes}

abbrev pub BucketPath : Type 0
BucketPath = List Bytes

-- The error variables of bbolt that the driver converts, and all others by number.
pub data BoltError : Type 0 where
  database_not_open invalid : BoltError
  tx_not_writable tx_closed : BoltError
  bucket_not_found bucket_exists bucket_name_required : BoltError
  key_required key_too_large value_too_large incompatible_value : BoltError
  other : ℕ → BoltError

pub record Bolt : Type 1 where
  pub Tree : Type 0
  -- `Tx.Writable`
  pub writable : Tree → Bool
  -- `Bucket.Bucket(key) != nil`, for the bucket at a path
  pub exists : Tree → BucketPath → Bool
  -- `Bucket.Get`; `none` is nil
  pub get : Tree → BucketPath → Bytes → Option Bytes
  -- The keys that `Bucket.ForEach` visits, in its order; the names of nested buckets are among them.
  pub keys : Tree → BucketPath → List Bytes
  -- `Bucket.Put`: nil or an error, and the tree afterwards
  pub put : Tree → BucketPath → Bytes → Bytes → Option BoltError × Tree
  -- `Bucket.CreateBucket`
  pub create_bucket : Tree → BucketPath → Bytes → Option BoltError × Tree
  -- `Bucket.CreateBucketIfNotExists`
  pub create_bucket_if_not_exists : Tree → BucketPath → Bytes → Option BoltError × Tree

-- What bbolt documents of these calls, as far as the address manager relies on it.
pub record BoltLaws (b : Bolt) : Type 0 where
  -- A `Put` without an error changes its own key and nothing else.
  pub get-put_self :
      (t : b.Tree) (p : BucketPath) (k v : Bytes)
      → (b.put t p k v).0 ≡ none
      → b.get (b.put t p k v).1 p k ≡ some v
  pub get-put_ne :
      (t : b.Tree) (p : BucketPath) (k v : Bytes) (q : BucketPath) (j : Bytes)
      → (b.put t p k v).0 ≡ none
      → ((p ≢ q) ⊎ (k ≢ j))
      → b.get (b.put t p k v).1 q j ≡ b.get t q j
  pub exists-put :
      (t : b.Tree) (p : BucketPath) (k v : Bytes) (q : BucketPath)
      → b.exists (b.put t p k v).1 q ≡ b.exists t q
  -- A `Put` into a bucket of a writable transaction succeeds, with a key and a value of allowed sizes
  -- and a key that is not the name of a nested bucket.
  pub put_ok :
      (t : b.Tree) (p : BucketPath) (k v : Bytes)
      → b.writable t ≡ true
      → b.exists t p ≡ true
      → b.exists t (k ∷ p) ≡ false
      → 0 < length k
      → length k ≤ 32768
      → length v ≤ 2147483646
      → (b.put t p k v).0 ≡ none
  pub writable-put :
      (t : b.Tree) (p : BucketPath) (k v : Bytes) → b.writable (b.put t p k v).1 ≡ b.writable t
  -- A call that returns an error has changed nothing.
  pub put_failed :
      (t : b.Tree) (p : BucketPath) (k v : Bytes) → (b.put t p k v).0 ≢ none → (b.put t p k v).1 ≡ t
  -- `CreateBucket` without an error adds an empty bucket.
  pub exists-create_self :
      (t : b.Tree) (p : BucketPath) (k : Bytes)
      → (b.create_bucket t p k).0 ≡ none
      → b.exists (b.create_bucket t p k).1 (k ∷ p) ≡ true
  pub exists-create_ne :
      (t : b.Tree) (p : BucketPath) (k : Bytes) (q : BucketPath)
      → (b.create_bucket t p k).0 ≡ none
      → k ∷ p ≢ q
      → b.exists (b.create_bucket t p k).1 q ≡ b.exists t q
  pub get-create :
      (t : b.Tree) (p : BucketPath) (k : Bytes) (q : BucketPath) (j : Bytes)
      → b.get (b.create_bucket t p k).1 q j ≡ b.get t q j
  -- `CreateBucketIfNotExists` without an error returns the bucket that is there; where there is none,
  -- it creates it.
  pub create_if-existing :
      (t : b.Tree) (p : BucketPath) (k : Bytes)
      → b.exists t (k ∷ p) ≡ true
      → (b.create_bucket_if_not_exists t p k).0 ≡ none
      → b.create_bucket_if_not_exists t p k ≡ (none, t)
  pub create_if-absent :
      (t : b.Tree) (p : BucketPath) (k : Bytes)
      → b.exists t (k ∷ p) ≡ false
      → b.create_bucket_if_not_exists t p k ≡ b.create_bucket t p k
