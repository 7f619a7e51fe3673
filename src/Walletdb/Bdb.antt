-- ===== src/Walletdb/Bdb.antt =====
-- The methods of `bucket` and `transaction` (walletdb/bdb/bucket.go, walletdb/bdb/tx.go) and the
-- conversion of errors (walletdb/bdb/db.go), as actions on the tree of one transaction.
use btc_wallet.Base.{Option, none, some, List, ◌∷◌, if◌then◌else◌}
use btc_wallet.Errors
use btc_wallet.Errors.{Error, db, library}
use btc_wallet.Go.{Result, ok, err, panic}
use btc_wallet.Go.Bytes.{Bytes}
use btc_wallet.Walletdb.Bolt.{Bolt, BoltError, BucketPath}

-- `convertErr` on a non-nil error.
pub convert_err : BoltError → Error
convert_err BoltError.database_not_open = db Errors.db_not_open
convert_err BoltError.invalid = db Errors.invalid
convert_err BoltError.tx_not_writable = db Errors.tx_not_writable
convert_err BoltError.tx_closed = db Errors.tx_closed
convert_err BoltError.bucket_not_found = db Errors.bucket_not_found
convert_err BoltError.bucket_exists = db Errors.bucket_exists
convert_err BoltError.bucket_name_required = db Errors.bucket_name_required
convert_err BoltError.key_required = db Errors.key_required
convert_err BoltError.key_too_large = db Errors.key_too_large
convert_err BoltError.value_too_large = db Errors.value_too_large
convert_err BoltError.incompatible_value = db Errors.incompatible_value
convert_err (BoltError.other n) = library n

-- A computation in a transaction: what it returns, and the tree that it leaves. What was written
-- before an error stays in the tree until the transaction is rolled back.
abbrev pub Action {ℓ} : Type 0 → Type ℓ → Type ℓ
Action S A = S → Result A × S

module _ {ℓ} {S : Type 0} {A : Type ℓ} where
  abbrev pub pure : A → Action S A
  pure a s = (ok a, s)

  abbrev pub raise : Error → Action S A
  raise e s = (err e, s)

  abbrev pub lift : Result A → Action S A
  lift r s = (r, s)

abbrev continue {ℓ κ} :
    {S : Type 0} {A : Type ℓ} {B : Type κ} → Result A → (A → Action S B) → Action S B
continue (ok a) f s = f a s
continue (err e) f s = (err e, s)
continue panic f s = (panic, s)

infixl 5 ◌>>=◌ ◌>>◌
abbrev pub ◌>>=◌ {ℓ κ} :
    {S : Type 0} {A : Type ℓ} {B : Type κ} → Action S A → (A → Action S B) → Action S B
◌>>=◌ m f s = let (r, s') = m s in continue r f s'

abbrev pub ◌>>◌ {ℓ κ} :
    {S : Type 0} {A : Type ℓ} {B : Type κ} → Action S A → Action S B → Action S B
m >> n = m >>= λ _. n

-- `if err != nil { return e }` on the error of a call.
abbrev pub or_error : Option BoltError → Result (Unit {0})
or_error none = ok tt
or_error (some e) = err (convert_err e)

-- A bucket value of the program: `none` is a nil interface, whose methods panic.
abbrev pub Handle : Type 0
Handle = Option BucketPath

module _ ⦃b : Bolt⦄ where
  abbrev pub Tx : Type 0 → Type 0
  Tx = Action b.Tree

  -- `NestedReadBucket` and `NestedReadWriteBucket`
  unfoldable pub nested_bucket : Handle → Bytes → Tx Handle
  nested_bucket none key t = (panic, t)
  nested_bucket (some p) key t = (ok (if b.exists t (key ∷ p) then some (key ∷ p) else none), t)

  -- `Get`
  unfoldable pub get : Handle → Bytes → Tx (Option Bytes)
  get none key t = (panic, t)
  get (some p) key t = (ok (b.get t p key), t)

  -- The keys that `ForEach` visits. It passes on an error of the function that is not bbolt's.
  unfoldable pub keys_of : Handle → Tx (List Bytes)
  keys_of none t = (panic, t)
  keys_of (some p) t = (ok (b.keys t p), t)

  -- `Put`
  unfoldable pub put : Handle → Bytes → Bytes → Tx (Unit {0})
  put none key value t = (panic, t)
  put (some p) key value t = let (e, t') = b.put t p key value in (or_error e, t')

  -- `CreateBucket`
  unfoldable pub create_bucket : Handle → Bytes → Tx Handle
  create_bucket none key t = (panic, t)
  create_bucket (some p) key t =
      let (e, t') = b.create_bucket t p key in continue (or_error e) (λ _. pure (some (key ∷ p))) t'

  -- `CreateBucketIfNotExists`
  unfoldable pub create_bucket_if_not_exists : Handle → Bytes → Tx Handle
  create_bucket_if_not_exists none key t = (panic, t)
  create_bucket_if_not_exists (some p) key t =
      let (e, t') = b.create_bucket_if_not_exists t p key in
      continue (or_error e) (λ _. pure (some (key ∷ p))) t'
