-- ===== src/Snacl/Derive.antt =====
-- Deriving a key from a password (snacl/snacl.go): `deriveKey`, `DeriveKey`, `NewSecretKey`, `Zero`.
-- The state of an action is the key that the method works on.
use btc_wallet.Base.{
  ℕ, ◌^◌, ◌<◌, ◌≡◌, ◌≢◌, refl, sym, ap, subst, ◌∙◌, not, ◌==◌, ◌++◌, All, length, inl, inr,
  take-length, drop-length, append-nil, take, drop, if◌then◌else◌, arith,
}
use btc_wallet.Errors
use btc_wallet.Errors.{snacl}
use btc_wallet.Go.{Result, ok, err, Result-cases}
use btc_wallet.Go.Bytes.{Bytes, IsByte, make_bytes}
use btc_wallet.Walletdb.Bdb.{Action, ◌>>=◌, ◌>>◌, pure, raise, lift}
use btc_wallet.Snacl.{Crypto, SecretKey, key_size}
use btc_wallet.Snacl.Compare.{constant_time_compare, constant_time_compare_lem}
use btc_wallet.Snacl.Marshal.{unmarshal-marshal, transfer}

abbrev pub zero_bytes : Bytes → Bytes
zero_bytes b = make_bytes (length b)

-- `SecretKey.Zero` and `CryptoKey.Zero`
unfoldable pub zero : SecretKey → SecretKey
zero sk = record sk { key = zero_bytes sk.key }

-- `&[KeySize]byte{}`
abbrev pub new_key : Bytes
new_key = make_bytes key_size

-- `copy(dst, src)` on the whole of `dst`.
abbrev pub copy_over : Bytes → Bytes → Bytes
copy_over dst src = take (length dst) src ++ drop (length src) dst

-- An assignment to the fields of the key.
abbrev assign : (SecretKey → SecretKey) → Action SecretKey (Unit {0})
assign f sk = (ok tt, f sk)

abbrev read_key : Action SecretKey SecretKey
read_key sk = (ok sk, sk)

module _ (c : Crypto) where
  -- `deriveKey`
  unfoldable pub derive_key_only : Bytes → Action SecretKey (Unit {0})
  derive_key_only password = do
    sk ← read_key
    let params = sk.parameters
    key ← lift (c.scrypt password params.salt params.n params.r params.p)
    assign (λ s. record s { key = copy_over s.key key })

  -- `DeriveKey`
  unfoldable pub derive_key : Bytes → Action SecretKey (Unit {0})
  derive_key password = do
    derive_key_only password
    sk ← read_key
    if not (constant_time_compare (c.sha256 sk.key) sk.parameters.digest == 1)
        then raise (snacl Errors.invalid_password)
        else pure tt

  -- The key starts from its zero value; `random` is what is read from the generator for the salt.
  unfoldable pub new_secret_key : Result Bytes → Bytes → ℕ → ℕ → ℕ → Action SecretKey (Unit {0})
  new_secret_key random password n r p = do
    assign (λ s. record {
      key = new_key;
      parameters = record { salt = make_bytes 32; digest = make_bytes 32; n = n; r = r; p = p };
    })
    salt ← lift random
    assign (λ s. record s { parameters = record (s.parameters) { salt = salt } })
    derive_key_only password
    assign (λ s. record s { parameters = record (s.parameters) { digest = c.sha256 s.key } })

  -- What the packages promise: keys of the length asked for, and digests of 32 bytes.
  pub record CryptoLaws : Type 0 where
    pub scrypt_size :
        {password salt : Bytes} {n r p : ℕ} {key : Bytes}
        → c.scrypt password salt n r p ≡ ok key
        → length key ≡ key_size
    pub sha256_bytes : (b : Bytes) → All IsByte (c.sha256 b)
    pub sha256_size : (b : Bytes) → length (c.sha256 b) ≡ 32

  pub copy_over_whole : (dst src : Bytes) → length dst ≡ length src → copy_over dst src ≡ src
  copy_over_whole dst src e = rw (e, take-length src) (rw (sym e, drop-length dst) (append-nil src))

  module _ (laws : CryptoLaws) where
    -- The derived key replaces the old one whatever the comparison says.
    pub derive_key_only_lem :
        (password key : Bytes) (sk : SecretKey)
        → length sk.key ≡ key_size
        → c.scrypt password sk.parameters.salt sk.parameters.n sk.parameters.r sk.parameters.p
          ≡ ok key
        → derive_key_only password sk ≡ (ok tt, record sk { key = key })
    unfolding derive_key_only
    derive_key_only_lem password key sk size e =
        rw e (rw (copy_over_whole sk.key key (size ∙ sym (laws.scrypt_size e))) refl)

    -- Where scrypt derives a key from the password and the digest of that key is the one in the
    -- parameters, DeriveKey on a key of 32 bytes returns no error, and the derived key has
    -- replaced the old one.
    pub derive_key_accepted :
        (password key : Bytes) (sk : SecretKey)
        → length sk.key ≡ key_size
        → All IsByte sk.parameters.digest
        → c.scrypt password sk.parameters.salt sk.parameters.n sk.parameters.r sk.parameters.p
          ≡ ok key
        → c.sha256 key ≡ sk.parameters.digest
        → derive_key password sk ≡ (ok tt, record sk { key = key })
    unfolding derive_key
    derive_key_accepted password key sk size digest_bytes e same =
        let (one, none) =
          constant_time_compare_lem (c.sha256 key) sk.parameters.digest (laws.sha256_bytes key)
            digest_bytes in
        rw (derive_key_only_lem password key sk size e) (rw (one.1 same) refl)

    -- Where scrypt derives a key from the password and the digest of that key is not the one in
    -- the parameters, DeriveKey on a key of 32 bytes returns ErrInvalidPassword, and the derived
    -- key has replaced the old one all the same.
    pub derive_key_refused :
        (password key : Bytes) (sk : SecretKey)
        → length sk.key ≡ key_size
        → All IsByte sk.parameters.digest
        → c.scrypt password sk.parameters.salt sk.parameters.n sk.parameters.r sk.parameters.p
          ≡ ok key
        → c.sha256 key ≢ sk.parameters.digest
        → derive_key password sk ≡ (err (snacl Errors.invalid_password), record sk { key = key })
    unfolding derive_key
    derive_key_refused password key sk size digest_bytes e other =
        let (one, none) =
          constant_time_compare_lem (c.sha256 key) sk.parameters.digest (laws.sha256_bytes key)
            digest_bytes in
        rw (derive_key_only_lem password key sk size e) (rw (none.1 other) refl)

    module _ (old other : SecretKey) (salt password : Bytes) (n r p : ℕ) where
      abbrev start : SecretKey
      start = record {
        key = new_key;
        parameters = record { salt = salt; digest = make_bytes 32; n = n; r = r; p = p };
      }

      abbrev fresh : Bytes → SecretKey
      fresh key = record {
        key = key;
        parameters = record { salt = salt; digest = c.sha256 key; n = n; r = r; p = p };
      }

      pub new_secret_key_lem :
          (key : Bytes)
          → c.scrypt password salt n r p ≡ ok key
          → new_secret_key (ok salt) password n r p old ≡ (ok tt, fresh key)
      unfolding new_secret_key
      new_secret_key_lem key e = rw (derive_key_only_lem password key start refl e) refl

      -- The parameters of a key that NewSecretKey made without an error from a salt of 32 bytes
      -- and 64-bit N, R and P, marshalled and read into another key of 32 bytes, let the same
      -- password derive that key again.
      pub new_key_restored :
          length salt ≡ 32
          → n < 2 ^ 64
          → r < 2 ^ 64
          → p < 2 ^ 64
          → length other.key ≡ key_size
          → (sk : SecretKey) → new_secret_key (ok salt) password n r p old ≡ (ok tt, sk)
          → (restored : SecretKey) × (transfer sk other ≡ ok restored)
            × (derive_key password restored ≡ (ok tt, sk))
      unfolding new_secret_key derive_key_only
      new_key_restored hs hn hr hp ho sk made = elim (Result-cases (c.scrypt password salt n r p)) [
        | inl (key, e) ↦
            let is_fresh : fresh key ≡ sk = ap (λ x. x.1) (sym (new_secret_key_lem key e) ∙ made) in
            subst
              (λ k.
                (restored : SecretKey) × (transfer k other ≡ ok restored)
                × (derive_key password restored ≡ (ok tt, k)))
              is_fresh
              (
                record other { parameters = (fresh key).parameters },
                unmarshal-marshal (fresh key) other (record {
                  salt_size = hs;
                  digest_size = laws.sha256_size key;
                  n_size = hn;
                  r_size = hr;
                  p_size = hp;
                }),
                derive_key_accepted password key
                    (record other { parameters = (fresh key).parameters }) ho
                    (laws.sha256_bytes key) e refl,
              )
        | inr (inl (e, failed)) ↦ absurd (ground (arith, rw failed at made))
        | inr (inr failed) ↦ absurd (ground (arith, rw failed at made))
      ]
