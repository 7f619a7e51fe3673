-- ===== src/Snacl/Marshal.antt =====
-- `Marshal` and `Unmarshal` of `SecretKey` (snacl/snacl.go). The window `b` that moves through the
-- buffer is the offset into it.
use btc_wallet.Base.{
  ◌≡◌, refl, sym, ap, not, ◌==◌, [], ◌++◌, append_assoc, append-nil, length, length-append, take,
  drop, Bool-cases, inl, inr, if◌then◌else◌, arith,
}
use btc_wallet.Errors
use btc_wallet.Errors.{snacl}
use btc_wallet.Go.{Result, ok, err, ◌>>=◌, ◌>>◌, fail_if}
use btc_wallet.Go.Bytes.{
  Bytes, IsU64, make_bytes, slice, copy_into, copy_into-fill, At-start_eq, At-append, slice-At,
  slice_in_bounds,
}
use btc_wallet.Go.Endian.{
  le_bytes, le_value, put_uint64, put_uint64-fill, read_uint64, read_uint64-At,
  read_uint64_in_bounds,
}
use btc_wallet.Snacl.{SecretKey, Parameters, marshalled_size}

unfoldable pub marshal : SecretKey → Result Bytes
marshal sk = do
  let params = sk.parameters
  let marshalled = make_bytes marshalled_size
  b1 ← copy_into 0 32 params.salt marshalled
  b2 ← copy_into 32 64 params.digest b1
  b3 ← put_uint64 64 72 params.n b2
  b4 ← put_uint64 72 80 params.r b3
  put_uint64 80 88 params.p b4

-- An error leaves the key as it was.
unfoldable pub unmarshal : SecretKey → Bytes → Result SecretKey
unmarshal sk marshalled = do
  fail_if (not (length marshalled == marshalled_size)) (snacl Errors.malformed)
  salt ← slice 0 32 marshalled
  digest ← slice 32 64 marshalled
  n ← read_uint64 64 72 marshalled
  r ← read_uint64 72 80 marshalled
  p ← read_uint64 80 88 marshalled
  ok (record sk { parameters = record { salt = salt; digest = digest; n = n; r = r; p = p } })

-- A key's parameters have the sizes of their Go types.
pub record IsSized (params : Parameters) : Type 0 where
  pub salt_size : length params.salt ≡ 32
  pub digest_size : length params.digest ≡ 32
  pub n_size : IsU64 params.n
  pub r_size : IsU64 params.r
  pub p_size : IsU64 params.p

abbrev pub layout : Parameters → Bytes
layout params =
    params.salt
    ++ (params.digest ++ (le_bytes 8 params.n ++ (le_bytes 8 params.r ++ le_bytes 8 params.p)))

module _ (sk : SecretKey) (sized : IsSized sk.parameters) where
  abbrev params : Parameters
  params = sk.parameters

  abbrev p2 : Bytes
  p2 = params.salt ++ params.digest

  abbrev p3 : Bytes
  p3 = p2 ++ le_bytes 8 params.n

  abbrev p4 : Bytes
  p4 = p3 ++ le_bytes 8 params.r

  lengths : (length p2 ≡ 64) × (length p3 ≡ 72) × (length p4 ≡ 80)
  lengths = omega (
    arith,
    sized.salt_size,
    sized.digest_size,
    length-append params.salt params.digest,
    length-append p2 (le_bytes 8 params.n),
    length-append p3 (le_bytes 8 params.r),
  )

  pub marshal-layout : marshal sk ≡ ok (layout params)
  unfolding marshal
  marshal-layout =
      rw
        (copy_into-fill [] params.salt 0 32 88 56 refl (omega (arith, sized.salt_size))
          (omega (arith, sized.salt_size)))
        (rw
          (copy_into-fill params.salt params.digest 32 64 56 24 (sym sized.salt_size)
            (omega (arith, sized.digest_size)) (omega (arith, sized.digest_size)))
          (rw (put_uint64-fill p2 params.n 64 72 24 16 (omega (arith, lengths)) refl refl) (
            rw (put_uint64-fill p3 params.r 72 80 16 8 (omega (arith, lengths)) refl refl) (
              rw (put_uint64-fill p4 params.p 80 88 8 0 (omega (arith, lengths)) refl refl)
                (ap ok (simp (append_assoc, append-nil)))))))

  layout_size : length (layout params) ≡ 88
  layout_size = omega (arith, sized.salt_size, sized.digest_size, length-append {0})

  pub unmarshal-layout :
      (other : SecretKey)
      → unmarshal other (layout params) ≡ ok (record other { parameters = params })
  unfolding unmarshal
  unmarshal-layout other =
      let raw = layout params in
      let at0 = At-start_eq raw _ refl in
      let at1 = At-append raw 0 32 params.salt _ at0 (omega (arith, sized.salt_size)) in
      let at2 = At-append raw 32 64 params.digest _ at1 (omega (arith, sized.digest_size)) in
      let at3 = At-append raw 64 72 (le_bytes 8 params.n) _ at2 refl in
      let at4 = At-append raw 72 80 (le_bytes 8 params.r) (le_bytes 8 params.p) at3 refl in
      rw (slice-At raw 0 32 params.salt _ at0 (omega (arith, sized.salt_size))) (
        rw (slice-At raw 32 64 params.digest _ at1 (omega (arith, sized.digest_size))) (
          rw (read_uint64-At raw 64 72 params.n _ at2 refl sized.n_size) (
            rw (read_uint64-At raw 72 80 params.r (le_bytes 8 params.p) at3 refl sized.r_size) (
              rw (read_uint64-At raw 80 88 params.p [] at4 refl sized.p_size)
                (rw layout_size refl)))))

-- What one key's marshalled form makes of another.
abbrev pub transfer : SecretKey → SecretKey → Result SecretKey
transfer sk other = do marshalled ← marshal sk; unmarshal other marshalled

-- Parameters of a key that have the sizes of their types are read back from its marshalled form as
-- they were, into any key, and that key's own bytes stay.
pub unmarshal-marshal :
    (sk other : SecretKey)
    → IsSized sk.parameters
    → transfer sk other ≡ ok (record other { parameters = sk.parameters })
unmarshal-marshal sk other sized = rw (marshal-layout sk sized) (unmarshal-layout sk sized other)

-- The parameters at their places in the marshalled form.
abbrev pub parsed : Bytes → Parameters
parsed m = record {
  salt = take 32 m;
  digest = take 32 (drop 32 m);
  n = le_value (take 8 (drop 64 m));
  r = le_value (take 8 (drop 72 m));
  p = le_value (take 8 (drop 80 m));
}

-- Unmarshal never panics: bytes of the marshalled size give the parameters that stand in them, and
-- all others give ErrMalformed.
pub unmarshal_total :
    (sk : SecretKey) (marshalled : Bytes)
    → unmarshal sk marshalled ≡ (
        if length marshalled == marshalled_size
        then ok (record sk { parameters = parsed marshalled })
        else err (snacl Errors.malformed))
unfolding unmarshal
unmarshal_total sk marshalled = elim (Bool-cases (length marshalled == 88)) [
  | inl e ↦
      let size : length marshalled ≡ 88 = ground arith in
      rw
        (
          slice_in_bounds 0 32 marshalled (omega arith) (omega arith),
          slice_in_bounds 32 64 marshalled (omega arith) (omega arith),
          read_uint64_in_bounds 64 72 marshalled refl (omega arith),
          read_uint64_in_bounds 72 80 marshalled refl (omega arith),
          read_uint64_in_bounds 80 88 marshalled refl (omega arith),
          e,
        )
        refl
  | inr e ↦ rw e refl
]
