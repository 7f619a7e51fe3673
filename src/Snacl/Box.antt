-- ===== src/Snacl/Box.antt =====
-- `Encrypt` and `Decrypt` of `CryptoKey` (snacl/snacl.go); those of `SecretKey` pass on to them.
use btc_wallet.Base.{
  ◌+◌, ◌≡◌, refl, ap, sym, ltb, ltb-false, Option, none, some, ◌++◌, length, length-append, take,
  drop, take-append, drop-append, if◌then◌else◌, arith,
}
use btc_wallet.Errors
use btc_wallet.Errors.{snacl}
use btc_wallet.Go.{Result, ok, err, panic, ◌>>=◌}
use btc_wallet.Go.Bytes.{Bytes}
use btc_wallet.Snacl.{Crypto, nonce_size}

module _ (c : Crypto) where
  -- `nonce` is what is read from the generator.
  unfoldable pub encrypt : Result Bytes → Bytes → Bytes → Result Bytes
  encrypt nonce key message = do drawn ← nonce; ok (drawn ++ c.seal message drawn key)

  abbrev opened : Option Bytes → Result Bytes
  opened none = err (snacl Errors.decrypt_failed)
  opened (some message) = ok message

  unfoldable pub decrypt : Bytes → Bytes → Result Bytes
  decrypt key box =
      if ltb (length box) nonce_size
      then err (snacl Errors.malformed)
      else opened (c.open_box (drop nonce_size box) (take nonce_size box) key)

  -- What Encrypt made under a key is decrypted by the same key, whatever nonce of 24 bytes was
  -- drawn, where opening a sealed box gives the message back.
  pub decrypt-encrypt :
      ((message nonce key : Bytes) → c.open_box (c.seal message nonce key) nonce key ≡ some message)
      → (nonce key message : Bytes) → length nonce ≡ nonce_size
      → (do box ← encrypt (ok nonce) key message; decrypt key box) ≡ ok message
  unfolding encrypt decrypt
  decrypt-encrypt open-seal nonce key message size =
      rw
        (
          ltb-false (length (nonce ++ c.seal message nonce key)) 24
              (omega (arith, length-append nonce (c.seal message nonce key))),
          sym size,
          take-append nonce (c.seal message nonce key),
          drop-append nonce (c.seal message nonce key),
          open-seal message nonce key,
        )
        refl

  -- What the package promises: a box opens to its message, and is 16 bytes longer.
  pub record BoxLaws : Type 0 where
    pub open_box-seal :
        (message nonce key : Bytes) → c.open_box (c.seal message nonce key) nonce key ≡ some message
    pub seal_size :
        (message nonce key : Bytes) → length (c.seal message nonce key) ≡ length message + 16

  -- The reader of random bytes fills the nonce when it returns no error.
  abbrev pub IsNonce : Result Bytes → Type 0
  IsNonce r = (nonce : Bytes) → r ≡ ok nonce → length nonce ≡ nonce_size

  module _ (laws : BoxLaws) where
    encrypted :
        (r : Result Bytes) (key message box : Bytes)
        → encrypt r key message ≡ ok box
        → (nonce : Bytes) × (r ≡ ok nonce) × (box ≡ nonce ++ c.seal message nonce key)
    unfolding encrypt
    encrypted (ok nonce) key message box h = (nonce, refl, ground arith)
    encrypted (err e) key message box h = absurd (ground arith)
    encrypted panic key message box h = absurd (ground arith)

    pub encrypt-length :
        (r : Result Bytes) (key message box : Bytes)
        → IsNonce r
        → encrypt r key message ≡ ok box
        → length box ≡ length message + 40
    encrypt-length r key message box size h =
        let (nonce, drawn, e) = encrypted r key message box h in
        omega (
          arith,
          ap length e,
          size nonce drawn,
          length-append nonce (c.seal message nonce key),
          laws.seal_size message nonce key,
        )

    pub decrypt-encrypted :
        (r : Result Bytes) (key message box : Bytes)
        → IsNonce r
        → encrypt r key message ≡ ok box
        → decrypt key box ≡ ok message
    unfolding encrypt
    decrypt-encrypted r key message box size h =
        let (nonce, drawn, e) = encrypted r key message box h in
        rw e (decrypt-encrypt laws.open_box-seal nonce key message (size nonce drawn))
