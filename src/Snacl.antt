-- ===== src/Snacl.antt =====
-- Keys and encryption (snacl/snacl.go). `Crypto` stands for the packages that the file calls:
-- golang.org/x/crypto/nacl/secretbox and scrypt, and crypto/sha256. What is read from the random
-- number generator is an argument. A Go `int` is the number of its 64-bit pattern.
pub mod Compare
pub mod Box
pub mod Marshal
pub mod Derive
use btc_wallet.Base.{ℕ, Option}
use btc_wallet.Go.{Result}
use btc_wallet.Go.Bytes.{Bytes}

abbrev pub key_size : ℕ
key_size = 32

abbrev pub nonce_size : ℕ
nonce_size = 24

-- `KeySize + sha256.Size + 24`
abbrev pub marshalled_size : ℕ
marshalled_size = 88

pub record Crypto : Type 0 where
  -- `secretbox.Seal(nil, message, nonce, key)`
  pub seal : Bytes → Bytes → Bytes → Bytes
  -- `secretbox.Open(nil, box, nonce, key)`
  pub open_box : Bytes → Bytes → Bytes → Option Bytes
  -- `sha256.Sum256`
  pub sha256 : Bytes → Bytes
  -- `scrypt.Key(password, salt, N, r, p, 32)`
  pub scrypt : Bytes → Bytes → ℕ → ℕ → ℕ → Result Bytes

pub record Parameters : Type 0 where
  pub salt : Bytes
  pub digest : Bytes
  pub n : ℕ
  pub r : ℕ
  pub p : ℕ

-- `key` is the array behind the pointer.
pub record SecretKey : Type 0 where
  pub key : Bytes
  pub parameters : Parameters
