-- ===== src/Tests/Snacl.antt =====
-- Keys, run with packages that are simple functions in place of the real ones.
use btc_wallet.Base.{
  ℕ, zero, suc, ◌≡◌, ◌≢◌, ◌↔◌, ◌%◌, ◌==◌, refl, some, [], ◌∷◌, All, length, replicate,
  length-replicate, arith, bytes_ne, if◌then◌else◌,
}
use btc_wallet.Errors
use btc_wallet.Errors.{snacl}
use btc_wallet.Go.{ok, err, ◌>>=◌}
use btc_wallet.Go.Bytes.{Bytes, IsByte}
use btc_wallet.Snacl.{Crypto, SecretKey, marshalled_size}
use btc_wallet.Snacl.Compare.{constant_time_compare, constant_time_compare_lem}
use btc_wallet.Snacl.Box.{encrypt, decrypt, decrypt-encrypt}
use btc_wallet.Snacl.Marshal.{unmarshal, parsed, transfer, unmarshal_total}
use btc_wallet.Snacl.Derive.{
  derive_key, derive_key_only, new_secret_key, CryptoLaws, derive_key_refused, new_key_restored,
}

abbrev head_byte : Bytes → ℕ
head_byte [] = 0
head_byte (b ∷ bs) = b % 256

-- A box is the message; a digest and a key repeat the first byte of what they are made from.
abbrev pub toy : Crypto
toy = record {
  seal = λ message nonce key. message;
  open_box = λ box nonce key. some box;
  sha256 = λ b. replicate 32 (head_byte b);
  scrypt = λ password salt n r p. ok (replicate 32 (head_byte password));
}

replicate-IsByte : (n b : ℕ) → IsByte b → All IsByte (replicate n b)
replicate-IsByte zero b h = tt
replicate-IsByte (suc n) b h = (h, replicate-IsByte n b h)

head_byte-IsByte : (b : Bytes) → IsByte (head_byte b)
head_byte-IsByte [] = omega arith
head_byte-IsByte (b ∷ bs) = omega arith

pub toy_size :
    (password : Bytes) {key : Bytes}
    → ok (replicate 32 (head_byte password)) ≡ ok key
    → length key ≡ 32
toy_size password e = ground (arith, length-replicate 32 (head_byte password))

pub toy-CryptoLaws : CryptoLaws toy
toy-CryptoLaws = record {
  scrypt_size = λ {password} e. toy_size password e;
  sha256_bytes = λ b. replicate-IsByte 32 (head_byte b) (head_byte-IsByte b);
  sha256_size = λ b. length-replicate 32 (head_byte b);
}

abbrev key_of : ℕ → Bytes → SecretKey
key_of b key = record {
  key = key;
  parameters = record { salt = replicate 32 5; digest = replicate 32 b; n = 16384; r = 8; p = 1 };
}

new_key_run :
    new_secret_key toy (ok (replicate 32 5)) (9 ∷ 1 ∷ []) 16384 8 1 (key_of 0 [])
    ≡ (ok tt, key_of 9 (replicate 32 9))
unfolding new_secret_key derive_key_only
new_key_run = refl

new_key_restored_example :
    (restored : SecretKey) × (transfer (key_of 9 (replicate 32 9)) (key_of 0 (replicate 32 0))
      ≡ ok restored)
    × (derive_key toy (9 ∷ 1 ∷ []) restored ≡ (ok tt, key_of 9 (replicate 32 9)))
new_key_restored_example =
    new_key_restored toy toy-CryptoLaws (key_of 0 []) (key_of 0 (replicate 32 0)) (replicate 32 5)
      (9 ∷ 1 ∷ []) 16384 8 1 refl (omega arith) (omega arith) (omega arith) refl
      (key_of 9 (replicate 32 9)) new_key_run

derive_key_refused_example :
    derive_key toy (8 ∷ []) (key_of 9 (replicate 32 0))
    ≡ (err (snacl Errors.invalid_password), key_of 9 (replicate 32 8))
derive_key_refused_example =
    derive_key_refused toy toy-CryptoLaws (8 ∷ []) (replicate 32 8) (key_of 9 (replicate 32 0)) refl
      (replicate-IsByte 32 9 (omega arith)) refl (bytes_ne _ _ refl)

abbrev one_two : Bytes
one_two = 1 ∷ 2 ∷ []

abbrev one_three : Bytes
one_three = 1 ∷ 3 ∷ []

unmarshal_total_example : unmarshal (key_of 0 []) one_two ≡ (
    if length one_two == marshalled_size
    then ok (record (key_of 0 []) { parameters = parsed one_two })
    else err (snacl Errors.malformed))
unmarshal_total_example = unmarshal_total (key_of 0 []) one_two

constant_time_compare_lem_example :
    ((constant_time_compare one_two one_three ≡ 1) ↔ (one_two ≡ one_three))
    × ((constant_time_compare one_two one_three ≡ 0) ↔ (one_two ≢ one_three))
constant_time_compare_lem_example =
    constant_time_compare_lem one_two one_three (omega arith, (omega arith, tt))
      (omega arith, (omega arith, tt))

decrypt-encrypt_example :
    (do box ← encrypt toy (ok (replicate 24 6)) (7 ∷ []) (1 ∷ 2 ∷ []); decrypt toy (7 ∷ []) box)
    ≡ ok (1 ∷ 2 ∷ [])
decrypt-encrypt_example =
    decrypt-encrypt toy (λ message nonce key. refl) (replicate 24 6) (7 ∷ []) (1 ∷ 2 ∷ []) refl
