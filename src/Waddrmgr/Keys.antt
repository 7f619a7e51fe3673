-- ===== src/Waddrmgr/Keys.antt =====
-- Account numbers and names, and the derivation of coin type and account keys (waddrmgr/manager.go,
-- with the default scopes of waddrmgr/scoped_manager.go).
use btc_wallet.Base.{
  ℕ, ◌+◌, ◌-◌, ◌^◌, ◌<◌, ◌≤◌, ◌≡◌, ◌≢◌, ◌↔◌, refl, ap, ◌⊎◌, inl, inr, ltb, ◌==◌, bytes_eq,
  bytes_eq_iff, Bool, false, Bool-cases, ◌&&◌, ◌||◌, List, [], ◌∷◌, arith,
}
use btc_wallet.Errors.{
  Error, manager, library, err_coin_type_too_high, err_account_num_too_high, err_invalid_account,
}
use btc_wallet.Go.{Result, ok, err, ◌>>=◌, ◌>>◌, fail_if}
use btc_wallet.Go.Bytes.{Bytes, IsU32, u32, codes}
use btc_wallet.Waddrmgr.Rows.{
  KeyScope, ScopeAddrSchema, pub_key_hash, nested_witness_pub_key, witness_pub_key, taproot_pub_key,
}
use btc_wallet.Btcd.{Btcd, BtcdLaws}

abbrev pub default_account_name : Bytes
default_account_name = codes "default"

abbrev pub imported_addr_account_name : Bytes
imported_addr_account_name = codes "imported"

abbrev pub external_branch : ℕ
external_branch = 0

abbrev pub internal_branch : ℕ
internal_branch = 1

abbrev pub salt_size : ℕ
salt_size = 32

-- `isReservedAccountName` and `ValidateAccountName`
unfoldable pub is_reserved_account_name : Bytes → Bool
is_reserved_account_name name = bytes_eq name imported_addr_account_name

unfoldable pub validate_account_name : Bytes → Result (Unit {0})
validate_account_name name = do
  fail_if (bytes_eq name []) (manager err_invalid_account)
  fail_if (is_reserved_account_name name) (manager err_invalid_account)

-- The names that an account may have.
pub validate_account_name_iff :
    (name : Bytes)
    → (validate_account_name name ≡ ok tt) ↔ ((name ≢ []) × (name ≢ imported_addr_account_name))
unfolding validate_account_name is_reserved_account_name
validate_account_name_iff name =
    ground (arith, bytes_eq_iff name [], bytes_eq_iff name imported_addr_account_name)

abbrev pub key_scope_bip0049_plus : KeyScope
key_scope_bip0049_plus = record { purpose = 49; coin = 0 }

abbrev pub key_scope_bip0084 : KeyScope
key_scope_bip0084 = record { purpose = 84; coin = 0 }

abbrev pub key_scope_bip0086 : KeyScope
key_scope_bip0086 = record { purpose = 86; coin = 0 }

abbrev pub key_scope_bip0044 : KeyScope
key_scope_bip0044 = record { purpose = 44; coin = 0 }

abbrev pub default_key_scopes : List KeyScope
default_key_scopes =
    key_scope_bip0049_plus ∷ key_scope_bip0084 ∷ key_scope_bip0086 ∷ key_scope_bip0044 ∷ []

abbrev pub scope_addr_map : List (KeyScope × ScopeAddrSchema)
scope_addr_map =
    (
      key_scope_bip0049_plus,
      record { external_addr_type = nested_witness_pub_key; internal_addr_type = witness_pub_key },
    )
    ∷ (
      key_scope_bip0084,
      record { external_addr_type = witness_pub_key; internal_addr_type = witness_pub_key },
    )
    ∷ (
      key_scope_bip0086,
      record { external_addr_type = taproot_pub_key; internal_addr_type = taproot_pub_key },
    )
    ∷ (
      key_scope_bip0044,
      record { external_addr_type = pub_key_hash; internal_addr_type = pub_key_hash },
    )
    ∷ []

abbrev pub scope_eq : KeyScope → KeyScope → Bool
scope_eq a b = (a.purpose == b.purpose) && (a.coin == b.coin)

abbrev scope_in : List KeyScope → KeyScope → Bool
scope_in [] scope = false
scope_in (s ∷ rest) scope = scope_eq s scope || scope_in rest scope

-- `IsDefaultScope`
unfoldable pub is_default_scope : KeyScope → Bool
is_default_scope scope = scope_in default_key_scopes scope

-- `err == e` for an error variable `e` of btcd.
abbrev pub is_library : ℕ → Error → Bool
is_library n (library m) = n == m
is_library n e = false

module _ (d : Btcd) where
  abbrev pub max_coin_type : ℕ
  max_coin_type = d.hardened_key_start - 1

  abbrev pub max_account_num : ℕ
  max_account_num = d.hardened_key_start - 2

  abbrev pub max_addresses_per_account : ℕ
  max_addresses_per_account = d.hardened_key_start - 1

  abbrev pub imported_addr_account : ℕ
  imported_addr_account = max_account_num + 1

  unfoldable pub derive_coin_type_key : d.Key → KeyScope → Result d.Key
  derive_coin_type_key master_node scope = do
    fail_if (ltb max_coin_type scope.coin) (manager err_coin_type_too_high)
    purpose ← d.derive_non_standard master_node (u32 (scope.purpose + d.hardened_key_start))
    d.derive_non_standard purpose (u32 (scope.coin + d.hardened_key_start))

  unfoldable pub derive_account_key : d.Key → ℕ → Result d.Key
  derive_account_key coin_type_key account = do
    fail_if (ltb max_account_num account) (manager err_account_num_too_high)
    d.derive_non_standard coin_type_key (u32 (account + d.hardened_key_start))

  unfoldable pub check_branch_keys : d.Key → Result (Unit {0})
  check_branch_keys acct_key = do
    external ← d.derive_non_standard acct_key external_branch
    internal ← d.derive_non_standard acct_key internal_branch
    ok tt

  module _ (laws : BtcdLaws d) where
    -- For an account number of uint32, deriveAccountKey either refuses a number above 2^31 - 2, or
    -- derives the child 2^31 + number, which is hardened and below 2^32 - 1 and so does not wrap.
    pub account_key_hardened :
        (coin_type_key : d.Key) (account : ℕ)
        → IsU32 account
        → ((2 ^ 31 - 2 < account)
            × (derive_account_key coin_type_key account ≡ err (manager err_account_num_too_high)))
          ⊎ ((i : ℕ) × (2 ^ 31 ≤ i)
              × (i < 2 ^ 32 - 1)
              × (i ≡ 2 ^ 31 + account)
              × (derive_account_key coin_type_key account ≡ d.derive_non_standard coin_type_key i))
    unfolding derive_account_key
    account_key_hardened coin_type_key account h = elim (Bool-cases (ltb (2 ^ 31 - 2) account)) [
      | inl high ↦ inl (ground (arith), rw (laws.hardened, high) refl)
      | inr low ↦
          let small : account < 2 ^ 31 - 1 = ground arith in
          inr (
            2 ^ 31 + account,
            omega arith,
            omega arith,
            refl,
            rw (laws.hardened, low) (ap (d.derive_non_standard coin_type_key) (omega arith)),
          )
    ]

    -- For a scope of uint32 numbers, deriveCoinTypeKey refuses a coin of 2^31 and more; otherwise
    -- it derives the hardened child of the coin below the child of the purpose, which is hardened
    -- for a purpose below 2^31, and wraps to a child that is not hardened for a purpose from 2^31.
    pub coin_type_key_derived :
        (master_node : d.Key) (scope : KeyScope)
        → IsU32 scope.purpose
        → IsU32 scope.coin
        → ((2 ^ 31 ≤ scope.coin)
            × (derive_coin_type_key master_node scope ≡ err (manager err_coin_type_too_high)))
          ⊎ ((p : ℕ) × (p < 2 ^ 32)
              × ((scope.purpose < 2 ^ 31 × (p ≡ 2 ^ 31 + scope.purpose))
                  ⊎ (2 ^ 31 ≤ scope.purpose × (2 ^ 31 + p ≡ scope.purpose)))
              × (scope.coin < 2 ^ 31)
              × (derive_coin_type_key master_node scope ≡ (do
                purpose ← d.derive_non_standard master_node p
                d.derive_non_standard purpose (2 ^ 31 + scope.coin))))
    unfolding derive_coin_type_key
    coin_type_key_derived master_node scope hp hc =
        elim (Bool-cases (ltb (2 ^ 31 - 1) scope.coin)) [
          | inl high ↦ inl (ground arith, rw (laws.hardened, high) refl)
          | inr low ↦
              let small : scope.coin < 2 ^ 31 = ground arith in
              let wrapped_coin : u32 (scope.coin + 2 ^ 31) ≡ 2 ^ 31 + scope.coin = omega arith in
              inr (
                u32 (scope.purpose + 2 ^ 31),
                omega arith,
                ground arith,
                small,
                rw (laws.hardened, low, wrapped_coin) refl,
              )
        ]
