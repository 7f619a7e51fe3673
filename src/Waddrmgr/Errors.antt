-- ===== src/Waddrmgr/Errors.antt =====
-- The parts of waddrmgr/error.go and waddrmgr/db.go that make and convert errors.
use Prim.Native.String.{String}
use btc_wallet.Base.{◌≡◌, refl, ◌↔◌, ◌⊎◌, Option, none, some, arith}
use btc_wallet.Errors.{Error, ErrorCode, manager, wrapped, err_database}
use btc_wallet.Go.{Result, ok, err, panic}
use btc_wallet.Walletdb.Bdb.{Action}

-- `errorCodeStrings`; a code that is missing prints as "Unknown ErrorCode (…)".
pub error_code_string : ErrorCode → Option String
error_code_string ErrorCode.err_database = some "ErrDatabase"
error_code_string ErrorCode.err_upgrade = some "ErrUpgrade"
error_code_string ErrorCode.err_key_chain = some "ErrKeyChain"
error_code_string ErrorCode.err_crypto = some "ErrCrypto"
error_code_string ErrorCode.err_invalid_key_type = some "ErrInvalidKeyType"
error_code_string ErrorCode.err_no_exist = some "ErrNoExist"
error_code_string ErrorCode.err_already_exists = some "ErrAlreadyExists"
error_code_string ErrorCode.err_coin_type_too_high = some "ErrCoinTypeTooHigh"
error_code_string ErrorCode.err_account_num_too_high = some "ErrAccountNumTooHigh"
error_code_string ErrorCode.err_locked = some "ErrLocked"
error_code_string ErrorCode.err_watching_only = some "ErrWatchingOnly"
error_code_string ErrorCode.err_invalid_account = some "ErrInvalidAccount"
error_code_string ErrorCode.err_address_not_found = some "ErrAddressNotFound"
error_code_string ErrorCode.err_account_not_found = some "ErrAccountNotFound"
error_code_string ErrorCode.err_duplicate_address = some "ErrDuplicateAddress"
error_code_string ErrorCode.err_duplicate_account = some "ErrDuplicateAccount"
error_code_string ErrorCode.err_too_many_addresses = some "ErrTooManyAddresses"
error_code_string ErrorCode.err_wrong_passphrase = some "ErrWrongPassphrase"
error_code_string ErrorCode.err_wrong_net = some "ErrWrongNet"
error_code_string ErrorCode.err_call_back_break = some "ErrCallBackBreak"
error_code_string ErrorCode.err_empty_passphrase = some "ErrEmptyPassphrase"
error_code_string ErrorCode.err_scope_not_found = some "ErrScopeNotFound"
error_code_string ErrorCode.err_account_not_cached = some "ErrAccountNotCached"
error_code_string _ = none

-- `maybeConvertDbError`: an error of the manager stays, any other is wrapped as one of the
-- database.
unfoldable pub maybe_convert_db_error : Error → Error
maybe_convert_db_error (manager c) = manager c
maybe_convert_db_error (wrapped c e) = wrapped c e
maybe_convert_db_error e = wrapped err_database e

-- The code that a caller can test for.
abbrev pub code_of : Error → Option ErrorCode
code_of (manager c) = some c
code_of (wrapped c e) = some c
code_of e = none

-- `if err != nil { return managerError(c, …, err) }`
abbrev pub wrap_result {ℓ} : {A : Type ℓ} → ErrorCode → Result A → Result A
wrap_result c (ok a) = ok a
wrap_result c (err e) = err (wrapped c e)
wrap_result c panic = panic

abbrev pub wrap {ℓ} : {S : Type 0} {A : Type ℓ} → ErrorCode → Action S A → Action S A
wrap c m s = let (r, s') = m s in (wrap_result c r, s')

-- `if err != nil { return maybeConvertDbError(err) }`
abbrev pub convert_result {ℓ} : {A : Type ℓ} → Result A → Result A
convert_result (ok a) = ok a
convert_result (err e) = err (maybe_convert_db_error e)
convert_result panic = panic

abbrev pub convert {ℓ} : {S : Type 0} {A : Type ℓ} → Action S A → Action S A
convert m s = let (r, s') = m s in (convert_result r, s')

-- Every error that has gone through maybeConvertDbError carries a code, and converting again
-- changes nothing.
pub maybe_convert_db_error_lem :
    (e : Error)
    → ((c : ErrorCode) × (code_of (maybe_convert_db_error e) ≡ some c))
      × (maybe_convert_db_error (maybe_convert_db_error e) ≡ maybe_convert_db_error e)
unfolding maybe_convert_db_error
maybe_convert_db_error_lem (manager c) = ((c, refl), refl)
maybe_convert_db_error_lem (wrapped c e) = ((c, refl), refl)
maybe_convert_db_error_lem _ = ((err_database, refl), refl)

-- ErrBirthdayBlockNotSet and ErrBlockNotFound, and no other error codes, have no entry in the
-- table of names.
pub error_code_string-none_iff :
    (c : ErrorCode)
    → (error_code_string c ≡ none)
      ↔ ((c ≡ ErrorCode.err_birthday_block_not_set) ⊎ (c ≡ ErrorCode.err_block_not_found))
unfolding error_code_string
error_code_string-none_iff c = ground arith
