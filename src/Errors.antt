-- ===== src/Errors.antt =====
-- The error values of the program: walletdb/errors.go, the `errors.New` variables of snacl/snacl.go
-- and wallet/loader.go, and the error type of waddrmgr/error.go with its codes.
-- The text of an error (`Description`, `fmt.Errorf` without a wrapped error) is not modelled.
use btc_wallet.Base.{ℕ}

-- walletdb/errors.go
pub data DbError : Type 0 where
  db_type_registered db_unknown_type db_does_not_exist db_exists : DbError
  db_not_open db_already_open invalid dry_run_roll_back : DbError
  tx_closed tx_not_writable : DbError
  bucket_not_found bucket_exists bucket_name_required : DbError
  key_required key_too_large value_too_large incompatible_value : DbError

-- The constants of type `ErrorCode`, in the order of their `iota`.
pub data ErrorCode : Type 0 where
  err_database err_upgrade err_key_chain err_crypto err_invalid_key_type : ErrorCode
  err_no_exist err_already_exists err_coin_type_too_high err_account_num_too_high : ErrorCode
  err_locked err_watching_only err_invalid_account err_address_not_found : ErrorCode
  err_account_not_found err_duplicate_address err_duplicate_account : ErrorCode
  err_too_many_addresses err_wrong_passphrase err_wrong_net err_call_back_break : ErrorCode
  err_empty_passphrase err_scope_not_found err_birthday_block_not_set : ErrorCode
  err_block_not_found err_account_not_cached : ErrorCode

-- snacl/snacl.go
pub data SnaclError : Type 0 where
  invalid_password malformed decrypt_failed : SnaclError

-- wallet/loader.go
pub data LoaderError : Type 0 where
  loaded not_loaded already_exists : LoaderError

-- What a Go `error` can hold here. `manager c` is `managerError(c, …, nil)`, and `wrapped c e` is
-- `managerError(c, …, e)`; `library n` is an error value of a package outside the repository, and
-- `text n` one that the code makes on the spot with `errors.New` or `fmt.Errorf`.
pub data Error : Type 0 where
  db : DbError → Error
  manager : ErrorCode → Error
  wrapped : ErrorCode → Error → Error
  snacl : SnaclError → Error
  loader : LoaderError → Error
  library text : ℕ → Error
