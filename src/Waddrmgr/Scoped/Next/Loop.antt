-- ===== src/Waddrmgr/Scoped/Next/Loop.antt =====
-- `nextAddresses`, `NextExternalAddresses` and `NextInternalAddresses` (waddrmgr/scoped_manager.go).
-- The loop that looks for a child has no bound in the code: `fuel` bounds its rounds.
use btc_wallet.Base.{ℕ, zero, suc, ◌+◌, ltb, Bool, true, false, Option, none, some, List, [], ◌∷◌}
use btc_wallet.Errors.{Error, manager, wrapped, err_account_num_too_high, err_key_chain}
use btc_wallet.Go.{Result, ok, err, panic, fail_if}
use btc_wallet.Go.Bytes.{Bytes, u32}
use btc_wallet.Go.Loops.{Looping, returns, looped, ◌>>=◌, ◌>>◌}
use btc_wallet.Btcd.{Btcd, Btcec}
use btc_wallet.Snacl.{Crypto}
use btc_wallet.Walletdb.Bolt.{Bolt}
use btc_wallet.Walletdb.Bdb.{Handle, pure, lift}
use btc_wallet.Waddrmgr.Rows.{KeyScope}
use btc_wallet.Waddrmgr.Keys.{is_library, max_account_num}
use btc_wallet.Waddrmgr.Manager.{Pointer, UnlockDeriveInfo, AccountInfo}
use btc_wallet.Waddrmgr.Scoped.Load.{load_account_info}
use btc_wallet.Waddrmgr.Scoped.Next.{Start, OnCommit, start, child_address, store_all}
use btc_wallet.Waddrmgr.World.{World}

-- `for { … }`: the key of the child `i`, and the next index. An invalid child is tried again.
module _ (d : Btcd) where
  abbrev retry : Bool → Error → Option (Result (d.Key × ℕ)) → Option (Result (d.Key × ℕ))
  retry true e rest = rest
  retry false e rest = some (err (wrapped err_key_chain e))

  abbrev child_or : Result d.Key → ℕ → Option (Result (d.Key × ℕ)) → Option (Result (d.Key × ℕ))
  child_or (ok key) next_index rest = some (ok (key, u32 (next_index + 1)))
  child_or (err e) next_index rest = retry (is_library d.invalid_child e) e rest
  child_or panic next_index rest = some panic

  unfoldable pub next_child : ℕ → d.Key → ℕ → ℕ → Option (Result (d.Key × ℕ))
  next_child zero branch_key i next_index = none
  next_child (suc fuel) branch_key i next_index =
      let rest = next_child fuel branch_key i (u32 (next_index + 1)) in
      child_or (d.derive_non_standard branch_key i) next_index rest

-- The addresses that are returned.
abbrev pub pointers : List UnlockDeriveInfo → List Pointer
pointers [] = []
pointers (info ∷ rest) = info.managed_addr ∷ pointers rest

module _ ⦃b : Bolt⦄ (c : Crypto) (d : Btcd) (e : Btcec d) (random : ℕ → ℕ → Result Bytes)
    (sha256 : Bytes → Bytes) (now : ℕ) (ns : Handle) (scope : KeyScope) (fuel : ℕ) where
  -- `for i := uint32(0); i < numAddresses; i++`, from `i` on: the addresses and the next index.
  unfoldable pub next_infos :
      ℕ → AccountInfo d → Bool → Start d → ℕ → ℕ → ℕ → Looping (World d) (List UnlockDeriveInfo × ℕ)
  next_infos account info internal from zero i next_index = returns (pure ([], next_index))
  next_infos account info internal from (suc n) i next_index = do
    child ← looped (next_child d fuel from.branch_key i next_index)
    made ← returns (
        child_address c d e random sha256 now ns scope account info internal from (child.0)
          (child.1))
    more ← next_infos account info internal from n (i + 1) child.1
    returns (pure (made ∷ more.0, more.1))

  -- `nextAddresses`
  unfoldable pub next_addresses : ℕ → ℕ → Bool → Looping (World d) (List Pointer × OnCommit)
  next_addresses account num_addresses internal = do
    info ← returns (load_account_info c d e random sha256 ns scope account)
    from ← returns (start c d e random sha256 now ns scope info num_addresses internal)
    made ← next_infos account info internal from num_addresses 0 from.next_index
    returns (store_all c d e random sha256 now ns scope account made.0)
    returns (
        pure (
          pointers made.0,
          record {
            account = account;
            address_info = made.0;
            internal = internal;
            next_index = made.1;
            watch_only = from.watch_only;
          },
        ))

  -- `NextExternalAddresses` and `NextInternalAddresses`
  unfoldable pub next_branch_addresses : Bool → ℕ → ℕ → Looping (World d) (List Pointer × OnCommit)
  next_branch_addresses internal account num_addresses = do
    returns (lift (fail_if (ltb (max_account_num d) account) (manager err_account_num_too_high)))
    next_addresses account num_addresses internal

  abbrev next_external_addresses : ℕ → ℕ → Looping (World d) (List Pointer × OnCommit)
  next_external_addresses = next_branch_addresses false

  abbrev next_internal_addresses : ℕ → ℕ → Looping (World d) (List Pointer × OnCommit)
  next_internal_addresses = next_branch_addresses true
