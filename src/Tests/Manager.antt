-- ===== src/Tests/Manager.antt =====
-- The manager, opened after its creation, and locked.
use btc_wallet.Base.{◌≡◌, refl, true, false, none, some, [], ◌∷◌, replicate, bytes_ne}
use btc_wallet.Errors.{wrapped, snacl, invalid_password, err_wrong_passphrase}
use btc_wallet.Go.{ok, err}
use btc_wallet.Walletdb.Memory.{memory, memory_laws}
use btc_wallet.Waddrmgr.Keys.{scope_addr_map}
use btc_wallet.Waddrmgr.Manager.Create.Opened.{Opens, create-Opens, create_wrong_passphrase}
use btc_wallet.Waddrmgr.Manager.Open.{open_manager}
use btc_wallet.Waddrmgr.Rows.{witness_pub_key}
use btc_wallet.Waddrmgr.Manager.{ManagedAddress, Manager, managed_address}
use btc_wallet.Waddrmgr.Manager.Lock.{lock, lock_all, lock_scopes, lock_addrs, lock_at, lock_object}
use btc_wallet.Tests.Store.{scope}
use btc_wallet.Waddrmgr.Manager.Lock.Wiped.{LockOutcome, lock_outcome}
use btc_wallet.Tests.Toys.{keys, boxes, boxes-BoxLaws, boxes-CryptoLaws, manager_of}
use btc_wallet.Tests.Created.{
  ns, empty_tree, draw, filled, options, options-IsOptions, created_tree, create_run, scopes,
  listed,
}

create-Opens_example :
    Opens memory_laws boxes boxes-CryptoLaws boxes-BoxLaws keys draw ns
      (filled 32 4)
      (filled 32 4)
      (filled 32 4)
      (filled 24 6)
      (filled 24 6)
      1700000000
      scope_addr_map
      (some 5)
      (9 ∷ [])
      (8 ∷ [])
      (some options)
      1700000000
      empty_tree
      created_tree
      options-IsOptions
      create_run
      (ok (replicate 32 7))
      (replicate 32 7)
      scopes
create-Opens_example =
    create-Opens memory_laws boxes boxes-CryptoLaws boxes-BoxLaws keys draw ns (filled 32 4)
      (filled 32 4) (filled 32 4) (filled 24 6) (filled 24 6) 1700000000 scope_addr_map (some 5)
      (9 ∷ []) (8 ∷ []) (some options) 1700000000 empty_tree created_tree options-IsOptions
      create_run (ok (replicate 32 7)) (replicate 32 7) scopes refl listed

create_wrong_passphrase_example :
    open_manager boxes keys (ok []) (some ns) (7 ∷ []) created_tree
    ≡ (err (wrapped err_wrong_passphrase (snacl invalid_password)), created_tree)
create_wrong_passphrase_example =
    create_wrong_passphrase memory_laws boxes boxes-CryptoLaws boxes-BoxLaws keys draw ns
      (filled 32 4) (filled 32 4) (filled 32 4) (filled 24 6) (filled 24 6) 1700000000
      scope_addr_map (some 5) (9 ∷ []) (8 ∷ []) (some options) 1700000000 empty_tree created_tree
      options-IsOptions create_run (ok []) (replicate 32 4) (replicate 32 9) (7 ∷ [])
      (replicate 32 7) refl refl refl (bytes_ne _ _ refl)

abbrev address : ManagedAddress keys
address = record {
  derivation_path = record {
    internal_account = 0;
    account = 0;
    branch = 0;
    index = 0;
    master_key_fingerprint = 0;
  };
  address = some (9 ∷ []);
  imported = false;
  internal = false;
  compressed = true;
  addr_type = witness_pub_key;
  pub_key = 9;
  priv_key_encrypted = some (replicate 41 6);
  priv_key_ct = some (9 ∷ []);
}

-- The scope's map has the first of two objects.
abbrev two_addresses : Manager keys
two_addresses = record (manager_of false false) {
  objects = managed_address address ∷ managed_address address ∷ [];
  scoped_managers =
      (
        scope,
        record {
          scope = scope;
          addr_schema = record {
            external_addr_type = witness_pub_key;
            internal_addr_type = witness_pub_key;
          };
          addrs = (9 ∷ [], 0) ∷ [];
          acct_info = [];
          derive_on_unlock = [];
        },
      )
      ∷ [];
}

lock_outcome_example : LockOutcome two_addresses (lock two_addresses)
lock_outcome_example = lock_outcome two_addresses

-- The first object is wiped, and the other one keeps its private key in the clear.
one_is_wiped :
    (lock two_addresses).1.objects
    ≡ managed_address address ∷ managed_address (record address { priv_key_ct = none }) ∷ []
unfolding lock lock_all lock_scopes lock_addrs lock_at lock_object
one_is_wiped = refl
