-- ===== src/Lib.antt =====
-- Verification of btc-wallet: the address manager with its database, its row formats and the keys
-- that protect it, and the creation, opening and loading of wallets.
--
-- The program keeps a hierarchical deterministic wallet in a bbolt database. The address manager
-- (waddrmgr/) writes accounts, addresses, keys and flags as rows of bytes into nested buckets, through
-- the thin driver of walletdb/bdb, and protects the private material with keys of snacl/. A wallet
-- (wallet/wallet.go) is created and opened in one transaction each, and a loader (wallet/loader.go)
-- holds the wallet that is open.
--
-- Base holds the shared lists, tests and equalities, Errors the error values (walletdb/errors.go,
-- waddrmgr/error.go, the variables of snacl/snacl.go and wallet/loader.go), and Go the parts of Go
-- that the code is written in: results that are values, errors or panics, byte slices with their
-- bounds checks, and encoding/binary.
--
-- Walletdb/Bolt: go.etcd.io/bbolt as a record of operations on a tree of buckets, with what it
-- documents as laws; Walletdb/Memory is a tree in memory that satisfies them. Walletdb/Bdb:
-- bucket.Get, Put, CreateBucket and the like of walletdb/bdb/bucket.go and convertErr of
-- walletdb/bdb/db.go, as actions on the tree of one transaction. Walletdb/Transaction: View, Update
-- and beginTx of walletdb/bdb/db.go, and the top-level buckets and OnCommit of walletdb/bdb/tx.go,
-- with bbolt's databases as a second record; a function for OnCommit acts on what is in memory, and
-- update_tree is Update of a function that hands nothing to OnCommit. Walletdb/Keeps has the rules by which an invariant follows the code
-- of an action, and Waddrmgr/Store/Keeps and Waddrmgr/Store/Params/Kept those for entries of the
-- store.
-- Btcd: extended keys, public keys and addresses of github.com/btcsuite/btcd, with laws; the record
-- Btcec has what of btcec, btcutil and txscript the making of addresses calls.
-- Waddrmgr/Errors: managerError, errorCodeStrings and maybeConvertDbError.
-- Waddrmgr/Rows: the row types and their formats. Rows/Account is the serialization of
-- waddrmgr/account_info.go, Rows/Address that of waddrmgr/db.go; the children give the layout in
-- bytes. Rows/Account/Advance is the switch of putChainedAddress.
-- Waddrmgr/Store: the operations on the database. Store/Name has the names of buckets and keys,
-- Store/Namespace createManagerNS and createScopedManagerNS, Store/Accounts the accounts
-- (waddrmgr/account_info.go), Store/Addresses the addresses and Store/Params the fixed entries
-- (waddrmgr/db.go). Store/Accounts/Ready says which buckets of a scope must be there;
-- Store/Steps reasons about sequences of writes.
-- Waddrmgr/Keys: account names, the default scopes, deriveCoinTypeKey, deriveAccountKey and
-- checkBranchKeys (waddrmgr/manager.go, waddrmgr/scoped_manager.go).
-- Waddrmgr/Manager: the state of the manager in memory. Manager/Create is Create with
-- createManagerKeyScope, Manager/Open is Open with loadManager and newManager, Manager/Lock is
-- Lock, Manager/Unlock is Unlock and Manager/Scopes is NewScopedKeyManager (waddrmgr/manager.go).
-- In Manager/Create the children Steps, Kept and Stored take a creation apart and say what each
-- part leaves in the database; Manager/Open/Reads says what opening reads, and
-- Manager/Create/Opened joins the two, and Manager/Create/Unlocked adds Unlock, with
-- Manager/Unlock/Idle for a manager that has nothing in memory yet. Manager/Unlock/Outcome has all
-- the ways in which Unlock ends.
-- Waddrmgr/World: the manager in memory, the database and the count of random reads, which the
-- operations below work on. Waddrmgr/Managed: the addresses (waddrmgr/address_managed.go,
-- waddrmgr/address_script.go, waddrmgr/address_witness.go), with Managed/Create for the making of
-- addresses, Managed/Unlock for PrivKey, Script and the unlock methods, Managed/Secrets and
-- Managed/Scripts for what they return, and Managed/Interface for the other methods.
-- Waddrmgr/Scoped: NewAccount, NewRawAccount, LookupAccount and MarkUsed
-- (waddrmgr/scoped_manager.go). Scoped/Account and Scoped/Load are loadAccountInfo, the key
-- derivations and the reading of addresses, Scoped/Next is nextAddresses, with its loops in
-- Next/Loop, Scoped/Properties is AccountProperties and Scoped/Close is Close; their children have
-- what is proved of them. Scoped/Accounts and Scoped/Created take a creation apart, and
-- Scoped/Refines sees a scope as a map of accounts.
-- Snacl: CryptoKey and SecretKey of snacl/snacl.go, with Box for encryption, Marshal for the stored
-- parameters, Derive for keys from passwords, and Compare for constantTimeCompare.
-- Wallet/Database: create and OpenWithRetry of wallet/wallet.go. Wallet/Loader: wallet/loader.go,
-- over a record of what it calls; Loader/States compares a loader before and after an operation, and
-- Loader/Reached has the sequences of operations.
-- Tests: runs on concrete inputs.
--
-- A Go function with an error is a function into Result; one that works on the database or on a key
-- also passes the state on, which keeps what was written before an error. A nil bucket is `none`,
-- and its methods panic. Numbers are natural numbers; uint32 offsets wrap as in the source, and an
-- int64 or int is the number of its 64-bit pattern. A pointer to an address object is its place in
-- the manager's list of objects, so that scopes can share one. A mutex has no model: the operations
-- run one after the other, each as a whole, and a callback of the loader is taken to return. Every recursion is on a list, but for the loop of
-- nextAddresses that looks for a child: it has no bound in the code, so its model is given a number
-- of rounds and is `none` where they are used up (Go/Loops). One round is enough for every child
-- but an invalid one, for which no number is.
--
-- Parameters: bbolt, btcd, SHA-256, SHA-512, scrypt, secretbox, the random number generator, the
-- clock, the order in which a map of scopes is visited, and fmt's printing of a number. The
-- loader's record of operations stands for the operating system, the databases and the wallet.
-- Bytes from the database have a capacity equal to their length.
--
-- Not modelled: the texts of errors, printing, cursors and deletion, the registry of database
-- drivers, the migrations (stubs in the source), the hash of an address, the network's parameters
-- and the cache of private keys, the goroutines and channels of the wallet, the manager of
-- transactions (wtxmgr/, which has no state), the legacy key store, and the set-up of servers and
-- configuration.
pub mod Base
pub mod Btcd
pub mod Errors
pub mod Go
pub mod Walletdb
pub mod Snacl
pub mod Waddrmgr
pub mod Wallet
pub mod Tests
