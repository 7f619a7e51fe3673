-- ===== src/Wallet/Loader.antt =====
-- The loader of wallets (wallet/loader.go). What its methods call is a parameter: the files of the
-- operating system, the databases of walletdb, and the creation, opening, starting and stopping of
-- wallets (wallet/wallet.go). A callback is the value that the caller hands in; `ran` records the
-- calls of callbacks, and a callback is taken to return. The methods are modelled one call after
-- the other: the mutex, which RunAfterLoad releases before it calls the function, and which
-- createNewWallet, OpenExistingWallet and UnloadWallet hold to their ends, is left out.
pub mod States
pub mod Reached
use btc_wallet.Base.{
  ℕ, ltb, ◌||◌, ◌++◌, not, Bool, true, false, Option, none, some, List, [], ◌∷◌, length,
  if◌then◌else◌,
}
use btc_wallet.Errors.{Error, loader, library, text, loaded, not_loaded, already_exists}
use btc_wallet.Go.{Result, ok, err, panic, fail_if}
use btc_wallet.Go.Bytes.{Bytes}
use btc_wallet.Walletdb.Bdb.{Action, ◌>>=◌, ◌>>◌, pure, raise, lift}

pub record Surroundings : Type 1 where
  pub World : Type 0
  pub Db : Type 0
  pub Wallet : Type 0
  pub Callback : Type 0
  pub Key : Type 0
  -- `os.Stat` in `fileExists`, and the function of `NewLoaderWithDB`
  pub file_exists : Action World Bool
  pub wallet_exists : Action World Bool
  -- `os.MkdirAll` and `CheckCreateDir` on the directory
  pub mkdir_all : Action World (Unit {0})
  pub check_create_dir : Action World (Unit {0})
  -- `walletdb.Create` and `walletdb.Open`, which return a database and an error, and `DB.Close`
  pub create_db : Action World (Option Db × Option Error)
  pub open_db : Action World (Option Db × Option Error)
  pub close_db : Db → Action World (Unit {0})
  -- `CreateWithCallback` and `CreateWatchingOnlyWithCallback`; a nil database panics there.
  pub create_wallet : Option Db → Bytes → Bytes → Option Key → ℕ → Action World (Unit {0})
  pub create_watching_only : Option Db → Bytes → ℕ → Action World (Unit {0})
  -- `OpenWithRetry`, `Wallet.Start`, and `Wallet.Stop` with `WaitForShutdown`
  pub open_with_retry : Option Db → Bytes → Action World Wallet
  pub start : Wallet → Action World (Unit {0})
  pub stop : Wallet → Action World (Unit {0})
  -- `hdkeychain.NewMaster`, `MinSeedBytes`, `MaxSeedBytes`, and the number of `ErrInvalidSeedLen`
  pub new_master : Bytes → Result Key
  pub min_seed_bytes : ℕ
  pub max_seed_bytes : ℕ
  pub invalid_seed_len : ℕ

module _ (s : Surroundings) where
  pub record Loader : Type 0 where
    pub world : s.World
    pub local_db : Bool
    pub wallet : Option s.Wallet
    pub db : Option s.Db
    pub callbacks : List s.Callback
    pub ran : List (s.Callback × s.Wallet)

  -- A call into the surroundings.
  unfoldable pub outside {ℓ} : {A : Type ℓ} → Action s.World A → Action Loader A
  outside m l = let (r, w) = m l.world in (r, record l { world = w })

  unfoldable pub read_loader : Action Loader Loader
  read_loader l = (ok l, l)

  unfoldable pub assign : (Loader → Loader) → Action Loader (Unit {0})
  assign f l = (ok tt, f l)

  abbrev is_some {ℓ} : {A : Type ℓ} → Option A → Bool
  is_some none = false
  is_some (some a) = true

  -- `NewLoader` and `NewLoaderWithDB`, which refuses a nil database or function.
  abbrev pub new_loader : s.World → Loader
  new_loader w = record {
    world = w;
    local_db = true;
    wallet = none;
    db = none;
    callbacks = [];
    ran = [];
  }

  unfoldable pub new_loader_with_db : s.World → Option s.Db → Bool → Result Loader
  new_loader_with_db w none given = err (text 0)
  new_loader_with_db w (some db) false = err (text 1)
  new_loader_with_db w (some db) true = ok (record {
    world = w;
    local_db = false;
    wallet = none;
    db = some db;
    callbacks = [];
    ran = [];
  })

  -- `WalletExists`
  unfoldable pub exists_wallet : Action Loader Bool
  exists_wallet l = (if l.local_db then outside s.file_exists else outside s.wallet_exists) l

  -- `if err != nil { return nil, err }`
  abbrev unless_error : Option Error → Result (Unit {0})
  unless_error none = ok tt
  unless_error (some e) = err e

  -- `if l.localDB { … }` of `createNewWallet`
  unfoldable pub create_local_db : Bool → Action Loader (Unit {0})
  create_local_db false = pure tt
  create_local_db true = do
    outside s.mkdir_all
    opened ← outside s.create_db
    assign (λ l. record l { db = opened.0 })
    lift (unless_error opened.1)

  unfoldable pub fill_db :
      Bool → Option s.Db → Bytes → Bytes → Option s.Key → ℕ → Action s.World (Unit {0})
  fill_db true db pub_passphrase priv_passphrase root birthday =
      s.create_watching_only db pub_passphrase birthday
  fill_db false db pub_passphrase priv_passphrase root birthday =
      s.create_wallet db pub_passphrase priv_passphrase root birthday

  -- `createNewWallet`
  unfoldable pub create_new_wallet_from :
      Bytes → Bytes → Option s.Key → ℕ → Bool → Action Loader s.Wallet
  create_new_wallet_from pub_passphrase priv_passphrase root birthday is_watching_only = do
    l ← read_loader
    lift (fail_if (is_some l.wallet) (loader loaded))
    exists ← exists_wallet
    lift (fail_if exists (loader already_exists))
    create_local_db l.local_db
    l' ← read_loader
    outside (fill_db is_watching_only l'.db pub_passphrase priv_passphrase root birthday)
    w ← outside (s.open_with_retry l'.db pub_passphrase)
    outside (s.start w)
    pure w

  -- The root key of `CreateNewWallet`; the error of `NewMaster` is replaced.
  abbrev root_error : Result s.Key → Result (Option s.Key)
  root_error (ok k) = ok (some k)
  root_error (err e) = err (text 2)
  root_error panic = panic

  unfoldable pub root_key : Option Bytes → Result (Option s.Key)
  root_key none = ok none
  root_key (some seed) =
      if ltb (length seed) s.min_seed_bytes || ltb s.max_seed_bytes (length seed)
      then err (library s.invalid_seed_len)
      else root_error (s.new_master seed)

  -- `CreateNewWallet`
  unfoldable pub create_new_wallet : Bytes → Bytes → Option Bytes → ℕ → Action Loader s.Wallet
  create_new_wallet pub_passphrase priv_passphrase seed birthday = do
    root ← lift (root_key seed)
    create_new_wallet_from pub_passphrase priv_passphrase root birthday false

  -- `onLoaded`
  abbrev calls : s.Wallet → List s.Callback → List (s.Callback × s.Wallet)
  calls w [] = []
  calls w (fn ∷ rest) = (fn, w) ∷ calls w rest

  unfoldable pub on_loaded : s.Wallet → Loader → Loader
  on_loaded w l = record l { ran = l.ran ++ calls w l.callbacks; wallet = some w; callbacks = [] }

  unfoldable pub open_local_db : Bool → Action Loader (Unit {0})
  open_local_db false = pure tt
  open_local_db true = do
    outside s.check_create_dir
    opened ← outside s.open_db
    assign (λ l. record l { db = opened.0 })
    lift (unless_error opened.1)

  -- `l.db.Close()`, a panic on a nil database.
  abbrev close_of : Option s.Db → Action s.World (Unit {0})
  close_of none w = (panic, w)
  close_of (some db) w = s.close_db db w

  -- The error of closing the database is only printed.
  abbrev only_printed : Error → Result (Unit {0}) → Result s.Wallet
  only_printed e (ok u) = err e
  only_printed e (err x) = err e
  only_printed e panic = panic

  unfoldable pub close_local : Error → Action Loader s.Wallet
  close_local e l =
      if l.local_db
      then (let (r, w) = close_of l.db l.world in (only_printed e r, record l { world = w }))
      else (err e, l)

  abbrev opened_or_closed : Result s.Wallet → Action Loader s.Wallet
  opened_or_closed (ok w) l = (ok w, l)
  opened_or_closed (err e) l = close_local e l
  opened_or_closed panic l = (panic, l)

  unfoldable pub open_or_close : Option s.Db → Bytes → Action Loader s.Wallet
  open_or_close db pub_passphrase l =
      let (r, l') = outside (s.open_with_retry db pub_passphrase) l in opened_or_closed r l'

  -- `OpenWithRetry` on the loader's database, with what is done on its error, and `Start`.
  unfoldable pub start_existing : Bytes → Action Loader s.Wallet
  start_existing pub_passphrase = do
    l ← read_loader
    w ← open_or_close l.db pub_passphrase
    outside (s.start w)
    pure w

  -- `OpenExistingWallet` up to `onLoaded`, and the whole.
  unfoldable pub started_wallet : Bytes → Action Loader s.Wallet
  started_wallet pub_passphrase = do
    l ← read_loader
    lift (fail_if (is_some l.wallet) (loader loaded))
    open_local_db l.local_db
    start_existing pub_passphrase

  unfoldable pub open_existing_wallet : Bytes → Action Loader s.Wallet
  open_existing_wallet pub_passphrase = do
    w ← started_wallet pub_passphrase
    assign (on_loaded w)
    pure w

  unfoldable pub stop_and_close : s.Wallet → Action Loader (Unit {0})
  stop_and_close w = do
    outside (s.stop w)
    l ← read_loader
    outside (if l.local_db then close_of l.db else pure tt)

  abbrev unload : Option s.Wallet → Action Loader (Unit {0})
  unload none = raise (loader not_loaded)
  unload (some w) = do stop_and_close w; assign (λ l. record l { wallet = none; db = none })

  -- `UnloadWallet`
  unfoldable pub unload_wallet : Action Loader (Unit {0})
  unload_wallet l = unload l.wallet l

  abbrev run_or_keep : Option s.Wallet → s.Callback → Loader → Loader
  run_or_keep (some w) fn l = record l { ran = l.ran ++ ((fn, w) ∷ []) }
  run_or_keep none fn l = record l { callbacks = l.callbacks ++ (fn ∷ []) }

  -- `RunAfterLoad`
  unfoldable pub run_after_load : s.Callback → Loader → Loader
  run_after_load fn l = run_or_keep l.wallet fn l
