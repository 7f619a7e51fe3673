-- ===== src/Waddrmgr/Scoped/Next/Never.antt =====
-- What the loops of `nextAddresses` do.
use btc_wallet.Base.{
  ℕ, zero, suc, ltb, ◌+◌, ◌≡◌, ◌∙◌, refl, ap, subst, inl, inr, Bool, Bool-cases, true, false, not,
  none, some, List, [], ◌∷◌, bytes_eq, arith,
}
use btc_wallet.Errors.{Error, wrapped, err_key_chain, manager, err_account_num_too_high}
use btc_wallet.Go.{fail_if, Result, ok, err, panic, Result-cases}
use btc_wallet.Go.Bytes.{Bytes, u32}
use btc_wallet.Go.Loops.{returns, looped, loop_then, returned, returns_ok}
use btc_wallet.Btcd.{Btcd, Btcec}
use btc_wallet.Snacl.{Crypto}
use btc_wallet.Walletdb.Bolt.{Bolt}
use btc_wallet.Walletdb.Bdb.{Handle, lift}
use btc_wallet.Walletdb.Keeps.{Leaves, Leaves-bind}
use btc_wallet.Waddrmgr.Errors.{convert}
use btc_wallet.Waddrmgr.Rows.{KeyScope}
use btc_wallet.Waddrmgr.Keys.{is_library, max_account_num}
use btc_wallet.Waddrmgr.Manager.{Pointer, UnlockDeriveInfo, AccountInfo}
use btc_wallet.Waddrmgr.Scoped.Load.{address_of_object, load_and_cache_address, load_account_info}
use btc_wallet.Waddrmgr.Scoped.Next.{
  Start, OnCommit, start, child_address, store_object, forget_if, store_all, commit_all,
  run_on_commit,
}
use btc_wallet.Waddrmgr.Scoped.Next.Loop.{
  next_child, pointers, next_infos, next_addresses, next_branch_addresses,
}
use btc_wallet.Waddrmgr.World.{World, found_or_panic, get_object}

module _ (d : Btcd) where
  -- What the loop that looks for a child does, for a child that is derived, one that is invalid, one
  -- that is refused for another reason, and one whose derivation panics.
  pub data ChildOutcome (branch_key : d.Key) (i next_index : ℕ) : Type 0 where
    derived :
        (key : d.Key)
        → d.derive_non_standard branch_key i ≡ ok key
        → ((fuel : ℕ)
            → next_child d (suc fuel) branch_key i next_index
              ≡ some (ok (key, u32 (next_index + 1))))
        → ChildOutcome branch_key i next_index
    invalid :
        (e : Error)
        → d.derive_non_standard branch_key i ≡ err e
        → is_library d.invalid_child e ≡ true
        → ((fuel : ℕ) → next_child d fuel branch_key i next_index ≡ none)
        → ChildOutcome branch_key i next_index
    child_refused :
        (e : Error)
        → d.derive_non_standard branch_key i ≡ err e
        → is_library d.invalid_child e ≡ false
        → ((fuel : ℕ)
            → next_child d (suc fuel) branch_key i next_index
              ≡ some (err (wrapped err_key_chain e)))
        → ChildOutcome branch_key i next_index
    panicked :
        d.derive_non_standard branch_key i ≡ panic
        → ((fuel : ℕ) → next_child d (suc fuel) branch_key i next_index ≡ some panic)
        → ChildOutcome branch_key i next_index

  never_found :
      (branch_key : d.Key) (i : ℕ) (e : Error)
      → d.derive_non_standard branch_key i ≡ err e
      → is_library d.invalid_child e ≡ true
      → (fuel next_index : ℕ) → next_child d fuel branch_key i next_index ≡ none
  unfolding next_child
  never_found branch_key i e failed is zero next_index = refl
  never_found branch_key i e failed is (suc fuel) next_index =
      rw (failed, is) (never_found branch_key i e failed is fuel (u32 (next_index + 1)))

  -- The loop of nextAddresses that looks for a child ends in its first round, with the child and
  -- the next index, with an error of the derivation or with its panic, except for an invalid
  -- child, for which it does not end in any number of rounds.
  pub next_child_outcome :
      (branch_key : d.Key) (i next_index : ℕ) → ChildOutcome branch_key i next_index
  unfolding next_child
  next_child_outcome branch_key i next_index =
      elim (Result-cases (d.derive_non_standard branch_key i)) [
        | inl (key, e) ↦ derived key e (λ fuel. rw e refl)
        | inr (inl (x, e)) ↦ elim (Bool-cases (is_library d.invalid_child x)) [
          | inl is ↦ invalid x e is (λ fuel. never_found branch_key i x e is fuel next_index)
          | inr other ↦ child_refused x e other (λ fuel. rw (e, other) refl)
        ]
        | inr (inr e) ↦ panicked e (λ fuel. rw e refl)
      ]

module _ ⦃b : Bolt⦄ (c : Crypto) (d : Btcd) (e : Btcec d) (random : ℕ → ℕ → Result Bytes)
    (sha256 : Bytes → Bytes) (now : ℕ) (ns : Handle) (scope : KeyScope) where
  -- Writing an address never ends without an error.
  store_all-Leaves :
      (account : ℕ) (info : UnlockDeriveInfo) (rest : List UnlockDeriveInfo)
      → Leaves (λ w. ⊥) (store_all c d e random sha256 now ns scope account (info ∷ rest))
  unfolding store_all
  store_all-Leaves account info rest = Leaves-bind (get_object d info.managed_addr) _ λ o.
      Leaves-bind (lift (found_or_panic (address_of_object d o))) _ λ address.
        Leaves-bind
          (store_object c d e random sha256 now ns scope account info (e.address_script address) o)
          _
          λ u.
            Leaves-bind (convert (load_and_cache_address c d e random sha256 ns scope address)) _
              λ p. Leaves-bind (get_object d p) _ λ disk.
                Leaves-bind (lift (found_or_panic (address_of_object d disk))) _ λ disk_address.
                  Leaves-bind
                    (forget_if c d e random sha256 now ns scope
                      (not (bytes_eq (e.address_string address) (e.address_string disk_address)))
                      (e.address_script disk_address))
                    _ λ v. record { at = λ w h. absurd (ground arith) }

  store_all-none :
      (account : ℕ) (infos : List UnlockDeriveInfo) (w w' : World d)
      → store_all c d e random sha256 now ns scope account infos w ≡ (ok tt, w')
      → infos ≡ []
  store_all-none account [] w w' h = refl
  store_all-none account (info ∷ rest) w w' h =
      absurd ((store_all-Leaves account info rest).at w (ap (λ r. r.0) h))

  next_infos-none :
      (fuel account : ℕ) (info : AccountInfo d) (internal : Bool) (from : Start d)
      (n i next_index : ℕ) (w w' : World d) (made : List UnlockDeriveInfo × ℕ)
      → next_infos c d e random sha256 now ns scope fuel account info internal from n i next_index w
        ≡ some (ok made, w')
      → made.0 ≡ []
      → n ≡ 0
  unfolding next_infos
  next_infos-none fuel account info internal from zero i next_index w w' made h empty = refl
  next_infos-none fuel account info internal from (suc n) i next_index w w' made h empty =
      let (child, w1, found, h1) =
        loop_then (looped (next_child d fuel from.branch_key i next_index)) _ w h in
      let (one, w2, addressed, h2) =
        loop_then
          (returns (
            child_address c d e random sha256 now ns scope account info internal from child.0
              child.1))
          _ w1 h1 in
      let (more, w3, rest, h3) =
        loop_then
          (next_infos c d e random sha256 now ns scope fuel account info internal from n (i + 1)
            child.1)
          _ w2 h2 in
      absurd (cons_ne one more.0 (ap (λ r. r.0) (returned _ made w3 w' h3) ∙ empty))
    where
      cons_ne : {A : Type 0} (x : A) (xs : List A) → ¬ (x ∷ xs ≡ [])
      cons_ne x xs h = ground arith

  -- What is returned where an error is not.
  pub record IsNothing (n : ℕ) (v : List Pointer × OnCommit) : Type 0 where
    pub none_asked : n ≡ 0
    pub no_addresses : v.0 ≡ []
    pub commit_panics :
        (u : World d) → run_on_commit c d e random sha256 now ns scope v.1 u ≡ (panic, u)

  made-IsNothing :
      (account n : ℕ) (internal watch_only : Bool) (infos : List UnlockDeriveInfo) (next_index : ℕ)
      → infos ≡ []
      → n ≡ 0
      → IsNothing n (
        pointers infos,
        record {
          account = account;
          address_info = infos;
          internal = internal;
          next_index = next_index;
          watch_only = watch_only;
        },
      )
  unfolding run_on_commit commit_all
  made-IsNothing account n internal watch_only [] next_index empty zero_asked = record {
    none_asked = zero_asked;
    no_addresses = refl;
    commit_panics = λ u. refl;
  }
  made-IsNothing account n internal watch_only (info ∷ rest) next_index empty zero_asked =
      absurd (ground arith)

  next_addresses-IsNothing :
      (fuel account n : ℕ) (internal : Bool) (w w' : World d) (v : List Pointer × OnCommit)
      → next_addresses c d e random sha256 now ns scope fuel account n internal w ≡ some (ok v, w')
      → IsNothing n v
  unfolding next_addresses
  next_addresses-IsNothing fuel account n internal w w' v h =
      let (info, w1, loaded, h1) =
        loop_then (returns (load_account_info c d e random sha256 ns scope account)) _ w h in
      let (from, w2, started, h2) =
        loop_then (returns (start c d e random sha256 now ns scope info n internal)) _ w1 h1 in
      let (made, w3, children, h3) =
        loop_then
          (next_infos c d e random sha256 now ns scope fuel account info internal from n 0
            from.next_index)
          _ w2 h2 in
      let (u, w4, stored, h4) =
        loop_then (returns (store_all c d e random sha256 now ns scope account made.0)) _ w3 h3 in
      let empty =
        store_all-none account made.0 w3 w4 (
          returns_ok (store_all c d e random sha256 now ns scope account made.0) w3 w4 tt stored) in
      subst (IsNothing n) (returned _ v w4 w' h4) (
        made-IsNothing account n internal from.watch_only made.0 made.1 empty (
          next_infos-none fuel account info internal from n 0 from.next_index w2 w3 made children
            empty))

  -- NextExternalAddresses and NextInternalAddresses return no error only when no addresses are
  -- asked for; then they return none, and the function that they hand to OnCommit panics.
  pub next_branch_addresses-IsNothing :
      (fuel account n : ℕ) (internal : Bool) (w w' : World d) (v : List Pointer × OnCommit)
      → next_branch_addresses c d e random sha256 now ns scope fuel internal account n w
        ≡ some (ok v, w')
      → IsNothing n v
  unfolding next_branch_addresses
  next_branch_addresses-IsNothing fuel account n internal w w' v h =
      let (u, w1, small, h1) =
        loop_then
          (returns
            (lift (fail_if (ltb (max_account_num d) account) (manager err_account_num_too_high))))
          _ w h in
      next_addresses-IsNothing fuel account n internal w1 w' v h1
