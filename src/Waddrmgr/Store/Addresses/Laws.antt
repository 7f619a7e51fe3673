-- ===== src/Waddrmgr/Store/Addresses/Laws.antt =====
-- What the operations on addresses do in a scope whose buckets are there.
use btc_wallet.Base.{
  ℕ, ◌≡◌, ◌≢◌, ◌⊎◌, refl, ◌∙◌, inl, inr, Bool-cases, true, none, some, ◌∷◌, arith,
}
use btc_wallet.Go.{ok, panic}
use btc_wallet.Go.Bytes.{Bytes}
use btc_wallet.Walletdb.Bolt.{Bolt, BoltLaws, BucketPath}
use btc_wallet.Walletdb.Bdb.{nested_bucket, get, put}
use btc_wallet.Waddrmgr.Rows.{KeyScope}
use btc_wallet.Waddrmgr.Rows.Address.Layout.{serialize_chained_address_panics}
use btc_wallet.Waddrmgr.Store
use btc_wallet.Waddrmgr.Store.{found_or}
use btc_wallet.Waddrmgr.Store.Accounts.Ready.{
  scope_path, IsReady, put-IsReady, fetch_write_scope_bucket_ready, fetch_read_scope_bucket_ready,
}
use btc_wallet.Waddrmgr.Store.Addresses.{
  put_chained_address, fetch_address_used, mark_address_used, null_val, is_some,
}

module _ ⦃b : Bolt⦄ (sha256 : Bytes → Bytes) (ns : BucketPath) (scope : KeyScope) where
  -- In a scope whose buckets are there putChainedAddress panics for every address, before anything
  -- is written.
  pub put_chained_address_panics :
      (t : b.Tree) (now : ℕ) (address_id : Bytes) (account status branch index addr_type : ℕ)
      → IsReady ns scope t
      → put_chained_address sha256 now
          (some ns)
          scope
          address_id
          account
          status
          branch
          index
          addr_type
          t
        ≡ (panic, t)
  unfolding put_chained_address
  put_chained_address_panics t now address_id account status branch index addr_type ready =
      rw (fetch_write_scope_bucket_ready ns scope t ready, serialize_chained_address_panics)

  abbrev used_path : BucketPath
  used_path = Store.Name.used_addr ∷ scope_path ns scope

  pub fetch_address_used_ready :
      (t : b.Tree) (address_id : Bytes)
      → IsReady ns scope t
      → fetch_address_used sha256 (some ns) scope address_id t
        ≡ (ok (is_some (b.get t used_path (sha256 address_id))), t)
  unfolding fetch_address_used nested_bucket get
  fetch_address_used_ready t address_id ready =
      rw (fetch_read_scope_bucket_ready ns scope t ready, ready.used_addr_exists)

  -- Marking that returns no error writes at most the address's own entry.
  mark_address_used-writes :
      (t t' : b.Tree) (address_id : Bytes)
      → IsReady ns scope t
      → mark_address_used sha256 (some ns) scope address_id t ≡ (ok tt, t')
      → ((t' ≡ t) × (is_some (b.get t used_path (sha256 address_id)) ≡ true))
        ⊎ ((t' ≡ (b.put t used_path (sha256 address_id) null_val).1)
            × ((b.put t used_path (sha256 address_id) null_val).0 ≡ none))
  unfolding mark_address_used nested_bucket get put
  mark_address_used-writes t t' address_id ready marked =
      let m =
        rw (fetch_write_scope_bucket_ready ns scope t ready, ready.used_addr_exists) at marked in
      elim (Bool-cases (is_some (b.get t used_path (sha256 address_id)))) [
        | inl there ↦ inl (ground arith, there)
        | inr missing ↦ let n = rw missing at m in inr (ground arith)
      ]

  -- In a scope whose buckets are there, markAddressUsed that returns no error makes the address
  -- count as used, and changes the answer for no address with another hash.
  pub mark_address_used_lem :
      BoltLaws b
      → (t t' : b.Tree) (address_id other : Bytes) → IsReady ns scope t
      → mark_address_used sha256 (some ns) scope address_id t ≡ (ok tt, t')
      → sha256 address_id ≢ sha256 other
      → (fetch_address_used sha256 (some ns) scope address_id t' ≡ (ok true, t'))
        × ((fetch_address_used sha256 (some ns) scope other t').0
            ≡ (fetch_address_used sha256 (some ns) scope other t).0)
  mark_address_used_lem laws t t' address_id other ready marked d =
      elim (mark_address_used-writes t t' address_id ready marked) [
        | inl (same, there) ↦
            (rw same (fetch_address_used_ready t address_id ready ∙ rw there refl), rw same refl)
        | inr (e, done) ↦
            let after = put-IsReady ns scope laws t used_path (sha256 address_id) null_val ready in
            (
              rw e (
                  fetch_address_used_ready _ address_id after
                  ∙ rw (laws.get-put_self t used_path (sha256 address_id) null_val done) refl),
              rw
                  (
                    e,
                    fetch_address_used_ready _ other after,
                    fetch_address_used_ready t other ready,
                    laws.get-put_ne t used_path (sha256 address_id) null_val used_path
                        (sha256 other) done (inr d),
                  )
                  refl,
            )
      ]
