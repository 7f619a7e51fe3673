-- ===== src/Waddrmgr/Rows/Account/Advance.antt =====
-- How `putChainedAddress` (waddrmgr/db.go) changes the row of an account.
use btc_wallet.Base.{ℕ, ◌+◌, ◌^◌, ◌<◌, ◌≡◌, refl, ◌==◌, if◌then◌else◌, length, arith}
use btc_wallet.Go.{Result, ok, ◌>>=◌}
use btc_wallet.Go.Bytes.{Bytes, u32, IsU32}
use btc_wallet.Waddrmgr.Keys.{internal_branch}
use btc_wallet.Waddrmgr.Rows.{AccountRow, account_default, account_watch_only}
use btc_wallet.Waddrmgr.Rows.Account.{
  serialize_default_account_row, deserialize_default_account_row, serialize_watch_only_account_row,
  deserialize_watch_only_account_row,
}
use btc_wallet.Waddrmgr.Rows.Account.Layout.{
  default_account_layout, serialize_default_account_row-layout,
}
use btc_wallet.Waddrmgr.Rows.Account.RoundTrip.{deserialize_default_account_row-layout}

-- The index of the next address of an account, after the address of `branch` and `index`.
abbrev pub next_external : ℕ → ℕ → ℕ → ℕ
next_external branch index old = if branch == internal_branch then old else u32 (index + 1)

abbrev pub next_internal : ℕ → ℕ → ℕ → ℕ
next_internal branch index old = if branch == internal_branch then u32 (index + 1) else old

-- The `switch` of `putChainedAddress`: the account's row with the next index moved past the address.
pub advance_row : ℕ → ℕ → AccountRow → Result AccountRow
advance_row branch index row =
    if row.acct_type == account_default
    then (do
      arow ← deserialize_default_account_row row
      raw_data ←
          serialize_default_account_row arow.pub_key_encrypted arow.priv_key_encrypted
            (next_external branch index arow.next_external_index)
            (next_internal branch index arow.next_internal_index) arow.name
      ok (record row { raw_data = raw_data }))
    else if row.acct_type == account_watch_only
    then (do
      arow ← deserialize_watch_only_account_row row
      raw_data ←
          serialize_watch_only_account_row arow.pub_key_encrypted arow.master_key_fingerprint
            (next_external branch index arow.next_external_index)
            (next_internal branch index arow.next_internal_index) arow.name arow.addr_schema
      ok (record row { raw_data = raw_data }))
    else ok row

abbrev stored_default : Bytes → Bytes → ℕ → ℕ → Bytes → AccountRow
stored_default pub_enc priv_enc ext int name = record {
  acct_type = account_default;
  raw_data = default_account_layout pub_enc priv_enc ext int name;
}

-- Advancing a stored default account, with indices of uint32 and fields whose sizes fit in uint32,
-- past the address of a branch and an index moves that branch's next index to the one behind it,
-- and leaves the keys, the name and the other branch's index.
pub advance_row_default :
    (pub_enc priv_enc : Bytes) (ext int : ℕ) (name : Bytes) (branch index : ℕ)
    → 20 + length pub_enc + length priv_enc + length name < 2 ^ 32
    → IsU32 ext
    → IsU32 int
    → advance_row branch index (stored_default pub_enc priv_enc ext int name)
      ≡ ok (
          if branch == internal_branch
          then stored_default pub_enc priv_enc ext (u32 (index + 1)) name
          else stored_default pub_enc priv_enc (u32 (index + 1)) int name)
unfolding advance_row
advance_row_default pub_enc priv_enc ext int name branch index fits he hi =
    rw (deserialize_default_account_row-layout row pub_enc priv_enc ext int name refl fits he hi) (
      rw
        (serialize_default_account_row-layout pub_enc priv_enc (next_external branch index ext)
          (next_internal branch index int) name fits)
        (ground arith))
  where
    row : AccountRow
    row = stored_default pub_enc priv_enc ext int name
