-- ===== src/Waddrmgr/Store/Name.antt =====
-- The names of the buckets and of the fixed keys (waddrmgr/db.go).
use btc_wallet.Go.Bytes.{Bytes, codes}

abbrev pub main : Bytes
main = codes "main"

abbrev pub sync : Bytes
sync = codes "sync"

abbrev pub scope : Bytes
scope = codes "scope"

abbrev pub scope_schema : Bytes
scope_schema = codes "scope-schema"

abbrev pub used_addr : Bytes
used_addr = codes "usedaddrs"

abbrev pub acct : Bytes
acct = codes "acct"

abbrev pub acct_name_idx : Bytes
acct_name_idx = codes "acctnameidx"

abbrev pub acct_id_idx : Bytes
acct_id_idx = codes "acctididx"

abbrev pub addr : Bytes
addr = codes "addr"

abbrev pub addr_acct_idx : Bytes
addr_acct_idx = codes "addracctidx"

abbrev pub meta : Bytes
meta = codes "meta"

abbrev pub last_account : Bytes
last_account = codes "lastaccount"

abbrev pub mgr_version : Bytes
mgr_version = codes "mgrver"

abbrev pub mgr_create_date : Bytes
mgr_create_date = codes "mgrcreated"

abbrev pub coin_type_priv_key : Bytes
coin_type_priv_key = codes "ctpriv"

abbrev pub coin_type_pub_key : Bytes
coin_type_pub_key = codes "ctpub"

abbrev pub master_hd_priv : Bytes
master_hd_priv = codes "mhdpriv"

abbrev pub master_hd_pub : Bytes
master_hd_pub = codes "mhdpub"

abbrev pub master_priv_key : Bytes
master_priv_key = codes "mpriv"

abbrev pub master_pub_key : Bytes
master_pub_key = codes "mpub"

abbrev pub crypto_priv_key : Bytes
crypto_priv_key = codes "cpriv"

abbrev pub crypto_pub_key : Bytes
crypto_pub_key = codes "cpub"

abbrev pub crypto_script_key : Bytes
crypto_script_key = codes "cscript"

abbrev pub watching_only : Bytes
watching_only = codes "watchonly"

abbrev pub birthday : Bytes
birthday = codes "birthday"
