-- ===== src/Walletdb.antt =====
-- The database interface (walletdb/) and its driver over bbolt (walletdb/bdb/).
pub mod Bolt
pub mod Bdb
pub mod Memory
pub mod Transaction
pub mod Keeps
