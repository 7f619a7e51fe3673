-- ===== src/Wallet.antt =====
-- Loading and unloading a wallet (wallet/).
pub mod Loader
pub mod Database
