-- ===== src/Waddrmgr.antt =====
-- The address manager (waddrmgr/).
pub mod Errors
pub mod Keys
pub mod Manager
pub mod Rows
pub mod Scoped
pub mod World
pub mod Managed
pub mod Store
