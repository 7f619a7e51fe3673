-- ===== src/Tests.antt =====
-- Runs of the theorems on concrete inputs, one file for each part of the program.
mod Store
mod Namespace
mod Rows
mod Snacl
mod Toys
mod Accounts
mod Created
mod Manager
mod Wallet
mod Scopes
mod Unlock
mod Addresses
