-- ===== src/Server.antt =====
-- The server's parts: the routes of cmd/app/server.go, and packages under internal.
pub mod Tables
pub mod Routes
pub mod Pins
pub mod Limits
pub mod Scrapes
pub mod Accounts
pub mod Calendar
pub mod Guards
pub mod Vault
pub mod Statuses
mod Tests
