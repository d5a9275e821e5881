-- ===== src/Api.antt =====
-- internal/api: the HTTP handlers.
pub mod Accounts
pub mod Login
pub mod Throttle
pub mod Receive
pub mod Received
pub mod Plugins
pub mod Publishing
pub mod Server
