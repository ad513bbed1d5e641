-- ===== src/App.antt =====
-- web/src/App.tsx: the start of the client, its routes, and the way back after a bot barrier.
pub mod Boot
pub mod Routes
pub mod ReturnPath
mod Tests
