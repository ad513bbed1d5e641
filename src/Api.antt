-- ===== src/Api.antt =====
-- web/src/lib/api.ts and web/src/lib/utils.ts.
pub mod Types
pub mod Request
pub mod Endpoints
pub mod Answers
pub mod Cache
mod Tests
