-- ===== src/Http.antt =====
-- The HTTP layer, the directory http/.
pub mod Request
pub mod Context
pub mod Response
pub mod ResponseContext
pub mod Handler
pub mod Filter
pub mod Server
pub mod Proxy
pub mod Timer
