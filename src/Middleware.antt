-- ===== src/Middleware.antt =====
-- The two middlewares that refuse a request at the door (src/dodeal_ai/middleware).
pub mod BodyLimit
pub mod Inflight
mod Examples
