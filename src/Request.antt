-- ===== src/Request.antt =====
-- src/middleware/claude/request.rs: how a request is shaped before it goes upstream.
pub mod Sampling
