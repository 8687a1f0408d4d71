-- ===== src/Decorators.antt =====
-- Decorators of handlers (walnats/decorators).
pub mod FilterTime
pub mod RateLimit
pub mod Require
pub mod Suppress
