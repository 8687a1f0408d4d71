-- ===== src/Middlewares.antt =====
-- Middlewares (walnats/middlewares): callbacks on the stages of message handling.
pub mod Base
pub mod Threshold
pub mod Frequency
pub mod Hooked
pub mod Metrics
pub mod Traces
pub mod Logs
pub mod Sentry
