-- ===== src/Events.antt =====
-- Events (walnats/_events): their streams, headers and emission.
pub mod Registry
pub mod Event
pub mod Codec
pub mod Sync
pub mod Emission
pub mod CloudEvent
pub mod Headers
pub mod Clock
pub mod Monitor
