-- ===== src/Actors.antt =====
-- Actors (walnats/_actors): message handling and its settings.
pub mod Registry
pub mod Actor
pub mod Priority
pub mod Pulse
pub mod Handle
pub mod Jobs
pub mod Listen
pub mod Connection
