-- ===== src/Serializers.antt =====
-- Serializers (walnats/serializers).
pub mod Base
pub mod Wrappers
pub mod Kinds
pub mod Registry
pub mod Instances
