-- ===== src/Tests.antt =====
-- The theorems at concrete inputs, and small runs.
pub mod Actors
pub mod Middlewares
pub mod Events
pub mod Registration
pub mod Emission
pub mod Serializers
pub mod Tools
pub mod Requests
pub mod Routing
pub mod Jobs
pub mod Listening
pub mod Decorators
