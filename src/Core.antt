-- ===== src/Core.antt =====
-- The shared types of pkg/core.
pub mod Activity
pub mod Float
pub mod Content
pub mod Neuron
pub mod Synapse
pub mod Matrix
pub mod Fixed
mod Energy
mod Examples
