-- ===== src/Octopoes.antt =====
-- The modules about octopoes/octopoes.
pub mod Paths
pub mod Profiles
pub mod Recalculation
pub mod Explanations
pub mod Origins
pub mod Session
pub mod Repositories
pub mod Service
pub mod Bits
pub mod Inference
pub mod Handlers
pub mod Rules
pub mod Requests
pub mod Collection
pub mod Examples
