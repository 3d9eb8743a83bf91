-- ===== src/Model.antt =====
-- internal/registry/model: the data that the registry keeps about agents, and their capabilities.
pub mod Agent
pub mod Capability
