-- ===== src/Engine.antt =====
-- packages/mapping-engine: what is imported, and how an order is mapped.
pub mod Eligibility
pub mod MappingResult
pub mod Mapping
pub mod Paths
pub mod Evaluator
pub mod Registries
