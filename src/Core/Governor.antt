-- ===== src/Core/Governor.antt =====
-- packages/core/src/governor: the budget of concurrent calls of one NetSuite account. The number in
-- the constructors' message is left out.
mod Tests
pub mod Contract
pub mod Shared
pub mod PerProcess
pub mod Acquire
pub mod Bounds
pub mod Trap
