-- ===== src/Functions/OrderImport.antt =====
-- apps/functions/src/triggers/order-import-handler.ts: one delivery of an order message, from the bus to
-- NetSuite.
pub mod World
pub mod Log
pub mod Attempt
pub mod Digest
pub mod Park
pub mod Pipeline
pub mod Handler
pub mod Stages
pub mod Traverse
pub mod Writes
pub mod Redelivery
pub mod Books
pub mod Rows
pub mod Unasked
pub mod Refused
pub mod Gate
mod Tests
