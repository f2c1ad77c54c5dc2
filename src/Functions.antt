-- ===== src/Functions.antt =====
-- apps/functions: the handlers of the triggers.
pub mod Classification
pub mod OrderImport
pub mod Webhook
pub mod CatchUp
pub mod DeadLetter
pub mod Customer
