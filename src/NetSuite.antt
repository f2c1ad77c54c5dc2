-- ===== src/NetSuite.antt =====
-- packages/netsuite-client: the client of NetSuite.
pub mod ErrorMapping
pub mod Lines
pub mod Balancing
pub mod Tax
pub mod Gateway
pub mod ItemResolver
pub mod Sample
pub mod Address
pub mod FakeGateway
pub mod DeriveFns
pub mod DefaultOrderMap
pub mod PayloadBuilder
