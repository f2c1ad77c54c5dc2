-- ===== src/Shopify.antt =====
-- packages/shopify-client: the model of an order.
pub mod Order
pub mod Sample
pub mod Hmac
pub mod Gateway
pub mod OrderValue
