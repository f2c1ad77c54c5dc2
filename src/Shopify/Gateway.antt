-- ===== src/Shopify/Gateway.antt =====
-- packages/shopify-client/src/gateway.ts: what the gateway answers with.
use dp_integrator.Base.{String}

pub record OrderSummary : Type 0 where
  pub id : String
  pub updated_at : String
