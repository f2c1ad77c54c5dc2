-- ===== src/Core/Queue/Message/Roundtrip.antt =====
-- A message on its way from a producer to the parser of the order handler.
use dp_integrator.Base.{◌≡◌, false, Option, none, some}
use dp_integrator.Base.Value.{get_field}
use dp_integrator.Base.Text.{is_empty}
use dp_integrator.Core.Queue.{OrderWebhookMessage, Source, webhook}
use dp_integrator.Core.Queue.Message.{parse, encode, parsed}

-- Every text of the message has a character.
pub record IsFull (m : OrderWebhookMessage) : Type 0 where
  pub environment : is_empty m.environment ≡ false
  pub connection_id : is_empty m.connection_id ≡ false
  pub shop_domain : is_empty m.shop_domain ≡ false
  pub topic : is_empty m.topic ≡ false
  pub order_gid : is_empty m.order_gid ≡ false
  pub envelope_blob_uri : is_empty m.envelope_blob_uri ≡ false
  pub received_at : is_empty m.received_at ≡ false

abbrev Survives : OrderWebhookMessage → Type 0
Survives m = parse (encode m) ≡ parsed m

Survives-with :
    (m : OrderWebhookMessage) (s : Option Source) → IsFull m → Survives (record m { source = s })
unfolding parse encode get_field
Survives-with m none f = simp (
  f.environment, f.connection_id, f.shop_domain, f.topic, f.order_gid, f.envelope_blob_uri,
  f.received_at,
)
Survives-with m (some webhook) f = simp (
  f.environment, f.connection_id, f.shop_domain, f.topic, f.order_gid, f.envelope_blob_uri,
  f.received_at,
)
Survives-with m (some s) f = simp (
  f.environment, f.connection_id, f.shop_domain, f.topic, f.order_gid, f.envelope_blob_uri,
  f.received_at,
)

-- The order handler reads from the bus exactly the message that a producer put there, if none of
-- its texts is empty, with or without a source.
pub parse-encode : (m : OrderWebhookMessage) → IsFull m → parse (encode m) ≡ parsed m
parse-encode m f = Survives-with m m.source f
