-- ===== src/Core/Queue/Tests.antt =====
-- A concrete message.
use dp_integrator.Base.{◌≡◌, refl, some}
use dp_integrator.Base.Text.{is_empty}
use dp_integrator.Core.Queue.{OrderWebhookMessage, webhook}
use dp_integrator.Core.Queue.Message.{parse, encode, parsed}
use dp_integrator.Core.Queue.Message.Roundtrip.{IsFull, parse-encode}

abbrev message : OrderWebhookMessage
message = record {
  environment = "prod";
  connection_id = "c1";
  shop_domain = "store.example";
  topic = "orders/create";
  order_gid = "7";
  envelope_blob_uri = "blob://7";
  received_at = "2024-01-01T00:00:00.000Z";
  source = some webhook;
}

message-IsFull : IsFull message
unfolding is_empty
message-IsFull = record {
  environment = refl;
  connection_id = refl;
  shop_domain = refl;
  topic = refl;
  order_gid = refl;
  envelope_blob_uri = refl;
  received_at = refl;
}

parse-encode_example : parse (encode message) ≡ parsed message
parse-encode_example = parse-encode message message-IsFull
