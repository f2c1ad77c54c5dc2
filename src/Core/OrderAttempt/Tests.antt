-- ===== src/Core/OrderAttempt/Tests.antt =====
-- The timeline of a concrete order.
use dp_integrator.Base.{◌+◌, none, All}
use dp_integrator.Base.Sort.{IsFalling}
use dp_integrator.Core.Types.{prod}
use dp_integrator.Core.OrderAttempt.{
  OrderAttempt, OrderAttemptInput, OrderAttemptStore, imported, empty_attempts, record_attempt,
  list_by_order_gid,
}
use dp_integrator.Core.OrderAttempt.Timeline.{IsOf, Grown, list-record_attempt}

abbrev attempt : OrderAttemptInput
attempt = record {
  environment = prod;
  connection_id = "c1";
  shopify_order_gid = "7";
  delivery_count = 2;
  sb_message_id = none;
  sb_session_id = none;
  outcome = imported;
  stage = none;
  error_class = none;
  detail = none;
  inbound_envelope_uri = none;
  outbound_payload_uri = none;
  ns_response_uri = none;
  ns_response_status = none;
  shopify_payload_uri = none;
  payload_digest = none;
  started_at = 10;
  finished_at = 30;
  duration_ms = 20;
}

abbrev other : OrderAttemptInput
other = record attempt { shopify_order_gid = "8"; delivery_count = 3 }

-- A store that holds an attempt of another order of the connection.
abbrev store : OrderAttemptStore
store = (record_attempt other 20 empty_attempts).1

list-record_attempt_example :
    IsFalling
      (λ r. r.delivery_count)
      (list_by_order_gid prod "c1" "7" (record_attempt attempt 30 store).1)
    × All
        (λ (r : OrderAttempt). IsOf prod "c1" "7" r.input)
        (list_by_order_gid prod "c1" "7" (record_attempt attempt 30 store).1)
    × Grown prod "c1" "7"
        (record { id = store.seq + 1; input = attempt; created_at = 30 })
        (list_by_order_gid prod "c1" "7" store)
        (list_by_order_gid prod "c1" "7" (record_attempt attempt 30 store).1)
list-record_attempt_example = list-record_attempt attempt 30 store prod "c1" "7"
