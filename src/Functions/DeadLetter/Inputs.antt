-- ===== src/Functions/DeadLetter/Inputs.antt =====
-- apps/functions/src/triggers/order-dlq-handler.ts: what is written of a dead-lettered message.
use dp_integrator.Functions.DeadLetter.Parse.{text}
use Prim.Native.String.{◌++◌}
use dp_integrator.Base.{ℕ, String, ◌&&◌, Option, none, some, or_else, if◌then◌else◌}
use dp_integrator.Base.Text.{is_empty}
use dp_integrator.Base.Search.{numeric_tail}
use dp_integrator.Base.Print.{string_of, decimal}
use dp_integrator.Base.Value.{Value, undefined, null, str, Fields, get_field}
use dp_integrator.Core.Types.{Environment}
use dp_integrator.Core.Errors.{NewErrorInput, ErrorClass}
use dp_integrator.Core.OrderAttempt.{OrderAttemptInput, OrderAttemptOutcome}
use dp_integrator.Core.OrderSyncLog.{OrderSyncLogInput, OrderSyncLog}

-- What the trigger says of a message: its properties, and how often it was delivered, 0 where that is
-- not said.
pub record TriggerMetadata : Type 0 where
  pub application_properties : Fields
  pub delivery_count : ℕ

-- `String(v ?? '')`.
abbrev pub or_empty : Value → String
or_empty undefined = ""
or_empty null = ""
or_empty v = string_of v

unfoldable pub summary_of : (dlq_reason dlq_detail : String) → (delivery_count : ℕ) → String
summary_of dlq_reason dlq_detail delivery_count =
    if is_empty dlq_reason && is_empty dlq_detail
    then "DLQ: message exhausted SB redeliveries (deliveryCount="
      ++ (decimal delivery_count ++ "); cause not propagated by binding")
    else "DLQ: "
      ++ ((if is_empty dlq_reason then "unknown reason" else dlq_reason)
          ++ (if is_empty dlq_detail then "" else " — " ++ dlq_detail))

unfoldable pub summary : TriggerMetadata → String
summary t =
    summary_of (or_empty (get_field "DeadLetterReason" t.application_properties))
      (or_empty (get_field "DeadLetterErrorDescription" t.application_properties)) t.delivery_count

abbrev pub error_input :
    (environment connection_id dedup_key message : String) → Value → NewErrorInput
error_input environment connection_id key message envelope = record {
  environment = environment;
  connection_id = connection_id;
  flow = "order-import";
  dedup_key = key;
  error_class = ErrorClass.unknown;
  message = message;
  stack = none;
  envelope = envelope;
}

-- A text of `envelopeBlobUri` that is not empty.
abbrev pub uri_of : Value → Option String
uri_of (str s) = if is_empty s then none else some s
uri_of v = none

unfoldable pub attempt_input :
    Environment → Fields → (delivery_count : ℕ) → (detail : String) → (now : ℕ) → OrderAttemptInput
attempt_input env m delivery_count detail now = record {
  environment = env;
  connection_id = text "connectionId" m;
  shopify_order_gid = text "orderGid" m;
  delivery_count = delivery_count;
  sb_message_id = none;
  sb_session_id = none;
  outcome = OrderAttemptOutcome.quarantined;
  stage = none;
  error_class = some "unknown";
  detail = some detail;
  inbound_envelope_uri = uri_of (get_field "envelopeBlobUri" m);
  outbound_payload_uri = none;
  ns_response_uri = none;
  ns_response_status = none;
  shopify_payload_uri = none;
  payload_digest = none;
  started_at = now;
  finished_at = now;
  duration_ms = 0;
}

-- The keys, the status and the two counts; the other fields are left out.
unfoldable pub bumped :
    Environment → Fields → (delivery_count : ℕ) → OrderSyncLog → OrderSyncLogInput
bumped env m delivery_count existing = record {
  environment = env;
  connection_id = text "connectionId" m;
  shopify_order_gid = text "orderGid" m;
  shopify_order_id = or_else (numeric_tail (text "orderGid" m)) (text "orderGid" m);
  shopify_order_name = none;
  shopify_created_at = none;
  shopify_processed_at = none;
  shopify_updated_at = none;
  customer_email = none;
  currency_code = none;
  total_price = none;
  subtotal_price = none;
  total_tax = none;
  total_discounts = none;
  total_shipping = none;
  status = existing.status;
  ns_account_id = none;
  ns_record_type = none;
  ns_internal_id = none;
  ns_tran_id = none;
  park_stage = none;
  park_detail = none;
  park_error_class = none;
  ignored_reason = none;
  synced_at = none;
  attempt_count = some delivery_count;
  last_delivery_count = some delivery_count;
  last_outbound_payload_uri = none;
  last_inbound_envelope_uri = none;
}
