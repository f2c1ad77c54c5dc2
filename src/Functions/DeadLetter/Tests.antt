-- ===== src/Functions/DeadLetter/Tests.antt =====
-- A message that the bus gave up after ten deliveries.
use dp_integrator.Base.{ℕ, ◌+◌, ◌≡◌, refl, true, false, some, none, [], ◌∷◌, ok}
use dp_integrator.Base.Dict.{get}
use dp_integrator.Base.Value.{Fields, field, end, str, num, obj, get_field}
use dp_integrator.Core.Sample.{sample_connection}
use dp_integrator.Core.Types.{prod, environment_text}
use dp_integrator.Core.Errors.{empty_error_store}
use dp_integrator.Core.OrderAttempt.{empty_attempts}
use dp_integrator.Core.OrderSyncLog.{
  OrderSyncLogStore, OrderSyncLog, OrderSyncLogInput, find_by_order_gid, log_key, imported,
}
use dp_integrator.Functions.DeadLetter.{
  DlqHandlerDeps, Dlq, find_log, bump_log, handle_dead_lettered_order,
}
use dp_integrator.Functions.DeadLetter.Inputs.{TriggerMetadata}
use dp_integrator.Functions.DeadLetter.Quarantined.{Reported, handle_dead_lettered_order-Reported}
use dp_integrator.Functions.DeadLetter.Erased.{Erased, bump_log-Erased}

abbrev deps : DlqHandlerDeps ℕ
deps = record {
  environment = prod;
  connections = record {
    by_shop = ("prod|store.example", sample_connection) ∷ [];
    by_id = ("prod|c1", sample_connection) ∷ [];
    all = sample_connection ∷ [];
  };
  now = λ e. e;
  reach = λ e. (ok tt, e + 1);
}

abbrev envelope : Fields
envelope = field "schemaVersion" (num false 1 0) (
    field "environment" (str "prod") (
      field "connectionId" (str "c1") (
        field "shopDomain" (str "store.example")
          (field "topic" (str "orders/create") (field "orderGid" (str "o1") end)))))

abbrev trigger : TriggerMetadata
trigger = record {
  application_properties = field "DeadLetterReason" (str "MaxDeliveryCountExceeded") end;
  delivery_count = 10;
}

abbrev input : OrderSyncLogInput
input = record {
  environment = prod;
  connection_id = "c1";
  shopify_order_gid = "o1";
  shopify_order_id = "o1";
  shopify_order_name = some "#1007";
  shopify_created_at = none;
  shopify_processed_at = none;
  shopify_updated_at = none;
  customer_email = none;
  currency_code = some "USD";
  total_price = some "10.00";
  subtotal_price = none;
  total_tax = none;
  total_discounts = none;
  total_shipping = none;
  status = imported;
  ns_account_id = none;
  ns_record_type = none;
  ns_internal_id = some "900";
  ns_tran_id = none;
  park_stage = none;
  park_detail = none;
  park_error_class = none;
  ignored_reason = none;
  synced_at = none;
  attempt_count = some 1;
  last_delivery_count = some 1;
  last_outbound_payload_uri = none;
  last_inbound_envelope_uri = none;
}

abbrev row : OrderSyncLog
row = record { id = 1; input = input; created_at = 0; updated_at = 0 }

abbrev log : OrderSyncLogStore
log = record { rows = ("prod|c1|o1", row) ∷ []; seq = 1 }

abbrev start : Dlq ℕ
start = record {
  errors = empty_error_store;
  attempts = some empty_attempts;
  log = some log;
  outside = 100;
}

handle_dead_lettered_order-Reported_example :
    Reported
      (obj envelope)
      start
      (handle_dead_lettered_order deps (obj envelope) trigger true start)
handle_dead_lettered_order-Reported_example =
    handle_dead_lettered_order-Reported deps (obj envelope) trigger start tt true

found : find_log deps prod envelope (some log) ≡ some row
unfolding find_log find_by_order_gid log_key get get_field environment_text
found = refl

bump_log-Erased_example :
    Erased deps prod envelope 10 row (bump_log deps prod envelope 10 start).1.log
bump_log-Erased_example = bump_log-Erased deps prod envelope 10 row start log (λ e. refl) refl found
