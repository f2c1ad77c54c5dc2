-- ===== src/Functions/OrderImport/Log.antt =====
-- `writeSyncLog`: the ledger entry that a delivery leaves of its order.
-- The message's environment, which the handler has compared with its own, is the handler's.
use Prim.Native.String.{◌++◌}
use dp_integrator.Base.{
  ℕ, String, Option, none, some, Thrown, plain_error, order_not_found, netsuite_error, other_value,
  M, or_else, if◌then◌else◌,
}
use dp_integrator.Base.Text.{is_empty}
use dp_integrator.Base.Search.{numeric_tail}
use dp_integrator.Core.Types.{Connection}
use dp_integrator.Core.Queue.{OrderWebhookMessage}
use dp_integrator.Core.OrderSyncLog.{OrderSyncLogInput, OrderSyncLogStatus, NsRecordType}
use dp_integrator.Shopify.Order.{ShopifyOrder, ShopifyCustomer}
use dp_integrator.Functions.OrderImport.World.{
  AttemptContext, ParkStage, fetch, mapping, balancing, item_resolution, external_call,
  RejectReason, bad_message_shape, unknown_connection, env_mismatch, Deps, World, ◌>>◌, on_outside,
  in_log, when_wired,
}

unfoldable pub stage_text : ParkStage → String
stage_text fetch = "fetch"
stage_text mapping = "mapping"
stage_text balancing = "balancing"
stage_text item_resolution = "item_resolution"
stage_text external_call = "external_call"

unfoldable pub reject_text : RejectReason → String
reject_text bad_message_shape = "bad_message_shape"
reject_text unknown_connection = "unknown_connection"
reject_text env_mismatch = "env_mismatch"

-- `err instanceof Error ? err.message : String(err)`.
unfoldable pub message_of : Thrown → String
message_of (plain_error m) = m
message_of (order_not_found gid shop) = "order '" ++ (gid ++ ("' not found on " ++ shop))
message_of (netsuite_error e) = e.message
message_of (other_value v) = v

-- A text that is there and has a character.
abbrev pub filled : String → Option String
filled s = if is_empty s then none else some s

abbrev pub if_filled : Option String → Option String
if_filled none = none
if_filled (some s) = filled s

-- `SyncLogShape`, without the NetSuite transaction id that no caller gives.
pub record SyncLogShape : Type 0 where
  pub status : OrderSyncLogStatus
  pub order : Option ShopifyOrder
  pub ns_account_id : Option String
  pub ns_record_type : Option NsRecordType
  pub ns_internal_id : Option String
  pub synced_at : Option ℕ
  pub park_stage : Option String
  pub park_detail : Option String
  pub park_error_class : Option String
  pub ignored_reason : Option String
  pub attempt_ctx : Option AttemptContext
  pub last_outbound_payload_uri : Option String

abbrev pub shape_of :
    OrderSyncLogStatus → Option ShopifyOrder → Option AttemptContext → SyncLogShape
shape_of status order ctx = record {
  status = status;
  order = order;
  ns_account_id = none;
  ns_record_type = none;
  ns_internal_id = none;
  synced_at = none;
  park_stage = none;
  park_detail = none;
  park_error_class = none;
  ignored_reason = none;
  attempt_ctx = ctx;
  last_outbound_payload_uri = none;
}

abbrev from_order : {A : Type 0} → (ShopifyOrder → Option A) → Option ShopifyOrder → Option A
from_order f none = none
from_order f (some o) = f o

email_of : Option ShopifyCustomer → Option String
email_of none = none
email_of (some c) = c.email

abbrev delivery_of : Option AttemptContext → Option ℕ
delivery_of none = none
delivery_of (some ctx) = some ctx.delivery_count

module _ {E : Type 0} (deps : Deps E) (connection : Connection) (msg : OrderWebhookMessage) where
  unfoldable pub sync_log_input : SyncLogShape → OrderSyncLogInput
  unfolding email_of
  sync_log_input shape = record {
    environment = deps.environment;
    connection_id = connection.connection_id;
    shopify_order_gid = msg.order_gid;
    shopify_order_id = or_else (numeric_tail msg.order_gid) msg.order_gid;
    shopify_order_name = from_order (λ o. some o.name) shape.order;
    shopify_created_at = from_order (λ o. some o.created_at) shape.order;
    shopify_processed_at = from_order (λ o. some o.processed_at) shape.order;
    shopify_updated_at = from_order (λ o. some o.updated_at) shape.order;
    customer_email = from_order (λ o. email_of o.customer) shape.order;
    currency_code = from_order (λ o. some o.currency_code) shape.order;
    total_price = from_order (λ o. some o.total_price.amount) shape.order;
    subtotal_price = from_order (λ o. some o.subtotal_price.amount) shape.order;
    total_tax = from_order (λ o. some o.total_tax.amount) shape.order;
    total_discounts = from_order (λ o. some o.total_discounts.amount) shape.order;
    total_shipping = from_order (λ o. some o.total_shipping_price.amount) shape.order;
    status = shape.status;
    ns_account_id = shape.ns_account_id;
    ns_record_type = shape.ns_record_type;
    ns_internal_id = shape.ns_internal_id;
    ns_tran_id = none;
    park_stage = shape.park_stage;
    park_detail = shape.park_detail;
    park_error_class = shape.park_error_class;
    ignored_reason = shape.ignored_reason;
    synced_at = shape.synced_at;
    attempt_count = delivery_of shape.attempt_ctx;
    last_delivery_count = delivery_of shape.attempt_ctx;
    last_outbound_payload_uri = shape.last_outbound_payload_uri;
    last_inbound_envelope_uri = filled msg.envelope_blob_uri;
  }

  unfoldable pub write_sync_log : SyncLogShape → M (World E) (Unit {0})
  write_sync_log shape w =
      when_wired w.log
        (on_outside deps.reach
          >> (λ w'. in_log (sync_log_input shape) (deps.now w'.outside) w'.log w'))
        w
