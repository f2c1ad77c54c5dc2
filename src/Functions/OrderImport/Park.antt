-- ===== src/Functions/OrderImport/Park.antt =====
-- `parkOutcome` and `classifyAndRoute`: what becomes of an order whose import did not go through.
use Prim.Native.String.{◌++◌}
use dp_integrator.Base.{
  String, Bool, true, false, Option, none, some, Thrown, order_not_found, M, pure, lift, throw,
}
use dp_integrator.Base.Value.{Value}
use dp_integrator.Core.Types.{Connection, environment_text}
use dp_integrator.Core.DedupKey.{DedupKeyParts, dedup_key}
use dp_integrator.Core.Xref.{record_failure}
use dp_integrator.Core.Errors.{ErrorClass, auth, error_class_text}
use dp_integrator.Core.Queue.{OrderWebhookMessage}
use dp_integrator.Core.Queue.Message.{encode}
use dp_integrator.Core.OrderSyncLog.{OrderSyncLogStatus}
use dp_integrator.Shopify.Order.{ShopifyOrder}
use dp_integrator.Functions.Classification.{classify_handler_error, should_retry}
use dp_integrator.Functions.OrderImport.World.{
  AttemptContext, ParkStage, fetch, external_call, OrderHandlerOutcome, parked, track_park,
  track_auth_error, Deps, World, ◌>>=◌, ◌>>◌, choose, emit, with_xref, store_error, when_wired,
}
use dp_integrator.Functions.OrderImport.Log.{message_of, stage_text, shape_of, write_sync_log}

pub record ParkInput : Type 0 where
  pub stage : ParkStage
  pub detail : String
  pub error_class : ErrorClass
  pub stack : Option String
  pub order : Option ShopifyOrder
  pub attempt_ctx : Option AttemptContext

is_auth : ErrorClass → Bool
is_auth auth = true
is_auth _ = false

stage_of : Thrown → ParkStage
stage_of (order_not_found gid shop) = fetch
stage_of _ = external_call

module _ {E : Type 0} (deps : Deps E) (parts : DedupKeyParts) (connection : Connection)
    (msg : OrderWebhookMessage) where
  -- The key is computed while the record is put together, if there is a store for it.
  unfoldable pub record_error_as :
      String → ErrorClass → String → Option String → Value → M (World E) (Unit {0})
  record_error_as flow class message stack envelope w =
      when_wired w.errors
        (lift (dedup_key parts) >>= (λ key. store_error deps (record {
          environment = environment_text deps.environment;
          connection_id = connection.connection_id;
          flow = flow;
          dedup_key = key;
          error_class = class;
          message = message;
          stack = stack;
          envelope = envelope;
        })))
        w

  unfoldable pub park_outcome : ParkInput → M (World E) OrderHandlerOutcome
  park_outcome park = do
    _ ← with_xref deps (record_failure parts none)
    _ ←
        record_error_as "order-import" park.error_class
          ("[" ++ (stage_text park.stage ++ ("] " ++ park.detail))) park.stack (encode msg)
    _ ← emit (track_park connection.connection_id park.stage park.error_class)
    _ ←
        write_sync_log deps connection msg
          (record (shape_of OrderSyncLogStatus.parked park.order park.attempt_ctx) {
            park_stage = some (stage_text park.stage);
            park_detail = some park.detail;
            park_error_class = some (error_class_text park.error_class);
          })
    pure (parked connection.connection_id msg.order_gid park.stage park.detail park.error_class)

  -- An auth failure is recorded and told to the telemetry before it is thrown again.
  unfoldable pub rethrow : ErrorClass → Thrown → M (World E) OrderHandlerOutcome
  unfolding is_auth
  rethrow class err =
      choose (is_auth class)
        (record_error_as "order-import" class (message_of err) (deps.stack_of err) (encode msg)
          >> (emit (track_auth_error connection.connection_id "order-import" (message_of err))
              >> throw err))
        (throw err)

  unfoldable pub classify_and_route :
      Thrown → Option ShopifyOrder → Option AttemptContext → M (World E) OrderHandlerOutcome
  unfolding stage_of
  classify_and_route err order ctx =
      let class = classify_handler_error err in
      choose (should_retry class) (rethrow class err) (
        park_outcome (record {
          stage = stage_of err;
          detail = message_of err;
          error_class = class;
          stack = deps.stack_of err;
          order = order;
          attempt_ctx = ctx;
        }))
