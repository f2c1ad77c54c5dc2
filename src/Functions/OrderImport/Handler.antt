-- ===== src/Functions/OrderImport/Handler.antt =====
-- `handleOrderMessage`: the checks of the message, the gate, the claim, and the ways out of it.
use Prim.Native.String.{◌++◌}
use dp_integrator.Base.{
  String, Bool, true, false, ◌&&◌, Option, none, some, M, pure, str_eq, or_else,
}
use dp_integrator.Base.Value.{Value}
use dp_integrator.Core.Types.{Connection, Environment, environment_text, netsuite}
use dp_integrator.Core.DedupKey.{DedupKeyParts}
use dp_integrator.Core.Xref.{XrefRow, ClaimInput, ClaimResult, claimed, claim, lookup, mark_ignored}
use dp_integrator.Core.Queue.{OrderWebhookMessage, Source, webhook}
use dp_integrator.Core.Queue.Message.{Parsed, parsed, bad, parse}
use dp_integrator.Core.Connections.{find_by_id}
use dp_integrator.Core.OrderSyncLog.{OrderSyncLogStatus}
use dp_integrator.Core.Replay.{order_parts}
use dp_integrator.Engine.Eligibility.{update_before_create, reason_text}
use dp_integrator.Functions.OrderImport.World.{
  AttemptContext, OrderHandlerOutcome, ignored_by_eligibility, already_synced, already_claimed,
  ignored, rejected, bad_message_shape, unknown_connection, env_mismatch, track_ignored, Deps,
  World, ◌>>=◌, ◌>>◌, choose, emit, with_xref, no_locals,
}
use dp_integrator.Functions.OrderImport.Log.{shape_of, write_sync_log}
use dp_integrator.Functions.OrderImport.Attempt.{record_attempt}
use dp_integrator.Functions.OrderImport.Pipeline.{import_claimed}

is_webhook : Source → Bool
is_webhook webhook = true
is_webhook _ = false

-- A live push of an edit; a message without a source is one of the webhook's.
unfoldable pub is_live_update : OrderWebhookMessage → Bool
unfolding is_webhook
is_live_update msg = is_webhook (or_else msg.source webhook) && str_eq msg.topic "orders/updated"

unfoldable pub claim_input : DedupKeyParts → String → ClaimInput
claim_input parts gid = record {
  parts = parts;
  target_system = netsuite;
  target_external = gid;
  source_hash = none;
}

-- The handler's `dedupKey`; the message's environment is the handler's by now.
abbrev pub parts_for : Environment → Connection → OrderWebhookMessage → DedupKeyParts
parts_for env connection msg = order_parts env connection.connection_id msg.order_gid

module _ {E : Type 0} (deps : Deps E) (ctx : Option AttemptContext) where
  module _ (msg : OrderWebhookMessage) (connection : Connection) where
    abbrev parts : DedupKeyParts
    parts = parts_for deps.environment connection msg

    -- A way out before the body: the delivery leaves its row all the same.
    unfoldable pub short_circuit : OrderHandlerOutcome → M (World E) OrderHandlerOutcome
    short_circuit o =
        record_attempt deps msg connection ctx (record no_locals { outcome = some o }) >> pure o

    unfoldable pub by_claim : ClaimResult → M (World E) OrderHandlerOutcome
    by_claim (ClaimResult.already_synced row) =
        short_circuit (already_synced connection.connection_id msg.order_gid)
    by_claim (ClaimResult.already_claimed row) =
        short_circuit (already_claimed connection.connection_id msg.order_gid)
    by_claim (ClaimResult.already_ignored row) =
        short_circuit (ignored connection.connection_id msg.order_gid)
    by_claim (claimed row) = import_claimed deps parts connection msg ctx

    unfoldable pub claim_order : M (World E) OrderHandlerOutcome
    claim_order = with_xref deps (claim (claim_input parts msg.order_gid)) >>= by_claim

    unfoldable pub ignore_update : M (World E) OrderHandlerOutcome
    ignore_update = do
      _ ← with_xref deps (mark_ignored parts)
      _ ←
          write_sync_log deps connection msg
            (record (shape_of OrderSyncLogStatus.ignored none ctx) {
              ignored_reason = some (reason_text update_before_create);
            })
      _ ← emit (track_ignored connection.connection_id update_before_create)
      short_circuit
          (ignored_by_eligibility connection.connection_id msg.order_gid update_before_create none)

    unfoldable pub by_existing : Option XrefRow → M (World E) OrderHandlerOutcome
    by_existing none = ignore_update
    by_existing (some row) = claim_order

    unfoldable pub gated : M (World E) OrderHandlerOutcome
    gated = choose (is_live_update msg) (with_xref deps (lookup parts) >>= by_existing) claim_order

  abbrev unknown_id : OrderWebhookMessage → OrderHandlerOutcome
  unknown_id msg = rejected unknown_connection ("connectionId=" ++ msg.connection_id)

  unfoldable pub with_connection :
      OrderWebhookMessage → Option Connection → M (World E) OrderHandlerOutcome
  with_connection msg none = pure (unknown_id msg)
  with_connection msg (some connection) =
      choose connection.enabled (gated msg connection) (pure (unknown_id msg))

  unfoldable pub with_message : Parsed → M (World E) OrderHandlerOutcome
  with_message (bad error) = pure (rejected bad_message_shape error)
  with_message (parsed msg) =
      choose (str_eq msg.environment (environment_text deps.environment))
        (with_connection msg (find_by_id deps.environment msg.connection_id deps.connections))
        (pure (
          rejected env_mismatch (
            "message env="
            ++ (msg.environment ++ (", handler env=" ++ environment_text deps.environment)))))

  unfoldable pub handle_order_message : Value → M (World E) OrderHandlerOutcome
  handle_order_message message = with_message (parse message)
