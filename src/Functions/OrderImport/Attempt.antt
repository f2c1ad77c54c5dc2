-- ===== src/Functions/OrderImport/Attempt.antt =====
-- `recordAttempt`: the row that each delivery leaves.
use Prim.Native.String.{◌++◌}
use dp_integrator.Base.{ℕ, ◌-◌, String, Option, none, some, Thrown, M, pure, if◌then◌else◌}
use dp_integrator.Base.Text.{is_empty}
use dp_integrator.Core.Types.{Connection}
use dp_integrator.Core.Errors.{ErrorClass, auth, error_class_text}
use dp_integrator.Core.Queue.{OrderWebhookMessage}
use dp_integrator.Core.OrderAttempt.{OrderAttemptInput, OrderAttemptOutcome}
use dp_integrator.Engine.Eligibility.{reason_text}
use dp_integrator.Functions.Classification.{classify_handler_error}
use dp_integrator.Functions.OrderImport.World.{
  AttemptContext, OrderHandlerOutcome, Deps, World, ◌>>◌, Locals, on_outside, in_attempts,
  when_wired, catching,
}
use dp_integrator.Functions.OrderImport.Log.{stage_text, reject_text, message_of, filled, if_filled}

-- `resolveAttemptOutcome` and its result.
pub record Resolved : Type 0 where
  pub outcome : OrderAttemptOutcome
  pub stage : Option String
  pub error_class : Option String
  pub detail : Option String

abbrev only : OrderAttemptOutcome → Resolved
only o = record { outcome = o; stage = none; error_class = none; detail = none }

ignored_detail : String → Option String → String
ignored_detail reason none = reason
ignored_detail reason (some d) = if is_empty d then reason else reason ++ (": " ++ d)

resolve_outcome : OrderHandlerOutcome → Resolved
unfolding ignored_detail stage_text reject_text
resolve_outcome (OrderHandlerOutcome.imported c g t created customer) =
    only OrderAttemptOutcome.imported
resolve_outcome (OrderHandlerOutcome.parked c g stage detail class) = record {
  outcome = OrderAttemptOutcome.parked;
  stage = some (stage_text stage);
  error_class = some (error_class_text class);
  detail = some detail;
}
resolve_outcome (OrderHandlerOutcome.ignored_by_eligibility c g reason detail) =
    record (only OrderAttemptOutcome.ignored_by_eligibility) {
      detail = some (ignored_detail (reason_text reason) detail);
    }
resolve_outcome (OrderHandlerOutcome.already_synced c g) = only OrderAttemptOutcome.already_synced
resolve_outcome (OrderHandlerOutcome.already_claimed c g) = only OrderAttemptOutcome.already_claimed
resolve_outcome (OrderHandlerOutcome.ignored c g) = only OrderAttemptOutcome.ignored
resolve_outcome (OrderHandlerOutcome.rejected reason detail) = record {
  outcome = OrderAttemptOutcome.rejected;
  stage = none;
  error_class = some (reject_text reason);
  detail = some detail;
}

throw_outcome : ErrorClass → OrderAttemptOutcome
throw_outcome auth = OrderAttemptOutcome.auth_throw
throw_outcome _ = OrderAttemptOutcome.transient_throw

unfoldable pub resolve_attempt_outcome : Option OrderHandlerOutcome → Option Thrown → Resolved
unfolding resolve_outcome throw_outcome
resolve_attempt_outcome o (some err) = record {
  outcome = throw_outcome (classify_handler_error err);
  stage = none;
  error_class = some (error_class_text (classify_handler_error err));
  detail = some (message_of err);
}
resolve_attempt_outcome none none = record (only OrderAttemptOutcome.transient_throw) {
  detail = some "no outcome captured";
}
resolve_attempt_outcome (some o) none = resolve_outcome o

module _ {E : Type 0} (deps : Deps E) (msg : OrderWebhookMessage) (connection : Connection) where
  unfoldable pub attempt_input : AttemptContext → ℕ → Resolved → Locals → OrderAttemptInput
  attempt_input ctx finished_at resolved l = record {
    environment = deps.environment;
    connection_id = connection.connection_id;
    shopify_order_gid = msg.order_gid;
    delivery_count = ctx.delivery_count;
    sb_message_id = if_filled ctx.sb_message_id;
    sb_session_id = if_filled ctx.sb_session_id;
    outcome = resolved.outcome;
    stage = if_filled resolved.stage;
    error_class = if_filled resolved.error_class;
    detail = if_filled resolved.detail;
    inbound_envelope_uri = filled msg.envelope_blob_uri;
    outbound_payload_uri = if_filled l.outbound_payload_uri;
    ns_response_uri = if_filled l.ns_response_uri;
    ns_response_status = l.ns_response_status;
    shopify_payload_uri = if_filled l.shopify_payload_uri;
    payload_digest = l.payload_digest;
    started_at = ctx.started_at;
    finished_at = finished_at;
    duration_ms = finished_at - ctx.started_at;
  }

  unfoldable pub record_with : AttemptContext → Locals → M (World E) (Unit {0})
  record_with ctx l w =
      let input =
        attempt_input ctx (deps.now w.outside) (resolve_attempt_outcome l.outcome l.throw_err) l in
      catching
        ((on_outside deps.reach >> (λ w'. in_attempts input (deps.now w'.outside) w'.attempts w'))
          w)
        (λ _. pure tt)

  -- `recordAttempt`: an outage of its store is swallowed.
  unfoldable pub record_attempt : Option AttemptContext → Locals → M (World E) (Unit {0})
  record_attempt none l w = pure tt w
  record_attempt (some ctx) l w = when_wired w.attempts (record_with ctx l) w
