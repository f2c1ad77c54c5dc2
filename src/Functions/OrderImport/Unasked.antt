-- ===== src/Functions/OrderImport/Unasked.antt =====
-- Two sets of dependencies of the handler that differ in NetSuite and in the stages before the write to it.
use dp_integrator.Base.{String, Option, ◌≡◌, refl}
use dp_integrator.Core.Types.{Connection}
use dp_integrator.Core.DedupKey.{DedupKeyParts}
use dp_integrator.Core.Queue.{OrderWebhookMessage}
use dp_integrator.Shopify.Order.{ShopifyOrder}
use dp_integrator.Engine.Eligibility.{EligibilityReason, ineligible}
use dp_integrator.Functions.OrderImport.World.{AttemptContext, Deps, with_xref, store_error}
use dp_integrator.Functions.OrderImport.Log.{write_sync_log, sync_log_input}
use dp_integrator.Functions.OrderImport.Attempt.{record_attempt, record_with, attempt_input}
use dp_integrator.Functions.OrderImport.Park.{
  park_outcome, record_error_as, rethrow, classify_and_route,
}
use dp_integrator.Functions.OrderImport.Pipeline.{
  archive, archive_with, put_quietly, put_context, archive_error, fetch_order, by_eligibility,
  finish, on_throw,
}
use dp_integrator.Functions.OrderImport.Handler.{ignore_update, short_circuit}

-- The same dependencies, but for the customer, the stages of the payload and the write to NetSuite.
abbrev pub asking : {E : Type 0} → Deps E → Deps E → Deps E
asking other deps = record deps {
  resolve_customer = other.resolve_customer;
  build_order_payload = other.build_order_payload;
  apply_tax = other.apply_tax;
  apply_balancing = other.apply_balancing;
  resolve_item_references = other.resolve_item_references;
  upsert_by_external_id = other.upsert_by_external_id;
}

module _ {E : Type 0} (other deps : Deps E) (parts : DedupKeyParts) (connection : Connection)
    (msg : OrderWebhookMessage) (ctx : Option AttemptContext) where
  pub fetch_order_same :
      fetch_order (asking other deps) parts connection msg ctx
      ≡ fetch_order deps parts connection msg ctx
  unfolding fetch_order archive archive_with put_quietly put_context
  fetch_order_same = refl

  pub record_attempt_same :
      record_attempt (asking other deps) msg connection ctx ≡ record_attempt deps msg connection ctx
  unfolding record_attempt record_with attempt_input
  record_attempt_same = refl

  pub ignored_same :
      (order : ShopifyOrder) (reason : EligibilityReason) (detail : Option String)
      → by_eligibility (asking other deps) parts connection msg ctx order (ineligible reason detail)
        ≡ by_eligibility deps parts connection msg ctx order (ineligible reason detail)
  unfolding by_eligibility with_xref write_sync_log sync_log_input
  ignored_same order reason detail = refl

  pub on_throw_same :
      on_throw (asking other deps) parts connection msg ctx ≡ on_throw deps parts connection msg ctx
  unfolding on_throw archive_error archive archive_with put_quietly put_context classify_and_route
      rethrow park_outcome record_error_as store_error with_xref write_sync_log sync_log_input
      finish
  on_throw_same = refl

  pub finish_same :
      finish (asking other deps) parts connection msg ctx ≡ finish deps parts connection msg ctx
  unfolding finish
  finish_same = refl

  pub ignore_update_same :
      ignore_update (asking other deps) ctx msg connection ≡ ignore_update deps ctx msg connection
  unfolding ignore_update short_circuit with_xref write_sync_log sync_log_input record_attempt
      record_with attempt_input
  ignore_update_same = refl
