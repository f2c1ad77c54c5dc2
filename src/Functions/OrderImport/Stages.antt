-- ===== src/Functions/OrderImport/Stages.antt =====
-- apps/functions/src/triggers/order-import-handler.ts: the stages that the handler imports, as it calls them.
mod Kept
pub mod Prepared
use dp_integrator.Base.{String, Option, List, Result, ok, throws, M, and_then, resume}
use dp_integrator.Base.Value.{Fields}
use dp_integrator.Core.Types.{Connection}
use dp_integrator.Shopify.Order.{ShopifyOrder}
use dp_integrator.Engine.Mapping.{Mapping}
use dp_integrator.Engine.MappingResult.{MappingResult, mapped, parked}
use dp_integrator.Engine.Evaluator.{EvaluatorContext}
use dp_integrator.NetSuite.Gateway.{NetSuiteGateway}
use dp_integrator.NetSuite.DeriveFns.{default_derive_registry}
use dp_integrator.NetSuite.DefaultOrderMap.{build_default_order_header_map}
use dp_integrator.NetSuite.PayloadBuilder.{build_order_payload}
use dp_integrator.NetSuite.Tax.{build_order_tax, apply_tax_payload_header}
use dp_integrator.NetSuite.Balancing.{BalancedPayload, apply_balancing, default_balancing}
use dp_integrator.NetSuite.ItemResolver.{resolve_item_references}
use dp_integrator.Functions.Customer.{resolve_customer}
use dp_integrator.Functions.OrderImport.World.{Deps, Staged, staged, parks, CustomerResolution}

-- The gateway and the configuration that the stages are given. `lookups_for` is the lookup table of a
-- connection, `extra_mappings` its own header mappings; the derivations are the default ones.
pub record Stages (E : Type 0) : Type 0 where
  pub ns : NetSuiteGateway E
  pub guest_customer_internal_id : String
  pub lookups_for : Connection → (table key : String) → M E (Option String)
  pub extra_mappings : Connection → List Mapping

abbrev pub staged_of : MappingResult Fields → Staged
staged_of (mapped p) = staged p
staged_of (parked reason) = parks reason.detail

abbrev pub staged_balanced : MappingResult BalancedPayload → Staged
staged_balanced (mapped b) = staged b.payload
staged_balanced (parked reason) = parks reason.detail

-- A stage's answer, without the evidence that the handler leaves aside.
unfoldable pub then_staged : {E : Type 0} → Result (MappingResult Fields) × E → Result Staged × E
then_staged (ok r, e) = (ok (staged_of r), e)
then_staged (throws x, e) = (throws x, e)

module _ {E : Type 0} (stages : Stages E) where
  abbrev pub context : Connection → ShopifyOrder → EvaluatorContext E
  context connection order = record {
    resolve = stages.lookups_for connection;
    derives = default_derive_registry order;
  }

  unfoldable pub customer_stage : Connection → ShopifyOrder → M E CustomerResolution
  customer_stage connection order =
      resolve_customer stages.ns connection order.customer stages.guest_customer_internal_id
        (record { billing = order.billing_address; shipping = order.shipping_address })

  unfoldable pub payload_stage : Connection → ShopifyOrder → String → M E Staged
  payload_stage connection order customer e = then_staged (
      build_order_payload (context connection order) connection order customer
        (build_default_order_header_map connection (stages.extra_mappings connection)) e)

  unfoldable pub tax_stage : Connection → ShopifyOrder → Fields → Result Fields
  tax_stage connection order draft =
      ok (apply_tax_payload_header draft (build_order_tax connection.tax_engine order))

  unfoldable pub balancing_stage : Fields → ShopifyOrder → Result Staged
  balancing_stage taxed order =
      and_then (apply_balancing default_balancing taxed order) (λ r. ok (staged_balanced r))

  unfoldable pub items_stage : Connection → Fields → M E Staged
  items_stage connection balanced e = then_staged (
      resolve_item_references stages.ns connection.ns_account_id balanced connection.default_item_id
        e)

  -- The dependencies of the handler with the stages in their places.
  unfoldable pub wired : Deps E → Deps E
  wired base = record base {
    resolve_customer = customer_stage;
    build_order_payload = payload_stage;
    apply_tax = tax_stage;
    apply_balancing = balancing_stage;
    resolve_item_references = items_stage;
  }
