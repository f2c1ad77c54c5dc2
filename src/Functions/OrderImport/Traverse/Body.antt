-- ===== src/Functions/OrderImport/Traverse/Body.antt =====
-- The walk through the body: its preparation, what follows the write, and its `catch`.
use dp_integrator.Base.{String, refl, Option, none, Thrown}
use dp_integrator.Core.Types.{Connection}
use dp_integrator.Core.DedupKey.{DedupKeyParts}
use dp_integrator.Core.Xref.Machine.{succeeds, ignores, after}
use dp_integrator.Core.Errors.{ErrorClass}
use dp_integrator.Core.Queue.{OrderWebhookMessage}
use dp_integrator.Shopify.Order.{ShopifyOrder}
use dp_integrator.Engine.Eligibility.{EligibilityResult, eligible, ineligible}
use dp_integrator.Functions.OrderImport.World.{
  AttemptContext, CustomerResolution, ParkStage, UpsertResult, Staged, staged, parks, Deps, World,
  emit, in_xref, with_xref,
}
use dp_integrator.Functions.OrderImport.Pipeline.{
  parks_at, after_items, after_balancing, after_mapping, by_eligibility, prepare, synced_at, settle,
  on_throw,
}
use dp_integrator.Functions.OrderImport.Traverse.{
  Closed, bind-R, then-R, catching-R, choose-R, reach-R, write_sync_log-R, record_error_as-R,
  rethrow-R,
}
use dp_integrator.Functions.OrderImport.Park.{ParkInput, park_outcome, classify_and_route}
use dp_integrator.Core.Xref.Machine.{fails}
use dp_integrator.Functions.OrderImport.Traverse.Archive.{
  on_outside-R, assign-R, archive_raw-R, archive_error-R, fetch_order-R, if_tagging-R, finish-R,
}

module _ {E : Type 0} {R : World E → World E → Type 0} (c : Closed R) (deps : Deps E) where
  module _ (connection : Connection) (msg : OrderWebhookMessage) (parts : DedupKeyParts) where
    pub park_outcome-R :
        (park : ParkInput) (w : World E) → R w (park_outcome deps parts connection msg park w).1
    unfolding park_outcome with_xref in_xref emit after
    park_outcome-R park w =
        bind-R c.calm _ _ w
          (then-R c.calm _ _ w (reach-R c.calm deps w) (λ v. c.calls v (fails parts none) refl))
          (λ _ v.
            bind-R c.calm _ _ v (record_error_as-R c.calm deps connection msg parts _ _ _ _ _ v)
              (λ _ u. bind-R c.calm _ _ u (c.emits u _) (λ _ t.
                bind-R c.calm _ _ t (write_sync_log-R c.calm deps connection msg _ t)
                  (λ _ s. c.stays s))))

    pub classify_and_route-R :
        (err : Thrown) (order : Option ShopifyOrder) (ctx : Option AttemptContext) (w : World E)
        → R w (classify_and_route deps parts connection msg err order ctx w).1
    unfolding classify_and_route
    classify_and_route-R err order ctx w =
        choose-R c.calm _ _ _ w (rethrow-R c.calm deps connection msg parts _ err w)
          (park_outcome-R _ w)

module _ {E : Type 0} {R : World E → World E → Type 0} (c : Closed R) (deps : Deps E)
    (parts : DedupKeyParts) (connection : Connection) (msg : OrderWebhookMessage)
    (ctx : Option AttemptContext) where
  parks_at-R :
      (stage : ParkStage) (class : ErrorClass) (detail : String) (order : ShopifyOrder)
      (w : World E)
      → R w (parks_at deps parts connection msg ctx stage class detail order w).1
  unfolding parks_at
  parks_at-R stage class detail order w =
      bind-R c.calm _ _ w (park_outcome-R c deps connection msg parts _ w) (λ _ v. c.stays v)

  after_items-R :
      (order : ShopifyOrder) (customer : CustomerResolution) (s : Staged) (w : World E)
      → R w (after_items deps parts connection msg ctx order customer s w).1
  unfolding after_items
  after_items-R order customer (parks detail) w = parks_at-R _ _ detail order w
  after_items-R order customer (staged final) w = c.stays w

  after_balancing-R :
      (order : ShopifyOrder) (customer : CustomerResolution) (s : Staged) (w : World E)
      → R w (after_balancing deps parts connection msg ctx order customer s w).1
  unfolding after_balancing
  after_balancing-R order customer (parks detail) w = parks_at-R _ _ detail order w
  after_balancing-R order customer (staged balanced) w =
      bind-R c.calm _ _ w (on_outside-R c.calm deps parts connection msg ctx _ w)
        (λ s v. after_items-R order customer s v)

  after_mapping-R :
      (order : ShopifyOrder) (customer : CustomerResolution) (s : Staged) (w : World E)
      → R w (after_mapping deps parts connection msg ctx order customer s w).1
  unfolding after_mapping
  after_mapping-R order customer (parks detail) w = parks_at-R _ _ detail order w
  after_mapping-R order customer (staged draft) w =
      bind-R c.calm _ _ w (c.stays w)
        (λ _ v. bind-R c.calm _ _ v (c.stays v) (λ s u. after_balancing-R order customer s u))

  by_eligibility-R :
      (order : ShopifyOrder) (e : EligibilityResult) (w : World E)
      → R w (by_eligibility deps parts connection msg ctx order e w).1
  unfolding by_eligibility with_xref in_xref emit after
  by_eligibility-R order eligible w =
      bind-R c.calm _ _ w (on_outside-R c.calm deps parts connection msg ctx _ w) (λ customer v.
        bind-R c.calm _ _ v (on_outside-R c.calm deps parts connection msg ctx _ v)
          (λ s u. after_mapping-R order customer s u))
  by_eligibility-R order (ineligible reason detail) w =
      bind-R c.calm _ _ w
        (then-R c.calm _ _ w (reach-R c.calm deps w) (λ v. c.calls v (ignores parts) refl))
        (λ _ v.
          bind-R c.calm _ _ v (write_sync_log-R c.calm deps connection msg _ v)
            (λ _ u. bind-R c.calm _ _ u (c.emits u _) (λ _ t. c.stays t)))

  pub prepare-R : (w : World E) → R w (prepare deps parts connection msg ctx w).1
  unfolding prepare
  prepare-R w =
      bind-R c.calm _ _ w (fetch_order-R c.calm deps parts connection msg ctx w)
        (λ order v. by_eligibility-R order _ v)

  synced_at-R : (id : String) (w : World E) → R w (synced_at deps parts connection msg ctx id w).1
  unfolding synced_at in_xref after
  synced_at-R id w = then-R c.calm _ _ w (reach-R c.calm deps w) (λ v.
      then-R c.calm _ _ v (c.calls v (succeeds parts id msg.order_gid _) refl) (λ u. c.stays u))

  pub settle-R :
      (order : ShopifyOrder) (customer : CustomerResolution) (u : UpsertResult) (w : World E)
      → R w (settle deps parts connection msg ctx order customer u w).1
  unfolding settle emit
  settle-R order customer u w =
      bind-R c.calm _ _ w (archive_raw-R c.calm deps parts connection msg ctx _ _ w) (λ _ w₁.
        bind-R c.calm _ _ w₁ (synced_at-R _ w₁) (λ _ w₂. bind-R c.calm _ _ w₂ (c.stays w₂) (λ _ w₃.
          bind-R c.calm _ _ w₃ (c.emits w₃ _) (λ _ w₄.
            bind-R c.calm _ _ w₄ (write_sync_log-R c.calm deps connection msg _ w₄) (λ _ w₅.
              bind-R c.calm _ _ w₅ (if_tagging-R c.calm deps parts connection msg ctx _ w₅)
                (λ _ w₆. c.stays w₆))))))

  pub on_throw-R :
      (err : Thrown) (w : World E) → R w (on_throw deps parts connection msg ctx err w).1
  unfolding on_throw
  on_throw-R err w =
      bind-R c.calm _ _ w (archive_error-R c.calm deps parts connection msg ctx _ w) (λ _ v.
        catching-R c.calm v _ _
          (bind-R c.calm _ _ v
            (classify_and_route-R c deps connection msg parts err v.locals.order ctx v)
            (λ o u. finish-R c.calm deps parts connection msg ctx o u))
          (λ _ u.
            then-R c.calm _ _ u (assign-R c.calm deps parts connection msg ctx _ u)
              (λ t. c.stays t)))
