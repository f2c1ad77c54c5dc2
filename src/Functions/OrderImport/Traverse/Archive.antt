-- ===== src/Functions/OrderImport/Traverse/Archive.antt =====
-- The walk through the parts of the body that leave the ledger alone.
use dp_integrator.Base.{String, Option, none, some, M, NsResponse}
use dp_integrator.Core.Types.{Connection}
use dp_integrator.Core.DedupKey.{DedupKeyParts}
use dp_integrator.Core.Queue.{OrderWebhookMessage}
use dp_integrator.Core.OrderSyncLog.{NsRecordType}
use dp_integrator.Functions.OrderImport.World.{
  AttemptContext, OrderHandlerOutcome, Archived, Deps, Locals, World, on_outside, assign,
}
use dp_integrator.Functions.OrderImport.Pipeline.{
  archive, archive_with, put_quietly, archive_raw, archive_error, fetch_order, tag_order,
  if_tagging, finish,
}
use dp_integrator.Functions.OrderImport.Traverse.{
  Calm, bind-R, then-R, catching-R, choose-R, record_error_as-R,
}

module _ {E : Type 0} {R : World E → World E → Type 0} (c : Calm R) (deps : Deps E)
    (parts : DedupKeyParts) (connection : Connection) (msg : OrderWebhookMessage)
    (ctx : Option AttemptContext) where
  pub on_outside-R : {A : Type 0} (m : M E A) (w : World E) → R w (on_outside m w).1
  unfolding on_outside
  on_outside-R m w = c.moves w _

  pub assign-R : (f : Locals → Locals) (w : World E) → R w (assign f w).1
  unfolding assign
  assign-R f w = c.assigns w _

  pub archive_with-R :
      (x : Option AttemptContext) (what : Archived) (account : Option String)
      (t : Option NsRecordType) (f : Option String → Locals → Locals) (w : World E)
      → R w (archive_with deps parts connection msg ctx x what account t f w).1
  unfolding archive_with put_quietly
  archive_with-R none what account t f w = c.stays w
  archive_with-R (some x) what account t f w =
      choose-R c _ _ _ w
        (bind-R c _ _ w
          (catching-R c w _ _ (bind-R c _ _ w (on_outside-R _ w) (λ _ v. c.stays v))
            (λ _ v. c.stays v))
          (λ uri v. assign-R _ v))
        (c.stays w)

  pub archive-R :
      (what : Archived) (account : Option String) (t : Option NsRecordType)
      (f : Option String → Locals → Locals) (w : World E)
      → R w (archive deps parts connection msg ctx what account t f w).1
  unfolding archive
  archive-R = archive_with-R ctx

  pub archive_raw-R :
      (raw : Option NsResponse) (t : Option NsRecordType) (w : World E)
      → R w (archive_raw deps parts connection msg ctx raw t w).1
  unfolding archive_raw
  archive_raw-R none t w = c.stays w
  archive_raw-R (some raw) t w = then-R c _ _ w (assign-R _ w) (λ v. archive-R _ _ _ _ v)

  pub archive_error-R :
      (raw : Option NsResponse) (w : World E)
      → R w (archive_error deps parts connection msg ctx raw w).1
  unfolding archive_error
  archive_error-R none w = c.stays w
  archive_error-R (some raw) w = then-R c _ _ w (assign-R _ w) (λ v. archive-R _ _ _ _ v)

  pub fetch_order-R : (w : World E) → R w (fetch_order deps parts connection msg ctx w).1
  unfolding fetch_order
  fetch_order-R w = bind-R c _ _ w (on_outside-R _ w) (λ _ v.
      bind-R c _ _ v (assign-R _ v)
        (λ _ u. bind-R c _ _ u (archive-R _ _ _ _ u) (λ _ t. c.stays t)))

  pub if_tagging-R :
      (id : String) (w : World E) → R w (if_tagging deps parts connection msg ctx id w).1
  unfolding if_tagging tag_order
  if_tagging-R id w =
      choose-R c _ _ _ w
        (catching-R c w _ _ (on_outside-R _ w)
          (λ err v. record_error_as-R c deps connection msg parts _ _ _ _ _ v))
        (c.stays w)

  pub finish-R :
      (o : OrderHandlerOutcome) (w : World E) → R w (finish deps parts connection msg ctx o w).1
  unfolding finish
  finish-R o w = then-R c _ _ w (assign-R _ w) (λ v. c.stays v)
