-- ===== src/Functions/OrderImport/Stages/Prepared.antt =====
-- What the handler has for NetSuite when all stages have passed.
use dp_integrator.Functions.OrderImport.Stages.Kept.{
  Carries-IsBooked, IsBooked, BalancedKept, balancing_stage-Kept, AreOf, Answered, IsSent, DraftOf,
  payload_stage-DraftOf, tax-Carries, tax-lines_of, balanced-AreOf, SameBut-Carries, ItemsOf,
  items_stage-ItemsOf,
}
use dp_integrator.Base.{
  String, Option, Result, ok, throws, M, lift, map, ◌≡◌, refl, subst, ◌∙◌, sym,
}
use dp_integrator.Base.Value.{Fields}
use dp_integrator.Core.Types.{Connection}
use dp_integrator.Core.DedupKey.{DedupKeyParts}
use dp_integrator.Core.Errors.{ErrorClass}
use dp_integrator.Core.Queue.{OrderWebhookMessage}
use dp_integrator.Shopify.Order.{ShopifyOrder}
use dp_integrator.Engine.Eligibility.{EligibilityResult, eligible, ineligible}
use dp_integrator.NetSuite.Lines.{lines_of}
use dp_integrator.NetSuite.PayloadBuilder.Reads.{line_of}
use dp_integrator.NetSuite.Tax.Header.{taxed}
use dp_integrator.Functions.OrderImport.World.{
  AttemptContext, ParkStage, CustomerResolution, Deps, World, Staged, staged, parks, ◌>>=◌,
  on_outside,
}
use dp_integrator.Functions.OrderImport.Pipeline.{
  Prepared, stops, ready, by_eligibility, prepare, parks_at, after_items, after_balancing,
  after_mapping,
}
use dp_integrator.Functions.OrderImport.Stages.{Stages, wired, tax_stage, balancing_stage}
use dp_integrator.Functions.OrderImport.Books.{After, After-bind, After-any}

module _ {E : Type 0} (stages : Stages E) (base : Deps E) (parts : DedupKeyParts)
    (connection : Connection) (msg : OrderWebhookMessage) (ctx : Option AttemptContext) where
  abbrev deps : Deps E
  deps = wired stages base

  abbrev pub IsReady : Prepared → World E → Type 0
  IsReady (stops o) w = Unit {0}
  IsReady (ready order customer final) w = IsSent stages connection order customer.internal_id final

  on_outside-After :
      {A : Type 0} (P : A → Type 0) (m : M E A) (w : World E)
      → Answered P (m w.outside)
      → After (λ (a : A) (v : World E). P a) (on_outside m w)
  unfolding on_outside
  on_outside-After P m w h = by_answer (m w.outside) h
    where
      by_answer :
          (r : Result _ × E) → Answered P r → After (λ a v. P a) (r.0, record w { outside = r.1 })
      by_answer (ok a, e) h = h
      by_answer (throws x, e) h = tt

  parks_at-IsReady :
      (stage : ParkStage) (class : ErrorClass) (detail : String) (order : ShopifyOrder)
      (w : World E)
      → After IsReady (parks_at deps parts connection msg ctx stage class detail order w)
  unfolding parks_at
  parks_at-IsReady stage class detail order w =
      After-bind (λ _ _. Unit {0}) IsReady _ _ w (After-any _) (λ o v _. tt)

  after_items-IsReady :
      (order : ShopifyOrder) (customer : CustomerResolution) (p : Fields) (r : Staged) (w : World E)
      → IsBooked connection order customer.internal_id p
      → AreOf order (lines_of "item" p)
      → ItemsOf stages connection order p r
      → After IsReady (after_items deps parts connection msg ctx order customer r w)
  unfolding after_items
  after_items-IsReady order customer p (parks detail) w booked of items =
      parks_at-IsReady _ _ detail order w
  after_items-IsReady order customer p (staged final) w booked of (carries, items) = (
    Carries-IsBooked connection order customer.internal_id p final carries booked,
    (lines_of "item" p, of, items),
  )

  after_balancing-IsReady :
      (order : ShopifyOrder) (customer : CustomerResolution) (p : Fields) (r : Staged) (w : World E)
      → IsBooked connection order customer.internal_id p
      → lines_of "item" p ≡ map line_of order.line_items
      → BalancedKept p (ok r)
      → After IsReady (after_balancing deps parts connection msg ctx order customer r w)
  unfolding after_balancing wired
  after_balancing-IsReady order customer p (parks detail) w booked of kept =
      parks_at-IsReady _ _ detail order w
  after_balancing-IsReady order customer p (staged q) w booked of kept =
      let again =
        Carries-IsBooked connection order customer.internal_id p q
          (SameBut-Carries stages connection order p q kept.0) booked in
      After-bind (λ r _. ItemsOf stages connection order q r) IsReady _ _ w
        (on_outside-After (ItemsOf stages connection order q) _ w
          (items_stage-ItemsOf stages connection order q w.outside))
        (λ r v items.
          after_items-IsReady order customer q r v again
            (balanced-AreOf stages connection order p q of kept) items)

  lift-After :
      (p : Fields) (r : Result Staged) (w : World E)
      → BalancedKept p r
      → After (λ (s : Staged) (v : World E). BalancedKept p (ok s)) (lift r w)
  lift-After p (ok s) w h = h
  lift-After p (throws e) w h = tt

  after_mapping-IsReady :
      (order : ShopifyOrder) (customer : CustomerResolution) (r : Staged) (w : World E)
      → DraftOf stages connection order customer.internal_id r
      → After IsReady (after_mapping deps parts connection msg ctx order customer r w)
  unfolding after_mapping wired tax_stage
  after_mapping-IsReady order customer (parks detail) w draft = parks_at-IsReady _ _ detail order w
  after_mapping-IsReady order customer (staged p) w draft =
      let taxes : Fields = taxed connection.tax_engine order p in
      let booked =
        Carries-IsBooked connection order customer.internal_id p taxes
          (tax-Carries stages connection order p) draft.0 in
      let of = tax-lines_of stages connection order p ∙ draft.1 in
      After-bind (λ (q : Fields) (v : World E). q ≡ taxes) IsReady _ _ w refl
        (λ q v e.
          subst
            (λ (q : Fields). After IsReady (
              (lift (balancing_stage stages q order)
                  >>= after_balancing deps parts connection msg ctx order customer)
                v))
            (sym e)
            (After-bind (λ (r : Staged) (u : World E). BalancedKept taxes (ok r)) IsReady _ _ v
              (lift-After taxes _ v (balancing_stage-Kept stages taxes order))
              (λ r u kept. after_balancing-IsReady order customer taxes r u booked of kept)))

  by_eligibility-IsReady :
      (order : ShopifyOrder) (verdict : EligibilityResult) (w : World E)
      → After IsReady (by_eligibility deps parts connection msg ctx order verdict w)
  unfolding by_eligibility wired
  by_eligibility-IsReady order eligible w =
      After-bind (λ _ _. Unit {0}) IsReady _ _ w (After-any _)
        (λ customer v _.
          After-bind
            (λ (r : Staged) (u : World E). DraftOf stages connection order customer.internal_id r)
            IsReady _ _ v
            (on_outside-After _ _ v
              (payload_stage-DraftOf stages connection order customer.internal_id v.outside))
            (λ r u draft. after_mapping-IsReady order customer r u draft))
  by_eligibility-IsReady order (ineligible reason detail) w =
      After-bind (λ _ _. Unit {0}) IsReady _ _ w (After-any _)
        (λ _ v _.
          After-bind (λ _ _. Unit {0}) IsReady _ _ v (After-any _)
            (λ _ u _. After-bind (λ _ _. Unit {0}) IsReady _ _ u (After-any _) (λ _ t _. tt)))

  -- With the customer, payload, tax, balancing and item stages in their places, whatever Shopify,
  -- NetSuite, the lookup tables and the database answer: a payload that the body of the handler has
  -- ready for NetSuite is of an order with a line item, stands on the customer that was resolved,
  -- bears the discount of the order on the discount item of the connection if it is above zero, and
  -- its lines come, by the answers of NetSuite to their SKUs, from one line for each line item and
  -- at most one line behind them.
  pub prepare-IsReady : (w : World E) → After IsReady (prepare deps parts connection msg ctx w)
  unfolding prepare
  prepare-IsReady w =
      After-bind (λ _ _. Unit {0}) IsReady _ _ w (After-any _)
        (λ order v _. by_eligibility-IsReady order _ v)
