-- ===== src/Functions/OrderImport/Refused.antt =====
-- An ineligible order on its way through the body of the handler.
use dp_integrator.Base.{String, ◌≡◌, refl, ap, ◌∙◌, Option, Result, ok, throws, M, resume, arith}
use dp_integrator.Core.Types.{Connection}
use dp_integrator.Core.DedupKey.{DedupKeyParts}
use dp_integrator.Core.Queue.{OrderWebhookMessage}
use dp_integrator.Shopify.Order.{ShopifyOrder}
use dp_integrator.Engine.Eligibility.{
  EligibilityReason, ineligible, check_eligibility, default_options,
}
use dp_integrator.Functions.OrderImport.Unasked.{
  asking, fetch_order_same, ignored_same, on_throw_same, finish_same, record_attempt_same,
}
use dp_integrator.Functions.OrderImport.World.{
  AttemptContext, OrderHandlerOutcome, Deps, World, ◌>>=◌, on_outside, assign, finally, no_locals,
}
use dp_integrator.Functions.OrderImport.Pipeline.{
  Prepared, stops, ready, fetch_order, by_eligibility, prepare, proceed, finish, import_claimed,
}
use dp_integrator.Functions.OrderImport.Traverse.{Calm, Closed, bind-R, catching-R}
use dp_integrator.Functions.OrderImport.Traverse.Archive.{finish-R}
use dp_integrator.Functions.OrderImport.Traverse.Body.{prepare-R, on_throw-R}
use dp_integrator.Functions.OrderImport.Traverse.Rows.{record_attempt-R}
use dp_integrator.Functions.OrderImport.Books.{After, After-bind, After-any}

module _ {E : Type 0} where
  abbrev pub SameWrites : World E → World E → Type 0
  SameWrites u v = v.writes ≡ u.writes

  pub writes_calm : Calm SameWrites
  writes_calm = record {
    stays = λ w. refl;
    follows = λ u v w h k. k ∙ h;
    moves = λ w e. refl;
    assigns = λ w l. refl;
    emits = λ w es. refl;
    errs = λ w s. refl;
    logs = λ w s. refl;
  }

  same_closed : Closed SameWrites
  same_closed = record { calm = writes_calm; calls = λ w c h. refl }

  -- The preparation ended with an outcome.
  abbrev IsStopped : Prepared → World E → Type 0
  IsStopped (stops o) v = Unit {0}
  IsStopped (ready order customer final) v = ⊥

  abbrev Is : {A : Type 0} → A → A → World E → Type 0
  Is a b v = b ≡ a

  module _ (deps : Deps E) (parts : DedupKeyParts) (connection : Connection)
      (msg : OrderWebhookMessage) (ctx : Option AttemptContext) where
    fetched :
        (order : ShopifyOrder) (w : World E)
        → (deps.get_order connection msg.order_gid w.outside).0 ≡ ok order
        → After (Is order) (fetch_order deps parts connection msg ctx w)
    unfolding fetch_order assign on_outside
    fetched order w f =
        After-bind (Is order) (Is order) _ _ w
          (got (deps.get_order connection msg.order_gid w.outside) f)
          (λ o v e.
            After-bind (λ _ _. Unit {0}) (Is order) _ _ v tt
              (λ _ u _. After-bind (λ _ _. Unit {0}) (Is order) _ _ u (After-any _) (λ _ t _. e)))
      where
        got :
            (r : Result ShopifyOrder × E)
            → r.0 ≡ ok order
            → After (Is order) (r.0, record w { outside = r.1 })
        got (ok o, e) f = ground arith
        got (throws x, e) f = tt

    stopped :
        (order : ShopifyOrder) (reason : EligibilityReason) (detail : Option String) (w : World E)
        → After IsStopped
            (by_eligibility deps parts connection msg ctx order (ineligible reason detail) w)
    unfolding by_eligibility
    stopped order reason detail w =
        After-bind (λ _ _. Unit {0}) IsStopped _ _ w (After-any _)
          (λ _ v _.
            After-bind (λ _ _. Unit {0}) IsStopped _ _ v (After-any _)
              (λ _ u _. After-bind (λ _ _. Unit {0}) IsStopped _ _ u (After-any _) (λ _ t _. tt)))

    -- So nothing is left for NetSuite.
    proceed_stopped :
        (u : World E) (r : Result Prepared × World E)
        → After IsStopped r
        → SameWrites u r.1
        → SameWrites u (resume r (proceed deps parts connection msg ctx)).1
    unfolding proceed
    proceed_stopped u (ok (stops o), v) h e = e
    proceed_stopped u (ok (ready o c f), v) h e = absurd h
    proceed_stopped u (throws x, v) h e = e

    finally-SameWrites :
        {A : Type 0} (u : World E) (r : Result A × World E) (m : M (World E) (Unit {0}))
        → SameWrites u r.1
        → ((v : World E) → SameWrites v (m v).1)
        → SameWrites u (finally r m).1
    unfolding finally
    finally-SameWrites u (r, v) m h k = go (m v) (k v)
      where
        go :
            (s : Result Unit × World E)
            → SameWrites v s.1
            → SameWrites u (resume s (λ _ t. (r, t))).1
        go (ok tt, t) e = e ∙ h
        go (throws x, t) e = e ∙ h

    prepare-IsStopped :
        (order : ShopifyOrder) (reason : EligibilityReason) (detail : Option String) (w : World E)
        → (deps.get_order connection msg.order_gid w.outside).0 ≡ ok order
        → check_eligibility order msg.topic default_options ≡ ineligible reason detail
        → After IsStopped (prepare deps parts connection msg ctx w)
    unfolding prepare
    prepare-IsStopped order reason detail w f i =
        After-bind (Is order) IsStopped _ _ w (fetched order w f)
          (λ o v e. rw e (rw i (stopped order reason detail v)))

    -- What follows an answer that is known is all that matters.
    known_same :
        (order : ShopifyOrder) (r : Result ShopifyOrder × World E)
        (f g : ShopifyOrder → M (World E) Prepared)
        → After (Is order) r
        → ((v : World E) → f order v ≡ g order v)
        → resume r f ≡ resume r g
    known_same order (ok o, v) f g e h = rw e (h v)
    known_same order (throws x, v) f g e h = refl

    stopped_same :
        (r : Result Prepared × World E) (f g : Prepared → M (World E) OrderHandlerOutcome)
        → After IsStopped r
        → ((o : OrderHandlerOutcome) → f (stops o) ≡ g (stops o))
        → resume r f ≡ resume r g
    stopped_same (ok (stops o), v) f g h e = ap (λ (m : M (World E) OrderHandlerOutcome). m v) (e o)
    stopped_same (ok (ready o c p), v) f g h e = absurd h
    stopped_same (throws x, v) f g h e = refl

    prepare_same :
        (other : Deps E) (order : ShopifyOrder) (reason : EligibilityReason)
        (detail : Option String) (w : World E)
        → (deps.get_order connection msg.order_gid w.outside).0 ≡ ok order
        → check_eligibility order msg.topic default_options ≡ ineligible reason detail
        → prepare (asking other deps) parts connection msg ctx w
          ≡ prepare deps parts connection msg ctx w
    unfolding prepare ◌>>=◌
    prepare_same other order reason detail w f i =
        ap
          (λ (m : M (World E) ShopifyOrder). resume (m w) (λ o.
            by_eligibility (asking other deps) parts connection msg ctx o
              (check_eligibility o msg.topic default_options)))
          (fetch_order_same other deps parts connection msg ctx)
        ∙ known_same order (fetch_order deps parts connection msg ctx w) _ _ (fetched order w f)
            (λ v. rw i (
              ap (λ (m : M (World E) Prepared). m v)
                (ignored_same other deps parts connection msg ctx order reason detail)))

    prepared_same :
        (other : Deps E) (order : ShopifyOrder) (reason : EligibilityReason)
        (detail : Option String) (w : World E)
        → (deps.get_order connection msg.order_gid w.outside).0 ≡ ok order
        → check_eligibility order msg.topic default_options ≡ ineligible reason detail
        → resume
            (prepare (asking other deps) parts connection msg ctx w)
            (proceed (asking other deps) parts connection msg ctx)
          ≡ resume (prepare deps parts connection msg ctx w) (proceed deps parts connection msg ctx)
    unfolding proceed
    prepared_same other order reason detail w f i =
        ap
          (λ (r : Result Prepared × World E).
            resume r (proceed (asking other deps) parts connection msg ctx))
          (prepare_same other order reason detail w f i)
        ∙ stopped_same _ _ _ (prepare-IsStopped order reason detail w f i) (λ o. refl)

    -- NetSuite is not asked for it: with other stages the delivery is the same.
    import_claimed_same :
        (other : Deps E) (order : ShopifyOrder) (reason : EligibilityReason)
        (detail : Option String) (w : World E)
        → (deps.get_order connection msg.order_gid w.outside).0 ≡ ok order
        → check_eligibility order msg.topic default_options ≡ ineligible reason detail
        → import_claimed (asking other deps) parts connection msg ctx w
          ≡ import_claimed deps parts connection msg ctx w
    unfolding import_claimed ◌>>=◌
    import_claimed_same other order reason detail w f i =
        rw
          (
            prepared_same other order reason detail (record w { locals = no_locals }) f i,
            finish_same other deps parts connection msg ctx,
            on_throw_same other deps parts connection msg ctx,
            record_attempt_same other deps parts connection msg ctx,
          )
          refl

    writes_same :
        (order : ShopifyOrder) (reason : EligibilityReason) (detail : Option String) (w : World E)
        → (deps.get_order connection msg.order_gid w.outside).0 ≡ ok order
        → check_eligibility order msg.topic default_options ≡ ineligible reason detail
        → (import_claimed deps parts connection msg ctx w).1.writes ≡ w.writes
    unfolding import_claimed ◌>>=◌
    writes_same order reason detail w f i =
        let v : World E = record w { locals = no_locals } in
        finally-SameWrites w _ _
          (catching-R writes_calm w _ _
            (bind-R writes_calm
              (prepare deps parts connection msg ctx >>= proceed deps parts connection msg ctx)
              (finish deps parts connection msg ctx) v
              (proceed_stopped v (prepare deps parts connection msg ctx v)
                (prepare-IsStopped order reason detail v f i)
                (prepare-R same_closed deps parts connection msg ctx v))
              (λ o u. finish-R writes_calm deps parts connection msg ctx o u))
            (λ x u. on_throw-R same_closed deps parts connection msg ctx x u))
          (λ u. record_attempt-R writes_calm (λ t s. refl) deps connection msg ctx u.locals u)

    -- If Shopify's answer is an order that is not eligible, a test order for one, the delivery
    -- writes no order to NetSuite, and it asks neither the stages of the customer, the payload, the
    -- tax, the balancing and the items nor the write to NetSuite: with any others in their place it
    -- answers the same and leaves the same state.
    pub ineligible_not_written :
        (other : Deps E) (order : ShopifyOrder) (reason : EligibilityReason)
        (detail : Option String) (w : World E)
        → (deps.get_order connection msg.order_gid w.outside).0 ≡ ok order
        → check_eligibility order msg.topic default_options ≡ ineligible reason detail
        → ((import_claimed deps parts connection msg ctx w).1.writes ≡ w.writes)
          × (import_claimed (asking other deps) parts connection msg ctx w
              ≡ import_claimed deps parts connection msg ctx w)
    ineligible_not_written other order reason detail w f i =
        (writes_same order reason detail w f i, import_claimed_same other order reason detail w f i)
