-- ===== src/Functions/OrderImport/Traverse.antt =====
-- A walk through the handler, with a relation between the states before and after that the single
-- changes respect.
pub mod Archive
pub mod Body
pub mod Rows
pub mod Ledger
use dp_integrator.Base.{
  ℕ, String, ◌≡◌, refl, Bool, true, false, Option, none, some, List, Result, ok, throws, Thrown, M,
  resume, ◌⊎◌, inl, inr, Bool-cases, if◌then◌else◌,
}
use dp_integrator.Base.Value.{Value, Fields}
use dp_integrator.Core.Types.{Connection}
use dp_integrator.Core.DedupKey.{DedupKeyParts, dedup_key}
use dp_integrator.Core.Xref.{XrefStore, record_success, record_failure, mark_ignored}
use dp_integrator.Core.Xref.Machine.{
  Call, claims, succeeds, fails, ignores, looks_up, after, is_removal,
}
use dp_integrator.Core.Errors.{ErrorClass, ErrorStore, NewErrorInput}
use dp_integrator.Core.Queue.{OrderWebhookMessage}
use dp_integrator.Core.OrderSyncLog.{OrderSyncLogStore, OrderSyncLogInput}
use dp_integrator.Shopify.Order.{ShopifyOrder}
use dp_integrator.Functions.Classification.{classify_handler_error, should_retry}
use dp_integrator.Functions.OrderImport.World.{
  AttemptContext, OrderHandlerOutcome, Event, Deps, Locals, World, ◌>>=◌, ◌>>◌, choose, on_outside,
  assign, emit, catching, in_xref, in_errors, in_log, when_wired, with_xref, store_error,
}
use dp_integrator.Functions.OrderImport.Log.{SyncLogShape, sync_log_input, write_sync_log}
use dp_integrator.Functions.OrderImport.Park.{
  ParkInput, record_error_as, park_outcome, rethrow, classify_and_route,
}

module _ {E : Type 0} where
  -- Every single change that leaves the ledger, the writes to NetSuite and the rows of deliveries alone.
  pub record Calm (R : World E → World E → Type 0) : Type 0 where
    pub stays : (w : World E) → R w w
    pub follows : (u v w : World E) → R u v → R v w → R u w
    pub moves : (w : World E) (e : E) → R w (record w { outside = e })
    pub assigns : (w : World E) (l : Locals) → R w (record w { locals = l })
    pub emits : (w : World E) (es : List Event) → R w (record w { events = es })
    pub errs : (w : World E) (s : Option ErrorStore) → R w (record w { errors = s })
    pub logs : (w : World E) (s : Option OrderSyncLogStore) → R w (record w { log = s })

  -- And every call of the ledger that removes no row.
  pub record Closed (R : World E → World E → Type 0) : Type 0 where
    pub calm : Calm R
    pub open calm use *
    pub calls :
        (w : World E) (c : Call) → is_removal c ≡ false → R w (record w { xref = after c w.xref })

  module _ {R : World E → World E → Type 0} (c : Calm R) where
    -- A step and what comes after it.
    pub resume-R :
        {A B : Type 0} (u : World E) (r : Result A × World E) (f : A → M (World E) B)
        → R u r.1
        → ((a : A) (v : World E) → R v (f a v).1)
        → R u (resume r f).1
    resume-R u (ok a, v) f h k = c.follows u v _ h (k a v)
    resume-R u (throws e, v) f h k = h

    pub bind-R :
        {A B : Type 0} (m : M (World E) A) (f : A → M (World E) B) (u : World E)
        → R u (m u).1
        → ((a : A) (v : World E) → R v (f a v).1)
        → R u ((m >>= f) u).1
    unfolding ◌>>=◌
    bind-R m f u h k = resume-R u (m u) f h k

    pub then-R :
        {A B : Type 0} (m : M (World E) A) (n : M (World E) B) (u : World E)
        → R u (m u).1
        → ((v : World E) → R v (n v).1)
        → R u ((m >> n) u).1
    unfolding ◌>>◌
    then-R m n u h k = resume-R u (m u) (λ _. n) h (λ _. k)

    pub catching-R :
        {A : Type 0} (u : World E) (r : Result A × World E) (f : Thrown → M (World E) A)
        → R u r.1
        → ((e : Thrown) (v : World E) → R v (f e v).1)
        → R u (catching r f).1
    unfolding catching
    catching-R u (ok a, v) f h k = h
    catching-R u (throws e, v) f h k = c.follows u v _ h (k e v)

    pub choose-R :
        {A : Type 0} (b : Bool) (m n : M (World E) A) (w : World E)
        → R w (m w).1
        → R w (n w).1
        → R w (choose b m n w).1
    unfolding choose
    choose-R true m n w h k = h
    choose-R false m n w h k = k

    pub when_wired-R :
        {S : Type 0} (s : Option S) (m : M (World E) (Unit {0})) (w : World E)
        → R w (m w).1
        → R w (when_wired s m w).1
    unfolding when_wired
    when_wired-R none m w h = c.stays w
    when_wired-R (some s) m w h = h

    pub emit-R : (e : Event) (w : World E) → R w (emit e w).1
    unfolding emit
    emit-R e w = c.emits w _

    in_errors-R :
        (input : NewErrorInput) (now : ℕ) (s : Option ErrorStore) (w : World E)
        → R w (in_errors input now s w).1
    unfolding in_errors
    in_errors-R input now none w = c.stays w
    in_errors-R input now (some s) w = c.errs w _

    in_log-R :
        (input : OrderSyncLogInput) (now : ℕ) (s : Option OrderSyncLogStore) (w : World E)
        → R w (in_log input now s w).1
    unfolding in_log
    in_log-R input now none w = c.stays w
    in_log-R input now (some s) w = c.logs w _

    module _ (deps : Deps E) where
      pub reach-R : (w : World E) → R w (on_outside deps.reach w).1
      unfolding on_outside
      reach-R w = c.moves w _

      module _ (connection : Connection) (msg : OrderWebhookMessage) where
        pub write_sync_log-R :
            (shape : SyncLogShape) (w : World E)
            → R w (write_sync_log deps connection msg shape w).1
        unfolding write_sync_log
        write_sync_log-R shape w =
            when_wired-R w.log _ w (then-R _ _ w (reach-R w) (λ v. in_log-R _ _ v.log v))

        module _ (parts : DedupKeyParts) where
          pub record_error_as-R :
              (flow : String) (class : ErrorClass) (message : String) (stack : Option String)
              (envelope : Value) (w : World E)
              → R w
                  (record_error_as deps parts connection msg flow class message stack envelope w).1
          unfolding record_error_as store_error
          record_error_as-R flow class message stack envelope w = when_wired-R w.errors _ w (
              bind-R _ _ w (c.stays w)
                (λ _ v. then-R _ _ v (reach-R v) (λ u. in_errors-R _ _ u.errors u)))

          pub rethrow-R :
              (class : ErrorClass) (err : Thrown) (w : World E)
              → R w (rethrow deps parts connection msg class err w).1
          unfolding rethrow
          rethrow-R class err w =
              choose-R _ _ _ w
                (then-R _ _ w (record_error_as-R _ _ _ _ _ w)
                  (λ v. then-R _ _ v (emit-R _ v) (λ u. c.stays u)))
                (c.stays w)
