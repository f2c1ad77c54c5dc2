-- ===== src/Functions/OrderImport/Traverse/Rows.antt =====
-- The walk through the row of the delivery, for a relation that this row respects too.
use dp_integrator.Base.{ℕ, Option, none, some}
use dp_integrator.Core.Types.{Connection}
use dp_integrator.Core.Queue.{OrderWebhookMessage}
use dp_integrator.Core.OrderAttempt.{OrderAttemptStore, OrderAttemptInput}
use dp_integrator.Functions.OrderImport.World.{
  AttemptContext, OrderHandlerOutcome, Deps, Locals, World, in_attempts,
}
use dp_integrator.Functions.OrderImport.Attempt.{record_attempt, record_with}
use dp_integrator.Functions.OrderImport.Handler.{short_circuit}
use dp_integrator.Functions.OrderImport.Traverse.{Calm, then-R, catching-R, when_wired-R, reach-R}

module _ {E : Type 0} {R : World E → World E → Type 0} (c : Calm R)
    (rows : (w : World E) (s : Option OrderAttemptStore) → R w (record w { attempts = s }))
    (deps : Deps E) (connection : Connection) (msg : OrderWebhookMessage) where
  in_attempts-R :
      (input : OrderAttemptInput) (now : ℕ) (s : Option OrderAttemptStore) (w : World E)
      → R w (in_attempts input now s w).1
  unfolding in_attempts
  in_attempts-R input now none w = c.stays w
  in_attempts-R input now (some s) w = rows w _

  pub record_attempt-R :
      (ctx : Option AttemptContext) (l : Locals) (w : World E)
      → R w (record_attempt deps msg connection ctx l w).1
  unfolding record_attempt record_with
  record_attempt-R none l w = c.stays w
  record_attempt-R (some ctx) l w = when_wired-R c w.attempts _ w (
      catching-R c w _ _ (then-R c _ _ w (reach-R c deps w) (λ v. in_attempts-R _ _ v.attempts v))
        (λ _ v. c.stays v))

  pub short_circuit-R :
      (ctx : Option AttemptContext) (o : OrderHandlerOutcome) (w : World E)
      → R w (short_circuit deps ctx msg connection o w).1
  unfolding short_circuit
  short_circuit-R ctx o w = then-R c _ _ w (record_attempt-R ctx _ w) (λ v. c.stays v)
