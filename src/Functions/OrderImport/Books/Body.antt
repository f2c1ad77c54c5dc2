-- ===== src/Functions/OrderImport/Books/Body.antt =====
-- The same for the body of the handler, step by step.
use dp_integrator.Base.{String, ◌≡◌, Option, some, ok}
use dp_integrator.Base.Dict.{get}
use dp_integrator.Core.Types.{Connection}
use dp_integrator.Core.DedupKey.{DedupKeyParts, dedup_key}
use dp_integrator.Core.Xref.{synced, XrefStore, target_of}
use dp_integrator.Core.Xref.Machine.{status_at}
use dp_integrator.Core.Queue.{OrderWebhookMessage}
use dp_integrator.Functions.OrderImport.World.{AttemptContext, OrderHandlerOutcome, Deps, World}
use dp_integrator.Functions.OrderImport.Pipeline.{Prepared, stops, ready}
use dp_integrator.Functions.OrderImport.Books.{Agrees}

-- An outcome of the preparation agrees with the ledger.
abbrev PreparedFits : {E : Type 0} → String → Prepared → World E → Type 0
PreparedFits key (stops o) v = Agrees key o v.xref
PreparedFits key (ready order customer final) v = Unit {0}

module _ {E : Type 0} (deps : Deps E) (parts : DedupKeyParts) (connection : Connection)
    (msg : OrderWebhookMessage) (ctx : Option AttemptContext) (key : String)
    (k : dedup_key parts ≡ ok key) where
  abbrev Fit : OrderHandlerOutcome → World E → Type 0
  Fit o v = Agrees key o v.xref

  abbrev PFit : Prepared → World E → Type 0
  PFit = PreparedFits key

  abbrev Any : {A : Type 0} → A → World E → Type 0
  Any a v = Unit {0}

  abbrev Synced : String → XrefStore → Type 0
  Synced id x = (status_at key x ≡ some synced) × (target_of (get key x.rows) ≡ some id)
