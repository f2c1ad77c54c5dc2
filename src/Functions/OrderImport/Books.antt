-- ===== src/Functions/OrderImport/Books.antt =====
-- The outcome that a delivery reports, and the row of the order in the ledger.
pub mod Body
use dp_integrator.Base.{
  ℕ, String, ◌≡◌, refl, sym, subst, Option, some, Result, ok, throws, M, resume, arith, eq_refl,
  Option-cases, inl, inr, if◌then◌else◌,
}
use dp_integrator.Base.Dict.{get, set, get-set}
use dp_integrator.Base.Value.{Value, Fields}
use dp_integrator.Core.Types.{Connection}
use dp_integrator.Core.DedupKey.{DedupKeyParts, dedup_key}
use dp_integrator.Core.Xref.{
  XrefRow, XrefStatus, synced, error, ignored, XrefStore, record_success, mark_ignored, target_of,
}
use dp_integrator.Core.Xref.Machine.{status_at}
use dp_integrator.Core.Xref.Leaves.{success_leaves, ignored_leaves}
use dp_integrator.Core.Errors.{ErrorClass}
use dp_integrator.Core.Queue.{OrderWebhookMessage}
use dp_integrator.Engine.Eligibility.{EligibilityResult, eligible, ineligible}
use dp_integrator.Functions.OrderImport.World.{
  AttemptContext, CustomerResolution, ParkStage, UpsertResult, OrderHandlerOutcome, Staged, staged,
  parks, Deps, World, ◌>>=◌, ◌>>◌, on_outside, in_xref, with_xref, finally, no_locals,
}
use dp_integrator.Functions.OrderImport.Pipeline.{
  Prepared, stops, ready, fetch_order, parks_at, after_items, after_balancing, after_mapping,
  by_eligibility, prepare, synced_at, settle, deliver, write_order, proceed, finish, on_throw,
  import_claimed,
}
use dp_integrator.Functions.OrderImport.Traverse.Ledger.{Same, finally-Same}

-- What the ledger holds of an order, by the outcome.
abbrev pub Agrees : String → OrderHandlerOutcome → XrefStore → Type 0
Agrees key (OrderHandlerOutcome.imported c g id created customer) x =
    (status_at key x ≡ some synced) × (target_of (get key x.rows) ≡ some id)
Agrees key (OrderHandlerOutcome.parked c g stage detail class) x = status_at key x ≡ some error
Agrees key (OrderHandlerOutcome.ignored_by_eligibility c g reason detail) x =
    status_at key x ≡ some ignored
Agrees key o x = Unit {0}

-- A condition on the result of a call that returns.
abbrev pub After : {E A : Type 0} → (A → World E → Type 0) → Result A × World E → Type 0
After P (ok a, w) = P a w
After P (throws e, w) = Unit {0}

abbrev pub Booked : {E : Type 0} → String → Result OrderHandlerOutcome × World E → Type 0
Booked key (ok o, w) = Agrees key o w.xref
Booked key (throws e, w) = Unit {0}

module _ {E : Type 0} where
  pub After-bind :
      {A B : Type 0} (P : A → World E → Type 0) (Q : B → World E → Type 0) (m : M (World E) A)
      (f : A → M (World E) B) (u : World E)
      → After P (m u)
      → ((a : A) (v : World E) → P a v → After Q (f a v))
      → After Q ((m >>= f) u)
  unfolding ◌>>=◌
  After-bind P Q m f u h k = go (m u) h
    where
      go : (r : Result _ × World E) → After P r → After Q (resume r f)
      go (ok a, v) h = k a v h
      go (throws e, v) h = tt

  pub After-then :
      {A B : Type 0} (Q : B → World E → Type 0) (m : M (World E) A) (n : M (World E) B)
      (u : World E)
      → ((v : World E) → After Q (n v))
      → After Q ((m >> n) u)
  unfolding ◌>>◌
  After-then {A = A} Q m n u k = go (m u)
    where
      go : (r : Result A × World E) → After Q (resume r (λ _. n))
      go (ok a, v) = k v
      go (throws e, v) = tt

  -- A calm step keeps what is known of the ledger.
  pub After-Same :
      {A : Type 0} (P : XrefStore → Type 0) (r : Result A × World E) (u : World E)
      → P u.xref
      → Same u r.1
      → After (λ (a : A) v. P v.xref) r
  After-Same P (ok a, v) u p e = subst P (sym e) p
  After-Same P (throws x, v) u p e = tt

  -- A step of which nothing is asked.
  pub After-any : {A : Type 0} (r : Result A × World E) → After (λ a v. Unit {0}) r
  After-any (ok a, v) = tt
  After-any (throws e, v) = tt

  module _ (deps : Deps E) (parts : DedupKeyParts) (connection : Connection)
      (msg : OrderWebhookMessage) (ctx : Option AttemptContext) (key : String)
      (k : dedup_key parts ≡ ok key) where
    abbrev Held : XrefStatus → XrefStore → Type 0
    Held st x = status_at key x ≡ some st

    abbrev Fits : OrderHandlerOutcome → World E → Type 0
    Fits o v = Agrees key o v.xref

    in_xref-After :
        {A : Type 0} (m : M XrefStore A) (P : XrefStore → Type 0) (w : World E)
        → ((x : XrefStore) (a : A) → (m x).0 ≡ ok a → P (m x).1)
        → After (λ (a : A) v. P v.xref) (in_xref m w)
    unfolding in_xref
    in_xref-After {A = A} m P w h = go (m w.xref) (h w.xref)
      where
        go :
            (r : Result A × XrefStore)
            → ((a : A) → r.0 ≡ ok a → P r.1)
            → After (λ (a : A) (v : World E). P v.xref) (r.0, record w { xref = r.1 })
        go (ok a, x) h = h a refl
        go (throws e, x) h = tt

    pub with_xref-After :
        {A : Type 0} (m : M XrefStore A) (P : XrefStore → Type 0) (w : World E)
        → ((x : XrefStore) (a : A) → (m x).0 ≡ ok a → P (m x).1)
        → After (λ (a : A) v. P v.xref) (with_xref deps m w)
    unfolding with_xref ◌>>◌
    with_xref-After {A = A} m P w h = go (on_outside deps.reach w)
      where
        go : (r : Result Unit × World E) → After (λ (a : A) v. P v.xref) (resume r (λ _. in_xref m))
        go (ok tt, v) = in_xref-After m P v h
        go (throws e, v) = tt
