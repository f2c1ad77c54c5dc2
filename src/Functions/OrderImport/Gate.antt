-- ===== src/Functions/OrderImport/Gate.antt =====
-- Live edits at the gate of the handler: a topic `orders/updated` on an order that has no row.
use dp_integrator.Base.{
  String, ◌≡◌, refl, sym, subst, ap, ◌∙◌, true, Option, none, some, Result, ok, throws, resume, M,
  arith, Option-cases, inl, inr,
}
use dp_integrator.Base.Dict.{get}
use dp_integrator.Core.Types.{Connection}
use dp_integrator.Core.DedupKey.{dedup_key}
use dp_integrator.Core.Xref.{lookup, mark_ignored, ignored, XrefStore}
use dp_integrator.Core.Xref.Machine.{status_at}
use dp_integrator.Core.Xref.Leaves.{ignored_leaves}
use dp_integrator.Core.Queue.{OrderWebhookMessage}
use dp_integrator.Engine.Eligibility.{update_before_create}
use dp_integrator.Functions.OrderImport.World.{
  AttemptContext, OrderHandlerOutcome, ignored_by_eligibility, Deps, World, ◌>>=◌, ◌>>◌, on_outside,
  in_xref, with_xref, choose,
}
use dp_integrator.Functions.OrderImport.Attempt.{record_attempt}
use dp_integrator.Functions.OrderImport.Handler.{
  parts_for, gated, is_live_update, by_existing, ignore_update, short_circuit,
}
use dp_integrator.Functions.OrderImport.Traverse.{bind-R, then-R, reach-R, write_sync_log-R, emit-R}
use dp_integrator.Functions.OrderImport.Traverse.Ledger.{Same, Same-calm}
use dp_integrator.Functions.OrderImport.Traverse.Rows.{record_attempt-R, short_circuit-R}
use dp_integrator.Functions.OrderImport.Books.{After, After-bind, After-Same, with_xref-After}
use dp_integrator.Functions.OrderImport.Unasked.{asking, ignore_update_same}
use dp_integrator.Functions.OrderImport.Refused.{SameWrites, writes_calm}

module _ {E : Type 0} (deps : Deps E) (connection : Connection) (msg : OrderWebhookMessage)
    (ctx : Option AttemptContext) (key : String)
    (k : dedup_key (parts_for deps.environment connection msg) ≡ ok key) where
  abbrev Ignored : XrefStore → Type 0
  Ignored x = status_at key x ≡ some ignored

  -- The outcome of the gate, with what the ledger holds then.
  abbrev pub Gated : OrderHandlerOutcome → World E → Type 0
  Gated o v =
      (o ≡ ignored_by_eligibility connection.connection_id msg.order_gid update_before_create none)
      × Ignored v.xref

  short_Gated :
      (w : World E)
      → Ignored w.xref
      → After Gated (
          short_circuit deps ctx msg connection
            (ignored_by_eligibility connection.connection_id msg.order_gid update_before_create
              none)
            w)
  unfolding short_circuit ◌>>◌
  short_Gated w h =
      go (record_attempt deps msg connection ctx _ w)
        (record_attempt-R Same-calm (λ t s. refl) deps connection msg ctx _ w)
    where
      go :
          (r : Result Unit × World E)
          → Same w r.1
          → After Gated (
              resume r (λ _ v. (
                ok (
                    ignored_by_eligibility connection.connection_id msg.order_gid
                      update_before_create none),
                v,
              )))
      go (ok tt, v) e = (refl, subst Ignored (sym e) h)
      go (throws x, v) e = tt

  ignore_update-Gated : (w : World E) → After Gated (ignore_update deps ctx msg connection w)
  unfolding ignore_update
  ignore_update-Gated w =
      let parts = parts_for deps.environment connection msg in
      After-bind (λ _ v. Ignored v.xref) Gated _ _ w
        (with_xref-After deps parts connection msg ctx key k (mark_ignored parts) Ignored w
          (λ x a e. ignored_leaves key parts x k))
        (λ _ v h.
          After-bind (λ _ u. Ignored u.xref) Gated _ _ v
            (After-Same Ignored _ v h (write_sync_log-R Same-calm deps connection msg _ v))
            (λ _ u h.
              After-bind (λ _ t. Ignored t.xref) Gated _ _ u
                (After-Same Ignored _ u h (emit-R Same-calm _ u)) (λ _ t h. short_Gated t h)))

  ignore_update-SameWrites :
      (w : World E) → SameWrites w (ignore_update deps ctx msg connection w).1
  unfolding ignore_update with_xref in_xref
  ignore_update-SameWrites w =
      bind-R writes_calm _ _ w (then-R writes_calm _ _ w (reach-R writes_calm deps w) (λ v. refl))
        (λ _ v.
          bind-R writes_calm _ _ v (write_sync_log-R writes_calm deps connection msg _ v) (λ _ u.
            bind-R writes_calm _ _ u (emit-R writes_calm _ u)
              (λ _ t. short_circuit-R writes_calm (λ s a. refl) deps connection msg ctx _ t)))

  lookup-none :
      (x : XrefStore)
      → status_at key x ≡ none
      → lookup (parts_for deps.environment connection msg) x ≡ (ok none, x)
  unfolding lookup
  lookup-none x h = elim (Option-cases (get key x.rows)) [
    | inl f ↦ rw (k, f) refl
    | inr (row, f) ↦ ground arith
  ]

  -- What follows the way to the database.
  reached :
      (w : World E) (r : Result Unit × World E)
      → (r.1.xref ≡ w.xref) × SameWrites w r.1
      → status_at key w.xref ≡ none
      → After Gated (
          resume
            (resume r (λ _. in_xref (lookup (parts_for deps.environment connection msg))))
            (by_existing deps ctx msg connection))
        × SameWrites w
            (resume
              (resume r (λ _. in_xref (lookup (parts_for deps.environment connection msg))))
              (by_existing deps ctx msg connection)).1
  unfolding in_xref by_existing
  reached w (throws e, v) (s, t) h = (tt, t)
  reached w (ok tt, v) (s, t) h =
      rw (lookup-none v.xref (ap (status_at key) s ∙ h))
        (ignore_update-Gated v, ignore_update-SameWrites v ∙ t)

  -- NetSuite is not asked for it: with other stages the delivery is the same.
  reached_same :
      (other : Deps E) (w : World E) (r : Result Unit × World E)
      → r.1.xref ≡ w.xref
      → status_at key w.xref ≡ none
      → resume
          (resume r (λ _. in_xref (lookup (parts_for deps.environment connection msg))))
          (by_existing (asking other deps) ctx msg connection)
        ≡ resume
            (resume r (λ _. in_xref (lookup (parts_for deps.environment connection msg))))
            (by_existing deps ctx msg connection)
  unfolding in_xref by_existing
  reached_same other w (throws e, v) s h = refl
  reached_same other w (ok tt, v) s h = rw (lookup-none v.xref (ap (status_at key) s ∙ h)) (
      ap (λ (m : M (World E) OrderHandlerOutcome). m v)
        (ignore_update_same other deps (parts_for deps.environment connection msg) connection msg
          ctx))

  gated_same :
      (other : Deps E) (w : World E)
      → is_live_update msg ≡ true
      → status_at key w.xref ≡ none
      → gated (asking other deps) ctx msg connection w ≡ gated deps ctx msg connection w
  unfolding gated with_xref ◌>>=◌ ◌>>◌ on_outside choose
  gated_same other w live h = rw live (reached_same other w (on_outside deps.reach w) refl h)

  gated_known :
      (w : World E)
      → is_live_update msg ≡ true
      → status_at key w.xref ≡ none
      → After Gated (gated deps ctx msg connection w)
        × ((gated deps ctx msg connection w).1.writes ≡ w.writes)
  unfolding gated with_xref ◌>>=◌ ◌>>◌ on_outside choose
  gated_known w live h = rw live (reached w (on_outside deps.reach w) (refl, refl) h)

  -- A live `orders/updated` for an order with a dedup key and without a row writes no order to
  -- NetSuite, and does the same with any other stages of the customer, the payload, the tax, the
  -- balancing and the items and any other write to NetSuite in place of its own, so it asks none of
  -- them; if the delivery returns, it reports `update_before_create`, and the row says ignored.
  pub gated_update :
      (other : Deps E) (w : World E)
      → is_live_update msg ≡ true
      → status_at key w.xref ≡ none
      → After Gated (gated deps ctx msg connection w)
        × ((gated deps ctx msg connection w).1.writes ≡ w.writes)
        × (gated (asking other deps) ctx msg connection w ≡ gated deps ctx msg connection w)
  gated_update other w live h =
      let (known, writes) = gated_known w live h in (known, writes, gated_same other w live h)
