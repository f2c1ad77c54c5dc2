-- ===== src/Functions/DeadLetter/Erased.antt =====
-- What the bump of the attempt count leaves of an order's row in the sync log.
use dp_integrator.Base.{ℕ, Option, none, some, ok, ◌≡◌, ap}
use dp_integrator.Base.Value.{Fields}
use dp_integrator.Core.Types.{Environment}
use dp_integrator.Core.OrderSyncLog.{
  OrderSyncLogStore, OrderSyncLog, OrderSyncLogInput, find_by_order_gid, upsert,
}
use dp_integrator.Core.OrderSyncLog.Transitions.{upsert_lem}
use dp_integrator.Functions.DeadLetter.{
  DlqHandlerDeps, Dlq, on_outside, swallow, in_log, bump_existing, bump_log, find_log,
}
use dp_integrator.Functions.DeadLetter.Parse.{text}
use dp_integrator.Functions.DeadLetter.Inputs.{bumped}

module _ {E : Type 0} (deps : DlqHandlerDeps E) (env : Environment) (m : Fields) (count : ℕ)
    (existing : OrderSyncLog) where
  -- The row of the order is there, and says no more than where the order stands.
  abbrev pub Erased : Option OrderSyncLogStore → Type 0
  Erased none = ⊥
  Erased (some s) =
      (row : OrderSyncLog) × (find_by_order_gid env (text "connectionId" m) (text "orderGid" m) s
        ≡ some row)
      × (row.status ≡ existing.status)
      × (row.attempt_count ≡ some count)
      × (row.shopify_order_name ≡ none)
      × (row.total_price ≡ none)
      × (row.ns_internal_id ≡ none)
      × (row.park_detail ≡ none)

  upsert-Erased :
      (now : ℕ) (s : OrderSyncLogStore)
      → Erased (some (upsert (bumped env m count existing) now s).1)
  unfolding find_by_order_gid bumped
  upsert-Erased now s =
      let ((row, found, is, at_now, same), others) =
        upsert_lem (bumped env m count existing) now s in
      (
        row,
        found,
        ap (λ (i : OrderSyncLogInput). i.status) is,
        ap (λ (i : OrderSyncLogInput). i.attempt_count) is,
        ap (λ (i : OrderSyncLogInput). i.shopify_order_name) is,
        ap (λ (i : OrderSyncLogInput). i.total_price) is,
        ap (λ (i : OrderSyncLogInput). i.ns_internal_id) is,
        ap (λ (i : OrderSyncLogInput). i.park_detail) is,
      )

  -- If the database is up and the order has a row in the sync log, the bump of its attempt count
  -- keeps the status and sets the count, but the row has no name of the order, no total, no
  -- NetSuite id and no park detail any more.
  pub bump_log-Erased :
      (w : Dlq E) (s : OrderSyncLogStore)
      → ((e : E) → (deps.reach e).0 ≡ ok tt)
      → w.log ≡ some s
      → find_log deps env m (some s) ≡ some existing
      → Erased (bump_log deps env m count w).1.log
  unfolding bump_log swallow on_outside bump_existing in_log
  bump_log-Erased w s up wired found = rw (up, wired, found, up) (upsert-Erased _ s)
