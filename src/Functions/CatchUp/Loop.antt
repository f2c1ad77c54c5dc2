-- ===== src/Functions/CatchUp/Loop.antt =====
-- The queue over the loop of a poll.
use dp_integrator.Base.{
  ℕ, suc, ◌+◌, String, Bool, true, false, not, Option, none, List, [], ◌∷◌, ◌++◌, M, Result, ok,
  throws, Thrown, pure, if◌then◌else◌, length, ◌≡◌, refl, sym, ap, subst, ◌∙◌, arith, keep, map,
  resume,
}
use mathlib.Core.List.{append-nil, append_assoc, map-append}
use dp_integrator.Base.Dict.{get}
use dp_integrator.Core.Types.{Connection}
use dp_integrator.Core.Xref.{XrefStore, XrefRow, lookup}
use dp_integrator.Core.DedupKey.{dedup_key}
use dp_integrator.Core.Queue.{OrderWebhookMessage, Queue, enqueue}
use dp_integrator.Shopify.Gateway.{OrderSummary}
use dp_integrator.Functions.CatchUp.{
  Deps, Poller, on_outside, in_xref, in_queue, parts_of, body_of, publish_unless, poll_order,
  poll_orders, is_resolved,
}

abbrev pub bodies : Queue → List OrderWebhookMessage
bodies q = map (λ m. m.body) q.buffer

abbrev pub found : Result (Option XrefRow) → Option XrefRow
found (ok row) = row
found (throws e) = none

kept :
    (r : Result String) (s : XrefStore) → (resume (r, s) (λ key t. pure (get key t.rows) t)).1 ≡ s
kept (ok key) s = refl
kept (throws e) s = refl

module _ {E : Type 0} (deps : Deps E) (connection : Connection) (connection_id : String)
    (now : ℕ) where
  -- The ledger has no synced or ignored row for the order.
  unfoldable pub is_due : XrefStore → OrderSummary → Bool
  is_due s summary = not (is_resolved (found (lookup (parts_of deps connection_id summary) s).0))

  abbrev pub due_bodies : XrefStore → List OrderSummary → List OrderWebhookMessage
  due_bodies s page = map (body_of deps connection connection_id now) (keep (is_due s) page)

  abbrev pub SameBooks : Poller E → Poller E → Type 0
  SameBooks w v = (v.xref ≡ w.xref) × (v.watermarks ≡ w.watermarks)

  lookup_state :
      (s : XrefStore) (o : OrderSummary) → (lookup (parts_of deps connection_id o) s).1 ≡ s
  unfolding lookup
  lookup_state s o = kept (dedup_key (parts_of deps connection_id o)) s

  -- What one order does.
  abbrev OrderDone : OrderSummary → Poller E → Result Bool × Poller E → Type 0
  OrderDone o w (ok sent, v) =
      SameBooks w v
      × (sent ≡ is_due w.xref o)
      × (bodies v.queue ≡ bodies w.queue ++ due_bodies w.xref (o ∷ []))
  OrderDone o w (throws e, v) = SameBooks w v

  pub after_call :
      {A B : Type 0} (Q : Result B × Poller E → Type 0) (r : Result A × Poller E)
      (f : A → M (Poller E) B)
      → ((a : A) → r.0 ≡ ok a → Q (f a r.1))
      → ((e : Thrown) → Q (throws e, r.1))
      → Q (resume r f)
  after_call Q (ok a, v) f h k = h a refl
  after_call Q (throws e, v) f h k = k e

  -- What publishing does, once it is known whether the order is due.
  publish-Done :
      (resolved : Bool) (o : OrderSummary) (w v : Poller E)
      → SameBooks w v
      → bodies v.queue ≡ bodies w.queue
      → resolved ≡ is_resolved (found (lookup (parts_of deps connection_id o) w.xref).0)
      → OrderDone o w (publish_unless deps resolved connection connection_id now o v)
  unfolding publish_unless is_due keep on_outside in_queue enqueue
  publish-Done true o w v same q r =
      (same, ap not r, q ∙ ground (arith, r, append-nil (bodies w.queue)))
  publish-Done false o w v same q r =
      after_call (OrderDone o w) (on_outside deps.reach v) _
        (λ _ _. (same, ap not r, map-append (λ m. m.body) v.queue.buffer _ ∙ ground (arith, q, r)))
        (λ e. same)

  poll_order-Done :
      (o : OrderSummary) (w : Poller E)
      → OrderDone o w (poll_order deps connection connection_id now o w)
  unfolding poll_order on_outside in_xref
  poll_order-Done o w =
      after_call (OrderDone o w) (on_outside deps.reach w) _
        (λ _ _.
          after_call (OrderDone o w)
            (in_xref (lookup (parts_of deps connection_id o)) (on_outside deps.reach w).1) _
            (λ row e.
              publish-Done (is_resolved row) o w _ (lookup_state w.xref o, refl) refl
                (ap (λ x. is_resolved (found x)) (sym e)))
            (λ e. (lookup_state w.xref o, refl)))
        (λ e. (refl, refl))

  due_bodies-cons :
      (s : XrefStore) (o : OrderSummary) (os : List OrderSummary)
      → due_bodies s (o ∷ os) ≡ due_bodies s (o ∷ []) ++ due_bodies s os
  unfolding keep
  due_bodies-cons s o os = by_due (is_due s o) (keep (is_due s) os)
    where
      by_due :
          (b : Bool) (kept_rest : List OrderSummary)
          → map (body_of deps connection connection_id now) (if b then o ∷ kept_rest else kept_rest)
            ≡ map (body_of deps connection connection_id now) (if b then o ∷ [] else [])
              ++ map (body_of deps connection connection_id now) kept_rest
      by_due true k = refl
      by_due false k = refl

  -- What the loop does.
  abbrev pub LoopDone : List OrderSummary → ℕ → Poller E → Result ℕ × Poller E → Type 0
  LoopDone page count w (ok n, v) =
      SameBooks w v
      × (n ≡ count + length (keep (is_due w.xref) page))
      × (bodies v.queue ≡ bodies w.queue ++ due_bodies w.xref page)
  LoopDone page count w (throws e, v) = SameBooks w v

  rest-Done :
      (o : OrderSummary) (os : List OrderSummary) (count : ℕ) (w v : Poller E) (sent : Bool)
      → OrderDone o w (ok sent, v)
      → (r : Result ℕ × Poller E) → LoopDone os (if sent then suc count else count) v r
      → LoopDone (o ∷ os) count w r
  unfolding keep
  rest-Done o os count w v sent (same, s, q) (throws e, u) same' =
      (same'.0 ∙ same.0, same'.1 ∙ same.1)
  rest-Done o os count w v sent (same, s, q) (ok n, u) (same', l, q') =
      let l' =
        subst
          (λ (x : XrefStore). n ≡ (if sent then suc count else count) + length (keep (is_due x) os))
          same.0 l in
      (
        (same'.0 ∙ same.0, same'.1 ∙ same.1),
        ground (arith, s, l'),
        q'
            ∙ ap (λ (b : List OrderWebhookMessage). b ++ due_bodies v.xref os) q
            ∙ append_assoc (bodies w.queue) _ _
            ∙ ap
                (λ (x : XrefStore).
                  bodies w.queue ++ (due_bodies w.xref (o ∷ []) ++ due_bodies x os))
                same.0
            ∙ ap (λ (b : List OrderWebhookMessage). bodies w.queue ++ b)
                (sym (due_bodies-cons w.xref o os)),
      )

  loop-Done :
      (o : OrderSummary) (os : List OrderSummary) (count : ℕ) (w : Poller E)
      (r : Result Bool × Poller E) (f : Bool → M (Poller E) ℕ)
      → OrderDone o w r
      → ((sent : Bool) (v : Poller E)
          → LoopDone os (if sent then suc count else count) v (f sent v))
      → LoopDone (o ∷ os) count w (resume r f)
  loop-Done o os count w (ok sent, v) f d h = rest-Done o os count w v sent d _ (h sent v)
  loop-Done o os count w (throws e, v) f d h = d

  pub poll_orders-Done :
      (page : List OrderSummary) (count : ℕ) (w : Poller E)
      → LoopDone page count w (poll_orders deps connection connection_id now page count w)
  unfolding poll_orders keep
  poll_orders-Done [] count w = ((refl, refl), omega arith, sym (append-nil (bodies w.queue)))
  poll_orders-Done (o ∷ os) count w =
      loop-Done o os count w _ _ (poll_order-Done o w) (λ sent v. poll_orders-Done os _ v)
