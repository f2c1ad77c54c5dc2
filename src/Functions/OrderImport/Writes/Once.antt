-- ===== src/Functions/OrderImport/Writes/Once.antt =====
-- Any number of deliveries, and the writes of one order to NetSuite.
use dp_integrator.Base.{
  ℕ, ◌+◌, ◌≤◌, String, ◌≡◌, refl, Bool, true, false, Option, none, some, List, [], ◌∷◌, Result, ok,
  throws, M, resume, arith, if◌then◌else◌, is_some,
}
use dp_integrator.Base.Value.{Value}
use dp_integrator.Core.Types.{Connection}
use dp_integrator.Core.Xref.{ClaimInput, ClaimResult, claimed, claim, XrefRow}
use dp_integrator.Core.Xref.Machine.{claims, looks_up, ignores, after, status_at}
use dp_integrator.Core.Xref.Exclusive.{won, won-none, won-Taken, is_claimed}
use dp_integrator.Core.Queue.{OrderWebhookMessage}
use dp_integrator.Core.Queue.Message.{Parsed, parsed, bad, parse}
use dp_integrator.Functions.OrderImport.World.{
  AttemptContext, OrderHandlerOutcome, Deps, World, ◌>>=◌, ◌>>◌, choose, with_xref, in_xref,
  on_outside,
}
use dp_integrator.Functions.OrderImport.Handler.{
  parts_for, claim_input, short_circuit, by_claim, claim_order, ignore_update, by_existing, gated,
  is_live_update, with_connection, with_message, handle_order_message,
}
use dp_integrator.Functions.OrderImport.Traverse.{bind-R, then-R, emit-R, reach-R, write_sync_log-R}
use dp_integrator.Functions.OrderImport.Traverse.Rows.{short_circuit-R}
use dp_integrator.Functions.OrderImport.Writes.{
  writes_of, Within, Within-calm, Within-none, rows_none, own, calls-Taken, import_claimed-Within,
}

-- A message with the context in which it is delivered.
abbrev pub Delivery : Type 0
Delivery = Value × Option AttemptContext

unfoldable pub deliveries : {E : Type 0} → Deps E → List Delivery → World E → World E
deliveries deps [] w = w
deliveries deps ((message, ctx) ∷ ds) w =
    deliveries deps ds (handle_order_message deps ctx message w).1

module _ {E : Type 0} (key : String) where
  -- The writes that were made for the order, and the one that may come while it has no row.
  unfoldable pub budget : World E → ℕ
  budget w = writes_of key w.writes + (if is_some (status_at key w.xref) then 0 else 1)

  abbrev Cheaper : World E → World E → Type 0
  Cheaper u v = budget v ≤ budget u

  Within-Cheaper : (u v : World E) → Within key 0 u v → Cheaper u v
  unfolding budget
  Within-Cheaper u v h = ground (arith, h.0, h.1)

  bind_Cheaper :
      {A B : Type 0} (m : M (World E) A) (f : A → M (World E) B) (u : World E)
      → Cheaper u (m u).1
      → ((a : A) (v : World E) → Cheaper v (f a v).1)
      → Cheaper u ((m >>= f) u).1
  unfolding ◌>>=◌
  bind_Cheaper m f u h k = go (m u) h
    where
      go : (r : Result _ × World E) → Cheaper u r.1 → Cheaper u (resume r f).1
      go (ok a, v) h = omega (arith, h, k a v)
      go (throws e, v) h = h

  choose-Cheaper :
      {A : Type 0} (b : Bool) (m n : M (World E) A) (w : World E)
      → Cheaper w (m w).1
      → Cheaper w (n w).1
      → Cheaper w (choose b m n w).1
  unfolding choose
  choose-Cheaper true m n w h k = h
  choose-Cheaper false m n w h k = k

  module _ (deps : Deps E) (ctx : Option AttemptContext) where
    short_circuit-Within :
        (msg : OrderWebhookMessage) (connection : Connection) (o : _) (w : World E)
        → Within key 0 w (short_circuit deps ctx msg connection o w).1
    short_circuit-Within msg connection o w =
        short_circuit-R (Within-calm key) (rows_none key) deps connection msg ctx o w

    module _ (msg : OrderWebhookMessage) (connection : Connection) where
      abbrev input : ClaimInput
      input = claim_input (parts_for deps.environment connection msg) msg.order_gid

      abbrev own_share : ℕ
      own_share = own key deps (parts_for deps.environment connection msg) connection msg ctx

      -- The claim that wins takes the row, and with it what the body may write.
      won-Cheaper :
          (row : XrefRow) (v u : World E)
          → (claim input v.xref).0 ≡ ok (claimed row)
          → Within key own_share (record v { xref = after (claims input) v.xref }) u
          → Cheaper v u
      unfolding budget won is_claimed claim_input
      won-Cheaper row v u e h = ground (
        arith,
        h.0,
        h.1,
        won-none key (claims input) v.xref,
        won-Taken key (claims input) v.xref,
        calls-Taken key (claims input) v.xref refl,
      )

      short_Cheaper :
          (o : OrderHandlerOutcome) (v : World E)
          → Cheaper v
              (short_circuit deps ctx msg connection o
                (record v { xref = after (claims input) v.xref })).1
      short_Cheaper o v =
          let u : World E = record v { xref = after (claims input) v.xref } in
          let t = (short_circuit deps ctx msg connection o u).1 in
          Within-Cheaper v t (
            (Within-calm key).follows v u t ((Within-none key).calls v (claims input) refl)
              (short_circuit-Within msg connection o u))

      by_claim-Cheaper :
          (v : World E) (r : Result ClaimResult)
          → (claim input v.xref).0 ≡ r
          → Cheaper v
              (resume
                (r, record v { xref = after (claims input) v.xref })
                (by_claim deps ctx msg connection)).1
      unfolding by_claim
      by_claim-Cheaper v (ok (claimed row)) e =
          won-Cheaper row v _ e (import_claimed-Within key deps _ connection msg ctx _)
      by_claim-Cheaper v (ok (ClaimResult.already_claimed row)) e = short_Cheaper _ v
      by_claim-Cheaper v (ok (ClaimResult.already_synced row)) e = short_Cheaper _ v
      by_claim-Cheaper v (ok (ClaimResult.already_ignored row)) e = short_Cheaper _ v
      by_claim-Cheaper v (throws x) e =
          Within-Cheaper v _ ((Within-none key).calls v (claims input) refl)

      claimed_after :
          (w : World E) (r : Result Unit × World E)
          → Within key 0 w r.1
          → Cheaper w
              (resume (resume r (λ _. in_xref (claim input))) (by_claim deps ctx msg connection)).1
      unfolding in_xref after
      claimed_after w (throws e, v) h = Within-Cheaper w v h
      claimed_after w (ok tt, v) h =
          omega (arith, Within-Cheaper w v h, by_claim-Cheaper v (claim input v.xref).0 refl)

      claim_order-Cheaper : (w : World E) → Cheaper w (claim_order deps ctx msg connection w).1
      unfolding claim_order with_xref ◌>>=◌ ◌>>◌
      claim_order-Cheaper w =
          claimed_after w (on_outside deps.reach w) (reach-R (Within-calm key) deps w)

      ignore_update-Within :
          (w : World E) → Within key 0 w (ignore_update deps ctx msg connection w).1
      unfolding ignore_update with_xref in_xref after
      ignore_update-Within w =
          bind-R (Within-calm key) _ _ w
            (then-R (Within-calm key) _ _ w (reach-R (Within-calm key) deps w) (λ v.
              (Within-none key).calls v (ignores (parts_for deps.environment connection msg)) refl))
            (λ _ v.
              bind-R (Within-calm key) _ _ v
                (write_sync_log-R (Within-calm key) deps connection msg _ v)
                (λ _ u.
                  bind-R (Within-calm key) _ _ u (emit-R (Within-calm key) _ u)
                    (λ _ t. short_circuit-Within msg connection _ t)))

      by_existing-Cheaper :
          (x : Option XrefRow) (w : World E) → Cheaper w (by_existing deps ctx msg connection x w).1
      unfolding by_existing
      by_existing-Cheaper none w = Within-Cheaper w _ (ignore_update-Within w)
      by_existing-Cheaper (some row) w = claim_order-Cheaper w

      gated-Cheaper : (w : World E) → Cheaper w (gated deps ctx msg connection w).1
      unfolding gated with_xref in_xref after
      gated-Cheaper w =
          choose-Cheaper (is_live_update msg) _ _ w
            (bind_Cheaper _ _ w
              (Within-Cheaper w _ (
                then-R (Within-calm key) _ _ w (reach-R (Within-calm key) deps w) (λ v.
                  (Within-none key).calls v (looks_up (parts_for deps.environment connection msg))
                    refl)))
              (λ x v. by_existing-Cheaper x v))
            (claim_order-Cheaper w)

    with_connection-Cheaper :
        (msg : OrderWebhookMessage) (c : Option Connection) (w : World E)
        → Cheaper w (with_connection deps ctx msg c w).1
    unfolding with_connection
    with_connection-Cheaper msg none w = omega arith
    with_connection-Cheaper msg (some connection) w =
        choose-Cheaper connection.enabled _ _ w (gated-Cheaper msg connection w) (omega arith)

    with_message-Cheaper : (p : Parsed) (w : World E) → Cheaper w (with_message deps ctx p w).1
    unfolding with_message
    with_message-Cheaper (bad e) w = omega arith
    with_message-Cheaper (parsed msg) w =
        choose-Cheaper _ _ _ w (with_connection-Cheaper msg _ w) (omega arith)

    handle-Cheaper :
        (message : Value) (w : World E) → Cheaper w (handle_order_message deps ctx message w).1
    unfolding handle_order_message
    handle-Cheaper message w = with_message-Cheaper (parse message) w

  deliveries-Cheaper :
      (deps : Deps E) (ds : List Delivery) (w : World E) → Cheaper w (deliveries deps ds w)
  unfolding deliveries
  deliveries-Cheaper deps [] w = omega arith
  deliveries-Cheaper deps ((message, ctx) ∷ ds) w = omega (
    arith,
    handle-Cheaper deps ctx message w,
    deliveries-Cheaper deps ds (handle_order_message deps ctx message w).1,
  )

-- Whatever messages are delivered, with redeliveries and in any order, and whatever Shopify,
-- NetSuite and the database do meanwhile, the handler sends the order of a key to NetSuite at most
-- once more than before, and not at all if the key has a row already.
pub deliveries_write_once :
    {E : Type 0} (key : String) (deps : Deps E) (ds : List Delivery) (w : World E)
    → writes_of key (deliveries deps ds w).writes
      ≤ writes_of key w.writes + (if is_some (status_at key w.xref) then 0 else 1)
unfolding budget
deliveries_write_once key deps ds w = omega (arith, deliveries-Cheaper key deps ds w)
