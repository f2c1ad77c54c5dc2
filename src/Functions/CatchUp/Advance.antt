-- ===== src/Functions/CatchUp/Advance.antt =====
-- The watermark of a connection over a poll.
use dp_integrator.Base.{
  ℕ, ◌-◌, ◌*◌, String, Option, none, some, List, ◌++◌, M, Result, ok, throws, pure, ◌>>◌, length,
  ◌≡◌, refl, ap, ◌∙◌, arith, keep, eq_refl, resume,
}
use dp_integrator.Base.Dict.{get, set, get-set}
use dp_integrator.Base.Time.{to_iso}
use dp_integrator.Core.Types.{Connection}
use dp_integrator.Core.Xref.{XrefStore}
use dp_integrator.Core.Queue.{OrderWebhookMessage}
use dp_integrator.Core.Watermark
use dp_integrator.Core.Watermark.{SyncWatermarkRow}
use dp_integrator.Core.Connections.{find_by_id}
use dp_integrator.Shopify.Gateway.{OrderSummary}
use dp_integrator.Functions.CatchUp.{
  Deps, Poller, on_outside, in_watermarks, CatchupConfig, ConnectionCatchupOutcome, polled, skipped,
  catchup_flow, last_updated, from_cursor_of, poll_one_connection, poll_found, poll_page,
  set_cursor, track_catchup_poll,
}
use dp_integrator.Functions.CatchUp.Loop.{
  bodies, is_due, due_bodies, after_call, LoopDone, poll_orders-Done,
}

get-set_same :
    (k : String) (v : SyncWatermarkRow) (m : Watermark.Watermarks) → get k (set k v m) ≡ some v
get-set_same k v m = ground (arith, get-set k k v m, eq_refl k)

module _ {E : Type 0} (deps : Deps E) (config : CatchupConfig) (connection_id : String)
    (w : Poller E) where
  -- The connection's cursor is the given one.
  abbrev pub HasCursor : String → Poller E → Type 0
  HasCursor cursor v =
      (row : SyncWatermarkRow) × (Watermark.get deps.environment connection_id catchup_flow
          v.watermarks
        ≡ some row)
      × (row.last_cursor ≡ some cursor)

  -- Where a poll begins: the cursor that is kept, or the lookback of a first poll.
  abbrev pub start : String
  start =
      from_cursor_of (Watermark.get deps.environment connection_id catchup_flow w.watermarks)
        config.bootstrap_lookback_hours (deps.now w.outside)

  -- The page begins at the cursor. The bodies on the queue are those of before and those of the page's due orders; the cursor is at
  -- the end of the page.
  abbrev pub Polled :
      (enqueued : ℕ) (from_cursor new_cursor : String)
      → Connection
      → List OrderSummary
      → Poller E
      → Type 0
  Polled enqueued from_cursor new_cursor connection page v =
      (find_by_id deps.environment connection_id deps.connections ≡ some connection)
      × (from_cursor ≡ start)
      × ((e : E) × ((deps.list_orders_updated_since connection from_cursor config.page_size e).0
            ≡ ok page))
      × (bodies v.queue
          ≡ bodies w.queue
            ++ due_bodies deps connection connection_id (deps.now w.outside) w.xref page)
      × (enqueued
          ≡ length (keep (is_due deps connection connection_id (deps.now w.outside) w.xref) page))
      × (new_cursor
          ≡ last_updated page
              (to_iso (deps.now w.outside - config.overlap_seconds_on_empty * 1000)))
      × HasCursor new_cursor v

  abbrev pub Advanced : Result ConnectionCatchupOutcome × Poller E → Type 0
  Advanced (ok (polled id observed enqueued from_cursor new_cursor), v) =
      (v.xref ≡ w.xref)
      × ((connection : Connection) × (page : List OrderSummary) × (observed ≡ length page)
          × Polled enqueued from_cursor new_cursor connection page v)
  Advanced (ok (skipped id), v) = v ≡ w
  Advanced (throws e, v) = (v.xref ≡ w.xref) × (v.watermarks ≡ w.watermarks)

  module _ (connection : Connection) (page : List OrderSummary) (from_cursor : String)
      (known : find_by_id deps.environment connection_id deps.connections ≡ some connection)
      (at_start : from_cursor ≡ start) (e : E)
      (listed : (deps.list_orders_updated_since connection from_cursor config.page_size e).0
        ≡ ok page) where
    abbrev now : ℕ
    now = deps.now w.outside

    abbrev cursor : String
    cursor = last_updated page (to_iso (now - config.overlap_seconds_on_empty * 1000))

    closing : ℕ → M (Poller E) ConnectionCatchupOutcome
    closing n =
        track_catchup_poll deps (record {
          environment = deps.environment;
          connection_id = connection_id;
          observed = length page;
          enqueued = n;
        })
        >> pure (polled connection_id (length page) n from_cursor cursor)

    -- What comes after the loop.
    finish-Advanced :
        (n : ℕ) (v u : Poller E)
        → v.xref ≡ w.xref
        → v.watermarks ≡ w.watermarks
        → bodies v.queue ≡ bodies w.queue
        → LoopDone deps connection connection_id now page 0 v (ok n, u)
        → Advanced (resume (set_cursor deps connection_id cursor u) (λ _. closing n))
    unfolding closing set_cursor on_outside in_watermarks track_catchup_poll Watermark.set
        Watermark.get
    finish-Advanced n v u x m q (same, l, q') =
        after_call deps connection connection_id 0 (λ r. Advanced (resume r (λ _. closing n)))
          (on_outside deps.reach u) _
          (λ _ _. (
            same.0 ∙ x,
            (
              connection,
              page,
              refl,
              (
                known,
                at_start,
                (e, listed),
                q'
                    ∙ ap
                        (λ (b : List OrderWebhookMessage).
                          b ++ due_bodies deps connection connection_id now v.xref page)
                        q
                    ∙ ap
                        (λ (s : XrefStore).
                          bodies w.queue ++ due_bodies deps connection connection_id now s page)
                        x,
                omega (
                  arith,
                  l,
                  ap
                      (λ (s : XrefStore).
                        length (keep (is_due deps connection connection_id now s) page))
                      x,
                ),
                refl,
                (_, get-set_same _ _ _, refl),
              ),
            ),
          ))
          (λ e. (same.0 ∙ x, same.1 ∙ m))

    after_loop-Advanced :
        (r : Result ℕ × Poller E) (v : Poller E)
        → v.xref ≡ w.xref
        → v.watermarks ≡ w.watermarks
        → bodies v.queue ≡ bodies w.queue
        → LoopDone deps connection connection_id now page 0 v r
        → Advanced
            (resume r (λ n u. resume (set_cursor deps connection_id cursor u) (λ _. closing n)))
    after_loop-Advanced (ok n, u) v x m q d = finish-Advanced n v u x m q d
    after_loop-Advanced (throws e, u) v x m q d = (d.0 ∙ x, d.1 ∙ m)

  page-Advanced :
      (connection : Connection) (from_cursor : String) (v : Poller E)
      → find_by_id deps.environment connection_id deps.connections ≡ some connection
      → from_cursor ≡ start
      → v.xref ≡ w.xref
      → v.watermarks ≡ w.watermarks
      → bodies v.queue ≡ bodies w.queue
      → Advanced (poll_page deps config connection connection_id (deps.now w.outside) from_cursor v)
  unfolding poll_page on_outside closing
  page-Advanced connection from_cursor v known at_start x m q =
      after_call deps connection connection_id 0 Advanced
        (on_outside (deps.list_orders_updated_since connection from_cursor config.page_size) v) _
        (λ page e.
          after_loop-Advanced connection page from_cursor known at_start v.outside e _
            (on_outside (deps.list_orders_updated_since connection from_cursor config.page_size)
              v).1
            x m q (poll_orders-Done deps connection connection_id _ page 0 _))
        (λ e. (x, m))

  found-Advanced :
      (c : Option Connection)
      → find_by_id deps.environment connection_id deps.connections ≡ c
      → Advanced (poll_found deps config c connection_id (deps.now w.outside) w)
  unfolding poll_found on_outside
  found-Advanced none known = refl
  found-Advanced (some connection) known =
      after_call deps connection connection_id 0 Advanced (on_outside deps.reach w) _
        (λ _ _. page-Advanced connection _ _ known refl refl refl refl) (λ e. (refl, refl))

  -- A poll of one connection that is done began at the cursor that was kept, or at the lookback of
  -- a first poll, and has put on the queue, in the order of the page that Shopify gave from there,
  -- a message for exactly the orders of the page that have no synced and no ignored row, has
  -- counted them, and has set the cursor to the last update of the page, or a fixed time before now
  -- when the page is empty; one that throws leaves the cursors as they were, so the next poll
  -- begins at the same place; the ledger never changes, and a connection that is not known changes
  -- nothing.
  pub poll_one_connection-Advanced : Advanced (poll_one_connection deps config connection_id w)
  unfolding poll_one_connection
  poll_one_connection-Advanced = found-Advanced _ refl
