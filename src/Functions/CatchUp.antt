-- ===== src/Functions/CatchUp.antt =====
-- apps/functions/src/triggers/order-catchup-poller.ts: what the webhooks missed goes on the queue. `E`
-- is the state of the systems outside: Shopify, the way to the stores and the bus, and the clock. A
-- date before 1970 is taken for 1970.
pub mod Loop
pub mod Advance
mod Tests
use Prim.Native.String.{◌++◌}
use dp_integrator.Base.{
  ℕ, zero, suc, ◌+◌, ◌-◌, ◌*◌, String, Bool, true, false, Option, none, some, List, [], ◌∷◌, M,
  pure, ◌>>=◌, ◌>>◌, if◌then◌else◌, length, ◌&&◌,
}
use dp_integrator.Base.Time.{to_iso, encode_uri_component}
use dp_integrator.Core.Types.{Connection, Environment, environment_text, order, shopify}
use dp_integrator.Core.DedupKey.{DedupKeyParts}
use dp_integrator.Core.Xref.{XrefStore, XrefRow, lookup, synced, ignored, pending, error}
use dp_integrator.Core.Queue.{OrderWebhookMessage, Queue, catchup, enqueue}
use dp_integrator.Core.Connections.{ConnectionsRepo, find_by_id, list_enabled}
use dp_integrator.Core.Watermark.{Watermarks, SyncWatermarkRow}
use dp_integrator.Core.Watermark
use dp_integrator.Core.Replay.{session_id_of}
use dp_integrator.Shopify.Gateway.{OrderSummary}

-- The event of `trackCatchupPoll`.
pub record CatchupPoll : Type 0 where
  pub environment : Environment
  pub connection_id : String
  pub observed : ℕ
  pub enqueued : ℕ

pub record Poller (E : Type 0) : Type 0 where
  pub xref : XrefStore
  pub watermarks : Watermarks
  pub queue : Queue
  pub events : List CatchupPoll
  pub outside : E

-- `CatchupDeps`. The calls may throw; `reach` is the way to a store or the bus.
pub record Deps (E : Type 0) : Type 0 where
  pub environment : Environment
  pub connections : ConnectionsRepo
  pub has_xref_store : Bool
  pub has_watermark_store : Bool
  pub has_telemetry : Bool
  pub list_orders_updated_since : Connection → String → ℕ → M E (List OrderSummary)
  pub reach : M E (Unit {0})
  pub now : E → ℕ

-- `CatchupConfig` without the schedule, which the registration reads.
pub record CatchupConfig : Type 0 where
  pub bootstrap_lookback_hours : ℕ
  pub overlap_seconds_on_empty : ℕ
  pub page_size : ℕ

abbrev pub default_catchup_config : CatchupConfig
default_catchup_config = record {
  bootstrap_lookback_hours = 24;
  overlap_seconds_on_empty = 60;
  page_size = 50;
}

abbrev pub catchup_flow : String
catchup_flow = "order-catchup"

-- `not_ready` is the one reason of `skipped`.
pub data ConnectionCatchupOutcome : Type 0 where
  polled :
      (connection_id : String) (observed enqueued : ℕ) (from_cursor new_cursor : String)
      → ConnectionCatchupOutcome
  skipped : (connection_id : String) → ConnectionCatchupOutcome

-- A row that is there and synced or ignored.
unfoldable pub is_resolved : Option XrefRow → Bool
is_resolved none = false
is_resolved (some row) = elim row.status [
  | synced ↦ true
  | ignored ↦ true
  | pending ↦ false
  | error ↦ false
]

-- `orders.length > 0 ? orders[orders.length - 1].updatedAt : …`.
unfoldable pub last_updated : List OrderSummary → String → String
last_updated [] empty = empty
last_updated (o ∷ os) empty = last_updated os o.updated_at

unfoldable pub from_cursor_of : Option SyncWatermarkRow → ℕ → ℕ → String
from_cursor_of none hours now = to_iso (now - hours * 3600000)
from_cursor_of (some row) hours now = elim row.last_cursor [
  | some cursor ↦ cursor
  | none ↦ to_iso (now - hours * 3600000)
]

module _ {E : Type 0} where
  unfoldable pub on_outside : {A : Type 0} → M E A → M (Poller E) A
  on_outside m w = let (r, e) = m w.outside in (r, record w { outside = e })

  unfoldable pub in_xref : {A : Type 0} → M XrefStore A → M (Poller E) A
  in_xref m w = let (r, s) = m w.xref in (r, record w { xref = s })

  unfoldable pub in_queue : {A : Type 0} → M Queue A → M (Poller E) A
  in_queue m w = let (r, q) = m w.queue in (r, record w { queue = q })

  unfoldable pub in_watermarks : {A : Type 0} → M Watermarks A → M (Poller E) A
  in_watermarks m w = let (r, s) = m w.watermarks in (r, record w { watermarks = s })

module _ {E : Type 0} (deps : Deps E) where
  unfoldable pub parts_of : (connection_id : String) → OrderSummary → DedupKeyParts
  parts_of connection_id summary = record {
    environment = deps.environment;
    connection_id = connection_id;
    entity_type = order;
    source_system = shopify;
    source_id = summary.id;
  }

  unfoldable pub body_of :
      Connection → (connection_id : String) → ℕ → OrderSummary → OrderWebhookMessage
  body_of connection connection_id now summary = record {
    environment = environment_text deps.environment;
    connection_id = connection_id;
    shop_domain = connection.shopify_store;
    topic = "orders/updated";
    order_gid = summary.id;
    envelope_blob_uri =
        "catchup://dpi/"
        ++ (environment_text deps.environment
            ++ ("/"
                ++ (connection_id
                    ++ ("/" ++ (encode_uri_component summary.id ++ ("/" ++ to_iso now))))));
    received_at = to_iso now;
    source = some catchup;
  }

  unfoldable pub publish_unless :
      Bool → Connection → (connection_id : String) → ℕ → OrderSummary → M (Poller E) Bool
  publish_unless true connection connection_id now summary = pure false
  publish_unless false connection connection_id now summary = do
    _ ← on_outside deps.reach
    _ ← λ w.
        in_queue
          (enqueue (some (session_id_of connection_id summary.id))
            (body_of connection connection_id now summary) (deps.now w.outside))
          w
    pure true

  -- One round of the loop; whether it published.
  unfoldable pub poll_order :
      Connection → (connection_id : String) → ℕ → OrderSummary → M (Poller E) Bool
  poll_order connection connection_id now summary = do
    _ ← on_outside deps.reach
    row ← in_xref (lookup (parts_of connection_id summary))
    publish_unless (is_resolved row) connection connection_id now summary

  -- The loop, with the number published so far.
  unfoldable pub poll_orders :
      Connection → (connection_id : String) → ℕ → List OrderSummary → ℕ → M (Poller E) ℕ
  poll_orders connection connection_id now [] count = pure count
  poll_orders connection connection_id now (summary ∷ rest) count = do
    sent ← poll_order connection connection_id now summary
    poll_orders connection connection_id now rest (if sent then suc count else count)

  unfoldable pub track_catchup_poll : CatchupPoll → M (Poller E) (Unit {0})
  track_catchup_poll event w =
      pure tt (record w { events = if deps.has_telemetry then event ∷ w.events else w.events })

  unfoldable pub set_cursor : (connection_id cursor : String) → M (Poller E) (Unit {0})
  set_cursor connection_id cursor = do
    _ ← on_outside deps.reach
    _ ← λ w.
        in_watermarks
          (Watermark.set deps.environment connection_id catchup_flow cursor (deps.now w.outside)) w
    pure tt

  unfoldable pub poll_page :
      CatchupConfig
      → Connection
      → (connection_id : String) → ℕ
      → (from_cursor : String) → M (Poller E) ConnectionCatchupOutcome
  poll_page config connection connection_id now from_cursor = do
    orders ← on_outside (deps.list_orders_updated_since connection from_cursor config.page_size)
    enqueued ← poll_orders connection connection_id now orders 0
    let new_cursor = last_updated orders (to_iso (now - config.overlap_seconds_on_empty * 1000))
    _ ← set_cursor connection_id new_cursor
    _ ← track_catchup_poll (record {
      environment = deps.environment;
      connection_id = connection_id;
      observed = length orders;
      enqueued = enqueued;
    })
    pure (polled connection_id (length orders) enqueued from_cursor new_cursor)

  unfoldable pub poll_found :
      CatchupConfig
      → Option Connection
      → (connection_id : String) → ℕ
      → M (Poller E) ConnectionCatchupOutcome
  poll_found config none connection_id now = pure (skipped connection_id)
  poll_found config (some connection) connection_id now = do
    _ ← on_outside deps.reach
    existing ← λ w. pure (Watermark.get deps.environment connection_id catchup_flow w.watermarks) w
    poll_page config connection connection_id now
        (from_cursor_of existing config.bootstrap_lookback_hours now)

  unfoldable pub poll_one_connection :
      CatchupConfig → (connection_id : String) → M (Poller E) ConnectionCatchupOutcome
  poll_one_connection config connection_id w =
      poll_found config (find_by_id deps.environment connection_id deps.connections) connection_id
        (deps.now w.outside) w

  unfoldable pub poll_ready :
      Bool → CatchupConfig → (connection_id : String) → M (Poller E) ConnectionCatchupOutcome
  poll_ready true config connection_id = poll_one_connection config connection_id
  poll_ready false config connection_id = pure (skipped connection_id)

  unfoldable pub poll_each :
      CatchupConfig → List Connection → M (Poller E) (List ConnectionCatchupOutcome)
  poll_each config [] = pure []
  poll_each config (connection ∷ rest) = do
    one ←
        poll_ready (deps.has_xref_store && deps.has_watermark_store) config connection.connection_id
    others ← poll_each config rest
    pure (one ∷ others)

  unfoldable pub poll_catchup : CatchupConfig → M (Poller E) (List ConnectionCatchupOutcome)
  poll_catchup config = poll_each config (list_enabled deps.environment deps.connections)
