-- ===== src/Core/Replay.antt =====
-- packages/core/src/replay/replay.ts: an operator sends an order through the import once more. `now` is
-- the time of the request's clock, with which the clock of the queue agrees.
mod Tests
pub mod Matrix
use Prim.Native.String.{◌++◌}
use dp_integrator.Base.{
  ℕ, String, Bool, true, false, not, ◌&&◌, Option, none, some, M, Result, ok, throws, pure, ◌>>=◌,
  or_else, if◌then◌else◌,
}
use dp_integrator.Base.Time.{encode_uri_component, to_iso}
use dp_integrator.Core.Types.{Environment, Connection, environment_text, order, shopify}
use dp_integrator.Core.DedupKey.{DedupKeyParts}
use dp_integrator.Core.Xref.{
  XrefStore, XrefRow, XrefStatus, synced, lookup, remove, status_of, target_of,
}
use dp_integrator.Core.Queue.{Queue, OrderWebhookMessage, replay, enqueue}
use dp_integrator.Core.Connections.{ConnectionsRepo, find_by_id}

pub record ReplayRequest : Type 0 where
  pub environment : Environment
  pub connection_id : String
  pub order_gid : String
  pub topic : Option String
  pub force : Option Bool
  pub now : ℕ

-- `none` as the previous status is `absent`.
pub data ReplayOutcome : Type 0 where
  replayed : (previous_status : Option XrefStatus) → (session_id : String) → ReplayOutcome
  refused_already_synced : (target_id : Option String) → ReplayOutcome
  unknown_connection : (connection_id : String) → ReplayOutcome

-- The two stores that a replay changes.
pub record Stores : Type 0 where
  pub xref : XrefStore
  pub queue : Queue

abbrev on_xref : {A : Type 0} → M XrefStore A → M Stores A
on_xref m s = let (r, x) = m s.xref in (r, record s { xref = x })

abbrev on_queue : {A : Type 0} → M Queue A → M Stores A
on_queue m s = let (r, q) = m s.queue in (r, record s { queue = q })

-- The dedup key of an order of Shopify.
unfoldable pub order_parts : Environment → String → String → DedupKeyParts
order_parts env connection_id gid = record {
  environment = env;
  connection_id = connection_id;
  entity_type = order;
  source_system = shopify;
  source_id = gid;
}

unfoldable pub replay_body : ReplayRequest → Connection → OrderWebhookMessage
replay_body req connection = record {
  environment = environment_text req.environment;
  connection_id = req.connection_id;
  shop_domain = connection.shopify_store;
  topic = or_else req.topic "orders/updated";
  order_gid = req.order_gid;
  envelope_blob_uri =
      "replay://dpi/"
      ++ (environment_text req.environment
          ++ ("/"
              ++ (req.connection_id
                  ++ ("/" ++ (encode_uri_component req.order_gid ++ ("/" ++ to_iso req.now))))));
  received_at = to_iso req.now;
  source = some replay;
}

abbrev is_synced : XrefStatus → Bool
is_synced synced = true
is_synced _ = false

-- `existing?.status === 'synced' && !req.force`.
unfoldable pub refuses : Option XrefRow → Option Bool → Bool
refuses none force = false
refuses (some row) force = is_synced row.status && not (or_else force false)

unfoldable pub session_id_of : String → String → String
session_id_of connection_id gid = connection_id ++ (":" ++ gid)

-- `if (existing) await deps.xrefStore.delete(dedup)`.
unclaim : DedupKeyParts → Option XrefRow → M Stores (Option XrefRow)
unclaim parts none = pure none
unclaim parts (some row) = on_xref (remove parts)

unfoldable pub publish : ReplayRequest → Connection → Option XrefRow → M Stores ReplayOutcome
unfolding unclaim
publish req connection existing = do
  _ ← unclaim (order_parts req.environment req.connection_id req.order_gid) existing
  _ ← on_queue (
      enqueue (some (session_id_of req.connection_id req.order_gid)) (replay_body req connection)
        req.now)
  pure (replayed (status_of existing) (session_id_of req.connection_id req.order_gid))

replay_known : ReplayRequest → Connection → M Stores ReplayOutcome
replay_known req connection = do
  existing ← on_xref (lookup (order_parts req.environment req.connection_id req.order_gid))
  if refuses existing req.force
      then pure (refused_already_synced (target_of existing))
      else publish req connection existing

found_connection : ReplayRequest → Option Connection → M Stores ReplayOutcome
unfolding replay_known
found_connection req none = pure (unknown_connection req.connection_id)
found_connection req (some connection) = replay_known req connection

unfoldable pub request_replay : ConnectionsRepo → ReplayRequest → M Stores ReplayOutcome
unfolding found_connection
request_replay connections req =
    found_connection req (find_by_id req.environment req.connection_id connections)
