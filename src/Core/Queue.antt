-- ===== src/Core/Queue.antt =====
-- packages/core/src/queue/queue.ts and the message of apps/functions/src/messages.ts, which
-- packages/core/src/replay/replay.ts mirrors. An id is its sequence number.
mod Tests
pub mod Message
use dp_integrator.Base.{ℕ, ◌+◌, String, Option, List, [], ◌∷◌, ◌++◌, M, pure}
use dp_integrator.Core.Types.{Environment}

pub data Source : Type 0 where
  webhook catchup replay : Source

-- `schemaVersion` is the literal 1. The environment is the text that stands on the wire.
pub record OrderWebhookMessage : Type 0 where
  pub environment : String
  pub connection_id : String
  pub shop_domain : String
  pub topic : String
  pub order_gid : String
  pub envelope_blob_uri : String
  pub received_at : String
  pub source : Option Source

pub record QueueMessage : Type 0 where
  pub id : ℕ
  pub session_id : Option String
  pub body : OrderWebhookMessage
  pub delivery_count : ℕ
  pub enqueued_at : ℕ

pub record Queue : Type 0 where
  pub buffer : List QueueMessage
  pub seq : ℕ

abbrev pub empty_queue : Queue
empty_queue = record { buffer = []; seq = 0 }

unfoldable pub enqueue : Option String → OrderWebhookMessage → ℕ → M Queue (Unit {0})
enqueue session_id body now q =
    let m : QueueMessage = record {
      id = q.seq + 1;
      session_id = session_id;
      body = body;
      delivery_count = 0;
      enqueued_at = now;
    } in
    pure tt (record { buffer = q.buffer ++ (m ∷ []); seq = q.seq + 1 })

unfoldable pub drain : M Queue (List QueueMessage)
drain q = pure q.buffer (record q { buffer = [] })
