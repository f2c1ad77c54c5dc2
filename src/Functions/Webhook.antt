-- ===== src/Functions/Webhook.antt =====
-- apps/functions/src/triggers/shopify-webhook.ts: verify, persist, enqueue. `E` is the state of the
-- systems outside: the secrets, the blob storage, the bus and the clock.
pub mod Enqueued
mod Tests
use Prim.Native.String.{◌++◌}
use dp_integrator.Base.{
  ℕ, String, Bool, true, false, Option, none, some, Result, ok, throws, M, if◌then◌else◌,
}
use dp_integrator.Base.Dict.{Dict, get}
use dp_integrator.Base.Value.{Value, undefined, null, obj, get_field}
use dp_integrator.Base.Text.{is_empty}
use dp_integrator.Base.Time.{to_iso}
use dp_integrator.Base.Print.{string_of}
use dp_integrator.Core.Types.{Connection, Environment, environment_text}
use dp_integrator.Core.Queue.{OrderWebhookMessage, Queue, webhook, enqueue}
use dp_integrator.Core.Connections.{ConnectionsRepo, find_by_shop_domain}
use dp_integrator.Core.Replay.{session_id_of}
use dp_integrator.Shopify.Hmac.{Crypto, verify_shopify_hmac}

pub record NormalizedRequest : Type 0 where
  pub raw_body : String
  pub headers : Dict String

pub data Reason : Type 0 where
  enqueued missing_shopify_headers unknown_or_disabled_shop invalid_hmac body_not_json : Reason
  body_missing_id secret_lookup_failed envelope_persist_failed enqueue_failed : Reason

pub record WebhookOutcome : Type 0 where
  pub status : ℕ
  pub reason : Reason
  pub connection_id : Option String
  pub order_gid : Option String
  pub envelope_uri : Option String

-- What is kept of a delivery.
pub record Envelope : Type 0 where
  pub environment : Environment
  pub connection_id : String
  pub shop_domain : String
  pub topic : String
  pub order_gid : String
  pub hmac : String
  pub request : NormalizedRequest
  pub received_at : ℕ

-- `WebhookDeps`. The calls may throw; `reach_queue` is the way to the bus. `parse_json` is
-- `JSON.parse`, `none` where that throws.
pub record Deps (E : Type 0) : Type 0 where
  pub environment : Environment
  pub connections : ConnectionsRepo
  pub crypto : Crypto
  pub parse_json : String → Option Value
  pub now : E → ℕ
  pub get_secret : String → M E String
  pub put_envelope : Envelope → M E String
  pub reach_queue : M E (Unit {0})

pub record Receiver (E : Type 0) : Type 0 where
  pub queue : Queue
  pub outside : E

abbrev pub Answer : Type 0 → Type 0
Answer E = WebhookOutcome × Receiver E

abbrev pub outcome : ℕ → Reason → Option String → WebhookOutcome
outcome status reason connection_id = record {
  status = status;
  reason = reason;
  connection_id = connection_id;
  order_gid = none;
  envelope_uri = none;
}

-- `try { … } catch { return o }` around a call of the systems outside.
unfoldable pub tried :
    {E A : Type 0} → Result A × E → Queue → WebhookOutcome → (A → Receiver E → Answer E) → Answer E
tried (ok a, e) q o f = f a (record { queue = q; outside = e })
tried (throws x, e) q o f = (o, record { queue = q; outside = e })

-- A header or text that is there and not empty.
abbrev pub filled : String → Option String
filled s = if is_empty s then none else some s

abbrev pub header : String → Dict String → Option String
header name headers = elim (get name headers) [ none ↦ none | some s ↦ filled s ]

unfoldable pub id_of : Value → Value
id_of (obj fs) = get_field "id" fs
id_of v = undefined

unfoldable pub id_text : Value → Option String
id_text undefined = none
id_text null = none
id_text v = filled (string_of v)

module _ {E : Type 0} (deps : Deps E) (req : NormalizedRequest)
    (shop_domain hmac topic : String) where
  unfoldable pub message_for : Connection → (order_gid uri : String) → ℕ → OrderWebhookMessage
  message_for connection order_gid uri received_at = record {
    environment = environment_text deps.environment;
    connection_id = connection.connection_id;
    shop_domain = shop_domain;
    topic = topic;
    order_gid = order_gid;
    envelope_blob_uri = uri;
    received_at = to_iso received_at;
    source = some webhook;
  }

  -- Once the envelope is stored: the message goes to the bus.
  unfoldable pub publish : Connection → (order_gid uri : String) → ℕ → Receiver E → Answer E
  publish connection order_gid uri received_at w =
      tried (deps.reach_queue w.outside) w.queue
        (record (outcome 500 enqueue_failed (some connection.connection_id)) {
          order_gid = some order_gid;
          envelope_uri = some uri;
        })
        (λ _ v. (
          record (outcome 200 enqueued (some connection.connection_id)) {
            order_gid = some order_gid;
            envelope_uri = some uri;
          },
          record v {
            queue =
                (enqueue (some (session_id_of connection.connection_id order_gid))
                  (message_for connection order_gid uri received_at) (deps.now v.outside)
                  v.queue).1;
          },
        ))

  unfoldable pub persist : Connection → String → Receiver E → Answer E
  persist connection order_gid w =
      let received_at = deps.now w.outside in
      tried
        (deps.put_envelope
          (record {
            environment = deps.environment;
            connection_id = connection.connection_id;
            shop_domain = shop_domain;
            topic = topic;
            order_gid = order_gid;
            hmac = hmac;
            request = req;
            received_at = received_at;
          })
          w.outside)
        w.queue
        (record (outcome 500 envelope_persist_failed (some connection.connection_id)) {
          order_gid = some order_gid;
        })
        (λ uri v. publish connection order_gid uri received_at v)

  unfoldable pub with_id : Connection → Option String → Receiver E → Answer E
  with_id connection none w = (outcome 400 body_missing_id (some connection.connection_id), w)
  with_id connection (some id) w = persist connection ("gid://shopify/Order/" ++ id) w

  unfoldable pub with_body : Connection → Option Value → Receiver E → Answer E
  with_body connection none w = (outcome 400 body_not_json (some connection.connection_id), w)
  with_body connection (some v) w = with_id connection (id_text (id_of v)) w

  -- The signature comes before anything that is read of the body.
  unfoldable pub by_signature : Connection → Bool → Receiver E → Answer E
  by_signature connection true w = with_body connection (deps.parse_json req.raw_body) w
  by_signature connection false w = (outcome 401 invalid_hmac (some connection.connection_id), w)

  unfoldable pub with_secret : Connection → String → Receiver E → Answer E
  with_secret connection secret w =
      by_signature connection (verify_shopify_hmac deps.crypto req.raw_body hmac secret) w

  unfoldable pub by_enabled : Connection → Bool → Receiver E → Answer E
  by_enabled connection true w =
      tried (deps.get_secret connection.shopify_webhook_secret_ref w.outside) w.queue
        (outcome 500 secret_lookup_failed (some connection.connection_id))
        (λ secret v. with_secret connection secret v)
  by_enabled connection false w =
      (outcome 401 unknown_or_disabled_shop (some connection.connection_id), w)

  unfoldable pub with_shop : Option Connection → Receiver E → Answer E
  with_shop none w = (outcome 401 unknown_or_disabled_shop none, w)
  with_shop (some connection) w = by_enabled connection connection.enabled w

-- The three headers, or the refusal.
unfoldable pub with_headers :
    {E : Type 0}
    → Deps E
    → NormalizedRequest
    → (shop_domain hmac topic : Option String) → Receiver E
    → Answer E
with_headers deps req (some shop_domain) (some hmac) (some topic) w =
    with_shop deps req shop_domain hmac topic
      (find_by_shop_domain deps.environment shop_domain deps.connections) w
with_headers deps req _ _ _ w = (outcome 401 missing_shopify_headers none, w)

unfoldable pub handle_shopify_webhook :
    {E : Type 0} → Deps E → NormalizedRequest → Receiver E → Answer E
handle_shopify_webhook deps req w =
    with_headers deps req (header "x-shopify-shop-domain" req.headers)
      (header "x-shopify-hmac-sha256" req.headers) (header "x-shopify-topic" req.headers) w
