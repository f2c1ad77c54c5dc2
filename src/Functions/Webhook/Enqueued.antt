-- ===== src/Functions/Webhook/Enqueued.antt =====
-- What stands behind an answer of the receiver.
use dp_integrator.Base.{
  ℕ, String, ◌≡◌, refl, ◌∙◌, ap, ◌⊎◌, inl, inr, Bool, true, false, Option, none, some, Result, ok,
  throws, ◌==◌,
}
use dp_integrator.Base.Value.{Value}
use dp_integrator.Core.Types.{Connection}
use dp_integrator.Core.Queue.{Queue, enqueue}
use dp_integrator.Core.Connections.{find_by_shop_domain}
use dp_integrator.Core.Replay.{session_id_of}
use dp_integrator.Shopify.Hmac.{verify_shopify_hmac}
use dp_integrator.Functions.Webhook.{
  NormalizedRequest, WebhookOutcome, Deps, Receiver, Answer, tried, header, message_for, publish,
  persist, with_id, with_body, by_signature, with_secret, by_enabled, with_shop, with_headers,
  handle_shopify_webhook,
}

module _ {E : Type 0} (deps : Deps E) (req : NormalizedRequest) where
  -- The queue is as it was, and the answer is not 200.
  abbrev pub IsRefused : Queue → Answer E → Type 0
  IsRefused q a = (a.1.queue ≡ q) × ((a.0.status == 200) ≡ false)

  -- The answer is 200, and the queue holds one message more, for the order that the outcome names.
  abbrev pub IsSent : Queue → (shop hmac topic : String) → Connection → Answer E → Type 0
  IsSent q shop hmac topic connection a =
      (a.0.status ≡ 200)
      × ((gid : String) × (uri : String) × (received_at : ℕ) × (now : ℕ) × (a.0.order_gid
            ≡ some gid)
          × (a.0.envelope_uri ≡ some uri)
          × (a.1.queue
              ≡ (enqueue (some (session_id_of connection.connection_id gid))
                  (message_for deps req shop hmac topic connection gid uri received_at) now q).1))

  -- Of an enabled connection of the shop, and a body that bears the signature of its secret.
  abbrev pub IsVerified : Receiver E → (shop hmac topic : String) → Answer E → Type 0
  IsVerified w shop hmac topic a =
      (connection : Connection) × (secret : String) × (find_by_shop_domain deps.environment shop
          deps.connections
        ≡ some connection)
      × (connection.enabled ≡ true)
      × ((deps.get_secret connection.shopify_webhook_secret_ref w.outside).0 ≡ ok secret)
      × (verify_shopify_hmac deps.crypto req.raw_body hmac secret ≡ true)
      × IsSent w.queue shop hmac topic connection a

  tried_cases :
      {A : Type 0} (P : Answer E → Type 0) (r : Result A × E) (q : Queue) (o : WebhookOutcome)
      (f : A → Receiver E → Answer E)
      → ((v : Receiver E) → v.queue ≡ q → P (o, v))
      → ((a : A) (v : Receiver E) → r.0 ≡ ok a → v.queue ≡ q → P (f a v))
      → P (tried r q o f)
  unfolding tried
  tried_cases P (ok a, e) q o f h k = k a _ refl refl
  tried_cases P (throws x, e) q o f h k = h _ refl

  module _ (shop hmac topic : String) (connection : Connection) (q : Queue) where
    abbrev Either : Answer E → Type 0
    Either a = IsRefused q a ⊎ IsSent q shop hmac topic connection a

    publish-Either :
        (gid uri : String) (at : ℕ) (w : Receiver E)
        → w.queue ≡ q
        → Either (publish deps req shop hmac topic connection gid uri at w)
    unfolding publish
    publish-Either gid uri at w h =
        tried_cases Either _ _ _ _ (λ v e. inl (e ∙ h, refl))
          (λ _ v _ e. inr (
            refl,
            (
              gid,
              uri,
              at,
              deps.now v.outside,
              refl,
              refl,
              ap
                  (λ x.
                    (enqueue (some (session_id_of connection.connection_id gid))
                      (message_for deps req shop hmac topic connection gid uri at)
                      (deps.now v.outside) x).1)
                  (e ∙ h),
            ),
          ))

    persist-Either :
        (gid : String) (w : Receiver E)
        → w.queue ≡ q
        → Either (persist deps req shop hmac topic connection gid w)
    unfolding persist
    persist-Either gid w h =
        tried_cases Either _ _ _ _ (λ v e. inl (e ∙ h, refl))
          (λ uri v _ e. publish-Either gid uri _ v (e ∙ h))

    with_id-Either :
        (id : Option String) (w : Receiver E)
        → w.queue ≡ q
        → Either (with_id deps req shop hmac topic connection id w)
    unfolding with_id
    with_id-Either none w h = inl (h, refl)
    with_id-Either (some id) w h = persist-Either _ w h

    with_body-Either :
        (v : Option Value) (w : Receiver E)
        → w.queue ≡ q
        → Either (with_body deps req shop hmac topic connection v w)
    unfolding with_body
    with_body-Either none w h = inl (h, refl)
    with_body-Either (some v) w h = with_id-Either _ w h

  module _ (shop hmac topic : String) (u : Receiver E) where
    abbrev Verdict : Answer E → Type 0
    Verdict a = IsRefused u.queue a ⊎ IsVerified u shop hmac topic a

    by_signature-Verdict :
        (c : Connection) (secret : String) (b : Bool) (w : Receiver E)
        → find_by_shop_domain deps.environment shop deps.connections ≡ some c
        → c.enabled ≡ true
        → (deps.get_secret c.shopify_webhook_secret_ref u.outside).0 ≡ ok secret
        → verify_shopify_hmac deps.crypto req.raw_body hmac secret ≡ b
        → w.queue ≡ u.queue
        → Verdict (by_signature deps req shop hmac topic c b w)
    unfolding by_signature
    by_signature-Verdict c secret false w f e g s h = inl (h, refl)
    by_signature-Verdict c secret true w f e g s h =
        elim (with_body-Either shop hmac topic c u.queue (deps.parse_json req.raw_body) w h) [
          | inl r ↦ inl r
          | inr sent ↦ inr (c, secret, f, e, g, s, sent)
        ]

    by_enabled-Verdict :
        (c : Connection) (b : Bool)
        → find_by_shop_domain deps.environment shop deps.connections ≡ some c
        → c.enabled ≡ b
        → Verdict (by_enabled deps req shop hmac topic c b u)
    unfolding by_enabled with_secret
    by_enabled-Verdict c false f e = inl (refl, refl)
    by_enabled-Verdict c true f e =
        tried_cases Verdict _ _ _ _ (λ v i. inl (i, refl))
          (λ secret v g i. by_signature-Verdict c secret _ v f e g refl i)

    with_shop-Verdict :
        (o : Option Connection)
        → find_by_shop_domain deps.environment shop deps.connections ≡ o
        → Verdict (with_shop deps req shop hmac topic o u)
    unfolding with_shop
    with_shop-Verdict none f = inl (refl, refl)
    with_shop-Verdict (some c) f = by_enabled-Verdict c c.enabled f refl

  -- Behind an answer: a refusal, or the three headers with what they stand for.
  abbrev pub IsAnswer : Receiver E → (shop hmac topic : Option String) → Answer E → Type 0
  IsAnswer w (some shop) (some hmac) (some topic) a =
      IsRefused w.queue a ⊎ IsVerified w shop hmac topic a
  IsAnswer w _ _ _ a = IsRefused w.queue a

  headers-IsAnswer :
      (shop hmac topic : Option String) (w : Receiver E)
      → IsAnswer w shop hmac topic (with_headers deps req shop hmac topic w)
  unfolding with_headers
  headers-IsAnswer (some shop) (some hmac) (some topic) w =
      with_shop-Verdict shop hmac topic w _ refl
  headers-IsAnswer none hmac topic w = (refl, refl)
  headers-IsAnswer (some shop) none topic w = (refl, refl)
  headers-IsAnswer (some shop) (some hmac) none w = (refl, refl)

  -- An answer of the webhook receiver is 200 only if all three headers are there, the connection of
  -- the shop is enabled, the body bears the signature of the secret that its reference gives, and
  -- the queue holds one message more than before, for the order and the envelope that the outcome
  -- names; else the queue is as it was.
  pub webhook-IsAnswer :
      (w : Receiver E)
      → IsAnswer w
          (header "x-shopify-shop-domain" req.headers)
          (header "x-shopify-hmac-sha256" req.headers)
          (header "x-shopify-topic" req.headers)
          (handle_shopify_webhook deps req w)
  unfolding handle_shopify_webhook
  webhook-IsAnswer w = headers-IsAnswer _ _ _ w
