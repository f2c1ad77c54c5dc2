-- ===== src/Functions/Webhook/Tests.antt =====
-- A delivery of a shop whose signature is the secret itself.
use dp_integrator.Core.Sample.{sample_connection}
use dp_integrator.Base.{ℕ, ◌+◌, ◌≡◌, refl, some, [], ◌∷◌, ok}
use dp_integrator.Base.Dict.{get}
use dp_integrator.Base.Value.{str, obj, field, end, get_field}
use dp_integrator.Base.Text.{is_empty, to_lower}
use dp_integrator.Base.Print.{string_of}
use dp_integrator.Core.Types.{prod, environment_text}
use dp_integrator.Core.Queue.{empty_queue}
use dp_integrator.Core.Connections.{find_by_shop_domain, shop_key_for}
use dp_integrator.Shopify.Hmac.{verify_shopify_hmac, same_bytes}
use dp_integrator.Functions.Webhook.{
  NormalizedRequest, Deps, Receiver, enqueued, header, handle_shopify_webhook, with_headers,
  with_shop, by_enabled, with_secret, by_signature, with_body, with_id, id_of, id_text, persist,
  publish, tried,
}
use dp_integrator.Functions.Webhook.Enqueued.{IsAnswer, webhook-IsAnswer}

abbrev deps : Deps ℕ
deps = record {
  environment = prod;
  connections = record {
    by_shop = ("prod|store.example", sample_connection) ∷ [];
    by_id = ("prod|c1", sample_connection) ∷ [];
    all = sample_connection ∷ [];
  };
  crypto = record { hmac_sha256 = λ secret body. 1 ∷ 2 ∷ []; from_base64 = λ s. 1 ∷ 2 ∷ [] };
  parse_json = λ s. some (obj (field "id" (str "7") end));
  now = λ e. e;
  get_secret = λ name e. (ok "secret", e + 1);
  put_envelope = λ env e. (ok "blob://7", e + 1);
  reach_queue = λ e. (ok tt, e + 1);
}

abbrev req : NormalizedRequest
req = record {
  raw_body = "{\"id\":7}";
  headers =
      ("x-shopify-shop-domain", "Store.example")
      ∷ ("x-shopify-hmac-sha256", "AQI=")
      ∷ ("x-shopify-topic", "orders/create")
      ∷ [];
}

abbrev idle : Receiver ℕ
idle = record { queue = empty_queue; outside = 1000 }

accepted :
    ((handle_shopify_webhook deps req idle).0.reason ≡ enqueued)
    × ((handle_shopify_webhook deps req idle).0.order_gid ≡ some "gid://shopify/Order/7")
unfolding handle_shopify_webhook with_headers with_shop by_enabled with_secret by_signature
    with_body with_id id_of id_text persist publish tried get get_field is_empty to_lower string_of
    find_by_shop_domain shop_key_for environment_text verify_shopify_hmac same_bytes
accepted = (refl, refl)

webhook-IsAnswer_example :
    IsAnswer deps req idle
      (header "x-shopify-shop-domain" req.headers)
      (header "x-shopify-hmac-sha256" req.headers)
      (header "x-shopify-topic" req.headers)
      (handle_shopify_webhook deps req idle)
webhook-IsAnswer_example = webhook-IsAnswer deps req idle
