-- ===== src/Functions/OrderImport/Tests.antt =====
-- The handler on a concrete order, with systems outside that only count the calls made to them.
use dp_integrator.Core.Sample.{sample_connection}
use dp_integrator.Base.{
  ℕ, ◌+◌, ◌≤◌, String, ◌≡◌, refl, true, false, none, some, [], ◌∷◌, ok, throws, Thrown, plain_error,
  M, if◌then◌else◌, is_some,
}
use dp_integrator.Base.Dict.{get}
use dp_integrator.Base.Value.{end}
use dp_integrator.Base.Text.{has_char, is_empty, join, to_lower}
use dp_integrator.Base.Search.{contains, begins_with}
use dp_integrator.Core.Types.{Connection, prod, environment_text, entity_type_text, system_text}
use dp_integrator.Core.DedupKey.{DedupKeyParts, dedup_key, values, checked}
use dp_integrator.Core.Xref.{empty_store}
use dp_integrator.Core.Xref.Machine.{status_at}
use dp_integrator.Core.Errors.{transient}
use dp_integrator.Core.Queue.{OrderWebhookMessage, webhook}
use dp_integrator.Core.Queue.Message.{encode}
use dp_integrator.Core.OrderAttempt.{empty_attempts}
use dp_integrator.Core.Replay.{order_parts}
use dp_integrator.NetSuite.ErrorMapping.{is_network}
use dp_integrator.Shopify.Sample.{test_order}
use dp_integrator.Engine.Eligibility.{
  check_eligibility, default_options, ineligible, EligibilityReason,
}
use dp_integrator.Functions.Classification.{
  classify_handler_error, extract_http_status, class_of_status, class_of_text,
}
use dp_integrator.Functions.OrderImport.World.{
  AttemptContext, already_claimed, Deps, World, no_locals, staged,
}
use dp_integrator.Functions.OrderImport.Pipeline.{import_claimed, prepare}
use dp_integrator.Functions.OrderImport.Stages.{Stages, wired}
use dp_integrator.Functions.OrderImport.Stages.Prepared.{IsReady, prepare-IsReady}
use dp_integrator.NetSuite.Sample.{one_item}
use dp_integrator.Shopify.Order.{ShopifyOrder, ShopifyLineItem}
use dp_integrator.Functions.OrderImport.Handler.{parts_for, claim_order, gated, is_live_update}
use dp_integrator.Functions.OrderImport.Writes.{writes_of}
use dp_integrator.Functions.OrderImport.Writes.Once.{deliveries, deliveries_write_once}
use dp_integrator.Functions.OrderImport.Redelivery.{transient-already_claimed}
use dp_integrator.Functions.OrderImport.Books.{After}
use dp_integrator.Functions.OrderImport.Rows.{OneMore, claim_order-OneMore}
use dp_integrator.Functions.OrderImport.Unasked.{asking}
use dp_integrator.Functions.OrderImport.Refused.{ineligible_not_written}
use dp_integrator.Functions.OrderImport.Gate.{Gated, gated_update}

abbrev connection : Connection
connection = record sample_connection { write_tags_on_import = some true }

abbrev counts : {A : Type 0} → A → M ℕ A
counts a e = (ok a, e + 1)

-- Everything works, and the order is `test_order`.
abbrev deps : Deps ℕ
deps = record {
  environment = prod;
  connections = record {
    by_shop = ("prod|store.example", connection) ∷ [];
    by_id = ("prod|c1", connection) ∷ [];
    all = connection ∷ [];
  };
  archives = true;
  now = λ e. e;
  stack_of = λ e. none;
  reach = counts tt;
  get_order = λ c gid. counts test_order;
  tag_order = λ c gid tags. counts tt;
  upsert_by_external_id =
      λ call. counts (record { internal_id = "41"; created = true; raw_response = none });
  put = λ what where_. counts "blob://7";
  resolve_customer = λ c o. counts (record { internal_id = "5"; is_guest = true; created = false });
  build_order_payload = λ c o id. counts (staged end);
  apply_tax = λ c o p. ok p;
  apply_balancing = λ p o. ok (staged p);
  resolve_item_references = λ c p. counts (staged p);
}

abbrev reset : Thrown
reset = plain_error "read ECONNRESET"

-- The same with a Shopify that cannot be reached.
abbrev cut_off : Deps ℕ
cut_off = record deps { get_order = λ c gid e. (throws reset, e + 1) }

abbrev message : OrderWebhookMessage
message = record {
  environment = "prod";
  connection_id = "c1";
  shop_domain = "store.example";
  topic = "orders/updated";
  order_gid = "gid://shopify/Order/7";
  envelope_blob_uri = "blob://7";
  received_at = "2024-01-01T00:00:00.000Z";
  source = some webhook;
}

abbrev ctx : AttemptContext
ctx = record { delivery_count = 1; sb_message_id = none; sb_session_id = none; started_at = 0 }

abbrev start : World ℕ
start = record {
  xref = empty_store;
  errors = none;
  log = none;
  attempts = some empty_attempts;
  events = [];
  writes = [];
  locals = no_locals;
  outside = 0;
}

abbrev parts : DedupKeyParts
parts = parts_for prod connection message

abbrev key_7 : String
key_7 = "prod|c1|order|shopify|gid://shopify/Order/7"

keyed : dedup_key parts ≡ ok key_7
unfolding order_parts dedup_key values checked has_char is_empty join environment_text
    entity_type_text system_text
keyed = refl

fresh : status_at key_7 start.xref ≡ none
unfolding empty_store get
fresh = refl

abbrev pump : ShopifyLineItem
pump = record {
  id = "1";
  title = "Pump";
  variant_id = none;
  sku = some "PUMP";
  quantity = 2;
  original_unit_price = record { amount = "5.00"; currency_code = "USD" };
  discounted_total = record { amount = "10.00"; currency_code = "USD" };
  discount_allocations = [];
}

abbrev real_order : ShopifyOrder
real_order = record test_order { test = false; line_items = pump ∷ [] }

-- Everything works, and the order is `real_order`.
abbrev selling : Deps ℕ
selling = record deps { get_order = λ c gid. counts real_order }

-- The message of an order that is new.
abbrev creation : OrderWebhookMessage
creation = record message { topic = "orders/create" }

deliveries_write_once_example :
    writes_of key_7
      (deliveries selling ((encode creation, some ctx) ∷ (encode creation, none) ∷ []) start).writes
    ≤ writes_of key_7 start.writes + (if is_some (status_at key_7 start.xref) then 0 else 1)
deliveries_write_once_example =
    deliveries_write_once key_7 selling ((encode creation, some ctx) ∷ (encode creation, none) ∷ [])
      start

is_transient : classify_handler_error reset ≡ transient
unfolding classify_handler_error extract_http_status class_of_status class_of_text is_network
    contains to_lower begins_with
is_transient = refl

-- What the first delivery leaves.
abbrev left : World ℕ
left = (claim_order cut_off (some ctx) message connection start).1

transient-already_claimed_example :
    ((claim_order cut_off (some ctx) message connection start).0 ≡ throws reset)
    × ((claim_order cut_off (some ctx) message connection left).0
        ≡ ok (already_claimed "c1" "gid://shopify/Order/7"))
transient-already_claimed_example =
    transient-already_claimed cut_off message connection key_7 keyed (some ctx) (some ctx) start
      left 1 2 (left.outside + 1) reset refl refl is_transient fresh refl refl

claim_order-OneMore_example :
    OneMore empty_attempts (claim_order deps (some ctx) message connection start).1
claim_order-OneMore_example =
    claim_order-OneMore deps (λ e. refl) ctx connection message key_7 start empty_attempts keyed
      refl

-- The same with a NetSuite that creates a customer.
abbrev buying : Deps ℕ
buying = record deps {
  resolve_customer =
      λ c o e. (ok (record { internal_id = "6"; is_guest = false; created = true }), e + 7);
}

refused :
    check_eligibility test_order "orders/updated" default_options
    ≡ ineligible EligibilityReason.test_order none
unfolding check_eligibility
refused = refl

ineligible_not_written_example :
    ((import_claimed deps parts connection message (some ctx) start).1.writes ≡ [])
    × (import_claimed (asking buying deps) parts connection message (some ctx) start
        ≡ import_claimed deps parts connection message (some ctx) start)
ineligible_not_written_example =
    ineligible_not_written deps parts connection message (some ctx) buying test_order
      EligibilityReason.test_order none start refl refused

live : is_live_update message ≡ true
unfolding is_live_update
live = refl

gated_update_example :
    After
      (Gated deps connection message (some ctx) key_7 keyed)
      (gated deps (some ctx) message connection start)
    × ((gated deps (some ctx) message connection start).1.writes ≡ [])
    × (gated (asking buying deps) (some ctx) message connection start
        ≡ gated deps (some ctx) message connection start)
gated_update_example =
    gated_update deps connection message (some ctx) key_7 keyed buying start live fresh

-- The stages with a NetSuite that knows the pump.
abbrev stages : Stages ℕ
stages = record {
  ns = one_item;
  guest_customer_internal_id = "5";
  lookups_for = λ c table key. counts (some "1");
  extra_mappings = λ c. [];
}

-- A shop whose orders may carry a discount.
abbrev discounting : Connection
discounting = record connection { default_discount_item_id = some "55" }

prepare-IsReady_example :
    After
      (IsReady stages selling parts discounting message (some ctx))
      (prepare (wired stages selling) parts discounting message (some ctx) start)
prepare-IsReady_example = prepare-IsReady stages selling parts discounting message (some ctx) start
