-- ===== src/NetSuite/Sample.antt =====
-- A payload that is two cents short of its order, and a NetSuite, for the tests.
use dp_integrator.NetSuite.Gateway.{NetSuiteGateway}
use dp_integrator.Base.{
  ℕ, suc, str_eq, if◌then◌else◌, ok, some, none, [], ◌∷◌, ◌≡◌, refl, true, false, Option,
}
use dp_integrator.Base.Int.{ℤ, pos, ◌+ℤ◌, ◌-ℤ◌}
use dp_integrator.Base.Search.{skip_all}
use dp_integrator.Base.Decimal.{parse_float, cents_of, round_cents}
use dp_integrator.Base.Value.{Value, num, str, obj, Fields, field, end, get_field}
use dp_integrator.Shopify.Order.{ShopifyOrder}
use dp_integrator.Shopify.Sample.{test_order}
use dp_integrator.NetSuite.Lines.{sublist, elements, items_of}
use dp_integrator.NetSuite.Balancing.{
  Totals, totals_of, ns_total, parse_amount, sum_amounts, add_amounts, add_amount,
}

abbrev pub order : ShopifyOrder
order = record test_order {
  total_price = record { amount = "12.34"; currency_code = "USD" };
  total_tax = record { amount = "2.00"; currency_code = "USD" };
  total_discounts = record { amount = "1.50"; currency_code = "USD" };
}

abbrev pub payload_of : Value → Fields
payload_of amount =
    field "item" (sublist (obj (field "amount" amount end) ∷ []))
      (field "shipping" (sublist (obj (field "amount" (str "1.82") end) ∷ [])) end)

abbrev pub totals : Option ℤ → Totals
totals lines = record {
  shopify = pos 1234;
  tax = pos 200;
  shipping = some (pos 182);
  lines = lines;
  discounts = pos 150;
}

pub reads : totals_of (payload_of (num false 1000 2)) order ≡ ok (totals (some (pos 1000)))
unfolding totals_of parse_amount sum_amounts add_amounts add_amount parse_float cents_of round_cents
    skip_all get_field elements items_of ◌+ℤ◌
reads = refl

pub short : ns_total (totals (some (pos 1000))) ≡ some (pos 1232)
unfolding ns_total ◌+ℤ◌ ◌-ℤ◌
short = refl

-- A NetSuite that knows one item.
abbrev pub one_item : NetSuiteGateway ℕ
one_item = record {
  upsert_by_external_id = λ account type id payload e. (
    ok (record { internal_id = "900"; external_id = id; created = true; raw_response = none }),
    suc e,
  );
  find_by_external_id = λ account type id fields e. (ok none, suc e);
  get_customer_addressbook = λ account customer field e. (ok [], suc e);
  resolve_item_id = λ account sku e. (ok (if str_eq sku "PUMP" then some "77" else none), suc e);
}
