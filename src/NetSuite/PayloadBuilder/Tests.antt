-- ===== src/NetSuite/PayloadBuilder/Tests.antt =====
-- The wrapping of references on a payload with a field of each kind.
use dp_integrator.Base.{
  ℕ, String, Option, some, none, List, [], ◌∷◌, M, ok, refl, ◌≡◌, false, includes,
}
use dp_integrator.Core.Types.{Connection}
use dp_integrator.Core.Sample.{sample_connection}
use dp_integrator.Shopify.Order.{ShopifyOrder, ShopifyLineItem}
use dp_integrator.Shopify.Sample.{test_order}
use dp_integrator.Engine.Mapping.{Mapping, constant, direct}
use dp_integrator.Base.Print.{string_of}
use dp_integrator.Base.Value.{Fields, end, field, str, num, null, undefined, arr, obj, cons, nil}
use dp_integrator.NetSuite.PayloadBuilder.{
  wrap_ns_references, wrap_ref, wrap_sublist, wrap_lines, wrap_line_refs, wrap_line_fields,
  wrap_value, wrap_plain, unless_null, put_kept, build_order_payload,
}
use dp_integrator.NetSuite.PayloadBuilder.Built.{Built, ctx, build_order_payload-Built}

abbrev raw : Fields
raw = field "subsidiary" (num false 4 0) (
    field "entity" (str "1207") (
      field "memo" null (
        field "location" undefined (
          field "item"
            (arr
              (cons (obj (field "item" (str "SKU-1") (field "quantity" (num false 2 0) end))) nil))
            end))))

wrapped :
    wrap_ns_references raw
    ≡ field "subsidiary" (obj (field "id" (str "4") end)) (
        field "entity" (obj (field "id" (str "1207") end)) (
          field "item"
            (obj (
              field "items"
                (arr (
                  cons
                    (obj (
                      field "item"
                        (obj (field "id" (str "SKU-1") end))
                        (field "quantity" (num false 2 0) end)))
                    nil))
                end))
            end))
unfolding wrap_ns_references wrap_ref wrap_sublist wrap_lines wrap_line_refs wrap_line_fields
    wrap_value wrap_plain unless_null put_kept includes string_of
wrapped = refl

abbrev connection : Connection
connection = record sample_connection { default_discount_item_id = some "55" }

abbrev headers : List Mapping
headers = constant (str "4") "subsidiary" ∷ direct "name" "tranId" ∷ direct "id" "externalId" ∷ []

abbrev pump : ShopifyLineItem
pump = record {
  id = "1";
  title = "Pump";
  variant_id = none;
  sku = some "PUMP";
  quantity = 2;
  original_unit_price = record { amount = "5.00"; currency_code = "USD" };
  discounted_total = record { amount = "10.00"; currency_code = "USD" };
  discount_allocations = [];
}

abbrev order : ShopifyOrder
order = record test_order { line_items = pump ∷ [] }

abbrev no_rows : String → String → M ℕ (Option String)
no_rows table key e = (ok none, e)

build_order_payload-Built_example :
    Built connection order "1207"
      (build_order_payload
        (ctx no_rows connection order "1207")
        connection
        order
        "1207"
        headers
        0).0
build_order_payload-Built_example =
    build_order_payload-Built no_rows connection order "1207" headers 0
