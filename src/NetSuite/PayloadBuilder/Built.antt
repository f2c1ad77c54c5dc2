-- ===== src/NetSuite/PayloadBuilder/Built.antt =====
-- What a payload that is built holds, with the derivations of packages/netsuite-client/src/derive-fns.ts.
use dp_integrator.Base.{
  String, true, false, Option, none, some, List, [], M, Result, ok, throws, map, resume, ◌≡◌, ◌⊎◌,
  inl, inr, refl, ap, subst, ◌∙◌, sym, str_eq, includes, arith,
}
use dp_integrator.Base.Int.{ℤ, abs}
use dp_integrator.Base.Decimal.{parse_float}
use dp_integrator.Base.Text.{truthy}
use dp_integrator.Base.Value.{
  Value, num, str, obj, arr, Fields, end, field, Items, nil, cons, get_field, set_field,
  get_field-set_field,
}
use dp_integrator.Core.Types.{Connection}
use dp_integrator.Shopify.Order.{ShopifyOrder}
use dp_integrator.Shopify.OrderValue.{order_value}
use dp_integrator.Engine.MappingResult.{MappingResult, mapped, parked}
use dp_integrator.Engine.Mapping.{Mapping}
use dp_integrator.Engine.Evaluator.{EvaluatorContext, evaluate}
use dp_integrator.NetSuite.Lines.{items_of, lines_of, array_of, field_of}
use dp_integrator.NetSuite.DeriveFns.{default_derive_registry, shopify_line_to_item_line}
use dp_integrator.NetSuite.PayloadBuilder.Reads.{
  wrap_ns_references-get_field, line_of, lines_result, elements-wrap_lines, set_shipping-get_field,
}
use dp_integrator.NetSuite.PayloadBuilder.{
  wrap_ref, wrap_sublist, wrap_plain, wrap_value, unless_null, wrap_ns_references, discount_amount,
  discount_fields, map_order_discount, spread, set_shipping, raw_payload, with_discount,
  with_required, by_items, or_park, with_shipping, with_items, with_header, build_order_payload,
  lacking, required_fields,
}

-- A discount of the order is booked on the discount item of the connection, and only there.
abbrev pub Discounted : Connection → ShopifyOrder → Fields → Type 0
Discounted connection order p =
    (discount_amount (parse_float order.total_discounts.amount) ≡ none)
    ⊎ ((cents : ℤ) × (item : String) × (discount_amount (parse_float order.total_discounts.amount)
          ≡ some cents)
        × (truthy connection.default_discount_item_id ≡ some item)
        × (get_field "discountItem" p ≡ obj (field "id" (str item) end))
        × (get_field "discountRate" p ≡ num true (abs cents) 2))

abbrev pub Built : Connection → ShopifyOrder → String → Result (MappingResult Fields) → Type 0
Built connection order customer (ok (mapped p)) =
    ((order.line_items ≡ []) → ⊥)
    × (lines_of "item" p ≡ map line_of order.line_items)
    × (get_field "entity" p ≡ obj (field "id" (str customer) end))
    × Discounted connection order p
Built connection order customer (ok (parked r)) = Unit
Built connection order customer (throws e) = Unit

-- The fields of a discount: none, or its item and its rate.
abbrev DiscountOf : Connection → ShopifyOrder → Fields → Type 0
DiscountOf connection order d =
    ((discount_amount (parse_float order.total_discounts.amount) ≡ none) × (d ≡ end))
    ⊎ ((cents : ℤ) × (item : String) × (discount_amount (parse_float order.total_discounts.amount)
          ≡ some cents)
        × (truthy connection.default_discount_item_id ≡ some item)
        × (d ≡ field "discountItem" (str item) (field "discountRate" (num true (abs cents) 2) end)))

map_order_discount-DiscountOf :
    (connection : Connection) (order : ShopifyOrder) (d : Fields)
    → map_order_discount connection order ≡ mapped d
    → DiscountOf connection order d
unfolding map_order_discount discount_fields
map_order_discount-DiscountOf connection order d h =
    by_amount (discount_amount (parse_float order.total_discounts.amount)) refl h
  where
    by_item :
        (cents : ℤ) (o : Option String)
        → discount_amount (parse_float order.total_discounts.amount) ≡ some cents
        → truthy connection.default_discount_item_id ≡ o
        → discount_fields connection order (some cents) ≡ mapped d
        → DiscountOf connection order d
    by_item cents none n t e = ground (arith, e, t)
    by_item cents (some item) n t e = inr (cents, item, n, t, ground (arith, e, t))

    by_amount :
        (o : Option ℤ)
        → discount_amount (parse_float order.total_discounts.amount) ≡ o
        → discount_fields connection order o ≡ mapped d
        → DiscountOf connection order d
    by_amount none n e = inl (n, sym (ground arith))
    by_amount (some cents) n e = by_item cents _ n refl e

-- A field that the discount does not set.
spread-DiscountOf :
    (connection : Connection) (order : ShopifyOrder) (d : Fields) (key : String) (raw : Fields)
    → DiscountOf connection order d
    → str_eq "discountItem" key ≡ false
    → str_eq "discountRate" key ≡ false
    → get_field key (spread raw d) ≡ get_field key raw
unfolding spread
spread-DiscountOf connection order d key raw (inl (n, e)) a b = rw e refl
spread-DiscountOf connection order d key raw (inr (cents, item, n, t, e)) a b =
    rw e (rw get_field-set_field (rw b (rw get_field-set_field (rw a refl))))

module _ (connection : Connection) (order : ShopifyOrder) (customer : String) (header : Fields)
    (items shipping : Value) (d : Fields) (of : DiscountOf connection order d) where
  raw_payload-item : get_field "item" (raw_payload header customer items shipping d) ≡ items
  unfolding raw_payload
  raw_payload-item =
      spread-DiscountOf connection order d "item" _ of refl refl
      ∙ (set_shipping-get_field "item" shipping _ refl
          ∙ get_field-set_field "item" "item" items (set_field "entity" (str customer) header))

  raw_payload-entity :
      get_field "entity" (raw_payload header customer items shipping d) ≡ str customer
  unfolding raw_payload
  raw_payload-entity =
      spread-DiscountOf connection order d "entity" _ of refl refl
      ∙ (set_shipping-get_field "entity" shipping _ refl
          ∙ (get_field-set_field "entity" "item" items (set_field "entity" (str customer) header)
              ∙ get_field-set_field "entity" "entity" (str customer) header))

module _ (connection : Connection) (order : ShopifyOrder) (customer : String) (header : Fields)
    (shipping : Value) where
  abbrev items : Value
  items = shopify_line_to_item_line end order

  abbrev sent : Fields → Fields
  sent d = wrap_ns_references (raw_payload header customer items shipping d)

  sent-item :
      (d : Fields)
      → DiscountOf connection order d
      → lines_of "item" (sent d) ≡ map line_of order.line_items
  unfolding wrap_value wrap_plain wrap_sublist shopify_line_to_item_line get_field
  sent-item d of =
      ap (λ (v : Value). array_of (field_of "items" v))
        (wrap_ns_references-get_field "item" (raw_payload header customer items shipping d) _ (
          ap (wrap_value "item")
            (raw_payload-item connection order customer header items shipping d of)))
      ∙ elements-wrap_lines order.line_items

  sent-entity :
      (d : Fields)
      → DiscountOf connection order d
      → get_field "entity" (sent d) ≡ obj (field "id" (str customer) end)
  unfolding wrap_value wrap_plain wrap_ref includes
  sent-entity d of =
      wrap_ns_references-get_field "entity" (raw_payload header customer items shipping d) _ (
        ap (wrap_value "entity")
          (raw_payload-entity connection order customer header items shipping d of))

  sent-Discounted :
      (d : Fields) → DiscountOf connection order d → Discounted connection order (sent d)
  unfolding wrap_value wrap_plain wrap_ref unless_null includes raw_payload spread
  sent-Discounted d (inl (n, e)) = inl n
  sent-Discounted d (inr (cents, item, n, t, e)) = inr (
    cents,
    item,
    n,
    t,
    subst (λ (d : Fields). get_field "discountItem" (sent d) ≡ obj (field "id" (str item) end))
        (sym e) item_sent,
    subst (λ (d : Fields). get_field "discountRate" (sent d) ≡ num true (abs cents) 2) (sym e)
        rate_sent,
  )
    where
      base : Fields
      base =
          set_shipping shipping (set_field "item" items (set_field "entity" (str customer) header))

      with_item : Fields
      with_item = set_field "discountItem" (str item) base

      rate : Value
      rate = num true (abs cents) 2

      both : Fields
      both = field "discountItem" (str item) (field "discountRate" (num true (abs cents) 2) end)

      item_sent : get_field "discountItem" (sent both) ≡ obj (field "id" (str item) end)
      item_sent = wrap_ns_references-get_field "discountItem" _ _ (
          ap (wrap_value "discountItem") (
            get_field-set_field "discountItem" "discountRate" rate with_item
            ∙ get_field-set_field "discountItem" "discountItem" (str item) base))

      rate_sent : get_field "discountRate" (sent both) ≡ num true (abs cents) 2
      rate_sent = wrap_ns_references-get_field "discountRate" _ _ (
          ap (wrap_value "discountRate")
            (get_field-set_field "discountRate" "discountRate" rate with_item))

  -- The last step, of the fields that the discount adds.
  with_discount-Built :
      (r : MappingResult Fields)
      → map_order_discount connection order ≡ r
      → ((order.line_items ≡ []) → ⊥)
      → Built connection order customer (ok (with_discount header customer items shipping r))
  unfolding with_discount
  with_discount-Built (parked p) h some_line = tt
  with_discount-Built (mapped d) h some_line =
      let of = map_order_discount-DiscountOf connection order d h in
      (some_line, sent-item d of, sent-entity d of, sent-Discounted d of)

  with_required-Built :
      (lacks : Option String)
      → ((order.line_items ≡ []) → ⊥)
      → Built connection order customer
          (ok (with_required connection order header customer items shipping lacks))
  unfolding with_required
  with_required-Built none some_line = with_discount-Built _ refl some_line
  with_required-Built (some key) some_line = tt

module _ {E : Type 0} (resolve : String → String → M E (Option String)) (connection : Connection)
    (order : ShopifyOrder) (customer : String) where
  abbrev pub ctx : EvaluatorContext E
  ctx = record { resolve = resolve; derives = default_derive_registry order }

  abbrev lines : Value
  lines = shopify_line_to_item_line end order

  abbrev IsBuilt : Result (MappingResult Fields) × E → Type 0
  IsBuilt r = Built connection order customer r.0

  with_items-Built :
      (header : Fields) (items : Items) (e : E)
      → arr items ≡ lines
      → ((order.line_items ≡ []) → ⊥)
      → IsBuilt (with_items ctx connection order customer header items e)
  unfolding with_items with_shipping or_park
  with_items-Built header items e same some_line =
      by_shipping (evaluate ctx (order_value order) _ e)
    where
      by_shipping :
          (r : Result (MappingResult Fields) × E)
          → IsBuilt (resume r (or_park (with_shipping ctx connection order customer header items)))
      by_shipping (ok (mapped s), t) =
          subst
            (λ (v : Value). Built connection order customer (
              ok (
                with_required connection order header customer v (get_field "shipping" s)
                  (lacking required_fields header))))
            (sym same)
            (with_required-Built connection order customer header (get_field "shipping" s) _
              some_line)
      by_shipping (ok (parked p), t) = tt
      by_shipping (throws x, t) = tt

  not_empty :
      (line : Value) (more : Items) → arr (cons line more) ≡ lines → (order.line_items ≡ []) → ⊥
  unfolding shopify_line_to_item_line items_of
  not_empty line more same empty = ground (arith, same, empty)

  by_items-Built :
      (header : Fields) (e : E) (v : Value)
      → v ≡ lines
      → IsBuilt (or_park (with_items ctx connection order customer header) (by_items v) e)
  unfolding or_park by_items
  by_items-Built header e (arr (cons line more)) same =
      with_items-Built header (cons line more) e same (not_empty line more same)
  by_items-Built header e (arr nil) same = tt
  by_items-Built header e v same = tt

  with_header-Built :
      (header : Fields) (e : E) → IsBuilt (with_header ctx connection order customer header e)
  unfolding with_header get_field or_park
  with_header-Built header e =
      rw (lines_result resolve order e) (by_items-Built header e lines refl)

  -- Whatever the header mappings and the lookup tables, a payload that is built, with the default
  -- derivations, is of an order with a line item; it has one line for each line item in their
  -- order, the customer as a reference, and, if the discount of the order is above zero, the
  -- discount item of the connection with the negated amount, so that no order with a discount is
  -- built for a connection without a discount item.
  pub build_order_payload-Built :
      (headers : List Mapping) (e : E)
      → Built connection order customer
          (build_order_payload ctx connection order customer headers e).0
  unfolding build_order_payload or_park
  build_order_payload-Built headers e = by_header (evaluate ctx (order_value order) headers e)
    where
      by_header :
          (r : Result (MappingResult Fields) × E)
          → Built connection order customer
              (resume r (or_park (with_header ctx connection order customer))).0
      by_header (ok (mapped header), s) = with_header-Built header s
      by_header (ok (parked p), s) = tt
      by_header (throws x, s) = tt
