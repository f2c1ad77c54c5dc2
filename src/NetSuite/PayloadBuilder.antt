-- ===== src/NetSuite/PayloadBuilder.antt =====
-- packages/netsuite-client/src/payload-builder.ts: the payload of an order. A payload is its fields.
pub mod Reads
pub mod Built
mod Tests
use Prim.Native.String.{◌++◌}
use dp_integrator.Base.{
  ℕ, String, Bool, true, false, ◌||◌, Option, none, some, List, [], ◌∷◌, M, pure, ◌>>=◌, str_eq,
  includes, map, or_else, if◌then◌else◌, ◌==◌,
}
use dp_integrator.Base.Int.{ℤ, pos, abs}
use dp_integrator.Base.Decimal.{parse_float, fixed_cents, fixed2}
use dp_integrator.Base.Text.{truthy}
use dp_integrator.Base.Print.{string_of}
use dp_integrator.Base.Value.{
  Value, undefined, null, nan, bool, num, str, obj, arr, Fields, end, field, Items, nil, cons,
  get_field, set_field,
}
use dp_integrator.Core.Types.{Connection, sales_order, cash_sale}
use dp_integrator.Shopify.Order.{ShopifyOrder}
use dp_integrator.Shopify.OrderValue.{order_value}
use dp_integrator.Engine.MappingResult.{MappingResult, mapped, parked, ParkReason}
use dp_integrator.Engine.Mapping.{Mapping}
use dp_integrator.Engine.Evaluator.{EvaluatorContext, evaluate}
use dp_integrator.NetSuite.Lines.{elements}
use dp_integrator.NetSuite.DefaultOrderMap.{
  build_default_order_header_map, default_line_items_map, build_default_shipping_map,
}

-- `typeof value === 'object'` passes through; a text or number becomes a reference.
unfoldable pub wrap_ref : Value → Value
wrap_ref (str s) = obj (field "id" (str s) end)
wrap_ref (num negative digits decimals) =
    obj (field "id" (str (string_of (num negative digits decimals))) end)
wrap_ref nan = obj (field "id" (str "NaN") end)
wrap_ref v = v

abbrev pub header_ref_fields : List String
header_ref_fields =
    "subsidiary" ∷ "entity" ∷ "currency" ∷ "location" ∷ "orderStatus" ∷ "paymentMethod"
    ∷ "customForm" ∷ "terms" ∷ "employee" ∷ "salesRep" ∷ "nexus" ∷ "shipMethod" ∷ "discountItem"
    ∷ []

abbrev pub line_ref_fields : List String
line_ref_fields = "item" ∷ "taxCode" ∷ "location" ∷ "units" ∷ "price" ∷ "department" ∷ "class" ∷ []

unfoldable pub wrap_line_fields : Fields → Fields
wrap_line_fields end = end
wrap_line_fields (field k v rest) =
    field k (if includes k line_ref_fields then wrap_ref v else v) (wrap_line_fields rest)

unfoldable pub wrap_line_refs : Value → Value
wrap_line_refs (obj fs) = obj (wrap_line_fields fs)
wrap_line_refs v = v

unfoldable pub wrap_lines : Items → Items
wrap_lines nil = nil
wrap_lines (cons line lines) = cons (wrap_line_refs line) (wrap_lines lines)

-- `{ items: [...] }` of an array.
unfoldable pub wrap_sublist : Value → Value
wrap_sublist (arr lines) = obj (field "items" (arr (wrap_lines lines)) end)
wrap_sublist v = v

abbrev pub is_sublist : String → Bool
is_sublist key = str_eq key "item" || str_eq key "shipping"

unfoldable pub unless_null : Value → Option Value
unless_null null = none
unless_null v = some v

unfoldable pub wrap_plain : String → Value → Option Value
wrap_plain key v =
    if is_sublist key
    then some (wrap_sublist v)
    else if includes key header_ref_fields
    then some (wrap_ref v)
    else unless_null v

-- What a field becomes; `none` where it is left out.
unfoldable pub wrap_value : String → Value → Option Value
wrap_value key undefined = none
wrap_value key v = wrap_plain key v

unfoldable pub put_kept : String → Option Value → Fields → Fields
put_kept key none rest = rest
put_kept key (some v) rest = field key v rest

-- The entries of an object are in order and each key stands once, so the output has them in that order.
unfoldable pub wrap_ns_references : Fields → Fields
wrap_ns_references end = end
wrap_ns_references (field key v rest) = put_kept key (wrap_value key v) (wrap_ns_references rest)

-- The cents of `amount.toFixed(2)`, of an amount that is a number above zero.
unfoldable pub discount_amount : Value → Option ℤ
discount_amount (num false digits decimals) =
    if digits == 0 then none else some (pos (fixed_cents digits decimals))
discount_amount v = none

unfoldable pub discount_fields : Connection → ShopifyOrder → Option ℤ → MappingResult Fields
discount_fields connection order none = mapped end
discount_fields connection order (some cents) = elim (truthy connection.default_discount_item_id) [
  | none ↦ parked (record {
    detail =
        "order carries totalDiscounts="
        ++ (fixed2 cents
            ++ (" "
                ++ (order.total_discounts.currency_code
                    ++ (" but connection '"
                        ++ (connection.connection_id
                            ++ "' has no defaultDiscountItemId — set the NS Discount item internal id on the connection (must be \"Apply Before Tax\") and replay")))));
    construct = some "order_discount";
    evidence = none;
  })
  | some item ↦
      mapped (field "discountItem" (str item) (field "discountRate" (num true (abs cents) 2) end))
]

unfoldable pub map_order_discount : Connection → ShopifyOrder → MappingResult Fields
map_order_discount connection order =
    discount_fields connection order (discount_amount (parse_float order.total_discounts.amount))

unfoldable pub netsuite_order_record_type : Connection → String
netsuite_order_record_type connection = elim connection.order_target [
  | sales_order ↦ "salesorder"
  | cash_sale ↦ "cashsale"
]

-- `{ ...fs, ...more }`.
unfoldable pub spread : Fields → Fields → Fields
spread fs end = fs
spread fs (field k v rest) = spread (set_field k v fs) rest

abbrev pub is_text : Value → Bool
is_text (str s) = true
is_text v = false

-- The first of the required fields that the header lacks.
unfoldable pub lacking : List String → Fields → Option String
lacking [] header = none
lacking (key ∷ keys) header =
    if is_text (get_field key header) then lacking keys header else some key

abbrev pub required_fields : List String
required_fields = "subsidiary" ∷ "externalId" ∷ "tranId" ∷ []

unfoldable pub set_shipping : Value → Fields → Fields
set_shipping (arr (cons line lines)) raw = set_field "shipping" (arr (cons line lines)) raw
set_shipping v raw = raw

unfoldable pub raw_payload :
    (header : Fields)
    → (customer_internal_id : String) → (items shipping : Value) → (discount : Fields) → Fields
raw_payload header customer items shipping discount =
    spread
      (set_shipping shipping (set_field "item" items (set_field "entity" (str customer) header)))
      discount

abbrev park_with : {A : Type 0} → (detail construct : String) → MappingResult A
park_with detail construct =
    parked (record { detail = detail; construct = some construct; evidence = none })

unfoldable pub with_discount :
    (header : Fields)
    → (customer_internal_id : String) → (items shipping : Value) → MappingResult Fields
    → MappingResult Fields
with_discount header customer items shipping (parked reason) = parked reason
with_discount header customer items shipping (mapped discount) =
    mapped (wrap_ns_references (raw_payload header customer items shipping discount))

unfoldable pub with_required :
    Connection
    → ShopifyOrder
    → (header : Fields) → (customer_internal_id : String) → (items shipping : Value) → Option String
    → MappingResult Fields
with_required connection order header customer items shipping (some key) =
    park_with (key ++ " missing from header map") key
with_required connection order header customer items shipping none =
    with_discount header customer items shipping (map_order_discount connection order)

-- `linesResult.payload['item']`.
unfoldable pub by_items : Value → MappingResult Items
by_items (arr nil) = park_with "order has no mappable line items" "lineItems"
by_items (arr (cons line lines)) = mapped (cons line lines)
by_items v = park_with "line items derive returned non-array" "shopifyLineToItemLine"

unfoldable pub or_park :
    {E A B : Type 0} → (A → M E (MappingResult B)) → MappingResult A → M E (MappingResult B)
or_park f (parked reason) = pure (parked reason)
or_park f (mapped a) = f a

module _ {E : Type 0} (ctx : EvaluatorContext E) (connection : Connection) (order : ShopifyOrder)
    (customer_internal_id : String) where
  unfoldable pub with_shipping : (header : Fields) → Items → Fields → M E (MappingResult Fields)
  with_shipping header items shipping = pure (
      with_required connection order header customer_internal_id (arr items)
        (get_field "shipping" shipping) (lacking required_fields header))

  unfoldable pub with_items : (header : Fields) → Items → M E (MappingResult Fields)
  with_items header items =
      evaluate ctx (order_value order) (build_default_shipping_map connection ∷ [])
      >>= or_park (with_shipping header items)

  unfoldable pub with_header : Fields → M E (MappingResult Fields)
  with_header header =
      evaluate ctx (order_value order) (default_line_items_map ∷ [])
      >>= or_park (λ lines. or_park (with_items header) (by_items (get_field "item" lines)))

  -- `headers` is the `headerOverride`, or else the default map.
  unfoldable pub build_order_payload : List Mapping → M E (MappingResult Fields)
  build_order_payload headers = evaluate ctx (order_value order) headers >>= or_park with_header
