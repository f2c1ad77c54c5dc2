-- ===== src/NetSuite/DeriveFns.antt =====
-- packages/netsuite-client/src/derive-fns.ts: the derivations of the default order map. Each takes the order
-- that it is evaluated on, which the code passes as the source.
use Prim.Native.String.{◌++◌}
use dp_integrator.Base.{
  ℕ, String, true, false, Option, none, some, M, Result, ok, throws, plain_error, lift, map,
  or_else, str_eq, if◌then◌else◌,
}
use dp_integrator.Base.Text.{is_empty}
use dp_integrator.Base.Time.{utc_day}
use dp_integrator.Base.Date.{parse_date}
use dp_integrator.Base.Decimal.{number_of_text}
use dp_integrator.Base.Print.{string_of}
use dp_integrator.Base.Search.{numeric_tail}
use dp_integrator.Base.Value.{
  Value, undefined, null, bool, num, str, obj, arr, Fields, end, field, get_field,
}
use dp_integrator.Shopify.Order.{ShopifyOrder, ShopifyLineItem, ShopifyShippingLine, ShopifyAddress}
use dp_integrator.Shopify.OrderValue.{order_value}
use dp_integrator.NetSuite.Address.{shopify_address_to_ns}
use dp_integrator.NetSuite.Lines.{items_of, field_of}

-- `args[key] ?? …` as a text.
abbrev text_of : Value → Option String
text_of (str s) = some s
text_of v = none

abbrev date_of : (field raw : String) → Option ℕ → Result Value
date_of name raw none =
    throws (plain_error ("parseShopifyDate: '" ++ (name ++ ("' is not a valid ISO date: " ++ raw))))
date_of name raw (some ms) = ok (str (utc_day ms))

unfoldable pub date_field : (field : String) → Value → Result Value
date_field name (str raw) = if is_empty raw then ok null else date_of name raw (parse_date raw)
date_field name v = ok null

-- `String(args['field'] ?? '')`.
abbrev field_name : Value → String
field_name undefined = ""
field_name null = ""
field_name v = string_of v

unfoldable pub parse_shopify_date : Fields → ShopifyOrder → Result Value
parse_shopify_date args order =
    if is_empty (field_name (get_field "field" args))
    then throws (plain_error "parseShopifyDate: args.field is required")
    else date_field (field_name (get_field "field" args))
        (field_of (field_name (get_field "field" args)) (order_value order))

unfoldable pub build_line : (default_item_id : Option String) → ShopifyLineItem → Value
build_line default_item_id line = obj (
    field "item" (str (or_else default_item_id (or_else line.sku "UNMAPPED-ITEM"))) (
      field "quantity" (num false line.quantity 0) (
        field "rate" (number_of_text line.original_unit_price.amount) (
          field "amount" (number_of_text line.discounted_total.amount)
            (field "description" (str line.title) end)))))

unfoldable pub shopify_line_to_item_line : Fields → ShopifyOrder → Value
shopify_line_to_item_line args order =
    arr (items_of (map (build_line (text_of (get_field "defaultItemId" args))) order.line_items))

unfoldable pub id_or_throw : (id : String) → Option String → Result Value
id_or_throw id none = throws (
    plain_error ("extractShopifyOrderId: cannot extract numeric id from order.id='" ++ (id ++ "'")))
id_or_throw id (some digits) = ok (str digits)

unfoldable pub extract_shopify_order_id : ShopifyOrder → Result Value
extract_shopify_order_id order = id_or_throw order.id (numeric_tail order.id)

-- The id of the connection's shipping item is an internal id already, and is marked so.
unfoldable pub ship_item_ref : Option String → Value
ship_item_ref none = str "SHIP-STANDARD"
ship_item_ref (some id) = obj (field "id" (str id) (field "__resolved" (bool true) end))

unfoldable pub build_shipping_line : Value → ShopifyShippingLine → Value
build_shipping_line item_ref s = obj (
    field "item" item_ref (
      field "rate" (number_of_text s.price.amount)
        (field "amount" (number_of_text s.price.amount) (field "description" (str s.title) end))))

unfoldable pub shopify_shipping_to_line : Fields → ShopifyOrder → Value
shopify_shipping_to_line args order = arr (
    items_of (
      map (build_shipping_line (ship_item_ref (text_of (get_field "defaultShipItemId" args))))
        order.shipping_lines))

abbrev object_or_null : Option Fields → Value
object_or_null none = null
object_or_null (some fs) = obj fs

unfoldable pub address_to_ns : Option ShopifyAddress → Value
address_to_ns addr = object_or_null (shopify_address_to_ns none addr)

unfoldable pub derive_fn : String → Option (Fields → ShopifyOrder → Result Value)
derive_fn name =
    if str_eq name "parseShopifyDate"
    then some parse_shopify_date
    else if str_eq name "shopifyLineToItemLine"
    then some (λ args order. ok (shopify_line_to_item_line args order))
    else if str_eq name "shopifyShippingToLine"
    then some (λ args order. ok (shopify_shipping_to_line args order))
    else if str_eq name "extractShopifyOrderId"
    then some (λ args order. extract_shopify_order_id order)
    else if str_eq name "shopifyShippingAddressToNs"
    then some (λ args order. ok (address_to_ns order.shipping_address))
    else if str_eq name "shopifyBillingAddressToNs"
    then some (λ args order. ok (address_to_ns order.billing_address))
    else none

abbrev on_order :
    {E : Type 0}
    → ShopifyOrder
    → Option (Fields → ShopifyOrder → Result Value)
    → Option (Fields → Value → M E Value)
on_order order none = none
on_order order (some f) = some (λ args source. lift (f args order))

-- `defaultDeriveRegistry()`, for the evaluation of one order.
unfoldable pub default_derive_registry :
    {E : Type 0} → ShopifyOrder → String → Option (Fields → Value → M E Value)
default_derive_registry order name = on_order order (derive_fn name)
