-- ===== src/NetSuite/DefaultOrderMap.antt =====
-- packages/netsuite-client/src/default-order-map.ts. The connection's `extraOrderHeaderMappings` are an
-- argument.
use dp_integrator.Base.{String, true, false, Option, none, some, List, [], ◌∷◌, ◌++◌}
use dp_integrator.Base.Text.{truthy}
use dp_integrator.Base.Value.{str, Fields, end, field}
use dp_integrator.Core.Types.{Connection}
use dp_integrator.Engine.Mapping.{Mapping, direct, constant, lookup, derive}

abbrev location_map : Option String → List Mapping
location_map none = []
location_map (some location) = constant (str location) "location" ∷ []

unfoldable pub build_default_order_header_map : Connection → List Mapping → List Mapping
build_default_order_header_map connection extra =
    (constant (str connection.ns_subsidiary) "subsidiary"
      ∷ constant (str "B") "orderStatus"
      ∷ direct "name" "tranId"
      ∷ direct "id" "externalId"
      ∷ derive "parseShopifyDate" (field "field" (str "processedAt") end) "tranDate"
      ∷ lookup "lookup_currency" "currencyCode" "currency" true
      ∷ lookup "lookup_payment_method" "transactions.0.gateway" "paymentMethod" false
      ∷ lookup "lookup_ship_method" "shippingLines.0.title" "shipMethod" false
      ∷ derive "shopifyShippingAddressToNs" end "shippingAddress"
      ∷ derive "shopifyBillingAddressToNs" end "billingAddress"
      ∷ [])
    ++ (location_map (truthy connection.ns_location) ++ extra)

abbrev pub default_line_items_map : Mapping
default_line_items_map = derive "shopifyLineToItemLine" end "item"

abbrev ship_args : Option String → Fields
ship_args none = end
ship_args (some id) = field "defaultShipItemId" (str id) end

unfoldable pub build_default_shipping_map : Connection → Mapping
build_default_shipping_map connection =
    derive "shopifyShippingToLine" (ship_args (truthy connection.default_ship_item_id)) "shipping"
