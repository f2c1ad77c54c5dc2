-- ===== src/NetSuite/Tax.antt =====
-- packages/netsuite-client/src/tax-strategy.ts: what each tax engine adds to an order. The lists of
-- `TaxPayloadPart` for taxes of lines and tax items, which no strategy fills, are left out.
pub mod Header
use dp_integrator.Base.{String, Bool, List, [], ◌∷◌, str_eq, ◌&&◌, if◌then◌else◌, true, false}
use dp_integrator.Base.Value.{Value, str, Fields, end, field, set_field}
use dp_integrator.Core.Types.{Connection, TaxEngine, suitetax, legacy}
use dp_integrator.Shopify.Order.{ShopifyOrder, ShopifyTaxLine}

-- `headerTax`.
pub record TaxPayloadPart : Type 0 where
  pub header_tax : Fields

abbrev pub empty_part : TaxPayloadPart
empty_part = record { header_tax = end }

-- `{ taxsubtotal, taxitem, taxrate }` of `LegacyTaxStrategy.buildOrderTax`.
unfoldable pub legacy_header : String → List ShopifyTaxLine → Fields
legacy_header total [] = field "taxsubtotal" (str total) end
legacy_header total (primary ∷ rest) =
    field "taxsubtotal" (str total)
      (field "taxitem" (str primary.title) (field "taxrate" primary.rate end))

abbrev no_tax_lines : List ShopifyTaxLine → Bool
no_tax_lines [] = true
no_tax_lines (line ∷ rest) = false

unfoldable pub build_order_tax : TaxEngine → ShopifyOrder → TaxPayloadPart
build_order_tax suitetax order = empty_part
build_order_tax legacy order =
    if no_tax_lines order.tax_lines && str_eq order.total_tax.amount "0.00"
    then empty_part
    else record { header_tax = legacy_header order.total_tax.amount order.tax_lines }

unfoldable pub build_shipping_tax : TaxEngine → List ShopifyTaxLine → TaxPayloadPart
build_shipping_tax suitetax lines = empty_part
build_shipping_tax legacy [] = empty_part
build_shipping_tax legacy (primary ∷ rest) = record {
  header_tax =
      field "shippingtax1rate" primary.rate (field "shippingtaxcode" (str primary.title) end);
}

-- `for (const [k, v] of Object.entries(part.headerTax)) payload[k] = v`.
unfoldable pub set_all : Fields → Fields → Fields
set_all end payload = payload
set_all (field k v fs) payload = set_all fs (set_field k v payload)

unfoldable pub apply_tax_payload_header : Fields → TaxPayloadPart → Fields
apply_tax_payload_header payload part = set_all part.header_tax payload
