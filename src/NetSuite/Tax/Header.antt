-- ===== src/NetSuite/Tax/Header.antt =====
-- Which fields of a payload the tax engines write.
use dp_integrator.Base.{
  String, Bool, List, [], ◌∷◌, str_eq, ◌||◌, ◌≡◌, refl, false, arith, inl, inr, Bool-cases, ◌&&◌,
}
use dp_integrator.Base.Value.{get_field-set_field, str, Fields, get_field}
use dp_integrator.Core.Types.{TaxEngine, suitetax, legacy}
use dp_integrator.Shopify.Order.{ShopifyOrder, ShopifyTaxLine}
use dp_integrator.NetSuite.Tax.{
  build_order_tax, legacy_header, set_all, apply_tax_payload_header, no_tax_lines,
}

-- The fields that `buildOrderTax` may set.
abbrev pub is_tax_field : String → Bool
is_tax_field k = str_eq "taxsubtotal" k || str_eq "taxitem" k || str_eq "taxrate" k

abbrev pub taxed : TaxEngine → ShopifyOrder → Fields → Fields
taxed engine order payload = apply_tax_payload_header payload (build_order_tax engine order)

taxed_by :
    (tax_lines : List ShopifyTaxLine) (total k : String) (payload : Fields)
    → is_tax_field k ≡ false
    → get_field k (set_all (legacy_header total tax_lines) payload) ≡ get_field k payload
unfolding set_all legacy_header
taxed_by [] total k payload h =
    ground (arith, h, get_field-set_field k "taxsubtotal" (str total) payload)
taxed_by (line ∷ rest) total k payload h =
    rw (get_field-set_field, get_field-set_field, get_field-set_field) (ground (arith, h))

-- No tax engine touches another field.
pub taxed-keeps :
    (engine : TaxEngine) (order : ShopifyOrder) (k : String) (payload : Fields)
    → is_tax_field k ≡ false
    → get_field k (taxed engine order payload) ≡ get_field k payload
unfolding apply_tax_payload_header build_order_tax set_all
taxed-keeps suitetax order k payload h = refl
taxed-keeps legacy order k payload h =
    elim (Bool-cases (no_tax_lines order.tax_lines && str_eq order.total_tax.amount "0.00")) [
      | inl none ↦ rw none refl
      | inr some ↦ rw some (taxed_by order.tax_lines order.total_tax.amount k payload h)
    ]
