-- ===== src/Shopify/Sample.antt =====
-- A test order, as Shopify marks it.
use dp_integrator.Base.{[], false, true, none}
use dp_integrator.Shopify.Order.{ShopifyOrder, MoneyV2, paid}

abbrev ten : MoneyV2
ten = record { amount = "10.00"; currency_code = "USD" }

abbrev pub test_order : ShopifyOrder
test_order = record {
  id = "7";
  name = "#1007";
  created_at = "2024-01-01T00:00:00Z";
  updated_at = "2024-01-01T00:00:00Z";
  processed_at = "2024-01-01T00:00:00Z";
  currency_code = "USD";
  total_price = ten;
  subtotal_price = ten;
  total_tax = ten;
  total_shipping_price = ten;
  total_discounts = ten;
  financial_status = paid;
  fulfillment_status = none;
  test = true;
  fraud_hold = false;
  customer = none;
  line_items = [];
  shipping_lines = [];
  tax_lines = [];
  transactions = [];
  billing_address = none;
  shipping_address = none;
  location_id = none;
  note = none;
  tags = none;
}
