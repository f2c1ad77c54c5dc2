-- ===== src/Core/Sample.antt =====
-- A connection for the tests.
use dp_integrator.Base.{none, true}
use dp_integrator.Core.Types.{Connection, prod, legacy, sales_order}

abbrev pub sample_connection : Connection
sample_connection = record {
  connection_id = "c1";
  environment = prod;
  shopify_store = "store.example";
  shopify_app_token_ref = "token";
  shopify_webhook_secret_ref = "hook";
  ns_account_id = "acct";
  ns_subsidiary = "1";
  ns_location = none;
  base_currency = "USD";
  tax_engine = legacy;
  order_target = sales_order;
  map_version = "1";
  enabled = true;
  default_ship_item_id = none;
  default_item_id = none;
  default_discount_item_id = none;
  write_tags_on_import = none;
  shopify_address_id_field = none;
}
