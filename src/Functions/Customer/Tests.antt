-- ===== src/Functions/Customer/Tests.antt =====
-- A customer who has an address on file and orders to another.
use dp_integrator.Base.{String, true, none, some, [], ◌∷◌, ◌⊎◌, refl, All, List}
use dp_integrator.Core.Sample.{sample_connection}
use dp_integrator.Shopify.Order.{ShopifyAddress, ShopifyCustomer}
use dp_integrator.NetSuite.Gateway.{CustomerAddressbookEntry}
use dp_integrator.NetSuite.FakeGateway.{empty_fake, gateway}
use dp_integrator.Functions.Customer.{resolve_customer}
use dp_integrator.Functions.Customer.Addressbook.{
  OrderAddressesForCustomer, HasNoAddress, addressbook_lines, build_addressbook_merged,
}
use dp_integrator.Functions.Customer.OneDefault.{HasOneDefault, addressbook_lines-OneDefault}
use dp_integrator.Functions.Customer.Kept.{HasEntry, merged_lines-Kept}
use dp_integrator.Functions.Customer.Again.{IsSame, resolve_customer-IsSame}

abbrev home : String → ShopifyAddress
home id = record {
  id = some id;
  first_name = some "Ada";
  last_name = none;
  company = none;
  address1 = some "1 Main St";
  address2 = none;
  city = some "Utica";
  province = none;
  province_code = some "NY";
  country = none;
  country_code = some "US";
  zip = some "13501";
  phone = none;
}

abbrev entry : (id shopify_id : String) → CustomerAddressbookEntry
entry id shopify_id = record {
  internal_id = id;
  shopify_address_id = some shopify_id;
  default_billing = true;
  default_shipping = true;
  label = none;
}

abbrev existing : List CustomerAddressbookEntry
existing = entry "1" "a" ∷ entry "2" "b" ∷ []

abbrev addresses : OrderAddressesForCustomer
addresses = record { billing = some (home "a"); shipping = some (home "c") }

abbrev ada : ShopifyCustomer
ada = record {
  id = "gid://shopify/Customer/7";
  email = some "ada@example.com";
  first_name = some "Ada";
  last_name = none;
  default_address = none;
}

addressbook_lines-OneDefault_example :
    HasNoAddress (some "f") addresses
    ⊎ HasOneDefault (addressbook_lines (some "f") addresses existing)
addressbook_lines-OneDefault_example = addressbook_lines-OneDefault (some "f") addresses existing

merged_lines-Kept_example :
    HasNoAddress (some "f") addresses
    ⊎ All
        (λ (e : CustomerAddressbookEntry).
          HasEntry e.internal_id (build_addressbook_merged addresses existing "f"))
        existing
merged_lines-Kept_example = merged_lines-Kept addresses existing "f"

resolve_customer-IsSame_example :
    IsSame sample_connection ada
      (resolve_customer gateway sample_connection (some ada) "guest" addresses empty_fake).0
      (resolve_customer gateway sample_connection
        (some ada)
        "guest"
        addresses
        (resolve_customer gateway sample_connection (some ada) "guest" addresses empty_fake).1).0
resolve_customer-IsSame_example =
    resolve_customer-IsSame sample_connection ada "guest" addresses addresses empty_fake refl
