-- ===== src/NetSuite/Address.antt =====
-- packages/netsuite-client/src/derive-fns.ts: the address of an order as NetSuite has it
-- (`shopifyAddressToNs`).
use dp_integrator.Base.{
  String, Bool, ◌||◌, Option, none, some, List, [], ◌∷◌, ◌++◌, is_some, if◌then◌else◌,
}
use dp_integrator.Base.Text.{join, trim, truthy}
use dp_integrator.Base.Value.{Fields, end, str, set_field}
use dp_integrator.Shopify.Order.{ShopifyAddress}

-- `if (v) out[key] = v`.
unfoldable pub set_if : String → Option String → Fields → Fields
set_if key none out = out
set_if key (some v) out = set_field key (str v) out

abbrev list_of : Option String → List String
list_of none = []
list_of (some s) = s ∷ []

unfoldable pub addressee_of : ShopifyAddress → String
addressee_of addr =
    trim (join " " (list_of (truthy addr.first_name) ++ list_of (truthy addr.last_name)))

unfoldable pub has_content : ShopifyAddress → Bool
has_content addr =
    is_some (truthy addr.address1) || is_some (truthy addr.city) || is_some (truthy addr.zip)

-- With the id of the address in a field of the connection's choice.
unfoldable pub set_id : Option String → Option String → Fields → Fields
set_id none id out = out
set_id (some id_field) id out = set_if id_field id out

unfoldable pub address_fields : Option String → ShopifyAddress → Fields
address_fields shopify_id_field addr = set_id (truthy shopify_id_field) (truthy addr.id) (
    set_if "addrPhone" (truthy addr.phone) (
      set_if "country" (truthy addr.country_code) (
        set_if "zip" (truthy addr.zip) (
          set_if "state" (truthy addr.province_code) (
            set_if "city" (truthy addr.city) (
              set_if "addr2" (truthy addr.address2) (
                set_if "addr1" (truthy addr.address1) (
                  set_if "attention" (truthy addr.company)
                    (set_if "addressee" (truthy (some (addressee_of addr))) end)))))))))

unfoldable pub shopify_address_to_ns : Option String → Option ShopifyAddress → Option Fields
shopify_address_to_ns shopify_id_field none = none
shopify_address_to_ns shopify_id_field (some addr) =
    if has_content addr then some (address_fields shopify_id_field addr) else none
