-- ===== src/Functions/Customer/Addressbook.antt =====
-- apps/functions/src/activities/customer-resolver.ts: the addressbook that is written to a customer.
use dp_integrator.Base.{
  String, Bool, true, false, not, ◌&&◌, ◌||◌, Option, none, some, List, [], ◌∷◌, ◌++◌, map, keep,
  if◌then◌else◌, str_eq, ◌≡◌,
}
use dp_integrator.Base.Dict.{Dict, get, set}
use dp_integrator.Base.Set.{has, add}
use dp_integrator.Base.Text.{truthy}
use dp_integrator.Base.Value.{Value, bool, str, obj, Fields, end, field}
use dp_integrator.Shopify.Order.{ShopifyAddress}
use dp_integrator.NetSuite.Gateway.{CustomerAddressbookEntry}
use dp_integrator.NetSuite.Address.{shopify_address_to_ns}

pub record OrderAddressesForCustomer : Type 0 where
  pub billing : Option ShopifyAddress
  pub shipping : Option ShopifyAddress

-- A line of the sublist, with the keys that it may have.
pub record Line : Type 0 where
  pub id : Option String
  pub default_billing : Bool
  pub default_shipping : Bool
  pub label : Option String
  pub address : Option Fields

unfoldable pub incoming : (billing shipping : Bool) → String → Fields → Line
incoming billing shipping label address = record {
  id = none;
  default_billing = billing;
  default_shipping = shipping;
  label = some label;
  address = some address;
}

-- `JSON.stringify(a) === JSON.stringify(b)` of addresses, whose fields are texts.
unfoldable pub same_json : Fields → Fields → Bool
same_json end end = true
same_json (field k (str v) fs) (field j (str u) gs) =
    let rest = same_json fs gs in str_eq k j && (str_eq v u && rest)
same_json fs gs = false

-- `buildAddressbookLegacy`.
unfoldable pub legacy_lines : Option Fields → Option Fields → List Line
legacy_lines none none = []
legacy_lines (some billing) none = incoming true true "Billing" billing ∷ []
legacy_lines none (some shipping) = incoming true true "Shipping" shipping ∷ []
legacy_lines (some billing) (some shipping) =
    if same_json billing shipping
    then incoming true true "Default" billing ∷ []
    else incoming true false "Billing" billing ∷ incoming false true "Shipping" shipping ∷ []

unfoldable pub build_addressbook_legacy : OrderAddressesForCustomer → List Line
build_addressbook_legacy addresses =
    legacy_lines (shopify_address_to_ns none addresses.billing)
      (shopify_address_to_ns none addresses.shipping)

-- The entries by the id of Shopify; of two with one id the later one.
unfoldable pub index_entry :
    Option String
    → CustomerAddressbookEntry
    → Dict CustomerAddressbookEntry
    → Dict CustomerAddressbookEntry
index_entry none e byId = byId
index_entry (some id) e byId = set id e byId

unfoldable pub index_entries :
    List CustomerAddressbookEntry → Dict CustomerAddressbookEntry → Dict CustomerAddressbookEntry
index_entries [] byId = byId
index_entries (e ∷ es) byId = index_entries es (index_entry (truthy e.shopify_address_id) e byId)

abbrev pub id_of : Option ShopifyAddress → Option String
id_of none = none
id_of (some addr) = addr.id

abbrev pub same_text : Option String → Option String → Bool
same_text (some a) (some b) = str_eq a b
same_text _ _ = false

unfoldable pub find_entry :
    Option String → Dict CustomerAddressbookEntry → Option CustomerAddressbookEntry
find_entry none byId = none
find_entry (some id) byId = get id byId

-- A line with the id of its entry, and the entries that are claimed so far.
unfoldable pub claim_entry :
    Option CustomerAddressbookEntry → Line → List String → Line × List String
claim_entry none line claimed = (line, claimed)
claim_entry (some e) line claimed =
    (record line { id = some e.internal_id }, add e.internal_id claimed)

module _ (byId : Dict CustomerAddressbookEntry) (billing_id shipping_id : Option String) where
  -- The lines of the order, and the entries that they claim.
  unfoldable pub both_sides : Fields → Fields → List Line × List String
  both_sides billing shipping =
      let (first, claimed) =
        claim_entry (find_entry (truthy billing_id) byId) (incoming true false "Billing" billing)
          [] in
      let (second, claimed') =
        claim_entry (find_entry (truthy shipping_id) byId) (incoming false true "Shipping" shipping)
          claimed in
      (first ∷ second ∷ [], claimed')

  unfoldable pub one_side : Option String → String → Fields → List Line × List String
  one_side id label address =
      let (line, claimed) =
        claim_entry (find_entry (truthy id) byId) (incoming true true label address) [] in
      (line ∷ [], claimed)

  unfoldable pub order_lines : Option Fields → Option Fields → List Line × List String
  order_lines none none = ([], [])
  order_lines (some billing) none =
      if same_text billing_id shipping_id
      then one_side billing_id "Default" billing
      else one_side billing_id "Billing" billing
  order_lines none (some shipping) = one_side shipping_id "Shipping" shipping
  order_lines (some billing) (some shipping) =
      if same_text billing_id shipping_id
      then one_side billing_id "Default" billing
      else both_sides billing shipping

-- An entry that no line of the order claims, without the defaults that the order takes.
unfoldable pub preserved :
    (billing_claimed shipping_claimed : Bool) → CustomerAddressbookEntry → Line
preserved billing_claimed shipping_claimed e = record {
  id = some e.internal_id;
  default_billing = not billing_claimed && e.default_billing;
  default_shipping = not shipping_claimed && e.default_shipping;
  label = truthy e.label;
  address = none;
}

-- `out.some(e => e['defaultBilling'] === true)`, and likewise for shipping.
unfoldable pub some_billing : List Line → Bool
some_billing [] = false
some_billing (line ∷ lines) = line.default_billing || some_billing lines

unfoldable pub some_shipping : List Line → Bool
some_shipping [] = false
some_shipping (line ∷ lines) = line.default_shipping || some_shipping lines

unfoldable pub with_preserved : List CustomerAddressbookEntry → List Line × List String → List Line
with_preserved existing (out, claimed) =
    out
    ++ map (preserved (some_billing out) (some_shipping out))
        (keep (λ e. not (has e.internal_id claimed)) existing)

unfoldable pub merged_lines :
    OrderAddressesForCustomer
    → List CustomerAddressbookEntry
    → Option Fields
    → Option Fields
    → List Line
merged_lines addresses existing none none = []
merged_lines addresses existing billing shipping = with_preserved existing (
    order_lines (index_entries existing []) (id_of addresses.billing) (id_of addresses.shipping)
      billing shipping)

unfoldable pub build_addressbook_merged :
    OrderAddressesForCustomer
    → List CustomerAddressbookEntry
    → (shopify_id_field : String) → List Line
build_addressbook_merged addresses existing shopify_id_field =
    merged_lines addresses existing
      (shopify_address_to_ns (some shopify_id_field) addresses.billing)
      (shopify_address_to_ns (some shopify_id_field) addresses.shipping)

-- `connection.shopifyAddressIdField ? … : …`.
unfoldable pub addressbook_lines :
    Option String → OrderAddressesForCustomer → List CustomerAddressbookEntry → List Line
addressbook_lines none addresses existing = build_addressbook_legacy addresses
addressbook_lines (some id_field) addresses existing =
    build_addressbook_merged addresses existing id_field

unfoldable pub set_text : String → Option String → Fields → Fields
set_text key none rest = rest
set_text key (some v) rest = field key (str v) rest

unfoldable pub set_address : Option Fields → Fields
set_address none = end
set_address (some address) = field "addressbookaddress" (obj address) end

-- A line as the object that it is.
unfoldable pub line_value : Line → Value
line_value line = obj (
    field "defaultBilling" (bool line.default_billing) (
      field "defaultShipping" (bool line.default_shipping)
        (set_text "label" line.label (set_text "id" line.id (set_address line.address)))))

-- The order brings no address that says anything.
abbrev pub HasNoAddress : Option String → OrderAddressesForCustomer → Type 0
HasNoAddress id_field addresses =
    (shopify_address_to_ns id_field addresses.billing ≡ none)
    × (shopify_address_to_ns id_field addresses.shipping ≡ none)
