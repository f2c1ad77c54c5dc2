-- ===== src/Functions/Customer.antt =====
-- apps/functions/src/activities/customer-resolver.ts: the customer of an order is matched or created.
pub mod Addressbook
pub mod OneDefault
pub mod Kept
pub mod Again
mod Tests
use dp_integrator.Base.{
  String, Bool, true, false, ◌||◌, Option, none, some, List, [], ◌∷◌, M, pure, ◌>>=◌, ◌>>◌, is_some,
  or_else, map, if◌then◌else◌,
}
use dp_integrator.Base.Text.{truthy, last_segment}
use dp_integrator.Base.Print.{string_of}
use dp_integrator.Base.Value.{
  Value, undefined, null, bool, str, obj, Fields, end, field, get_field, set_field,
}
use dp_integrator.Core.Types.{Connection}
use dp_integrator.Shopify.Order.{ShopifyAddress, ShopifyCustomer}
use dp_integrator.NetSuite.Gateway.{NetSuiteGateway, UpsertResult, CustomerAddressbookEntry}
use dp_integrator.NetSuite.Address.{set_if}
use dp_integrator.NetSuite.Lines.{sublist}
use dp_integrator.Functions.OrderImport.World.{CustomerResolution}
use dp_integrator.Functions.Customer.Addressbook.{
  OrderAddressesForCustomer, Line, addressbook_lines, line_value,
}

-- `a ?? b`.
abbrev first_of : Option String → Option String → Option String
first_of (some a) b = some a
first_of none b = b

abbrev company_of : Option ShopifyAddress → Option String
company_of none = none
company_of (some addr) = addr.company

abbrev phone_of : Option ShopifyAddress → Option String
phone_of none = none
phone_of (some addr) = addr.phone

unfoldable pub is_person : ShopifyCustomer → Bool
is_person c = is_some (truthy c.first_name) || is_some (truthy c.last_name)

unfoldable pub name_fields : Bool → ShopifyCustomer → Fields → Fields
name_fields true c payload =
    set_if "lastname" (truthy c.last_name) (set_if "firstname" (truthy c.first_name) payload)
name_fields false c payload =
    set_field "companyname"
      (str (or_else (first_of (company_of c.default_address) c.email) (last_segment c.id))) payload

unfoldable pub set_addressbook : List Line → Fields → Fields
set_addressbook [] payload = payload
set_addressbook (line ∷ lines) payload =
    set_field "addressbook" (sublist (map line_value (line ∷ lines))) payload

unfoldable pub build_customer_payload :
    Connection
    → ShopifyCustomer
    → OrderAddressesForCustomer
    → List CustomerAddressbookEntry
    → Fields
build_customer_payload connection c addresses existing =
    set_addressbook
      (addressbook_lines (truthy connection.shopify_address_id_field) addresses existing)
      (set_if "phone"
        (truthy (
          first_of (phone_of c.default_address)
            (first_of (phone_of addresses.shipping) (phone_of addresses.billing))))
        (set_if "email" (truthy c.email) (
          name_fields (is_person c) c (
            field "externalid" (str c.id) (
              field "isperson" (bool (is_person c))
                (field "subsidiary" (str connection.ns_subsidiary) end))))))

-- `existing?.['id']`, unless it is missing.
unfoldable pub existing_id : Option Fields → Option String
existing_id none = none
existing_id (some row) = elim (get_field "id" row) [
  | undefined ↦ none
  | null ↦ none
  | id ↦ some (string_of id)
]

module _ {E : Type 0} (ns : NetSuiteGateway E) (connection : Connection) where
  unfoldable pub entries_of :
      (shopify_id_field : String) → Option String → M E (List CustomerAddressbookEntry)
  entries_of id_field none = pure []
  entries_of id_field (some id) = ns.get_customer_addressbook connection.ns_account_id id id_field

  -- The addressbook to merge with, of a connection that has a field for the id of Shopify.
  unfoldable pub existing_entries :
      Option String → (external_id : String) → M E (List CustomerAddressbookEntry)
  existing_entries none external_id = pure []
  existing_entries (some id_field) external_id = do
    existing ← ns.find_by_external_id connection.ns_account_id "customer" external_id ("id" ∷ [])
    entries_of id_field (existing_id existing)

  unfoldable pub upsert_customer :
      ShopifyCustomer
      → OrderAddressesForCustomer
      → List CustomerAddressbookEntry
      → M E CustomerResolution
  upsert_customer c addresses existing = do
    result ←
        ns.upsert_by_external_id connection.ns_account_id "customer" c.id
          (build_customer_payload connection c addresses existing)
    pure (record { internal_id = result.internal_id; is_guest = false; created = result.created })

  unfoldable pub resolve_customer :
      Option ShopifyCustomer
      → (guest_customer_internal_id : String) → OrderAddressesForCustomer
      → M E CustomerResolution
  resolve_customer none guest addresses =
      pure (record { internal_id = guest; is_guest = true; created = false })
  resolve_customer (some c) guest addresses = do
    existing ← existing_entries (truthy connection.shopify_address_id_field) c.id
    upsert_customer c addresses existing
