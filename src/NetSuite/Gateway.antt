-- ===== src/NetSuite/Gateway.antt =====
-- packages/netsuite-client/src/gateway.ts: what the code asks NetSuite. A call acts on the state `E` of
-- the systems outside and may throw.
use dp_integrator.Base.{String, Bool, Option, List, M, NsResponse}
use dp_integrator.Base.Value.{Fields}

pub record UpsertResult : Type 0 where
  pub internal_id : String
  pub external_id : String
  pub created : Bool
  pub raw_response : Option NsResponse

pub record CustomerAddressbookEntry : Type 0 where
  pub internal_id : String
  pub shopify_address_id : Option String
  pub default_billing : Bool
  pub default_shipping : Bool
  pub label : Option String

-- The arguments of a call are in the order of the source's; a record type is its text.
pub record NetSuiteGateway (E : Type 0) : Type 0 where
  pub upsert_by_external_id :
      (ns_account_id record_type external_id : String) → Fields → M E UpsertResult
  pub find_by_external_id :
      (ns_account_id record_type external_id : String) → List String → M E (Option Fields)
  pub get_customer_addressbook :
      (ns_account_id customer_internal_id shopify_id_field : String)
      → M E (List CustomerAddressbookEntry)
  pub resolve_item_id : (ns_account_id sku : String) → M E (Option String)
