-- ===== src/Core/Types.antt =====
-- packages/core/src/env.ts and types.ts. The texts of the string literals are given by functions.
-- `Connection` leaves out `extraOrderHeaderMappings`, the list of mappings that only the payload
-- builder reads.
use dp_integrator.Base.{String, Bool, Option, none, some, ◌≡◌, refl, ap, if◌then◌else◌, str_eq}

pub data Environment : Type 0 where
  dev sandbox prod : Environment

unfoldable pub environment_text : Environment → String
environment_text dev = "dev"
environment_text sandbox = "sandbox"
environment_text prod = "prod"

-- `isEnvironment`, with the environment that the text names.
unfoldable pub environment_of : String → Option Environment
environment_of s =
    if str_eq s "dev"
    then some dev
    else if str_eq s "sandbox"
    then some sandbox
    else if str_eq s "prod"
    then some prod
    else none

pub data EntityType : Type 0 where
  order customer refund cancellation fulfillment item : EntityType

unfoldable pub entity_type_text : EntityType → String
entity_type_text order = "order"
entity_type_text customer = "customer"
entity_type_text refund = "refund"
entity_type_text cancellation = "cancellation"
entity_type_text fulfillment = "fulfillment"
entity_type_text item = "item"

pub entity_type_of : String → Option EntityType
entity_type_of s =
    if str_eq s "order"
    then some order
    else if str_eq s "customer"
    then some customer
    else if str_eq s "refund"
    then some refund
    else if str_eq s "cancellation"
    then some cancellation
    else if str_eq s "fulfillment"
    then some fulfillment
    else if str_eq s "item"
    then some item
    else none

-- `SourceSystem` and `TargetSystem`, which are the same two literals.
pub data System : Type 0 where
  shopify netsuite : System

unfoldable pub system_text : System → String
system_text shopify = "shopify"
system_text netsuite = "netsuite"

pub system_of : String → Option System
system_of s =
    if str_eq s "shopify" then some shopify else if str_eq s "netsuite" then some netsuite else none

pub data TaxEngine : Type 0 where
  suitetax legacy : TaxEngine

pub data OrderTarget : Type 0 where
  sales_order cash_sale : OrderTarget

pub record Connection : Type 0 where
  pub connection_id : String
  pub environment : Environment
  pub shopify_store : String
  pub shopify_app_token_ref : String
  pub shopify_webhook_secret_ref : String
  pub ns_account_id : String
  pub ns_subsidiary : String
  pub ns_location : Option String
  pub base_currency : String
  pub tax_engine : TaxEngine
  pub order_target : OrderTarget
  pub map_version : String
  pub enabled : Bool
  pub default_ship_item_id : Option String
  pub default_item_id : Option String
  pub default_discount_item_id : Option String
  pub write_tags_on_import : Option Bool
  pub shopify_address_id_field : Option String

-- Each text names one literal.
pub environment_of-text : (e : Environment) → environment_of (environment_text e) ≡ some e
unfolding environment_of environment_text
environment_of-text dev = refl
environment_of-text sandbox = refl
environment_of-text prod = refl

pub entity_type_of-text : (t : EntityType) → entity_type_of (entity_type_text t) ≡ some t
unfolding entity_type_of entity_type_text
entity_type_of-text order = refl
entity_type_of-text customer = refl
entity_type_of-text refund = refl
entity_type_of-text cancellation = refl
entity_type_of-text fulfillment = refl
entity_type_of-text item = refl

pub system_of-text : (s : System) → system_of (system_text s) ≡ some s
unfolding system_of system_text
system_of-text shopify = refl
system_of-text netsuite = refl

pub environment_text-injective :
    (e f : Environment) → environment_text e ≡ environment_text f → e ≡ f
environment_text-injective e f h =
    cc (environment_of-text e, environment_of-text f, ap environment_of h)

pub entity_type_text-injective :
    (t u : EntityType) → entity_type_text t ≡ entity_type_text u → t ≡ u
entity_type_text-injective t u h =
    cc (entity_type_of-text t, entity_type_of-text u, ap entity_type_of h)

pub system_text-injective : (s t : System) → system_text s ≡ system_text t → s ≡ t
system_text-injective s t h = cc (system_of-text s, system_of-text t, ap system_of h)
