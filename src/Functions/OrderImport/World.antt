-- ===== src/Functions/OrderImport/World.antt =====
-- What a delivery reads and changes: the dependencies of the handler, and the state of the stores and of
-- everything outside. `E` is the state of the systems outside: Shopify, NetSuite, the blob storage, the
-- database server and the clock.
use dp_integrator.Base.{
  ℕ, String, Bool, true, false, Option, none, some, List, [], ◌∷◌, ◌++◌, Result, ok, throws, Thrown,
  NsResponse, M, pure, resume,
}
use dp_integrator.Base.Value.{Value, Fields}
use dp_integrator.Core.Types.{Connection, Environment}
use dp_integrator.Core.DedupKey.{DedupKeyParts}
use dp_integrator.Core.Xref.{XrefStore}
use dp_integrator.Core.Errors.{ErrorClass, ErrorStore, NewErrorInput, record_error}
use dp_integrator.Core.Connections.{ConnectionsRepo}
use dp_integrator.Core.OrderSyncLog.{NsRecordType, OrderSyncLogStore, OrderSyncLogInput, upsert}
use dp_integrator.Core.OrderAttempt.{OrderAttemptStore, OrderAttemptInput, record_attempt}
use dp_integrator.Shopify.Order.{ShopifyOrder}
use dp_integrator.Engine.Eligibility.{EligibilityReason}

-- `deliveryCount` and the times of the runtime's delivery.
pub record AttemptContext : Type 0 where
  pub delivery_count : ℕ
  pub sb_message_id : Option String
  pub sb_session_id : Option String
  pub started_at : ℕ

pub record CustomerResolution : Type 0 where
  pub internal_id : String
  pub is_guest : Bool
  pub created : Bool

pub data ParkStage : Type 0 where
  fetch mapping balancing item_resolution external_call : ParkStage

pub data RejectReason : Type 0 where
  bad_message_shape unknown_connection env_mismatch : RejectReason

pub data OrderHandlerOutcome : Type 0 where
  imported :
      (connection_id order_gid target_id : String)
      → (created : Bool) → CustomerResolution
      → OrderHandlerOutcome
  parked :
      (connection_id order_gid : String)
      → ParkStage
      → (detail : String) → ErrorClass
      → OrderHandlerOutcome
  ignored_by_eligibility :
      (connection_id order_gid : String)
      → EligibilityReason
      → (detail : Option String) → OrderHandlerOutcome
  already_synced already_claimed ignored : (connection_id order_gid : String) → OrderHandlerOutcome
  rejected : RejectReason → (detail : String) → OrderHandlerOutcome

-- The arguments of `upsertByExternalId`, with the parts of the delivery that makes the call.
pub record NsWrite : Type 0 where
  pub parts : DedupKeyParts
  pub ns_account_id : String
  pub record_type : NsRecordType
  pub external_id : String
  pub payload : Fields

pub record UpsertResult : Type 0 where
  pub internal_id : String
  pub created : Bool
  pub raw_response : Option NsResponse

-- The answer of a stage that may park the order.
pub data Staged : Type 0 where
  staged : Fields → Staged
  parks : (detail : String) → Staged

-- What is archived; `outbound` is the default kind of the payload store.
pub data Archived : Type 0 where
  outbound : Fields → Archived
  ns_response : NsResponse → Archived
  shopify_order : ShopifyOrder → Archived

pub record PayloadStoreContext : Type 0 where
  pub environment : String
  pub connection_id : String
  pub shopify_order_gid : String
  pub delivery_count : ℕ
  pub ns_account_id : Option String
  pub ns_record_type : Option NsRecordType
  pub attempt_started_at : ℕ

-- The events of the telemetry.
pub data Event : Type 0 where
  track_import : (connection_id : String) → (duration_ms : ℕ) → Event
  track_park : (connection_id : String) → ParkStage → ErrorClass → Event
  track_ignored : (connection_id : String) → EligibilityReason → Event
  track_auth_error : (connection_id flow message : String) → Event

-- `OrderHandlerDeps`: the fields that are calls act on the systems outside. `archives` says that there
-- is an outbound payload store. `reach` is the way to the database before each call of a store there,
-- which may throw. The stages of the pipeline are the functions that the handler imports.
pub record Deps (E : Type 0) : Type 0 where
  pub environment : Environment
  pub connections : ConnectionsRepo
  pub archives : Bool
  pub now : E → ℕ
  pub stack_of : Thrown → Option String
  pub reach : M E (Unit {0})
  pub get_order : Connection → String → M E ShopifyOrder
  pub tag_order : Connection → String → List String → M E (Unit {0})
  pub upsert_by_external_id : NsWrite → M E UpsertResult
  pub put : Archived → PayloadStoreContext → M E String
  pub resolve_customer : Connection → ShopifyOrder → M E CustomerResolution
  pub build_order_payload : Connection → ShopifyOrder → String → M E Staged
  pub apply_tax : Connection → ShopifyOrder → Fields → Result Fields
  pub apply_balancing : Fields → ShopifyOrder → Result Staged
  pub resolve_item_references : Connection → Fields → M E Staged

-- The variables outside the `try` of the handler.
pub record Locals : Type 0 where
  pub order : Option ShopifyOrder
  pub outcome : Option OrderHandlerOutcome
  pub throw_err : Option Thrown
  pub outbound_payload_uri : Option String
  pub ns_response_uri : Option String
  pub ns_response_status : Option ℕ
  pub shopify_payload_uri : Option String
  pub payload_digest : Option Value

abbrev pub no_locals : Locals
no_locals = record {
  order = none;
  outcome = none;
  throw_err = none;
  outbound_payload_uri = none;
  ns_response_uri = none;
  ns_response_status = none;
  shopify_payload_uri = none;
  payload_digest = none;
}

-- The state. `none` as a store is a dependency that is not wired; `events` and `writes` keep what was
-- told to the telemetry and what orders were written to NetSuite, the latest last; what the stages ask of
-- NetSuite, a customer for one, acts on `outside`.
pub record World (E : Type 0) : Type 0 where
  pub xref : XrefStore
  pub errors : Option ErrorStore
  pub log : Option OrderSyncLogStore
  pub attempts : Option OrderAttemptStore
  pub events : List Event
  pub writes : List NsWrite
  pub locals : Locals
  pub outside : E

module _ {E : Type 0} where
  infixl 5 ◌>>=◌ ◌>>◌
  unfoldable pub ◌>>=◌ : {A B : Type 0} → M (World E) A → (A → M (World E) B) → M (World E) B
  ◌>>=◌ m f w = resume (m w) f

  unfoldable pub ◌>>◌ : {A B : Type 0} → M (World E) A → M (World E) B → M (World E) B
  ◌>>◌ m n w = resume (m w) (λ _. n)

  unfoldable pub on_outside : {A : Type 0} → M E A → M (World E) A
  on_outside m w = let (r, e) = m w.outside in (r, record w { outside = e })

  -- Sets a variable.
  unfoldable pub assign : (Locals → Locals) → M (World E) (Unit {0})
  assign f w = pure tt (record w { locals = f w.locals })

  unfoldable pub emit : Event → M (World E) (Unit {0})
  emit e w = pure tt (record w { events = w.events ++ (e ∷ []) })

  unfoldable pub note_write : NsWrite → M (World E) (Unit {0})
  note_write call w = pure tt (record w { writes = w.writes ++ (call ∷ []) })

  -- `catch (…) { … }`.
  unfoldable pub catching :
      {A : Type 0} → Result A × World E → (Thrown → M (World E) A) → Result A × World E
  catching (ok a, w) f = (ok a, w)
  catching (throws e, w) f = f e w

  -- `finally { … }`: what it throws would replace the result.
  unfoldable pub finally :
      {A : Type 0} → Result A × World E → M (World E) (Unit {0}) → Result A × World E
  finally (r, w) m = resume (m w) (λ _ w'. (r, w'))

  unfoldable pub in_xref : {A : Type 0} → M XrefStore A → M (World E) A
  in_xref m w = let (r, x) = m w.xref in (r, record w { xref = x })

  unfoldable pub in_errors : NewErrorInput → ℕ → Option ErrorStore → M (World E) (Unit {0})
  in_errors input now none w = pure tt w
  in_errors input now (some s) w = pure tt (record w { errors = some (record_error input now s).1 })

  unfoldable pub in_log : OrderSyncLogInput → ℕ → Option OrderSyncLogStore → M (World E) (Unit {0})
  in_log input now none w = pure tt w
  in_log input now (some s) w = pure tt (record w { log = some (upsert input now s).1 })

  unfoldable pub in_attempts :
      OrderAttemptInput → ℕ → Option OrderAttemptStore → M (World E) (Unit {0})
  in_attempts input now none w = pure tt w
  in_attempts input now (some s) w =
      pure tt (record w { attempts = some (record_attempt input now s).1 })

  -- `if (b) … else …`.
  unfoldable pub choose : {A : Type 0} → Bool → M (World E) A → M (World E) A → M (World E) A
  choose true m n = m
  choose false m n = n

  -- `if (store) …`: a store that is not wired is not reached.
  unfoldable pub when_wired :
      {S : Type 0} → Option S → M (World E) (Unit {0}) → M (World E) (Unit {0})
  when_wired none m = pure tt
  when_wired (some s) m = m

  module _ (deps : Deps E) where
    unfoldable pub with_xref : {A : Type 0} → M XrefStore A → M (World E) A
    with_xref m = on_outside deps.reach >> in_xref m

    unfoldable pub store_error : NewErrorInput → M (World E) (Unit {0})
    store_error input =
        on_outside deps.reach >> (λ w. in_errors input (deps.now w.outside) w.errors w)
