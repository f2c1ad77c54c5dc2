-- ===== src/Core/OrderAttempt.antt =====
-- packages/core/src/order-attempt/order-attempt-store.ts: one row for each delivery. An id is its
-- sequence number. `payloadDigest` is a value.
mod Tests
pub mod Timeline
use dp_integrator.Base.{
  ℕ, ◌+◌, String, Bool, ◌&&◌, Option, List, [], ◌∷◌, ◌++◌, M, pure, str_eq, keep,
}
use dp_integrator.Base.Value.{Value}
use dp_integrator.Base.Sort.{sort_desc}
use dp_integrator.Core.Types.{Environment, environment_text}

pub data OrderAttemptOutcome : Type 0 where
  imported parked ignored_by_eligibility already_synced already_claimed : OrderAttemptOutcome
  ignored rejected transient_throw auth_throw quarantined : OrderAttemptOutcome

pub record OrderAttemptInput : Type 0 where
  pub environment : Environment
  pub connection_id : String
  pub shopify_order_gid : String
  pub delivery_count : ℕ
  pub sb_message_id : Option String
  pub sb_session_id : Option String
  pub outcome : OrderAttemptOutcome
  pub stage : Option String
  pub error_class : Option String
  pub detail : Option String
  pub inbound_envelope_uri : Option String
  pub outbound_payload_uri : Option String
  pub ns_response_uri : Option String
  pub ns_response_status : Option ℕ
  pub shopify_payload_uri : Option String
  pub payload_digest : Option Value
  pub started_at : ℕ
  pub finished_at : ℕ
  pub duration_ms : ℕ

pub record OrderAttempt : Type 0 where
  pub id : ℕ
  pub input : OrderAttemptInput
  pub open input use *
  pub created_at : ℕ

pub record OrderAttemptStore : Type 0 where
  pub rows : List OrderAttempt
  pub seq : ℕ

abbrev pub empty_attempts : OrderAttemptStore
empty_attempts = record { rows = []; seq = 0 }

unfoldable pub record_attempt : OrderAttemptInput → ℕ → M OrderAttemptStore OrderAttempt
record_attempt input now s =
    let row : OrderAttempt = record { id = s.seq + 1; input = input; created_at = now } in
    pure row (record { rows = s.rows ++ (row ∷ []); seq = s.seq + 1 })

unfoldable pub is_of : Environment → String → String → OrderAttempt → Bool
is_of env connection_id gid r =
    str_eq (environment_text r.environment) (environment_text env)
    && str_eq r.connection_id connection_id
    && str_eq r.shopify_order_gid gid

unfoldable pub list_by_order_gid :
    Environment → String → String → OrderAttemptStore → List OrderAttempt
list_by_order_gid env connection_id gid s =
    sort_desc (λ r. r.delivery_count) (keep (is_of env connection_id gid) s.rows)
