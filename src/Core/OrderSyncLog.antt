-- ===== src/Core/OrderSyncLog.antt =====
-- packages/core/src/order-sync-log/order-sync-log-store.ts: where each order landed. The Shopify
-- dates stay the texts that they are parsed from; an id is its sequence number.
pub mod Transitions
use Prim.Native.String.{◌++◌}
use dp_integrator.Base.{
  ℕ, ◌+◌, String, Bool, true, ◌&&◌, Option, none, some, List, [], ◌∷◌, M, pure, or_else, str_eq,
  keep,
}
use dp_integrator.Base.Dict.{Dict, get, set}
use dp_integrator.Core.Types.{Environment, environment_text}

pub data OrderSyncLogStatus : Type 0 where
  imported parked ignored : OrderSyncLogStatus

pub data NsRecordType : Type 0 where
  salesorder cashsale : NsRecordType

pub record OrderSyncLogInput : Type 0 where
  pub environment : Environment
  pub connection_id : String
  pub shopify_order_gid : String
  pub shopify_order_id : String
  pub shopify_order_name : Option String
  pub shopify_created_at : Option String
  pub shopify_processed_at : Option String
  pub shopify_updated_at : Option String
  pub customer_email : Option String
  pub currency_code : Option String
  pub total_price : Option String
  pub subtotal_price : Option String
  pub total_tax : Option String
  pub total_discounts : Option String
  pub total_shipping : Option String
  pub status : OrderSyncLogStatus
  pub ns_account_id : Option String
  pub ns_record_type : Option NsRecordType
  pub ns_internal_id : Option String
  pub ns_tran_id : Option String
  pub park_stage : Option String
  pub park_detail : Option String
  pub park_error_class : Option String
  pub ignored_reason : Option String
  pub synced_at : Option ℕ
  pub attempt_count : Option ℕ
  pub last_delivery_count : Option ℕ
  pub last_outbound_payload_uri : Option String
  pub last_inbound_envelope_uri : Option String

pub record OrderSyncLog : Type 0 where
  pub id : ℕ
  pub input : OrderSyncLogInput
  pub open input use *
  pub created_at : ℕ
  pub updated_at : ℕ

pub record OrderSyncLogStore : Type 0 where
  pub rows : Dict OrderSyncLog
  pub seq : ℕ

abbrev pub empty_log : OrderSyncLogStore
empty_log = record { rows = []; seq = 0 }

unfoldable pub log_key : Environment → String → String → String
log_key env connection_id gid = environment_text env ++ ("|" ++ (connection_id ++ ("|" ++ gid)))

abbrev pub key_of : OrderSyncLogInput → String
key_of input = log_key input.environment input.connection_id input.shopify_order_gid

-- The row that replaces `existing`: its id and its creation time stay, all else is the input's.
log_row : OrderSyncLogInput → ℕ → ℕ → Option OrderSyncLog → OrderSyncLog
log_row input now fresh none = record {
  id = fresh;
  input = input;
  created_at = now;
  updated_at = now;
}
log_row input now fresh (some old) = record {
  id = old.id;
  input = input;
  created_at = old.created_at;
  updated_at = now;
}

seq_after : ℕ → Option OrderSyncLog → ℕ
seq_after seq none = seq + 1
seq_after seq (some old) = seq

unfoldable pub upsert : OrderSyncLogInput → ℕ → M OrderSyncLogStore OrderSyncLog
unfolding log_row seq_after
upsert input now s =
    let existing = get (key_of input) s.rows in
    let row = log_row input now (s.seq + 1) existing in
    pure row (record { rows = set (key_of input) row s.rows; seq = seq_after s.seq existing })

unfoldable pub find_by_order_gid :
    Environment → String → String → OrderSyncLogStore → Option OrderSyncLog
find_by_order_gid env connection_id gid s = get (log_key env connection_id gid) s.rows
