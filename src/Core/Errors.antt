-- ===== src/Core/Errors.antt =====
-- packages/core/src/errors: the classes of failures, and the store of error records. An id is its
-- sequence number, and the rows stand in the order in which they were recorded.
mod Tests
pub mod Records
use dp_integrator.Base.{
  ℕ, suc, ◌+◌, String, Bool, true, false, ◌&&◌, Option, none, some, List, [], ◌∷◌, ◌++◌, M, pure,
  throw, plain_error, ◌==◌, or_else, if◌then◌else◌,
}
use dp_integrator.Base.Value.{Value}

pub data ErrorClass : Type 0 where
  transient data_error auth unmapped_construct unknown : ErrorClass

unfoldable pub error_class_text : ErrorClass → String
error_class_text transient = "transient"
error_class_text data_error = "data"
error_class_text auth = "auth"
error_class_text unmapped_construct = "unmapped_construct"
error_class_text unknown = "unknown"

-- `RETRYABLE_CLASSES` holds `transient` alone.
unfoldable pub is_retryable : ErrorClass → Bool
is_retryable transient = true
is_retryable _ = false

pub data ErrorStatus : Type 0 where
  open_ retrying resolved ignored quarantined : ErrorStatus

pub record NewErrorInput : Type 0 where
  pub environment : String
  pub connection_id : String
  pub flow : String
  pub dedup_key : String
  pub error_class : ErrorClass
  pub message : String
  pub stack : Option String
  pub envelope : Value

pub record ErrorRecord : Type 0 where
  pub id : ℕ
  pub input : NewErrorInput
  pub open input use *
  pub retry_count : ℕ
  pub status : ErrorStatus
  pub created_at : ℕ
  pub updated_at : ℕ

pub record ErrorStore : Type 0 where
  pub rows : List ErrorRecord
  pub seq : ℕ

abbrev pub empty_error_store : ErrorStore
empty_error_store = record { rows = []; seq = 0 }

unfoldable pub record_error : NewErrorInput → ℕ → M ErrorStore ErrorRecord
record_error input now s =
    let row : ErrorRecord = record {
      id = s.seq + 1;
      input = input;
      retry_count = 0;
      status = open_;
      created_at = now;
      updated_at = now;
    } in
    pure row (record s { rows = s.rows ++ (row ∷ []); seq = s.seq + 1 })

unfoldable pub find_row : ℕ → List ErrorRecord → Option ErrorRecord
find_row id [] = none
find_row id (r ∷ rs) = if r.id == id then some r else find_row id rs

unfoldable pub get : ℕ → ErrorStore → Option ErrorRecord
get id s = find_row id s.rows

-- `this.rows.set(id, updated)` for a row that is there.
unfoldable pub replace : ℕ → ErrorRecord → List ErrorRecord → List ErrorRecord
replace id new [] = []
replace id new (r ∷ rs) = if r.id == id then new ∷ rs else r ∷ replace id new rs

-- The id is left out of the message.
update : ℕ → (ErrorRecord → ErrorRecord) → Option ErrorRecord → M ErrorStore ErrorRecord
update id f none = throw (plain_error "InMemoryErrorStore: no error record")
update id f (some old) = λ s. pure (f old) (record s { rows = replace id (f old) s.rows })

with_status : ErrorStatus → Option String → ℕ → ErrorRecord → ErrorRecord
with_status status none now old = record old { status = status; updated_at = now }
with_status status (some m) now old = record old {
  input = record (old.input) { message = m };
  status = status;
  updated_at = now;
}

unfoldable pub update_status : ℕ → ErrorStatus → Option String → ℕ → M ErrorStore ErrorRecord
unfolding update with_status
update_status id status message now s = update id (with_status status message now) (get id s) s

unfoldable pub increment_retry : ℕ → ℕ → M ErrorStore ErrorRecord
unfolding update
increment_retry id now s =
    update id (λ old. record old { retry_count = old.retry_count + 1; updated_at = now }) (get id s)
      s
