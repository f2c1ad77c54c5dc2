-- ===== src/Functions/DeadLetter.antt =====
-- apps/functions/src/triggers/order-dlq-handler.ts: a message that the bus has given up is recorded. `E` is
-- the state of the systems outside: the database server and the clock. The connections are the in-memory
-- repository, whose `findById` does not throw; the delivery count is a natural number.
mod Silent
pub mod Parse
pub mod Inputs
pub mod Quarantined
pub mod Erased
mod Tests
use Prim.Native.String.{◌++◌}
use dp_integrator.Base.{
  ℕ, String, Bool, true, false, ◌&&◌, ◌||◌, not, Option, none, some, List, [], ◌∷◌, Result, ok,
  throws, M, pure, lift, resume, ◌>>=◌, ◌>>◌, or_else, ltb, if◌then◌else◌,
}
use dp_integrator.Base.Text.{is_empty, join}
use dp_integrator.Base.Search.{numeric_tail}
use dp_integrator.Base.Print.{string_of, decimal}
use dp_integrator.Base.Value.{
  Value, undefined, null, nan, bool, num, str, obj, arr, Fields, end, field, get_field,
}
use dp_integrator.Core.Types.{Connection, Environment, environment_text, environment_of}
use dp_integrator.Core.DedupKey.{checked}
use dp_integrator.Core.Connections.{ConnectionsRepo, find_by_id}
use dp_integrator.Core.Errors.{
  ErrorStore, ErrorRecord, NewErrorInput, ErrorClass, record_error, update_status, ErrorStatus,
}
use dp_integrator.Core.OrderAttempt.{
  OrderAttemptStore, OrderAttemptInput, OrderAttemptOutcome, record_attempt,
}
use dp_integrator.Core.OrderSyncLog.{
  OrderSyncLogStore, OrderSyncLogInput, OrderSyncLog, upsert, find_by_order_gid,
}
use dp_integrator.Core.Queue.Message.{type_of, is_one, missing_text, text_of}
use dp_integrator.Functions.DeadLetter.Parse.{Envelope, parsed, bad, parse_envelope, text, key_of}
use dp_integrator.Functions.DeadLetter.Inputs.{
  TriggerMetadata, summary, error_input, attempt_input, bumped,
}

-- `reach` is the way to the database before each call of a store there, which may throw.
pub record DlqHandlerDeps (E : Type 0) : Type 0 where
  pub environment : Environment
  pub connections : ConnectionsRepo
  pub now : E → ℕ
  pub reach : M E (Unit {0})

-- The stores; `none` is one that is not wired.
pub record Dlq (E : Type 0) : Type 0 where
  pub errors : ErrorStore
  pub attempts : Option OrderAttemptStore
  pub log : Option OrderSyncLogStore
  pub outside : E

pub data UnrecordedReason : Type 0 where
  bad_envelope unknown_connection no_error_store : UnrecordedReason

pub data DlqOutcome : Type 0 where
  recorded : (error_id : ℕ) → (dedup : String) → DlqOutcome
  unrecorded : UnrecordedReason → (detail : String) → DlqOutcome

module _ {E : Type 0} (deps : DlqHandlerDeps E) where
  unfoldable pub on_outside : {A : Type 0} → M E A → M (Dlq E) A
  on_outside m w = let (r, e) = m w.outside in (r, record w { outside = e })

  -- A call of the error store, with the time of the call.
  unfoldable pub in_errors : {A : Type 0} → (ℕ → M ErrorStore A) → M (Dlq E) A
  in_errors m w = let (r, s) = m (deps.now w.outside) w.errors in (r, record w { errors = s })

  unfoldable pub store_error : NewErrorInput → M (Dlq E) ErrorRecord
  store_error input = on_outside deps.reach >> in_errors (record_error input)

  unfoldable pub set_quarantined : ℕ → M (Dlq E) ErrorRecord
  set_quarantined id =
      on_outside deps.reach >> in_errors (update_status id ErrorStatus.quarantined none)

  -- `try { … } catch { }`.
  unfoldable pub swallow : M (Dlq E) (Unit {0}) → M (Dlq E) (Unit {0})
  swallow m w = let (r, v) = m w in (ok tt, v)

  unfoldable pub in_attempts : OrderAttemptInput → Option OrderAttemptStore → M (Dlq E) (Unit {0})
  in_attempts input none w = pure tt w
  in_attempts input (some s) w =
      pure tt (record w { attempts = some (record_attempt input (deps.now w.outside) s).1 })

  unfoldable pub record_quarantine :
      Environment → Fields → (delivery_count : ℕ) → (detail : String) → M (Dlq E) (Unit {0})
  record_quarantine env m count detail w =
      swallow
        (on_outside deps.reach >> (λ v.
          in_attempts (attempt_input env m count detail (deps.now w.outside)) v.attempts v))
        w

  unfoldable pub in_log : OrderSyncLogInput → Option OrderSyncLogStore → M (Dlq E) (Unit {0})
  in_log input none w = pure tt w
  in_log input (some s) w =
      pure tt (record w { log = some (upsert input (deps.now w.outside) s).1 })

  unfoldable pub find_log : Environment → Fields → Option OrderSyncLogStore → Option OrderSyncLog
  find_log env m none = none
  find_log env m (some s) = find_by_order_gid env (text "connectionId" m) (text "orderGid" m) s

  unfoldable pub bump_existing :
      Environment → Fields → (delivery_count : ℕ) → Option OrderSyncLog → M (Dlq E) (Unit {0})
  bump_existing env m count none = pure tt
  bump_existing env m count (some existing) =
      on_outside deps.reach >> (λ v. in_log (bumped env m count existing) v.log v)

  unfoldable pub bump_log : Environment → Fields → (delivery_count : ℕ) → M (Dlq E) (Unit {0})
  bump_log env m count =
      swallow (on_outside deps.reach >> (λ v. bump_existing env m count (find_log env m v.log) v))

  -- `if (store && deliveryCount > 0) …`.
  unfoldable pub when_wired :
      {S : Type 0} → Option S → (delivery_count : ℕ) → M (Dlq E) (Unit {0}) → M (Dlq E) (Unit {0})
  when_wired none count act w = pure tt w
  when_wired (some s) count act w = let done = act w in if ltb 0 count then done else pure tt w

  module _ (message : Value) (t : TriggerMetadata) where
    unfoldable pub unparseable : String → M (Dlq E) DlqOutcome
    unparseable error =
        store_error (
          error_input (environment_text deps.environment) "unknown" "unparseable"
            ("DLQ envelope unparseable: " ++ error) message)
        >> pure (unrecorded bad_envelope error)

    unfoldable pub not_found : Fields → M (Dlq E) DlqOutcome
    not_found m = do
      key ← lift (key_of m)
      _ ← store_error (
          error_input (text "environment" m) (text "connectionId" m) key
            ("DLQ: connection '"
              ++ (text "connectionId" m
                  ++ ("' not found for env '" ++ (text "environment" m ++ "'"))))
            message)
      pure (unrecorded unknown_connection ("connectionId=" ++ text "connectionId" m))

    -- Once the row is quarantined: the attempt and the sync log, if they can be written.
    unfoldable pub note_order : Environment → Fields → M (Dlq E) (Unit {0})
    note_order env m w =
        resume
          (when_wired w.attempts t.delivery_count
            (record_quarantine env m t.delivery_count (summary t)) w)
          (λ _ v. when_wired v.log t.delivery_count (bump_log env m t.delivery_count) v)

    unfoldable pub quarantine : Environment → Fields → M (Dlq E) DlqOutcome
    quarantine env m = do
      key ← lift (key_of m)
      row ←
          store_error
            (error_input (text "environment" m) (text "connectionId" m) key (summary t) message)
      _ ← set_quarantined row.id
      _ ← note_order env m
      pure (recorded row.id key)

    unfoldable pub by_connection : Environment → Fields → Option Connection → M (Dlq E) DlqOutcome
    by_connection env m none = not_found m
    by_connection env m (some connection) = quarantine env m

    -- A text that is no environment names no connection: a key of the repository with such a text before
    -- its first `|` has the `|` of a longer one in it, and `dedupKey` throws on that in either branch.
    unfoldable pub by_environment : Fields → Option Environment → M (Dlq E) DlqOutcome
    by_environment m none = not_found m
    by_environment m (some env) =
        by_connection env m (find_by_id env (text "connectionId" m) deps.connections)

    unfoldable pub by_envelope : Envelope → M (Dlq E) DlqOutcome
    by_envelope (bad error) = unparseable error
    by_envelope (parsed m) = by_environment m (environment_of (text "environment" m))

    -- `has_error_store` says that the error store is wired.
    unfoldable pub handle_dead_lettered_order : (has_error_store : Bool) → M (Dlq E) DlqOutcome
    handle_dead_lettered_order false =
        pure (unrecorded no_error_store "bootstrap missing PG / errorStore")
    handle_dead_lettered_order true = by_envelope (parse_envelope message)
