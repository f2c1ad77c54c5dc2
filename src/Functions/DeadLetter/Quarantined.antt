-- ===== src/Functions/DeadLetter/Quarantined.antt =====
-- What the error store holds after a dead-lettered message.
use dp_integrator.Base.{
  ℕ, ◌+◌, String, Bool, true, false, Option, none, some, Result, ok, throws, M, pure, resume,
  if◌then◌else◌, ◌==◌, ◌≡◌, ◌⊎◌, inl, inr, refl, ap, ◌∙◌, Bool-cases, arith,
}
use dp_integrator.Base.Value.{Value, Fields}
use dp_integrator.Core.Connections.{find_by_id}
use dp_integrator.Core.Types.{Connection, Environment}
use dp_integrator.Core.Errors.{
  ErrorStore, ErrorRecord, NewErrorInput, ErrorStatus, record_error, update_status, get,
}
use dp_integrator.Core.Errors.Records.{IsNumbered, row_of, record_error-get, quarantine-get}
use dp_integrator.Functions.DeadLetter.Silent.{Silent, note_order-Silent}
use dp_integrator.Functions.DeadLetter.{
  DlqHandlerDeps, Dlq, DlqOutcome, recorded, unrecorded, bad_envelope, unknown_connection,
  no_error_store, on_outside, in_errors, store_error, set_quarantined, unparseable, not_found,
  note_order, quarantine, by_connection, by_environment, by_envelope, handle_dead_lettered_order,
}
use dp_integrator.Functions.DeadLetter.Parse.{Envelope, parsed, bad, parse_envelope, key_of, text}
use dp_integrator.Functions.DeadLetter.Inputs.{TriggerMetadata}

module _ {E : Type 0} where
  -- The number that the next record gets.
  abbrev pub next : Dlq E → ℕ
  next w = w.errors.seq + 1

  -- One record is new, and every other number gives what it gave.
  abbrev Gets : Dlq E → Dlq E → ErrorRecord → Type 0
  Gets w v row = (j : ℕ) → get j v.errors ≡ (if next w == j then some row else get j w.errors)

  abbrev pub Others : Dlq E → Dlq E → Type 0
  Others w v = (j : ℕ) → ((next w == j) ≡ true) ⊎ (get j v.errors ≡ get j w.errors)

  abbrev pub Filed : ErrorStatus → Value → Dlq E → Dlq E → Type 0
  Filed status message w v =
      ((row : ErrorRecord) × (get (next w) v.errors ≡ some row)
        × (row.status ≡ status)
        × (row.envelope ≡ message))
      × Others w v

  abbrev pub Reported : Value → Dlq E → Result DlqOutcome × Dlq E → Type 0
  Reported message w (ok (recorded id key), v) =
      (id ≡ next w) × Filed ErrorStatus.quarantined message w v
  Reported message w (ok (unrecorded no_error_store detail), v) = v ≡ w
  Reported message w (ok (unrecorded bad_envelope detail), v) = Filed ErrorStatus.open_ message w v
  Reported message w (ok (unrecorded unknown_connection detail), v) =
      Filed ErrorStatus.open_ message w v
  Reported message w (throws e, v) = Others w v

  Gets-Others : (w v : Dlq E) (row : ErrorRecord) → Gets w v row → Others w v
  Gets-Others w v row g j = elim (Bool-cases (next w == j)) [
    | inl same ↦ inl same
    | inr other ↦ inr (g j ∙ rw other refl)
  ]

  Gets-Filed :
      (status : ErrorStatus) (message : Value) (w v : Dlq E) (row : ErrorRecord)
      → Gets w v row
      → row.status ≡ status
      → row.envelope ≡ message
      → Filed status message w v
  Gets-Filed status message w v row g s m =
      ((row, g (next w) ∙ ground arith, s, m), Gets-Others w v row g)

  unchanged : (w v : Dlq E) → v.errors ≡ w.errors → Others w v
  unchanged w v e j = inr (ap (get j) e)

module _ {E : Type 0} (deps : DlqHandlerDeps E) (message : Value) (t : TriggerMetadata) (w : Dlq E)
    (numbered : IsNumbered w.errors) where
  abbrev Goes : Result DlqOutcome × Dlq E → Type 0
  Goes r = Reported message w r

  -- The store is reached and has one record more, or the handler throws.
  then_store :
      (input : NewErrorInput) (k : ErrorRecord → M (Dlq E) DlqOutcome)
      → ((now : ℕ) (v : Dlq E)
          → v.errors ≡ (record_error input now w.errors).1
          → Goes (k (row_of input now w.errors) v))
      → Goes (resume (store_error deps input w) k)
  unfolding store_error on_outside in_errors record_error
  then_store input k h = by_reach (deps.reach w.outside)
    where
      by_reach :
          (r : Result (Unit {0}) × E)
          → Goes (
              resume
                (resume
                  (r.0, record w { outside = r.1 })
                  (λ _. in_errors deps (record_error input)))
                k)
      by_reach (ok u, e) =
          h (deps.now e)
            (record w { outside = e; errors = (record_error input (deps.now e) w.errors).1 }) refl
      by_reach (throws x, e) = unchanged w (record w { outside = e }) refl

  stored-Gets :
      (input : NewErrorInput) (now : ℕ) (v : Dlq E)
      → v.errors ≡ (record_error input now w.errors).1
      → Gets w v (row_of input now w.errors)
  stored-Gets input now v e j = ap (get j) e ∙ record_error-get input now j w.errors numbered

  abbrev given_up : NewErrorInput → (now later : ℕ) → ErrorRecord
  given_up input now later = record (row_of input now w.errors) {
    status = ErrorStatus.quarantined;
    updated_at = later;
  }

  then_quarantine :
      (input : NewErrorInput) (now : ℕ) (v : Dlq E) (k : M (Dlq E) DlqOutcome)
      → v.errors ≡ (record_error input now w.errors).1
      → ((later : ℕ) (u : Dlq E) → Gets w u (given_up input now later) → Goes (k u))
      → Goes (resume (set_quarantined deps (next w) v) (λ _. k))
  unfolding set_quarantined on_outside in_errors
  then_quarantine input now v k e h = by_reach (deps.reach v.outside)
    where
      after : ℕ → E → Dlq E
      after later f = record v {
        outside = f;
        errors = (update_status (next w) ErrorStatus.quarantined none later v.errors).1;
      }

      gets : (later : ℕ) (f : E) → Gets w (after later f) (given_up input now later)
      gets later f j =
          ap
            (λ (s : ErrorStore).
              get j (update_status (next w) ErrorStatus.quarantined none later s).1)
            e
          ∙ quarantine-get input now later j w.errors numbered

      by_update :
          (later : ℕ) (f : E) (r : Result ErrorRecord) → Goes (resume (r, after later f) (λ _. k))
      by_update later f (ok row) = h later (after later f) (gets later f)
      by_update later f (throws x) =
          Gets-Others w (after later f) (given_up input now later) (gets later f)

      by_reach :
          (r : Result (Unit {0}) × E)
          → Goes (
              resume
                (resume
                  (r.0, record v { outside = r.1 })
                  (λ _. in_errors deps (update_status (next w) ErrorStatus.quarantined none)))
                (λ _. k))
      by_reach (ok u, f) =
          by_update (deps.now f) f
            (update_status (next w) ErrorStatus.quarantined none (deps.now f) v.errors).0
      by_reach (throws x, f) =
          Gets-Others w (record v { outside = f }) (row_of input now w.errors)
            (stored-Gets input now v e)

  unparseable-Reported : (error : String) → Goes (unparseable deps message t error w)
  unfolding unparseable
  unparseable-Reported error =
      then_store _ _
        (λ now v e. Gets-Filed ErrorStatus.open_ message w v _ (stored-Gets _ now v e) refl refl)

  with_key :
      (r : Result String) (k : String → M (Dlq E) DlqOutcome)
      → ((key : String) → Goes (k key w))
      → Goes (resume (r, w) k)
  with_key (ok key) k h = h key
  with_key (throws e) k h = unchanged w w refl

  not_found-Reported : (m : Fields) → Goes (not_found deps message t m w)
  unfolding not_found
  not_found-Reported m = with_key (key_of m) _ (λ key.
      then_store _ _
        (λ now v e. Gets-Filed ErrorStatus.open_ message w v _ (stored-Gets _ now v e) refl refl))

  -- What is noted in the other stores changes nothing of it.
  then_noted :
      (env : Environment) (m : Fields) (key : String) (u : Dlq E) (row : ErrorRecord)
      → Gets w u row
      → row.status ≡ ErrorStatus.quarantined
      → row.envelope ≡ message
      → Goes (resume (note_order deps message t env m u) (λ _. pure (recorded (next w) key)))
  then_noted env m key u row g s e = by_note _ (note_order-Silent deps message t env m u)
    where
      by_note :
          (r : Result (Unit {0}) × Dlq E)
          → Silent deps u r
          → Goes (resume r (λ _. pure (recorded (next w) key)))
      by_note (ok done, v) same = (
        refl,
        Gets-Filed ErrorStatus.quarantined message w v row (λ j. ap (get j) same ∙ g j) s e,
      )
      by_note (throws x, v) never = elim never [ ]

  quarantine-Reported : (env : Environment) (m : Fields) → Goes (quarantine deps message t env m w)
  unfolding quarantine
  quarantine-Reported env m = with_key (key_of m) _ (λ key.
      then_store _ _ (λ now v e.
        then_quarantine _ now v _ e (λ later u g. then_noted env m key u _ g refl refl)))

  by_environment-Reported :
      (m : Fields) (env : Option Environment) → Goes (by_environment deps message t m env w)
  unfolding by_environment by_connection
  by_environment-Reported m none = not_found-Reported m
  by_environment-Reported m (some env) =
      by_connection_ (find_by_id env (text "connectionId" m) deps.connections)
    where
      by_connection_ : (c : Option Connection) → Goes (by_connection deps message t env m c w)
      by_connection_ none = not_found-Reported m
      by_connection_ (some connection) = quarantine-Reported env m

  by_envelope-Reported : (parse : Envelope) → Goes (by_envelope deps message t parse w)
  unfolding by_envelope
  by_envelope-Reported (bad error) = unparseable-Reported error
  by_envelope-Reported (parsed m) = by_environment-Reported m _

  -- From an error store without later numbers, whatever message the dead-letter handler is given
  -- and wherever the database fails: if it answers recorded, the new record of the store has the
  -- answered id, is quarantined and holds the message; if it answers unrecorded, the new record is
  -- open and holds the message, or, without an error store, nothing changed; in every case, also if
  -- it throws, each earlier record is as it was.
  pub handle_dead_lettered_order-Reported :
      (has_error_store : Bool)
      → Reported message w (handle_dead_lettered_order deps message t has_error_store w)
  unfolding handle_dead_lettered_order
  handle_dead_lettered_order-Reported false = refl
  handle_dead_lettered_order-Reported true = by_envelope-Reported (parse_envelope message)
