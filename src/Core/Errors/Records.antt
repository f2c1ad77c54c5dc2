-- ===== src/Core/Errors/Records.antt =====
-- The store of error records of packages/core/src/errors: what a new record and a change of one do to its
-- rows.
use dp_integrator.Base.{
  ℕ, ◌+◌, ◌≤◌, ◌<◌, ◌≡◌, refl, none, some, List, [], ◌∷◌, ◌++◌, arith, ◌==◌, All, if◌then◌else◌,
  ◌∙◌, Option, Result, ok, throws,
}
use dp_integrator.Core.Errors.{
  ErrorRecord, NewErrorInput, ErrorStatus, ErrorStore, quarantined, open_, record_error, find_row,
  get, replace, update_status, update, with_status, increment_retry,
}

-- No row has a number that is still to be given.
abbrev pub IsNumbered : ErrorStore → Type 0
IsNumbered s = All (λ (r : ErrorRecord). r.id ≤ s.seq) s.rows

find_concat :
    (n j : ℕ) (rows : List ErrorRecord) (new : ErrorRecord)
    → All (λ (r : ErrorRecord). r.id ≤ n) rows
    → n < new.id
    → find_row j (rows ++ (new ∷ [])) ≡ (if new.id == j then some new else find_row j rows)
unfolding find_row
find_concat n j [] new a h = refl
find_concat n j (r ∷ rs) new a h = ground (arith, find_concat n j rs new a.1)

find_replace :
    (id j : ℕ) (rows : List ErrorRecord) (old new : ErrorRecord)
    → find_row id rows ≡ some old
    → new.id ≡ id
    → find_row j (replace id new rows) ≡ (if id == j then some new else find_row j rows)
unfolding find_row replace
find_replace id j [] old new f e = ground arith
find_replace id j (r ∷ rs) old new f e = ground (arith, find_replace id j rs old new)

abbrev pub row_of : NewErrorInput → ℕ → ErrorStore → ErrorRecord
row_of input now s = record {
  id = s.seq + 1;
  input = input;
  retry_count = 0;
  status = open_;
  created_at = now;
  updated_at = now;
}

pub record_error-get :
    (input : NewErrorInput) (now j : ℕ) (s : ErrorStore)
    → IsNumbered s
    → get j (record_error input now s).1
      ≡ (if (s.seq + 1) == j then some (row_of input now s) else get j s)
unfolding record_error get
record_error-get input now j s v = find_concat s.seq j s.rows (row_of input now s) v (omega arith)

update_status-get :
    (id j later : ℕ) (status : ErrorStatus) (s : ErrorStore) (old : ErrorRecord)
    → get id s ≡ some old
    → old.id ≡ id
    → get j (update_status id status none later s).1
      ≡ (if id == j then some (with_status status none later old) else get j s)
unfolding update_status
update_status-get id j later status s old f e =
    rw (f, update)
      (unfold get with_status in
        find_replace id j s.rows old (record old { status = status; updated_at = later }) f e)

-- An error record that is entered in a store without later numbers and then quarantined is found
-- under its new number as quarantined, with the input it was given; every other number gives what
-- it gave.
pub quarantine-get :
    (input : NewErrorInput) (now later j : ℕ) (s : ErrorStore)
    → IsNumbered s
    → get j (update_status (s.seq + 1) quarantined none later (record_error input now s).1).1 ≡ (
        if (s.seq + 1) == j
        then some (record (row_of input now s) { status = quarantined; updated_at = later })
        else get j s)
unfolding with_status
quarantine-get input now later j s v =
    let found : get (s.seq + 1) (record_error input now s).1 ≡ some (row_of input now s) =
      record_error-get input now (s.seq + 1) s v ∙ ground arith in
    update_status-get (s.seq + 1) j later quarantined _ (row_of input now s) found refl
    ∙ ground (arith, record_error-get input now j s v)

-- What `increment_retry` leaves, by whether the store has the number.
abbrev pub Retried : ℕ → ℕ → ErrorStore → Result ErrorRecord × ErrorStore → Type 0
Retried id now s (throws e, v) = (get id s ≡ none) × (v ≡ s)
Retried id now s (ok row, v) =
    ((old : ErrorRecord) × (get id s ≡ some old)
      × (row ≡ record old { retry_count = old.retry_count + 1; updated_at = now }))
    × ((j : ℕ) → get j v ≡ (if id == j then some row else get j s))

find_row-id :
    (id : ℕ) (rows : List ErrorRecord) (old : ErrorRecord)
    → find_row id rows ≡ some old
    → old.id ≡ id
unfolding find_row
find_row-id id [] old f = ground arith
find_row-id id (r ∷ rs) old f = ground (arith, find_row-id id rs old)

-- A retry of an error record that the store has raises its retry count by one, sets the time of its
-- change and leaves its other fields and every other number as they were; the retry of a number
-- that the store does not have throws and changes nothing.
pub increment_retry-Retried :
    (id now : ℕ) (s : ErrorStore) → Retried id now s (increment_retry id now s)
unfolding increment_retry update get
increment_retry-Retried id now s = by_row (get id s) refl
  where
    by_row :
        (o : Option ErrorRecord)
        → get id s ≡ o
        → Retried id now s (
            update id
              (λ old. record old { retry_count = old.retry_count + 1; updated_at = now })
              o
              s)
    by_row none f = (f, refl)
    by_row (some old) f =
        ((old, f, refl), λ j. find_replace id j s.rows old _ f (find_row-id id s.rows old f))
