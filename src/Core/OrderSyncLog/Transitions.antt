-- ===== src/Core/OrderSyncLog/Transitions.antt =====
-- An upsert of the in-memory store, adapters/in-memory-order-sync-log-store.ts. The SQL of
-- adapters/postgres-order-sync-log-store.ts is not modelled: it keeps some fields that an input leaves out.
use dp_integrator.Base.{ℕ, ◌+◌, String, ◌≡◌, refl, Option, none, some, str_eq, eq_refl, ◌∙◌, false}
use dp_integrator.Base.Dict.{get, get-set}
use dp_integrator.Core.OrderSyncLog.{
  OrderSyncLog, OrderSyncLogInput, OrderSyncLogStore, upsert, key_of, log_row,
}

-- The identity of an order's row: the one that it had, or a new one.
abbrev pub identity : ℕ → ℕ → Option OrderSyncLog → ℕ × ℕ
identity fresh now none = (fresh, now)
identity fresh now (some old) = (old.id, old.created_at)

row_fields :
    (input : OrderSyncLogInput) (now fresh : ℕ) (o : Option OrderSyncLog)
    → ((log_row input now fresh o).input ≡ input)
      × ((log_row input now fresh o).updated_at ≡ now)
      × (((log_row input now fresh o).id, (log_row input now fresh o).created_at)
          ≡ identity fresh now o)
unfolding log_row
row_fields input now fresh none = (refl, refl, refl)
row_fields input now fresh (some old) = (refl, refl, refl)

-- In the in-memory store the row of the order holds the fields of the input after an upsert; it keeps
-- its id and creation time if there was a row; every other row stays.
pub upsert_lem :
    (input : OrderSyncLogInput) (now : ℕ) (s : OrderSyncLogStore)
    → ((row : OrderSyncLog) × (get (key_of input) (upsert input now s).1.rows ≡ some row)
        × (row.input ≡ input)
        × (row.updated_at ≡ now)
        × ((row.id, row.created_at) ≡ identity (s.seq + 1) now (get (key_of input) s.rows)))
      × ((k : String)
          → str_eq (key_of input) k ≡ false
          → get k (upsert input now s).1.rows ≡ get k s.rows)
unfolding upsert
upsert_lem input now s =
    let k = key_of input in
    let row = log_row input now (s.seq + 1) (get k s.rows) in
    let (same, at_now, kept) = row_fields input now (s.seq + 1) (get k s.rows) in
    (
      (row, get-set k k row s.rows ∙ rw (eq_refl k), same, at_now, kept),
      λ j ne. get-set k j row s.rows ∙ rw ne,
    )
