-- ===== src/Core/Xref.antt =====
-- packages/core/src/xref/xref-store.ts: the ledger that decides which delivery may write an order.
-- The per-key promise chain makes each call one atomic step on the rows of its key. `Date` is a
-- number of milliseconds, given to the call that reads the clock.
pub mod Machine
pub mod Exclusive
pub mod Keyed
pub mod Leaves
mod Tests
use Prim.Native.String.{◌++◌}
use dp_integrator.Base.{
  ℕ, String, [], Option, none, some, M, lift, pure, throw, ◌>>=◌, plain_error, or_else,
}
use dp_integrator.Base.Dict.{Dict, get, set, delete}
use dp_integrator.Core.Types.{System, netsuite}
use dp_integrator.Core.DedupKey.{DedupKeyParts, dedup_key}

pub data XrefStatus : Type 0 where
  pending synced error ignored : XrefStatus

pub record XrefRow : Type 0 where
  pub parts : DedupKeyParts
  pub open parts use *
  pub target_system : System
  pub target_id : Option String
  pub target_external : String
  pub source_hash : Option String
  pub status : XrefStatus
  pub last_synced_at : Option ℕ

-- `existing?.status` and `existing?.targetId`.
abbrev pub status_of : Option XrefRow → Option XrefStatus
status_of none = none
status_of (some row) = some row.status

abbrev pub target_of : Option XrefRow → Option String
target_of none = none
target_of (some row) = row.target_id

pub record ClaimInput : Type 0 where
  pub parts : DedupKeyParts
  pub target_system : System
  pub target_external : String
  pub source_hash : Option String

pub data ClaimResult : Type 0 where
  claimed already_claimed already_synced already_ignored : XrefRow → ClaimResult

pub record XrefStore : Type 0 where
  pub rows : Dict XrefRow

unfoldable pub empty_store : XrefStore
empty_store = record { rows = [] }

put : String → XrefRow → M XrefStore XrefRow
put key row s = pure row (record s { rows = set key row s.rows })

-- The `switch` on the status of the row that is there.
claim_existing : XrefRow → XrefStatus → ClaimResult
claim_existing row synced = already_synced row
claim_existing row ignored = already_ignored row
claim_existing row pending = already_claimed row
claim_existing row error = already_claimed row

unfoldable pub new_row : ClaimInput → XrefRow
new_row input = record {
  parts = input.parts;
  target_system = input.target_system;
  target_id = none;
  target_external = input.target_external;
  source_hash = input.source_hash;
  status = pending;
  last_synced_at = none;
}

claim_at : String → ClaimInput → Option XrefRow → M XrefStore ClaimResult
unfolding put
claim_at key input (some row) = pure (claim_existing row row.status)
claim_at key input none = do row ← put key (new_row input); pure (claimed row)

unfoldable pub claim : ClaimInput → M XrefStore ClaimResult
unfolding claim_at claim_existing
claim input = do key ← lift (dedup_key input.parts); λ s. claim_at key input (get key s.rows) s

unclaimed : String → String → M XrefStore XrefRow
unclaimed key what =
    throw (
      plain_error ("InMemoryXrefStore: cannot record " ++ (what ++ (" for unclaimed key " ++ key))))

found_row : String → String → Option XrefRow → M XrefStore XrefRow
found_row key what (some row) = pure row
found_row key what none = unclaimed key what

-- `existing`, or the exception of `recordSuccess` and `recordFailure`.
claimed_row : String → String → M XrefStore XrefRow
unfolding found_row unclaimed
claimed_row key what s = found_row key what (get key s.rows) s

succeeded : String → String → ℕ → XrefRow → XrefRow
succeeded target_id external_id now existing = record existing {
  target_id = some target_id;
  target_external = external_id;
  status = synced;
  last_synced_at = some now;
}

failed : Option String → XrefRow → XrefRow
failed none existing = record existing { status = error }
failed (some hash) existing = record existing { status = error; source_hash = some hash }

unfoldable pub record_success : DedupKeyParts → String → String → ℕ → M XrefStore XrefRow
unfolding put claimed_row succeeded
record_success parts target_id external_id now = do
  key ← lift (dedup_key parts)
  existing ← claimed_row key "success"
  put key (succeeded target_id external_id now existing)

unfoldable pub record_failure : DedupKeyParts → Option String → M XrefStore XrefRow
unfolding put claimed_row failed
record_failure parts source_hash = do
  key ← lift (dedup_key parts)
  existing ← claimed_row key "failure"
  put key (failed source_hash existing)

ignored_row : DedupKeyParts → Option XrefRow → XrefRow
ignored_row parts (some existing) = record existing { status = ignored }
ignored_row parts none = record {
  parts = parts;
  target_system = netsuite;
  target_id = none;
  target_external = "";
  source_hash = none;
  status = ignored;
  last_synced_at = none;
}

unfoldable pub mark_ignored : DedupKeyParts → M XrefStore XrefRow
unfolding put ignored_row
mark_ignored parts = do
  key ← lift (dedup_key parts)
  λ s. put key (ignored_row parts (get key s.rows)) s

unfoldable pub lookup : DedupKeyParts → M XrefStore (Option XrefRow)
lookup parts = do key ← lift (dedup_key parts); λ s. pure (get key s.rows) s

unfoldable pub remove : DedupKeyParts → M XrefStore (Option XrefRow)
remove parts = do
  key ← lift (dedup_key parts)
  λ s. pure (get key s.rows) (record s { rows = delete key s.rows })
