-- ===== src/Core/Xref/Machine.antt =====
-- The store seen as one small state machine for each key.
use dp_integrator.Base.{
  ℕ, String, ◌≡◌, refl, Bool, true, false, Option, none, some, ok, throws, Result, arith, str_eq,
  if◌then◌else◌, eq_iff, inl, inr, Option-cases,
}
use dp_integrator.Base.Dict.{get, get-set, get-delete}
use dp_integrator.Core.DedupKey.{DedupKeyParts, dedup_key}
use dp_integrator.Core.Xref.{
  XrefStatus, pending, synced, error, ignored, ClaimInput, XrefStore, claim, record_success,
  record_failure, mark_ignored, lookup, remove, succeeded, failed, ignored_row, new_row, status_of,
}

-- A call that a client may make, with the time at which it is made.
pub data Call : Type 0 where
  claims : ClaimInput → Call
  succeeds : DedupKeyParts → String → String → ℕ → Call
  fails : DedupKeyParts → Option String → Call
  ignores : DedupKeyParts → Call
  looks_up : DedupKeyParts → Call
  removes : DedupKeyParts → Call

abbrev pub parts_of : Call → DedupKeyParts
parts_of (claims i) = i.parts
parts_of (succeeds p _ _ _) = p
parts_of (fails p _) = p
parts_of (ignores p) = p
parts_of (looks_up p) = p
parts_of (removes p) = p

abbrev pub is_removal : Call → Bool
is_removal (removes _) = true
is_removal _ = false

-- The store after a call, whether it returned or threw.
unfoldable pub after : Call → XrefStore → XrefStore
after (claims i) s = (claim i s).1
after (succeeds p t e now) s = (record_success p t e now s).1
after (fails p h) s = (record_failure p h s).1
after (ignores p) s = (mark_ignored p s).1
after (looks_up p) s = (lookup p s).1
after (removes p) s = (remove p s).1

abbrev pub status_at : String → XrefStore → Option XrefStatus
status_at key s = status_of (get key s.rows)

-- The abstract machine of one key; `none` is a key that was never claimed or was removed.
unfoldable pub next : Call → Option XrefStatus → Option XrefStatus
next (claims _) none = some pending
next (claims _) (some st) = some st
next (succeeds _ _ _ _) none = none
next (succeeds _ _ _ _) (some _) = some synced
next (fails _ _) none = none
next (fails _ _) (some _) = some error
next (ignores _) _ = some ignored
next (looks_up _) st = st
next (removes _) _ = none

-- A call concerns the key of its parts; one whose parts have no key concerns none.
abbrev pub is_key : String → Result String → Bool
is_key key (ok k) = str_eq k key
is_key key (throws _) = false

module _ (key : String) where
  abbrev Moves : Call → XrefStore → Result String → Type 0
  Moves c s r =
      status_at key (after c s)
      ≡ (if is_key key r then next c (status_at key s) else status_at key s)

  after-Moves :
      (c : Call) (s : XrefStore) (r : Result String) → dedup_key (parts_of c) ≡ r → Moves c s r
  unfolding after next claim record_success record_failure mark_ignored lookup remove new_row
  after-Moves (claims i) s (ok k) h = ground (arith, eq_iff k key, get-set k key (new_row i) s.rows)
  after-Moves (succeeds p t e now) s (ok k) h = elim (Option-cases (get k s.rows)) [
    | inl f ↦ ground (arith, eq_iff k key)
    | inr (row, f) ↦ ground (arith, eq_iff k key, get-set k key (succeeded t e now row) s.rows)
  ]
  after-Moves (fails p g) s (ok k) h = elim (Option-cases (get k s.rows)) [
    | inl f ↦ ground (arith, eq_iff k key)
    | inr (row, f) ↦ ground (arith, eq_iff k key, get-set k key (failed g row) s.rows)
  ]
  after-Moves (ignores p) s (ok k) h =
      ground (arith, eq_iff k key, get-set k key (ignored_row p (get k s.rows)) s.rows)
  after-Moves (looks_up p) s (ok k) h = ground arith
  after-Moves (removes p) s (ok k) h = ground (arith, eq_iff k key, get-delete k key s.rows)
  after-Moves (claims i) s (throws e) h = ground arith
  after-Moves c s (throws e) h = ground arith

  -- A call of the xref store moves the status machine of its own key by one step and leaves the
  -- status of every other key as it was; one whose parts have no key changes no status.
  pub after-next :
      (c : Call) (s : XrefStore)
      → status_at key (after c s) ≡ (
          if is_key key (dedup_key (parts_of c)) then next c (status_at key s) else status_at key s)
  after-next c s = after-Moves c s (dedup_key (parts_of c)) refl
