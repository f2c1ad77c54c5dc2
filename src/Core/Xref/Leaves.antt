-- ===== src/Core/Xref/Leaves.antt =====
-- What a call that returns leaves in the row of its key.
use dp_integrator.Base.{ℕ, String, ◌≡◌, none, some, ok, arith, eq_refl, Option-cases, inl, inr}
use dp_integrator.Base.Dict.{get, get-set}
use dp_integrator.Core.DedupKey.{DedupKeyParts, dedup_key}
use dp_integrator.Core.Xref.{
  XrefRow, XrefStore, synced, error, ignored, record_success, record_failure, mark_ignored,
  succeeded, failed, ignored_row, target_of,
}
use dp_integrator.Core.Xref.Machine.{status_at}

module _ (key : String) (parts : DedupKeyParts) (x : XrefStore) (k : dedup_key parts ≡ ok key) where
  pub failure_leaves :
      (row : XrefRow)
      → (record_failure parts none x).0 ≡ ok row
      → status_at key (record_failure parts none x).1 ≡ some error
  unfolding record_failure
  failure_leaves row h = elim (Option-cases (get key x.rows)) [
    | inl f ↦ ground arith
    | inr (old, f) ↦ ground (arith, get-set key key (failed none old) x.rows, eq_refl key)
  ]

  pub success_leaves :
      (id external : String) (now : ℕ) (row : XrefRow)
      → (record_success parts id external now x).0 ≡ ok row
      → (status_at key (record_success parts id external now x).1 ≡ some synced)
        × (target_of (get key (record_success parts id external now x).1.rows) ≡ some id)
  unfolding record_success
  success_leaves id external now row h = elim (Option-cases (get key x.rows)) [
    | inl f ↦ ground arith
    | inr (old, f) ↦
        ground (arith, get-set key key (succeeded id external now old) x.rows, eq_refl key)
  ]

  pub ignored_leaves : status_at key (mark_ignored parts x).1 ≡ some ignored
  unfolding mark_ignored
  ignored_leaves =
      ground (arith, get-set key key (ignored_row parts (get key x.rows)) x.rows, eq_refl key)
