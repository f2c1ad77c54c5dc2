-- ===== src/Core/Xref/Keyed.antt =====
-- The keys of the rows of the ledger, packages/core/src/xref/xref-store.ts.
use dp_integrator.Base.{
  String, ◌≡◌, refl, Option, none, some, ok, throws, Result, arith, eq_iff, Option-cases, inl, inr,
}
use dp_integrator.Base.Dict.{get, get-set, get-delete}
use dp_integrator.Core.DedupKey.{DedupKeyParts, dedup_key}
use dp_integrator.Core.DedupKey.Injective.{dedup_key-injective}
use dp_integrator.Core.Xref.{
  XrefRow, XrefStore, empty_store, claim, record_success, record_failure, mark_ignored, lookup,
  remove, succeeded, failed, ignored_row, new_row,
}
use dp_integrator.Core.Xref.Machine.{
  Call, claims, succeeds, fails, ignores, looks_up, removes, after, parts_of,
}

abbrev pub IsKeyed : String → Option XrefRow → Type 0
IsKeyed key none = Unit {0}
IsKeyed key (some row) = dedup_key row.parts ≡ ok key

abbrev pub WellKeyed : XrefStore → Type 0
WellKeyed s = (key : String) → IsKeyed key (get key s.rows)

abbrev Keeps : Call → XrefStore → String → Type 0
Keeps c s key = IsKeyed key (get key (after c s).rows)

after-IsKeyed :
    (c : Call) (s : XrefStore) (key : String) (r : Result String)
    → WellKeyed s
    → dedup_key (parts_of c) ≡ r
    → Keeps c s key
unfolding after claim record_success record_failure mark_ignored lookup remove new_row
after-IsKeyed (claims i) s key (ok k) v h =
    ground (arith, eq_iff k key, v key, get-set k key (new_row i) s.rows)
after-IsKeyed (succeeds p t e now) s key (ok k) v h = elim (Option-cases (get k s.rows)) [
  | inl f ↦ ground (arith, eq_iff k key, v key)
  | inr (row, f) ↦ ground (arith, eq_iff k key, v key, get-set k key (succeeded t e now row) s.rows)
]
after-IsKeyed (fails p g) s key (ok k) v h = elim (Option-cases (get k s.rows)) [
  | inl f ↦ ground (arith, eq_iff k key, v key)
  | inr (row, f) ↦ ground (arith, eq_iff k key, v key, get-set k key (failed g row) s.rows)
]
after-IsKeyed (ignores p) s key (ok k) v h =
    ground (arith, eq_iff k key, v key, get-set k key (ignored_row p (get k s.rows)) s.rows)
after-IsKeyed (looks_up p) s key (ok k) v h = ground (arith, v key)
after-IsKeyed (removes p) s key (ok k) v h =
    ground (arith, eq_iff k key, v key, get-delete k key s.rows)
after-IsKeyed (claims i) s key (throws e) v h = ground (arith, v key)
after-IsKeyed c s key (throws e) v h = ground (arith, v key)

-- Every call of the xref store keeps each row under the dedup key of its own parts, whether it
-- returns or throws.
pub after-WellKeyed : (c : Call) (s : XrefStore) → WellKeyed s → WellKeyed (after c s)
after-WellKeyed c s v key = after-IsKeyed c s key (dedup_key (parts_of c)) v refl

-- In a ledger whose rows stand under the keys of their own parts, a lookup returns only a row of
-- the very entity that it was asked for.
pub lookup-parts :
    (p : DedupKeyParts) (s : XrefStore) (row : XrefRow)
    → WellKeyed s
    → (lookup p s).0 ≡ ok (some row)
    → row.parts ≡ p
unfolding lookup
lookup-parts p s row v h = go (dedup_key p) refl
  where
    go : (r : Result String) → dedup_key p ≡ r → row.parts ≡ p
    go (ok k) e = dedup_key-injective row.parts p k (ground (arith, v k)) e
    go (throws x) e = ground arith

pub empty_store-WellKeyed : WellKeyed empty_store
unfolding empty_store get
empty_store-WellKeyed key = tt
