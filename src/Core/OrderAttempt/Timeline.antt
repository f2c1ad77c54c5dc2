-- ===== src/Core/OrderAttempt/Timeline.antt =====
-- The timeline of an order in packages/core/src/order-attempt/order-attempt-store.ts, and the attempts of
-- which it is made.
use mathlib.Core.List.{Perm, perm_append_singleton}
use mathlib.Core.List.Perm
use dp_integrator.Base.{
  ℕ, ◌+◌, String, List, [], ◌∷◌, ◌≡◌, ◌⊎◌, inl, inr, refl, true, keep, keep-concat,
  keep-concat_other, All, ◌++◌, Bool-cases, eq_iff, eq_refl, arith,
}
use dp_integrator.Base.Sort.{
  sort_desc, IsFalling, sort_desc-IsFalling, sort_desc-perm, sort_desc-All,
}
use dp_integrator.Core.Types.{Environment, environment_text, environment_text-injective}
use dp_integrator.Core.OrderAttempt.{
  OrderAttempt, OrderAttemptInput, OrderAttemptStore, record_attempt, is_of, list_by_order_gid,
}

-- The attempt is one of this very order.
abbrev pub IsOf : Environment → (connection_id gid : String) → OrderAttemptInput → Type 0
IsOf env connection_id gid input =
    (input.environment ≡ env)
    × (input.connection_id ≡ connection_id)
    × (input.shopify_order_gid ≡ gid)

module _ (env : Environment) (connection_id gid : String) where
  is_of-IsOf :
      (r : OrderAttempt) → is_of env connection_id gid r ≡ true → IsOf env connection_id gid r.input
  unfolding is_of
  is_of-IsOf r h = (
    environment_text-injective r.environment env
        (ground (arith, h, eq_iff (environment_text r.environment) (environment_text env))),
    ground (arith, h, eq_iff r.connection_id connection_id),
    ground (arith, h, eq_iff r.shopify_order_gid gid),
  )

  IsOf-is_of :
      (r : OrderAttempt) → IsOf env connection_id gid r.input → is_of env connection_id gid r ≡ true
  unfolding is_of
  IsOf-is_of r (e, c, g) =
      rw (e, c, g) (rw (eq_refl (environment_text env), eq_refl connection_id, eq_refl gid) refl)

  kept-IsOf :
      (rows : List OrderAttempt)
      → All
          (λ (r : OrderAttempt). IsOf env connection_id gid r.input)
          (keep (is_of env connection_id gid) rows)
  unfolding keep
  kept-IsOf [] = tt
  kept-IsOf (r ∷ rs) = elim (Bool-cases (is_of env connection_id gid r)) [
    | inl its ↦ rw its (is_of-IsOf r its, kept-IsOf rs)
    | inr other ↦ rw other (kept-IsOf rs)
  ]

  -- How the list of an order changes by one attempt: it gains the attempt, if it is the order's, and
  -- is the same otherwise.
  abbrev pub Grown : OrderAttempt → (before after : List OrderAttempt) → Type 0
  Grown row before after =
      (IsOf env connection_id gid row.input × Perm after (row ∷ before))
      ⊎ ((IsOf env connection_id gid row.input → ⊥) × (after ≡ before))

  record_attempt-Grown :
      (row : OrderAttempt) (rows : List OrderAttempt)
      → Grown row
          (sort_desc
            (λ (r : OrderAttempt). r.delivery_count)
            (keep (is_of env connection_id gid) rows))
          (sort_desc
            (λ (r : OrderAttempt). r.delivery_count)
            (keep (is_of env connection_id gid) (rows ++ (row ∷ []))))
  record_attempt-Grown row rows = elim (Bool-cases (is_of env connection_id gid row)) [
    | inl its ↦ inl (
      is_of-IsOf row its,
      rw (keep-concat (is_of env connection_id gid) rows row its) (
          Perm.trans (sort_desc-perm _ _) (
            Perm.trans (perm_append_singleton _ _) (Perm.cons _ (Perm.symm (sort_desc-perm _ _))))),
    )
    | inr other ↦ inr (
      (λ its. ground (arith, other, IsOf-is_of row its)),
      rw (keep-concat_other (is_of env connection_id gid) rows row other) refl,
    )
  ]

-- After any attempt is recorded, the list of an order's attempts falls by delivery count and holds
-- attempts of that environment, connection and order only; if the attempt is one of them, the list
-- is that of before and the attempt, in some order, and otherwise the list is as it was.
pub list-record_attempt :
    (input : OrderAttemptInput) (now : ℕ) (s : OrderAttemptStore) (env : Environment)
    (connection_id gid : String)
    → IsFalling
        (λ r. r.delivery_count)
        (list_by_order_gid env connection_id gid (record_attempt input now s).1)
      × All
          (λ (r : OrderAttempt). IsOf env connection_id gid r.input)
          (list_by_order_gid env connection_id gid (record_attempt input now s).1)
      × Grown env connection_id gid
          (record { id = s.seq + 1; input = input; created_at = now })
          (list_by_order_gid env connection_id gid s)
          (list_by_order_gid env connection_id gid (record_attempt input now s).1)
unfolding list_by_order_gid record_attempt
list-record_attempt input now s env connection_id gid = (
  sort_desc-IsFalling _ _,
  sort_desc-All _ _ _ (kept-IsOf env connection_id gid _),
  record_attempt-Grown env connection_id gid _ s.rows,
)
