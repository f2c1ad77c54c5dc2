-- ===== src/Functions/OrderImport/Stages/Kept.antt =====
-- What each stage keeps of an order.
use dp_integrator.Base.{
  String, false, List, [], Result, ok, throws, and_then, str_eq, map, ◌≡◌, ◌⊎◌, inl, inr, refl, ap,
  ◌∙◌, arith, Bool-cases,
}
use dp_integrator.Base.Value.{Value, str, obj, Fields, end, field, get_field}
use dp_integrator.Core.Types.{Connection}
use dp_integrator.Shopify.Order.{ShopifyOrder}
use dp_integrator.Engine.MappingResult.{MappingResult, mapped, parked}
use dp_integrator.NetSuite.Lines.{lines_of, snoc, lines_of-set_field}
use dp_integrator.NetSuite.PayloadBuilder.Reads.{line_of}
use dp_integrator.NetSuite.PayloadBuilder.Built.{Built, Discounted, build_order_payload-Built}
use dp_integrator.NetSuite.Tax.Header.{taxed, taxed-keeps}
use dp_integrator.NetSuite.Balancing.{
  Totals, apply_balancing, by_totals, balanced, default_balancing, totals_of, is_off,
  over_tolerance, diff_of,
}
use dp_integrator.NetSuite.Balancing.Agrees.{SameBut, kept_or_key}
use dp_integrator.NetSuite.ItemResolver.Resolved.{
  AllBecome, Resolved, resolve_item_references-Resolved,
}
use dp_integrator.Functions.OrderImport.World.{Staged, staged, parks}
use dp_integrator.Functions.OrderImport.Stages.{
  Stages, then_staged, staged_balanced, payload_stage, balancing_stage, items_stage,
}

-- The fields by which an order is booked on its customer, with its discount.
abbrev pub Carries : Fields → Fields → Type 0
Carries p q =
    (get_field "entity" q ≡ get_field "entity" p)
    × (get_field "discountItem" q ≡ get_field "discountItem" p)
    × (get_field "discountRate" q ≡ get_field "discountRate" p)

Carries-then : (p q r : Fields) → Carries p q → Carries q r → Carries p r
Carries-then p q r (a, b, c) (x, y, z) = (x ∙ a, y ∙ b, z ∙ c)

-- An order with a line item, on its customer, with its discount.
abbrev pub IsBooked : Connection → ShopifyOrder → (customer_internal_id : String) → Fields → Type 0
IsBooked connection order customer p =
    ((order.line_items ≡ []) → ⊥)
    × (get_field "entity" p ≡ obj (field "id" (str customer) end))
    × Discounted connection order p

pub Carries-IsBooked :
    (connection : Connection) (order : ShopifyOrder) (customer : String) (p q : Fields)
    → Carries p q
    → IsBooked connection order customer p
    → IsBooked connection order customer q
Carries-IsBooked connection order customer p q (a, b, c) (lines, entity, inl none_) =
    (lines, a ∙ entity, inl none_)
Carries-IsBooked connection order customer p q (a, b, c)
      (lines, entity, inr (cents, item, n, t, i, r)) =
    (lines, a ∙ entity, inr (cents, item, n, t, b ∙ i, c ∙ r))

-- A balanced payload differs at most in its items.
abbrev pub BalancedKept : Fields → Result Staged → Type 0
BalancedKept p (ok (staged q)) =
    SameBut "item" p q
    × ((lines_of "item" q ≡ lines_of "item" p)
        ⊎ ((v : Value) × (lines_of "item" q ≡ snoc (lines_of "item" p) v)))
BalancedKept p (ok (parks detail)) = Unit {0}
BalancedKept p (throws e) = Unit {0}

pub balancing_stage-Kept :
    {E : Type 0} (stages : Stages E) (p : Fields) (order : ShopifyOrder)
    → BalancedKept p (balancing_stage stages p order)
unfolding balancing_stage apply_balancing by_totals balanced
balancing_stage-Kept stages p order = by_read (totals_of p order)
  where
    by_read :
        (r : Result Totals)
        → BalancedKept p (
            and_then
              (and_then r (λ t. ok (by_totals default_balancing p order t)))
              (λ b. ok (staged_balanced b)))
    by_read (throws e) = tt
    by_read (ok t) = elim (Bool-cases (over_tolerance default_balancing (diff_of t))) [
      | inl over ↦ rw over tt
      | inr within ↦ elim (Bool-cases (is_off (diff_of t))) [
        | inl off ↦
            rw (within, off)
              ((λ k. kept_or_key "item" k _ p), inr (_, lines_of-set_field "item" _ p))
        | inr exact ↦ rw (within, exact) ((λ k. inr refl), inl refl)
      ]
    ]

-- The lines of an order, with at most one line behind them.
abbrev pub AreOf : ShopifyOrder → List Value → Type 0
AreOf order lines =
    (lines ≡ map line_of order.line_items)
    ⊎ ((v : Value) × (lines ≡ snoc (map line_of order.line_items) v))

-- What is known of an answer, if there is one.
abbrev pub Answered : {E A : Type 0} → (A → Type 0) → Result A × E → Type 0
Answered P (ok a, e) = P a
Answered P (throws x, e) = Unit {0}

module _ {E : Type 0} (stages : Stages E) (connection : Connection) (order : ShopifyOrder) where
  -- What may go to NetSuite: the order is booked on the customer, and its lines come from those of a
  -- payload by the answers of NetSuite.
  abbrev pub IsSent : (customer_internal_id : String) → Fields → Type 0
  IsSent customer final =
      IsBooked connection order customer final
      × ((lines : List Value) × AreOf order lines
          × AllBecome stages.ns connection.ns_account_id connection.default_item_id lines
              (lines_of "item" final))

  abbrev pub DraftOf : String → Staged → Type 0
  DraftOf customer (staged p) =
      IsBooked connection order customer p × (lines_of "item" p ≡ map line_of order.line_items)
  DraftOf customer (parks detail) = Unit {0}

  pub payload_stage-DraftOf :
      (customer : String) (e : E)
      → Answered (DraftOf customer) (payload_stage stages connection order customer e)
  unfolding payload_stage then_staged
  payload_stage-DraftOf customer e =
      by_built _
        (build_order_payload-Built (stages.lookups_for connection) connection order customer _ e)
    where
      by_built :
          (r : Result (MappingResult Fields) × E)
          → Built connection order customer r.0
          → Answered (DraftOf customer) (then_staged r)
      by_built (ok (mapped p), e) (some_line, lines, entity, discount) =
          ((some_line, entity, discount), lines)
      by_built (ok (parked r), e) b = tt
      by_built (throws x, e) b = tt

  pub tax-Carries : (p : Fields) → Carries p (taxed connection.tax_engine order p)
  tax-Carries p = (
    taxed-keeps connection.tax_engine order "entity" p refl,
    taxed-keeps connection.tax_engine order "discountItem" p refl,
    taxed-keeps connection.tax_engine order "discountRate" p refl,
  )

  pub tax-lines_of :
      (p : Fields) → lines_of "item" (taxed connection.tax_engine order p) ≡ lines_of "item" p
  tax-lines_of p = rw (taxed-keeps connection.tax_engine order "item" p refl) refl

  pub balanced-AreOf :
      (p q : Fields)
      → lines_of "item" p ≡ map line_of order.line_items
      → BalancedKept p (ok (staged q))
      → AreOf order (lines_of "item" q)
  balanced-AreOf p q of (same, inl as_before) = inl (as_before ∙ of)
  balanced-AreOf p q of (same, inr (v, more)) =
      inr (v, more ∙ ap (λ (lines : List Value). snoc lines v) of)

  pub SameBut-Carries : (p q : Fields) → SameBut "item" p q → Carries p q
  SameBut-Carries p q h = (at "entity" refl, at "discountItem" refl, at "discountRate" refl)
    where
      at : (k : String) → str_eq "item" k ≡ false → get_field k q ≡ get_field k p
      at k other = elim (h k) [ inl same ↦ ground (arith, same, other) | inr kept ↦ kept ]

  abbrev pub ItemsOf : Fields → Staged → Type 0
  ItemsOf p (staged q) =
      Carries p q
      × AllBecome stages.ns connection.ns_account_id connection.default_item_id (lines_of "item" p)
          (lines_of "item" q)
  ItemsOf p (parks detail) = Unit {0}

  pub items_stage-ItemsOf :
      (p : Fields) (e : E) → Answered (ItemsOf p) (items_stage stages connection p e)
  unfolding items_stage then_staged
  items_stage-ItemsOf p e = by_resolved _ (
      resolve_item_references-Resolved stages.ns connection.ns_account_id connection.default_item_id
        p e)
    where
      by_resolved :
          (r : Result (MappingResult Fields) × E)
          → Resolved stages.ns connection.ns_account_id connection.default_item_id p r.0
          → Answered (ItemsOf p) (then_staged r)
      by_resolved (ok (mapped q), e) (items, shipping, others) =
          ((at "entity" refl refl, at "discountItem" refl refl, at "discountRate" refl refl), items)
        where
          at :
              (k : String)
              → str_eq "item" k ≡ false
              → str_eq "shipping" k ≡ false
              → get_field k q ≡ get_field k p
          at k a b = elim (others k) [
            | inl same ↦ ground (arith, same, a)
            | inr rest ↦ elim rest [ inl same ↦ ground (arith, same, b) | inr kept ↦ kept ]
          ]
      by_resolved (ok (parked r), e) d = tt
      by_resolved (throws x, e) d = tt
