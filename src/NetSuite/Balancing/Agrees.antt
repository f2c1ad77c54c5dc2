-- ===== src/NetSuite/Balancing/Agrees.antt =====
-- The total of a payload after `applyBalancing`, and an amount that is no number.
use mathlib.Core.Path.{fun_ext}
use mathlib.Core.List.{map-append}
use mathlib.Core.Option.{some-injective}
use dp_integrator.Base.{
  String, true, Option, none, some, List, [], ◌∷◌, ◌++◌, Result, ok, throws, and_then, map, ltb,
  ◌≡◌, refl, sym, ◌⊎◌, inl, inr, arith, ◌≤◌, ◌<◌, Bool-cases, str_eq, ap, ◌∙◌,
}
use dp_integrator.Base.Int.{ℤ, pos_part, neg_part, ◌+ℤ◌, ◌-ℤ◌, abs, is_zero, int_laws, eq_of_parts}
use dp_integrator.Base.Value.{get_field-set_field, Value, Fields, set_field, get_field}
use dp_integrator.Base.Decimal.{value_of_cents, cents_of, round_cents}
use dp_integrator.Shopify.Order.{ShopifyOrder}
use dp_integrator.Engine.MappingResult.{MappingResult, mapped, parked}
use dp_integrator.NetSuite.Lines.{
  lines_of, sublist, field_of, snoc, lines_of-set_field, lines_of-other,
}
use dp_integrator.NetSuite.Balancing.{
  BalancingOptions, BalancedPayload, Totals, totals_of, ns_total, diff_of, balanced, is_off,
  over_tolerance, by_totals, apply_balancing, balancing_line, add_amounts, add_amount, sum_amounts,
  plus, minus, parse_amount, sublist_total,
}

-- A number of cents is read as itself.
cents_of-value : (c : ℤ) → cents_of (value_of_cents c) ≡ some c
unfolding cents_of round_cents
cents_of-value c = ap some (ground arith)

and_then_assoc :
    {A B C : Type 0} (r : Result A) (f : A → Result B) (g : B → Result C)
    → and_then (and_then r f) g ≡ and_then r (λ a. and_then (f a) g)
and_then_assoc (ok a) f g = refl
and_then_assoc (throws e) f g = refl

and_then_ok :
    {A B : Type 0} (r : Result A) (f : A → Result B) (b : B)
    → and_then r f ≡ ok b
    → (a : A) × (r ≡ ok a) × (f a ≡ ok b)
and_then_ok (ok a) f b h = (a, refl, h)
and_then_ok (throws e) f b h = absurd (ground (arith, h))

and_then_id : {A : Type 0} (r : Result A) → and_then r (λ a. ok a) ≡ r
and_then_id (ok a) = refl
and_then_id (throws e) = refl

add_amounts-snoc :
    (vs : List Value) (t : Option ℤ) (v : Value)
    → add_amounts t (vs ++ (v ∷ [])) ≡ and_then (add_amounts t vs) (λ u. add_amount u v)
unfolding add_amounts
add_amounts-snoc [] t v = and_then_id (add_amount t v)
add_amounts-snoc (w ∷ vs) t v =
    ap (and_then (add_amount t w)) (fun_ext (λ u. add_amounts-snoc vs u v))
    ∙ sym (and_then_assoc (add_amount t w) _ _)

module _ (payload : Fields) (order : ShopifyOrder) where
  -- What it takes to read the totals.
  abbrev HasTotals : Totals → Type 0
  HasTotals t =
      (parse_amount order.total_price.amount ≡ ok t.shopify)
      × (parse_amount order.total_tax.amount ≡ ok t.tax)
      × (sublist_total "shipping" payload ≡ ok t.shipping)
      × (sublist_total "item" payload ≡ ok t.lines)
      × (parse_amount order.total_discounts.amount ≡ ok t.discounts)

  totals_of-HasTotals : (t : Totals) → totals_of payload order ≡ ok t → HasTotals t
  unfolding totals_of
  totals_of-HasTotals t h = ground (arith, h)

  HasTotals-totals_of : (t : Totals) → HasTotals t → totals_of payload order ≡ ok t
  unfolding totals_of
  HasTotals-totals_of t (a, b, c, d, e) = rw (a, b, c, d, e) refl

pub zero_diff : (a b : ℤ) → is_zero (a -ℤ b) ≡ true → b ≡ a
unfolding ◌-ℤ◌
zero_diff a b h = ground (arith, h)

-- The sum of the amounts of lines with one more behind them.
sum_amounts-snoc :
    (lines : List Value) (line : Value) (c : ℤ) (u : Option ℤ)
    → field_of "amount" line ≡ value_of_cents c
    → sum_amounts (map (field_of "amount") lines) ≡ ok u
    → sum_amounts (map (field_of "amount") (snoc lines line)) ≡ ok (plus u (some c))
unfolding sum_amounts add_amount
sum_amounts-snoc lines line c u e h =
    rw (map-append, e, add_amounts-snoc, h)
      (ap (λ (x : Option ℤ). ok (plus u x)) (cents_of-value c))

amount_of_line :
    (options : BalancingOptions) (c : ℤ)
    → field_of "amount" (balancing_line options (some c)) ≡ value_of_cents c
unfolding balancing_line get_field
amount_of_line options c = refl

-- The line lifts the total to that of the order.
lifted_total :
    (l s : Option ℤ) (tax d n total : ℤ)
    → minus (plus (plus l s) (some tax)) (some d) ≡ some n
    → minus (plus (plus (plus l (some (total -ℤ n))) s) (some tax)) (some d) ≡ some total
lifted_total (some l) (some s) tax d n total h =
    let e : l +ℤ s +ℤ tax -ℤ d ≡ n = some-injective _ _ h in
    ap some (eq_of_parts _ _ (omega (int_laws, ap pos_part e, ap neg_part e)))
lifted_total (some l) none tax d n total h = absurd (cc (h))
lifted_total none s tax d n total h = absurd (cc (h))

-- The other fields of a payload are those of another.
abbrev pub SameBut : String → Fields → Fields → Type 0
SameBut key p q = (k : String) → (str_eq key k ≡ true) ⊎ (get_field k q ≡ get_field k p)

pub kept_or_key :
    (key k : String) (v : Value) (p : Fields)
    → (str_eq key k ≡ true) ⊎ (get_field k (set_field key v p) ≡ get_field k p)
kept_or_key key k v p = elim (Bool-cases (str_eq key k)) [
  | inl same ↦ inl same
  | inr other ↦ inr (rw get_field-set_field (rw other refl))
]

module _ (options : BalancingOptions) (payload : Fields) (order : ShopifyOrder) (t : Totals) where
  -- Parked only over the tolerance. Booked only within it, for the very total of the order, with at
  -- most the balancing line behind the lines and every other field as it was.
  abbrev pub Agreed : ℤ → Result (MappingResult BalancedPayload) → Type 0
  Agreed n (ok (mapped b)) =
      (abs (t.shopify -ℤ n) ≤ options.tolerance)
      × ((t' : Totals) × (totals_of b.payload order ≡ ok t') × (ns_total t' ≡ some t.shopify))
      × ((lines_of "item" b.payload ≡ lines_of "item" payload)
          ⊎ (lines_of "item" b.payload
              ≡ snoc (lines_of "item" payload) (balancing_line options (some (t.shopify -ℤ n)))))
      × SameBut "item" payload b.payload
  Agreed n (ok (parked r)) = options.tolerance < abs (t.shopify -ℤ n)
  Agreed n (throws e) = ⊥

  -- The total of a payload with the balancing line.
  with_line :
      (n : ℤ)
      → HasTotals payload order t
      → ns_total t ≡ some n
      → let q =
          set_field "item"
            (sublist
              (snoc (lines_of "item" payload) (balancing_line options (some (t.shopify -ℤ n)))))
            payload in
        (t' : Totals) × (totals_of q order ≡ ok t') × (ns_total t' ≡ some t.shopify)
  unfolding ns_total
  with_line n (a, b, c, d, e) total = (
    record t { lines = plus t.lines (some (t.shopify -ℤ n)) },
    HasTotals-totals_of _ order _ (
      a,
      b,
      ap (λ (ls : List Value). sum_amounts (map (field_of "amount") ls))
            (lines_of-other "shipping" "item" _ payload refl)
          ∙ c,
      ap (λ (ls : List Value). sum_amounts (map (field_of "amount") ls))
            (lines_of-set_field "item" _ payload)
          ∙ sum_amounts-snoc (lines_of "item" payload) _ _ t.lines
              (amount_of_line options (t.shopify -ℤ n)) d,
      e,
    ),
    lifted_total t.lines t.shipping t.tax t.discounts n t.shopify total,
  )

  by_totals-Agreed :
      (n : ℤ)
      → totals_of payload order ≡ ok t
      → ns_total t ≡ some n
      → Agreed n (ok (by_totals options payload order t))
  unfolding by_totals over_tolerance diff_of balanced is_off
  by_totals-Agreed n read total =
      let d = t.shopify -ℤ n in
      elim (Bool-cases (ltb options.tolerance (abs d))) [
        | inl over ↦ rw (total) (rw over (ground (arith, over)))
        | inr within ↦ elim (Bool-cases (is_zero d)) [
          | inl zero ↦ rw (total) (
              rw (within, zero)
                (
                  ground (arith, within),
                  (t, read, total ∙ ap some (zero_diff t.shopify n zero)),
                  inl refl,
                  λ k. inr refl,
                ))
          | inr off ↦ rw (total) (
              rw (within, off)
                (
                  ground (arith, within),
                  with_line n (totals_of-HasTotals payload order t read) total,
                  inr (lines_of-set_field _ _ _),
                  λ k. kept_or_key "item" k _ payload,
                ))
        ]
      ]

  -- If the amounts of a payload and its order can be read and none is NaN, balancing parks the
  -- order exactly when the totals differ by more than the tolerance; else the payload that it
  -- gives, read again, comes to the total of the order to the cent, and has the lines of before and
  -- at most the balancing line more, with every other field as it was.
  pub apply_balancing-Agreed :
      (n : ℤ)
      → totals_of payload order ≡ ok t
      → ns_total t ≡ some n
      → Agreed n (apply_balancing options payload order)
  unfolding apply_balancing
  apply_balancing-Agreed n read total = rw read (by_totals-Agreed n read total)

-- If the amount of a line is NaN, so that NetSuite has no total, balancing does not park the order:
-- it books it with a balancing line whose amount is NaN.
pub nan_total-booked :
    (options : BalancingOptions) (payload : Fields) (order : ShopifyOrder) (t : Totals)
    → totals_of payload order ≡ ok t
    → ns_total t ≡ none
    → (b : BalancedPayload) × (apply_balancing options payload order ≡ ok (mapped b))
      × (lines_of "item" b.payload ≡ snoc (lines_of "item" payload) (balancing_line options none))
unfolding apply_balancing by_totals balanced over_tolerance is_off diff_of
nan_total-booked options payload order t read total =
    rw (read, total) (_, refl, lines_of-set_field _ _ _)
