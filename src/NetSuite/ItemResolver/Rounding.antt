-- ===== src/NetSuite/ItemResolver/Rounding.antt =====
-- The line that balances an order, on its way through the item resolver.
use dp_integrator.Base.{
  String, Bool, true, false, Option, none, some, List, [], ◌∷◌, Result, ok, throws, ◌≡◌, ◌≢◌, refl,
  ap, inl, inr, ◌∙◌, sym, subst, ltb, Bool-cases,
}
use dp_integrator.Base.Int.{ℤ, ◌-ℤ◌, abs, is_zero}
use dp_integrator.Base.Print.{string_of}
use dp_integrator.Base.Value.{Value, Fields, get_field, set_field}
use dp_integrator.Shopify.Order.{ShopifyOrder}
use dp_integrator.Engine.MappingResult.{MappingResult, mapped, parked}
use dp_integrator.NetSuite.Gateway.{NetSuiteGateway}
use dp_integrator.NetSuite.Lines.{lines_of, snoc, field_of, sublist, lines_of-set_field}
use dp_integrator.NetSuite.Balancing.{
  BalancingOptions, BalancedPayload, Totals, totals_of, ns_total, diff_of, balanced, is_off,
  over_tolerance, by_totals, apply_balancing, balancing_line,
}
use dp_integrator.NetSuite.Balancing.Agrees.{zero_diff}
use dp_integrator.NetSuite.ItemResolver.{resolve_item_references, ItemRef, item_ref, sku}
use dp_integrator.NetSuite.ItemResolver.Resolved.{
  AllBecome, BecomesBy, Resolved, resolve_item_references-Resolved,
}

-- The payload does not go on to NetSuite.
abbrev pub IsRefused : Result (MappingResult Fields) → Type 0
IsRefused (ok (mapped q)) = ⊥
IsRefused (ok (parked r)) = Unit
IsRefused (throws e) = Unit

abbrev payload_of : Result (MappingResult BalancedPayload) → Fields → Fields
payload_of (ok (mapped b)) d = b.payload
payload_of _ d = d

abbrev is_mapped : Result (MappingResult BalancedPayload) → Bool
is_mapped (ok (mapped b)) = true
is_mapped _ = false

off_by : (a b : ℤ) → a ≢ b → is_zero (a -ℤ b) ≡ false
off_by a b ne = elim (Bool-cases (is_zero (a -ℤ b))) [
  | inl zero ↦ absurd (ne (sym (zero_diff a b zero)))
  | inr off ↦ off
]

booked_lines :
    (options : BalancingOptions) (payload : Fields) (order : ShopifyOrder) (t : Totals) (n : ℤ)
    (b : BalancedPayload)
    → totals_of payload order ≡ ok t
    → ns_total t ≡ some n
    → t.shopify ≢ n
    → apply_balancing options payload order ≡ ok (mapped b)
    → lines_of "item" b.payload
      ≡ snoc (lines_of "item" payload) (balancing_line options (some (t.shopify -ℤ n)))
unfolding apply_balancing by_totals balanced over_tolerance is_off diff_of
booked_lines options payload order t n b read total ne h =
    let off = off_by t.shopify n ne in
    elim (Bool-cases (ltb options.tolerance (abs (t.shopify -ℤ n)))) [
      | inl over ↦
          let no : is_mapped (apply_balancing options payload order) ≡ false =
            rw (read, total, over) refl in
          absurd (cc (no, ap is_mapped h))
      | inr within ↦
          let same : payload_of (apply_balancing options payload order) payload
              ≡ set_field "item"
                  (sublist (
                    snoc (lines_of "item" payload)
                      (balancing_line options (some (t.shopify -ℤ n)))))
                  payload =
            rw (read, total, within, off) refl in
          ap (lines_of "item") (
            sym (ap (λ (r : Result (MappingResult BalancedPayload)). payload_of r payload) h)
            ∙ same)
          ∙ lines_of-set_field "item" _ payload
    ]

is_sku :
    (options : BalancingOptions) (diff : Option ℤ)
    → item_ref (field_of "item" (balancing_line options diff)) ≡ sku options.balancing_item_id
unfolding item_ref balancing_line get_field string_of
is_sku options diff = refl

module _ {E : Type 0} (ns : NetSuiteGateway E) (ns_account_id : String) (options : BalancingOptions)
    (unknown : (e : E)
      → (ns.resolve_item_id ns_account_id options.balancing_item_id e).0 ≡ ok none) where
  not_last :
      (lines vs : List Value) (diff : Option ℤ)
      → AllBecome ns ns_account_id none (snoc lines (balancing_line options diff)) vs
      → ⊥
  not_last [] [] diff none_left = elim none_left [ ]
  not_last [] (v ∷ vs) diff (b, rest) =
      elim (subst
        (λ (ref : ItemRef). BecomesBy ns ns_account_id none ref (balancing_line options diff) v)
        (is_sku options diff) b) [
          | inl (id, (e, answer), is) ↦ absurd (cc (answer, unknown e))
          | inr (default, answer, fallback, is) ↦ absurd (cc (fallback))
        ]
  not_last (line ∷ lines) [] diff none_left = elim none_left [ ]
  not_last (line ∷ lines) (v ∷ vs) diff (b, rest) = not_last lines vs diff rest

  refused :
      (payload : Fields) (lines : List Value) (diff : Option ℤ) (r : Result (MappingResult Fields))
      → lines_of "item" payload ≡ snoc lines (balancing_line options diff)
      → Resolved ns ns_account_id none payload r
      → IsRefused r
  refused payload lines diff (ok (mapped q)) e (items, shipping, others) =
      not_last lines (lines_of "item" q) diff (
        subst (λ (ls : List Value). AllBecome ns ns_account_id none ls (lines_of "item" q)) e items)
  refused payload lines diff (ok (parked r)) e d = tt
  refused payload lines diff (throws x) e d = tt

-- If an order is booked with a balancing line, because its totals differ within the tolerance, and
-- NetSuite has no item whose SKU is the internal id of the balancing item, then the resolution of
-- the items without a fallback parks or throws: the payload does not go on.
pub rounding_line-IsRefused :
    {E : Type 0} (ns : NetSuiteGateway E) (ns_account_id : String) (options : BalancingOptions)
    (payload : Fields) (order : ShopifyOrder) (t : Totals) (n : ℤ) (b : BalancedPayload) (e : E)
    → ((s : E) → (ns.resolve_item_id ns_account_id options.balancing_item_id s).0 ≡ ok none)
    → totals_of payload order ≡ ok t
    → ns_total t ≡ some n
    → t.shopify ≢ n
    → apply_balancing options payload order ≡ ok (mapped b)
    → IsRefused (resolve_item_references ns ns_account_id b.payload none e).0
rounding_line-IsRefused ns ns_account_id options payload order t n b e unknown read total ne
      booked =
    refused ns ns_account_id options unknown b.payload (lines_of "item" payload)
      (some (t.shopify -ℤ n)) _ (booked_lines options payload order t n b read total ne booked)
      (resolve_item_references-Resolved ns ns_account_id none b.payload e)
