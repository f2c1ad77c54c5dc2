-- ===== src/NetSuite/Balancing.antt =====
-- packages/netsuite-client/src/balancing.ts: the total of a payload is made to agree with the total of
-- the order. An amount is a number of cents, or `none` where the code computes with NaN.
pub mod Agrees
mod Tests
use Prim.Native.String.{◌++◌}
use dp_integrator.Base.{
  ℕ, String, Bool, Option, none, some, List, [], ◌∷◌, Result, ok, throws, plain_error, and_then,
  map, if◌then◌else◌, ltb, not, true, false,
}
use dp_integrator.Base.Int.{ℤ, pos, ◌+ℤ◌, ◌-ℤ◌, abs, is_zero}
use dp_integrator.Base.Decimal.{parse_float, cents_of, fixed2, value_of_cents}
use dp_integrator.Base.Value.{Value, nan, num, str, obj, Fields, field, end, set_field}
use dp_integrator.Shopify.Order.{ShopifyOrder}
use dp_integrator.Engine.MappingResult.{MappingResult, mapped, parked}
use dp_integrator.NetSuite.Lines.{lines_of, sublist, field_of, snoc}

-- The tolerance is in cents.
pub record BalancingOptions : Type 0 where
  pub tolerance : ℕ
  pub balancing_item_id : String

abbrev pub default_balancing : BalancingOptions
default_balancing = record { tolerance = 5; balancing_item_id = "6540" }

pub record BalancingDiagnostics : Type 0 where
  pub shopify_total : ℤ
  pub ns_lines_total : Option ℤ
  pub ns_tax_total : ℤ
  pub ns_shipping_total : Option ℤ
  pub order_discounts : ℤ
  pub diff : Option ℤ
  pub applied : Bool

pub record BalancedPayload : Type 0 where
  pub payload : Fields
  pub diagnostics : BalancingDiagnostics

number_of_amount : String → Option ℤ → Result ℤ
number_of_amount s none =
    throws (plain_error ("balancing: cannot parse amount '" ++ (s ++ "' as a number")))
number_of_amount s (some c) = ok c

unfoldable pub parse_amount : String → Result ℤ
unfolding number_of_amount
parse_amount s = number_of_amount s (cents_of (parse_float s))

-- A sum with NaN is NaN.
abbrev pub plus : Option ℤ → Option ℤ → Option ℤ
plus (some a) (some b) = some (a +ℤ b)
plus _ _ = none

abbrev pub minus : Option ℤ → Option ℤ → Option ℤ
minus (some a) (some b) = some (a -ℤ b)
minus _ _ = none

-- `total += …` of one amount: a text is parsed, a number is rounded, all else is left out.
unfoldable pub add_amount : Option ℤ → Value → Result (Option ℤ)
add_amount total (str s) = and_then (parse_amount s) (λ c. ok (plus total (some c)))
add_amount total (num negative digits decimals) =
    ok (plus total (cents_of (num negative digits decimals)))
add_amount total nan = ok none
add_amount total v = ok total

-- The loop, with the total so far.
unfoldable pub add_amounts : Option ℤ → List Value → Result (Option ℤ)
add_amounts total [] = ok total
add_amounts total (v ∷ vs) = and_then (add_amount total v) (λ t. add_amounts t vs)

unfoldable pub sum_amounts : List Value → Result (Option ℤ)
sum_amounts vs = add_amounts (some (pos 0)) vs

-- The sum of the amounts of a sublist.
abbrev pub sublist_total : String → Fields → Result (Option ℤ)
sublist_total key payload = sum_amounts (map (field_of "amount") (lines_of key payload))

pub record Totals : Type 0 where
  pub shopify : ℤ
  pub tax : ℤ
  pub shipping : Option ℤ
  pub lines : Option ℤ
  pub discounts : ℤ

-- The numbers that the function reads at its start, in its order.
unfoldable pub totals_of : Fields → ShopifyOrder → Result Totals
totals_of payload order = and_then (parse_amount order.total_price.amount) (λ shopify.
    and_then (parse_amount order.total_tax.amount) (λ tax.
      and_then (sublist_total "shipping" payload) (λ shipping.
        and_then (sublist_total "item" payload) (λ lines.
          and_then (parse_amount order.total_discounts.amount) (λ discounts. ok (record {
            shopify = shopify;
            tax = tax;
            shipping = shipping;
            lines = lines;
            discounts = discounts;
          }))))))

-- What NetSuite will book.
unfoldable pub ns_total : Totals → Option ℤ
ns_total t = minus (plus (plus t.lines t.shipping) (some t.tax)) (some t.discounts)

unfoldable pub diff_of : Totals → Option ℤ
diff_of t = minus (some t.shopify) (ns_total t)

abbrev pub amount_value : Option ℤ → Value
amount_value none = nan
amount_value (some c) = value_of_cents c

unfoldable pub balancing_line : BalancingOptions → Option ℤ → Value
balancing_line options diff = obj (
    field "item" (obj (field "id" (str options.balancing_item_id) end)) (
      field "quantity" (num false 1 0) (
        field "rate" (amount_value diff) (
          field "amount" (amount_value diff)
            (field "description" (str "Rounding adjustment") end)))))

-- `Math.abs(diff) > options.toleranceAmount`, which NaN does not pass.
unfoldable pub over_tolerance : BalancingOptions → Option ℤ → Bool
over_tolerance options none = false
over_tolerance options (some d) = ltb options.tolerance (abs d)

-- `diff !== 0`, which NaN passes.
unfoldable pub is_off : Option ℤ → Bool
is_off none = true
is_off (some d) = not (is_zero d)

unfoldable pub diagnostics_of : Totals → BalancingDiagnostics
diagnostics_of t = record {
  shopify_total = t.shopify;
  ns_lines_total = t.lines;
  ns_tax_total = t.tax;
  ns_shipping_total = t.shipping;
  order_discounts = t.discounts;
  diff = diff_of t;
  applied = is_off (diff_of t);
}

abbrev fixed_amount : Option ℤ → String
fixed_amount none = "NaN"
fixed_amount (some c) = fixed2 c

unfoldable pub balanced : BalancingOptions → Fields → Totals → Fields
balanced options payload t =
    if is_off (diff_of t)
    then set_field "item"
        (sublist (snoc (lines_of "item" payload) (balancing_line options (diff_of t)))) payload
    else payload

unfoldable pub by_totals :
    BalancingOptions → Fields → ShopifyOrder → Totals → MappingResult BalancedPayload
by_totals options payload order t =
    if over_tolerance options (diff_of t)
    then parked (record {
      detail =
          "totals differ by "
          ++ (fixed_amount (diff_of t)
              ++ (" "
                  ++ (order.total_price.currency_code
                      ++ (" (tolerance "
                          ++ (fixed2 (pos options.tolerance)
                              ++ "); refusing to book until reconciled")))));
      construct = some "balancing";
      evidence = some (
          field "shopifyTotal" (value_of_cents t.shopify) (
            field "nsLinesTotal" (amount_value t.lines) (
              field "nsShippingTotal" (amount_value t.shipping) (
                field "nsTaxTotal" (value_of_cents t.tax) (
                  field "orderDiscounts" (value_of_cents t.discounts)
                    (field "diff" (amount_value (diff_of t)) end))))));
    })
    else mapped (record { payload = balanced options payload t; diagnostics = diagnostics_of t })

unfoldable pub apply_balancing :
    BalancingOptions → Fields → ShopifyOrder → Result (MappingResult BalancedPayload)
apply_balancing options payload order =
    and_then (totals_of payload order) (λ t. ok (by_totals options payload order t))
