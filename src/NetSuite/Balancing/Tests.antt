-- ===== src/NetSuite/Balancing/Tests.antt =====
-- A payload that is two cents short of its order, and one whose line has no number.
use dp_integrator.Base.{ok, some, none, ◌≡◌, refl, false}
use dp_integrator.Base.Int.{pos, ◌+ℤ◌}
use dp_integrator.Base.Search.{skip_all}
use dp_integrator.Base.Decimal.{parse_float, cents_of, round_cents}
use dp_integrator.Base.Value.{num, nan, get_field}
use dp_integrator.Engine.MappingResult.{mapped}
use dp_integrator.NetSuite.Lines.{elements, items_of, lines_of, snoc}
use dp_integrator.NetSuite.Sample.{order, payload_of, totals, reads, short}
use dp_integrator.NetSuite.Balancing.{
  BalancedPayload, default_balancing, totals_of, ns_total, parse_amount, sum_amounts, add_amounts,
  add_amount, apply_balancing, balancing_line,
}
use dp_integrator.NetSuite.Balancing.Agrees.{Agreed, apply_balancing-Agreed, nan_total-booked}

reads_nan : totals_of (payload_of nan) order ≡ ok (totals none)
unfolding totals_of parse_amount sum_amounts add_amounts add_amount parse_float cents_of round_cents
    skip_all get_field elements items_of ◌+ℤ◌
reads_nan = refl

no_number : ns_total (totals none) ≡ none
unfolding ns_total
no_number = refl

apply_balancing-Agreed_example :
    Agreed default_balancing
      (payload_of (num false 1000 2))
      order
      (totals (some (pos 1000)))
      (pos 1232)
      (apply_balancing default_balancing (payload_of (num false 1000 2)) order)
apply_balancing-Agreed_example =
    apply_balancing-Agreed default_balancing (payload_of (num false 1000 2)) order
      (totals (some (pos 1000))) (pos 1232) reads short

nan_total-booked_example :
    (b : BalancedPayload) × (apply_balancing default_balancing (payload_of nan) order
      ≡ ok (mapped b))
    × (lines_of "item" b.payload
        ≡ snoc (lines_of "item" (payload_of nan)) (balancing_line default_balancing none))
nan_total-booked_example =
    nan_total-booked default_balancing (payload_of nan) order (totals none) reads_nan no_number
