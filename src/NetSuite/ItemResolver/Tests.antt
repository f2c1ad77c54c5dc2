-- ===== src/NetSuite/ItemResolver/Tests.antt =====
-- One known item, and the line that balances an order.
use dp_integrator.Base.{false, some, none, [], ◌∷◌, ok, ◌≡◌, ◌≢◌, refl, ap, arith}
use dp_integrator.Base.Int.{pos, pos_part, ◌-ℤ◌, ◌+ℤ◌}
use dp_integrator.Base.Print.{string_of}
use dp_integrator.Base.Value.{num, str, obj, Fields, field, end, get_field, set_field}
use dp_integrator.Engine.MappingResult.{mapped}
use dp_integrator.NetSuite.Lines.{sublist, elements, items_of}
use dp_integrator.NetSuite.Balancing.{
  BalancedPayload, default_balancing, apply_balancing, by_totals, balanced, over_tolerance, diff_of,
  diagnostics_of, ns_total,
}
use dp_integrator.NetSuite.Sample.{order, payload_of, totals, reads, short, one_item}
use dp_integrator.NetSuite.ItemResolver.{
  resolve_item_references, resolve_sublist, resolve_line, by_ref, by_answer, go_on, in_front,
  after_items, item_ref, with_item,
}
use dp_integrator.NetSuite.ItemResolver.Resolved.{Resolved, resolve_item_references-Resolved}
use dp_integrator.NetSuite.ItemResolver.Rounding.{IsRefused, rounding_line-IsRefused}

abbrev pumps : Fields
pumps = field "item" (sublist (obj (field "item" (obj (field "id" (str "PUMP") end)) end) ∷ [])) end

found :
    (resolve_item_references one_item "acct" pumps none 0).0
    ≡ ok (
        mapped (
          field "item"
            (sublist (obj (field "item" (obj (field "id" (str "77") end)) end) ∷ []))
            end))
unfolding resolve_item_references resolve_sublist resolve_line by_ref by_answer go_on in_front
    after_items item_ref with_item get_field set_field string_of elements items_of
found = refl

resolve_item_references-Resolved_example :
    Resolved one_item "acct" none pumps (resolve_item_references one_item "acct" pumps none 0).0
resolve_item_references-Resolved_example =
    resolve_item_references-Resolved one_item "acct" none pumps 0

abbrev short_payload : Fields
short_payload = payload_of (num false 1000 2)

abbrev booked : BalancedPayload
booked = record {
  payload = balanced default_balancing short_payload (totals (some (pos 1000)));
  diagnostics = diagnostics_of (totals (some (pos 1000)));
}

is_booked : apply_balancing default_balancing short_payload order ≡ ok (mapped booked)
unfolding apply_balancing by_totals over_tolerance diff_of ns_total ◌-ℤ◌ ◌+ℤ◌
is_booked = rw reads refl

two_cents : pos 1234 ≢ pos 1232
two_cents h = absurd (omega (arith, ap pos_part h))

rounding_line-IsRefused_example :
    IsRefused (resolve_item_references one_item "acct" booked.payload none 0).0
rounding_line-IsRefused_example =
    rounding_line-IsRefused one_item "acct" default_balancing short_payload order
      (totals (some (pos 1000))) (pos 1232) booked 0 (λ s. refl) reads short two_cents is_booked
