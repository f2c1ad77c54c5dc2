-- ===== src/NetSuite/PayloadBuilder/Reads.antt =====
-- What the steps of the payload builder write and leave, field by field.
use dp_integrator.Base.{
  String, false, Option, none, some, List, [], ◌∷◌, M, ok, map, if◌then◌else◌, ◌≡◌, inl, inr, refl,
  ap, str_eq, eq_iff, arith, Bool-cases,
}
use dp_integrator.Base.Text.{is_empty}
use dp_integrator.Base.Value.{
  Value, undefined, null, nan, bool, num, str, obj, arr, Fields, end, field, nil, cons, get_field,
  set_field, get_field-set_field,
}
use dp_integrator.Shopify.Order.{ShopifyOrder, ShopifyLineItem}
use dp_integrator.Shopify.OrderValue.{order_value}
use dp_integrator.Engine.MappingResult.{mapped}
use dp_integrator.Engine.Evaluator.{evaluate, apply_mappings, apply_mapping, by_fn, put, go_on}
use dp_integrator.Engine.Paths.{set_path, split_dots, set_in, below}
use dp_integrator.NetSuite.Lines.{elements, items_of}
use dp_integrator.NetSuite.DeriveFns.{
  default_derive_registry, derive_fn, shopify_line_to_item_line, build_line,
}
use dp_integrator.NetSuite.DefaultOrderMap.{default_line_items_map}
use dp_integrator.NetSuite.PayloadBuilder.{
  wrap_lines, wrap_line_refs, wrap_value, put_kept, wrap_ns_references, set_shipping,
}

abbrev unwrap_or_here : Option Value → Value → Value
unwrap_or_here none v = v
unwrap_or_here (some w) v = w

-- What is kept of a field is found under its key.
put_kept-get_field :
    (key k : String) (o : Option Value) (rest : Fields)
    → get_field key (put_kept k o rest)
      ≡ (if str_eq k key then unwrap_or_here o (get_field key rest) else get_field key rest)
unfolding put_kept get_field
put_kept-get_field key k none rest = elim (Bool-cases (str_eq k key)) [
  | inl same ↦ rw same refl
  | inr other ↦ rw other refl
]
put_kept-get_field key k (some v) rest = refl

pub wrap_ns_references-get_field :
    (key : String) (fs : Fields) (w : Value)
    → wrap_value key (get_field key fs) ≡ some w
    → get_field key (wrap_ns_references fs) ≡ w
unfolding wrap_ns_references get_field wrap_value
wrap_ns_references-get_field key end w h = ground arith
wrap_ns_references-get_field key (field k v rest) w h =
    let again = wrap_ns_references-get_field key rest w in
    ground (
      arith,
      again,
      eq_iff k key,
      put_kept-get_field key k (wrap_value k v) (wrap_ns_references rest),
    )

pub lines_result :
    {E : Type 0} (resolve : String → String → M E (Option String)) (order : ShopifyOrder) (e : E)
    → evaluate
        (record { resolve = resolve; derives = default_derive_registry order })
        (order_value order)
        (default_line_items_map ∷ [])
        e
      ≡ (ok (mapped (field "item" (shopify_line_to_item_line end order) end)), e)
unfolding evaluate apply_mappings apply_mapping by_fn put go_on set_path split_dots set_in below
    default_derive_registry derive_fn set_field get_field is_empty
lines_result resolve order e = refl

-- A line of the payload, with its references wrapped.
abbrev pub line_of : ShopifyLineItem → Value
line_of line = wrap_line_refs (build_line none line)

pub elements-wrap_lines :
    (lines : List ShopifyLineItem)
    → elements (wrap_lines (items_of (map (build_line none) lines))) ≡ map line_of lines
unfolding elements wrap_lines items_of
elements-wrap_lines [] = refl
elements-wrap_lines (line ∷ lines) =
    ap (λ (vs : List Value). line_of line ∷ vs) (elements-wrap_lines lines)

pub set_shipping-get_field :
    (key : String) (v : Value) (raw : Fields)
    → str_eq "shipping" key ≡ false
    → get_field key (set_shipping v raw) ≡ get_field key raw
unfolding set_shipping
set_shipping-get_field key (arr (cons line lines)) raw other =
    rw get_field-set_field (rw other refl)
set_shipping-get_field key (arr nil) raw other = refl
set_shipping-get_field key undefined raw other = refl
set_shipping-get_field key null raw other = refl
set_shipping-get_field key nan raw other = refl
set_shipping-get_field key (bool b) raw other = refl
set_shipping-get_field key (num s d k) raw other = refl
set_shipping-get_field key (str s) raw other = refl
set_shipping-get_field key (obj fs) raw other = refl
