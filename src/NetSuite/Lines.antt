-- ===== src/NetSuite/Lines.antt =====
-- The sublists of a payload of packages/netsuite-client/src/payload-builder.ts (`NsOrderPayload`). A
-- payload is its fields; where a sublist is not there, or is not of the type's shape, it has no lines.
use dp_integrator.Base.{String, List, [], ◌∷◌, ◌++◌, ◌≡◌, refl, ap, false, str_eq, eq_refl}
use dp_integrator.Base.Value.{
  Value, undefined, obj, arr, Fields, field, end, Items, nil, cons, get_field, set_field,
  get_field-set_field,
}

unfoldable pub elements : Items → List Value
elements nil = []
elements (cons v vs) = v ∷ elements vs

unfoldable pub items_of : List Value → Items
items_of [] = nil
items_of (v ∷ vs) = cons v (items_of vs)

abbrev pub array_of : Value → List Value
array_of (arr vs) = elements vs
array_of v = []

abbrev pub field_of : String → Value → Value
field_of k (obj fs) = get_field k fs
field_of k v = undefined

-- `payload[key]?.items ?? []`.
abbrev pub lines_of : String → Fields → List Value
lines_of key payload = array_of (field_of "items" (get_field key payload))

-- `[...lines, v]`.
abbrev pub snoc : List Value → Value → List Value
snoc lines v = lines ++ (v ∷ [])

-- `{ items: lines }`.
abbrev pub sublist : List Value → Value
sublist lines = obj (field "items" (arr (items_of lines)) end)

pub elements-items_of : (vs : List Value) → elements (items_of vs) ≡ vs
unfolding elements items_of
elements-items_of [] = refl
elements-items_of (v ∷ vs) = ap (λ (t : List Value). v ∷ t) (elements-items_of vs)

pub lines_of-set_field :
    (key : String) (lines : List Value) (payload : Fields)
    → lines_of key (set_field key (sublist lines) payload) ≡ lines
unfolding get_field
lines_of-set_field key lines payload =
    rw get_field-set_field (rw (eq_refl key) (elements-items_of lines))

pub lines_of-other :
    (key other : String) (v : Value) (payload : Fields)
    → str_eq other key ≡ false
    → lines_of key (set_field other v payload) ≡ lines_of key payload
lines_of-other key other v payload h = rw get_field-set_field (rw h refl)
