-- ===== src/Functions/OrderImport/Digest.antt =====
-- `buildPayloadDigest`: the small preview of the payload that was sent to NetSuite.
use dp_integrator.Base.{ℕ, suc, String, Bool, true, false, if◌then◌else◌, str_eq}
use dp_integrator.Base.Value.{
  Value, undefined, num, arr, obj, Items, nil, cons, Fields, end, field, get_field, set_field,
}

-- `v && typeof v === 'object' && 'id' in v ? v.id : v`.
has_field : String → Fields → Bool
has_field k end = false
has_field k (field j v fs) = let rest = has_field k fs in if str_eq j k then true else rest

ref_id : Value → Value
unfolding has_field
ref_id (obj fs) = if has_field "id" fs then get_field "id" fs else obj fs
ref_id v = v

count : Items → ℕ
count nil = 0
count (cons v vs) = suc (count vs)

items_of : Value → ℕ
unfolding count
items_of (arr vs) = count vs
items_of _ = 0

line_count : Value → ℕ
unfolding items_of
line_count (obj fs) = items_of (get_field "items" fs)
line_count _ = 0

-- `if (p[key] !== undefined) digest[name] = f(p[key])`.
copied_value : String → (Value → Value) → Value → Fields → Fields
copied_value name f undefined digest = digest
copied_value name f v digest = set_field name (f v) digest

copied : Fields → String → String → (Value → Value) → Fields → Fields
copied p key name f digest = copied_value name f (get_field key p) digest

unfoldable pub build_payload_digest : Fields → Value
unfolding copied copied_value ref_id line_count
build_payload_digest p =
    let d₀ = field "lineCount" (num false (line_count (get_field "item" p)) 0) end in
    let d₁ = copied p "tranId" "tranId" (λ v. v) d₀ in
    let d₂ = copied p "externalId" "externalId" (λ v. v) d₁ in
    let d₃ = copied p "subsidiary" "subsidiaryId" ref_id d₂ in
    let d₄ = copied p "entity" "entityId" ref_id d₃ in
    let d₅ = copied p "currency" "currencyId" ref_id d₄ in
    let d₆ = copied p "orderStatus" "orderStatus" ref_id d₅ in
    obj (copied p "tranDate" "tranDate" (λ v. v) d₆)
