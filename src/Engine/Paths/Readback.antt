-- ===== src/Engine/Paths/Readback.antt =====
-- `getPath` after `setPath`, and the other fields.
use Prim.Native.Char.{Char, code}
use dp_integrator.Base.{
  ◌==◌, String, Bool, true, false, ◌||◌, List, [], ◌∷◌, Result, ok, throws, str_eq, eq_refl, ◌≡◌,
  ◌⊎◌, inl, inr, refl, ◌∙◌, Bool-cases, arith,
}
use dp_integrator.Base.Text.{is_empty}
use dp_integrator.Base.Value.{
  get_field-set_field, Value, undefined, null, nan, bool, num, str, obj, arr, Fields, end,
  get_field, set_field,
}
use dp_integrator.Engine.Paths.{
  put_char, split_dots, member, get_in, get_path, below, set_in, set_path,
}

abbrev is_array : Value → Bool
is_array (arr vs) = true
is_array v = false

abbrev fields_of : Value → Fields
fields_of (obj fs) = fs
fields_of v = end

-- An array stands on the way.
unfoldable pub meets_array : List String → Fields → Bool
meets_array [] out = false
meets_array (key ∷ []) out = false
meets_array (key ∷ next ∷ parts) out =
    is_array (get_field key out) || meets_array (next ∷ parts) (fields_of (get_field key out))

below-object :
    (v : Value) (set : Fields → Fields) → is_array v ≡ false → below v set ≡ obj (set (fields_of v))
unfolding below
below-object undefined set h = refl
below-object null set h = refl
below-object nan set h = refl
below-object (bool b) set h = refl
below-object (num s d k) set h = refl
below-object (str s) set h = refl
below-object (obj fs) set h = refl
below-object (arr vs) set h = absurd (cc (h))

get_in-set_in :
    (parts : List String) (key : String) (value : Value) (out : Fields)
    → meets_array (key ∷ parts) out ≡ false
    → get_in (key ∷ parts) (obj (set_in (key ∷ parts) value out)) ≡ value
unfolding get_in member set_in meets_array
get_in-set_in [] key value out h = rw get_field-set_field (rw (eq_refl key) refl)
get_in-set_in (next ∷ parts) key value out h =
    let no_array : is_array (get_field key out) ≡ false = ground (arith, h) in
    let further : meets_array (next ∷ parts) (fields_of (get_field key out)) ≡ false =
      ground (arith, h) in
    rw get_field-set_field (
      rw (eq_refl key) (
        rw (below-object (get_field key out) (λ fs. set_in (next ∷ parts) value fs) no_array)
          (get_in-set_in parts next value (fields_of (get_field key out)) further)))

unmoved :
    (key : String) (v : Value) (out : Fields) (k : String)
    → (str_eq key k ≡ true) ⊎ (get_field k (set_field key v out) ≡ get_field k out)
unmoved key v out k = elim (Bool-cases (str_eq key k)) [
  | inl same ↦ inl same
  | inr other ↦ inr (rw get_field-set_field (rw other refl))
]

set_in-unmoved :
    (parts : List String) (key : String) (value : Value) (out : Fields) (k : String)
    → (str_eq key k ≡ true) ⊎ (get_field k (set_in (key ∷ parts) value out) ≡ get_field k out)
unfolding set_in
set_in-unmoved [] key value out k = unmoved key _ out k
set_in-unmoved (next ∷ parts) key value out k = unmoved key _ out k

abbrev pub head_of : List String → String
head_of [] = ""
head_of (s ∷ rest) = s

put_char-cons :
    (c : Char) (l : List String) → (s : String) × (rest : List String) × (put_char c l ≡ s ∷ rest)
unfolding put_char
put_char-cons c [] = (_, _, refl)
put_char-cons c (s ∷ rest) = (_, _, refl)

split_dots-cons : (p : String) → (s : String) × (rest : List String) × (split_dots p ≡ s ∷ rest)
unfolding split_dots
split_dots-cons String.[] = (_, _, refl)
split_dots-cons (String.◌∷◌ c p) = elim (Bool-cases (code c == b'.')) [
  | inl dot ↦ ("", split_dots p, rw dot refl)
  | inr other ↦ let (s, rest, e) = put_char-cons c (split_dots p) in (s, rest, rw other e)
]

-- What it is to have written a value at the parts of a path.
abbrev pub IsWritten : List String → Value → Fields → Fields → Type 0
IsWritten parts value out q =
    (get_in parts (obj q) ≡ value)
    × ((k : String) → (str_eq (head_of parts) k ≡ true) ⊎ (get_field k q ≡ get_field k out))

set_in-IsWritten :
    (parts : List String) (value : Value) (out : Fields)
    → ((s : String) × (rest : List String) × (parts ≡ s ∷ rest))
    → meets_array parts out ≡ false
    → IsWritten parts value out (set_in parts value out)
set_in-IsWritten (key ∷ parts) value out is h =
    (get_in-set_in parts key value out h, set_in-unmoved parts key value out)
set_in-IsWritten [] value out (s, rest, e) h = absurd (cc (e))

abbrev pub Written : Fields → String → Value → Result Fields → Type 0
Written out path value (ok q) =
    (get_path (obj q) path ≡ value)
    × ((k : String)
        → (str_eq (head_of (split_dots path)) k ≡ true) ⊎ (get_field k q ≡ get_field k out))
Written out path value (throws e) = is_empty path ≡ true

get_path-parts :
    (path : String) (v : Value)
    → is_empty path ≡ false
    → get_path v path ≡ get_in (split_dots path) v
unfolding get_path
get_path-parts path v h = rw h refl

-- What is set at a path that does not lead into an array is read back at the path, and every field
-- of the object but the first of the path is as it was; only the empty path throws.
pub set_path-Written :
    (out : Fields) (path : String) (value : Value)
    → meets_array (split_dots path) out ≡ false
    → Written out path value (set_path out path value)
unfolding set_path
set_path-Written out path value h = elim (Bool-cases (is_empty path)) [
  | inl no_path ↦ rw no_path no_path
  | inr some_path ↦
      let (read, others) = set_in-IsWritten (split_dots path) value out (split_dots-cons path) h in
      rw some_path (get_path-parts path _ some_path ∙ read, others)
]
