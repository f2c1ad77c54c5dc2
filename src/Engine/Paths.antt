-- ===== src/Engine/Paths.antt =====
-- packages/mapping-engine/src/evaluator.ts: `getPath`, `setPath` and `strictEqual`. Values are trees: an
-- object that a mapping moves is no longer shared with the source, which a later path into it would
-- change in the code. A path of the output that leads into an array leaves the array as it is; the code
-- sets a key on it that no JSON text shows.
pub mod Readback
mod Tests
use Prim.Native.Char.{Char, code}
use dp_integrator.Base.{
  ℕ, suc, zero, ◌*◌, ◌^◌, String, Bool, true, false, ◌&&◌, ◌||◌, List, [], ◌∷◌, Result, ok, throws,
  plain_error, str_eq, if◌then◌else◌, ◌==◌,
}
use dp_integrator.Base.Text.{is_empty}
use dp_integrator.Base.Print.{decimal}
use dp_integrator.Base.Value.{
  Value, undefined, null, nan, bool, num, str, obj, arr, Fields, end, Items, nil, cons, get_field,
  set_field,
}

put_char : Char → List String → List String
put_char c [] = String.◌∷◌ c "" ∷ []
put_char c (s ∷ rest) = String.◌∷◌ c s ∷ rest

-- `path.split('.')`.
unfoldable pub split_dots : String → List String
unfolding put_char
split_dots String.[] = "" ∷ []
split_dots (String.◌∷◌ c s) =
    let rest = split_dots s in if code c == b'.' then "" ∷ rest else put_char c rest

-- `array[key]`, with the index of the first element.
unfoldable pub element_at : String → ℕ → Items → Value
element_at key i nil = if str_eq key "length" then num false i 0 else undefined
element_at key i (cons v vs) =
    let rest = element_at key (suc i) vs in if str_eq (decimal i) key then v else rest

-- `cur[part]`, where only an object or an array has members.
unfoldable pub member : String → Value → Value
member part (obj fs) = get_field part fs
member part (arr vs) = element_at part 0 vs
member part v = undefined

unfoldable pub get_in : List String → Value → Value
get_in [] cur = cur
get_in (part ∷ parts) cur = get_in parts (member part cur)

unfoldable pub get_path : Value → String → Value
get_path source path = if is_empty path then source else get_in (split_dots path) source

-- The next object down, which is made where there is none.
unfoldable pub below : Value → (Fields → Fields) → Value
below (obj fs) set = obj (set fs)
below (arr vs) set = arr vs
below v set = obj (set end)

-- The loop of `setPath`, which has a part at least.
unfoldable pub set_in : List String → Value → Fields → Fields
set_in [] value out = out
set_in (key ∷ []) value out = set_field key value out
set_in (key ∷ next ∷ parts) value out =
    set_field key (below (get_field key out) (λ fs. set_in (next ∷ parts) value fs)) out

unfoldable pub set_path : Fields → String → Value → Result Fields
set_path out path value =
    if is_empty path
    then throws (plain_error "setPath: path must be non-empty")
    else ok (set_in (split_dots path) value out)

-- A number as a fraction.
same_number : Bool → ℕ → ℕ → Bool → ℕ → ℕ → Bool
same_number s a k t b l =
    a * 10 ^ l == b * 10 ^ k && (a == 0 || (if s then t else if t then false else true))

same_bool : Bool → Bool → Bool
same_bool true b = b
same_bool false true = false
same_bool false false = true

-- Objects and arrays are equal to nothing that a mapping can name, and NaN not to itself.
unfoldable pub strict_equal : Value → Value → Bool
unfolding same_number same_bool
strict_equal undefined undefined = true
strict_equal null null = true
strict_equal (bool a) (bool b) = same_bool a b
strict_equal (num s a k) (num t b l) = same_number s a k t b l
strict_equal (str s) (str t) = str_eq s t
strict_equal a b = false
