-- ===== src/Base/Print.antt =====
-- `String(v)`. A number has at most 21 digits before the point and no zero at the end behind it.
use Prim.Native.Char.{code}
use Prim.Native.Nat.{ℕ, ◌/◌, ◌%◌, ◌^◌}
use Prim.Native.String.{String, ◌++◌}
use mathlib.Core.Bool.{Bool, true, false}
use dp_integrator.Base.Tests.{◌==◌, if◌then◌else◌}
use dp_integrator.Base.Time.{padded}
use dp_integrator.Base.Value.{
  Value, undefined, null, nan, bool, num, str, arr, obj, Items, nil, cons,
}

-- Without the zeros in front.
trimmed : String → String
trimmed String.[] = "0"
trimmed (String.◌∷◌ c s) = let rest = trimmed s in if code c == b'0' then rest else String.◌∷◌ c s

unfoldable pub decimal : ℕ → String
unfolding trimmed padded
decimal n = trimmed (padded 21 n)

sign_text : Bool → String
sign_text true = "-"
sign_text false = ""

number_text : ℕ → ℕ → String
unfolding decimal
number_text digits decimals =
    if decimals == 0
    then decimal digits
    else decimal (digits / 10 ^ decimals) ++ ("." ++ padded decimals (digits % 10 ^ decimals))

is_nothing : Value → Bool
is_nothing undefined = true
is_nothing null = true
is_nothing v = false

-- An element without a text in `join` is `null` or `undefined`.
unfoldable mutual
  unfolding sign_text number_text is_nothing

  pub string_of : Value → String
  string_of undefined = "undefined"
  string_of null = "null"
  string_of nan = "NaN"
  string_of (bool true) = "true"
  string_of (bool false) = "false"
  string_of (num negative digits decimals) = sign_text negative ++ number_text digits decimals
  string_of (str s) = s
  string_of (obj fs) = "[object Object]"
  string_of (arr vs) = joined vs

  pub joined : Items → String
  joined nil = ""
  joined (cons v vs) =
      let text = string_of v in
      let rest = rest_text vs in (if is_nothing v then "" else text) ++ rest

  pub rest_text : Items → String
  rest_text nil = ""
  rest_text (cons v vs) =
      let text = string_of v in
      let rest = rest_text vs in "," ++ ((if is_nothing v then "" else text) ++ rest)
