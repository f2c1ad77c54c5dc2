-- ===== src/Base/Value.antt =====
-- A value of the dynamic language: what `JSON.parse`, a message body or a payload can hold. A number
-- is a decimal: its sign, its digits, and how many of them stand behind the point; `nan` is the one
-- that is none.
use Prim.Native.Nat.{ℕ}
use Prim.Native.String.{String}
use mathlib.Core.Bool.{Bool}
use mathlib.Core.Path.{◌≡◌, refl}
use native.Mathlib.Omega.{arith}
use text.Mathlib.TextEquality.{eq_iff}
use dp_integrator.Base.Tests.{if◌then◌else◌, str_eq}

mutual
  pub data Value : Type 0 where
    undefined null nan : Value
    bool : Bool → Value
    num : (negative : Bool) → (digits decimals : ℕ) → Value
    str : String → Value
    obj : Fields → Value
    arr : Items → Value

  pub data Fields : Type 0 where
    end : Fields
    field : String → Value → Fields → Fields

  pub data Items : Type 0 where
    nil : Items
    cons : Value → Items → Items

-- `o[key]`, which is `undefined` where the key is missing.
unfoldable pub get_field : String → Fields → Value
get_field k end = undefined
get_field k (field j v fs) = if str_eq j k then v else get_field k fs

-- `o[key] = v`, which keeps the place of a key that is there.
unfoldable pub set_field : String → Value → Fields → Fields
set_field k v end = field k v end
set_field k v (field j w fs) = if str_eq j k then field j v fs else field j w (set_field k v fs)

pub get_field-set_field :
    (j k : String) (v : Value) (fs : Fields)
    → get_field j (set_field k v fs) ≡ (if str_eq k j then v else get_field j fs)
unfolding get_field set_field
get_field-set_field j k v end = refl
get_field-set_field j k v (field i w fs) =
    ground (arith, get_field-set_field j k v fs, eq_iff i k, eq_iff k j, eq_iff i j)
