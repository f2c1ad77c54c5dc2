-- ===== src/Base/Set.antt =====
-- JavaScript's `Set` of strings: each member once, in insertion order.
use Prim.Native.Nat.{suc, ◌≤◌}
use Prim.Native.String.{String}
use mathlib.Core.Path.{◌≡◌, refl}
use mathlib.Core.Bool.{Bool, false, ◌||◌}
use mathlib.Core.List.{List, [], ◌∷◌}
use native.Mathlib.Omega.{arith}
use text.Mathlib.TextEquality.{eq_iff}
use dp_integrator.Base.Tests.{if◌then◌else◌, str_eq}
use dp_integrator.Base.Lists.{length}

unfoldable pub has : String → List String → Bool
has a [] = false
has a (x ∷ xs) = str_eq x a || has a xs

unfoldable pub add : String → List String → List String
add a [] = a ∷ []
add a (x ∷ xs) = if str_eq x a then x ∷ xs else x ∷ add a xs

unfoldable pub delete : String → List String → List String
delete a [] = []
delete a (x ∷ xs) = let rest = delete a xs in if str_eq x a then rest else x ∷ rest

pub length-add : (a : String) (xs : List String) → length (add a xs) ≤ suc (length xs)
unfolding add
length-add a [] = omega arith
length-add a (x ∷ xs) = ground (arith, length-add a xs)

-- A member is added once.
pub length-add_new :
    (a : String) (xs : List String) → has a xs ≡ false → length (add a xs) ≡ suc (length xs)
unfolding has add
length-add_new a [] h = refl
length-add_new a (x ∷ xs) h = ground (arith, length-add_new a xs)

pub length-delete-le : (a : String) (xs : List String) → length (delete a xs) ≤ length xs
unfolding delete
length-delete-le a [] = omega arith
length-delete-le a (x ∷ xs) = ground (arith, length-delete-le a xs)

pub has-add : (a b : String) (xs : List String) → has b (add a xs) ≡ (str_eq a b || has b xs)
unfolding has add
has-add a b [] = ground arith
has-add a b (x ∷ xs) = ground (arith, has-add a b xs, eq_iff x a, eq_iff x b, eq_iff a b)

pub has-delete :
    (a b : String) (xs : List String)
    → has b (delete a xs) ≡ (if str_eq a b then false else has b xs)
unfolding has delete
has-delete a b [] = ground arith
has-delete a b (x ∷ xs) = ground (arith, has-delete a b xs, eq_iff x a, eq_iff x b, eq_iff a b)
