-- ===== src/Base/Sort.antt =====
-- `xs.sort((a, b) => key(b) - key(a))`: the stable sort, by a number that falls along the list.
use Prim.Native.Nat.{ℕ, ◌≤◌}
use mathlib.Core.Logic.{inl, inr}
use mathlib.Core.List.{List, [], ◌∷◌, Perm}
use mathlib.Core.List.Perm
use native.Mathlib.Omega.{arith}
use dp_integrator.Base.Tests.{leb, if◌then◌else◌, Bool-cases}
use dp_integrator.Base.Lists.{All}

module _ {A : Type 0} (key : A → ℕ) where
  -- Of equal keys the one that came first stays first.
  unfoldable pub insert : A → List A → List A
  insert x [] = x ∷ []
  insert x (y ∷ ys) = if leb (key y) (key x) then x ∷ y ∷ ys else y ∷ insert x ys

  unfoldable pub sort_desc : List A → List A
  unfolding insert
  sort_desc [] = []
  sort_desc (x ∷ xs) = insert x (sort_desc xs)

  abbrev pub IsFalling : List A → Type 0
  IsFalling [] = Unit {0}
  IsFalling (x ∷ xs) = All (λ y. key y ≤ key x) xs × IsFalling xs

  All-le :
      (m : A) (x : A) (xs : List A)
      → key x ≤ key m
      → All (λ y. key y ≤ key x) xs
      → All (λ y. key y ≤ key m) xs
  All-le m x [] h a = tt
  All-le m x (y ∷ ys) h a = (omega arith, All-le m x ys h a.1)

  All-insert :
      (m x : A) (xs : List A)
      → key x ≤ key m
      → All (λ y. key y ≤ key m) xs
      → All (λ y. key y ≤ key m) (insert x xs)
  unfolding insert
  All-insert m x [] h a = (h, tt)
  All-insert m x (y ∷ ys) h a = ground (arith, All-insert m x ys)

  insert-IsFalling : (x : A) (xs : List A) → IsFalling xs → IsFalling (insert x xs)
  unfolding insert
  insert-IsFalling x [] f = (tt, tt)
  insert-IsFalling x (y ∷ ys) f = elim (Bool-cases (leb (key y) (key x))) [
    | inl le ↦ rw le ((ground arith, All-le x y ys (ground arith) f.0), f)
    | inr gt ↦ rw gt (All-insert y x ys (ground arith) f.0, insert-IsFalling x ys f.1)
  ]

  pub sort_desc-IsFalling : (xs : List A) → IsFalling (sort_desc xs)
  unfolding sort_desc
  sort_desc-IsFalling [] = tt
  sort_desc-IsFalling (x ∷ xs) = insert-IsFalling x (sort_desc xs) (sort_desc-IsFalling xs)

  insert-perm : (x : A) (xs : List A) → Perm (insert x xs) (x ∷ xs)
  unfolding insert
  insert-perm x [] = Perm.refl _
  insert-perm x (y ∷ ys) = elim (Bool-cases (leb (key y) (key x))) [
    | inl le ↦ rw le (Perm.refl _)
    | inr gt ↦ rw gt (Perm.trans (Perm.cons y (insert-perm x ys)) (Perm.swap x y ys))
  ]

  pub sort_desc-perm : (xs : List A) → Perm (sort_desc xs) xs
  unfolding sort_desc
  sort_desc-perm [] = Perm.refl []
  sort_desc-perm (x ∷ xs) =
      Perm.trans (insert-perm x (sort_desc xs)) (Perm.cons x (sort_desc-perm xs))

  insert-All : (P : A → Type 0) (x : A) (xs : List A) → P x → All P xs → All P (insert x xs)
  unfolding insert
  insert-All P x [] h a = (h, tt)
  insert-All P x (y ∷ ys) h (b, bs) = elim (Bool-cases (leb (key y) (key x))) [
    | inl le ↦ rw le (h, (b, bs))
    | inr gt ↦ rw gt (b, insert-All P x ys h bs)
  ]

  pub sort_desc-All : (P : A → Type 0) (xs : List A) → All P xs → All P (sort_desc xs)
  unfolding sort_desc
  sort_desc-All P [] a = tt
  sort_desc-All P (x ∷ xs) (h, hs) = insert-All P x (sort_desc xs) h (sort_desc-All P xs hs)
