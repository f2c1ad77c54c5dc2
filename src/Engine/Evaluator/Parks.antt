-- ===== src/Engine/Evaluator/Parks.antt =====
-- The evaluation of a list of mappings by packages/mapping-engine/src/evaluator.ts: when it parks.
use dp_integrator.Base.{
  String, Bool, true, false, Option, none, some, List, [], ◌∷◌, M, Result, ok, throws, resume, pure,
  All, ◌≡◌, ◌⊎◌, inl, inr, refl, Bool-cases,
}
use dp_integrator.Base.Value.{Value, Fields, end}
use dp_integrator.Engine.MappingResult.{MappingResult, mapped, parked}
use dp_integrator.Engine.Mapping.{
  Mapping, direct, constant, lookup, derive, conditional, conditional_else,
}
use dp_integrator.Engine.Paths.{get_path, set_path, strict_equal}
use dp_integrator.Engine.Evaluator.{
  EvaluatorContext, key_text, put, missing, by_row, by_key, by_fn, choose, apply_mapping, go_on,
  apply_mappings, evaluate,
}

module _ {E : Type 0} (ctx : EvaluatorContext E) (source : Value) where
  abbrev Holds : String → Value → Type 0
  Holds path equals = strict_equal (get_path source path) equals ≡ true

  abbrev Fails : String → Value → Type 0
  Fails path equals = strict_equal (get_path source path) equals ≡ false

  -- What a mapping asks for is there: the row of a required lookup, a derivation, what the branch that is
  -- taken asks for.
  abbrev pub Honoured : Mapping → Type 0
  Honoured (direct from to) = Unit
  Honoured (constant value to) = Unit
  Honoured (lookup table from_key to false) = Unit
  Honoured (lookup table from_key to true) =
      (key : String) × (value : String) × (e : E) × (key_text (get_path source from_key) ≡ some key)
      × ((ctx.resolve table key e).0 ≡ ok (some value))
  Honoured (derive fn args to) = (f : Fields → Value → M E Value) × (ctx.derives fn ≡ some f)
  Honoured (conditional path equals m) = Fails path equals ⊎ (Holds path equals × Honoured m)
  Honoured (conditional_else path equals m other) =
      (Holds path equals × Honoured m) ⊎ (Fails path equals × Honoured other)

  -- A required lookup has no key, or no row for it.
  abbrev pub Unmapped : Mapping → Type 0
  Unmapped (direct from to) = ⊥
  Unmapped (constant value to) = ⊥
  Unmapped (lookup table from_key to false) = ⊥
  Unmapped (lookup table from_key to true) =
      (key_text (get_path source from_key) ≡ none)
      ⊎ ((key : String) × (e : E) × (key_text (get_path source from_key) ≡ some key)
          × ((ctx.resolve table key e).0 ≡ ok none))
  Unmapped (derive fn args to) = ⊥
  Unmapped (conditional path equals m) = Holds path equals × Unmapped m
  Unmapped (conditional_else path equals m other) =
      (Holds path equals × Unmapped m) ⊎ (Fails path equals × Unmapped other)

  abbrev pub SomeUnmapped : List Mapping → Type 0
  SomeUnmapped [] = ⊥
  SomeUnmapped (m ∷ ms) = Unmapped m ⊎ SomeUnmapped ms

  abbrev One : Mapping → Result (MappingResult Fields) → Type 0
  One m (ok (mapped q)) = Honoured m
  One m (ok (parked r)) = Unmapped m
  One m (throws e) = Unit

  abbrev pub Evaluated : List Mapping → Result (MappingResult Fields) → Type 0
  Evaluated ms (ok (mapped q)) = All Honoured ms
  Evaluated ms (ok (parked r)) = SomeUnmapped ms
  Evaluated ms (throws e) = Unit

  -- A write either succeeds or throws.
  put-One :
      (m : Mapping) (to : String) (value : Value) (out : Fields) (e : E)
      → Honoured m
      → One m (put ctx source to value out e).0
  unfolding put
  put-One m to value out e h = by_result (set_path out to value)
    where
      by_result : (r : Result Fields) → One m (resume (r, e) (λ next. pure (mapped next))).0
      by_result (ok q) = h
      by_result (throws x) = tt

  missing-One :
      (table from_key to : String) (required : Bool) (detail construct : String)
      (evidence : Option Fields) (out : Fields) (e : E)
      → Unmapped (lookup table from_key to true)
      → One
          (lookup table from_key to required)
          (missing ctx source required detail construct evidence to out e).0
  unfolding missing
  missing-One table from_key to true detail construct evidence out e h = h
  missing-One table from_key to false detail construct evidence out e h =
      put-One (lookup table from_key to false) to _ out e tt

  found-One :
      (table from_key to : String) (required : Bool)
      → Honoured (lookup table from_key to true)
      → Honoured (lookup table from_key to required)
  found-One table from_key to true h = h
  found-One table from_key to false h = tt

  by_answer-One :
      (table from_key to : String) (required : Bool) (key : String) (out : Fields) (e : E)
      (r : Result (Option String) × E)
      → key_text (get_path source from_key) ≡ some key
      → ((answer : Option String) → r.0 ≡ ok answer → (ctx.resolve table key e).0 ≡ ok answer)
      → One
          (lookup table from_key to required)
          (resume r (by_row ctx source table from_key to required key out)).0
  unfolding by_row
  by_answer-One table from_key to required key out e (ok (some v), s) k h =
      put-One (lookup table from_key to required) to _ out s
        (found-One table from_key to required (key, v, e, k, h _ refl))
  by_answer-One table from_key to required key out e (ok none, s) k h =
      missing-One table from_key to required _ _ _ out s (inr (key, e, k, h _ refl))
  by_answer-One table from_key to required key out e (throws x, s) k h = tt

  by_key-One :
      (table from_key to : String) (required : Bool) (key : Option String) (out : Fields) (e : E)
      → key_text (get_path source from_key) ≡ key
      → One
          (lookup table from_key to required)
          (by_key ctx source table from_key to required key out e).0
  unfolding by_key
  by_key-One table from_key to required none out e k =
      missing-One table from_key to required _ _ _ out e (inl k)
  by_key-One table from_key to required (some key) out e k =
      by_answer-One table from_key to required key out e (ctx.resolve table key e) k (λ answer h. h)

  by_fn-One :
      (fn to : String) (args out : Fields) (f : Option (Fields → Value → M E Value)) (e : E)
      → ctx.derives fn ≡ f
      → One (derive fn args to) (by_fn ctx source fn to args out f e).0
  unfolding by_fn
  by_fn-One fn to args out none e h = tt
  by_fn-One fn to args out (some f) e h = by_value (f args source e)
    where
      by_value :
          (r : Result Value × E)
          → One (derive fn args to) (resume r (λ value. put ctx source to value out)).0
      by_value (ok v, s) = put-One (derive fn args to) to v out s (f, h)
      by_value (throws x, s) = tt

  -- A conditional is as its branch is.
  of_branch :
      (m n : Mapping) (r : Result (MappingResult Fields))
      → (Honoured m → Honoured n)
      → (Unmapped m → Unmapped n)
      → One m r
      → One n r
  of_branch m n (ok (mapped q)) h u d = h d
  of_branch m n (ok (parked p)) h u d = u d
  of_branch m n (throws x) h u d = tt

  apply_mapping-One :
      (m : Mapping) (out : Fields) (e : E) → One m (apply_mapping ctx source m out e).0
  unfolding apply_mapping choose
  apply_mapping-One (direct from to) out e = put-One (direct from to) to _ out e tt
  apply_mapping-One (constant value to) out e = put-One (constant value to) to value out e tt
  apply_mapping-One (lookup table from_key to required) out e =
      by_key-One table from_key to required _ out e refl
  apply_mapping-One (derive fn args to) out e = by_fn-One fn to args out _ e refl
  apply_mapping-One (conditional path equals m) out e =
      let branch = apply_mapping-One m out e in
      elim (Bool-cases (strict_equal (get_path source path) equals)) [
        | inl holds ↦ rw holds (
            of_branch m (conditional path equals m) _ (λ h. inr (holds, h)) (λ u. (holds, u))
              branch)
        | inr fails ↦ rw fails (inl fails)
      ]
  apply_mapping-One (conditional_else path equals m other) out e =
      let branch = apply_mapping-One m out e in
      let otherwise = apply_mapping-One other out e in
      elim (Bool-cases (strict_equal (get_path source path) equals)) [
        | inl holds ↦ rw holds (
            of_branch m (conditional_else path equals m other) _ (λ h. inl (holds, h))
              (λ u. inl (holds, u)) branch)
        | inr fails ↦ rw fails (
            of_branch other (conditional_else path equals m other) _ (λ h. inr (fails, h))
              (λ u. inr (fails, u)) otherwise)
      ]

  in_front :
      (m : Mapping) (ms : List Mapping) (r : Result (MappingResult Fields))
      → Honoured m
      → Evaluated ms r
      → Evaluated (m ∷ ms) r
  in_front m ms (ok (mapped q)) h d = (h, d)
  in_front m ms (ok (parked p)) h d = inr d
  in_front m ms (throws x) h d = tt

  going_on :
      (m : Mapping) (ms : List Mapping) (r : Result (MappingResult Fields) × E)
      (rest : Fields → M E (MappingResult Fields))
      → One m r.0
      → ((out : Fields) (e : E) → Evaluated ms (rest out e).0)
      → Evaluated (m ∷ ms) (resume r (go_on ctx source rest)).0
  unfolding go_on
  going_on m ms (ok (mapped out), e) rest d h = in_front m ms _ d (h out e)
  going_on m ms (ok (parked p), e) rest d h = inl d
  going_on m ms (throws x, e) rest d h = tt

  apply_mappings-Evaluated :
      (ms : List Mapping) (out : Fields) (e : E)
      → Evaluated ms (apply_mappings ctx source ms out e).0
  unfolding apply_mappings
  apply_mappings-Evaluated [] out e = tt
  apply_mappings-Evaluated (m ∷ ms) out e =
      going_on m ms _ _ (apply_mapping-One m out e) (λ next s. apply_mappings-Evaluated ms next s)

  -- If an evaluation succeeds, every required lookup that its conditions reach had a key and a row
  -- for it, and every derivation that they reach is registered; if it parks, a required lookup that
  -- the conditions reach has no key or no row.
  pub evaluate-Evaluated : (ms : List Mapping) (e : E) → Evaluated ms (evaluate ctx source ms e).0
  unfolding evaluate
  evaluate-Evaluated ms e = apply_mappings-Evaluated ms end e
