-- ===== src/Engine/Evaluator.antt =====
-- packages/mapping-engine/src/evaluator.ts: a list of mappings makes an output of a source, or parks it.
-- `E` is the state of the systems outside, on which lookups and derivations act.
pub mod Parks
mod Tests
use Prim.Native.String.{◌++◌}
use dp_integrator.Base.{
  String, Bool, true, false, Option, none, some, List, [], ◌∷◌, M, Result, ok, throws, plain_error,
  pure, lift, throw, ◌>>=◌, resume,
}
use dp_integrator.Base.Print.{string_of}
use dp_integrator.Base.Value.{Value, undefined, null, str, Fields, field, end}
use dp_integrator.Engine.MappingResult.{MappingResult, mapped, parked}
use dp_integrator.Engine.Mapping.{
  Mapping, direct, constant, lookup, derive, conditional, conditional_else,
}
use dp_integrator.Engine.Paths.{get_path, set_path, strict_equal}

-- `EvaluatorContext`.
pub record EvaluatorContext (E : Type 0) : Type 0 where
  pub resolve : (table key : String) → M E (Option String)
  pub derives : String → Option (Fields → Value → M E Value)

-- `key === undefined || key === null`, with the text of any other key.
unfoldable pub key_text : Value → Option String
key_text undefined = none
key_text null = none
key_text v = some (string_of v)

module _ {E : Type 0} (ctx : EvaluatorContext E) (source : Value) where
  unfoldable pub put : (to : String) → Value → Fields → M E (MappingResult Fields)
  put to value out = do next ← lift (set_path out to value); pure (mapped next)

  -- A lookup that has nothing: it parks if it is required, else the field is null.
  unfoldable pub missing :
      Bool
      → (detail construct : String) → Option Fields
      → (to : String) → Fields
      → M E (MappingResult Fields)
  missing true detail construct evidence to out =
      pure (parked (record { detail = detail; construct = some construct; evidence = evidence }))
  missing false detail construct evidence to out = put to null out

  unfoldable pub by_row :
      (table from_key to : String)
      → Bool
      → (key : String) → Fields
      → Option String
      → M E (MappingResult Fields)
  by_row table from_key to required key out (some resolved) = put to (str resolved) out
  by_row table from_key to required key out none =
      missing required ("lookup '" ++ (table ++ ("' has no row for key '" ++ (key ++ "'")))) table
        (some (field from_key (get_path source from_key) end)) to out

  unfoldable pub by_key :
      (table from_key to : String) → Bool → Option String → Fields → M E (MappingResult Fields)
  by_key table from_key to required none out =
      missing required ("lookup '" ++ (table ++ ("': source key '" ++ (from_key ++ "' missing"))))
        from_key none to out
  by_key table from_key to required (some key) out = do
    resolved ← ctx.resolve table key
    by_row table from_key to required key out resolved

  unfoldable pub by_fn :
      (fn to : String)
      → Fields
      → Fields
      → Option (Fields → Value → M E Value)
      → M E (MappingResult Fields)
  by_fn fn to args out none = throw (
      plain_error (
        "mapping evaluator: derive fn '"
        ++ (fn ++ ("' is not registered (referenced by mapping → '" ++ (to ++ "')")))))
  by_fn fn to args out (some f) = do value ← f args source; put to value out

  unfoldable pub choose :
      Bool → M E (MappingResult Fields) → M E (MappingResult Fields) → M E (MappingResult Fields)
  choose true then_ else_ = then_
  choose false then_ else_ = else_

  unfoldable pub apply_mapping : Mapping → Fields → M E (MappingResult Fields)
  apply_mapping (direct from to) out = put to (get_path source from) out
  apply_mapping (constant value to) out = put to value out
  apply_mapping (lookup table from_key to required) out =
      by_key table from_key to required (key_text (get_path source from_key)) out
  apply_mapping (derive fn args to) out = by_fn fn to args out (ctx.derives fn)
  apply_mapping (conditional path equals branch) out =
      choose (strict_equal (get_path source path) equals) (apply_mapping branch out)
        (pure (mapped out))
  apply_mapping (conditional_else path equals branch other) out =
      choose (strict_equal (get_path source path) equals) (apply_mapping branch out)
        (apply_mapping other out)

  -- A mapping that parks ends the loop.
  unfoldable pub go_on :
      (Fields → M E (MappingResult Fields)) → MappingResult Fields → M E (MappingResult Fields)
  go_on rest (parked reason) = pure (parked reason)
  go_on rest (mapped out) = rest out

  unfoldable pub apply_mappings : List Mapping → Fields → M E (MappingResult Fields)
  apply_mappings [] out = pure (mapped out)
  apply_mappings (m ∷ ms) out = apply_mapping m out >>= go_on (λ next. apply_mappings ms next)

  unfoldable pub evaluate : List Mapping → M E (MappingResult Fields)
  evaluate mappings = apply_mappings mappings end
