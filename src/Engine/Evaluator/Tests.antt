-- ===== src/Engine/Evaluator/Tests.antt =====
-- A currency that is mapped, and a payment method that is not.
use dp_integrator.Base.{String, none, List, [], ◌∷◌, true, refl, ◌≡◌, ok}
use dp_integrator.Base.Dict.{Dict, get}
use dp_integrator.Base.Text.{is_empty, to_lower}
use dp_integrator.Base.Print.{string_of}
use dp_integrator.Base.Value.{Value, str, obj, field, end, get_field, set_field}
use dp_integrator.Engine.MappingResult.{mapped}
use dp_integrator.Engine.Mapping.{Mapping, direct, lookup}
use dp_integrator.Engine.Paths.{get_path, set_path, split_dots, get_in, member, set_in}
use dp_integrator.Engine.Registries.{resolve, row_key}
use dp_integrator.Engine.Evaluator.{
  EvaluatorContext, evaluate, apply_mappings, apply_mapping, go_on, put, key_text, by_key, by_row,
}
use dp_integrator.Engine.Evaluator.Parks.{Evaluated, evaluate-Evaluated}

abbrev ctx : EvaluatorContext (Dict String)
ctx = record { resolve = resolve; derives = λ fn. none }

abbrev source : Value
source = obj (field "name" (str "#1007") (field "currencyCode" (str "USD") end))

abbrev mappings : List Mapping
mappings = direct "name" "tranId" ∷ lookup "lookup_currency" "currencyCode" "currency" true ∷ []

abbrev rows : Dict String
rows = ("lookup_currency|USD", "1") ∷ []

both :
    (evaluate ctx source mappings rows).0
    ≡ ok (mapped (field "tranId" (str "#1007") (field "currency" (str "1") end)))
unfolding evaluate apply_mappings apply_mapping go_on put key_text by_key by_row resolve row_key get
    get_path set_path is_empty split_dots get_in member set_in get_field set_field string_of
    to_lower
both = refl

evaluate-Evaluated_example : Evaluated ctx source mappings (evaluate ctx source mappings rows).0
evaluate-Evaluated_example = evaluate-Evaluated ctx source mappings rows
