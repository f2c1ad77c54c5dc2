-- ===== src/Engine/Registries.antt =====
-- packages/mapping-engine/src/registries.ts: `InMemoryLookupResolver`. The registry of derivations is a
-- function from names.
use Prim.Native.String.{◌++◌}
use dp_integrator.Base.{String, Option, M, pure}
use dp_integrator.Base.Dict.{Dict, get}
use dp_integrator.Base.Dict
use dp_integrator.Base.Text.{to_lower}

unfoldable pub row_key : (table key : String) → String
row_key table key = to_lower table ++ ("|" ++ key)

unfoldable pub set : (table key value : String) → M (Dict String) (Unit {0})
set table key value rows = pure tt (Dict.set (row_key table key) value rows)

unfoldable pub resolve : (table key : String) → M (Dict String) (Option String)
resolve table key rows = pure (get (row_key table key) rows) rows
