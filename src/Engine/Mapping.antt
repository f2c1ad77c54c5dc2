-- ===== src/Engine/Mapping.antt =====
-- packages/mapping-engine/src/primitives.ts: the mappings of a connection. A conditional with an `else` is
-- a constructor of its own; `required` is the answer to `m.required !== false`.
use dp_integrator.Base.{String, Bool}
use dp_integrator.Base.Value.{Value, Fields}

pub data Mapping : Type 0 where
  direct : (from to : String) → Mapping
  constant : Value → (to : String) → Mapping
  lookup : (table from_key to : String) → (required : Bool) → Mapping
  derive : (fn : String) → (args : Fields) → (to : String) → Mapping
  conditional : (path : String) → (equals : Value) → Mapping → Mapping
  conditional_else : (path : String) → (equals : Value) → Mapping → Mapping → Mapping
