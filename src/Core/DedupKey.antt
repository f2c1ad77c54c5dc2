-- ===== src/Core/DedupKey.antt =====
-- packages/core/src/id/dedup-key.ts. The JSON text of the parts is left out of the first message.
mod Tests
pub mod Injective
use Prim.Native.String.{◌++◌}
use dp_integrator.Base.{String, List, [], ◌∷◌, Bool, Result, ok, throws, plain_error, if◌then◌else◌}
use dp_integrator.Base.Text.{has_char, is_empty, join}
use dp_integrator.Core.Types.{
  Environment, EntityType, System, environment_text, entity_type_text, system_text,
}

pub record DedupKeyParts : Type 0 where
  pub environment : Environment
  pub connection_id : String
  pub entity_type : EntityType
  pub source_system : System
  pub source_id : String

unfoldable pub values : DedupKeyParts → List String
values p =
    environment_text p.environment
    ∷ p.connection_id
    ∷ entity_type_text p.entity_type
    ∷ system_text p.source_system
    ∷ p.source_id
    ∷ []

-- The loop over the components; `k` is what follows it.
unfoldable pub checked : List String → Result String → Result String
checked [] k = k
checked (v ∷ vs) k =
    let rest = checked vs k in
    if is_empty v
    then throws (plain_error "dedupKey: empty/non-string component")
    else if has_char b'|' v
    then throws (plain_error ("dedupKey: component contains reserved separator '|': " ++ v))
    else rest

unfoldable pub dedup_key : DedupKeyParts → Result String
unfolding values checked
dedup_key p = checked (values p) (ok (join "|" (values p)))
