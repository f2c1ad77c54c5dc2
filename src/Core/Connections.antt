-- ===== src/Core/Connections.antt =====
-- `InMemoryConnectionsRepo` of packages/core/src/connections/connections-repo.ts. `toLowerCase` is
-- that of the ASCII letters.
mod Tests
pub mod Unique
use Prim.Native.String.{◌++◌}
use dp_integrator.Base.{
  String, Bool, ◌&&◌, Option, none, some, List, [], ◌∷◌, Result, ok, throws, plain_error, is_some,
  if◌then◌else◌, str_eq, keep,
}
use dp_integrator.Base.Dict.{Dict, get, set}
use dp_integrator.Base.Text.{to_lower}
use dp_integrator.Core.Types.{Connection, Environment, environment_text}

pub record ConnectionsRepo : Type 0 where
  pub by_shop : Dict Connection
  pub by_id : Dict Connection
  pub all : List Connection

unfoldable pub shop_key_for : Environment → String → String
shop_key_for env shop = environment_text env ++ ("|" ++ to_lower shop)

unfoldable pub id_key_for : Environment → String → String
id_key_for env id = environment_text env ++ ("|" ++ id)

-- The constructor's loop over the connections that are left.
unfoldable pub seed_from : List Connection → ConnectionsRepo → Result ConnectionsRepo
seed_from [] repo = ok repo
seed_from (c ∷ cs) repo =
    let shop_key = shop_key_for c.environment c.shopify_store in
    let id_key = id_key_for c.environment c.connection_id in
    let rest =
      seed_from cs
        (record repo { by_shop = set shop_key c repo.by_shop; by_id = set id_key c repo.by_id }) in
    if is_some (get shop_key repo.by_shop)
    then throws (
        plain_error (
          "InMemoryConnectionsRepo: duplicate shop '"
          ++ (c.shopify_store
              ++ ("' in environment '" ++ (environment_text c.environment ++ "'")))))
    else if is_some (get id_key repo.by_id)
    then throws (
        plain_error (
          "InMemoryConnectionsRepo: duplicate connection_id '"
          ++ (c.connection_id
              ++ ("' in environment '" ++ (environment_text c.environment ++ "'")))))
    else rest

unfoldable pub new : List Connection → Result ConnectionsRepo
new seed = seed_from seed (record { by_shop = []; by_id = []; all = seed })

unfoldable pub find_by_shop_domain : Environment → String → ConnectionsRepo → Option Connection
find_by_shop_domain env shop repo = get (shop_key_for env shop) repo.by_shop

unfoldable pub find_by_id : Environment → String → ConnectionsRepo → Option Connection
find_by_id env id repo = get (id_key_for env id) repo.by_id

unfoldable pub list_enabled : Environment → ConnectionsRepo → List Connection
list_enabled env repo =
    keep (λ c. str_eq (environment_text c.environment) (environment_text env) && c.enabled) repo.all
