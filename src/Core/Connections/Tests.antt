-- ===== src/Core/Connections/Tests.antt =====
-- A repository with two shops.
use dp_integrator.Core.Sample.{sample_connection}
use dp_integrator.Base.{◌≡◌, refl, [], ◌∷◌, ok, All}
use dp_integrator.Base.Dict.{get, set}
use dp_integrator.Base.Text.{to_lower}
use dp_integrator.Core.Types.{Connection, environment_text}
use dp_integrator.Core.Connections.{ConnectionsRepo, new, seed_from, shop_key_for, id_key_for}
use dp_integrator.Core.Connections.Unique.{IsKnown, new-IsKnown}

abbrev shop_a : Connection
shop_a = record sample_connection { shopify_store = "A.example" }

abbrev shop_b : Connection
shop_b = record shop_a { connection_id = "c2"; shopify_store = "b.example" }

abbrev two_shops : ConnectionsRepo
two_shops = record {
  by_shop = ("prod|a.example", shop_a) ∷ ("prod|b.example", shop_b) ∷ [];
  by_id = ("prod|c1", shop_a) ∷ ("prod|c2", shop_b) ∷ [];
  all = shop_a ∷ shop_b ∷ [];
}

made : new (shop_a ∷ shop_b ∷ []) ≡ ok two_shops
unfolding new seed_from get set shop_key_for id_key_for to_lower environment_text
made = refl

new-IsKnown_example : All (IsKnown two_shops) (shop_a ∷ shop_b ∷ [])
new-IsKnown_example = new-IsKnown (shop_a ∷ shop_b ∷ []) two_shops made
