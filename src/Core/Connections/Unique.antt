-- ===== src/Core/Connections/Unique.antt =====
-- The seed of an `InMemoryConnectionsRepo` of packages/core/src/connections/connections-repo.ts, and the
-- repository that is built of it.
use dp_integrator.Base.{String, ◌≡◌, none, some, List, [], ◌∷◌, ok, arith, eq_iff, eq_refl, All}
use dp_integrator.Base.Dict.{get, set, get-set}
use dp_integrator.Core.Types.{Connection}
use dp_integrator.Core.Connections.{
  ConnectionsRepo, shop_key_for, id_key_for, seed_from, new, find_by_shop_domain, find_by_id,
}

abbrev shop_key : Connection → String
shop_key c = shop_key_for c.environment c.shopify_store

abbrev id_key : Connection → String
id_key c = id_key_for c.environment c.connection_id

abbrev enter : Connection → ConnectionsRepo → ConnectionsRepo
enter c repo = record repo {
  by_shop = set (shop_key c) c repo.by_shop;
  by_id = set (id_key c) c repo.by_id;
}

-- A round that is not refused found both keys free.
seed_from-cons :
    (c : Connection) (cs : List Connection) (repo final : ConnectionsRepo)
    → seed_from (c ∷ cs) repo ≡ ok final
    → (get (shop_key c) repo.by_shop ≡ none)
      × (get (id_key c) repo.by_id ≡ none)
      × (seed_from cs (enter c repo) ≡ ok final)
unfolding seed_from
seed_from-cons c cs repo final e = ground arith

module _ (k : String) (d : Connection) where
  by_shop-stays :
      (cs : List Connection) (repo final : ConnectionsRepo)
      → seed_from cs repo ≡ ok final
      → get k repo.by_shop ≡ some d
      → get k final.by_shop ≡ some d
  unfolding seed_from
  by_shop-stays [] repo final e h = ground arith
  by_shop-stays (c ∷ cs) repo final e h =
      let (free, _, e') = seed_from-cons c cs repo final e in
      by_shop-stays cs (enter c repo) final e'
        (ground (arith, eq_iff (shop_key c) k, get-set (shop_key c) k c repo.by_shop))

  by_id-stays :
      (cs : List Connection) (repo final : ConnectionsRepo)
      → seed_from cs repo ≡ ok final
      → get k repo.by_id ≡ some d
      → get k final.by_id ≡ some d
  unfolding seed_from
  by_id-stays [] repo final e h = ground arith
  by_id-stays (c ∷ cs) repo final e h =
      let (_, free, e') = seed_from-cons c cs repo final e in
      by_id-stays cs (enter c repo) final e'
        (ground (arith, eq_iff (id_key c) k, get-set (id_key c) k c repo.by_id))

abbrev pub IsKnown : ConnectionsRepo → Connection → Type 0
IsKnown repo c =
    (find_by_id c.environment c.connection_id repo ≡ some c)
    × (find_by_shop_domain c.environment c.shopify_store repo ≡ some c)

seed_from-IsKnown :
    (cs : List Connection) (repo final : ConnectionsRepo)
    → seed_from cs repo ≡ ok final
    → All (IsKnown final) cs
unfolding find_by_id find_by_shop_domain
seed_from-IsKnown [] repo final e = tt
seed_from-IsKnown (c ∷ cs) repo final e =
    let (_, _, e') = seed_from-cons c cs repo final e in
    (
      (
        by_id-stays (id_key c) c cs (enter c repo) final e'
            (ground (arith, get-set (id_key c) (id_key c) c repo.by_id, eq_refl (id_key c))),
        by_shop-stays (shop_key c) c cs (enter c repo) final e' (
            ground (arith, get-set (shop_key c) (shop_key c) c repo.by_shop, eq_refl (shop_key c))),
      ),
      seed_from-IsKnown cs (enter c repo) final e',
    )

-- If the constructor of the connections repository accepts a seed, every connection of it is found
-- by its id and by its shop: none hides another.
pub new-IsKnown :
    (seed : List Connection) (repo : ConnectionsRepo) → new seed ≡ ok repo → All (IsKnown repo) seed
unfolding new
new-IsKnown seed repo e = seed_from-IsKnown seed _ repo e
