-- ===== src/Core/Governor/Shared.antt =====
-- `SharedInMemoryGovernorStore`: one set of holders for each account.
use dp_integrator.Base.{
  ℕ, String, Bool, true, false, List, [], M, pure, Result, ok, throws, plain_error, ltb, leb,
  or_else, if◌then◌else◌, length,
}
use dp_integrator.Base.Dict.{Dict}
use dp_integrator.Base.Dict
use dp_integrator.Base.Set
use dp_integrator.Core.Governor.Contract.{BackingStore}

pub record Store : Type 0 where
  pub ceiling : ℕ
  pub slots : Dict (List String)

unfoldable pub new : ℕ → Result Store
new ceiling =
    if ltb ceiling 1
    then throws (plain_error "Governor ceiling must be ≥ 1")
    else ok (record { ceiling = ceiling; slots = [] })

-- The set of an account; `bucket` enters an empty one for an account that has none.
abbrev pub holders : String → Store → List String
holders account s = or_else (Dict.get account s.slots) []

unfoldable pub set_holders : String → List String → Store → Store
set_holders account hs s = record s { slots = Dict.set account hs s.slots }

unfoldable pub try_acquire : String → String → M Store Bool
try_acquire account holder s =
    let b = holders account s in
    if leb s.ceiling (length b)
    then pure false (set_holders account b s)
    else pure true (set_holders account (Set.add holder b) s)

unfoldable pub release : String → String → M Store (Unit {0})
release account holder s = pure tt (set_holders account (Set.delete holder (holders account s)) s)

unfoldable pub in_flight : String → Store → ℕ
in_flight account s = length (holders account s)

abbrev pub backing : BackingStore Store
backing = record { try_acquire = try_acquire; release = release; in_flight = in_flight }
