-- ===== src/Core/Governor/PerProcess.antt =====
-- `PerProcessGovernorStore`: one set for all accounts of a process.
use dp_integrator.Base.{
  ℕ, String, Bool, true, false, List, [], M, pure, Result, ok, throws, plain_error, ltb, leb,
  if◌then◌else◌, length,
}
use dp_integrator.Base.Set
use dp_integrator.Core.Governor.Contract.{BackingStore}

pub record Store : Type 0 where
  pub ceiling : ℕ
  pub slots : List String

unfoldable pub new : ℕ → Result Store
new ceiling =
    if ltb ceiling 1
    then throws (plain_error "Governor ceiling must be ≥ 1")
    else ok (record { ceiling = ceiling; slots = [] })

unfoldable pub try_acquire : String → String → M Store Bool
try_acquire account holder s =
    if leb s.ceiling (length s.slots)
    then pure false s
    else pure true (record s { slots = Set.add holder s.slots })

unfoldable pub release : String → String → M Store (Unit {0})
release account holder s = pure tt (record s { slots = Set.delete holder s.slots })

unfoldable pub in_flight : String → Store → ℕ
in_flight account s = length s.slots

abbrev pub backing : BackingStore Store
backing = record { try_acquire = try_acquire; release = release; in_flight = in_flight }
