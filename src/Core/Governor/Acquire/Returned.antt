-- ===== src/Core/Governor/Acquire/Returned.antt =====
-- What becomes of the slot of a call of packages/netsuite-client/src/governor-middleware.ts.
use dp_integrator.Base.{ℕ, String, ◌≡◌, refl, false, some, Result, ok, arith, str_eq, eq_refl}
use dp_integrator.Base.Set.{delete, has, has-delete}
use dp_integrator.Core.Governor.Shared.{Store, backing, holders, release}
use dp_integrator.Core.Governor.Bounds.{holders-set}
use dp_integrator.Core.Governor.Acquire.{
  Timed, Lease, GovernorConfig, acquire_slot, governed, lease_of, release_lease,
}

module _ (sleep : ℕ → Timed Store → Timed Store) {A : Type 0} where
  -- When a slot was acquired, the governor middleware gives the call's own result, exceptions
  -- included; the holder has no slot afterwards, and every other holder keeps what it had when the
  -- call ended.
  pub governed-returned :
      (account holder : String) (config : GovernorConfig)
      (next : Timed Store → Result A × Timed Store) (w w' : Timed Store)
      → acquire_slot backing sleep account holder config w
        ≡ (some (ok (lease_of account holder)), w')
      → ((governed backing sleep account holder config next w).0 ≡ some (next w').0)
        × (has holder
              (holders account (governed backing sleep account holder config next w).1.store)
            ≡ false)
        × ((other : String)
            → str_eq holder other ≡ false
            → has other
                (holders account (governed backing sleep account holder config next w).1.store)
              ≡ has other (holders account (next w').1.store))
  unfolding governed release
  governed-returned account holder config next w w' e =
      let s = (next w').1.store in
      let rest = delete holder (holders account s) in
      rw (e, governed)
        (
          refl,
          ground (
            arith,
            holders-set account account rest s,
            eq_refl account,
            has-delete holder holder (holders account s),
            eq_refl holder,
          ),
          λ other ne. ground (
            arith,
            holders-set account account rest s,
            eq_refl account,
            has-delete holder other (holders account s),
          ),
        )

-- Once the callback that gives a slot of the shared store back has run, another call of it changes
-- nothing, whatever the store has become since, for instance when the slot is held again under the
-- same name.
pub release_lease_twice :
    (sleep : ℕ → Timed Store → Timed Store) (l : Lease) (w later : Timed Store)
    → release_lease backing sleep (release_lease backing sleep l w).0 later
      ≡ ((release_lease backing sleep l w).0, later)
unfolding release_lease
release_lease_twice sleep l w later = ground arith
