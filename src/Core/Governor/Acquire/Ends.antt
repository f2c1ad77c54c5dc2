-- ===== src/Core/Governor/Acquire/Ends.antt =====
-- The wait for a slot of the shared store (packages/core/src/governor/acquire.ts), with time that passes
-- during each sleep.
use dp_integrator.Base.{
  ℕ, zero, suc, ◌+◌, ◌≤◌, ◌<◌, String, ◌≡◌, refl, true, false, Option, some, Result, ok, throws,
  arith, leb, ◌⊎◌, inl, inr, Bool-cases, length, eq_refl,
}
use dp_integrator.Base.Set.{add, has, has-add}
use dp_integrator.Core.Governor.Shared.{Store, backing, holders, set_holders, try_acquire}
use dp_integrator.Core.Governor.Bounds.{holders-set}
use dp_integrator.Core.Governor.Acquire.{
  Timed, Lease, GovernorConfig, acquire_loop, acquire_slot, lease_of, polled, timed_out, timeout_of,
}

-- How the wait ends: the holder has its slot, or the deadline is over.
abbrev pub Settled :
    (deadline : ℕ) (account holder : String) → Option (Result Lease) × Timed Store → Type 0
Settled deadline account holder r =
    ((r.0 ≡ some (ok (lease_of account holder))) × (has holder (holders account r.1.store) ≡ true))
    ⊎ ((r.0 ≡ some (throws (timed_out account))) × (deadline ≤ r.1.now))

acquired-has :
    (account holder : String) (s : Store)
    → leb s.ceiling (length (holders account s)) ≡ false
    → (try_acquire account holder s
        ≡ (ok true, set_holders account (add holder (holders account s)) s))
      × (has holder (holders account (set_holders account (add holder (holders account s)) s))
          ≡ true)
unfolding try_acquire
acquired-has account holder s h = (
  rw h,
  ground (
    arith,
    holders-set account account (add holder (holders account s)) s,
    eq_refl account,
    has-add holder holder (holders account s),
    eq_refl holder,
  ),
)

refused :
    (account holder : String) (s : Store)
    → leb s.ceiling (length (holders account s)) ≡ true
    → try_acquire account holder s ≡ (ok false, set_holders account (holders account s) s)
unfolding try_acquire
refused account holder s h = rw h

module _ (sleep : ℕ → Timed Store → Timed Store)
    (passes : (ms : ℕ) (w : Timed Store) → w.now < (sleep ms w).now) where
  acquire_loop-Settled :
      (fuel poll deadline : ℕ) (account holder : String) (w : Timed Store)
      → 0 < fuel
      → deadline < w.now + fuel
      → Settled deadline account holder
          (acquire_loop backing sleep fuel poll deadline account holder w)
  unfolding acquire_loop
  acquire_loop-Settled zero poll deadline account holder w p h = elim p [ ]
  acquire_loop-Settled (suc fuel) poll deadline account holder w p h =
      elim (Bool-cases (leb w.store.ceiling (length (holders account w.store)))) [
        | inl full ↦
            rw (refused account holder w.store full, acquire_loop)
              (elim (Bool-cases (leb deadline w.now)) [
                | inl late ↦ rw (late, polled) (inr (refl, ground arith))
                | inr early ↦
                    let w' = record w {
                      store = set_holders account (holders account w.store) w.store;
                    } in
                    rw (early, polled)
                      (acquire_loop-Settled fuel poll deadline account holder (sleep poll w')
                        (ground arith) (ground (arith, passes poll w')))
              ])
        | inr free ↦
            let (e, h) = acquired-has account holder w.store free in
            rw (e, acquire_loop) (inl (refl, h))
      ]

  -- If the clock moves during every sleep, `acquireSlot` on the shared store always returns: either
  -- with the slot in the account's set, or with the timeout's exception and only once the timeout
  -- has passed.
  pub acquire_slot-Settled :
      (account holder : String) (config : GovernorConfig) (w : Timed Store)
      → Settled
          (w.now + timeout_of config)
          account
          holder
          (acquire_slot backing sleep account holder config w)
  unfolding acquire_slot
  acquire_slot-Settled account holder config w =
      acquire_loop-Settled _ _ _ account holder w (omega arith) (omega arith)
