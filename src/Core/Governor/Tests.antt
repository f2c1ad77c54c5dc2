-- ===== src/Core/Governor/Tests.antt =====
-- The governor with concrete clients.
use dp_integrator.Base.{
  ℕ, List, ◌+◌, ◌*◌, ◌≤◌, ◌<◌, ◌≡◌, refl, false, String, some, ok, Result, [], ◌∷◌, arith, str_eq,
}
use dp_integrator.Base.Set.{add, has}
use dp_integrator.Base.Dict.{get, set}
use dp_integrator.Core.Governor.Shared.{Store, new, backing, holders, try_acquire, set_holders}
use dp_integrator.Core.Governor.Bounds.{Call, acquires, releases, run, in_flight-le-ceiling}
use dp_integrator.Core.Governor.Shared.{in_flight}
use dp_integrator.Core.Governor.PerProcess
use dp_integrator.Core.Governor.Trap.{IsDistinct, acquire_all, copies, per_process_total, total}
use dp_integrator.Core.Governor.Acquire.{
  GovernorConfig, Timed, acquire_slot, acquire_loop, governed, lease_of, polled, release_lease,
  timeout_of,
}
use dp_integrator.Core.Governor.Acquire.Ends.{Settled, acquire_slot-Settled}
use dp_integrator.Core.Governor.Acquire.Returned.{governed-returned, release_lease_twice}

abbrev one_slot : Store
one_slot = record { ceiling = 1; slots = [] }

made : new 1 ≡ ok one_slot
unfolding new
made = refl

in_flight-le-ceiling_example :
    in_flight "acct"
      (run (acquires "acct" "h1" ∷ acquires "acct" "h2" ∷ releases "acct" "h1" ∷ []) one_slot)
    ≤ 1
in_flight-le-ceiling_example = in_flight-le-ceiling 1 one_slot _ "acct" made

-- A sleep in which nobody else does anything.
abbrev alone : ℕ → Timed Store → Timed Store
alone ms w = record w { now = w.now + ms + 1 }

abbrev config : GovernorConfig
config = record { per_account_ceiling = 1; poll_interval_ms = some 5; acquire_timeout_ms = some 9 }

abbrev taken : Timed Store
taken = record { store = record { ceiling = 1; slots = ("acct", "other" ∷ []) ∷ [] }; now = 100 }

alone-passes : (ms : ℕ) (w : Timed Store) → w.now < (alone ms w).now
alone-passes ms w = omega arith

acquire_slot-Settled_example :
    Settled
      (100 + timeout_of config)
      "acct"
      "h1"
      (acquire_slot backing alone "acct" "h1" config taken)
acquire_slot-Settled_example = acquire_slot-Settled alone alone-passes "acct" "h1" config taken

abbrev free : Timed Store
free = record { store = one_slot; now = 100 }

abbrev held : Timed Store
held = record { store = record { ceiling = 1; slots = ("acct", "h1" ∷ []) ∷ [] }; now = 100 }

gets : acquire_slot backing alone "acct" "h1" config free ≡ (some (ok (lease_of "acct" "h1")), held)
unfolding acquire_slot acquire_loop polled try_acquire set_holders add has get set
gets = refl

-- A call that throws nothing and takes no time.
abbrev answer : Timed Store → Result ℕ × Timed Store
answer w = (ok 200, w)

governed-returned_example :
    ((governed backing alone "acct" "h1" config answer free).0 ≡ some (ok 200))
    × (has "h1" (holders "acct" (governed backing alone "acct" "h1" config answer free).1.store)
        ≡ false)
    × ((other : String)
        → str_eq "h1" other ≡ false
        → has other (holders "acct" (governed backing alone "acct" "h1" config answer free).1.store)
          ≡ has other (holders "acct" held.store))
governed-returned_example = governed-returned alone "acct" "h1" config answer free held gets

-- The holder has its slot again when the callback of the first one is called once more.
release_lease_twice_example :
    release_lease backing alone (release_lease backing alone (lease_of "acct" "h1") held).0 held
    ≡ ((release_lease backing alone (lease_of "acct" "h1") held).0, held)
release_lease_twice_example = release_lease_twice alone (lease_of "acct" "h1") held held

-- Two slots for each process.
abbrev own_store : PerProcess.Store
own_store = record { ceiling = 2; slots = [] }

own_store_made : PerProcess.new 2 ≡ ok own_store
unfolding PerProcess.new
own_store_made = refl

two_holders : IsDistinct ("h1" ∷ "h2" ∷ [])
unfolding IsDistinct has
two_holders = (refl, (refl, tt))

-- Three processes, of which one asks for a third slot.
abbrev three_histories : List (List Call)
three_histories =
    (acquires "acct" "h1" ∷ acquires "acct" "h2" ∷ acquires "acct" "h3" ∷ [])
    ∷ (acquires "acct" "h4" ∷ releases "acct" "h4" ∷ [])
    ∷ (acquires "acct" "h1" ∷ acquires "acct" "h2" ∷ [])
    ∷ []

per_process_total_example :
    (total "acct" own_store three_histories ≤ 3 * 2)
    × (total "acct" own_store (copies 3 (acquire_all "acct" ("h1" ∷ "h2" ∷ []))) ≡ 3 * 2)
per_process_total_example =
    per_process_total 2 own_store "acct" ("h1" ∷ "h2" ∷ []) three_histories 3 own_store_made
      two_holders refl
