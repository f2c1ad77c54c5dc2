-- ===== src/Core/Governor/Bounds.antt =====
-- Histories of calls on the two stores of packages/core/src/governor, and the calls that are in flight.
use dp_integrator.Base.{
  ℕ, ◌≤◌, String, ◌≡◌, refl, ◌∙◌, false, List, [], ◌∷◌, ok, arith, str_eq, if◌then◌else◌, eq_iff,
}
use dp_integrator.Base.Dict.{get, get-set}
use dp_integrator.Base.Set.{add, delete, length-add, length-delete-le}
use dp_integrator.Core.Governor.Shared.{
  Store, new, holders, set_holders, try_acquire, release, in_flight,
}

-- A call of one of the clients.
pub data Call : Type 0 where
  acquires releases : (account holder : String) → Call

unfoldable pub after : Call → Store → Store
after (acquires a h) s = (try_acquire a h s).1
after (releases a h) s = (release a h s).1

pub run : List Call → Store → Store
run [] s = s
run (c ∷ cs) s = run cs (after c s)

pub holders-set :
    (a b : String) (hs : List String) (s : Store)
    → holders b (set_holders a hs s) ≡ (if str_eq a b then hs else holders b s)
unfolding set_holders
holders-set a b hs s = ground (arith, get-set a b hs s.slots)

-- Every account is within the ceiling.
abbrev pub WithinCeiling : Store → Type 0
WithinCeiling s = (account : String) → in_flight account s ≤ s.ceiling

abbrev account_of : Call → String
account_of (acquires a h) = a
account_of (releases a h) = a

-- A call leaves every other account's holders alone.
pub after_other :
    (c : Call) (s : Store) (b : String)
    → str_eq (account_of c) b ≡ false
    → holders b (after c s) ≡ holders b s
unfolding after try_acquire release
after_other (acquires a h) s b ne =
    ground (arith, holders-set a b (holders a s) s, holders-set a b (add h (holders a s)) s)
after_other (releases a h) s b ne = ground (arith, holders-set a b (delete h (holders a s)) s)

after-ceiling : (c : Call) (s : Store) → (after c s).ceiling ≡ s.ceiling
unfolding after try_acquire release set_holders
after-ceiling (acquires a h) s = ground arith
after-ceiling (releases a h) s = ground arith

after-WithinCeiling : (c : Call) (s : Store) → WithinCeiling s → WithinCeiling (after c s)
unfolding after try_acquire release in_flight
after-WithinCeiling (acquires a h) s v b = ground (
  arith,
  v b,
  after-ceiling (acquires a h) s,
  eq_iff a b,
  holders-set a b (holders a s) s,
  holders-set a b (add h (holders a s)) s,
  length-add h (holders a s),
)
after-WithinCeiling (releases a h) s v b = ground (
  arith,
  v b,
  after-ceiling (releases a h) s,
  eq_iff a b,
  holders-set a b (delete h (holders a s)) s,
  length-delete-le h (holders a s),
)

run-WithinCeiling :
    (cs : List Call) (s : Store)
    → WithinCeiling s
    → WithinCeiling (run cs s) × ((run cs s).ceiling ≡ s.ceiling)
unfolding run
run-WithinCeiling [] s v = (v, refl)
run-WithinCeiling (c ∷ cs) s v =
    let (w, e) = run-WithinCeiling cs (after c s) (after-WithinCeiling c s v) in
    (w, e ∙ after-ceiling c s)

new-Within :
    (ceiling : ℕ) (s : Store) → new ceiling ≡ ok s → WithinCeiling s × (s.ceiling ≡ ceiling)
unfolding new in_flight get
new-Within ceiling s e = (λ b. ground arith, ground arith)

-- From a new shared governor store, no history of its clients' calls, however they interleave, puts
-- more calls in flight on any account than the ceiling that the store was made with.
pub in_flight-le-ceiling :
    (ceiling : ℕ) (s : Store) (cs : List Call) (account : String)
    → new ceiling ≡ ok s
    → in_flight account (run cs s) ≤ ceiling
in_flight-le-ceiling ceiling s cs account e =
    let (v, at_start) = new-Within ceiling s e in
    let (w, same) = run-WithinCeiling cs s v in omega (arith, w account, same, at_start)
