-- ===== src/Core/Governor/Trap.antt =====
-- Several processes, each with a `PerProcessGovernorStore` of its own, on one account.
use dp_integrator.Base.{
  ℕ, zero, suc, ◌+◌, ◌*◌, ◌≤◌, String, ◌≡◌, refl, ap, ◌∙◌, true, false, List, [], ◌∷◌, ok, arith,
  str_eq, ◌||◌, length, eq_iff, map,
}
use dp_integrator.Base.Set.{has, add, length-add, length-add_new, length-delete-le, has-add}
use dp_integrator.Core.Governor.PerProcess.{Store, new, try_acquire, release, in_flight}
use dp_integrator.Core.Governor.Bounds.{Call, acquires, releases}

after : Call → Store → Store
after (acquires a h) s = (try_acquire a h s).1
after (releases a h) s = (release a h s).1

run : List Call → Store → Store
run [] s = s
run (c ∷ cs) s = run cs (after c s)

-- The calls in flight of all processes, one history for each of them, all started from a store.
pub total : String → Store → List (List Call) → ℕ
total account s [] = 0
total account s (cs ∷ processes) = in_flight account (run cs s) + total account s processes

pub copies {ℓ} : {A : Type ℓ} → ℕ → A → List A
copies zero x = []
copies (suc n) x = x ∷ copies n x

-- No string stands in the list twice.
unfoldable pub IsDistinct : List String → Type 0
IsDistinct [] = Unit
IsDistinct (h ∷ hs) = (has h hs ≡ false) × IsDistinct hs

after-le :
    (c : Call) (s : Store) (n : ℕ)
    → s.ceiling ≡ n
    → length s.slots ≤ n
    → ((after c s).ceiling ≡ n) × (length (after c s).slots ≤ n)
unfolding after try_acquire release
after-le (acquires a h) s n e le = ground (arith, e, le, length-add h s.slots)
after-le (releases a h) s n e le = ground (arith, e, le, length-delete-le h s.slots)

run-le :
    (cs : List Call) (s : Store) (n : ℕ)
    → s.ceiling ≡ n
    → length s.slots ≤ n
    → length (run cs s).slots ≤ n
unfolding run
run-le [] s n e le = le
run-le (c ∷ cs) s n e le = let (e', le') = after-le c s n e le in run-le cs (after c s) n e' le'

total-le :
    (account : String) (s : Store) (n : ℕ)
    → s.ceiling ≡ n
    → s.slots ≡ []
    → (processes : List (List Call)) → total account s processes ≤ length processes * n
unfolding total in_flight
total-le account s n e free [] = omega arith
total-le account s n e free (cs ∷ processes) =
    let here = run-le cs s n e (rw free (omega arith)) in
    let others = total-le account s n e free processes in omega arith

-- The calls that acquire a slot for each holder.
abbrev pub acquire_all : String → List String → List Call
acquire_all account hs = map (acquires account) hs

after-acquires :
    (a h : String) (s : Store)
    → has h s.slots ≡ false
    → suc (length s.slots) ≤ s.ceiling
    → ((after (acquires a h) s).slots ≡ add h s.slots)
      × ((after (acquires a h) s).ceiling ≡ s.ceiling)
unfolding after try_acquire
after-acquires a h s new_one room = ground arith

apart :
    (h : String) (hs slots : List String)
    → has h hs ≡ false
    → ((k : String) → (str_eq h k || has k hs) ≡ true → has k slots ≡ false)
    → (k : String) → has k hs ≡ true
    → has k (add h slots) ≡ false
apart h hs slots once fresh k in_hs = ground (arith, has-add h k slots, fresh k, eq_iff h k)

run-acquire_all :
    (a : String) (hs : List String) (s : Store)
    → IsDistinct hs
    → ((k : String) → has k hs ≡ true → has k s.slots ≡ false)
    → length s.slots + length hs ≤ s.ceiling
    → length (run (acquire_all a hs) s).slots ≡ length s.slots + length hs
unfolding run IsDistinct has
run-acquire_all a [] s d fresh room = omega arith
run-acquire_all a (h ∷ hs) s (once, d) fresh room =
    let (put, same) =
      after-acquires a h s (fresh h (ground (arith, eq_iff h h))) (omega (arith, room)) in
    let next = after (acquires a h) s in
    let grown = length-add_new h s.slots (fresh h (ground (arith, eq_iff h h))) in
    let rest =
      run-acquire_all a hs next d (rw put (apart h hs s.slots once fresh))
        (rw put (rw grown (rw same (omega (arith, room))))) in
    rest ∙ omega (arith, ap length put ∙ grown)

each_full :
    (a : String) (s : Store) (n : ℕ) (hs : List String)
    → s.ceiling ≡ n
    → s.slots ≡ []
    → IsDistinct hs
    → length hs ≡ n
    → (processes : ℕ) → total a s (copies processes (acquire_all a hs)) ≡ processes * n
unfolding total copies in_flight has
each_full a s n hs e free d l zero = omega arith
each_full a s n hs e free d l (suc processes) =
    let here =
      run-acquire_all a hs s d (rw free (λ k in_hs. refl)) (rw free (omega (arith, e, l))) in
    let others = each_full a s n hs e free d l processes in
    let empty : length s.slots ≡ 0 = ap length free in omega (arith, here, others, empty, l)

-- Processes that each have a new per-process governor store of the same ceiling put, all together,
-- at most the number of processes times the ceiling in flight on an account, whatever each of them
-- calls; and they have exactly that many when each acquires a slot for as many different holders as
-- the ceiling.
pub per_process_total :
    (ceiling : ℕ) (s : Store) (account : String) (hs : List String) (histories : List (List Call))
    (processes : ℕ)
    → new ceiling ≡ ok s
    → IsDistinct hs
    → length hs ≡ ceiling
    → (total account s histories ≤ length histories * ceiling)
      × (total account s (copies processes (acquire_all account hs)) ≡ processes * ceiling)
unfolding new
per_process_total ceiling s account hs histories processes made d l =
    let e : s.ceiling ≡ ceiling = ground arith in
    let free : s.slots ≡ [] = ground arith in
    (
      total-le account s ceiling e free histories,
      each_full account s ceiling hs e free d l processes,
    )
