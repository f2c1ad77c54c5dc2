-- ===== src/Core/Governor/Acquire.antt =====
-- packages/core/src/governor/acquire.ts and packages/netsuite-client/src/governor-middleware.ts: wait
-- for a slot, make the call, give the slot back. `sleep` is what time and the other clients do to the
-- store during a wait. The holder's id is an argument.
pub mod Ends
pub mod Returned
use Prim.Native.String.{◌++◌}
use dp_integrator.Base.{
  ℕ, zero, suc, ◌+◌, String, Bool, true, false, Option, none, some, Result, ok, throws, Thrown,
  plain_error, leb, or_else, if◌then◌else◌,
}
use dp_integrator.Core.Governor.Contract.{BackingStore}

pub record GovernorConfig : Type 0 where
  pub per_account_ceiling : ℕ
  pub poll_interval_ms : Option ℕ
  pub acquire_timeout_ms : Option ℕ

-- The store with the clock.
pub record Timed (S : Type 0) : Type 0 where
  pub store : S
  pub now : ℕ

-- The callback that `acquireSlot` returns, with its `released` flag.
pub record Lease : Type 0 where
  pub account : String
  pub holder : String
  pub released : Bool

-- The number of milliseconds is left out of the message.
abbrev pub timed_out : String → Thrown
timed_out account =
    plain_error ("Governor: timed out waiting for slot on NS account '" ++ (account ++ "'"))

abbrev pub lease_of : String → String → Lease
lease_of account holder = record { account = account; holder = holder; released = false }

abbrev pub timeout_of : GovernorConfig → ℕ
timeout_of config = or_else config.acquire_timeout_ms 60_000

module _ {S : Type 0} (backing : BackingStore S) (sleep : ℕ → Timed S → Timed S) where
  -- What the loop's body does with the answer of `tryAcquire`; `retry` is the next round.
  unfoldable pub polled :
      (Timed S → Option (Result Lease) × Timed S)
      → (poll deadline : ℕ) (account holder : String) → Result Bool × S
      → ℕ
      → Option (Result Lease) × Timed S
  polled retry poll deadline account holder (throws e, s) now =
      (some (throws e), record { store = s; now = now })
  polled retry poll deadline account holder (ok true, s) now =
      (some (ok (lease_of account holder)), record { store = s; now = now })
  polled retry poll deadline account holder (ok false, s) now = elim (leb deadline now) [
    | true ↦ (some (throws (timed_out account)), record { store = s; now = now })
    | false ↦ retry (sleep poll (record { store = s; now = now }))
  ]

  -- The `while (true)`; `none` means that the fuel ran out.
  unfoldable pub acquire_loop :
      ℕ → (poll deadline : ℕ) (account holder : String) → Timed S → Option (Result Lease) × Timed S
  unfolding polled
  acquire_loop zero poll deadline account holder w = (none, w)
  acquire_loop (suc fuel) poll deadline account holder w =
      polled (acquire_loop fuel poll deadline account holder) poll deadline account holder
        (backing.try_acquire account holder w.store) w.now

  -- Enough fuel for one round in each millisecond of the timeout, and one more.
  unfoldable pub acquire_slot :
      String → String → GovernorConfig → Timed S → Option (Result Lease) × Timed S
  acquire_slot account holder config w =
      acquire_loop (timeout_of config + 2) (or_else config.poll_interval_ms 25)
        (w.now + timeout_of config) account holder w

  -- The callback: a second call does nothing.
  unfoldable pub release_lease : Lease → Timed S → Lease × Timed S
  release_lease l w = if l.released then (l, w) else (
    record l { released = true },
    record w { store = (backing.release l.account l.holder w.store).1 },
  )

  -- `try { return await next() } finally { await release() }`.
  unfoldable pub with_lease :
      {A : Type 0}
      → (Timed S → Result A × Timed S)
      → Option (Result Lease) × Timed S
      → Option (Result A) × Timed S
  unfolding release_lease
  with_lease next (none, w) = (none, w)
  with_lease next (some (throws e), w) = (some (throws e), w)
  with_lease next (some (ok l), w) = let (r, w') = next w in (some r, (release_lease l w').1)

  unfoldable pub governed :
      {A : Type 0}
      → String
      → String
      → GovernorConfig
      → (Timed S → Result A × Timed S)
      → Timed S
      → Option (Result A) × Timed S
  unfolding with_lease
  governed account holder config next w = with_lease next (acquire_slot account holder config w)
