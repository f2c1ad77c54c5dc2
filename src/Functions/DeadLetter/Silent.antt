-- ===== src/Functions/DeadLetter/Silent.antt =====
-- What a dead-lettered message leaves in the stores that are written best effort.
use dp_integrator.Base.{
  ℕ, String, Option, none, some, Result, ok, throws, M, resume, ltb, ◌≡◌, inl, inr, refl, ◌∙◌,
  Bool-cases,
}
use dp_integrator.Base.Value.{Value, Fields}
use dp_integrator.Core.Types.{Environment}
use dp_integrator.Core.OrderAttempt.{OrderAttemptStore, OrderAttemptInput}
use dp_integrator.Core.OrderSyncLog.{OrderSyncLogStore, OrderSyncLog, OrderSyncLogInput}
use dp_integrator.Functions.DeadLetter.{
  DlqHandlerDeps, Dlq, on_outside, swallow, in_attempts, record_quarantine, in_log, bump_existing,
  bump_log, when_wired, note_order, find_log,
}
use dp_integrator.Functions.DeadLetter.Inputs.{TriggerMetadata}

-- The attempt and the sync log do not reach the error records, and what they throw is caught.
module _ {E : Type 0} (deps : DlqHandlerDeps E) where
  abbrev pub Silent : Dlq E → Result (Unit {0}) × Dlq E → Type 0
  Silent w (ok u, v) = v.errors ≡ w.errors
  Silent w (throws e, v) = ⊥

  abbrev SameErrors : Dlq E → M (Dlq E) (Unit {0}) → Type 0
  SameErrors w act = (act w).1.errors ≡ w.errors

  swallow-Silent :
      (act : M (Dlq E) (Unit {0})) (w : Dlq E) → SameErrors w act → Silent w (swallow deps act w)
  unfolding swallow
  swallow-Silent act w h = h

  -- A call behind the way to the database.
  reached :
      (w : Dlq E) (act : M (Dlq E) (Unit {0}))
      → ((v : Dlq E) → SameErrors v act)
      → (resume (on_outside deps deps.reach w) (λ _. act)).1.errors ≡ w.errors
  unfolding on_outside
  reached w act h = by_reach (deps.reach w.outside)
    where
      by_reach :
          (r : Result (Unit {0}) × E)
          → (resume (r.0, record w { outside = r.1 }) (λ _. act)).1.errors ≡ w.errors
      by_reach (ok u, e) = h (record w { outside = e })
      by_reach (throws x, e) = refl

  in_attempts-SameErrors :
      (input : OrderAttemptInput) (o : Option OrderAttemptStore) (v : Dlq E)
      → SameErrors v (in_attempts deps input o)
  unfolding in_attempts
  in_attempts-SameErrors input none v = refl
  in_attempts-SameErrors input (some s) v = refl

  in_log-SameErrors :
      (input : OrderSyncLogInput) (o : Option OrderSyncLogStore) (v : Dlq E)
      → SameErrors v (in_log deps input o)
  unfolding in_log
  in_log-SameErrors input none v = refl
  in_log-SameErrors input (some s) v = refl

  bump_existing-SameErrors :
      (env : Environment) (m : Fields) (count : ℕ) (o : Option OrderSyncLog) (v : Dlq E)
      → SameErrors v (bump_existing deps env m count o)
  unfolding bump_existing
  bump_existing-SameErrors env m count none v = refl
  bump_existing-SameErrors env m count (some existing) v =
      reached v _ (λ u. in_log-SameErrors _ u.log u)

  when_wired-Silent :
      {S : Type 0} (o : Option S) (count : ℕ) (act : M (Dlq E) (Unit {0})) (w : Dlq E)
      → Silent w (act w)
      → Silent w (when_wired deps o count act w)
  unfolding when_wired
  when_wired-Silent none count act w h = refl
  when_wired-Silent (some s) count act w h = elim (Bool-cases (ltb 0 count)) [
    | inl many ↦ rw many h
    | inr never ↦ rw never refl
  ]

  record_quarantine-Silent :
      (env : Environment) (m : Fields) (count : ℕ) (detail : String) (w : Dlq E)
      → Silent w (record_quarantine deps env m count detail w)
  unfolding record_quarantine
  record_quarantine-Silent env m count detail w =
      swallow-Silent _ w (reached w _ (λ v. in_attempts-SameErrors _ v.attempts v))

  bump_log-Silent :
      (env : Environment) (m : Fields) (count : ℕ) (w : Dlq E)
      → Silent w (bump_log deps env m count w)
  unfolding bump_log
  bump_log-Silent env m count w =
      swallow-Silent _ w
        (reached w _ (λ v. bump_existing-SameErrors env m count (find_log deps env m v.log) v))

  module _ (message : Value) (t : TriggerMetadata) where
    Silent-after :
        (w v : Dlq E) (r : Result (Unit {0}) × Dlq E)
        → v.errors ≡ w.errors
        → Silent v r
        → Silent w r
    Silent-after w v (ok u, x) e h = h ∙ e
    Silent-after w v (throws y, x) e h = h

    then-Silent :
        (w : Dlq E) (r : Result (Unit {0}) × Dlq E) (act : Dlq E → Result (Unit {0}) × Dlq E)
        → Silent w r
        → ((v : Dlq E) → Silent v (act v))
        → Silent w (resume r (λ _. act))
    then-Silent w (ok u, v) act one two = Silent-after w v (act v) one (two v)
    then-Silent w (throws e, v) act one two = one

    pub note_order-Silent :
        (env : Environment) (m : Fields) (w : Dlq E) → Silent w (note_order deps message t env m w)
    unfolding note_order
    note_order-Silent env m w =
        then-Silent w _ _
          (when_wired-Silent w.attempts _ _ w (record_quarantine-Silent env m _ _ w))
          (λ v. when_wired-Silent v.log _ _ v (bump_log-Silent env m _ v))
