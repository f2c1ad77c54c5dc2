-- ===== src/Functions/OrderImport/Rows.antt =====
-- The attempt rows that a delivery adds once it has come to the claim.
use dp_integrator.Base.{
  ℕ, suc, String, ◌≡◌, refl, ◌∙◌, Option, none, some, Option-cases, inl, inr, Result, ok, throws, M,
  pure, resume, arith, length, length-append,
}
use dp_integrator.Core.Types.{Connection}
use dp_integrator.Core.DedupKey.{DedupKeyParts, dedup_key}
use dp_integrator.Base.Dict.{get}
use dp_integrator.Core.Xref.{ClaimResult, claimed, claim, new_row, XrefStore, ClaimInput}
use dp_integrator.Core.Queue.{OrderWebhookMessage}
use dp_integrator.Core.OrderAttempt.{OrderAttemptStore, OrderAttemptInput}
use dp_integrator.Core.OrderAttempt
use dp_integrator.Functions.OrderImport.World.{
  AttemptContext, OrderHandlerOutcome, Deps, Locals, World, ◌>>=◌, ◌>>◌, on_outside, in_xref,
  with_xref, in_attempts, when_wired, catching, finally, note_write, no_locals,
}
use dp_integrator.Functions.OrderImport.Attempt.{record_attempt, record_with}
use dp_integrator.Functions.OrderImport.Pipeline.{
  Prepared, stops, ready, prepare, proceed, finish, on_throw, import_claimed, deliver, write_order,
}
use dp_integrator.Functions.OrderImport.Handler.{
  parts_for, claim_input, by_claim, short_circuit, claim_order,
}
use dp_integrator.Functions.OrderImport.Traverse.{Calm, Closed, bind-R, catching-R}
use dp_integrator.Functions.OrderImport.Traverse.Archive.{archive-R, assign-R, finish-R}
use dp_integrator.Functions.OrderImport.Traverse.Body.{prepare-R, settle-R, on_throw-R}

one_more :
    (input : OrderAttemptInput) (now : ℕ) (s : OrderAttemptStore)
    → length (OrderAttempt.record_attempt input now s).1.rows ≡ suc (length s.rows)
unfolding OrderAttempt.record_attempt
one_more input now s = omega (arith, length-append s.rows _)

module _ {E : Type 0} where
  abbrev SameRows : World E → World E → Type 0
  SameRows u v = v.attempts ≡ u.attempts

  Same-calm : Calm SameRows
  Same-calm = record {
    stays = λ w. refl;
    follows = λ u v w h k. k ∙ h;
    moves = λ w e. refl;
    assigns = λ w l. refl;
    emits = λ w es. refl;
    errs = λ w s. refl;
    logs = λ w s. refl;
  }

  same_closed : Closed SameRows
  same_closed = record { calm = Same-calm; calls = λ w c h. refl }

  -- One row more than `s` had.
  abbrev pub OneMore : OrderAttemptStore → World E → Type 0
  OneMore s w =
      (s' : OrderAttemptStore) × (w.attempts ≡ some s') × (length s'.rows ≡ suc (length s.rows))

  module _ (deps : Deps E) (up : (e : E) → (deps.reach e).0 ≡ ok tt) (c : AttemptContext)
      (connection : Connection) (msg : OrderWebhookMessage) where
    reaches :
        (w : World E)
        → on_outside deps.reach w ≡ (ok tt, record w { outside = (deps.reach w.outside).1 })
    unfolding on_outside
    reaches w = λ j. (up w.outside j, record w { outside = (deps.reach w.outside).1 })

    in_attempts-OneMore :
        (input : OrderAttemptInput) (now : ℕ) (o : Option OrderAttemptStore) (w : World E)
        (s : OrderAttemptStore)
        → o ≡ some s
        → OneMore s (catching (in_attempts input now o w) (λ _. pure tt)).1
    unfolding in_attempts catching
    in_attempts-OneMore input now none w s e = cc
    in_attempts-OneMore input now (some t) w s e =
        ((OrderAttempt.record_attempt input now t).1, refl, ground (arith, one_more input now t))

    record_with-OneMore :
        (l : Locals) (w : World E) (s : OrderAttemptStore)
        → w.attempts ≡ some s
        → OneMore s (record_with deps msg connection c l w).1
    unfolding record_with ◌>>◌
    record_with-OneMore l w s e = rw (reaches w) (in_attempts-OneMore _ _ w.attempts _ s e)

    when_wired-OneMore :
        {S : Type 0} (o : Option S) (t : S) (m : M (World E) (Unit {0})) (w : World E)
        (s : OrderAttemptStore)
        → o ≡ some t
        → OneMore s (m w).1
        → OneMore s (when_wired o m w).1
    unfolding when_wired
    when_wired-OneMore none t m w s e h = cc
    when_wired-OneMore (some x) t m w s e h = h

    record_attempt-OneMore :
        (l : Locals) (w : World E) (s : OrderAttemptStore)
        → w.attempts ≡ some s
        → OneMore s (record_attempt deps msg connection (some c) l w).1
    unfolding record_attempt
    record_attempt-OneMore l w s e =
        when_wired-OneMore w.attempts s _ w s e (record_with-OneMore l w s e)

    -- What happens before the `finally` writes no row.
    proceed-SameRows :
        (parts : DedupKeyParts) (p : Prepared) (w : World E)
        → SameRows w (proceed deps parts connection msg (some c) p w).1
    unfolding proceed deliver write_order note_write on_outside ◌>>◌
    proceed-SameRows parts (stops o) w = refl
    proceed-SameRows parts (ready order customer final) w =
        bind-R Same-calm _ _ w (archive-R Same-calm deps parts connection msg (some c) _ _ _ _ w)
          (λ _ v.
            bind-R Same-calm _ _ v (assign-R Same-calm deps parts connection msg (some c) _ v)
              (λ _ u. bind-R Same-calm _ _ u refl (λ r t.
                settle-R same_closed deps parts connection msg (some c) order customer r t)))

    finally-OneMore :
        {A : Type 0} (r : Result A × World E) (m : M (World E) (Unit {0})) (s : OrderAttemptStore)
        → OneMore s (m r.1).1
        → OneMore s (finally r m).1
    unfolding finally
    finally-OneMore {A = A} (r, v) m s h = go (m v) h
      where
        go : (x : Result Unit × World E) → OneMore s x.1 → OneMore s (resume x (λ _ w. (r, w))).1
        go (ok tt, w) h = h
        go (throws e, w) h = h

    import_claimed-OneMore :
        (parts : DedupKeyParts) (w : World E) (s : OrderAttemptStore)
        → w.attempts ≡ some s
        → OneMore s (import_claimed deps parts connection msg (some c) w).1
    unfolding import_claimed
    import_claimed-OneMore parts w s e =
        let v : World E = record w { locals = no_locals } in
        let body : SameRows v
            (catching
              ((prepare deps parts connection msg (some c)
                  >>= proceed deps parts connection msg (some c)
                  >>= finish deps parts connection msg (some c))
                v)
              (on_throw deps parts connection msg (some c))).1 =
          catching-R Same-calm v _ _
            (bind-R Same-calm _ _ v
              (bind-R Same-calm _ _ v (prepare-R same_closed deps parts connection msg (some c) v)
                (λ p u. proceed-SameRows parts p u))
              (λ o u. finish-R Same-calm deps parts connection msg (some c) o u))
            (λ x u. on_throw-R same_closed deps parts connection msg (some c) x u) in
        finally-OneMore _ _ s (record_attempt-OneMore _ _ s (body ∙ e))

    short_circuit-OneMore :
        (o : OrderHandlerOutcome) (w : World E) (s : OrderAttemptStore)
        → w.attempts ≡ some s
        → OneMore s (short_circuit deps (some c) msg connection o w).1
    unfolding short_circuit ◌>>◌
    short_circuit-OneMore o w s e =
        go (record_attempt deps msg connection (some c) _ w) (record_attempt-OneMore _ w s e)
      where
        go : (x : Result Unit × World E) → OneMore s x.1 → OneMore s (resume x (λ _ v. (ok o, v))).1
        go (ok tt, v) h = h
        go (throws y, v) h = h

    by_claim-OneMore :
        (x : ClaimResult) (w : World E) (s : OrderAttemptStore)
        → w.attempts ≡ some s
        → OneMore s (by_claim deps (some c) msg connection x w).1
    unfolding by_claim
    by_claim-OneMore (claimed row) w s e = import_claimed-OneMore _ w s e
    by_claim-OneMore (ClaimResult.already_claimed row) w s e = short_circuit-OneMore _ w s e
    by_claim-OneMore (ClaimResult.already_synced row) w s e = short_circuit-OneMore _ w s e
    by_claim-OneMore (ClaimResult.already_ignored row) w s e = short_circuit-OneMore _ w s e

    claim_returns :
        (key : String) (input : ClaimInput) (x : XrefStore)
        → dedup_key input.parts ≡ ok key
        → (r : ClaimResult) × ((claim input x).0 ≡ ok r)
    unfolding claim
    claim_returns key input x k = elim (Option-cases (get key x.rows)) [
      | inl f ↦ (claimed (new_row input), ground arith)
      | inr (row, f) ↦ rw (k, f) (_, refl)
    ]

    -- While the database is up and attempts are stored, each delivery that comes to the claim of an
    -- order with a dedup key leaves exactly one attempt row: if it imports, parks or ignores the
    -- order, if it ends at a row that is there, and if it throws.
    pub claim_order-OneMore :
        (key : String) (w : World E) (s : OrderAttemptStore)
        → dedup_key (parts_for deps.environment connection msg) ≡ ok key
        → w.attempts ≡ some s
        → OneMore s (claim_order deps (some c) msg connection w).1
    unfolding claim_order with_xref in_xref ◌>>=◌ ◌>>◌ claim_input
    claim_order-OneMore key w s k e =
        let input = claim_input (parts_for deps.environment connection msg) msg.order_gid in
        let (r, q) = claim_returns key input w.xref k in
        rw (reaches w) (rw q (by_claim-OneMore r _ s e))
