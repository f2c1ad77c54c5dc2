-- ===== src/Functions/OrderImport/Redelivery.antt =====
-- What becomes of an order when its import met a transient failure and the bus delivers the message
-- again.
use dp_integrator.Base.{
  String, ◌≡◌, refl, ◌∙◌, ap, Bool, true, false, Option, none, some, Result, ok, throws, Thrown,
  NsResponse, M, pure, throw, resume, arith, eq_refl, Option-cases, inl, inr,
}
use dp_integrator.Base.Dict.{get, set, get-set}
use dp_integrator.Core.Types.{Connection}
use dp_integrator.Core.DedupKey.{DedupKeyParts, dedup_key}
use dp_integrator.Core.Xref.{
  XrefRow, pending, XrefStore, ClaimInput, ClaimResult, claimed, claim, new_row,
}
use dp_integrator.Core.Xref.Machine.{status_at}
use dp_integrator.Core.Errors.{transient}
use dp_integrator.Core.Queue.{OrderWebhookMessage}
use dp_integrator.Core.OrderSyncLog.{NsRecordType}
use dp_integrator.Shopify.Order.{ShopifyOrder}
use dp_integrator.Functions.Classification.{classify_handler_error, should_retry}
use dp_integrator.Functions.OrderImport.World.{
  AttemptContext, already_claimed, Archived, Deps, Locals, World, ◌>>=◌, ◌>>◌, choose, on_outside,
  assign, catching, finally, in_xref, with_xref, when_wired, no_locals,
}
use dp_integrator.Functions.OrderImport.Attempt.{record_attempt, record_with}
use dp_integrator.Functions.OrderImport.Park.{classify_and_route, rethrow}
use dp_integrator.Functions.OrderImport.Pipeline.{
  archive, archive_with, put_quietly, archive_error, fetch_order, prepare, proceed, finish,
  on_throw, import_claimed,
}
use dp_integrator.Functions.OrderImport.Handler.{
  parts_for, claim_input, by_claim, short_circuit, claim_order,
}
use dp_integrator.Functions.OrderImport.Traverse.Archive.{archive_error-R}
use dp_integrator.Functions.OrderImport.Traverse.Rows.{record_attempt-R}
use dp_integrator.Functions.OrderImport.Traverse.Ledger.{Same, Same-calm, finally-Same}

module _ {E : Type 0} where
  choose_ok :
      (b : Bool) (m n : M (World E) (Unit {0})) (w : World E)
      → (m w).0 ≡ ok tt
      → (n w).0 ≡ ok tt
      → (choose b m n w).0 ≡ ok tt
  unfolding choose
  choose_ok true m n w h k = h
  choose_ok false m n w h k = k

  -- What is quietly caught returns.
  quiet_ok :
      {A B : Type 0} (r : Result A × World E) (d : A) (f : A → M (World E) B) (b : B)
      → ((a : A) (v : World E) → (f a v).0 ≡ ok b)
      → (resume (catching r (λ _. pure d)) f).0 ≡ ok b
  unfolding catching
  quiet_ok (ok a, v) d f b k = k a v
  quiet_ok (throws e, v) d f b k = k d v

  caught_ok : (r : Result Unit × World E) → (catching r (λ _. pure tt)).0 ≡ ok tt
  unfolding catching
  caught_ok (ok tt, v) = refl
  caught_ok (throws e, v) = refl

  wired_ok :
      {S : Type 0} (s : Option S) (m : M (World E) (Unit {0})) (w : World E)
      → (m w).0 ≡ ok tt
      → (when_wired s m w).0 ≡ ok tt
  unfolding when_wired
  wired_ok none m w h = refl
  wired_ok (some s) m w h = h

  module _ (deps : Deps E) (parts : DedupKeyParts) (connection : Connection)
      (msg : OrderWebhookMessage) (ctx : Option AttemptContext) where
    archive_with_ok :
        (x : Option AttemptContext) (what : Archived) (account : Option String)
        (t : Option NsRecordType) (f : Option String → Locals → Locals) (w : World E)
        → (archive_with deps parts connection msg ctx x what account t f w).0 ≡ ok tt
    unfolding archive_with put_quietly ◌>>=◌ assign
    archive_with_ok none what account t f w = refl
    archive_with_ok (some x) what account t f w =
        choose_ok deps.archives _ _ w (quiet_ok _ none _ tt (λ a v. refl)) refl

    archive_error_ok :
        (raw : Option NsResponse) (w : World E)
        → (archive_error deps parts connection msg ctx raw w).0 ≡ ok tt
    unfolding archive_error archive ◌>>◌ assign
    archive_error_ok none w = refl
    archive_error_ok (some raw) w = archive_with_ok ctx _ _ _ _ _

    record_attempt_ok :
        (x : Option AttemptContext) (l : Locals) (w : World E)
        → (record_attempt deps msg connection x l w).0 ≡ ok tt
    unfolding record_attempt record_with
    record_attempt_ok none l w = refl
    record_attempt_ok (some x) l w = wired_ok w.attempts _ w (caught_ok _)

    routed_transient :
        (err : Thrown) (order : Option ShopifyOrder) (u : World E)
        → classify_handler_error err ≡ transient
        → classify_and_route deps parts connection msg err order ctx u ≡ (throws err, u)
    unfolding classify_and_route rethrow choose should_retry
    routed_transient err order u h = rw (h, choose) refl

    -- The block of the `catch` lets a transient failure through.
    on_throw_transient :
        (err : Thrown) (w : World E)
        → classify_handler_error err ≡ transient
        → (on_throw deps parts connection msg ctx err w).0 ≡ throws err
    unfolding on_throw ◌>>=◌ ◌>>◌ catching assign
    on_throw_transient err w h =
        go (archive_error deps parts connection msg ctx _ w) (archive_error_ok _ w)
      where
        go :
            (r : Result Unit × World E)
            → r.0 ≡ ok tt
            → (resume r (λ _ u.
                catching
                  ((classify_and_route deps parts connection msg err u.locals.order ctx
                      >>= finish deps parts connection msg ctx)
                    u)
                  (λ rethrown.
                    assign (λ l. record l { throw_err = some rethrown }) >> throw rethrown))).0
              ≡ throws err
        go (ok tt, u) e = rw (routed_transient err u.locals.order u h, catching) refl
        go (throws x, u) e = cc

    finally_same :
        {A : Type 0} (r : Result A × World E) (m : M (World E) (Unit {0}))
        → ((v : World E) → (m v).0 ≡ ok tt)
        → (finally r m).0 ≡ r.0
    unfolding finally
    finally_same (r, v) m k = rw (k v) refl

    on_throw-Same :
        (err : Thrown) (w : World E)
        → classify_handler_error err ≡ transient
        → Same w (on_throw deps parts connection msg ctx err w).1
    unfolding on_throw ◌>>=◌ ◌>>◌ catching assign
    on_throw-Same err w h =
        go (archive_error deps parts connection msg ctx _ w)
          (archive_error-R Same-calm deps parts connection msg ctx _ w)
      where
        go :
            (r : Result Unit × World E)
            → Same w r.1
            → Same w
                (resume r (λ _ u.
                  catching
                    ((classify_and_route deps parts connection msg err u.locals.order ctx
                        >>= finish deps parts connection msg ctx)
                      u)
                    (λ rethrown.
                      assign (λ l. record l { throw_err = some rethrown }) >> throw rethrown))).1
        go (ok tt, u) e = rw (routed_transient err u.locals.order u h, catching) e
        go (throws x, u) e = e

    -- A body that cannot fetch the order throws what Shopify threw, and leaves the ledger alone.
    import_claimed_transient :
        (err : Thrown) (w : World E) (e' : E)
        → deps.get_order connection msg.order_gid w.outside ≡ (throws err, e')
        → classify_handler_error err ≡ transient
        → ((import_claimed deps parts connection msg ctx w).0 ≡ throws err)
          × Same w (import_claimed deps parts connection msg ctx w).1
    unfolding import_claimed
    import_claimed_transient err w e' f h =
        let started : World E = record w { locals = no_locals } in
        let stopped : World E = record started { outside = e' } in
        let body : (prepare deps parts connection msg ctx
                >>= proceed deps parts connection msg ctx
                >>= finish deps parts connection msg ctx)
              started
            ≡ (throws err, stopped) =
          unfold prepare fetch_order on_outside ◌>>=◌ in rw f refl in
        rw body (
          finally_same _ _ (λ v. record_attempt_ok ctx v.locals v)
              ∙ (unfold catching in on_throw_transient err stopped h),
          finally-Same w _ _ (unfold catching in on_throw-Same err stopped h)
              (λ v. record_attempt-R Same-calm (λ u s. refl) deps connection msg ctx v.locals v),
        )

-- What a claim answers on a row that is pending, and on none.
claim_pending :
    (key : String) (input : ClaimInput) (x : XrefStore)
    → dedup_key input.parts ≡ ok key
    → status_at key x ≡ some pending
    → (row : XrefRow) × (claim input x ≡ (ok (ClaimResult.already_claimed row), x))
unfolding claim
claim_pending key input x k h = elim (Option-cases (get key x.rows)) [
  | inl f ↦ ground arith
  | inr (row, f) ↦ (row, ground arith)
]

claim_new :
    (key : String) (input : ClaimInput) (x : XrefStore)
    → dedup_key input.parts ≡ ok key
    → status_at key x ≡ none
    → claim input x
      ≡ (ok (claimed (new_row input)), record x { rows = set key (new_row input) x.rows })
unfolding claim
claim_new key input x k h = ground arith

module _ {E : Type 0} (deps : Deps E) (msg : OrderWebhookMessage) (connection : Connection)
    (key : String) (k : dedup_key (parts_for deps.environment connection msg) ≡ ok key) where
  -- A delivery that finds the row pending ends there.
  pending_ends :
      (ctx : Option AttemptContext) (w : World E) (e : E)
      → deps.reach w.outside ≡ (ok tt, e)
      → status_at key w.xref ≡ some pending
      → (claim_order deps ctx msg connection w).0
        ≡ ok (already_claimed connection.connection_id msg.order_gid)
  unfolding claim_order with_xref in_xref on_outside ◌>>=◌ ◌>>◌ by_claim short_circuit claim_input
  pending_ends ctx w e up p =
      let (row, c) =
        claim_pending key (claim_input (parts_for deps.environment connection msg) msg.order_gid)
          w.xref k p in
      rw up (
        rw c (
          rw
            (record_attempt_ok deps (parts_for deps.environment connection msg) connection msg ctx
              ctx _ _)
            refl))

  -- The first delivery of an order that cannot be fetched, after its claim.
  first_delivery :
      (ctx : Option AttemptContext) (w : World E) (e e' : E) (err : Thrown)
      → deps.reach w.outside ≡ (ok tt, e)
      → deps.get_order connection msg.order_gid e ≡ (throws err, e')
      → classify_handler_error err ≡ transient
      → status_at key w.xref ≡ none
      → ((claim_order deps ctx msg connection w).0 ≡ throws err)
        × (status_at key (claim_order deps ctx msg connection w).1.xref ≡ some pending)
  unfolding claim_order with_xref in_xref on_outside ◌>>=◌ ◌>>◌ by_claim claim_input new_row
  first_delivery ctx w e e' err up f h n =
      let parts = parts_for deps.environment connection msg in
      let input = claim_input parts msg.order_gid in
      let taken : World E = record w {
        outside = e;
        xref = record (w.xref) { rows = set key (new_row input) w.xref.rows };
      } in
      let (thrown, same) =
        import_claimed_transient deps parts connection msg ctx err taken e' f h in
      rw up (
        rw (claim_new key input w.xref k n) (
          thrown,
          ap (status_at key) same
              ∙ ground (arith, get-set key key (new_row input) w.xref.rows, eq_refl key),
        ))

  -- If the fetch of a new order fails with a transient error, the delivery throws it, so that the
  -- bus delivers again; a later delivery that finds the ledger as this one left it, and the
  -- database up, answers that the order is already claimed, without an import.
  pub transient-already_claimed :
      (ctx ctx' : Option AttemptContext) (w again : World E) (e e' e'' : E) (err : Thrown)
      → deps.reach w.outside ≡ (ok tt, e)
      → deps.get_order connection msg.order_gid e ≡ (throws err, e')
      → classify_handler_error err ≡ transient
      → status_at key w.xref ≡ none
      → again.xref ≡ (claim_order deps ctx msg connection w).1.xref
      → deps.reach again.outside ≡ (ok tt, e'')
      → ((claim_order deps ctx msg connection w).0 ≡ throws err)
        × ((claim_order deps ctx' msg connection again).0
            ≡ ok (already_claimed connection.connection_id msg.order_gid))
  transient-already_claimed ctx ctx' w again e e' e'' err up f h n a up' =
      let (thrown, left) = first_delivery ctx w e e' err up f h n in
      (thrown, pending_ends ctx' again e'' up' (ap (status_at key) a ∙ left))
