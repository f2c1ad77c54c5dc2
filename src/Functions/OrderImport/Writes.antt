-- ===== src/Functions/OrderImport/Writes.antt =====
-- How often one delivery writes an order to NetSuite.
pub mod Once
use dp_integrator.Base.{
  ℕ, suc, ◌+◌, ◌≤◌, String, ◌≡◌, refl, Bool, true, false, Option, none, some, List, [], ◌∷◌, ◌++◌,
  Result, ok, throws, Thrown, M, resume, arith, if◌then◌else◌, Option-cases,
}
use dp_integrator.Base.Value.{Fields}
use dp_integrator.Core.Types.{Connection}
use dp_integrator.Core.DedupKey.{DedupKeyParts, dedup_key}
use dp_integrator.Core.Xref.{XrefStore}
use dp_integrator.Core.Xref.Machine.{
  Call, claims, succeeds, fails, ignores, looks_up, removes, after, is_key, is_removal, next,
  after-next,
}
use dp_integrator.Core.Xref.Exclusive.{Taken}
use dp_integrator.Core.Queue.{OrderWebhookMessage}
use dp_integrator.Core.OrderAttempt.{OrderAttemptStore}
use dp_integrator.Shopify.Order.{ShopifyOrder}
use dp_integrator.Functions.OrderImport.World.{
  AttemptContext, CustomerResolution, NsWrite, Deps, World, ◌>>=◌, ◌>>◌, catching, finally,
  note_write, on_outside, no_locals,
}
use dp_integrator.Functions.OrderImport.Attempt.{record_attempt}
use dp_integrator.Functions.OrderImport.Pipeline.{
  Prepared, stops, ready, prepare, proceed, deliver, write_order, settle, finish, on_throw,
  import_claimed,
}
use dp_integrator.Functions.OrderImport.Traverse.{Calm, Closed}
use dp_integrator.Functions.OrderImport.Traverse.Archive.{archive-R, assign-R, finish-R}
use dp_integrator.Functions.OrderImport.Traverse.Body.{prepare-R, settle-R, on_throw-R}
use dp_integrator.Functions.OrderImport.Traverse.Rows.{record_attempt-R}

-- The writes that were made for the order with this key.
unfoldable pub writes_of : String → List NsWrite → ℕ
writes_of key [] = 0
writes_of key (c ∷ cs) =
    let rest = writes_of key cs in if is_key key (dedup_key c.parts) then suc rest else rest

pub writes_of-concat :
    (key : String) (cs : List NsWrite) (c : NsWrite)
    → writes_of key (cs ++ (c ∷ []))
      ≡ writes_of key cs + (if is_key key (dedup_key c.parts) then 1 else 0)
unfolding writes_of
writes_of-concat key [] c = ground arith
writes_of-concat key (d ∷ cs) c = ground (arith, writes_of-concat key cs c)

pub calls-Taken :
    (key : String) (c : Call) (x : XrefStore)
    → is_removal c ≡ false
    → Taken key x
    → Taken key (after c x)
unfolding next
calls-Taken key (removes p) x h t = cc
calls-Taken key c x h t = ground (arith, after-next key c x)

module _ {E : Type 0} (key : String) where
  -- At most `n` writes of the order, and a row that was there is there still.
  abbrev pub Within : ℕ → World E → World E → Type 0
  Within n u v =
      (writes_of key v.writes ≤ writes_of key u.writes + n) × (Taken key u.xref → Taken key v.xref)

  Within-none_then : (u v w : World E) → Within 0 u v → Within 0 v w → Within 0 u w
  Within-none_then u v w (h, t) (h', t') = (omega (arith, h, h'), λ x. t' (t x))

  -- All but a write is within nothing.
  pub Within-calm : Calm (Within 0)
  Within-calm = record {
    stays = λ w. (omega arith, λ t. t);
    follows = Within-none_then;
    moves = λ w e. (omega arith, λ t. t);
    assigns = λ w l. (omega arith, λ t. t);
    emits = λ w es. (omega arith, λ t. t);
    errs = λ w s. (omega arith, λ t. t);
    logs = λ w s. (omega arith, λ t. t);
  }

  pub Within-none : Closed (Within 0)
  Within-none = record {
    calm = Within-calm;
    calls = λ w c h. (omega arith, calls-Taken key c w.xref h);
  }

  pub rows_none :
      (w : World E) (s : Option OrderAttemptStore) → Within 0 w (record w { attempts = s })
  rows_none w s = (omega arith, λ t. t)

  module _ (n : ℕ) where
    before : (u v w : World E) → Within 0 u v → Within n v w → Within n u w
    before u v w (h, t) (h', t') = (omega (arith, h, h'), λ x. t' (t x))

    afterwards : (u v w : World E) → Within n u v → Within 0 v w → Within n u w
    afterwards u v w (h, t) (h', t') = (omega (arith, h, h'), λ x. t' (t x))

    -- Nothing before, and nothing after.
    quiet_bind :
        {A B : Type 0} (m : M (World E) A) (f : A → M (World E) B) (u : World E)
        → Within 0 u (m u).1
        → ((a : A) (v : World E) → Within n v (f a v).1)
        → Within n u ((m >>= f) u).1
    unfolding ◌>>=◌
    quiet_bind m f u h k = go (m u) h
      where
        go : (r : Result _ × World E) → Within 0 u r.1 → Within n u (resume r f).1
        go (ok a, v) h = before u v (f a v).1 h (k a v)
        go (throws e, v) h = before u v v h (omega arith, λ t. t)

    bind_quiet :
        {A B : Type 0} (m : M (World E) A) (f : A → M (World E) B) (u : World E)
        → Within n u (m u).1
        → ((a : A) (v : World E) → Within 0 v (f a v).1)
        → Within n u ((m >>= f) u).1
    unfolding ◌>>=◌
    bind_quiet m f u h k = go (m u) h
      where
        go : (r : Result _ × World E) → Within n u r.1 → Within n u (resume r f).1
        go (ok a, v) h = afterwards u v (f a v).1 h (k a v)
        go (throws e, v) h = h

    catching_quiet :
        {A : Type 0} (u : World E) (r : Result A × World E) (f : Thrown → M (World E) A)
        → Within n u r.1
        → ((e : Thrown) (v : World E) → Within 0 v (f e v).1)
        → Within n u (catching r f).1
    unfolding catching
    catching_quiet u (ok a, v) f h k = h
    catching_quiet u (throws e, v) f h k = afterwards u v (f e v).1 h (k e v)

    finally_quiet :
        {A : Type 0} (u : World E) (r : Result A × World E) (m : M (World E) (Unit {0}))
        → Within n u r.1
        → ((v : World E) → Within 0 v (m v).1)
        → Within n u (finally r m).1
    unfolding finally
    finally_quiet u (r, v) m h k = go (m v) (k v)
      where
        go : (s : Result Unit × World E) → Within 0 v s.1 → Within n u (resume s (λ _ w. (r, w))).1
        go (ok tt, w) q = afterwards u v w h q
        go (throws e, w) q = afterwards u v w h q

  module _ (deps : Deps E) (parts : DedupKeyParts) (connection : Connection)
      (msg : OrderWebhookMessage) (ctx : Option AttemptContext) where
    -- The share of this order in one write.
    abbrev pub own : ℕ
    own = if is_key key (dedup_key parts) then 1 else 0

    write_order-Within :
        (call : NsWrite) (w : World E)
        → call.parts ≡ parts
        → Within own w (write_order deps parts connection msg ctx call w).1
    unfolding write_order note_write on_outside ◌>>◌
    write_order-Within call w e = (ground (arith, writes_of-concat key w.writes call, e), λ t. t)

    deliver-Within :
        (order : ShopifyOrder) (customer : CustomerResolution) (final : Fields) (w : World E)
        → Within own w (deliver deps parts connection msg ctx order customer final w).1
    unfolding deliver
    deliver-Within order customer final w =
        quiet_bind own _ _ w (archive-R Within-calm deps parts connection msg ctx _ _ _ _ w) (λ _ v.
          quiet_bind own _ _ v (assign-R Within-calm deps parts connection msg ctx _ v) (λ _ u.
            bind_quiet own _ _ u (write_order-Within _ u refl)
              (λ r t. settle-R Within-none deps parts connection msg ctx order customer r t)))

    proceed-Within :
        (p : Prepared) (w : World E) → Within own w (proceed deps parts connection msg ctx p w).1
    unfolding proceed
    proceed-Within (stops o) w = (omega arith, λ t. t)
    proceed-Within (ready order customer final) w = deliver-Within order customer final w

    -- The body writes the order of its message once at most, and no other.
    pub import_claimed-Within :
        (w : World E) → Within own w (import_claimed deps parts connection msg ctx w).1
    unfolding import_claimed
    import_claimed-Within w =
        let v = record w { locals = no_locals } in
        finally_quiet own w _ _
          (catching_quiet own w _ _
            (bind_quiet own _ _ v
              (quiet_bind own _ _ v (prepare-R Within-none deps parts connection msg ctx v)
                proceed-Within)
              (λ o u. finish-R Within-calm deps parts connection msg ctx o u))
            (λ e u. on_throw-R Within-none deps parts connection msg ctx e u))
          (λ u. record_attempt-R Within-calm rows_none deps connection msg ctx u.locals u)
