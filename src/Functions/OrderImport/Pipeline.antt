-- ===== src/Functions/OrderImport/Pipeline.antt =====
-- The body of the handler behind the claim: fetch, decide, prepare, write to NetSuite, keep the books;
-- and what its `catch` and its `finally` do.
use Prim.Native.String.{◌++◌}
use dp_integrator.Base.{
  ℕ, ◌-◌, String, Bool, false, Option, none, some, [], ◌∷◌, Thrown, netsuite_error, NsResponse, M,
  pure, lift, throw,
}
use dp_integrator.Base.Value.{str, obj, Fields, end, field}
use dp_integrator.Core.Types.{Connection, OrderTarget, sales_order, cash_sale}
use dp_integrator.Core.DedupKey.{DedupKeyParts}
use dp_integrator.Core.Xref.{mark_ignored, record_success}
use dp_integrator.Core.Errors.{ErrorClass, data_error, unmapped_construct}
use dp_integrator.Core.Queue.{OrderWebhookMessage}
use dp_integrator.Core.OrderSyncLog.{OrderSyncLogStatus, NsRecordType, salesorder, cashsale}
use dp_integrator.Shopify.Order.{ShopifyOrder}
use dp_integrator.Engine.Eligibility.{
  EligibilityResult, eligible, ineligible, reason_text, check_eligibility, default_options,
}
use dp_integrator.Functions.Classification.{classify_handler_error}
use dp_integrator.Functions.OrderImport.World.{
  AttemptContext, CustomerResolution, ParkStage, mapping, balancing, item_resolution,
  OrderHandlerOutcome, imported, ignored_by_eligibility, NsWrite, UpsertResult, Staged, staged,
  parks, Archived, outbound, ns_response, shopify_order, PayloadStoreContext, track_import,
  track_ignored, Deps, Locals, World, ◌>>=◌, ◌>>◌, choose, on_outside, assign, emit, note_write,
  no_locals, finally, catching, in_xref, with_xref,
}
use dp_integrator.Functions.OrderImport.Log.{message_of, shape_of, if_filled, write_sync_log}
use dp_integrator.Functions.OrderImport.Attempt.{record_attempt}
use dp_integrator.Functions.OrderImport.Digest.{build_payload_digest}
use dp_integrator.Functions.OrderImport.Park.{park_outcome, classify_and_route, record_error_as}

-- `netsuiteOrderRecordType`.
unfoldable pub record_type_of : OrderTarget → NsRecordType
record_type_of sales_order = salesorder
record_type_of cash_sale = cashsale

-- An order that is ready for NetSuite, or the outcome of one that is not.
pub data Prepared : Type 0 where
  stops : OrderHandlerOutcome → Prepared
  ready : ShopifyOrder → CustomerResolution → Fields → Prepared

raw_of : Thrown → Option NsResponse
raw_of (netsuite_error e) = e.raw_response
raw_of _ = none

is_true : Option Bool → Bool
is_true none = false
is_true (some b) = b

elapsed : ℕ → Option AttemptContext → ℕ
elapsed now none = 0
elapsed now (some ctx) = now - ctx.started_at

module _ {E : Type 0} (deps : Deps E) (parts : DedupKeyParts) (connection : Connection)
    (msg : OrderWebhookMessage) (ctx : Option AttemptContext) where
  unfoldable pub put_context :
      AttemptContext → Option String → Option NsRecordType → PayloadStoreContext
  put_context c account record_type = record {
    environment = msg.environment;
    connection_id = connection.connection_id;
    shopify_order_gid = msg.order_gid;
    delivery_count = c.delivery_count;
    ns_account_id = account;
    ns_record_type = record_type;
    attempt_started_at = c.started_at;
  }

  unfoldable pub put_quietly : Archived → PayloadStoreContext → M (World E) (Option String)
  put_quietly what where_ w =
      catching ((on_outside (deps.put what where_) >>= (λ uri. pure (some uri))) w) (λ _. pure none)

  -- `if (deps.outboundPayloadStore && attemptCtx) { uri = await ….put(…).catch(() => undefined) }`.
  unfoldable pub archive_with :
      Option AttemptContext
      → Archived
      → Option String
      → Option NsRecordType
      → (Option String → Locals → Locals)
      → M (World E) (Unit {0})
  unfolding put_quietly put_context
  archive_with none what account record_type keeps = pure tt
  archive_with (some c) what account record_type keeps =
      choose deps.archives
        (put_quietly what (put_context c account record_type) >>= (λ uri. assign (keeps uri)))
        (pure tt)

  unfoldable pub archive :
      Archived
      → Option String
      → Option NsRecordType
      → (Option String → Locals → Locals)
      → M (World E) (Unit {0})
  unfolding archive_with
  archive = archive_with ctx

  unfoldable pub archive_raw : Option NsResponse → Option NsRecordType → M (World E) (Unit {0})
  archive_raw none record_type = pure tt
  archive_raw (some raw) record_type =
      assign (λ l. record l { ns_response_status = raw.status })
      >> archive (ns_response raw) (some connection.ns_account_id) record_type
          (λ uri l. record l { ns_response_uri = uri })

  -- A response without a status leaves the variable alone.
  unfoldable pub archive_error : Option NsResponse → M (World E) (Unit {0})
  archive_error none = pure tt
  archive_error (some raw) =
      assign (λ l. record l { ns_response_status = later raw.status l.ns_response_status })
      >> archive (ns_response raw) (some connection.ns_account_id) none
          (λ uri l. record l { ns_response_uri = uri })
    where
      later : Option ℕ → Option ℕ → Option ℕ
      later none old = old
      later (some n) old = some n

  unfoldable pub fetch_order : M (World E) ShopifyOrder
  fetch_order = do
    order ← on_outside (deps.get_order connection msg.order_gid)
    _ ← assign (λ l. record l { order = some order })
    _ ← archive (shopify_order order) none none (λ uri l. record l { shopify_payload_uri = uri })
    pure order

  -- An inline park, which ends the preparation.
  unfoldable pub parks_at : ParkStage → ErrorClass → String → ShopifyOrder → M (World E) Prepared
  parks_at stage class detail order = do
    o ← park_outcome deps parts connection msg (record {
      stage = stage;
      detail = detail;
      error_class = class;
      stack = none;
      order = some order;
      attempt_ctx = ctx;
    })
    pure (stops o)

  unfoldable pub after_items : ShopifyOrder → CustomerResolution → Staged → M (World E) Prepared
  unfolding parks_at
  after_items order customer (parks detail) =
      parks_at item_resolution unmapped_construct detail order
  after_items order customer (staged final) = pure (ready order customer final)

  unfoldable pub after_balancing : ShopifyOrder → CustomerResolution → Staged → M (World E) Prepared
  unfolding parks_at after_items
  after_balancing order customer (parks detail) = parks_at balancing data_error detail order
  after_balancing order customer (staged balanced) =
      on_outside (deps.resolve_item_references connection balanced) >>= after_items order customer

  unfoldable pub after_mapping : ShopifyOrder → CustomerResolution → Staged → M (World E) Prepared
  unfolding parks_at after_balancing
  after_mapping order customer (parks detail) = parks_at mapping unmapped_construct detail order
  after_mapping order customer (staged draft) = do
    taxed ← lift (deps.apply_tax connection order draft)
    balanced ← lift (deps.apply_balancing taxed order)
    after_balancing order customer balanced

  unfoldable pub by_eligibility : ShopifyOrder → EligibilityResult → M (World E) Prepared
  unfolding after_mapping
  by_eligibility order eligible = do
    customer ← on_outside (deps.resolve_customer connection order)
    payload ← on_outside (deps.build_order_payload connection order customer.internal_id)
    after_mapping order customer payload
  by_eligibility order (ineligible reason detail) = do
    _ ← with_xref deps (mark_ignored parts)
    _ ←
        write_sync_log deps connection msg
          (record (shape_of OrderSyncLogStatus.ignored (some order) ctx) {
            ignored_reason = some (reason_text reason);
          })
    _ ← emit (track_ignored connection.connection_id reason)
    pure (
        stops
          (ignored_by_eligibility connection.connection_id msg.order_gid reason (if_filled detail)))

  unfoldable pub prepare : M (World E) Prepared
  unfolding fetch_order by_eligibility
  prepare = do
    order ← fetch_order
    by_eligibility order (check_eligibility order msg.topic default_options)

  -- The call of `upsertByExternalId`, noted before it is made.
  unfoldable pub write_order : NsWrite → M (World E) UpsertResult
  write_order call = note_write call >> on_outside (deps.upsert_by_external_id call)

  -- `recordSuccess`, which reads the clock.
  unfoldable pub synced_at : String → M (World E) (Unit {0})
  synced_at id =
      on_outside deps.reach
      >> (λ w. (in_xref (record_success parts id msg.order_gid (deps.now w.outside)) >> pure tt) w)

  unfoldable pub tag_order : String → M (World E) (Unit {0})
  tag_order id w =
      let tag = "netsuite-" ++ id in
      catching (on_outside (deps.tag_order connection msg.order_gid (tag ∷ [])) w) (λ err.
        record_error_as deps parts connection msg "order-tag-writeback" (classify_handler_error err)
          ("tagOrder('"
            ++ (tag ++ ("') failed for " ++ (msg.order_gid ++ (": " ++ message_of err)))))
          (deps.stack_of err)
          (obj (
            field "orderGid" (str msg.order_gid)
              (field "tag" (str tag) (field "targetId" (str id) end)))))

  unfoldable pub if_tagging : String → M (World E) (Unit {0})
  unfolding is_true
  if_tagging id = choose (is_true connection.write_tags_on_import) (tag_order id) (pure tt)

  -- What follows a write that NetSuite accepted.
  unfoldable pub settle :
      ShopifyOrder → CustomerResolution → UpsertResult → M (World E) OrderHandlerOutcome
  unfolding elapsed
  settle order customer upserted = do
    _ ← archive_raw upserted.raw_response (some (record_type_of connection.order_target))
    _ ← synced_at upserted.internal_id
    now ← λ w. pure (deps.now w.outside) w
    _ ← emit (track_import connection.connection_id (elapsed now ctx))
    _ ← λ w.
        write_sync_log deps connection msg
          (record (shape_of OrderSyncLogStatus.imported (some order) ctx) {
            ns_account_id = some connection.ns_account_id;
            ns_record_type = some (record_type_of connection.order_target);
            ns_internal_id = some upserted.internal_id;
            synced_at = some now;
            last_outbound_payload_uri = w.locals.outbound_payload_uri;
          })
          w
    _ ← if_tagging upserted.internal_id
    pure (
        imported connection.connection_id msg.order_gid upserted.internal_id upserted.created
          customer)

  unfoldable pub deliver :
      ShopifyOrder → CustomerResolution → Fields → M (World E) OrderHandlerOutcome
  deliver order customer final = do
    _ ←
        archive (outbound final) (some connection.ns_account_id)
          (some (record_type_of connection.order_target))
          (λ uri l. record l { outbound_payload_uri = uri })
    _ ← assign (λ l. record l { payload_digest = some (build_payload_digest final) })
    upserted ← write_order (record {
      parts = parts;
      ns_account_id = connection.ns_account_id;
      record_type = record_type_of connection.order_target;
      external_id = msg.order_gid;
      payload = final;
    })
    settle order customer upserted

  unfoldable pub proceed : Prepared → M (World E) OrderHandlerOutcome
  proceed (stops o) = pure o
  proceed (ready order customer final) = deliver order customer final

  -- `finish`.
  unfoldable pub finish : OrderHandlerOutcome → M (World E) OrderHandlerOutcome
  finish o = assign (λ l. record l { outcome = some o }) >> pure o

  -- The block of the `catch`.
  unfoldable pub on_throw : Thrown → M (World E) OrderHandlerOutcome
  unfolding archive_error raw_of
  on_throw err = do
    _ ← archive_error (raw_of err)
    λ w.
        catching
          ((classify_and_route deps parts connection msg err w.locals.order ctx >>= finish) w)
          (λ rethrown. assign (λ l. record l { throw_err = some rethrown }) >> throw rethrown)

  unfoldable pub import_claimed : M (World E) OrderHandlerOutcome
  import_claimed w =
      let started = record w { locals = no_locals } in
      finally (catching ((prepare >>= proceed >>= finish) started) on_throw)
        (λ w'. record_attempt deps msg connection ctx w'.locals w')
