-- ===== src/Functions/Customer/Again.antt =====
-- `resolveCustomer` for the same customer on two orders, with the fake gateway of NetSuite.
use mathlib.Core.Option.{some-injective}
use dp_integrator.Base.{
  String, true, false, Option, none, some, List, [], Result, ok, throws, resume, ◌≡◌, refl, ap, sym,
  ◌∙◌, ◌⊎◌, inl, inr,
}
use dp_integrator.Base.Text.{truthy}
use dp_integrator.Base.Dict.{get}
use dp_integrator.Base.Value.{Fields}
use dp_integrator.Core.Types.{Connection}
use dp_integrator.Shopify.Order.{ShopifyCustomer}
use dp_integrator.NetSuite.Gateway.{UpsertResult, CustomerAddressbookEntry}
use dp_integrator.NetSuite.FakeGateway.{
  Rec, Fake, bucket, set_bucket, gateway, upsert_by_external_id, find_by_external_id,
  get_customer_addressbook,
}
use dp_integrator.NetSuite.FakeGateway.Twice.{Wrote, upsert-Wrote, same_bucket}
use dp_integrator.Functions.OrderImport.World.{CustomerResolution}
use dp_integrator.Functions.Customer.Addressbook.{OrderAddressesForCustomer}
use dp_integrator.Functions.Customer.{
  entries_of, existing_entries, upsert_customer, resolve_customer,
}

module _ (connection : Connection) (c : ShopifyCustomer) where
  -- The customer's record.
  abbrev pub record_of : Fake → Option Rec
  record_of s = get c.id (bucket connection.ns_account_id "customer" s)

  -- Reading an addressbook changes no record and takes no failure from the queue.
  abbrev IsRead : Fake → Result (List CustomerAddressbookEntry) × Fake → Type 0
  IsRead s (ok es, v) =
      (bucket connection.ns_account_id "customer" v ≡ bucket connection.ns_account_id "customer" s)
      × (v.failures ≡ s.failures)
  IsRead s (throws e, v) = ⊥

  entries-IsRead :
      (id_field : String) (id : Option String) (s v : Fake)
      → bucket connection.ns_account_id "customer" v ≡ bucket connection.ns_account_id "customer" s
      → v.failures ≡ s.failures
      → IsRead s (entries_of gateway connection id_field id v)
  unfolding entries_of get_customer_addressbook
  entries-IsRead id_field none s v b f = (b, f)
  entries-IsRead id_field (some id) s v b f = (b, f)

  existing-IsRead :
      (id_field : Option String) (s : Fake)
      → IsRead s (existing_entries gateway connection id_field c.id s)
  unfolding existing_entries find_by_external_id
  existing-IsRead none s = (refl, refl)
  existing-IsRead (some id_field) s =
      entries-IsRead id_field _ s _ (same_bucket connection.ns_account_id "customer" _ s)
        (unfold set_bucket in refl)

  -- The resolution names the record that is there afterwards, and a record that was there before.
  abbrev pub Resolves : Fake → Result CustomerResolution × Fake → Type 0
  Resolves s (throws e, v) = ⊥
  Resolves s (ok res, v) =
      ((rec : Rec) × (record_of v ≡ some rec) × (rec.internal_id ≡ res.internal_id))
      × (res.is_guest ≡ false)
      × (v.failures ≡ s.failures)
      × (((record_of s ≡ none) × (res.created ≡ true))
          ⊎ ((rec : Rec) × (record_of s ≡ some rec)
              × (rec.internal_id ≡ res.internal_id)
              × (res.created ≡ false)))

  written :
      (s v : Fake) (r : Result UpsertResult × Fake) (payload : Fields)
      → bucket connection.ns_account_id "customer" v ≡ bucket connection.ns_account_id "customer" s
      → v.failures ≡ s.failures
      → Wrote connection.ns_account_id "customer" c.id payload v r
      → Resolves s (
          resume r (λ u t. (
            ok (record { internal_id = u.internal_id; is_guest = false; created = u.created }),
            t,
          )))
  written s v (throws e, w) payload b f no_write = elim no_write [ ]
  written s v (ok u, w) payload b f (is, made, others, g, old) = (
    (_, is, refl),
    refl,
    g ∙ f,
    elim old [
      | inl fresh ↦ inl (ap (get c.id) (sym b) ∙ fresh, made ∙ rw fresh refl)
      | inr (rec, found, id) ↦ inr (rec, ap (get c.id) (sym b) ∙ found, id, made ∙ rw found refl)
    ],
  )

  upserted :
      (addresses : OrderAddressesForCustomer) (s : Fake)
      (r : Result (List CustomerAddressbookEntry) × Fake)
      → s.failures ≡ []
      → IsRead s r
      → Resolves s (resume r (upsert_customer gateway connection c addresses))
  unfolding upsert_customer upsert_by_external_id
  upserted addresses s (ok es, v) e (b, f) =
      written s v _ _ b f
        (upsert-Wrote v.failures connection.ns_account_id "customer" c.id _ v (f ∙ e))
  upserted addresses s (throws x, v) e no_read = elim no_read [ ]

  pub resolve_customer-Resolves :
      (guest : String) (addresses : OrderAddressesForCustomer) (s : Fake)
      → s.failures ≡ []
      → Resolves s (resolve_customer gateway connection (some c) guest addresses s)
  unfolding resolve_customer
  resolve_customer-Resolves guest addresses s e =
      upserted addresses s _ e (existing-IsRead (truthy connection.shopify_address_id_field) s)

  -- The second order finds the customer of the first.
  abbrev pub IsSame : Result CustomerResolution → Result CustomerResolution → Type 0
  IsSame (ok a) (ok b) = (b.internal_id ≡ a.internal_id) × (b.created ≡ false)
  IsSame _ _ = ⊥

  again :
      (s : Fake) (r r' : Result CustomerResolution × Fake)
      → Resolves s r
      → Resolves r.1 r'
      → IsSame r.0 r'.0
  again s (ok a, v) (ok b, w) ((rec, is, id), g, f, old) (now, g', f', inl (gone, made)) =
      absurd (cc (is, gone))
  again s (ok a, v) (ok b, w) ((rec, is, id), g, f, old)
        (now, g', f', inr (rec', found, id', made)) =
      (sym id' ∙ ap (λ (x : Rec). x.internal_id) (some-injective _ _ (sym found ∙ is)) ∙ id, made)
  again s (ok a, v) (throws e, w) d no_res = elim no_res [ ]
  again s (throws e, v) r' no_res d = elim no_res [ ]

  still_empty :
      (s : Fake) (r : Result CustomerResolution × Fake)
      → s.failures ≡ []
      → Resolves s r
      → r.1.failures ≡ []
  still_empty s (ok a, v) e (now, g, f, old) = f ∙ e
  still_empty s (throws x, v) e no_res = elim no_res [ ]

-- Against the in-memory NetSuite without queued failures, a customer that is resolved twice, with
-- whatever addresses, has the same internal id both times, and the second time it is not created.
pub resolve_customer-IsSame :
    (connection : Connection) (c : ShopifyCustomer) (guest : String)
    (first second : OrderAddressesForCustomer) (s : Fake)
    → s.failures ≡ []
    → IsSame connection c
        (resolve_customer gateway connection (some c) guest first s).0
        (resolve_customer gateway connection
          (some c)
          guest
          second
          (resolve_customer gateway connection (some c) guest first s).1).0
resolve_customer-IsSame connection c guest first second s e =
    let one = resolve_customer-Resolves connection c guest first s e in
    again connection c s _ _ one
      (resolve_customer-Resolves connection c guest second _ (still_empty connection c s _ e one))
