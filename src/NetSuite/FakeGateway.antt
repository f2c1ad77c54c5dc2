-- ===== src/NetSuite/FakeGateway.antt =====
-- packages/netsuite-client/src/fake-gateway.ts: the NetSuite of the tests, which is the model of what a
-- gateway promises. Each call is one step; the wait of `latencyMs` and the header of a
-- response are left out.
pub mod Twice
mod Tests
use Prim.Native.String.{◌++◌}
use mathlib.Core.List.{◌++◌ as list_append}
use dp_integrator.Base.{
  ℕ, suc, String, Bool, true, false, Option, none, some, List, [], ◌∷◌, M, pure, ok, throws, Thrown,
  or_else,
}
use dp_integrator.Base.Dict.{Dict, get, set}
use dp_integrator.Base.Print.{decimal}
use dp_integrator.Base.Value.{undefined, str, Fields, field, end, set_field}
use dp_integrator.NetSuite.Gateway.{NetSuiteGateway, UpsertResult, CustomerAddressbookEntry}

pub record Rec : Type 0 where
  pub internal_id : String
  pub payload : Fields

-- `failures` is the queue of errors to throw.
pub record Fake : Type 0 where
  pub store : Dict (Dict (Dict Rec))
  pub internal_id_seq : ℕ
  pub attempts : ℕ
  pub failures : List Thrown
  pub item_by_sku : Dict (Dict String)
  pub resolve_attempts : ℕ
  pub customer_addressbooks : Dict (Dict (List CustomerAddressbookEntry))

abbrev pub empty_fake : Fake
empty_fake = record {
  store = [];
  internal_id_seq = 0;
  attempts = 0;
  failures = [];
  item_by_sku = [];
  resolve_attempts = 0;
  customer_addressbooks = [];
}

-- `bucket(account, recordType)`; one that was made for the call is put in its place.
unfoldable pub bucket : (ns_account_id record_type : String) → Fake → Dict Rec
bucket account type s = or_else (get type (or_else (get account s.store) [])) []

unfoldable pub set_bucket : (ns_account_id record_type : String) → Dict Rec → Fake → Fake
set_bucket account type records s = record s {
  store = set account (set type records (or_else (get account s.store) [])) s.store;
}

unfoldable pub write_record :
    (ns_account_id record_type external_id : String) → Fields → Option Rec → M Fake UpsertResult
write_record account type external_id payload (some existing) s =
    pure
      (record {
        internal_id = existing.internal_id;
        external_id = external_id;
        created = false;
        raw_response = some (record { status = some 204; body = undefined });
      })
      (set_bucket account type
        (set external_id (record existing { payload = payload }) (bucket account type s)) s)
write_record account type external_id payload none s =
    let id = "ns_" ++ (account ++ ("_" ++ decimal (suc s.internal_id_seq))) in
    pure
      (record {
        internal_id = id;
        external_id = external_id;
        created = true;
        raw_response = some (record { status = some 204; body = undefined });
      })
      (set_bucket account type
        (set external_id (record { internal_id = id; payload = payload }) (bucket account type s))
        (record s { internal_id_seq = suc s.internal_id_seq }))

-- With the queue of errors as it was.
unfoldable pub shift_failure :
    List Thrown → (ns_account_id record_type external_id : String) → Fields → M Fake UpsertResult
shift_failure (e ∷ rest) account type external_id payload s =
    (throws e, record s { failures = rest })
shift_failure [] account type external_id payload s =
    write_record account type external_id payload (get external_id (bucket account type s)) s

unfoldable pub upsert_by_external_id :
    (ns_account_id record_type external_id : String) → Fields → M Fake UpsertResult
upsert_by_external_id account type external_id payload s =
    shift_failure s.failures account type external_id payload
      (record s { attempts = suc s.attempts })

-- `{ id, externalid, ...payload }`.
unfoldable pub set_over : Fields → Fields → Fields
set_over end fs = fs
set_over (field k v rest) fs = set_over rest (set_field k v fs)

abbrev row_of : String → Option Rec → Option Fields
row_of external_id none = none
row_of external_id (some rec) = some (
    set_over rec.payload
      (field "id" (str rec.internal_id) (field "externalid" (str external_id) end)))

unfoldable pub find_by_external_id :
    (ns_account_id record_type external_id : String) → List String → M Fake (Option Fields)
find_by_external_id account type external_id fields s =
    pure (row_of external_id (get external_id (bucket account type s)))
      (set_bucket account type (bucket account type s) s)

abbrev append : List Thrown → List Thrown → List Thrown
append xs ys = list_append xs ys

unfoldable pub fail_next : Thrown → M Fake (Unit {0})
fail_next e s = pure tt (record s { failures = append s.failures (e ∷ []) })

unfoldable pub seed_item : (ns_account_id sku internal_id : String) → M Fake (Unit {0})
seed_item account sku id s = pure tt (record s {
  item_by_sku = set account (set sku id (or_else (get account s.item_by_sku) [])) s.item_by_sku;
})

unfoldable pub resolve_item_id : (ns_account_id sku : String) → M Fake (Option String)
resolve_item_id account sku s =
    pure (get sku (or_else (get account s.item_by_sku) []))
      (record s { resolve_attempts = suc s.resolve_attempts })

unfoldable pub seed_customer_addressbook :
    (ns_account_id customer_internal_id : String)
    → List CustomerAddressbookEntry
    → M Fake (Unit {0})
seed_customer_addressbook account customer entries s = pure tt (record s {
  customer_addressbooks =
      set account (set customer entries (or_else (get account s.customer_addressbooks) []))
        s.customer_addressbooks;
})

unfoldable pub get_customer_addressbook :
    (ns_account_id customer_internal_id shopify_id_field : String)
    → M Fake (List CustomerAddressbookEntry)
get_customer_addressbook account customer id_field s =
    pure (or_else (get customer (or_else (get account s.customer_addressbooks) [])) []) s

abbrev pub gateway : NetSuiteGateway Fake
gateway = record {
  upsert_by_external_id = upsert_by_external_id;
  find_by_external_id = find_by_external_id;
  get_customer_addressbook = get_customer_addressbook;
  resolve_item_id = resolve_item_id;
}
