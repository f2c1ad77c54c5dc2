-- ===== src/Core/Xref/Tests.antt =====
-- The ledger on a concrete order: two deliveries race for it.
use dp_integrator.Base.{◌≡◌, ◌≤◌, refl, ok, some, [], ◌∷◌, String, if◌then◌else◌}
use dp_integrator.Base.Text.{has_char, is_empty, join}
use dp_integrator.Base.Dict.{get, set}
use dp_integrator.Core.Types.{
  prod, order, shopify, netsuite, environment_text, entity_type_text, system_text,
}
use dp_integrator.Core.DedupKey.{DedupKeyParts, dedup_key, values, checked}
use dp_integrator.Core.Xref.{ClaimInput, XrefStore, empty_store, claim, lookup, new_row}
use dp_integrator.Core.Xref.Machine.{claims, succeeds, after, next, status_at, is_key, after-next}
use dp_integrator.Core.Xref.Exclusive.{wins, wins-le-one}
use dp_integrator.Core.Xref.Keyed.{WellKeyed, after-WellKeyed, lookup-parts, empty_store-WellKeyed}

abbrev order_7 : DedupKeyParts
order_7 = record {
  environment = prod;
  connection_id = "c1";
  entity_type = order;
  source_system = shopify;
  source_id = "7";
}

abbrev input_7 : ClaimInput
input_7 = record {
  parts = order_7;
  target_system = netsuite;
  target_external = "shopify:c1:order:7";
  source_hash = some "h";
}

abbrev key_7 : String
key_7 = "prod|c1|order|shopify|7"

after-next_example : status_at key_7 (after (claims input_7) empty_store) ≡ (
    if is_key key_7 (dedup_key order_7)
    then next (claims input_7) (status_at key_7 empty_store)
    else status_at key_7 empty_store)
after-next_example = after-next key_7 (claims input_7) empty_store

wins-le-one_example :
    wins key_7
      (claims input_7 ∷ succeeds order_7 "41" "shopify:c1:order:7" 1000 ∷ claims input_7 ∷ [])
      empty_store
    ≤ 1
wins-le-one_example = wins-le-one key_7 _ empty_store tt

after-WellKeyed_example : WellKeyed (after (claims input_7) empty_store)
after-WellKeyed_example = after-WellKeyed (claims input_7) empty_store empty_store-WellKeyed

abbrev claimed_7 : XrefStore
claimed_7 = after (claims input_7) empty_store

finds_7 : (lookup order_7 claimed_7).0 ≡ ok (some (new_row input_7))
unfolding lookup after claim empty_store new_row get set dedup_key values checked has_char is_empty
    join environment_text entity_type_text system_text
finds_7 = refl

lookup-parts_example : (new_row input_7).parts ≡ order_7
lookup-parts_example =
    lookup-parts order_7 claimed_7 (new_row input_7)
      (after-WellKeyed (claims input_7) empty_store empty_store-WellKeyed) finds_7
