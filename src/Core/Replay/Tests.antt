-- ===== src/Core/Replay/Tests.antt =====
-- A replay of an order whose first import failed.
use dp_integrator.Core.Sample.{sample_connection}
use dp_integrator.Base.{◌≡◌, refl, some, none, [], ◌∷◌, ok, false, String}
use dp_integrator.Base.Dict.{get}
use dp_integrator.Base.Text.{has_char, is_empty, join}
use dp_integrator.Core.Types.{prod, netsuite, environment_text, entity_type_text, system_text}
use dp_integrator.Core.DedupKey.{dedup_key, values, checked}
use dp_integrator.Core.Xref.{XrefRow, ClaimInput, claim, claimed, error, new_row}
use dp_integrator.Core.Queue.{empty_queue}
use dp_integrator.Core.Connections.{ConnectionsRepo, find_by_id, id_key_for}
use dp_integrator.Core.Replay.{ReplayRequest, Stores, order_parts, refuses, request_replay}
use dp_integrator.Core.Replay.Matrix.{Verdict, request_replay-Verdict, request_replay-claim}

abbrev repo : ConnectionsRepo
repo = record {
  by_shop = ("prod|store.example", sample_connection) ∷ [];
  by_id = ("prod|c1", sample_connection) ∷ [];
  all = sample_connection ∷ [];
}

abbrev req : ReplayRequest
req = record {
  environment = prod;
  connection_id = "c1";
  order_gid = "7";
  topic = none;
  force = none;
  now = 1000;
}

abbrev key_7 : String
key_7 = "prod|c1|order|shopify|7"

abbrev input : ClaimInput
input = record {
  parts = order_parts prod "c1" "7";
  target_system = netsuite;
  target_external = "shopify:c1:order:7";
  source_hash = none;
}

abbrev failed_row : XrefRow
failed_row = record {
  parts = order_parts prod "c1" "7";
  target_system = netsuite;
  target_id = none;
  target_external = "shopify:c1:order:7";
  source_hash = none;
  status = error;
  last_synced_at = none;
}

abbrev stores : Stores
stores = record { xref = record { rows = (key_7, failed_row) ∷ [] }; queue = empty_queue }

keyed : dedup_key (order_parts prod "c1" "7") ≡ ok key_7
unfolding order_parts dedup_key values checked has_char is_empty join environment_text
    entity_type_text system_text
keyed = refl

known : find_by_id prod "c1" repo ≡ some sample_connection
unfolding find_by_id id_key_for get environment_text
known = refl

goes : refuses (get key_7 stores.xref.rows) none ≡ false
unfolding refuses get
goes = refl

request_replay-Verdict_example :
    Verdict
      (refuses (get key_7 stores.xref.rows) none)
      key_7
      req
      sample_connection
      stores
      (request_replay repo req stores)
request_replay-Verdict_example =
    request_replay-Verdict key_7 req sample_connection stores keyed repo known

request_replay-claim_example :
    (claim input (request_replay repo req stores).1.xref).0 ≡ ok (claimed (new_row input))
request_replay-claim_example =
    request_replay-claim key_7 req sample_connection stores keyed repo input known goes keyed
