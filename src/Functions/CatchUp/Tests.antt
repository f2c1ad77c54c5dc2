-- ===== src/Functions/CatchUp/Tests.antt =====
-- A poll of a page with one order that the webhooks missed and one that is synced.
use dp_integrator.Base.{ℕ, ◌+◌, ◌≡◌, refl, true, some, none, [], ◌∷◌, ok, length}
use dp_integrator.Base.Dict.{get, set}
use dp_integrator.Base.Text.{has_char, is_empty, join}
use dp_integrator.Core.Sample.{sample_connection}
use dp_integrator.Core.Types.{
  prod, order, shopify, netsuite, environment_text, entity_type_text, system_text,
}
use dp_integrator.Core.DedupKey.{dedup_key}
use dp_integrator.Core.Xref.{synced, lookup}
use dp_integrator.Core.Queue.{empty_queue, enqueue}
use dp_integrator.Core.Connections.{find_by_id, id_key_for}
use dp_integrator.Core.Watermark
use dp_integrator.Functions.CatchUp.{
  Deps, Poller, default_catchup_config, poll_one_connection, poll_found, poll_page, poll_orders,
  poll_order, publish_unless, is_resolved, parts_of, set_cursor, track_catchup_poll, on_outside,
  in_xref, in_queue, in_watermarks, last_updated,
}
use dp_integrator.Functions.CatchUp.Advance.{Advanced, poll_one_connection-Advanced}

abbrev deps : Deps ℕ
deps = record {
  environment = prod;
  connections = record {
    by_shop = ("prod|store.example", sample_connection) ∷ [];
    by_id = ("prod|c1", sample_connection) ∷ [];
    all = sample_connection ∷ [];
  };
  has_xref_store = true;
  has_watermark_store = true;
  has_telemetry = true;
  list_orders_updated_since = λ c since limit e. (
    ok (record { id = "o1"; updated_at = "t1" } ∷ record { id = "o2"; updated_at = "t2" } ∷ []),
    e + 1,
  );
  reach = λ e. (ok tt, e + 1);
  now = λ e. e;
}

abbrev idle : Poller ℕ
idle = record {
  xref = record {
    rows =
        (
          "prod|c1|order|shopify|o2",
          record {
            parts = record {
              environment = prod;
              connection_id = "c1";
              entity_type = order;
              source_system = shopify;
              source_id = "o2";
            };
            target_system = netsuite;
            target_id = some "9";
            target_external = "x";
            source_hash = none;
            status = synced;
            last_synced_at = none;
          },
        )
        ∷ [];
  };
  watermarks = [];
  queue = empty_queue;
  events = [];
  outside = 86400000;
}

one_sent :
    (length (poll_one_connection deps default_catchup_config "c1" idle).1.queue.buffer ≡ 1)
    × (length (poll_one_connection deps default_catchup_config "c1" idle).1.watermarks ≡ 1)
unfolding poll_one_connection poll_found poll_page poll_orders poll_order publish_unless is_resolved
    parts_of set_cursor track_catchup_poll on_outside in_xref in_queue in_watermarks last_updated
    lookup dedup_key enqueue get set find_by_id id_key_for environment_text entity_type_text
    system_text has_char is_empty join Watermark.get Watermark.set Watermark.watermark_key
one_sent = (refl, refl)

poll_one_connection-Advanced_example :
    Advanced deps default_catchup_config "c1" idle
      (poll_one_connection deps default_catchup_config "c1" idle)
poll_one_connection-Advanced_example =
    poll_one_connection-Advanced deps default_catchup_config "c1" idle
