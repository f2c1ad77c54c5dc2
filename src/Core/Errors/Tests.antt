-- ===== src/Core/Errors/Tests.antt =====
-- A record of a concrete failure.
use dp_integrator.Base.{◌≡◌, some, none, ◌==◌, if◌then◌else◌}
use dp_integrator.Base.Value.{null}
use dp_integrator.Core.Errors.{
  NewErrorInput, empty_error_store, unknown, quarantined, record_error, update_status, get,
  increment_retry,
}
use dp_integrator.Core.Errors.Records.{quarantine-get, row_of, Retried, increment_retry-Retried}

abbrev failure : NewErrorInput
failure = record {
  environment = "prod";
  connection_id = "c1";
  flow = "order-import";
  dedup_key = "prod|c1|order|shopify|7";
  error_class = unknown;
  message = "gave up";
  stack = none;
  envelope = null;
}

quarantine-get_example :
    get 1 (update_status 1 quarantined none 20 (record_error failure 10 empty_error_store).1).1 ≡ (
      if 1 == 1
      then some
          (record (row_of failure 10 empty_error_store) { status = quarantined; updated_at = 20 })
      else get 1 empty_error_store)
quarantine-get_example = quarantine-get failure 10 20 1 empty_error_store tt

-- The first record of a store, tried once more.
increment_retry-Retried_example :
    Retried 1 30
      (record_error failure 10 empty_error_store).1
      (increment_retry 1 30 (record_error failure 10 empty_error_store).1)
increment_retry-Retried_example =
    increment_retry-Retried 1 30 (record_error failure 10 empty_error_store).1
