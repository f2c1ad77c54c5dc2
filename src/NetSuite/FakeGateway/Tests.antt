-- ===== src/NetSuite/FakeGateway/Tests.antt =====
-- Two writes of one order.
use dp_integrator.Base.{refl}
use dp_integrator.Base.Value.{str, field, end}
use dp_integrator.NetSuite.FakeGateway.{empty_fake, upsert_by_external_id}
use dp_integrator.NetSuite.FakeGateway.Twice.{IsOneRecord, upsert_by_external_id_twice}

upsert_by_external_id_twice_example :
    IsOneRecord "acct" "salesorder" "o1"
      (field "memo" (str "b") end)
      empty_fake
      (upsert_by_external_id "acct" "salesorder" "o1" (field "memo" (str "a") end) empty_fake).0
      (upsert_by_external_id "acct" "salesorder" "o1"
        (field "memo" (str "b") end)
        (upsert_by_external_id "acct" "salesorder" "o1" (field "memo" (str "a") end) empty_fake).1)
upsert_by_external_id_twice_example =
    upsert_by_external_id_twice "acct" "salesorder" "o1" (field "memo" (str "a") end)
      (field "memo" (str "b") end) empty_fake refl
