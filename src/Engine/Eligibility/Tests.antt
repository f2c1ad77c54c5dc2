-- ===== src/Engine/Eligibility/Tests.antt =====
-- A test order.
use dp_integrator.Base.{◌≡◌, ◌↔◌}
use dp_integrator.Shopify.Sample.{test_order}
use dp_integrator.Engine.Eligibility.{check_eligibility, default_options, eligible}
use dp_integrator.Engine.Eligibility.Decides.{MayImport, check_eligibility_iff}

check_eligibility_iff_example :
    (check_eligibility test_order "orders/create" default_options ≡ eligible)
    ↔ MayImport test_order "orders/create" default_options
check_eligibility_iff_example = check_eligibility_iff test_order "orders/create" default_options
