-- ===== src/Functions/Classification/Tests.antt =====
-- Messages in the shapes that the gateways produce.
use dp_integrator.Base.{◌≡◌, refl, some, none, plain_error}
use dp_integrator.Base.Text.{to_lower}
use dp_integrator.Base.Search.{contains, begins_with}
use dp_integrator.Core.Errors.{auth, transient, unknown}
use dp_integrator.NetSuite.ErrorMapping.{is_network}
use dp_integrator.Functions.Classification.{
  extract_http_status, classify_handler_error, class_of_status, class_of_text,
}

statuses :
    (extract_http_status "store.example returned 503: busy" ≡ some 503)
    × (extract_http_status "returned 5034" ≡ none)
    × (extract_http_status "call failed, Status=429;" ≡ some 429)
    × (extract_http_status "HTTP  401" ≡ some 401)
    × (extract_http_status "got 404 Not  Found here" ≡ some 404)
    × (extract_http_status "a404 Not Found" ≡ none)
unfolding extract_http_status
statuses = (refl, refl, refl, refl, refl, refl)

classes :
    (classify_handler_error (plain_error "shop returned 401: no") ≡ auth)
    × (classify_handler_error (plain_error "read ECONNRESET") ≡ transient)
    × (classify_handler_error (plain_error "odd") ≡ unknown)
unfolding classify_handler_error extract_http_status class_of_status class_of_text is_network
    contains to_lower begins_with
classes = (refl, refl, refl)
