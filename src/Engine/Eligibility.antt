-- ===== src/Engine/Eligibility.antt =====
-- packages/mapping-engine/src/eligibility.ts: should an order be imported at all?
mod Tests
pub mod Decides
use Prim.Native.String.{◌++◌}
use dp_integrator.Base.{
  String, Bool, true, false, not, ◌&&◌, ◌||◌, Option, none, some, List, [], ◌∷◌, map, if◌then◌else◌,
  str_eq, or_else, includes,
}
use dp_integrator.Base.Text.{join}
use dp_integrator.Shopify.Order.{
  ShopifyOrder, FinancialStatus, paid, authorized, partially_paid, financial_status_text,
}

-- `update_before_create` is given by the order handler alone.
pub data EligibilityReason : Type 0 where
  test_order fraud_hold voided pending_payment no_line_items disallowed_topic : EligibilityReason
  update_before_create : EligibilityReason

unfoldable pub reason_text : EligibilityReason → String
reason_text test_order = "test_order"
reason_text fraud_hold = "fraud_hold"
reason_text voided = "voided"
reason_text pending_payment = "pending_payment"
reason_text no_line_items = "no_line_items"
reason_text disallowed_topic = "disallowed_topic"
reason_text update_before_create = "update_before_create"

pub data EligibilityResult : Type 0 where
  eligible : EligibilityResult
  ineligible : EligibilityReason → (detail : Option String) → EligibilityResult

pub record EligibilityOptions : Type 0 where
  pub allowed_topics : Option (List String)
  pub allowed_financial_statuses : Option (List FinancialStatus)

abbrev pub default_financial_statuses : List FinancialStatus
default_financial_statuses = paid ∷ authorized ∷ partially_paid ∷ []

abbrev pub default_options : EligibilityOptions
default_options = record { allowed_topics = none; allowed_financial_statuses = none }

abbrev pub texts : List FinancialStatus → List String
texts = map financial_status_text

-- `JSON.stringify` of texts without characters to escape.
json : List String → String
json xs = "[" ++ (join "," (map (λ x. "\"" ++ (x ++ "\"")) xs) ++ "]")

abbrev pub is_nil {ℓ} : {A : Type ℓ} → List A → Bool
is_nil [] = true
is_nil (x ∷ xs) = false

-- `options.allowedTopics && !options.allowedTopics.includes(topic)`.
abbrev pub excludes : Option (List String) → String → Bool
excludes none topic = false
excludes (some topics) topic = not (includes topic topics)

unfoldable pub check_eligibility : ShopifyOrder → String → EligibilityOptions → EligibilityResult
unfolding json
check_eligibility order topic options =
    let status = financial_status_text order.financial_status in
    let allowed = or_else options.allowed_financial_statuses default_financial_statuses in
    if order.test
    then ineligible test_order none
    else if order.fraud_hold
    then ineligible fraud_hold none
    else if str_eq status "voided"
    then ineligible voided none
    else if not (includes status (texts allowed))
    then ineligible pending_payment
        (some ("financialStatus=" ++ (status ++ (" not in " ++ json (texts allowed)))))
    else if is_nil order.line_items
    then ineligible no_line_items none
    else if excludes options.allowed_topics topic
    then ineligible disallowed_topic
        (some ("topic=" ++ (topic ++ (" not in " ++ json (or_else options.allowed_topics [])))))
    else eligible
