-- ===== src/Engine/Eligibility/Decides.antt =====
-- The conditions of packages/mapping-engine/src/eligibility.ts, one by one.
use dp_integrator.Base.{String, ◌≡◌, true, false, ◌↔◌, arith, str_eq, or_else, includes}
use dp_integrator.Shopify.Order.{ShopifyOrder, financial_status_text}
use dp_integrator.Engine.Eligibility.{
  EligibilityOptions, eligible, check_eligibility, default_financial_statuses, texts, is_nil,
  excludes,
}

-- The rule, condition by condition.
pub record MayImport (order : ShopifyOrder) (topic : String) (options : EligibilityOptions)
    : Type 0 where
  pub real : order.test ≡ false
  pub released : order.fraud_hold ≡ false
  pub not_voided : str_eq (financial_status_text order.financial_status) "voided" ≡ false
  pub payment :
      includes
        (financial_status_text order.financial_status)
        (texts (or_else options.allowed_financial_statuses default_financial_statuses))
      ≡ true
  pub lines : is_nil order.line_items ≡ false
  pub by_topic : excludes options.allowed_topics topic ≡ false

-- An order is eligible exactly when it is no test order, not held for fraud, not voided, in an
-- allowed financial status, has a line item, and came by an allowed topic.
pub check_eligibility_iff :
    (order : ShopifyOrder) (topic : String) (options : EligibilityOptions)
    → (check_eligibility order topic options ≡ eligible) ↔ MayImport order topic options
unfolding check_eligibility
check_eligibility_iff order topic options = (λ e. ground arith, λ m. ground arith)
