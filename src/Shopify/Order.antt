-- ===== src/Shopify/Order.antt =====
-- packages/shopify-client/src/order.ts. An amount is the decimal text that Shopify sends; a tax rate is
-- a value.
use dp_integrator.Base.{ℕ, String, Bool, Option, List}
use dp_integrator.Base.Value.{Value}

pub record MoneyV2 : Type 0 where
  pub amount : String
  pub currency_code : String

pub record ShopifyAddress : Type 0 where
  pub id : Option String
  pub first_name : Option String
  pub last_name : Option String
  pub company : Option String
  pub address1 : Option String
  pub address2 : Option String
  pub city : Option String
  pub province : Option String
  pub province_code : Option String
  pub country : Option String
  pub country_code : Option String
  pub zip : Option String
  pub phone : Option String

pub record ShopifyCustomer : Type 0 where
  pub id : String
  pub email : Option String
  pub first_name : Option String
  pub last_name : Option String
  pub default_address : Option ShopifyAddress

pub record DiscountAllocation : Type 0 where
  pub allocated_amount : MoneyV2
  pub discount_title : Option String

pub record ShopifyLineItem : Type 0 where
  pub id : String
  pub title : String
  pub variant_id : Option String
  pub sku : Option String
  pub quantity : ℕ
  pub original_unit_price : MoneyV2
  pub discounted_total : MoneyV2
  pub discount_allocations : List DiscountAllocation

pub record ShopifyTaxLine : Type 0 where
  pub title : String
  pub rate : Value
  pub price : MoneyV2

pub record ShopifyShippingLine : Type 0 where
  pub id : String
  pub title : String
  pub source : Option String
  pub carrier_identifier : Option String
  pub price : MoneyV2
  pub tax_lines : List ShopifyTaxLine

pub data TransactionKind : Type 0 where
  sale authorization capture refund void change : TransactionKind

pub data TransactionStatus : Type 0 where
  success pending failure error : TransactionStatus

pub record ShopifyTransaction : Type 0 where
  pub id : String
  pub kind : TransactionKind
  pub status : TransactionStatus
  pub gateway : String
  pub amount : MoneyV2
  pub processed_at : String

pub data FinancialStatus : Type 0 where
  pending authorized partially_paid paid partially_refunded refunded voided : FinancialStatus

unfoldable pub financial_status_text : FinancialStatus → String
financial_status_text pending = "pending"
financial_status_text authorized = "authorized"
financial_status_text partially_paid = "partially_paid"
financial_status_text paid = "paid"
financial_status_text partially_refunded = "partially_refunded"
financial_status_text refunded = "refunded"
financial_status_text voided = "voided"

pub data FulfillmentStatus : Type 0 where
  unfulfilled partial fulfilled restocked : FulfillmentStatus

pub record ShopifyOrder : Type 0 where
  pub id : String
  pub name : String
  pub created_at : String
  pub updated_at : String
  pub processed_at : String
  pub currency_code : String
  pub total_price : MoneyV2
  pub subtotal_price : MoneyV2
  pub total_tax : MoneyV2
  pub total_shipping_price : MoneyV2
  pub total_discounts : MoneyV2
  pub financial_status : FinancialStatus
  pub fulfillment_status : Option FulfillmentStatus
  pub test : Bool
  pub fraud_hold : Bool
  pub customer : Option ShopifyCustomer
  pub line_items : List ShopifyLineItem
  pub shipping_lines : List ShopifyShippingLine
  pub tax_lines : List ShopifyTaxLine
  pub transactions : List ShopifyTransaction
  pub billing_address : Option ShopifyAddress
  pub shipping_address : Option ShopifyAddress
  pub location_id : Option String
  pub note : Option String
  pub tags : Option (List String)
