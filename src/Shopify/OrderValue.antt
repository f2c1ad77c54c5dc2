-- ===== src/Shopify/OrderValue.antt =====
-- An order of packages/shopify-client/src/order.ts as the object that the mapping engine walks through.
use dp_integrator.Base.{String, false, Option, none, some, List, [], ◌∷◌, map}
use dp_integrator.Base.Value.{
  Value, null, bool, num, str, obj, arr, Fields, end, field, Items, nil, cons,
}
use dp_integrator.Shopify.Order

abbrev text_field : String → Option String → Fields → Fields
text_field key none rest = rest
text_field key (some s) rest = field key (str s) rest

unfoldable pub array : List Value → Items
array [] = nil
array (v ∷ vs) = cons v (array vs)

unfoldable pub money_value : Order.MoneyV2 → Value
money_value m = obj (field "amount" (str m.amount) (field "currencyCode" (str m.currency_code) end))

unfoldable pub address_value : Order.ShopifyAddress → Value
address_value a = obj (
    text_field "id" a.id (
      text_field "firstName" a.first_name (
        text_field "lastName" a.last_name (
          text_field "company" a.company (
            text_field "address1" a.address1 (
              text_field "address2" a.address2 (
                text_field "city" a.city (
                  text_field "province" a.province (
                    text_field "provinceCode" a.province_code (
                      text_field "country" a.country (
                        text_field "countryCode" a.country_code
                          (text_field "zip" a.zip (text_field "phone" a.phone end)))))))))))))

abbrev address_field : String → Option Order.ShopifyAddress → Fields → Fields
address_field key none rest = rest
address_field key (some a) rest = field key (address_value a) rest

unfoldable pub customer_value : Option Order.ShopifyCustomer → Value
customer_value none = null
customer_value (some c) = obj (
    field "id" (str c.id) (
      text_field "email" c.email (
        text_field "firstName" c.first_name (
          text_field "lastName" c.last_name
            (address_field "defaultAddress" c.default_address end)))))

unfoldable pub allocation_value : Order.DiscountAllocation → Value
allocation_value d = obj (
    field "allocatedAmount" (money_value d.allocated_amount)
      (text_field "discountTitle" d.discount_title end))

unfoldable pub line_item_value : Order.ShopifyLineItem → Value
line_item_value l = obj (
    field "id" (str l.id) (
      field "title" (str l.title) (
        text_field "variantId" l.variant_id (
          text_field "sku" l.sku (
            field "quantity" (num false l.quantity 0) (
              field "originalUnitPrice" (money_value l.original_unit_price) (
                field "discountedTotal" (money_value l.discounted_total) (
                  field "discountAllocations"
                    (arr (array (map allocation_value l.discount_allocations))) end))))))))

unfoldable pub tax_line_value : Order.ShopifyTaxLine → Value
tax_line_value t =
    obj
      (field "title" (str t.title) (field "rate" t.rate (field "price" (money_value t.price) end)))

unfoldable pub shipping_line_value : Order.ShopifyShippingLine → Value
shipping_line_value s = obj (
    field "id" (str s.id) (
      field "title" (str s.title) (
        text_field "source" s.source (
          text_field "carrierIdentifier" s.carrier_identifier (
            field "price" (money_value s.price)
              (field "taxLines" (arr (array (map tax_line_value s.tax_lines))) end))))))

unfoldable pub kind_text : Order.TransactionKind → String
kind_text Order.sale = "sale"
kind_text Order.authorization = "authorization"
kind_text Order.capture = "capture"
kind_text Order.refund = "refund"
kind_text Order.void = "void"
kind_text Order.change = "change"

unfoldable pub status_text : Order.TransactionStatus → String
status_text Order.TransactionStatus.success = "success"
status_text Order.TransactionStatus.pending = "pending"
status_text Order.TransactionStatus.failure = "failure"
status_text Order.TransactionStatus.error = "error"

unfoldable pub transaction_value : Order.ShopifyTransaction → Value
transaction_value t = obj (
    field "id" (str t.id) (
      field "kind" (str (kind_text t.kind)) (
        field "status" (str (status_text t.status)) (
          field "gateway" (str t.gateway) (
            field "amount" (money_value t.amount)
              (field "processedAt" (str t.processed_at) end))))))

unfoldable pub fulfillment_value : Option Order.FulfillmentStatus → Value
fulfillment_value none = null
fulfillment_value (some Order.unfulfilled) = str "unfulfilled"
fulfillment_value (some Order.partial) = str "partial"
fulfillment_value (some Order.fulfilled) = str "fulfilled"
fulfillment_value (some Order.restocked) = str "restocked"

abbrev tags_field : Option (List String) → Fields
tags_field none = end
tags_field (some tags) = field "tags" (arr (array (map (λ t. str t) tags))) end

unfoldable pub tail_fields : Order.ShopifyOrder → Fields
tail_fields o = field "financialStatus" (str (Order.financial_status_text o.financial_status)) (
    field "fulfillmentStatus" (fulfillment_value o.fulfillment_status) (
      field "test" (bool o.test) (
        field "fraudHold" (bool o.fraud_hold) (
          field "customer" (customer_value o.customer) (
            field "lineItems" (arr (array (map line_item_value o.line_items))) (
              field "shippingLines" (arr (array (map shipping_line_value o.shipping_lines))) (
                field "taxLines" (arr (array (map tax_line_value o.tax_lines))) (
                  field "transactions" (arr (array (map transaction_value o.transactions))) (
                    address_field "billingAddress" o.billing_address (
                      address_field "shippingAddress" o.shipping_address (
                        text_field "locationId" o.location_id
                          (text_field "note" o.note (tags_field o.tags)))))))))))))

unfoldable pub order_value : Order.ShopifyOrder → Value
order_value o = obj (
    field "id" (str o.id) (
      field "name" (str o.name) (
        field "createdAt" (str o.created_at) (
          field "updatedAt" (str o.updated_at) (
            field "processedAt" (str o.processed_at) (
              field "currencyCode" (str o.currency_code) (
                field "totalPrice" (money_value o.total_price) (
                  field "subtotalPrice" (money_value o.subtotal_price) (
                    field "totalTax" (money_value o.total_tax) (
                      field "totalShippingPrice" (money_value o.total_shipping_price) (
                        field "totalDiscounts" (money_value o.total_discounts)
                          (tail_fields o))))))))))))
