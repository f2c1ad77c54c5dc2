-- ===== src/Core/DedupKey/Tests.antt =====
-- The dedup key on concrete parts.
use dp_integrator.Base.{◌≡◌, refl, ok}
use dp_integrator.Base.Text.{has_char, is_empty, join}
use dp_integrator.Core.Types.{prod, order, shopify, environment_text, entity_type_text, system_text}
use dp_integrator.Core.DedupKey.{DedupKeyParts, dedup_key, values, checked}
use dp_integrator.Core.DedupKey.Injective.{dedup_key-injective}

abbrev order_7 : DedupKeyParts
order_7 = record {
  environment = prod;
  connection_id = "c1";
  entity_type = order;
  source_system = shopify;
  source_id = "gid://shopify/Order/7";
}

key_7 : dedup_key order_7 ≡ ok "prod|c1|order|shopify|gid://shopify/Order/7"
unfolding dedup_key values checked has_char is_empty join environment_text entity_type_text
    system_text
key_7 = refl

dedup_key-injective_example : order_7 ≡ order_7
dedup_key-injective_example =
    dedup_key-injective order_7 order_7 "prod|c1|order|shopify|gid://shopify/Order/7" key_7 key_7
