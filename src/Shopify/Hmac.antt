-- ===== src/Shopify/Hmac.antt =====
-- packages/shopify-client/src/hmac.ts. The digest and the reading of base64 are those of the runtime's
-- libraries; a text that is no base64 reads as some other bytes.
use dp_integrator.Base.{ℕ, String, Bool, true, false, not, ◌&&◌, List, [], ◌∷◌, ◌==◌}
use dp_integrator.Base.Text.{is_empty}

pub record Crypto : Type 0 where
  pub hmac_sha256 : (secret body : String) → List ℕ
  pub from_base64 : String → List ℕ

-- The test of the lengths and `timingSafeEqual`.
unfoldable pub same_bytes : List ℕ → List ℕ → Bool
same_bytes [] [] = true
same_bytes [] (y ∷ ys) = false
same_bytes (x ∷ xs) [] = false
same_bytes (x ∷ xs) (y ∷ ys) = x == y && same_bytes xs ys

unfoldable pub verify_shopify_hmac : Crypto → (raw_body hmac secret : String) → Bool
verify_shopify_hmac crypto raw_body hmac secret =
    not (is_empty hmac)
    && not (is_empty secret)
    && same_bytes (crypto.from_base64 hmac) (crypto.hmac_sha256 secret raw_body)
