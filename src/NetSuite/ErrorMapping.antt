-- ===== src/NetSuite/ErrorMapping.antt =====
-- packages/netsuite-client/src/error-mapping.ts. The getters of the SDK's error are its fields.
use dp_integrator.Base.{
  ℕ, String, Bool, false, ◌&&◌, ◌||◌, Option, none, some, List, [], ◌∷◌, map, NsError, Thrown,
  plain_error, order_not_found, netsuite_error, other_value, ◌==◌, if◌then◌else◌,
}
use dp_integrator.Base.Text.{to_lower, to_upper, is_empty}
use dp_integrator.Base.Search.{contains}
use dp_integrator.Core.Errors.{ErrorClass, transient, data_error, auth, unknown}

-- `.some(p)`.
unfoldable pub any {ℓ} : {A : Type ℓ} → (A → Bool) → List A → Bool
any p [] = false
any p (x ∷ xs) = p x || any p xs

-- `filter(Boolean)` over the codes that are texts: absent and empty ones are dropped.
unfoldable pub present : List (Option String) → List String
present [] = []
present (none ∷ cs) = present cs
present (some c ∷ cs) = let rest = present cs in if is_empty c then rest else c ∷ rest

abbrev pub code_of : Option String → List String → List String
code_of none cs = cs
code_of (some c) cs = c ∷ cs

unfoldable pub all_codes : NsError → List String
unfolding present
all_codes e = map to_upper (code_of e.code (present e.detail_codes))

abbrev pub is_status : ℕ → Option ℕ → Bool
is_status n none = false
is_status n (some m) = m == n

abbrev pub data_code_patterns : List String
data_code_patterns =
    "INVALID_KEY_OR_REF" ∷ "INVALID_FIELD" ∷ "INVALID_RECORD" ∷ "INVALID_FIELD_VALUE"
    ∷ "MISSING_REQD_FIELD" ∷ "USER_ERROR" ∷ "INSUFFICIENT_PERMISSION" ∷ []

unfoldable pub is_limited : NsError → Bool
unfolding any
is_limited e =
    is_status 429 e.status
    || any (λ c. contains "CONCURRENT" c || contains "GOVERNANCE" c) (all_codes e)

unfoldable pub is_data_shape : NsError → Bool
unfolding any
is_data_shape e =
    (is_status 400 e.status || is_status 422 e.status)
    && any (λ c. any (λ p. contains p c) data_code_patterns) (all_codes e)

unfoldable pub map_sdk_error : NsError → ErrorClass
map_sdk_error e =
    if e.is_auth_error
    then auth
    else if is_limited e
    then transient
    else if e.is_retryable
    then transient
    else if is_data_shape e
    then data_error
    else unknown

-- The network cues in a message.
unfoldable pub is_network : String → Bool
is_network m =
    contains "econnreset" (to_lower m)
    || contains "etimedout" (to_lower m)
    || contains "socket hang up" (to_lower m)

unfoldable pub map_netsuite_error : Thrown → ErrorClass
unfolding map_sdk_error
map_netsuite_error (netsuite_error e) = map_sdk_error e
map_netsuite_error (plain_error m) = if is_network m then transient else unknown
map_netsuite_error (order_not_found gid shop) = unknown
map_netsuite_error (other_value v) = unknown
