-- ===== src/Core/Queue/Message.antt =====
-- The order message on the wire: what a producer puts into the body, and the checks that the order
-- handler (`parseOrderWebhookMessage`) makes of it. The offending value is left out of two of the
-- errors.
pub mod Roundtrip
use Prim.Native.String.{◌++◌}
use dp_integrator.Base.{
  String, Bool, true, false, not, ◌&&◌, ◌==◌, Option, none, some, List, [], ◌∷◌, if◌then◌else◌,
  str_eq,
}
use dp_integrator.Base.Value.{
  Value, undefined, null, nan, bool, num, str, arr, obj, Fields, end, field, get_field,
}
use dp_integrator.Base.Text.{is_empty}
use dp_integrator.Core.Queue.{OrderWebhookMessage, Source, webhook, catchup, replay}

pub data Parsed : Type 0 where
  parsed : OrderWebhookMessage → Parsed
  bad : (error : String) → Parsed

abbrev pub type_of : Value → String
type_of undefined = "undefined"
type_of null = "object"
type_of (bool b) = "boolean"
type_of nan = "number"
type_of (num s d e) = "number"
type_of (str s) = "string"
type_of (arr xs) = "object"
type_of (obj fs) = "object"

-- `v === 1`.
unfoldable pub is_one : Value → Bool
is_one (num negative digits decimals) = not negative && digits == 1 && decimals == 0
is_one _ = false

-- A string field that is not empty.
unfoldable pub is_text : Value → Bool
is_text (str s) = not (is_empty s)
is_text _ = false

-- The first of the keys that is no such field.
unfoldable pub missing_text : List String → Fields → Option String
missing_text [] fs = none
missing_text (k ∷ ks) fs =
    let rest = missing_text ks fs in if is_text (get_field k fs) then rest else some k

abbrev pub text_of : Value → String
text_of (str s) = s
text_of _ = ""

-- `none` is an invalid source; `some none` is an absent one.
unfoldable pub source_of : Value → Option (Option Source)
source_of undefined = some none
source_of (str s) =
    if str_eq s "webhook"
    then some (some webhook)
    else if str_eq s "catchup"
    then some (some catchup)
    else if str_eq s "replay"
    then some (some replay)
    else none
source_of _ = none

unfoldable pub message_of : Fields → Option Source → OrderWebhookMessage
message_of fs source = record {
  environment = text_of (get_field "environment" fs);
  connection_id = text_of (get_field "connectionId" fs);
  shop_domain = text_of (get_field "shopDomain" fs);
  topic = text_of (get_field "topic" fs);
  order_gid = text_of (get_field "orderGid" fs);
  envelope_blob_uri = text_of (get_field "envelopeBlobUri" fs);
  received_at = text_of (get_field "receivedAt" fs);
  source = source;
}

abbrev pub required_strings : List String
required_strings =
    "environment" ∷ "connectionId" ∷ "shopDomain" ∷ "topic" ∷ "orderGid" ∷ "envelopeBlobUri"
    ∷ "receivedAt" ∷ []

with_source : Fields → Option (Option Source) → Parsed
with_source fs none = bad "invalid source"
with_source fs (some source) = parsed (message_of fs source)

checked_texts : Fields → Option String → Parsed
unfolding with_source
checked_texts fs (some key) = bad ("missing/empty string field '" ++ (key ++ "'"))
checked_texts fs none = with_source fs (source_of (get_field "source" fs))

parse_fields : Fields → Parsed
unfolding checked_texts
parse_fields fs =
    if is_one (get_field "schemaVersion" fs)
    then checked_texts fs (missing_text required_strings fs)
    else bad "unsupported schemaVersion"

-- An array is an object, and has none of the keys.
unfoldable pub parse : Value → Parsed
unfolding parse_fields is_one missing_text is_text source_of message_of
parse (obj fs) = parse_fields fs
parse (arr xs) = parse_fields end
parse v = bad ("expected object, got " ++ type_of v)

source_field : Option Source → Fields
source_field none = end
source_field (some webhook) = field "source" (str "webhook") end
source_field (some catchup) = field "source" (str "catchup") end
source_field (some replay) = field "source" (str "replay") end

-- The body as the producers build it and the bus carries it.
unfoldable pub encode : OrderWebhookMessage → Value
unfolding source_field
encode m = obj (
    field "schemaVersion" (num false 1 0) (
      field "environment" (str m.environment) (
        field "connectionId" (str m.connection_id) (
          field "shopDomain" (str m.shop_domain) (
            field "topic" (str m.topic) (
              field "orderGid" (str m.order_gid) (
                field "envelopeBlobUri" (str m.envelope_blob_uri)
                  (field "receivedAt" (str m.received_at) (source_field m.source)))))))))
