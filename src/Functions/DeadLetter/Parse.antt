-- ===== src/Functions/DeadLetter/Parse.antt =====
-- `parseEnvelope` of apps/functions/src/triggers/order-dlq-handler.ts, and the key of the order that it names.
use Prim.Native.String.{◌++◌}
use dp_integrator.Base.{String, Option, none, some, List, [], ◌∷◌, Result, ok, if◌then◌else◌}
use dp_integrator.Base.Text.{join}
use dp_integrator.Base.Print.{string_of}
use dp_integrator.Base.Value.{Value, obj, arr, Fields, end, get_field}
use dp_integrator.Core.DedupKey.{checked}
use dp_integrator.Core.Queue.Message.{type_of, is_one, missing_text, text_of}

pub data Envelope : Type 0 where
  parsed : Fields → Envelope
  bad : (error : String) → Envelope

abbrev pub required_strings : List String
required_strings = "environment" ∷ "connectionId" ∷ "shopDomain" ∷ "topic" ∷ "orderGid" ∷ []

abbrev pub by_missing : Fields → Option String → Envelope
by_missing m none = parsed m
by_missing m (some key) = bad ("missing/empty field '" ++ (key ++ "'"))

unfoldable pub parse_fields : Fields → Envelope
parse_fields m =
    if is_one (get_field "schemaVersion" m)
    then by_missing m (missing_text required_strings m)
    else bad ("unsupported schemaVersion: " ++ string_of (get_field "schemaVersion" m))

-- An array is an object, and has none of the keys.
unfoldable pub parse_envelope : Value → Envelope
parse_envelope (obj m) = parse_fields m
parse_envelope (arr vs) = parse_fields end
parse_envelope v = bad ("expected object, got " ++ type_of v)

abbrev pub text : String → Fields → String
text key m = text_of (get_field key m)

-- `dedupKey` of the order of an envelope.
abbrev pub parts_of : Fields → List String
parts_of m =
    text "environment" m ∷ text "connectionId" m ∷ "order" ∷ "shopify" ∷ text "orderGid" m ∷ []

unfoldable pub key_of : Fields → Result String
key_of m = checked (parts_of m) (ok (join "|" (parts_of m)))
