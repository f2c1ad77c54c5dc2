-- ===== src/Functions/Classification.antt =====
-- apps/functions/src/triggers/error-classification.ts: retry or park? A regular expression is tried at
-- each place of the message in lower case, which is what its flag `i` asks for.
mod Tests
use dp_integrator.Base.{
  ℕ, String, Bool, true, false, ◌&&◌, ◌||◌, Option, none, some, List, [], ◌∷◌, Thrown, plain_error,
  order_not_found, netsuite_error, other_value, ◌==◌, leb, ltb, if◌then◌else◌, is_some,
}
use dp_integrator.Base.Text.{to_lower}
use dp_integrator.Base.Search.{
  codes, strip, contains, begins_with, is_space, is_word, ends_word, three_digits, skip_some,
  first_match,
}
use dp_integrator.Core.Errors.{ErrorClass, transient, data_error, auth, unmapped_construct, unknown}
use dp_integrator.NetSuite.ErrorMapping.{map_netsuite_error, is_network}

-- The number, if a word ends behind it.
bounded : Option (ℕ × List ℕ) → Option ℕ
bounded none = none
bounded (some (n, s)) = if ends_word s then some n else none

status_digits : Option (List ℕ) → Option ℕ
unfolding bounded three_digits
status_digits none = none
status_digits (some s) = bounded (three_digits s)

-- `/returned (\d{3})\b/i`.
returned_at : Bool → List ℕ → Option ℕ
unfolding status_digits strip
returned_at before s = status_digits (strip (codes "returned ") s)

is_separator : ℕ → Bool
is_separator c = c == b'=' || c == b':' || is_space c

and_then : Option (List ℕ) → (List ℕ → Option (List ℕ)) → Option (List ℕ)
and_then none f = none
and_then (some s) f = f s

-- `/\bstatus[=:\s]+(\d{3})\b/i`.
status_at : Bool → List ℕ → Option ℕ
unfolding status_digits strip and_then skip_some is_separator
status_at before s =
    if before
    then none
    else status_digits (and_then (strip (codes "status") s) (skip_some is_separator))

-- `/\bHTTP\s+(\d{3})\b/i`.
http_at : Bool → List ℕ → Option ℕ
unfolding status_digits strip and_then skip_some
http_at before s =
    if before then none else status_digits (and_then (strip (codes "http") s) (skip_some is_space))

ends_with_word : Option (List ℕ) → Bool
ends_with_word none = false
ends_with_word (some s) = ends_word s

-- The alternatives of the phrase, each with `\b` behind it; `Not\s+Found` is the last.
is_phrase : List String → List ℕ → Bool
unfolding ends_with_word strip and_then skip_some
is_phrase [] s =
    ends_with_word
      (and_then (and_then (strip (codes "not") s) (skip_some is_space)) (strip (codes "found")))
is_phrase (p ∷ ps) s = ends_with_word (strip (codes p) s) || is_phrase ps s

phrases : List String
phrases =
    "service" ∷ "internal" ∷ "gateway" ∷ "bad" ∷ "unauthorized" ∷ "forbidden" ∷ "conflict" ∷ []

followed : Option (ℕ × List ℕ) → Option ℕ
unfolding skip_some is_phrase phrases
followed none = none
followed (some (n, s)) =
    if leb 400 n && ltb n 600
    then elim (skip_some is_space s) [
      | none ↦ none
      | some rest ↦ if is_phrase phrases rest then some n else none
    ]
    else none

-- `/\b([45]\d{2})\s+(Service|Internal|…|Conflict)\b/i`.
phrase_at : Bool → List ℕ → Option ℕ
unfolding followed three_digits
phrase_at before s = if before then none else followed (three_digits s)

or_try : Option ℕ → Option ℕ → Option ℕ
or_try none o = o
or_try (some n) o = some n

unfoldable pub extract_http_status : String → Option ℕ
unfolding or_try returned_at status_at http_at phrase_at first_match to_lower
extract_http_status message =
    let s = codes (to_lower message) in
    or_try (first_match returned_at false s) (
      or_try (first_match status_at false s)
        (or_try (first_match http_at false s) (first_match phrase_at false s)))

-- The class of a status, where it decides.
unfoldable pub class_of_status : Option ℕ → Option ErrorClass
class_of_status none = none
class_of_status (some n) =
    if n == 401 || n == 403
    then some auth
    else if n == 429
    then some transient
    else if leb 500 n && ltb n 600
    then some transient
    else if leb 400 n && ltb n 500
    then some data_error
    else none

unfoldable pub class_of_text : String → ErrorClass
class_of_text message =
    if is_network message
      || contains "network request failed" (to_lower message)
      || contains "fetch failed" (to_lower message)
    then transient
    else if begins_with "shopifyhttpgateway.getorder: graphql errors" (to_lower message)
    then data_error
    else unknown

abbrev or_class : Option ErrorClass → ErrorClass → ErrorClass
or_class none d = d
or_class (some c) d = c

unfoldable pub classify_handler_error : Thrown → ErrorClass
classify_handler_error (order_not_found gid shop) = data_error
classify_handler_error (netsuite_error e) = map_netsuite_error (netsuite_error e)
classify_handler_error (plain_error m) =
    or_class (class_of_status (extract_http_status m)) (class_of_text m)
classify_handler_error (other_value v) = unknown

unfoldable pub should_retry : ErrorClass → Bool
should_retry transient = true
should_retry auth = true
should_retry _ = false
