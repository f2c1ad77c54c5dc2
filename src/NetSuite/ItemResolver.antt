-- ===== src/NetSuite/ItemResolver.antt =====
-- packages/netsuite-client/src/item-resolver.ts: the ids of the items of a payload become internal ids of
-- NetSuite.
pub mod Resolved
pub mod Rounding
mod Tests
use Prim.Native.String.{◌++◌}
use dp_integrator.Base.{
  ℕ, suc, zero, String, Bool, true, false, Option, none, some, List, [], ◌∷◌, M, pure, ◌>>=◌,
  str_eq,
}
use dp_integrator.Base.Print.{decimal, string_of}
use dp_integrator.Base.Value.{
  Value, undefined, null, nan, bool, num, str, obj, arr, Fields, field, end, get_field, set_field,
}
use dp_integrator.Engine.MappingResult.{MappingResult, mapped, parked}
use dp_integrator.NetSuite.Gateway.{NetSuiteGateway}
use dp_integrator.NetSuite.Lines.{lines_of, sublist, field_of}

-- What the loop does with a line: it stays as it is, its id is an internal id already, or its id is to be
-- looked up.
pub data ItemRef : Type 0 where
  no_ref : ItemRef
  resolved_id sku : String → ItemRef

-- `__resolved === true`.
abbrev is_marked : Value → Bool
is_marked (bool true) = true
is_marked v = false

ref_by_mark : Bool → String → ItemRef
ref_by_mark true id = resolved_id id
ref_by_mark false id = sku id

-- Of the `id` of a reference, with its mark.
ref_by_id : Value → Value → ItemRef
unfolding ref_by_mark
ref_by_id undefined mark = no_ref
ref_by_id null mark = no_ref
ref_by_id id mark = ref_by_mark (is_marked mark) (string_of id)

-- Of `line['item']`. An array has neither an id nor a mark.
unfoldable pub item_ref : Value → ItemRef
unfolding ref_by_id ref_by_mark
item_ref (obj fs) = ref_by_id (get_field "id" fs) (get_field "__resolved" fs)
item_ref v = no_ref

-- `{ ...line, item: { id } }`.
unfoldable pub with_item : String → Value → Value
with_item id (obj fs) = obj (set_field "item" (obj (field "id" (str id) end)) fs)
with_item id line = line

module _ {E : Type 0} (ns : NetSuiteGateway E) (ns_account_id sublist_name : String) where
  unfoldable pub miss : ℕ → String → MappingResult Value
  miss idx id = parked (record {
    detail =
        sublist_name
        ++ ("["
            ++ (decimal idx
                ++ ("]: no NS item matches sku/title '"
                    ++ (id ++ "' — create the item in NS or correct the source"))));
    construct = some (sublist_name ++ (":" ++ id));
    evidence = none;
  })

  -- The answer of NetSuite, or what stands in for it.
  unfoldable pub by_answer :
      Option String → ℕ → Value → String → Option String → MappingResult Value
  by_answer fallback idx line id (some internal_id) = mapped (with_item internal_id line)
  by_answer (some fallback) idx line id none = mapped (with_item fallback line)
  by_answer none idx line id none = miss idx id

  unfoldable pub by_ref : Option String → ℕ → Value → ItemRef → M E (MappingResult Value)
  by_ref fallback idx line no_ref = pure (mapped line)
  by_ref fallback idx line (resolved_id id) = pure (mapped (with_item id line))
  by_ref fallback idx line (sku id) = do
    answer ← ns.resolve_item_id ns_account_id id
    pure (by_answer fallback idx line id answer)

  unfoldable pub resolve_line : Option String → ℕ → Value → M E (MappingResult Value)
  resolve_line fallback idx line = by_ref fallback idx line (item_ref (field_of "item" line))

  unfoldable pub in_front : Value → MappingResult (List Value) → MappingResult (List Value)
  in_front v (mapped vs) = mapped (v ∷ vs)
  in_front v (parked reason) = parked reason

  -- A line that parks ends the loop.
  unfoldable pub go_on :
      MappingResult Value → M E (MappingResult (List Value)) → M E (MappingResult (List Value))
  go_on (parked reason) rest = pure (parked reason)
  go_on (mapped v) rest = rest >>= (λ vs. pure (in_front v vs))

  -- The loop, from a line's index on.
  unfoldable pub resolve_sublist : Option String → ℕ → List Value → M E (MappingResult (List Value))
  resolve_sublist fallback idx [] = pure (mapped [])
  resolve_sublist fallback idx (line ∷ lines) =
      resolve_line fallback idx line
      >>= (λ one. go_on one (resolve_sublist fallback (suc idx) lines))

-- `if (payload.shipping)`.
abbrev pub is_object : Value → Bool
is_object (obj fs) = true
is_object v = false

module _ {E : Type 0} (ns : NetSuiteGateway E) (ns_account_id : String) (payload : Fields) where
  -- The payload with its lines replaced.
  unfoldable pub with_shipping : List Value → MappingResult (List Value) → MappingResult Fields
  with_shipping items (parked reason) = parked reason
  with_shipping items (mapped shipping) =
      mapped (set_field "shipping" (sublist shipping) (set_field "item" (sublist items) payload))

  unfoldable pub after_items : Bool → MappingResult (List Value) → M E (MappingResult Fields)
  after_items has_shipping (parked reason) = pure (parked reason)
  after_items false (mapped items) = pure (mapped (set_field "item" (sublist items) payload))
  after_items true (mapped items) = do
    shipping ← resolve_sublist ns ns_account_id "shipping" none 0 (lines_of "shipping" payload)
    pure (with_shipping items shipping)

  -- The fallback is for the items only.
  unfoldable pub resolve_item_references : Option String → M E (MappingResult Fields)
  resolve_item_references fallback = do
    items ← resolve_sublist ns ns_account_id "item" fallback 0 (lines_of "item" payload)
    after_items (is_object (get_field "shipping" payload)) items
