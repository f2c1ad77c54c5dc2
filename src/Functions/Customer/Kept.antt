-- ===== src/Functions/Customer/Kept.antt =====
-- The entries of a customer's addressbook over a merge.
use dp_integrator.Base.{
  String, Bool, true, false, not, Option, none, some, List, [], ◌∷◌, ◌++◌, map, keep, ◌≡◌, refl, ap,
  subst, ◌⊎◌, inl, inr, arith, Bool-cases, str_eq, eq_iff, All, All-map,
}
use dp_integrator.Base.Value.{Fields}
use dp_integrator.Base.Text.{truthy}
use dp_integrator.Base.Set.{has, add, has-add}
use dp_integrator.Base.Dict.{Dict}
use dp_integrator.NetSuite.Gateway.{CustomerAddressbookEntry}
use dp_integrator.Functions.Customer.Addressbook.{
  OrderAddressesForCustomer, HasNoAddress, Line, incoming, claim_entry, find_entry, both_sides,
  one_side, order_lines, preserved, some_billing, some_shipping, with_preserved, merged_lines,
  build_addressbook_merged, same_text,
}

-- A line for the entry with this id.
abbrev pub HasEntry : String → List Line → Type 0
HasEntry id [] = ⊥
HasEntry id (line ∷ lines) = (line.id ≡ some id) ⊎ HasEntry id lines

HasEntry-front : (id : String) (a b : List Line) → HasEntry id a → HasEntry id (a ++ b)
HasEntry-front id (line ∷ a) b (inl h) = inl h
HasEntry-front id (line ∷ a) b (inr h) = inr (HasEntry-front id a b h)
HasEntry-front id [] b h = elim h [ ]

HasEntry-back : (id : String) (a b : List Line) → HasEntry id b → HasEntry id (a ++ b)
HasEntry-back id [] b h = h
HasEntry-back id (line ∷ a) b h = inr (HasEntry-back id a b h)

-- What is claimed has a line.
abbrev IsBacked : List Line × List String → Type 0
IsBacked r = (id : String) → has id r.1 ≡ true → HasEntry id r.0

claim-IsBacked :
    (m : Option CustomerAddressbookEntry) (line : Line)
    → IsBacked ((claim_entry m line []).0 ∷ [], (claim_entry m line []).1)
unfolding claim_entry has add
claim-IsBacked none line id h = absurd (cc (h))
claim-IsBacked (some e) line id h = inl (ap some (ground (arith, h, eq_iff e.internal_id id)))

-- The second line keeps what the first claimed.
second-IsBacked :
    (m : Option CustomerAddressbookEntry) (first line : Line) (claimed : List String)
    → IsBacked (first ∷ [], claimed)
    → IsBacked (first ∷ (claim_entry m line claimed).0 ∷ [], (claim_entry m line claimed).1)
unfolding claim_entry
second-IsBacked none first line claimed b id h = elim (b id h) [
  | inl e ↦ inl e
  | inr e ↦ elim e [ ]
]
second-IsBacked (some e) first line claimed b id h = elim (Bool-cases (str_eq e.internal_id id)) [
  | inl same ↦ inr (inl (ap some (ground (arith, same, eq_iff e.internal_id id))))
  | inr other ↦
      let old : has id claimed ≡ true =
        ground (arith, h, other, has-add e.internal_id id claimed) in
      elim (b id old) [ inl x ↦ inl x | inr x ↦ elim x [ ] ]
]

module _ (byId : Dict CustomerAddressbookEntry) (billing_id shipping_id : Option String) where
  order_lines-IsBacked :
      (billing shipping : Option Fields)
      → IsBacked (order_lines byId billing_id shipping_id billing shipping)
  unfolding order_lines one_side both_sides has
  order_lines-IsBacked none none = λ id h. absurd (cc (h))
  order_lines-IsBacked (some b) none = elim (Bool-cases (same_text billing_id shipping_id)) [
    | inl same ↦ rw same (claim-IsBacked (find_entry (truthy billing_id) byId) _)
    | inr other ↦ rw other (claim-IsBacked (find_entry (truthy billing_id) byId) _)
  ]
  order_lines-IsBacked none (some s) = claim-IsBacked (find_entry (truthy shipping_id) byId) _
  order_lines-IsBacked (some b) (some s) = elim (Bool-cases (same_text billing_id shipping_id)) [
    | inl same ↦ rw same (claim-IsBacked (find_entry (truthy billing_id) byId) _)
    | inr other ↦ rw other (
        second-IsBacked (find_entry (truthy shipping_id) byId)
          (claim_entry (find_entry (truthy billing_id) byId) (incoming true false "Billing" b) []).0
          (incoming false true "Shipping" s)
          (claim_entry (find_entry (truthy billing_id) byId) (incoming true false "Billing" b) []).1
          (claim-IsBacked (find_entry (truthy billing_id) byId) (incoming true false "Billing" b)))
  ]

-- Every entry is claimed or preserved.
module _ (b s : Bool) (claimed : List String) where
  abbrev rest_of : List CustomerAddressbookEntry → List Line
  rest_of existing = map (preserved b s) (keep (λ e. not (has e.internal_id claimed)) existing)

  abbrev Found : List Line → CustomerAddressbookEntry → Type 0
  Found lines e = (has e.internal_id claimed ≡ true) ⊎ HasEntry e.internal_id lines

  later :
      (line : Line) (lines : List Line) (e : CustomerAddressbookEntry)
      → Found lines e
      → Found (line ∷ lines) e
  later line lines e (inl h) = inl h
  later line lines e (inr h) = inr (inr h)

  kept_or_claimed :
      (existing : List CustomerAddressbookEntry) → All (Found (rest_of existing)) existing
  unfolding keep preserved
  kept_or_claimed [] = tt
  kept_or_claimed (e ∷ es) = elim (Bool-cases (has e.internal_id claimed)) [
    | inl yes_claimed ↦
        let same : rest_of es ≡ rest_of (e ∷ es) = rw yes_claimed refl in
        (inl yes_claimed, subst (λ (ls : List Line). All (Found ls) es) same (kept_or_claimed es))
    | inr free ↦
        let more : preserved b s e ∷ rest_of es ≡ rest_of (e ∷ es) = rw free refl in
        subst (λ (ls : List Line). All (Found ls) (e ∷ es)) more
          (
            inr (inl refl),
            All-map (Found (rest_of es)) _ (later (preserved b s e) (rest_of es)) es
                (kept_or_claimed es),
          )
  ]

with_preserved-Kept :
    (existing : List CustomerAddressbookEntry) (r : List Line × List String)
    → IsBacked r
    → All
        (λ (e : CustomerAddressbookEntry). HasEntry e.internal_id (with_preserved existing r))
        existing
unfolding with_preserved
with_preserved-Kept existing (out, claimed) backed =
    All-map
      (Found (some_billing out) (some_shipping out) claimed
        (rest_of (some_billing out) (some_shipping out) claimed existing))
      _
      (λ e found. elim found [
        | inl is_claimed ↦ HasEntry-front e.internal_id out _ (backed e.internal_id is_claimed)
        | inr in_rest ↦ HasEntry-back e.internal_id out _ in_rest
      ])
      existing (kept_or_claimed (some_billing out) (some_shipping out) claimed existing)

-- If the order brings an address with content, the merged addressbook has a line for every entry
-- that the customer had: none is dropped.
pub merged_lines-Kept :
    (addresses : OrderAddressesForCustomer) (existing : List CustomerAddressbookEntry)
    (shopify_id_field : String)
    → HasNoAddress (some shopify_id_field) addresses
      ⊎ All
          (λ (e : CustomerAddressbookEntry).
            HasEntry e.internal_id (build_addressbook_merged addresses existing shopify_id_field))
          existing
unfolding build_addressbook_merged merged_lines
merged_lines-Kept addresses existing shopify_id_field = by_sides _ _
  where
    by_sides :
        (billing shipping : Option Fields)
        → ((billing ≡ none) × (shipping ≡ none))
          ⊎ All
              (λ (e : CustomerAddressbookEntry).
                HasEntry e.internal_id (merged_lines addresses existing billing shipping))
              existing
    by_sides none none = inl (refl, refl)
    by_sides (some b) shipping =
        inr (with_preserved-Kept existing _ (order_lines-IsBacked _ _ _ (some b) shipping))
    by_sides none (some s) =
        inr (with_preserved-Kept existing _ (order_lines-IsBacked _ _ _ none (some s)))
