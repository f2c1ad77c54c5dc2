-- ===== src/Functions/Customer/OneDefault.antt =====
-- The defaults of an addressbook.
use dp_integrator.Base.{
  ℕ, ◌+◌, String, Bool, true, false, not, Option, none, some, List, [], ◌∷◌, ◌++◌, map, keep, ◌≡◌,
  refl, ap, ◌∙◌, ◌⊎◌, inl, inr, arith, Bool-cases,
}
use dp_integrator.Base.Value.{Fields}
use dp_integrator.Base.Text.{truthy}
use dp_integrator.Base.Set.{has}
use dp_integrator.Base.Dict.{Dict}
use dp_integrator.NetSuite.Gateway.{CustomerAddressbookEntry}
use dp_integrator.Functions.Customer.Addressbook.{
  OrderAddressesForCustomer, Line, incoming, legacy_lines, build_addressbook_legacy, claim_entry,
  find_entry, both_sides, one_side, order_lines, preserved, some_billing, some_shipping,
  with_preserved, merged_lines, build_addressbook_merged, addressbook_lines, HasNoAddress,
  same_json, index_entries, id_of, same_text,
}

abbrev bit : Bool → ℕ
bit true = 1
bit false = 0

pub billing_defaults : List Line → ℕ
billing_defaults [] = 0
billing_defaults (line ∷ lines) = bit line.default_billing + billing_defaults lines

pub shipping_defaults : List Line → ℕ
shipping_defaults [] = 0
shipping_defaults (line ∷ lines) = bit line.default_shipping + shipping_defaults lines

-- One default of either kind.
abbrev pub HasOneDefault : List Line → Type 0
HasOneDefault lines = (billing_defaults lines ≡ 1) × (shipping_defaults lines ≡ 1)

legacy_lines-OneDefault :
    (billing shipping : Option Fields)
    → ((billing ≡ none) × (shipping ≡ none)) ⊎ HasOneDefault (legacy_lines billing shipping)
unfolding legacy_lines incoming billing_defaults shipping_defaults
legacy_lines-OneDefault none none = inl (refl, refl)
legacy_lines-OneDefault (some b) none = inr (refl, refl)
legacy_lines-OneDefault none (some s) = inr (refl, refl)
legacy_lines-OneDefault (some b) (some s) = elim (Bool-cases (same_json b s)) [
  | inl same ↦ rw same (inr (refl, refl))
  | inr other ↦ rw other (inr (refl, refl))
]

-- The flags of a line do not change when it claims an entry.
claim-flags :
    (m : Option CustomerAddressbookEntry) (line : Line) (claimed : List String)
    → ((claim_entry m line claimed).0.default_billing ≡ line.default_billing)
      × ((claim_entry m line claimed).0.default_shipping ≡ line.default_shipping)
unfolding claim_entry
claim-flags none line claimed = (refl, refl)
claim-flags (some e) line claimed = (refl, refl)

module _ (byId : Dict CustomerAddressbookEntry) (billing_id shipping_id : Option String) where
  one_side-OneDefault :
      (id : Option String) (label : String) (address : Fields)
      → HasOneDefault (one_side byId billing_id shipping_id id label address).0
  unfolding one_side incoming billing_defaults shipping_defaults
  one_side-OneDefault id label address =
      let (b, s) =
        claim-flags (find_entry (truthy id) byId) (incoming true true label address) [] in
      (rw b refl, rw s refl)

  both_sides-OneDefault :
      (billing shipping : Fields)
      → HasOneDefault (both_sides byId billing_id shipping_id billing shipping).0
  unfolding both_sides incoming billing_defaults shipping_defaults
  both_sides-OneDefault billing shipping =
      let (b, s) =
        claim-flags (find_entry (truthy billing_id) byId) (incoming true false "Billing" billing)
          [] in
      let (b', s') =
        claim-flags (find_entry (truthy shipping_id) byId) (incoming false true "Shipping" shipping)
          (claim_entry (find_entry (truthy billing_id) byId) (incoming true false "Billing" billing)
            []).1 in
      (rw (b, b') refl, rw (s, s') refl)

  order_lines-OneDefault :
      (billing shipping : Option Fields)
      → ((order_lines byId billing_id shipping_id billing shipping ≡ ([], []))
          × (billing ≡ none)
          × (shipping ≡ none))
        ⊎ HasOneDefault (order_lines byId billing_id shipping_id billing shipping).0
  unfolding order_lines
  order_lines-OneDefault none none = inl (refl, refl, refl)
  order_lines-OneDefault (some b) none = elim (Bool-cases (same_text billing_id shipping_id)) [
    | inl same ↦ rw same (inr (one_side-OneDefault billing_id "Default" b))
    | inr other ↦ rw other (inr (one_side-OneDefault billing_id "Billing" b))
  ]
  order_lines-OneDefault none (some s) = inr (one_side-OneDefault shipping_id "Shipping" s)
  order_lines-OneDefault (some b) (some s) = elim (Bool-cases (same_text billing_id shipping_id)) [
    | inl same ↦ rw same (inr (one_side-OneDefault billing_id "Default" b))
    | inr other ↦ rw other (inr (both_sides-OneDefault b s))
  ]

in_billing : (lines : List Line) → billing_defaults lines ≡ 1 → some_billing lines ≡ true
unfolding billing_defaults some_billing
in_billing [] h = ground (arith, h)
in_billing (line ∷ lines) h = ground (arith, h, in_billing lines)

in_shipping : (lines : List Line) → shipping_defaults lines ≡ 1 → some_shipping lines ≡ true
unfolding shipping_defaults some_shipping
in_shipping [] h = ground (arith, h)
in_shipping (line ∷ lines) h = ground (arith, h, in_shipping lines)

some_of-defaults :
    (lines : List Line)
    → HasOneDefault lines
    → (some_billing lines ≡ true) × (some_shipping lines ≡ true)
some_of-defaults lines (b, s) = (in_billing lines b, in_shipping lines s)

preserved-Defaults :
    (out : List Line) (kept : List CustomerAddressbookEntry)
    → (billing_defaults (out ++ map (preserved true true) kept) ≡ billing_defaults out)
      × (shipping_defaults (out ++ map (preserved true true) kept) ≡ shipping_defaults out)
unfolding billing_defaults shipping_defaults preserved
preserved-Defaults [] [] = (refl, refl)
preserved-Defaults [] (e ∷ kept) =
    let (b, s) = preserved-Defaults [] kept in (omega (arith, b), omega (arith, s))
preserved-Defaults (line ∷ out) kept =
    let (b, s) = preserved-Defaults out kept in
    (
      ap (λ (n : ℕ). bit line.default_billing + n) b,
      ap (λ (n : ℕ). bit line.default_shipping + n) s,
    )

with_preserved-OneDefault :
    (existing : List CustomerAddressbookEntry) (r : List Line × List String)
    → HasOneDefault r.0
    → HasOneDefault (with_preserved existing r)
unfolding with_preserved
with_preserved-OneDefault existing (out, claimed) d =
    let (b, s) = some_of-defaults out d in
    let (b', s') = preserved-Defaults out (keep (λ e. not (has e.internal_id claimed)) existing) in
    rw (b, s) (b' ∙ d.0, s' ∙ d.1)

merged_lines-OneDefault :
    (addresses : OrderAddressesForCustomer) (existing : List CustomerAddressbookEntry)
    (billing shipping : Option Fields)
    → ((billing ≡ none) × (shipping ≡ none))
      ⊎ HasOneDefault (merged_lines addresses existing billing shipping)
unfolding merged_lines
merged_lines-OneDefault addresses existing none none = inl (refl, refl)
merged_lines-OneDefault addresses existing (some b) shipping =
    elim (order_lines-OneDefault (index_entries existing []) (id_of addresses.billing)
      (id_of addresses.shipping) (some b) shipping) [
        | inl (e, b_none, s_none) ↦ absurd (cc (b_none))
        | inr d ↦ inr (with_preserved-OneDefault existing _ d)
      ]
merged_lines-OneDefault addresses existing none (some s) =
    elim (order_lines-OneDefault (index_entries existing []) (id_of addresses.billing)
      (id_of addresses.shipping) none (some s)) [
        | inl (e, b_none, s_none) ↦ absurd (cc (s_none))
        | inr d ↦ inr (with_preserved-OneDefault existing _ d)
      ]

-- Whatever addressbook the customer has, if the order brings an address with content, the
-- addressbook that is written has exactly one default billing address and exactly one default
-- shipping address.
pub addressbook_lines-OneDefault :
    (id_field : Option String) (addresses : OrderAddressesForCustomer)
    (existing : List CustomerAddressbookEntry)
    → HasNoAddress id_field addresses
      ⊎ HasOneDefault (addressbook_lines id_field addresses existing)
unfolding addressbook_lines build_addressbook_legacy build_addressbook_merged
addressbook_lines-OneDefault none addresses existing = legacy_lines-OneDefault _ _
addressbook_lines-OneDefault (some id_field) addresses existing =
    merged_lines-OneDefault addresses existing _ _
