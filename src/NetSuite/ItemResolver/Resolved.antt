-- ===== src/NetSuite/ItemResolver/Resolved.antt =====
-- What the resolver makes of each line.
use dp_integrator.Base.{
  ℕ, suc, String, Bool, true, false, Option, none, some, List, [], ◌∷◌, M, Result, ok, throws, pure,
  resume, ◌≡◌, refl, ◌⊎◌, inl, inr, ◌∙◌, sym, subst, str_eq, Bool-cases,
}
use dp_integrator.Base.Value.{get_field-set_field, Value, Fields, get_field, set_field}
use dp_integrator.Engine.MappingResult.{MappingResult, mapped, parked}
use dp_integrator.NetSuite.Gateway.{NetSuiteGateway}
use dp_integrator.NetSuite.Lines.{lines_of, field_of, lines_of-set_field, lines_of-other}
use dp_integrator.NetSuite.ItemResolver.{
  ItemRef, no_ref, resolved_id, sku, item_ref, with_item, by_answer, by_ref, resolve_line, in_front,
  go_on, resolve_sublist, is_object, after_items, with_shipping, resolve_item_references, miss,
}

module _ {E : Type 0} (ns : NetSuiteGateway E) (ns_account_id : String) where
  -- NetSuite gave this answer for the sku.
  abbrev pub Answers : String → Option String → Type 0
  Answers id answer = (e : E) × ((ns.resolve_item_id ns_account_id id e).0 ≡ ok answer)

  module _ (fallback : Option String) where
    -- What a line with such a reference becomes.
    abbrev pub BecomesBy : ItemRef → Value → Value → Type 0
    BecomesBy no_ref line v = v ≡ line
    BecomesBy (resolved_id id) line v = v ≡ with_item id line
    BecomesBy (sku id) line v =
        ((internal_id : String) × Answers id (some internal_id) × (v ≡ with_item internal_id line))
        ⊎ ((default : String) × Answers id none
            × (fallback ≡ some default)
            × (v ≡ with_item default line))

    abbrev pub Becomes : Value → Value → Type 0
    Becomes line v = BecomesBy (item_ref (field_of "item" line)) line v

    -- Line by line.
    abbrev pub AllBecome : List Value → List Value → Type 0
    AllBecome [] [] = Unit
    AllBecome [] (v ∷ vs) = ⊥
    AllBecome (line ∷ lines) [] = ⊥
    AllBecome (line ∷ lines) (v ∷ vs) = Becomes line v × AllBecome lines vs

    -- There is an item that NetSuite does not know, and nothing stands in for it.
    abbrev pub Missing : List Value → Type 0
    Missing [] = ⊥
    Missing (line ∷ lines) =
        ((id : String) × (item_ref (field_of "item" line) ≡ sku id)
          × Answers id none
          × (fallback ≡ none))
        ⊎ Missing lines

    abbrev pub LineDone : Value → Result (MappingResult Value) → Type 0
    LineDone line (ok (mapped v)) = Becomes line v
    LineDone line (ok (parked r)) = Missing (line ∷ [])
    LineDone line (throws e) = Unit

    abbrev pub SublistDone : List Value → Result (MappingResult (List Value)) → Type 0
    SublistDone lines (ok (mapped vs)) = AllBecome lines vs
    SublistDone lines (ok (parked r)) = Missing lines
    SublistDone lines (throws e) = Unit

    module _ (name : String) where
      by_answer-Done :
          (answer : Option String) (idx : ℕ) (line : Value) (id : String)
          → item_ref (field_of "item" line) ≡ sku id
          → Answers id answer
          → LineDone line (ok (by_answer ns ns_account_id name fallback idx line id answer))
      unfolding by_answer miss
      by_answer-Done (some internal_id) idx line id is a = rw is (inl (internal_id, a, refl))
      by_answer-Done none idx line id is a = by_fallback fallback refl
        where
          by_fallback :
              (f : Option String)
              → fallback ≡ f
              → LineDone line (ok (by_answer ns ns_account_id name f idx line id none))
          by_fallback (some default) e = rw is (inr (default, a, e, refl))
          by_fallback none e = inl (id, is, a, e)

      answered :
          (idx : ℕ) (line : Value) (id : String) (r : Result (Option String) × E)
          → item_ref (field_of "item" line) ≡ sku id
          → ((answer : Option String) → r.0 ≡ ok answer → Answers id answer)
          → LineDone line
              (resume r
                (λ answer. pure (by_answer ns ns_account_id name fallback idx line id answer))).0
      answered idx line id (ok answer, e) is h =
          by_answer-Done answer idx line id is (h answer refl)
      answered idx line id (throws x, e) is h = tt

      by_ref-Done :
          (ref : ItemRef) (idx : ℕ) (line : Value) (e : E)
          → item_ref (field_of "item" line) ≡ ref
          → LineDone line (by_ref ns ns_account_id name fallback idx line ref e).0
      unfolding by_ref
      by_ref-Done no_ref idx line e is = rw is refl
      by_ref-Done (resolved_id id) idx line e is = rw is refl
      by_ref-Done (sku id) idx line e is =
          answered idx line id (ns.resolve_item_id ns_account_id id e) is (λ answer h. (e, h))

      in_front-Done :
          (line : Value) (lines : List Value) (v : Value) (vs : MappingResult (List Value))
          → Becomes line v
          → SublistDone lines (ok vs)
          → SublistDone (line ∷ lines) (ok (in_front ns ns_account_id name v vs))
      unfolding in_front
      in_front-Done line lines v (mapped vs) b d = (b, d)
      in_front-Done line lines v (parked r) b d = inr d

      going_on :
          (line : Value) (lines : List Value) (v : Value)
          (r : Result (MappingResult (List Value)) × E)
          → Becomes line v
          → SublistDone lines r.0
          → SublistDone
              (line ∷ lines)
              (resume r (λ vs. pure (in_front ns ns_account_id name v vs))).0
      going_on line lines v (ok vs, e) b d = in_front-Done line lines v vs b d
      going_on line lines v (throws x, e) b d = tt

      go_on-Done :
          (line : Value) (lines : List Value) (r : Result (MappingResult Value) × E)
          (rest : M E (MappingResult (List Value)))
          → LineDone line r.0
          → ((e : E) → SublistDone lines (rest e).0)
          → SublistDone (line ∷ lines) (resume r (λ one. go_on ns ns_account_id name one rest)).0
      unfolding go_on
      go_on-Done line lines (ok (mapped v), e) rest d h = going_on line lines v (rest e) d (h e)
      go_on-Done line lines (ok (parked r), e) rest (inl d) h = inl d
      go_on-Done line lines (ok (parked r), e) rest (inr d) h = elim d [ ]
      go_on-Done line lines (throws x, e) rest d h = tt

      resolve_sublist-Done :
          (lines : List Value) (idx : ℕ) (e : E)
          → SublistDone lines (resolve_sublist ns ns_account_id name fallback idx lines e).0
      unfolding resolve_sublist resolve_line
      resolve_sublist-Done [] idx e = tt
      resolve_sublist-Done (line ∷ lines) idx e =
          go_on-Done line lines _ _ (by_ref-Done (item_ref (field_of "item" line)) idx line e refl)
            (λ e'. resolve_sublist-Done lines (suc idx) e')

module _ {E : Type 0} (ns : NetSuiteGateway E) (ns_account_id : String) (fallback : Option String)
    (payload : Fields) where
  -- What became of the two sublists, and of the other fields.
  abbrev pub Resolved : Result (MappingResult Fields) → Type 0
  Resolved (ok (mapped q)) =
      AllBecome ns ns_account_id fallback (lines_of "item" payload) (lines_of "item" q)
      × ((is_object (get_field "shipping" payload) ≡ false)
          ⊎ AllBecome ns ns_account_id none (lines_of "shipping" payload) (lines_of "shipping" q))
      × ((k : String)
          → (str_eq "item" k ≡ true)
            ⊎ (str_eq "shipping" k ≡ true)
            ⊎ (get_field k q ≡ get_field k payload))
  Resolved (ok (parked r)) =
      Missing ns ns_account_id fallback (lines_of "item" payload)
      ⊎ Missing ns ns_account_id none (lines_of "shipping" payload)
  Resolved (throws e) = Unit

  kept :
      (k : String) (v u : Value)
      → (str_eq "item" k ≡ true)
        ⊎ (str_eq "shipping" k ≡ true)
        ⊎ (get_field k (set_field "shipping" u (set_field "item" v payload)) ≡ get_field k payload)
  kept k v u = elim (Bool-cases (str_eq "item" k)) [
    | inl item ↦ inl item
    | inr other ↦ elim (Bool-cases (str_eq "shipping" k)) [
      | inl shipping ↦ inr (inl shipping)
      | inr third ↦
          inr (inr (rw (get_field-set_field, get_field-set_field) (rw (other, third) refl)))
    ]
  ]

  shipped :
      (items : List Value) (r : Result (MappingResult (List Value)) × E)
      → AllBecome ns ns_account_id fallback (lines_of "item" payload) items
      → SublistDone ns ns_account_id none (lines_of "shipping" payload) r.0
      → Resolved
          (resume r (λ shipping. pure (with_shipping ns ns_account_id payload items shipping))).0
  unfolding with_shipping
  shipped items (ok (mapped shipping), e) i s = (
    subst (AllBecome ns ns_account_id fallback (lines_of "item" payload))
        (sym (lines_of-other "item" "shipping" _ _ refl ∙ lines_of-set_field "item" items payload))
        i,
    inr (
        subst (AllBecome ns ns_account_id none (lines_of "shipping" payload))
          (sym (lines_of-set_field "shipping" shipping _)) s),
    λ k. kept k _ _,
  )
  shipped items (ok (parked reason), e) i s = inr s
  shipped items (throws x, e) i s = tt

  by_shipping :
      (has_shipping : Bool) (items : List Value) (e : E)
      → is_object (get_field "shipping" payload) ≡ has_shipping
      → AllBecome ns ns_account_id fallback (lines_of "item" payload) items
      → Resolved (after_items ns ns_account_id payload has_shipping (mapped items) e).0
  unfolding after_items
  by_shipping false items e h i = (
    subst (AllBecome ns ns_account_id fallback (lines_of "item" payload))
        (sym (lines_of-set_field "item" items payload)) i,
    inl h,
    λ k. elim (Bool-cases (str_eq "item" k)) [
      | inl item ↦ inl item
      | inr other ↦ inr (inr (rw get_field-set_field (rw other refl)))
    ],
  )
  by_shipping true items e h i =
      shipped items _ i
        (resolve_sublist-Done ns ns_account_id none "shipping" (lines_of "shipping" payload) 0 e)

  by_items :
      (r : Result (MappingResult (List Value)) × E)
      → SublistDone ns ns_account_id fallback (lines_of "item" payload) r.0
      → Resolved
          (resume r (λ items.
            after_items ns ns_account_id payload
              (is_object (get_field "shipping" payload))
              items)).0
  by_items (ok (mapped items), e) d = by_shipping _ items e refl d
  by_items (ok (parked reason), e) d = unfold after_items in inl d
  by_items (throws x, e) d = tt

  -- If the items of a payload are resolved, each line with an id that is not marked has an internal
  -- id that NetSuite gave for it, or, for a line item that NetSuite does not know, the fallback;
  -- lines without an id stay as they are, a marked id is kept without its mark, and the other
  -- fields of the payload stay; if the payload is parked, some line has an id that NetSuite does
  -- not know and no fallback.
  pub resolve_item_references-Resolved :
      (e : E) → Resolved (resolve_item_references ns ns_account_id payload fallback e).0
  unfolding resolve_item_references
  resolve_item_references-Resolved e =
      by_items _
        (resolve_sublist-Done ns ns_account_id fallback "item" (lines_of "item" payload) 0 e)
