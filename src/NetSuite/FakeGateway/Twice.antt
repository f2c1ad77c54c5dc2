-- ===== src/NetSuite/FakeGateway/Twice.antt =====
-- Two writes with one external id to the fake gateway, packages/netsuite-client/src/fake-gateway.ts.
use mathlib.Core.Option.{some-injective}
use dp_integrator.Base.{
  Thrown, ◌∷◌, String, Bool, true, false, Option, none, some, List, [], Result, ok, throws, ◌≡◌,
  refl, ap, sym, subst, suc, ◌∙◌, ◌⊎◌, inl, inr, Bool-cases, not, is_some, arith, str_eq,
  if◌then◌else◌, eq_refl, or_else,
}
use dp_integrator.Base.Dict.{Dict, get, set, get-set}
use dp_integrator.Base.Value.{Fields}
use dp_integrator.NetSuite.Gateway.{UpsertResult}
use dp_integrator.NetSuite.FakeGateway.{
  Rec, Fake, bucket, set_bucket, write_record, shift_failure, upsert_by_external_id,
}

one_or_other :
    (b : Bool) (records : Dict Rec) (d : Option (Dict Rec))
    → or_else (if b then some records else d) [] ≡ (if b then records else or_else d [])
one_or_other true records d = refl
one_or_other false records d = refl

pub bucket-set_bucket :
    (a t b u : String) (records : Dict Rec) (s : Fake)
    → bucket b u (set_bucket a t records s)
      ≡ (if str_eq a b then if str_eq t u then records else bucket a u s else bucket b u s)
unfolding bucket set_bucket
bucket-set_bucket a t b u records s = elim (Bool-cases (str_eq a b)) [
  | inl same ↦ rw get-set (rw same (rw get-set (one_or_other (str_eq t u) records _)))
  | inr other ↦ rw get-set (rw other refl)
]

-- A write without a queued failure: what it answers, and the record that is there after it.
abbrev pub Wrote : (a t x : String) → Fields → Fake → Result UpsertResult × Fake → Type 0
Wrote a t x payload s (throws e, v) = ⊥
Wrote a t x payload s (ok u, v) =
    (get x (bucket a t v) ≡ some (record { internal_id = u.internal_id; payload = payload }))
    × (u.created ≡ not (is_some (get x (bucket a t s))))
    × ((y : String) → (str_eq x y ≡ true) ⊎ (get y (bucket a t v) ≡ get y (bucket a t s)))
    × (v.failures ≡ s.failures)
    × ((get x (bucket a t s) ≡ none)
        ⊎ ((r : Rec) × (get x (bucket a t s) ≡ some r) × (r.internal_id ≡ u.internal_id)))

other_or_same :
    (x y : String) (r : Rec) (records : Dict Rec)
    → (str_eq x y ≡ true) ⊎ (get y (set x r records) ≡ get y records)
other_or_same x y r records = elim (Bool-cases (str_eq x y)) [
  | inl same ↦ inl same
  | inr other ↦ inr (rw get-set (rw other refl))
]

pub same_bucket :
    (a t : String) (records : Dict Rec) (s : Fake) → bucket a t (set_bucket a t records s) ≡ records
same_bucket a t records s =
    bucket-set_bucket a t a t records s ∙ ground (arith, eq_refl a, eq_refl t)

get-set_same : (x : String) (r : Rec) (records : Dict Rec) → get x (set x r records) ≡ some r
get-set_same x r records = ground (arith, get-set x x r records, eq_refl x)

write_record-Wrote :
    (a t x : String) (payload : Fields) (m : Option Rec) (s : Fake)
    → get x (bucket a t s) ≡ m
    → Wrote a t x payload s (write_record a t x payload m s)
unfolding write_record
write_record-Wrote a t x payload (some r) s e =
    let b = same_bucket a t (set x (record r { payload = payload }) (bucket a t s)) s in
    (
      ap (get x) b ∙ get-set_same x _ _,
      rw e refl,
      λ y.
          subst
            (λ (records : Dict Rec). (str_eq x y ≡ true) ⊎ (get y records ≡ get y (bucket a t s)))
            (sym b) (other_or_same x y _ _),
      unfold set_bucket in refl,
      inr (r, e, refl),
    )
write_record-Wrote a t x payload none s e =
    let b =
      same_bucket a t (set x _ (bucket a t s))
        (record s { internal_id_seq = suc s.internal_id_seq }) in
    (
      ap (get x) b ∙ get-set_same x _ _,
      rw e refl,
      λ y.
          subst
            (λ (records : Dict Rec). (str_eq x y ≡ true) ⊎ (get y records ≡ get y (bucket a t s)))
            (sym b) (other_or_same x y _ _),
      unfold set_bucket in refl,
      inl e,
    )

-- A call with no failure in the queue.
pub upsert-Wrote :
    (failures : List Thrown) (a t x : String) (payload : Fields) (s : Fake)
    → failures ≡ []
    → Wrote a t x payload s
        (shift_failure failures a t x payload (record s { attempts = suc s.attempts }))
unfolding shift_failure bucket
upsert-Wrote [] a t x payload s e =
    write_record-Wrote a t x payload _ (record s { attempts = suc s.attempts }) refl
upsert-Wrote (f ∷ fs) a t x payload s e = absurd (cc (e))

-- One record of the external id, with the payload of the second call, and nothing else in its bucket moved.
abbrev pub IsOneRecord :
    (a t x : String) → Fields → Fake → Result UpsertResult → Result UpsertResult × Fake → Type 0
IsOneRecord a t x q s (ok u) (ok v, w) =
    (v.internal_id ≡ u.internal_id)
    × (v.created ≡ false)
    × (u.created ≡ not (is_some (get x (bucket a t s))))
    × (get x (bucket a t w) ≡ some (record { internal_id = u.internal_id; payload = q }))
    × ((y : String) → (str_eq x y ≡ true) ⊎ (get y (bucket a t w) ≡ get y (bucket a t s)))
IsOneRecord a t x q s _ _ = ⊥

unmoved_twice :
    (x y : String) (p q r : Dict Rec)
    → (str_eq x y ≡ true) ⊎ (get y q ≡ get y p)
    → (str_eq x y ≡ true) ⊎ (get y r ≡ get y q)
    → (str_eq x y ≡ true) ⊎ (get y r ≡ get y p)
unmoved_twice x y p q r (inl h) k = inl h
unmoved_twice x y p q r (inr h) (inl k) = inl k
unmoved_twice x y p q r (inr h) (inr k) = inr (k ∙ h)

pub second-IsOneRecord :
    (a t x : String) (p q : Fields) (s : Fake) (r : Result UpsertResult × Fake)
    (r' : Result UpsertResult × Fake)
    → Wrote a t x p s r
    → Wrote a t x q r.1 r'
    → IsOneRecord a t x q s r.0 r'
second-IsOneRecord a t x p q s (ok u, v) (ok u', v') (is, made, others, f, old)
      (is', made', others', f', old') =
    let same : u'.internal_id ≡ u.internal_id = elim old' [
      | inl gone ↦ absurd (cc (gone, is))
      | inr (r, found, id) ↦
          sym id ∙ ap (λ (rec : Rec). rec.internal_id) (some-injective _ _ (sym found ∙ is))
    ] in
    (
      same,
      made' ∙ rw is refl,
      made,
      is' ∙ ap (λ (id : String). some (record { internal_id = id; payload = q })) same,
      λ y. unmoved_twice x y (bucket a t s) (bucket a t v) (bucket a t v') (others y) (others' y),
    )
second-IsOneRecord a t x p q s (ok u, v) (throws e, v') d no_write = elim no_write [ ]
second-IsOneRecord a t x p q s (throws e, v) r' no_write d = elim no_write [ ]

-- In the in-memory NetSuite without queued failures, two upserts of one external id leave one
-- record, with the payload of the second and the internal id of the first, and every other record
-- of the type as it was; only the first can create it, and does so exactly if the record was not
-- there.
pub upsert_by_external_id_twice :
    (ns_account_id record_type external_id : String) (p q : Fields) (s : Fake)
    → s.failures ≡ []
    → IsOneRecord ns_account_id record_type external_id q s
        (upsert_by_external_id ns_account_id record_type external_id p s).0
        (upsert_by_external_id ns_account_id record_type external_id q
          (upsert_by_external_id ns_account_id record_type external_id p s).1)
unfolding upsert_by_external_id
upsert_by_external_id_twice a t x p q s e =
    let first = upsert-Wrote s.failures a t x p s e in
    second-IsOneRecord a t x p q s _ _ first (upsert-Wrote _ a t x q _ (left_empty _ first))
  where
    left_empty : (r : Result UpsertResult × Fake) → Wrote a t x p s r → r.1.failures ≡ []
    left_empty (ok u, v) (is, made, others, f, old) = f ∙ e
    left_empty (throws x, v) no_write = elim no_write [ ]
