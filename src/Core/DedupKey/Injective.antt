-- ===== src/Core/DedupKey/Injective.antt =====
-- `dedupKey` of packages/core/src/id/dedup-key.ts on two entities.
use Prim.Native.Char.{Char}
use dp_integrator.Base.{String, ◌≡◌, false, List, [], ◌∷◌, Result, ok, arith, All}
use dp_integrator.Base.Text.{has_char, join, split_unique}
use dp_integrator.Core.Types.{
  environment_text, entity_type_text, system_text, environment_text-injective,
  entity_type_text-injective, system_text-injective,
}
use dp_integrator.Core.DedupKey.{DedupKeyParts, values, checked, dedup_key}

-- What the loop has checked when it lets the key through.
checked-All :
    (vs : List String) (k : Result String) (key : String)
    → checked vs k ≡ ok key
    → All (λ v. has_char b'|' v ≡ false) vs × (k ≡ ok key)
unfolding checked
checked-All [] k key e = (tt, e)
checked-All (v ∷ vs) k key e = ground (arith, checked-All vs k key)

abbrev bar : Char
bar = "|"

-- Five parts without the separator are read back from the joined text.
join-injective :
    (a b c d e a' b' c' d' e' : String)
    → All (λ v. has_char b'|' v ≡ false) (a ∷ b ∷ c ∷ d ∷ [])
    → All (λ v. has_char b'|' v ≡ false) (a' ∷ b' ∷ c' ∷ d' ∷ [])
    → join "|" (a ∷ b ∷ c ∷ d ∷ e ∷ []) ≡ join "|" (a' ∷ b' ∷ c' ∷ d' ∷ e' ∷ [])
    → (a ≡ a') × (b ≡ b') × (c ≡ c') × (d ≡ d') × (e ≡ e')
unfolding join
join-injective a b c d e a' b' c' d' e' (ha, (hb, (hc, (hd, _)))) (ha', (hb', (hc', (hd', _)))) p =
    let (pa, p₁) = split_unique bar a a' _ _ ha ha' p in
    let (pb, p₂) = split_unique bar b b' _ _ hb hb' p₁ in
    let (pc, p₃) = split_unique bar c c' _ _ hc hc' p₂ in
    let (pd, pe) = split_unique bar d d' _ _ hd hd' p₃ in (pa, pb, pc, pd, pe)

-- The path between two keys' parts, from those between the texts.
parts_eq :
    (p q : DedupKeyParts)
    → environment_text p.environment ≡ environment_text q.environment
    → p.connection_id ≡ q.connection_id
    → entity_type_text p.entity_type ≡ entity_type_text q.entity_type
    → system_text p.source_system ≡ system_text q.source_system
    → p.source_id ≡ q.source_id
    → p ≡ q
parts_eq p q e c t s i = λ j. record {
  environment = environment_text-injective p.environment q.environment e j;
  connection_id = c j;
  entity_type = entity_type_text-injective p.entity_type q.entity_type t j;
  source_system = system_text-injective p.source_system q.source_system s j;
  source_id = i j;
}

-- Two entities with the same dedup key are the same entity, whatever the connection and source ids
-- hold.
pub dedup_key-injective :
    (p q : DedupKeyParts) (key : String) → dedup_key p ≡ ok key → dedup_key q ≡ ok key → p ≡ q
unfolding dedup_key values
dedup_key-injective p q key hp hq =
    let (fp, kp) = checked-All (values p) _ key hp in
    let (fq, kq) = checked-All (values q) _ key hq in
    let (e, c, t, s, i) =
      join-injective _ _ _ _ _ _ _ _ _ _ (fp.0, (fp.1.0, (fp.1.1.0, (fp.1.1.1.0, tt))))
        (fq.0, (fq.1.0, (fq.1.1.0, (fq.1.1.1.0, tt)))) (cc (kp, kq)) in
    parts_eq p q e c t s i
