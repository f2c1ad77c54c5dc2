-- ===== src/Core/Xref/Exclusive.antt =====
-- Interleaved calls of several deliveries on the ledger, packages/core/src/xref/xref-store.ts.
use dp_integrator.Base.{
  ℕ, suc, ◌≤◌, String, ◌≡◌, refl, Bool, true, false, none, List, [], ◌∷◌, ok, throws, Bool-cases,
  inl, inr, eq_iff, Result, arith, if◌then◌else◌, is_some, ◌&&◌,
}
use dp_integrator.Core.DedupKey.{dedup_key}
use dp_integrator.Core.Xref.{ClaimInput, ClaimResult, claimed, XrefStore, claim}
use dp_integrator.Core.Xref.Machine.{
  Call, claims, removes, after, next, status_at, is_key, after-next,
}

-- A history of calls, one after the other.
pub run : List Call → XrefStore → XrefStore
run [] s = s
run (c ∷ cs) s = run cs (after c s)

-- Does the call win the key, by the outcome `claimed`?
unfoldable pub is_claimed : Result ClaimResult → Bool
is_claimed (ok (claimed _)) = true
is_claimed _ = false

unfoldable pub won : String → Call → XrefStore → Bool
unfolding is_claimed
won key (claims i) s = is_key key (dedup_key i.parts) && is_claimed (claim i s).0
won key _ s = false

pub wins : String → List Call → XrefStore → ℕ
wins key [] s = 0
wins key (c ∷ cs) s = let rest = wins key cs (after c s) in if won key c s then suc rest else rest

-- The key is not removed on the way.
abbrev pub Kept : String → List Call → Type 0
Kept key [] = Unit {0}
Kept key (removes p ∷ cs) = (is_key key (dedup_key p) ≡ false) × Kept key cs
Kept key (_ ∷ cs) = Kept key cs

abbrev pub Taken : String → XrefStore → Type 0
Taken key s = is_some (status_at key s) ≡ true

pub claimed-none :
    (key : String) (i : ClaimInput) (s : XrefStore) (r : Result String)
    → dedup_key i.parts ≡ r
    → (is_key key r && is_claimed (claim i s).0) ≡ true
    → status_at key s ≡ none
unfolding is_claimed claim
claimed-none key i s (ok k) e h = ground (arith, eq_iff k key)
claimed-none key i s (throws _) e h = cc

pub won-none :
    (key : String) (c : Call) (s : XrefStore) → won key c s ≡ true → status_at key s ≡ none
unfolding won
won-none key (claims i) s h = claimed-none key i s (dedup_key i.parts) refl h
won-none key c s h = cc

pub won-Taken :
    (key : String) (c : Call) (s : XrefStore) → won key c s ≡ true → Taken key (after c s)
unfolding won next
won-Taken key (claims i) s h =
    ground (arith, after-next key (claims i) s, won-none key (claims i) s)
won-Taken key c s h = cc

Kept-tail : (key : String) (c : Call) (cs : List Call) → Kept key (c ∷ cs) → Kept key cs
Kept-tail key (removes p) cs k = k.1
Kept-tail key (claims i) cs k = k
Kept-tail key c cs k = k

stays_Taken :
    (key : String) (c : Call) (cs : List Call) (s : XrefStore)
    → Kept key (c ∷ cs)
    → Taken key s
    → Taken key (after c s) × Kept key cs
unfolding next
stays_Taken key (claims i) cs s k t = ground (arith, after-next key (claims i) s)
stays_Taken key c cs s k t = ground (arith, after-next key c s)

wins-Taken :
    (key : String) (cs : List Call) (s : XrefStore) → Kept key cs → Taken key s → wins key cs s ≡ 0
unfolding wins
wins-Taken key [] s k t = refl
wins-Taken key (c ∷ cs) s k t =
    let (t', k') = stays_Taken key c cs s k t in
    ground (arith, won-none key c s, wins-Taken key cs (after c s) k' t')

-- From any state of the xref ledger, a history of its calls that does not remove the key lets at
-- most one claim win it, whatever else happens in between.
pub wins-le-one : (key : String) (cs : List Call) (s : XrefStore) → Kept key cs → wins key cs s ≤ 1
unfolding wins
wins-le-one key [] s k = omega arith
wins-le-one key (c ∷ cs) s k = elim (Bool-cases (won key c s)) [
  | inl h ↦
      rw (h, wins)
        (omega (arith, wins-Taken key cs (after c s) (Kept-tail key c cs k) (won-Taken key c s h)))
  | inr h ↦ rw (h, wins) (wins-le-one key cs (after c s) (Kept-tail key c cs k))
]
