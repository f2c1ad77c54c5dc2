-- ===== src/Core/Governor/Contract.antt =====
-- `GovernorBackingStore`, as its clients see it: the calls on a store of type `S`.
use dp_integrator.Base.{ℕ, String, Bool, M}

pub record BackingStore (S : Type 0) : Type 0 where
  pub try_acquire : String → String → M S Bool
  pub release : String → String → M S (Unit {0})
  pub in_flight : String → S → ℕ
