-- ===== src/Engine/MappingResult.antt =====
-- packages/mapping-engine/src/result.ts: a mapping succeeds or parks the order. `unmapped_construct` is
-- the one reason to park.
use dp_integrator.Base.{String, Option}
use dp_integrator.Base.Value.{Fields}

pub record ParkReason : Type 0 where
  pub detail : String
  pub construct : Option String
  pub evidence : Option Fields

pub data MappingResult (A : Type 0) : Type 0 where
  mapped : A → MappingResult A
  parked : ParkReason → MappingResult A
