-- ===== src/Base/Effects.antt =====
-- A computation that returns or throws, and one that also changes a state. An exception keeps the
-- changes made before it, as it does in the code.
use Prim.Native.Nat.{ℕ}
use Prim.Native.String.{String}
use mathlib.Core.Bool.{Bool}
use mathlib.Core.Option.{Option}
use mathlib.Core.List.{List}
use dp_integrator.Base.Value.{Value}

-- A response of NetSuite, as the gateway keeps it on a result or an error.
pub record NsResponse : Type 0 where
  pub status : Option ℕ
  pub body : Value

-- What the code reads of a `NetSuiteError` of netsuite-sdk.
pub record NsError : Type 0 where
  pub is_auth_error : Bool
  pub is_retryable : Bool
  pub status : Option ℕ
  pub code : Option String
  pub detail_codes : List (Option String)
  pub message : String
  pub raw_response : Option NsResponse

-- What the code throws, as far as its handlers tell it apart.
pub data Thrown : Type 0 where
  plain_error : (message : String) → Thrown
  order_not_found : (order_gid shop_domain : String) → Thrown
  netsuite_error : NsError → Thrown
  other_value : String → Thrown

pub data Result {ℓ} (A : Type ℓ) : Type ℓ where
  ok : A → Result A
  throws : Thrown → Result A

-- A method of an object with state `S`.
abbrev pub M : Type 0 → Type 0 → Type 0
M S A = S → Result A × S

abbrev pub resume : {S A B : Type 0} → Result A × S → (A → M S B) → Result B × S
resume (ok a, s) f = f a s
resume (throws e, s) f = (throws e, s)

infixl 5 ◌>>=◌ ◌>>◌
abbrev pub ◌>>=◌ : {S A B : Type 0} → M S A → (A → M S B) → M S B
◌>>=◌ m f s = resume (m s) f

abbrev pub ◌>>◌ : {S A B : Type 0} → M S A → M S B → M S B
◌>>◌ m k s = resume (m s) (λ _. k)

abbrev pub pure : {S A : Type 0} → A → M S A
pure a s = (ok a, s)

abbrev pub lift : {S A : Type 0} → Result A → M S A
lift r s = (r, s)

abbrev pub throw : {S A : Type 0} → Thrown → M S A
throw e s = (throws e, s)

-- A computation that changes nothing, and what goes on with its result.
abbrev pub and_then {ℓ} : {A : Type ℓ} → {B : Type ℓ} → Result A → (A → Result B) → Result B
and_then (ok a) f = f a
and_then (throws e) f = throws e
