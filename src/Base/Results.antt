-- ===== src/Base/Results.antt =====
-- Python's exceptions as values.
use Prim.Native.String.{String}
use mathlib.Core.Bool.{Bool, true, false}

pub data Exception : Type 0 where
  type_error : Exception
  value_error : String → Exception
  key_error : Exception

pub data Result {ℓ} (X : Type ℓ) : Type ℓ where
  ok : X → Result X
  raise : Exception → Result X

-- A block goes on with the value of a step that raises nothing.
infixl 5 ◌>>=◌
abbrev pub ◌>>=◌ {ℓ κ} : {X : Type ℓ} {Y : Type κ} → Result X → (X → Result Y) → Result Y
raise e >>= next = raise e
ok x >>= next = next x

-- `if not test: raise e`
abbrev pub require : Bool → Exception → Result (Unit {0})
require false e = raise e
require true e = ok tt

infixl 5 ◌>>◌
abbrev pub ◌>>◌ {ℓ} : {Y : Type ℓ} → Result (Unit {0}) → Result Y → Result Y
test >> next = test >>= λ _. next
