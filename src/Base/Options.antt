-- ===== src/Base/Options.antt =====
-- Chains of optional values.
use mathlib.Core.Option.{Option, none, some}

infixl 5 ◌>>=◌
abbrev pub ◌>>=◌ {ℓ κ} : {A : Type ℓ} {B : Type κ} → Option A → (A → Option B) → Option B
none >>= k = none
some a >>= k = k a

-- `Option::or`
abbrev pub first {ℓ} : {A : Type ℓ} → Option A → Option A → Option A
first none other = other
first (some a) other = some a
