-- ===== src/Base/Partial.antt =====
-- Chains of steps that may fault: `none` is undefined behaviour, an access outside a buffer.
use mathlib.Core.Option.{Option, none, some}

infixl 5 ◌>>=◌
abbrev pub ◌>>=◌ {ℓ κ} : {A : Type ℓ} {B : Type κ} → Option A → (A → Option B) → Option B
none >>= f = none
some a >>= f = f a
