-- ===== src/Common/Partial.antt =====
-- Steps that may fault: `none` is a read outside a buffer.
use mathlib.Core.Bool.{◌||◌, ◌&&◌}
use mathlib.Core.Option.{Option, none, some}
use mathlib.Core.List.{List}
use Prim.Native.Nat.{ℕ, ◌-◌}
use prism_dev.Common.Tests.{ltb, if◌then◌else◌}
use prism_dev.Common.Lists.{length, take, drop}

infixl 5 ◌>>=◌
abbrev pub ◌>>=◌ {ℓ κ} : {A : Type ℓ} {B : Type κ} → Option A → (A → Option B) → Option B
none >>= f = none
some a >>= f = f a

-- The elements from `first` up to `last`, which is left out. An empty range reads nothing, wherever it
-- lies.
abbrev pub slice {ℓ} : {A : Type ℓ} → List A → ℕ → ℕ → Option (List A)
slice xs first last =
    if ltb first last && ltb (length xs) last || ltb last first
    then none
    else some (take (last - first) (drop first xs))
