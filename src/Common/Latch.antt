-- ===== src/Common/Latch.antt =====
-- A flag that some events set or clear and that all other events leave: what it is after a run is
-- what the last such event made of it.
use mathlib.Core.Path.{◌≡◌, refl}
use mathlib.Core.Bool.{Bool}
use mathlib.Core.Option.{Option, none, some}
use mathlib.Core.List.{List, [], ◌∷◌}

abbrev pub obeying : Option Bool → Bool → Bool
obeying none flag = flag
obeying (some b) flag = b

module _ {ℓ} {A : Type ℓ} (signal : A → Option Bool) where
  -- The last signal of a run, if there is one.
  abbrev pub last_signal : List A → Option Bool
  last_signal [] = none
  last_signal (a ∷ as') = elim (last_signal as') [ some b ↦ some b | none ↦ signal a ]

  pub obeying-last_signal :
      (a : A) (as' : List A) (flag : Bool)
      → obeying (last_signal as') (obeying (signal a) flag) ≡ obeying (last_signal (a ∷ as')) flag
  obeying-last_signal a as' flag = go (last_signal as') (signal a)
    where
      go :
          (later now : Option Bool)
          → obeying later (obeying now flag)
            ≡ obeying (elim later [ some b ↦ some b | none ↦ now ]) flag
      go none now = refl
      go (some b) now = refl
