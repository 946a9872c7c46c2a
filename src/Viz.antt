-- ===== src/Viz.antt =====
-- PRISM/src/utils/viz_utils.cpp: the label and the bar of an alert line. A text is its list of
-- character codes where its length matters.
use prism_dev.Common.{ℕ, zero, suc, ◌-◌, String, Bool, List, [], ◌∷◌, ◌++◌, ltb, if◌then◌else◌}
use prism_dev.Common.Int.{ℤ, pos, negsuc}
use prism_dev.Double.{Double}
pub mod Bar

-- `fill` after the two tests that bring it into the range from 0 to `width`.
unfoldable pub clamp_fill : ℤ → ℕ → ℕ
clamp_fill (pos fill) width = if ltb width fill then width else fill
clamp_fill (negsuc n) width = 0

-- `count` rounds of a loop that appends one character.
abbrev pub repeat : ℕ → ℕ → List ℕ
repeat zero c = []
repeat (suc count) c = c ∷ repeat count c

module _ {ℓ} {W : Type ℓ} ⦃d : Double W⦄ where
  unfoldable pub get_fuzzy_label : W → String
  get_fuzzy_label p =
      if d.lt p (d.lit 2 1)
      then "SAFE"
      else if d.lt p (d.lit 5 1)
      then "SUSPICIOUS"
      else if d.lt p (d.lit 8 1)
      then "THREAT"
      else "CRITICAL"

  unfoldable pub get_progress_bar : W → ℕ → List ℕ
  get_progress_bar p width =
      let fill = clamp_fill (d.to_int (d.mul p (d.of_count width))) width in
      b'[' ∷ (repeat fill b'#' ++ (repeat (width - fill) b'.' ++ b']' ∷ []))
