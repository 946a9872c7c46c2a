-- ===== src/Viz/Bar.antt =====
-- The shape of the bar of PRISM/src/utils/viz_utils.cpp.
use prism_dev.Common.{
  ℕ, zero, suc, ◌+◌, ◌-◌, ◌≤◌, ◌≡◌, refl, ap, arith, List, [], ◌∷◌, ◌++◌, length, length-append,
  count_if, ◌==◌,
}
use prism_dev.Common.Int.{ℤ}
use prism_dev.Double.{Double}
use prism_dev.Viz.{clamp_fill, repeat, get_progress_bar}

length-repeat : (n c : ℕ) → length (repeat n c) ≡ n
length-repeat zero c = refl
length-repeat (suc n) c = ap suc (length-repeat n c)

clamp_fill-le : (z : ℤ) (width : ℕ) → clamp_fill z width ≤ width
unfolding clamp_fill
clamp_fill-le z width = ground arith

hashes_append :
    (n : ℕ) (ys : List ℕ)
    → count_if (λ c. c == b'#') (repeat n b'#' ++ ys) ≡ n + count_if (λ c. c == b'#') ys
hashes_append zero ys = omega arith
hashes_append (suc n) ys = omega (arith, hashes_append n ys)

dots_append :
    (n : ℕ) (ys : List ℕ)
    → count_if (λ c. c == b'#') (repeat n b'.' ++ ys) ≡ count_if (λ c. c == b'#') ys
dots_append zero ys = refl
dots_append (suc n) ys = omega (arith, dots_append n ys)

module _ {ℓ} {W : Type ℓ} ⦃d : Double W⦄ where
  -- Whatever the conversion to `int` yields, also for a probability outside the range from 0 to 1,
  -- the bar is two characters longer than its width, and its hashes are the converted product,
  -- brought into the range from 0 to the width.
  pub get_progress_bar_shape :
      (p : W) (width : ℕ)
      → (length (get_progress_bar p width) ≡ width + 2)
        × (count_if (λ c. c == b'#') (get_progress_bar p width)
            ≡ clamp_fill (d.to_int (d.mul p (d.of_count width))) width)
  unfolding get_progress_bar
  get_progress_bar_shape p width =
      let z = d.to_int (d.mul p (d.of_count width)) in
      let fill = clamp_fill z width in
      let rest = width - fill in
      (
        omega (
          arith,
          length-append (repeat fill b'#') (repeat rest b'.' ++ b']' ∷ []),
          length-append (repeat rest b'.') (b']' ∷ []),
          length-repeat fill b'#',
          length-repeat rest b'.',
          clamp_fill-le z width,
        ),
        omega (
          arith,
          hashes_append fill (repeat rest b'.' ++ b']' ∷ []),
          dots_append rest (b']' ∷ []),
        ),
      )
