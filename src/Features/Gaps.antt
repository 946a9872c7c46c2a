-- ===== src/Features/Gaps.antt =====
-- The gaps between records that PRISM/src/feature/feat_miner.cpp takes, on what
-- PRISM/src/window/window_manager.cpp emits.
use prism_dev.Common.{
  suc, sym, ◌∙◌, ℕ, ◌+◌, ◌-◌, ◌≤◌, ◌==◌, ◌≡◌, false, refl, ap, arith, List, [], ◌∷◌, map, some,
  length, ltb, true,
}
use mathlib.Core.Path.{ap₂}
use prism_dev.Common.Int.{pos, sub_ℕ}
use prism_dev.Double.{Double}
use prism_dev.Packet.{ParsedRecord, Window}
use prism_dev.Windowing.{new, feed, add_record}
use prism_dev.Windowing.Buffer.{Ascending}
use prism_dev.Windowing.Order.{emitted_window-Ascending}
use prism_dev.Features.{
  Iteration, deltas, sum_from, squares_from, mean_gap, deviation, features, compute,
}
use prism_dev.Features.Laws.{feature}

-- The nanoseconds between each record and the next.
abbrev pub gaps : List ParsedRecord → List ℕ
gaps [] = []
gaps (r ∷ []) = []
gaps (r ∷ q ∷ rs) = (q.timestamp - r.timestamp) ∷ gaps (q ∷ rs)

abbrev pub sum : List ℕ → ℕ
sum [] = 0
sum (n ∷ ns) = n + sum ns

length-map {ℓ κ} :
    {A : Type ℓ} {B : Type κ} (f : A → B) (xs : List A) → length (map f xs) ≡ length xs
length-map f [] = refl
length-map f (x ∷ xs) = ap suc (length-map f xs)

abbrev pub last_time : ℕ → List ParsedRecord → ℕ
last_time t [] = t
last_time t (r ∷ rs) = last_time r.timestamp rs

gaps-sum :
    (last : ℕ) (r : ParsedRecord) (rs : List ParsedRecord)
    → Ascending last (r ∷ rs)
    → r.timestamp + sum (gaps (r ∷ rs)) ≡ last_time r.timestamp rs
gaps-sum last r [] h = omega arith
gaps-sum last r (q ∷ rs) h = omega (arith, gaps-sum last q rs h.2)

module _ {ℓ} (W : Type ℓ) ⦃d : Double W⦄ where
  abbrev pub in_seconds : List ℕ → List W
  in_seconds = map (λ n. d.seconds (pos n))

  deltas-gaps :
      (last : ℕ) (rs : List ParsedRecord)
      → Ascending last rs
      → deltas {W = W} rs ≡ in_seconds (gaps rs)
  unfolding deltas
  deltas-gaps last [] h = refl
  deltas-gaps last (r ∷ []) h = refl
  deltas-gaps last (r ∷ q ∷ rs) h =
      let le : r.timestamp ≤ q.timestamp = h.1.0 in
      let forth : sub_ℕ q.timestamp r.timestamp ≡ pos (q.timestamp - r.timestamp) = ground arith in
      ap₂ (λ (x : W) (xs : List W). x ∷ xs) (ap d.seconds forth) (deltas-gaps last (q ∷ rs) h.2)

  -- What is left of adding the terms to `acc` one after another.
  abbrev pub added : W → List W → W
  added acc [] = acc
  added acc (x ∷ xs) = added (d.add acc x) xs

  -- The arithmetic mean, and the square root of the mean of the squared distances from the mean.
  abbrev pub mean : List W → W
  mean xs = d.div (added (d.lit 0 1) xs) (d.of_count (length xs))

  abbrev pub standard_deviation : List W → W
  standard_deviation xs =
      d.sqrt (mean (map (λ x. d.mul (d.sub x (mean xs)) (d.sub x (mean xs))) xs))

  sum_from-added : (acc : W) (xs : List W) → sum_from acc xs ≡ added acc xs
  unfolding sum_from
  sum_from-added acc [] = refl
  sum_from-added acc (x ∷ xs) = sum_from-added (d.add acc x) xs

  squares_from-added :
      (m acc : W) (xs : List W)
      → squares_from m acc xs ≡ added acc (map (λ x. d.mul (d.sub x m) (d.sub x m)) xs)
  unfolding squares_from
  squares_from-added m acc [] = refl
  squares_from-added m acc (x ∷ xs) =
      squares_from-added m (d.add acc (d.mul (d.sub x m) (d.sub x m))) xs

  mean_gap-mean : (xs : List W) → mean_gap xs ≡ mean xs
  unfolding mean_gap
  mean_gap-mean xs =
      ap (λ total. d.div total (d.of_count (length xs))) (sum_from-added (d.lit 0 1) xs)

  deviation-standard_deviation : (xs : List W) → deviation xs ≡ standard_deviation xs
  unfolding deviation
  deviation-standard_deviation xs =
      ap (λ m. d.sqrt (d.div (squares_from m (d.lit 0 1) xs) (d.of_count (length xs))))
        (mean_gap-mean xs)
      ∙ ap₂ (λ (x : W) (n : ℕ). d.sqrt (d.div x (d.of_count n)))
          (squares_from-added (mean xs) (d.lit 0 1) xs)
          (sym (length-map (λ x. d.mul (d.sub x (mean xs)) (d.sub x (mean xs))) xs))

  -- On a window with two records or more that a new manager emits, with a step of at most the window:
  -- the features 5 and 6 are the arithmetic mean and the standard deviation (the root of the mean
  -- squared distance from the mean) of the gaps, each taken as a number of nanoseconds that is not
  -- negative, the terms of each sum added in the order of the gaps; and the gaps add up to the time from the window's first record
  -- to its last.
  pub emitted_gaps :
      (it : Iteration) (window_size step_size : ℕ) (rs : List ParsedRecord) (next : ParsedRecord)
      (from to_ : ℕ) (r q : ParsedRecord) (more : List ParsedRecord)
      → step_size ≤ window_size
      → (add_record (feed (new window_size step_size) rs) next).1
        ≡ some (record { start_time = from; end_time = to_; records = r ∷ q ∷ more })
      → let w : Window = record { start_time = from; end_time = to_; records = r ∷ q ∷ more } in
        (feature {W = W} it w 5 ≡ mean (in_seconds (gaps w.records)))
        × (feature {W = W} it w 6 ≡ standard_deviation (in_seconds (gaps w.records)))
        × (r.timestamp + sum (gaps w.records) ≡ last_time r.timestamp (q ∷ more))
  unfolding compute features
  emitted_gaps it window_size step_size rs next from to_ r q more le e =
      let up = emitted_window-Ascending window_size step_size rs next le e in
      let some_left : (length (r ∷ q ∷ more) == 0) ≡ false = ground arith in
      let many : ltb 1 (length (r ∷ q ∷ more)) ≡ true = ground arith in
      rw
        (
          deltas-gaps to_ (r ∷ q ∷ more) up,
          some_left,
          many,
          mean_gap-mean (in_seconds (gaps (r ∷ q ∷ more))),
          deviation-standard_deviation (in_seconds (gaps (r ∷ q ∷ more))),
        )
        (refl, refl, gaps-sum to_ r (q ∷ more) up)
