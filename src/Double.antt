-- ===== src/Double.antt =====
-- What the code does with a `double`. The type and its operations are a parameter of the stages
-- that compute with them; the laws are those of IEEE 754 arithmetic and of the C library that a
-- theorem names, and `Double.Fixed` meets them with fixed-point numbers.
use prism_dev.Common.{ℕ, ◌+◌, ◌*◌, ◌^◌, ◌≤◌, ◌<◌, ◌≡◌, Bool, true, false, ltb}
use prism_dev.Common.Int.{ℤ}
pub mod Fixed

-- `lit n k` is the literal n / 10^k. `of_count` converts an unsigned size or a count, `seconds` a
-- difference of two time points in nanoseconds, and `to_int` is the conversion to `int`.
pub record Double {ℓ} (W : Type ℓ) : Type ℓ where
  pub lit : ℕ → ℕ → W
  pub of_count : ℕ → W
  pub seconds : ℤ → W
  pub to_int : W → ℤ
  pub add : W → W → W
  pub sub : W → W → W
  pub mul : W → W → W
  pub div : W → W → W
  pub neg : W → W
  pub abs : W → W
  pub sqrt : W → W
  pub exp : W → W
  pub log2 : W → W
  pub le : W → W → Bool
  pub lt : W → W → Bool

infix 4 ◌≼◌
abbrev pub ◌≼◌ {ℓ} : {W : Type ℓ} ⦃d : Double W⦄ → W → W → Type 0
◌≼◌ ⦃d⦄ below above = d.le below above ≡ true

-- Counts up to 2^53 are exact: adding one is exact, and comparing them is comparing numbers.
pub record IsExact {ℓ} (W : Type ℓ) ⦃d : Double W⦄ : Type ℓ where
  pub nought : d.lit 0 1 ≡ d.of_count 0
  pub add_one : (n : ℕ) → n < 2 ^ 53 → d.add (d.of_count n) (d.lit 10 1) ≡ d.of_count (n + 1)
  pub lt_count : (a b : ℕ) → a ≤ 2 ^ 53 → b ≤ 2 ^ 53 → d.lt (d.of_count a) (d.of_count b) ≡ ltb a b

-- The order is transitive, the tests `<` and `<=` fit, and the literals that the risk model compares
-- with stand in their order. NaN is the value that is not `<=` itself.
pub record IsOrdered {ℓ} (W : Type ℓ) ⦃d : Double W⦄ : Type ℓ where
  pub le_trans : (x y z : W) → x ≼ y → y ≼ z → x ≼ z
  pub refl_left : (x y : W) → x ≼ y → x ≼ x
  pub refl_right : (x y : W) → x ≼ y → y ≼ y
  pub le_of_lt : (x y : W) → d.lt x y ≡ true → x ≼ y
  pub le_of_not_lt : (x y : W) → x ≼ x → y ≼ y → d.lt x y ≡ false → y ≼ x
  pub lt_irrefl : (x : W) → d.lt x x ≡ false
  pub lt_of_le_lt : (x y z : W) → x ≼ y → d.lt y z ≡ true → d.lt x z ≡ true
  pub thresholds : d.lt (d.lit 5 1) (d.lit 7 1) ≡ true
  pub alarm : d.lt (d.lit 4 1) (d.lit 7 1) ≡ true

-- Rounded operations with a constant keep or reverse the order, and so does `exp`.
pub record IsMonotone {ℓ} (W : Type ℓ) ⦃d : Double W⦄ : Type ℓ where
  pub div_ten : (x y : W) → x ≼ y → d.div x (d.lit 100 1) ≼ d.div y (d.lit 100 1)
  pub sub_one : (x y : W) → x ≼ y → d.sub x (d.lit 10 1) ≼ d.sub y (d.lit 10 1)
  pub mul_minus_two :
      (x y : W) → x ≼ y → d.mul (d.neg (d.lit 20 1)) y ≼ d.mul (d.neg (d.lit 20 1)) x
  pub exp_mono : (x y : W) → x ≼ y → d.exp x ≼ d.exp y
  pub exp_nonneg : (x : W) → x ≼ x → d.lit 0 1 ≼ d.exp x
  pub one_add : (x y : W) → d.lit 0 1 ≼ x → x ≼ y → d.add (d.lit 10 1) x ≼ d.add (d.lit 10 1) y
  pub one_le : (x : W) → d.lit 0 1 ≼ x → d.lit 10 1 ≼ d.add (d.lit 10 1) x
  pub one_div : (x y : W) → d.lit 10 1 ≼ x → x ≼ y → d.div (d.lit 10 1) y ≼ d.div (d.lit 10 1) x
  pub one_div_bounds :
      (x : W)
      → d.lit 10 1 ≼ x
      → (d.lit 0 1 ≼ d.div (d.lit 10 1) x) × (d.div (d.lit 10 1) x ≼ d.lit 10 1)

-- Quotients of counts are rounded without changing their order to 3/10, 0 and 1, the logarithm of what
-- is at most 1 is not positive, and what is not negative stays so in the sums and products of the tree
-- score. A tree score of three tenths of its first weight is one that the risk model answers with a
-- probability of 0.7 or more.
pub record IsWeighted {ℓ} (W : Type ℓ) ⦃d : Double W⦄ : Type ℓ where
  pub three_tenths :
      (p n : ℕ)
      → 0 < n
      → n < 2 ^ 31
      → p ≤ n
      → 3 * n ≤ 10 * p
      → d.lit 3 1 ≼ d.div (d.of_count p) (d.of_count n)
  pub share_bounds :
      (p n : ℕ)
      → 0 < n
      → n < 2 ^ 31
      → p ≤ n
      → (d.lit 0 1 ≼ d.div (d.of_count p) (d.of_count n))
        × (d.div (d.of_count p) (d.of_count n) ≼ d.lit 10 1)
  pub entropy_step :
      (p e : W)
      → d.lt (d.of_count 0) p ≡ true
      → p ≼ d.lit 10 1
      → d.lit 0 1 ≼ e
      → d.lit 0 1 ≼ d.sub e (d.mul p (d.log2 p))
  pub mul_fifty : (x y : W) → x ≼ y → d.mul x (d.lit 500 1) ≼ d.mul y (d.lit 500 1)
  pub weights :
      (x : W)
      → d.lit 0 1 ≼ x
      → (d.lit 0 1 ≼ d.mul x (d.lit 500 1))
        × (d.lit 0 1 ≼ d.mul x (d.lit 25 1))
        × (d.lit 0 1 ≼ d.mul x (d.lit 200 1))
  pub mul_share : (x y : W) → d.lit 0 1 ≼ x → d.lit 3 1 ≼ y → y ≼ d.lit 10 1 → d.lit 0 1 ≼ d.mul x y
  pub add_nonneg : (x y : W) → d.lit 0 1 ≼ x → d.lit 0 1 ≼ y → x ≼ d.add x y
  pub nought_le : d.lit 0 1 ≼ d.lit 0 1
  pub loud_weight :
      d.lit 7 1
      ≼ d.div (d.lit 10 1) (
          d.add (d.lit 10 1) (
            d.exp (
              d.mul
                (d.neg (d.lit 20 1))
                (d.sub (d.div (d.mul (d.lit 3 1) (d.lit 500 1)) (d.lit 100 1)) (d.lit 10 1)))))

-- The square, and what the burst score makes of it, keep the order of deviations from 0.9 up. A burst
-- score at the deviation 0.9 is one that the risk model answers with a probability of 0.7 or more.
pub record IsSpread {ℓ} (W : Type ℓ) ⦃d : Double W⦄ : Type ℓ where
  pub square : (x : W) → d.lit 9 1 ≼ x → d.mul (d.lit 9 1) (d.lit 9 1) ≼ d.mul x x
  pub distance :
      (x : W)
      → d.mul (d.lit 9 1) (d.lit 9 1) ≼ x
      → d.abs (d.sub (d.mul (d.lit 9 1) (d.lit 9 1)) (d.mul (d.lit 5 2) (d.lit 5 2)))
        ≼ d.abs (d.sub x (d.mul (d.lit 5 2) (d.lit 5 2)))
  pub div_base :
      (x y : W)
      → x ≼ y
      → d.div x (d.add (d.lit 1 3) (d.lit 5 2)) ≼ d.div y (d.add (d.lit 1 3) (d.lit 5 2))
  pub loud_spread :
      d.lit 7 1
      ≼ d.div (d.lit 10 1) (
          d.add (d.lit 10 1) (
            d.exp (
              d.mul (d.neg (d.lit 20 1)) (
                d.sub
                  (d.div
                    (d.div
                      (d.abs
                        (d.sub (d.mul (d.lit 9 1) (d.lit 9 1)) (d.mul (d.lit 5 2) (d.lit 5 2))))
                      (d.add (d.lit 1 3) (d.lit 5 2)))
                    (d.lit 100 1))
                  (d.lit 10 1)))))

-- No writes have the weight 0, each entry adds less than 1 to the entropy, and the tree score keeps to
-- the weight of the function codes, and the burst score to what it is at the deviation 0.8, where the
-- deviation does not exceed it. Such scores are ones that the risk model answers with less than 0.7.
pub record IsQuiet {ℓ} (W : Type ℓ) ⦃d : Double W⦄ : Type ℓ where
  pub no_share : (n : ℕ) → 0 < n → n < 2 ^ 31 → d.div (d.of_count 0) (d.of_count n) ≡ d.lit 0 1
  pub no_weight : d.mul (d.lit 0 1) (d.lit 500 1) ≼ d.lit 0 1
  pub entropy_cap :
      (p e : W) (k : ℕ)
      → k < 2 ^ 31
      → d.lt (d.of_count 0) p ≡ true
      → p ≼ d.lit 10 1
      → e ≼ d.of_count k
      → d.sub e (d.mul p (d.log2 p)) ≼ d.of_count (k + 1)
  pub count_mono : (j k : ℕ) → j ≤ k → k < 2 ^ 31 → d.of_count j ≼ d.of_count k
  pub no_spray :
      (x : W) (k : ℕ)
      → k ≤ 2 ^ 31
      → d.lit 0 1 ≼ x
      → x ≼ d.of_count k
      → d.mul (d.mul x (d.lit 0 1)) (d.lit 200 1) ≼ d.lit 0 1
  pub code_weight : (x : W) → x ≼ d.lit 10 1 → d.mul x (d.lit 25 1) ≼ d.lit 25 1
  pub low_sum :
      (x y z : W)
      → x ≼ d.lit 0 1
      → y ≼ d.lit 25 1
      → z ≼ d.lit 0 1
      → d.add (d.add x y) z ≼ d.lit 25 1
  pub low_square :
      (x : W)
      → d.lit 0 1 ≼ x
      → x ≼ d.lit 8 1
      → (d.lit 0 1 ≼ d.mul x x) × (d.mul x x ≼ d.mul (d.lit 8 1) (d.lit 8 1))
  pub low_distance :
      (x : W)
      → d.lit 0 1 ≼ x
      → x ≼ d.mul (d.lit 8 1) (d.lit 8 1)
      → d.abs (d.sub x (d.mul (d.lit 5 2) (d.lit 5 2)))
        ≼ d.abs (d.sub (d.mul (d.lit 8 1) (d.lit 8 1)) (d.mul (d.lit 5 2) (d.lit 5 2)))
  pub quiet_tree :
      d.lt
        (d.div (d.lit 10 1) (
          d.add (d.lit 10 1) (
            d.exp (
              d.mul (d.neg (d.lit 20 1)) (d.sub (d.div (d.lit 25 1) (d.lit 100 1)) (d.lit 10 1))))))
        (d.lit 7 1)
      ≡ true
  pub quiet_burst :
      d.lt
        (d.div (d.lit 10 1) (
          d.add (d.lit 10 1) (
            d.exp (
              d.mul (d.neg (d.lit 20 1)) (
                d.sub
                  (d.div
                    (d.div
                      (d.abs
                        (d.sub (d.mul (d.lit 8 1) (d.lit 8 1)) (d.mul (d.lit 5 2) (d.lit 5 2))))
                      (d.add (d.lit 1 3) (d.lit 5 2)))
                    (d.lit 100 1))
                  (d.lit 10 1))))))
        (d.lit 7 1)
      ≡ true
