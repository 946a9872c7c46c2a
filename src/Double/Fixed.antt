-- ===== src/Double/Fixed.antt =====
-- Signed fixed-point numbers, in thousandths, which meet the laws of `Double`. They stand in for
-- `double` where an example is evaluated; `exp`, `log2` and `sqrt` are rough.
use native.Mathlib.Nat.{div-le_of_le-mul, le-div_iff_mul-le}
use prism_dev.Common.{
  ◌-◌, ℕ, ◌+◌, ◌*◌, ◌/◌, ◌^◌, ◌≤◌, ◌<◌, ◌≡◌, refl, arith, Bool, true, ltb, leb, if◌then◌else◌,
}
use prism_dev.Common.Int.{ℤ, pos, negsuc, sub_ℕ}
use prism_dev.Double.{Double, IsExact, IsOrdered, IsMonotone, IsWeighted, IsSpread, IsQuiet}

abbrev plus : ℤ → ℕ
plus (pos n) = n
plus (negsuc n) = 0

abbrev minus : ℤ → ℕ
minus (pos n) = 0
minus (negsuc n) = n + 1

abbrev le_ℤ : ℤ → ℤ → Bool
le_ℤ a b = leb (plus a + minus b) (plus b + minus a)

abbrev lt_ℤ : ℤ → ℤ → Bool
lt_ℤ a b = ltb (plus a + minus b) (plus b + minus a)

abbrev add_ℤ : ℤ → ℤ → ℤ
add_ℤ a b = sub_ℕ (plus a + plus b) (minus a + minus b)

abbrev neg_ℤ : ℤ → ℤ
neg_ℤ a = sub_ℕ (minus a) (plus a)

abbrev mul_ℤ : ℤ → ℤ → ℤ
mul_ℤ a b =
    sub_ℕ ((plus a * plus b + minus a * minus b) / 1000)
      ((plus a * minus b + minus a * plus b) / 1000)

abbrev div_ℤ : ℤ → ℤ → ℤ
div_ℤ a b =
    sub_ℕ (plus a * 1000 / plus b + minus a * 1000 / minus b)
      (plus a * 1000 / minus b + minus a * 1000 / plus b)

-- 1 + x from 0 up and 1 / (1 - 2 x) below.
abbrev exp_ℤ : ℤ → ℤ
exp_ℤ a = if leb (minus a) 0 then pos (1000 + plus a) else pos (1_000_000 / (1000 + 2 * minus a))

abbrev pub Fixed : Type 0
Fixed = ℤ

instance abbrev pub fixed_double : Double ℤ
fixed_double = record {
  lit = λ n k. pos (n * 1000 / 10 ^ k);
  of_count = λ n. pos (n * 1000);
  seconds = λ t. sub_ℕ (plus t / 1_000_000) (minus t / 1_000_000);
  to_int = λ a. sub_ℕ (plus a / 1000) (minus a / 1000);
  add = add_ℤ;
  sub = λ a b. add_ℤ a (neg_ℤ b);
  mul = mul_ℤ;
  div = div_ℤ;
  neg = neg_ℤ;
  abs = λ a. pos (plus a + minus a);
  sqrt = λ a. a;
  exp = exp_ℤ;
  log2 = λ a. add_ℤ a (negsuc 999);
  le = le_ℤ;
  lt = lt_ℤ;
}

pub Fixed-IsExact : IsExact ℤ
Fixed-IsExact = record {
  nought = refl;
  add_one = λ n h. ground arith;
  lt_count = λ a b h k. ground arith;
}

pub Fixed-IsOrdered : IsOrdered ℤ
Fixed-IsOrdered = record {
  le_trans = λ x y z h k. ground arith;
  refl_left = λ x y h. ground arith;
  refl_right = λ x y h. ground arith;
  le_of_lt = λ x y h. ground arith;
  le_of_not_lt = λ x y h k n. ground arith;
  lt_irrefl = λ x. ground arith;
  lt_of_le_lt = λ x y z h k. ground arith;
  thresholds = refl;
  alarm = refl;
}

div_anti : (c a b : ℕ) → 0 < a → a ≤ b → c / b ≤ c / a
div_anti c a b h k = grind arith

div_le_self : (c a : ℕ) → 0 < a → c / a ≤ c
div_le_self c a h = grind arith

exp_rises : (x y : ℤ) → le_ℤ x y ≡ true → le_ℤ (exp_ℤ x) (exp_ℤ y) ≡ true
exp_rises (pos m) (pos n) h = ground arith
exp_rises (pos m) (negsuc n) h = ground arith
exp_rises (negsuc m) (pos n) h = ground (arith, div_anti 1_000_000 1000 (1000 + 2 * (m + 1)))
exp_rises (negsuc m) (negsuc n) h =
    ground (arith, div_anti 1_000_000 (1000 + 2 * (n + 1)) (1000 + 2 * (m + 1)))

pub Fixed-IsMonotone : IsMonotone ℤ
Fixed-IsMonotone = record {
  div_ten = λ x y h. ground arith;
  sub_one = λ x y h. ground arith;
  mul_minus_two = λ x y h. ground arith;
  exp_mono = exp_rises;
  exp_nonneg = λ x h. ground arith;
  one_add = λ x y h k. ground arith;
  one_le = λ x h. ground arith;
  one_div = λ x y h k. ground (arith, div_anti 1_000_000 (plus x) (plus y));
  one_div_bounds = λ x h. ground (arith, div_anti 1_000_000 1000 (plus x));
}

mul_nonpos :
    (x y : ℤ) → le_ℤ (pos 0) x ≡ true → le_ℤ y (pos 0) ≡ true → le_ℤ (mul_ℤ x y) (pos 0) ≡ true
mul_nonpos (pos m) (pos n) h k = let none_ : n ≡ 0 = ground arith in rw none_ (ground arith)
mul_nonpos (pos m) (negsuc n) h k = ground arith
mul_nonpos (negsuc m) y h k = ground arith

sub_nonneg :
    (x y : ℤ)
    → le_ℤ (pos 0) x ≡ true
    → le_ℤ y (pos 0) ≡ true
    → le_ℤ (pos 0) (add_ℤ x (neg_ℤ y)) ≡ true
sub_nonneg x y h k = ground arith

pub Fixed-IsWeighted : IsWeighted ℤ
Fixed-IsWeighted = record {
  three_tenths = λ p n pos' small le h.
      ground
        (arith, (le-div_iff_mul-le {k = n * 1000} {x = 300} {y = p * 1000 * 1000} (omega arith)).1);
  share_bounds = λ p n pos' small le.
      ground (arith, div-le_of_le-mul (n * 1000) {m = p * 1000 * 1000} {n = 1000} (omega arith));
  entropy_step = λ p e h k l.
      sub_nonneg e (mul_ℤ p (add_ℤ p (negsuc 999))) l
        (mul_nonpos p (add_ℤ p (negsuc 999)) (ground arith) (ground arith));
  mul_fifty = λ x y h. ground arith;
  weights = λ x h. ground arith;
  mul_share = λ x y h k l. ground arith;
  add_nonneg = λ x y h k. ground arith;
  nought_le = refl;
  loud_weight = refl;
}

square_le : (m : ℕ) → 900 ≤ m → 810_000 ≤ m * m
square_le m h = grind arith

square_rises : (x : ℤ) → le_ℤ (pos 900) x ≡ true → le_ℤ (pos 810) (mul_ℤ x x) ≡ true
square_rises (pos m) h = ground (arith, square_le m)
square_rises (negsuc m) h = ground arith

pub Fixed-IsSpread : IsSpread ℤ
Fixed-IsSpread = record {
  square = λ x h. square_rises x h;
  distance = λ x h. ground arith;
  div_base = λ x y h. ground arith;
  loud_spread = refl;
}

product_le : (m n : ℕ) → m ≤ 1000 → n ≤ 1000 → m * n ≤ 1_000_000
product_le m n h k = grind arith

-- What an entry takes off the entropy is at least -1.
loss_cap :
    (x : ℤ)
    → le_ℤ (pos 0) x ≡ true
    → le_ℤ x (pos 1000) ≡ true
    → le_ℤ (negsuc 999) (mul_ℤ x (add_ℤ x (negsuc 999))) ≡ true
loss_cap (pos m) h k =
    ground (arith, product_le m (1000 - m), product_le m (999 - m), product_le m (999 - m + 1))
loss_cap (negsuc m) h k = ground arith

sub_cap :
    (e y : ℤ) (k : ℕ)
    → le_ℤ e (pos (k * 1000)) ≡ true
    → le_ℤ (negsuc 999) y ≡ true
    → le_ℤ (add_ℤ e (neg_ℤ y)) (pos ((k + 1) * 1000)) ≡ true
sub_cap e y k h l = ground arith

square_low_le : (m : ℕ) → m ≤ 800 → m * m ≤ 640_000
square_low_le m h = grind arith

square_low :
    (x : ℤ)
    → le_ℤ (pos 0) x ≡ true
    → le_ℤ x (pos 800) ≡ true
    → (le_ℤ (pos 0) (mul_ℤ x x) ≡ true) × (le_ℤ (mul_ℤ x x) (pos 640) ≡ true)
square_low (pos m) h k = ground (arith, square_low_le m)
square_low (negsuc m) h k = ground arith

pub Fixed-IsQuiet : IsQuiet ℤ
Fixed-IsQuiet = record {
  no_share = λ n pos' small. ground arith;
  no_weight = refl;
  entropy_cap = λ p e k small h le cap'.
      sub_cap e (mul_ℤ p (add_ℤ p (negsuc 999))) k cap' (loss_cap p (ground arith) le);
  count_mono = λ j k h small. ground arith;
  no_spray = λ x k small h le. ground arith;
  code_weight = λ x h. ground arith;
  low_sum = λ x y z h k l. ground arith;
  low_square = λ x h k. square_low x h k;
  low_distance = λ x h k. ground arith;
  quiet_tree = refl;
  quiet_burst = refl;
}
