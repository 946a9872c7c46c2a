-- ===== src/Common/Bits.antt =====
-- The shifts, masks and bitwise operators that the code uses on bytes and 16-bit words, as arithmetic.
use Prim.Native.Nat.{
  ℕ, zero, suc, ◌+◌, ◌*◌, ◌/◌, ◌%◌, ◌^◌, ◌≤◌, ◌<◌, min, max, bit_and, bit_or, digits,
  bit_and-bitwise, bit_or-bitwise,
}
use mathlib.Core.Path.{◌≡◌, refl}
use mathlib.Core.Bool.{Bool, true, ◌&&◌}
use native.Mathlib.Omega.{arith}
use native.Mathlib.Nat.{div-add-mod, mul-add-mod_self_left, mod-eq_of_lt, mod-lt}
use mathlib.Core.Path.{◌∙◌, sym, ap}
use prism_dev.Common.Tests.{◌==◌, ==_iff}

-- uint8_t and uint16_t conversions.
abbrev pub u8 : ℕ → ℕ
u8 n = n % 256

abbrev pub u16 : ℕ → ℕ
u16 n = n % 65536

-- `x << k` before any conversion, and `x >> k`.
abbrev pub shl : ℕ → ℕ → ℕ
shl x k = x * 2 ^ k

abbrev pub shr : ℕ → ℕ → ℕ
shr x k = x / 2 ^ k

-- A byte of the program is a number below 256, a word one below 65536.
abbrev pub IsByte : ℕ → Type 0
IsByte b = b < 256

abbrev pub IsWord : ℕ → Type 0
IsWord w = w < 65536

module _ (z : ℕ → ℕ) (f : ℕ → ℕ → ℕ) where
  enough_digits : (n m a b : ℕ) → a ≤ n → a ≤ m → digits z f n a b ≡ digits z f m a b
  enough_digits zero zero a b p q = refl
  enough_digits zero (suc m) zero b p q = refl
  enough_digits zero (suc m) (suc a) b p q = absurd (omega arith)
  enough_digits (suc n) zero zero b p q = refl
  enough_digits (suc n) zero (suc a) b p q = absurd (omega arith)
  enough_digits (suc n) (suc m) zero b p q = refl
  enough_digits (suc n) (suc m) (suc a) b p q =
      rw (enough_digits n m (suc a / 2) (b / 2) (omega arith) (omega arith))

or_lowest : (a b : ℕ) → bit_or a b ≡ bit_or (a / 2) (b / 2) * 2 + max (a % 2) (b % 2)
or_lowest zero b = omega (arith, bit_or-bitwise 0 b, bit_or-bitwise 0 (b / 2))
or_lowest (suc a) b = omega (
  arith,
  bit_or-bitwise (suc a) b,
  bit_or-bitwise (suc a / 2) (b / 2),
  enough_digits (λ y. y) max a (suc a / 2) (suc a / 2) (b / 2) (omega arith) (omega arith),
)

and_lowest : (a b : ℕ) → bit_and a b ≡ bit_and (a / 2) (b / 2) * 2 + min (a % 2) (b % 2)
and_lowest zero b = omega (arith, bit_and-bitwise 0 b, bit_and-bitwise 0 (b / 2))
and_lowest (suc a) b = omega (
  arith,
  bit_and-bitwise (suc a) b,
  bit_and-bitwise (suc a / 2) (b / 2),
  enough_digits (λ y. 0) min a (suc a / 2) (suc a / 2) (b / 2) (omega arith) (omega arith),
)

or-zero_fuel : (n a : ℕ) → a ≤ n → bit_or a 0 ≡ a
or-zero_fuel n zero h = refl
or-zero_fuel zero (suc a) h = absurd (omega arith)
or-zero_fuel (suc n) (suc a) h =
    omega (arith, or_lowest (suc a) 0, or-zero_fuel n (suc a / 2) (omega arith))

and-zero_fuel : (n a : ℕ) → a ≤ n → bit_and a 0 ≡ 0
and-zero_fuel n zero h = refl
and-zero_fuel zero (suc a) h = absurd (omega arith)
and-zero_fuel (suc n) (suc a) h =
    omega (arith, and_lowest (suc a) 0, and-zero_fuel n (suc a / 2) (omega arith))

-- One more low bit: a field of twice the width takes one more digit below it.
or_one_more :
    (q h b : ℕ) → h ≡ q / 2 → q % 2 ≡ 0 → bit_or h (b / 2) ≡ h + b / 2 → bit_or q b ≡ q + b
or_one_more q h b e even below = ground (arith, or_lowest q b)

-- `(q << 8) | b` is a sum when `b` is a byte.
pub or_byte : (q b : ℕ) → b < 256 → bit_or (q * 256) b ≡ q * 256 + b
or_byte q b small = step 256 128 b (omega arith) (
    step 128 64 (b / 2) (omega arith) (
      step 64 32 (b / 2 / 2) (omega arith) (
        step 32 16 (b / 2 / 2 / 2) (omega arith) (
          step 16 8 (b / 2 / 2 / 2 / 2) (omega arith) (
            step 8 4 (b / 2 / 2 / 2 / 2 / 2) (omega arith) (
              step 4 2 (b / 2 / 2 / 2 / 2 / 2 / 2) (omega arith)
                (step 2 1 (b / 2 / 2 / 2 / 2 / 2 / 2 / 2) (omega arith) last)))))))
  where
    step :
        (m k c : ℕ)
        → (m ≡ 2 * k)
        → bit_or (q * k) (c / 2) ≡ q * k + c / 2
        → bit_or (q * m) c ≡ q * m + c
    step m k c e below =
        or_one_more (q * m) (q * k) c (rw e (grind arith)) (rw e (grind arith)) below

    last :
        bit_or (q * 1) (b / 2 / 2 / 2 / 2 / 2 / 2 / 2 / 2)
        ≡ q * 1 + b / 2 / 2 / 2 / 2 / 2 / 2 / 2 / 2
    last = ground (arith, or-zero_fuel (q * 1) (q * 1))

-- `0 | b`.
or_zero_left : (n b : ℕ) → b ≤ n → bit_or 0 b ≡ b
or_zero_left n zero h = refl
or_zero_left zero (suc b) h = absurd (omega arith)
or_zero_left (suc n) (suc b) h =
    omega (arith, or_lowest 0 (suc b), or_zero_left n (suc b / 2) (omega arith))

-- `1 | (x << 8)`.
pub or_one : (x : ℕ) → bit_or 1 (x * 256) ≡ x * 256 + 1
or_one x =
    omega (arith, or_lowest 1 (x * 256), or_zero_left (x * 256 / 2) (x * 256 / 2) (omega arith))

mod_double : (m x r : ℕ) → r < 2 → 0 < m → (x * 2 + r) % (2 * m) ≡ x % m * 2 + r
mod_double m x r small some =
    let split : x * 2 + r ≡ 2 * m * (x / m) + (x % m * 2 + r) = grind (arith, div-add-mod x m) in
    rw split (
      mul-add-mod_self_left (2 * m) (x / m) (x % m * 2 + r)
      ∙ mod-eq_of_lt (grind (arith, mod-lt x some)))

pow_pos : (k : ℕ) → 0 < 2 ^ k
pow_pos zero = omega arith
pow_pos (suc k) = omega (arith, pow_pos k)

-- What is shifted up by `k` does not reach the `k` low bits.
pub or_low : (k a b : ℕ) → bit_or a (b * 2 ^ k) % 2 ^ k ≡ a % 2 ^ k
or_low zero a b = ground arith
or_low (suc k) a b =
    let m = 2 ^ k in
    let double : 2 ^ suc k ≡ 2 * m = grind arith in
    let half : b * (2 * m) / 2 ≡ b * m = grind arith in
    let even : b * (2 * m) % 2 ≡ 0 = grind arith in
    rw (double, or_lowest a (b * (2 * m)), half, even)
      (mod_double m (bit_or (a / 2) (b * m)) (max (a % 2) 0) (omega arith) (pow_pos k)
        ∙ ap (λ x. x * 2 + max (a % 2) 0) (or_low k (a / 2) b)
        ∙ ap (λ r. a / 2 % m * 2 + r) (omega arith)
        ∙ sym (mod_double m (a / 2) (a % 2) (omega arith) (pow_pos k))
        ∙ ap (λ x. x % (2 * m)) (omega arith))

-- A mask of one more bit keeps one more digit.
and_one_more : (m k a : ℕ) → m ≡ 2 * k + 1 → bit_and a m ≡ bit_and (a / 2) k * 2 + a % 2
and_one_more m k a e = rw (e, and_lowest a (2 * k + 1)) (go (omega arith))
  where
    go :
        {h : ℕ}
        → h ≡ k
        → bit_and (a / 2) h * 2 + min (a % 2) ((2 * k + 1) % 2) ≡ bit_and (a / 2) k * 2 + a % 2
    go e' = rw e' (omega arith)

-- `x & 0xFF` is the low byte.
pub and_byte : (a : ℕ) → bit_and a 255 ≡ a % 256
and_byte a = omega (
  arith,
  and_one_more 255 127 a (omega arith),
  and_one_more 127 63 (a / 2) (omega arith),
  and_one_more 63 31 (a / 2 / 2) (omega arith),
  and_one_more 31 15 (a / 2 / 2 / 2) (omega arith),
  and_one_more 15 7 (a / 2 / 2 / 2 / 2) (omega arith),
  and_one_more 7 3 (a / 2 / 2 / 2 / 2 / 2) (omega arith),
  and_one_more 3 1 (a / 2 / 2 / 2 / 2 / 2 / 2) (omega arith),
  and_one_more 1 0 (a / 2 / 2 / 2 / 2 / 2 / 2 / 2) (omega arith),
  and-zero_fuel (a / 2 / 2 / 2 / 2 / 2 / 2 / 2 / 2) (a / 2 / 2 / 2 / 2 / 2 / 2 / 2 / 2)
      (omega arith),
)

-- Facts about one byte are checked at its 256 values.
holds_below : ℕ → (ℕ → Bool) → Bool
holds_below zero p = true
holds_below (suc n) p = p n && holds_below n p

holds_below_lem : (n : ℕ) (p : ℕ → Bool) (x : ℕ) → holds_below n p ≡ true → x < n → p x ≡ true
unfolding holds_below
holds_below_lem zero p x h lt = absurd (omega arith)
holds_below_lem (suc n) p x h lt = ground (arith, holds_below_lem n p x)

by_table : (f g : ℕ → ℕ) → holds_below 256 (λ x. f x == g x) ≡ true → (x : ℕ) → IsByte x → f x ≡ g x
by_table f g table x h = (==_iff (f x) (g x)).0 (holds_below_lem 256 _ x table h)

-- `fc | 0x80` adds the top bit of a byte that has it clear, and keeps one that has it set.
pub or_top_bit : (x : ℕ) → IsByte x → bit_or x 0x80 ≡ x % 128 + 128
unfolding holds_below
or_top_bit = by_table (λ x. bit_or x 0x80) (λ x. x % 128 + 128) refl

-- `b & 0x0F`, and `(b & 0xF0) >> 4`.
pub and_low_nibble : (x : ℕ) → IsByte x → bit_and x 0x0f ≡ x % 16
unfolding holds_below
and_low_nibble = by_table (λ x. bit_and x 0x0f) (λ x. x % 16) refl

pub and_high_nibble : (x : ℕ) → IsByte x → shr (bit_and x 0xf0) 4 ≡ x / 16
unfolding holds_below
and_high_nibble = by_table (λ x. shr (bit_and x 0xf0) 4) (λ x. x / 16) refl
