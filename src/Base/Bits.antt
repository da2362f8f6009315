-- ===== src/Base/Bits.antt =====
-- `&`, `|` and shifts of the native numbers as sums, quotients and remainders.
use Prim.Native.Nat.{
  min, bit_and-bitwise, ℕ, zero, suc, ◌+◌, ◌*◌, ◌/◌, ◌%◌, ◌^◌, ◌≤◌, ◌<◌, max, bit_and, bit_or,
  digits, bit_or-bitwise, ◌-◌,
}
use mathlib.Core.Path.{◌≡◌, refl, ap, sym, ◌∙◌}
use native.Mathlib.Omega.{arith}
use native.Mathlib.Nat.{pow-suc, div-div-eq-div-mul}

module _ (last : ℕ → ℕ) (join : ℕ → ℕ → ℕ) where
  -- One round more than the first number has digits changes nothing.
  next_round : (n a b : ℕ) → a ≤ n → digits last join (suc n) a b ≡ digits last join n a b
  next_round zero zero b h = refl
  next_round (suc n) zero b h = refl
  next_round zero (suc a) b h = absurd (omega arith)
  next_round (suc n) (suc a) b h = omega (arith, next_round n (suc a / 2) (b / 2) (omega arith))

  rounds : (more a b : ℕ) → digits last join (more + a) a b ≡ digits last join a a b
  rounds zero a b = let unit : zero + a ≡ a = omega arith in λ i. digits last join (unit i) a b
  rounds (suc more) a b =
      let shift : suc more + a ≡ suc (more + a) = omega arith in
      (λ i. digits last join (shift i) a b)
      ∙ next_round (more + a) a b (omega arith)
      ∙ rounds more a b

  -- The lowest digit of the result comes from the lowest digits.
  low_digit :
      (a b : ℕ)
      → digits last join (suc a) (suc a) b
        ≡ digits last join (suc a / 2) (suc a / 2) (b / 2) * 2 + join (suc a % 2) (b % 2)
  low_digit a b =
      ap (λ (t : ℕ). t * 2 + join (suc a % 2) (b % 2))
        ((λ i. digits last join (split i) (suc a / 2) (b / 2))
          ∙ rounds (a - suc a / 2) (suc a / 2) (b / 2))
    where
      split : a ≡ a - suc a / 2 + suc a / 2
      split = omega arith

pub zero-bit_or : (b : ℕ) → bit_or 0 b ≡ b
zero-bit_or b = bit_or-bitwise 0 b

bit_or_lowest : (a b : ℕ) → bit_or a b ≡ bit_or (a / 2) (b / 2) * 2 + max (a % 2) (b % 2)
bit_or_lowest zero b = omega (arith, zero-bit_or b, zero-bit_or (b / 2))
bit_or_lowest (suc a) b =
    bit_or-bitwise (suc a) b
    ∙ low_digit (λ c. c) max a b
    ∙ ap (λ (t : ℕ). t * 2 + max (suc a % 2) (b % 2)) (sym (bit_or-bitwise (suc a / 2) (b / 2)))

double : (q k : ℕ) → q * 2 ^ suc k ≡ 2 * (q * 2 ^ k)
double q k = omega (arith, ap (λ (t : ℕ). q * t) (pow-suc 2 k))

-- `low | (high << k)`, for a low field of `k` bits.
pub bit_or_high : (k low high : ℕ) → low < 2 ^ k → bit_or low (high * 2 ^ k) ≡ low + high * 2 ^ k
bit_or_high zero zero high h = omega (arith, zero-bit_or (high * 2 ^ 0))
bit_or_high zero (suc low) high h = absurd (omega arith)
bit_or_high (suc k) low high h = omega (
  arith,
  bit_or_lowest low (high * 2 ^ suc k),
  double high k,
  pow-suc 2 k,
  ap (λ (t : ℕ). bit_or (low / 2) t) {x = high * 2 ^ suc k / 2} {y = high * 2 ^ k}
      (omega (arith, double high k)),
  bit_or_high k (low / 2) high (omega (arith, pow-suc 2 k)),
)

below_power : (a : ℕ) → a < 2 ^ a
below_power zero = omega arith
below_power (suc a) = omega (arith, pow-suc 2 a, below_power a)

pub bit_or-zero : (a : ℕ) → bit_or a 0 ≡ a
bit_or-zero a =
    omega (
      arith,
      bit_or_high a a 0 (below_power a),
      ap (bit_or a) {x = 0 * 2 ^ a} {y = 0} (omega arith),
    )

-- `(high << k) | low`.
pub bit_or_low : (k high low : ℕ) → low < 2 ^ k → bit_or (high * 2 ^ k) low ≡ high * 2 ^ k + low
bit_or_low zero high zero h = omega (arith, bit_or-zero (high * 2 ^ 0))
bit_or_low zero high (suc low) h = absurd (omega arith)
bit_or_low (suc k) high low h = omega (
  arith,
  bit_or_lowest (high * 2 ^ suc k) low,
  double high k,
  pow-suc 2 k,
  ap (λ (t : ℕ). bit_or t (low / 2)) {x = high * 2 ^ suc k / 2} {y = high * 2 ^ k}
      (omega (arith, double high k)),
  bit_or_low k high (low / 2) (omega (arith, pow-suc 2 k)),
)

bit_and_lowest : (a b : ℕ) → bit_and a b ≡ bit_and (a / 2) (b / 2) * 2 + min (a % 2) (b % 2)
bit_and_lowest zero b = omega (arith, bit_and-bitwise 0 b, bit_and-bitwise 0 (b / 2))
bit_and_lowest (suc a) b =
    bit_and-bitwise (suc a) b
    ∙ low_digit (λ c. 0) min a b
    ∙ ap (λ (t : ℕ). t * 2 + min (suc a % 2) (b % 2)) (sym (bit_and-bitwise (suc a / 2) (b / 2)))

none_set : (k a : ℕ) → a < 2 ^ k → bit_and a 0 ≡ 0
none_set k zero h = bit_and-bitwise 0 0
none_set zero (suc a) h = absurd (omega arith)
none_set (suc k) (suc a) h =
    omega (arith, bit_and_lowest (suc a) 0, none_set k (suc a / 2) (omega (arith, pow-suc 2 k)))

pub bit_and-zero : (a : ℕ) → bit_and a 0 ≡ 0
bit_and-zero a = none_set a a (below_power a)

-- The ones below bit `k`.
ones : ℕ → ℕ
ones zero = 0
ones (suc k) = 2 * ones k + 1

ones_lem : (k : ℕ) → ones k + 1 ≡ 2 ^ k
unfolding ones
ones_lem zero = refl
ones_lem (suc k) = omega (arith, pow-suc 2 k, ones_lem k)

halve_first : (a k : ℕ) → a / 2 ^ suc k * 2 ^ suc k ≡ 2 * (a / 2 / 2 ^ k * 2 ^ k)
halve_first a k = omega (
  arith,
  ap (λ (t : ℕ). a / t * t) {x = 2 ^ suc k} {y = 2 * 2 ^ k} (omega (arith, pow-suc 2 k)),
  ap (λ (t : ℕ). t * 2 ^ k) (div-div-eq-div-mul a 2 (2 ^ k)),
)

bit_and-ones : (k a : ℕ) → bit_and a (ones k) + a / 2 ^ k * 2 ^ k ≡ a
unfolding ones
bit_and-ones zero a = omega (arith, bit_and-zero a)
bit_and-ones (suc k) a = omega (
  arith,
  bit_and_lowest a (2 * ones k + 1),
  ap (λ (t : ℕ). bit_and (a / 2) t) {x = (2 * ones k + 1) / 2} {y = ones k} (omega arith),
  bit_and-ones k (a / 2),
  halve_first a k,
)

bit_and-power : (k a : ℕ) → bit_and a (2 ^ k) ≡ a / 2 ^ k % 2 * 2 ^ k
bit_and-power zero a = omega (arith, bit_and_lowest a 1, bit_and-zero (a / 2))
bit_and-power (suc k) a = omega (
  arith,
  bit_and_lowest a (2 ^ suc k),
  pow-suc 2 k,
  ap (λ (t : ℕ). bit_and (a / 2) t) {x = 2 ^ suc k / 2} {y = 2 ^ k} (omega (arith, pow-suc 2 k)),
  bit_and-power k (a / 2),
  ap (λ (t : ℕ). t % 2 * 2 ^ k)
      (div-div-eq-div-mul a 2 (2 ^ k)
        ∙ ap (λ (t : ℕ). a / t) {x = 2 * 2 ^ k} {y = 2 ^ suc k} (omega (arith, pow-suc 2 k))),
  double (a / 2 ^ suc k % 2) k,
)

-- The masks 0x7f and 31, and the tests of bit 7.
pub mask7 : (a : ℕ) → bit_and a 0x7f ≡ a % 128
unfolding ones
mask7 a = omega (arith, bit_and-ones 7 a)

pub mask5 : (a : ℕ) → bit_and a 31 ≡ a % 32
unfolding ones
mask5 a = omega (arith, bit_and-ones 5 a)

pub bit7 : (b : ℕ) → b < 256 → bit_and b 0x80 ≡ b / 128 * 128
bit7 b h = omega (arith, bit_and-power 7 b)

pub set_bit7 : (b : ℕ) → b < 128 → bit_or b 0x80 ≡ b + 128
set_bit7 b h = bit_or_high 7 b 1 (omega arith)
