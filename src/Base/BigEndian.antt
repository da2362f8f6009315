-- ===== src/Base/BigEndian.antt =====
-- Big-endian numbers: the fold by which the code reads them, and the bytes that stand for a number.
use Prim.Native.Nat.{ℕ, zero, suc, ◌+◌, ◌*◌, ◌/◌, ◌%◌, ◌^◌, ◌≤◌, ◌<◌, bit_or}
use mathlib.Core.Path.{◌≡◌, refl, ap, ◌∙◌}
use mathlib.Core.List.{[], ◌∷◌}
use native.Mathlib.Omega.{arith}
use native.Mathlib.Nat.{
  pow-suc, one-le-pow, mul-le-mul_right, mul-le-mul_left, mod-lt, div-lt_iff_lt-mul, div-add-mod',
  mul-add-div_right, div-eq_of_lt, mod-eq_of_lt, mul-add-mod_self_right,
}
use janex.Base.Bits.{bit_or_low}
use janex.Base.Lists.{length, All}
use janex.Base.Slices.{Bytes, IsByte}
use janex.Base.Checked.{u64_mod}

-- `bytes.iter().fold(value, |value, byte| (value << 8) | u64::from(*byte))`.
unfoldable pub fold_be : ℕ → Bytes → ℕ
fold_be value [] = value
fold_be value (b ∷ bs) = fold_be (bit_or (value * 256 % u64_mod) b) bs

-- The number by plain arithmetic, also `from_be_bytes` of the standard library.
abbrev pub be_num : Bytes → ℕ
be_num [] = 0
be_num (b ∷ bs) = b * 256 ^ length bs + be_num bs

-- The `width` bytes of a number.
unfoldable pub be_bytes : ℕ → ℕ → Bytes
be_bytes zero n = []
be_bytes (suc width) n = (n / 256 ^ width) ∷ be_bytes width (n % 256 ^ width)

pub be_num-lt : (bs : Bytes) → All IsByte bs → be_num bs < 256 ^ length bs
be_num-lt [] h = omega arith
be_num-lt (b ∷ bs) h = omega (
  arith,
  be_num-lt bs h.1,
  pow-suc 256 (length bs),
  mul-le-mul_right {m = b} {n = 255} (256 ^ length bs) (omega arith),
)

pub length-be_bytes : (width n : ℕ) → length (be_bytes width n) ≡ width
unfolding be_bytes
length-be_bytes zero n = refl
length-be_bytes (suc width) n = ap suc (length-be_bytes width (n % 256 ^ width))

div_lt : (a p q : ℕ) → 0 < p → a < q * p → a / p < q
div_lt a p q pos h = (div-lt_iff_lt-mul pos).1 h

pub be_bytes-IsByte : (width n : ℕ) → n < 256 ^ width → All IsByte (be_bytes width n)
unfolding be_bytes
be_bytes-IsByte zero n h = tt
be_bytes-IsByte (suc width) n h =
    let pos = one-le-pow width 256 (omega arith) in
    (
      div_lt n (256 ^ width) 256 pos (omega (arith, pow-suc 256 width)),
      be_bytes-IsByte width (n % 256 ^ width) (mod-lt n pos),
    )

pub be_num-be_bytes : (width n : ℕ) → n < 256 ^ width → be_num (be_bytes width n) ≡ n
unfolding be_bytes
be_num-be_bytes zero n h = omega arith
be_num-be_bytes (suc width) n h =
    let pos = one-le-pow width 256 (omega arith) in
    rw (length-be_bytes, be_num-be_bytes width (n % 256 ^ width) (mod-lt n pos))
      (div-add-mod' n (256 ^ width))

pub be_bytes-be_num : (bs : Bytes) → All IsByte bs → be_bytes (length bs) (be_num bs) ≡ bs
unfolding be_bytes
be_bytes-be_num [] h = refl
be_bytes-be_num (b ∷ bs) h =
    let pos = one-le-pow (length bs) 256 (omega arith) in
    let low = be_num-lt bs h.1 in
    rw (mul-add-div_right pos b (be_num bs), mul-add-mod_self_right b (256 ^ length bs) (be_num bs))
      (rw (div-eq_of_lt low, mod-eq_of_lt low, be_bytes-be_num bs h.1)
        (ap (λ (t : ℕ). t ∷ bs) (omega arith)))

-- Within 64 bits the fold is the plain number.
pub fold_be-eq :
    (value : ℕ) (bs : Bytes)
    → All IsByte bs
    → value * 256 ^ length bs + be_num bs < u64_mod
    → fold_be value bs ≡ value * 256 ^ length bs + be_num bs
unfolding fold_be
fold_be-eq value [] h fits = omega arith
fold_be-eq value (b ∷ bs) h fits =
    let pos = one-le-pow (length bs) 256 (omega arith) in
    let bound : value * 256 ≤ value * 256 * 256 ^ length bs =
      omega (arith, mul-le-mul_left {m = 1} {n = 256 ^ length bs} (value * 256) pos) in
    let regroup : value * 256 ^ length (b ∷ bs) ≡ value * 256 * 256 ^ length bs =
      omega (arith, ap (λ (t : ℕ). value * t) (pow-suc 256 (length bs))) in
    let exact : value * 256 % u64_mod ≡ value * 256 = mod-eq_of_lt (omega arith) in
    let both : bit_or (value * 256 % u64_mod) b ≡ value * 256 + b =
      rw exact (bit_or_low 8 value b h.0) in
    rw both (fold_be-eq (value * 256 + b) bs h.1 (omega arith) ∙ omega arith)
