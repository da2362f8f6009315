-- ===== src/Version.antt =====
-- janex-format/src/version.rs: Java versions, their order, and their syntax. Ranges are in
-- Version/Range.
mod Tests
pub mod Syntax
pub mod Order
pub mod Normal
pub mod Range
use Prim.Native.Nat.{Ordering, compare}
use janex.Base.{
  ℕ, zero, suc, ◌+◌, ◌^◌, Bool, true, false, not, ◌&&◌, ◌||◌, Option, none, some, List, [], ◌∷◌,
  ◌++◌, map, ltb, leb, ◌==◌, if◌then◌else◌, length, all, Bytes, ascii, is_digit, is_alphanumeric,
  is_empty, strip_prefix, split_once, split, trim_start, decimal_value,
}
use janex.Failure.{Result, ok, err, invalid, reject_if, ◌>>=◌, ◌>>◌}

pub record JavaVersion : Type 0 where
  pub numbers : List ℕ
  pub pre : Option Bytes

-- `order.then_with(|| next)`.
abbrev pub then_with : Ordering → Ordering → Ordering
then_with Ordering.lt next = Ordering.lt
then_with Ordering.eq next = next
then_with Ordering.gt next = Ordering.gt

-- The comparison of numbers index by index, where a missing element counts as zero.
unfoldable pub cmp_numbers : List ℕ → List ℕ → Ordering
cmp_numbers [] [] = Ordering.eq
cmp_numbers [] (b ∷ bs) = then_with (compare 0 b) (cmp_numbers [] bs)
cmp_numbers (a ∷ as') [] = then_with (compare a 0) (cmp_numbers as' [])
cmp_numbers (a ∷ as') (b ∷ bs) = then_with (compare a b) (cmp_numbers as' bs)

-- `a.cmp(b)` on strings: their bytes in lexicographic order.
unfoldable pub cmp_text : Bytes → Bytes → Ordering
cmp_text [] [] = Ordering.eq
cmp_text [] (b ∷ bs) = Ordering.lt
cmp_text (a ∷ as') [] = Ordering.gt
cmp_text (a ∷ as') (b ∷ bs) = then_with (compare a b) (cmp_text as' bs)

unfoldable pub numeric : Bytes → Bool
numeric text = not (is_empty text) && all is_digit text

unfoldable pub cmp_identifiers : Bool → Bool → Bytes → Bytes → Ordering
cmp_identifiers true true a b = then_with (compare (length a) (length b)) (cmp_text a b)
cmp_identifiers true false a b = Ordering.lt
cmp_identifiers false true a b = Ordering.gt
cmp_identifiers false false a b = cmp_text a b

unfoldable pub cmp_pre : Option Bytes → Option Bytes → Ordering
unfolding cmp_identifiers
cmp_pre none none = Ordering.eq
cmp_pre none (some b) = Ordering.gt
cmp_pre (some a) none = Ordering.lt
cmp_pre (some a) (some b) = cmp_identifiers (numeric a) (numeric b) a b

-- `JavaVersion::cmp`.
unfoldable pub cmp : JavaVersion → JavaVersion → Ordering
cmp a b = then_with (cmp_numbers a.numbers b.numbers) (cmp_pre a.pre b.pre)

abbrev pub starts_with_zero : Bytes → Bool
starts_with_zero [] = false
starts_with_zero (b ∷ _) = b == b'0'

-- `decimal`.
unfoldable pub decimal : Bytes → Result ℕ
unfolding numeric
decimal text = do
  reject_if (not (numeric text) || (ltb 1 (length text) && starts_with_zero text))
      (invalid "invalid Java version number")
  let value = decimal_value 0 text
  reject_if (not (ltb value (2 ^ 32))) (invalid "Java version number overflow")
  reject_if (ltb 0x7fff_ffff value) (invalid "Java version number exceeds Runtime.Version range")
  ok value

unfoldable pub validate_pre : Bytes → Result (Unit {0})
validate_pre text =
    reject_if (is_empty text || not (all is_alphanumeric text))
      (invalid "invalid Java prerelease identifier")

unfoldable pub validate_optional : Bytes → Result (Unit {0})
validate_optional text =
    reject_if (is_empty text || not (all (λ b. is_alphanumeric b || b == b'-' || b == b'.') text))
      (invalid "invalid Java optional version information")
