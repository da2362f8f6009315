-- ===== src/Version/Tests.antt =====
-- Runs of the version parser, and its theorems at concrete inputs.
use Prim.Native.Nat.{Ordering}
use janex.Base.{
  ◌≡◌, ◌↔◌, refl, true, none, [], ◌∷◌, arith, ascii, strip_prefix, split, split_once, decimal_value,
}
use janex.Failure.{ok, err, invalid}
use janex.Version.{JavaVersion, cmp, cmp_numbers, decimal}
use janex.Version.Syntax.{
  parse_within, parse, parse_version, decimals, check_build, pop_zeros, canonical_pre, ends_in_zero,
}
use janex.Version.Normal.{IsNormal, parse_version-IsNormal, parse_within-parse, cmp-eq}
use janex.Version.Range.{JavaRange, parse_range, contains, greater_equal, less_than, not_equal}
use janex.Version.Range.Meaning.{in_range}
use janex.Version.Range.Accepted.{contains-in_range}

abbrev version17 : JavaVersion
version17 = record { numbers = 17 ∷ 0 ∷ 1 ∷ []; pre = none }

abbrev version21 : JavaVersion
version21 = record { numbers = 21 ∷ []; pre = none }

abbrev range : JavaRange
range = record {
  text = ascii "vers:jep322/>=17|!=17.0.1|<21";
  constraints =
      (greater_equal, record { numbers = 17 ∷ []; pre = none })
      ∷ (not_equal, version17)
      ∷ (less_than, version21)
      ∷ [];
}

parse17 : parse_version (ascii "17.0.1+12") ≡ ok version17
unfolding parse_version strip_prefix decimals split split_once decimal decimal_value check_build
    pop_zeros canonical_pre
parse17 = refl

parse_update : parse (ascii "8u292") ≡ ok (record { numbers = 8 ∷ 0 ∷ 292 ∷ []; pre = none }, true)
unfolding parse strip_prefix decimals split split_once decimal decimal_value check_build pop_zeros
    canonical_pre
parse_update = refl

parse_old : parse_version (ascii "7") ≡ err (invalid "Java feature version must be at least 8")
unfolding parse_version strip_prefix decimals split split_once decimal decimal_value check_build
    pop_zeros canonical_pre
parse_old = refl

parse_range_run : parse_range (ascii "vers:jep322/>=17|!=17.0.1|<21") ≡ ok range
unfolding parse_range parse ends_in_zero cmp cmp_numbers strip_prefix decimals split split_once
    decimal decimal_value check_build pop_zeros canonical_pre
parse_range_run = refl

parse_version-IsNormal_example : IsNormal version17
parse_version-IsNormal_example = parse_version-IsNormal (ascii "17.0.1+12") version17 parse17

parse_within-parse_example : parse_within 7 (ascii "1.8.0_292-b10") ≡ parse (ascii "1.8.0_292-b10")
parse_within-parse_example = parse_within-parse 5 (ascii "1.8.0_292-b10")

is_normal21 : IsNormal version21
unfolding ends_in_zero
is_normal21 = record { feature = omega arith; no_end_zero = refl }

cmp-eq_example : (cmp version17 version21 ≡ Ordering.eq) ↔ (version17 ≡ version21)
cmp-eq_example = cmp-eq version17 version21 parse_version-IsNormal_example is_normal21

contains-in_range_example : contains range version17 ≡ in_range range.constraints version17
contains-in_range_example =
    contains-in_range (ascii "vers:jep322/>=17|!=17.0.1|<21") range version17 parse_range_run
