-- ===== src/Version/Syntax.antt =====
-- janex-format/src/version.rs: `parse`, the syntax of a Java version and of its Java 8 aliases.
use janex.Base.{
  ℕ, zero, suc, Bool, true, false, not, ◌||◌, Option, none, some, List, [], ◌∷◌, ◌++◌, ltb, ◌==◌,
  if◌then◌else◌, length, all, Bytes, ascii, is_empty, strip_prefix, split_once, split, trim_start,
}
use janex.Failure.{Result, ok, err, invalid, reject_if, if_some, ◌>>=◌, ◌>>◌}
use janex.Version.{JavaVersion, numeric, decimal, validate_pre, validate_optional}

-- The numbers of a version without the zeros that end it; the first number stays.
abbrev pub keep_number : ℕ → List ℕ → List ℕ
keep_number x [] = if x == 0 then [] else x ∷ []
keep_number x (y ∷ ys) = x ∷ y ∷ ys

unfoldable pub strip_zeros : List ℕ → List ℕ
strip_zeros [] = []
strip_zeros (x ∷ xs) = keep_number x (strip_zeros xs)

unfoldable pub pop_zeros : List ℕ → List ℕ
unfolding strip_zeros
pop_zeros [] = []
pop_zeros (x ∷ xs) = x ∷ strip_zeros xs

unfoldable pub ends_in_zero : List ℕ → Bool
ends_in_zero [] = false
ends_in_zero (x ∷ []) = x == 0
ends_in_zero (x ∷ y ∷ xs) = ends_in_zero (y ∷ xs)

-- `numbers.len() == 1 || numbers.last() != Some(&0)`.
abbrev pub is_canonical : List ℕ → Bool
is_canonical numbers = length numbers == 1 || not (ends_in_zero numbers)

-- `number.split('.').map(decimal).collect()`.
unfoldable pub decimals : List Bytes → Result (List ℕ)
decimals [] = ok []
decimals (part ∷ parts) = do n ← decimal part; ns ← decimals parts; ok (n ∷ ns)

abbrev pub first_number : List ℕ → ℕ
first_number [] = 0
first_number (x ∷ _) = x

-- `split_once(separator).map_or((text, None), |(a, b)| (a, Some(b)))`.
abbrev pub split_option : ℕ → Bytes → Bytes × Option Bytes
split_option separator text = elim (split_once separator text) [
  | none ↦ (text, none)
  | some (a, b) ↦ (a, some b)
]

abbrev pub check_option : (Bytes → Result (Unit {0})) → Option Bytes → Result (Unit {0})
check_option check none = ok tt
check_option check (some text) = check text

abbrev pub is_some : Option Bytes → Bool
is_some none = false
is_some (some _) = true

-- The build behind `+`, with its optional information.
unfoldable pub check_build : Option Bytes → Option Bytes → Option Bytes → Result (Unit {0})
check_build pre optional none = ok tt
check_build pre optional (some text) = do
  reject_if (is_some optional) (invalid "optional version information must follow the build")
  let build = (split_option b'-' text).0
  let info = (split_option b'-' text).1
  if is_empty build
      then reject_if (is_some pre || not (is_some info)) (invalid "empty Java build number")
      else (do decimal build; ok tt)
  check_option validate_optional info

-- Leading zeros of a numeric prerelease are dropped.
unfoldable pub canonical_pre : Option Bytes → Option Bytes
canonical_pre none = none
canonical_pre (some pre) =
    let value = trim_start b'0' pre in
    if numeric pre then some (if is_empty value then ascii "0" else value) else some pre

-- The second and third part of `splitn(3, '-')`, from what follows the first dash.
abbrev pub pre_of : Option Bytes → Option Bytes
pre_of none = none
pre_of (some rest) = some (split_option b'-' rest).0

abbrev pub optional_of : Option Bytes → Option Bytes
optional_of none = none
optional_of (some rest) = (split_option b'-' rest).1

-- A version that is no alias: the numbers, the prerelease and the optional information that
-- `splitn(3, '-')` separates, and the build.
unfoldable pub parse_plain : Bytes → Result (JavaVersion × Bool)
parse_plain text = do
  let before_build = (split_option b'+' text).0
  let build = (split_option b'+' text).1
  let number = (split_option b'-' before_build).0
  let pre = pre_of (split_option b'-' before_build).1
  let optional = optional_of (split_option b'-' before_build).1
  numbers ← decimals (split b'.' number)
  reject_if (ltb (first_number numbers) 8) (invalid "Java feature version must be at least 8")
  check_option validate_pre pre
  check_option validate_optional optional
  check_build pre optional build
  ok (record { numbers = pop_zeros numbers; pre = canonical_pre pre }, is_canonical numbers)

-- The build of an update, `b` and digits.
abbrev pub build_suffix : Option Bytes → Option Bytes
build_suffix none = none
build_suffix (some suffix) = elim (strip_prefix (ascii "b") suffix) [
  | none ↦ none
  | some build ↦ if numeric build then some build else none
]

unfoldable pub update_alias : Bytes → Option Bytes → Option Bytes → Result Bytes
update_alias number suffix (some build) = do decimal build; ok (ascii "8.0." ++ number)
update_alias number (some pre) none = do
  validate_pre pre
  ok (ascii "8.0." ++ number ++ ascii "-" ++ pre)
update_alias number none none = ok (ascii "8.0." ++ number)

-- What `1.8.0` and the text behind it stand for.
unfoldable pub java_eight : Bytes → Result Bytes
unfolding update_alias
java_eight alias =
    if_some (strip_prefix (ascii "_") alias)
      (λ update. do
        let number = (split_option b'-' update).0
        let suffix = (split_option b'-' update).1
        decimal number
        update_alias number suffix (build_suffix suffix))
      (if_some (strip_prefix (ascii "-") alias) (λ pre. do validate_pre pre; ok (ascii "8-" ++ pre))
        (if is_empty alias then ok (ascii "8") else err (invalid "invalid Java 8 alias")))

-- The body of `parse`, where `again` parses what an alias stands for.
unfoldable pub parse_step :
    (Bytes → Result (JavaVersion × Bool)) → Bytes → Result (JavaVersion × Bool)
unfolding java_eight parse_plain
parse_step again text = do
  reject_if (is_empty text || not (all (λ b. ltb b 128) text)) (invalid "invalid Java version")
  if_some (strip_prefix (ascii "8u") text)
      (λ alias. do decimal alias; (version, _) ← again (ascii "8.0." ++ alias); ok (version, true))
      (if_some (strip_prefix (ascii "1.8.0") text)
        (λ alias. do
          canonical ← java_eight alias
          (version, _) ← again canonical
          ok (version, true))
        (parse_plain text))

-- `parse`; `fuel` bounds the aliases that are expanded one inside the other.
unfoldable pub parse_within : ℕ → Bytes → Result (JavaVersion × Bool)
unfolding parse_step
parse_within zero = λ _. err (invalid "invalid Java version")
parse_within (suc fuel) = parse_step (parse_within fuel)

-- An alias stands for a version that is none, so two rounds are enough.
unfoldable pub parse : Bytes → Result (JavaVersion × Bool)
unfolding parse_within
parse text = parse_within 2 text

-- `JavaVersion::parse`.
unfoldable pub parse_version : Bytes → Result JavaVersion
unfolding parse
parse_version text = do (version, _) ← parse text; ok version
