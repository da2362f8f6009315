-- ===== src/Version/Range.antt =====
-- janex-format/src/version.rs: `Comparator` and `JavaRange`, canonical ranges of Java versions.
pub mod Meaning
pub mod Accepted
use Prim.Native.Nat.{Ordering, compare}
use janex.Base.{
  ℕ, zero, suc, Bool, true, false, not, ◌&&◌, ◌||◌, Option, none, some, List, [], ◌∷◌, ◌++◌, ltb,
  leb, ◌==◌, if◌then◌else◌, length, all, Bytes, ascii, is_empty, strip_prefix, split,
}
use janex.Failure.{Result, ok, err, invalid, reject_if, if_some, ok_or, ◌>>=◌, ◌>>◌}
use janex.Version.{JavaVersion, cmp}
use janex.Version.Syntax.{parse}

pub data Comparator : Type 0 where
  equal not_equal greater_than greater_equal less_than less_equal : Comparator

-- `Comparator::greater` and `Comparator::less`: the comparators that start and end an interval.
abbrev pub greater : Comparator → Bool
greater equal = false
greater not_equal = false
greater greater_than = true
greater greater_equal = true
greater less_than = false
greater less_equal = false

abbrev pub less : Comparator → Bool
less equal = false
less not_equal = false
less greater_than = false
less greater_equal = false
less less_than = true
less less_equal = true

-- `comparator != Comparator::NotEqual`.
abbrev pub is_meaningful : Comparator → Bool
is_meaningful equal = true
is_meaningful not_equal = false
is_meaningful greater_than = true
is_meaningful greater_equal = true
is_meaningful less_than = true
is_meaningful less_equal = true

-- `Equal | GreaterEqual | LessEqual`.
abbrev pub includes : Comparator → Bool
includes equal = true
includes not_equal = false
includes greater_than = false
includes greater_equal = true
includes less_than = false
includes less_equal = true

pub record JavaRange : Type 0 where
  pub text : Bytes
  pub constraints : List (Comparator × JavaVersion)

-- The first prefix that an item has, in the order of the table.
unfoldable pub find_prefix : List (Bytes × Comparator) → Bytes → Comparator × Bytes
find_prefix [] item = (equal, item)
find_prefix ((prefix, comparator) ∷ rest) item =
    if_some (strip_prefix prefix item) (λ version. (comparator, version)) (find_prefix rest item)

abbrev pub prefixes : List (Bytes × Comparator)
prefixes =
    (ascii ">=", greater_equal)
    ∷ (ascii "<=", less_equal)
    ∷ (ascii "!=", not_equal)
    ∷ (ascii ">", greater_than)
    ∷ (ascii "<", less_than)
    ∷ (ascii "=", equal)
    ∷ []

-- `constraints.last().is_some_and(|(_, previous)| previous >= &version)`.
abbrev pub not_increasing : Option JavaVersion → JavaVersion → Bool
not_increasing none version = false
not_increasing (some previous) version = elim (cmp previous version) [
  | Ordering.lt ↦ false
  | Ordering.eq ↦ true
  | Ordering.gt ↦ true
]

-- `previous_non_exclusion == Some(Comparator::Equal)`.
abbrev pub is_equality : Option Comparator → Bool
is_equality none = false
is_equality (some equal) = true
is_equality (some not_equal) = false
is_equality (some greater_than) = false
is_equality (some greater_equal) = false
is_equality (some less_than) = false
is_equality (some less_equal) = false

abbrev pub is_boundary : Comparator → Bool
is_boundary comparator = greater comparator || less comparator

-- `previous_boundary.is_some_and(|previous| previous.greater() == comparator.greater())`.
abbrev pub same_side : Option Comparator → Comparator → Bool
same_side none comparator = false
same_side (some previous) comparator =
    if greater previous then greater comparator else not (greater comparator)

-- What the loop of `JavaRange::parse` keeps: the last version, the last comparator that is no
-- exclusion, and the last boundary.
pub record Seen : Type 0 where
  pub last : Option JavaVersion
  pub non_exclusion : Option Comparator
  pub boundary : Option Comparator

abbrev pub see : Seen → Comparator → JavaVersion → Seen
see seen comparator version = record {
  last = some version;
  non_exclusion = if is_meaningful comparator then some comparator else seen.non_exclusion;
  boundary = if is_boundary comparator then some comparator else seen.boundary;
}

-- The checks on one constraint.
unfoldable pub check_constraint : Seen → Comparator → JavaVersion → Bool → Result (Unit {0})
check_constraint seen comparator version canonical = do
  reject_if (not canonical) (invalid "noncanonical Java version in VERS")
  reject_if (not_increasing seen.last version)
      (invalid "VERS versions must be unique and increasing")
  reject_if (is_meaningful comparator && (is_equality seen.non_exclusion && less comparator))
      (invalid "VERS equality cannot be followed by an upper bound")
  reject_if (is_boundary comparator && same_side seen.boundary comparator)
      (invalid "VERS lower and upper bounds must alternate")

-- The constraints that the loop pushes for the items.
unfoldable pub parse_items : List Bytes → Seen → Result (List (Comparator × JavaVersion))
unfolding find_prefix check_constraint
parse_items [] seen = ok []
parse_items (item ∷ items) seen = do
  let comparator = (find_prefix prefixes item).0
  (version, canonical) ← parse (find_prefix prefixes item).1
  check_constraint seen comparator version canonical
  rest ← parse_items items (see seen comparator version)
  ok ((comparator, version) ∷ rest)

-- `body == "*"`.
abbrev pub is_star : Bytes → Bool
is_star [] = false
is_star (b ∷ []) = b == b'*'
is_star (b ∷ c ∷ rest) = false

-- `JavaRange::parse`.
unfoldable pub parse_range : Bytes → Result JavaRange
unfolding parse_items
parse_range text = do
  body ← ok_or (strip_prefix (ascii "vers:jep322/") text) (invalid "expected a vers:jep322 range")
  reject_if (not (all (λ b. leb 33 b && leb b 126) text))
      (invalid "VERS must use printable ASCII without whitespace")
  constraints ←
      if is_star body
      then ok []
      else parse_items (split b'|' body)
          (record { last = none; non_exclusion = none; boundary = none })
  ok (record { text = text; constraints = constraints })

-- `meaningful.is_none_or(|(comparator, _)| comparator.less())`.
unfoldable pub starts_included : List (Comparator × JavaVersion) → Bool
starts_included [] = true
starts_included ((comparator, _) ∷ rest) =
    if is_meaningful comparator then less comparator else starts_included rest

-- The loop of `contains`.
unfoldable pub contains_from : Bool → List (Comparator × JavaVersion) → JavaVersion → Bool
contains_from included [] candidate = included
contains_from included ((comparator, version) ∷ rest) candidate =
    let after =
      contains_from
        (if less comparator then false else if greater comparator then true else included) rest
        candidate in
    elim (cmp candidate version) [
      | Ordering.lt ↦ included
      | Ordering.eq ↦ includes comparator
      | Ordering.gt ↦ after
    ]

-- `JavaRange::contains`.
unfoldable pub contains : JavaRange → JavaVersion → Bool
unfolding contains_from starts_included
contains range candidate =
    if is_empty range.constraints
    then true
    else contains_from (starts_included range.constraints) range.constraints candidate
