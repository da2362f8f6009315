-- ===== src/Version/Range/Meaning.antt =====
-- janex-format/src/version.rs: the meaning of a timeline as a union of intervals with single
-- versions put in and taken out, and the loop of `contains` on it.
use Prim.Native.Nat.{Ordering}
use janex.Base.{
  ◌≡◌, refl, Bool, true, false, not, ◌&&◌, ◌||◌, Option, none, some, List, [], ◌∷◌, if◌then◌else◌,
  arith, all,
}
use janex.Failure.{}
use janex.Version.{JavaVersion, cmp}
use janex.Version.Order.{cmp-IsComparison}
use janex.Version.Range.{
  Comparator, equal, not_equal, greater_than, greater_equal, less_than, less_equal, greater, less,
  is_meaningful, includes, not_increasing, is_boundary, starts_included, contains_from,
}

-- `v < w`.
abbrev pub before : JavaVersion → JavaVersion → Bool
before v w = elim (cmp v w) [ Ordering.lt ↦ true | Ordering.eq ↦ false | Ordering.gt ↦ false ]

-- Whether the constraint on the version itself includes it, when there is one.
unfoldable pub at_version : List (Comparator × JavaVersion) → JavaVersion → Option Bool
at_version [] v = none
at_version ((comparator, w) ∷ rest) v = elim (cmp v w) [
  | Ordering.lt ↦ at_version rest v
  | Ordering.eq ↦ some (includes comparator)
  | Ordering.gt ↦ at_version rest v
]

abbrev pub unwrap_or : Option Bool → Bool → Bool
unwrap_or none b = b
unwrap_or (some a) b = a

-- The versions at which an interval starts or ends.
unfoldable pub bounds : List (Comparator × JavaVersion) → List JavaVersion
bounds [] = []
bounds ((comparator, w) ∷ rest) =
    let others = bounds rest in if is_boundary comparator then w ∷ others else others

-- The intervals between the first bound and the second, the third and the fourth, and so on.
unfoldable pub in_pairs : List JavaVersion → JavaVersion → Bool
in_pairs [] v = false
in_pairs (a ∷ []) v = before a v
in_pairs (a ∷ b ∷ rest) v = (before a v && before v b) || in_pairs rest v

-- The interval that ends at the first bound, and those that come after.
unfoldable pub in_first : List JavaVersion → JavaVersion → Bool
unfolding in_pairs
in_first [] v = true
in_first (b ∷ rest) v = before v b || in_pairs rest v

-- Whether the first bound ends an interval.
unfoldable pub first_is_upper : List (Comparator × JavaVersion) → Bool
first_is_upper [] = false
first_is_upper ((comparator, _) ∷ rest) =
    let others = first_is_upper rest in
    if less comparator then true else if greater comparator then false else others

unfoldable pub only_exclusions : List (Comparator × JavaVersion) → Bool
only_exclusions [] = true
only_exclusions ((comparator, _) ∷ rest) = not (is_meaningful comparator) && only_exclusions rest

-- A version is in a range when the constraint on it says so. Without one it is in when the range
-- has only exclusions, and else when it is in an interval.
unfoldable pub in_range : List (Comparator × JavaVersion) → JavaVersion → Bool
unfolding at_version bounds in_pairs in_first first_is_upper only_exclusions
in_range constraints v = unwrap_or (at_version constraints v) (
    only_exclusions constraints
    || (if first_is_upper constraints
        then in_first (bounds constraints) v
        else in_pairs (bounds constraints) v))

-- The bounds start and end intervals in turn, from inside an interval or not.
unfoldable pub alternates : Bool → List (Comparator × JavaVersion) → Bool
alternates inside [] = true
alternates inside ((comparator, _) ∷ rest) =
    let from_inside = alternates true rest in
    let from_outside = alternates false rest in
    if greater comparator
    then not inside && from_inside
    else if less comparator
    then inside && from_outside
    else if inside
    then from_inside
    else from_outside

-- The versions increase, from what stands before them.
unfoldable pub increases : Option JavaVersion → List (Comparator × JavaVersion) → Bool
increases last [] = true
increases last ((_, w) ∷ rest) = not (not_increasing last w) && increases (some w) rest

module _ (v : JavaVersion) where
  late_pairs : (bs : List JavaVersion) → all (before v) bs ≡ true → in_pairs bs v ≡ false
  unfolding in_pairs
  late_pairs [] h = refl
  late_pairs (a ∷ []) h = ground (arith, cmp-IsComparison.flips v a)
  late_pairs (a ∷ b ∷ rest) h = ground (arith, cmp-IsComparison.flips v a, late_pairs rest)

  late_first : (bs : List JavaVersion) → all (before v) bs ≡ true → in_first bs v ≡ true
  unfolding in_first
  late_first [] h = refl
  late_first (b ∷ rest) h = ground arith

  -- A version before a timeline is at none of its versions, and before its bounds.
  early :
      (u : JavaVersion) (cs : List (Comparator × JavaVersion))
      → increases (some u) cs ≡ true
      → cmp v u ≡ Ordering.lt
      → (at_version cs v ≡ none) × (all (before v) (bounds cs) ≡ true)
  unfolding increases at_version bounds
  early u [] h k = (refl, refl)
  early u ((c, w) ∷ rest) h k = ground (arith, later, early w rest)
    where
      later : cmp v w ≡ Ordering.lt
      later = cmp-IsComparison.lt_trans v u w k (ground arith)

  -- What the rest of a timeline says of the version, from inside an interval or not.
  pub region : Bool → List JavaVersion → Bool
  region true bs = in_first bs v
  region false bs = in_pairs bs v

  late_region :
      (inside : Bool) (bs : List JavaVersion) → all (before v) bs ≡ true → region inside bs ≡ inside
  unfolding region
  late_region true bs h = late_first bs h
  late_region false bs h = late_pairs bs h

  -- Whether an interval is open behind a constraint.
  next : Bool → Comparator → Bool
  next inside comparator =
      if less comparator then false else if greater comparator then true else inside

  enter :
      (w : JavaVersion) (bs : List JavaVersion)
      → before w v ≡ true
      → in_pairs (w ∷ bs) v ≡ in_first bs v
  unfolding in_pairs in_first
  enter w [] h = h
  enter w (b ∷ rest) h = ground arith

  -- A constraint that the version is behind opens an interval, closes one, or changes nothing.
  past :
      (w : JavaVersion) (c : Comparator) (rest : List (Comparator × JavaVersion)) (inside : Bool)
      → alternates inside ((c, w) ∷ rest) ≡ true
      → cmp v w ≡ Ordering.gt
      → (alternates (next inside c) rest ≡ true)
        × (region inside (bounds ((c, w) ∷ rest)) ≡ region (next inside c) (bounds rest))
  unfolding next bounds alternates region in_first
  past w equal rest true k e = (k, refl)
  past w equal rest false k e = (k, refl)
  past w not_equal rest true k e = (k, refl)
  past w not_equal rest false k e = (k, refl)
  past w greater_than rest true k e = cc
  past w greater_than rest false k e =
      (k, enter w (bounds rest) (ground (arith, cmp-IsComparison.flips v w)))
  past w greater_equal rest true k e = cc
  past w greater_equal rest false k e =
      (k, enter w (bounds rest) (ground (arith, cmp-IsComparison.flips v w)))
  past w less_than rest true k e = (k, ground arith)
  past w less_than rest false k e = cc
  past w less_equal rest true k e = (k, ground arith)
  past w less_equal rest false k e = cc

  -- The loop, from a place of the timeline that the version is behind.
  pub contains_from-eq :
      (inside : Bool) (last : Option JavaVersion) (cs : List (Comparator × JavaVersion))
      → increases last cs ≡ true
      → alternates inside cs ≡ true
      → contains_from inside cs v ≡ unwrap_or (at_version cs v) (region inside (bounds cs))
  unfolding increases at_version bounds contains_from alternates in_first in_pairs region next
  contains_from-eq inside last [] h k = ground arith
  contains_from-eq inside last ((c, w) ∷ rest) h k =
      by_order (contains_from-eq (next inside c) (some w) rest (ground arith)) (cmp v w) refl
    where
      up : increases (some w) rest ≡ true
      up = ground arith

      by_order :
          (alternates (next inside c) rest ≡ true
            → contains_from (next inside c) rest v
              ≡ unwrap_or (at_version rest v) (region (next inside c) (bounds rest)))
          → (o : Ordering) → cmp v w ≡ o
          → contains_from inside ((c, w) ∷ rest) v
            ≡ unwrap_or (at_version ((c, w) ∷ rest) v) (region inside (bounds ((c, w) ∷ rest)))
      by_order after Ordering.lt e =
          ground (arith, early w rest up e, late_region inside (bounds ((c, w) ∷ rest)))
      by_order after Ordering.eq e = ground arith
      by_order after Ordering.gt e = ground (arith, past w c rest inside k e, after)

  outside-first :
      (cs : List (Comparator × JavaVersion))
      → alternates false cs ≡ true
      → first_is_upper cs ≡ false
  unfolding alternates first_is_upper
  outside-first [] h = refl
  outside-first ((equal, w) ∷ rest) h = outside-first rest h
  outside-first ((not_equal, w) ∷ rest) h = outside-first rest h
  outside-first ((greater_than, w) ∷ rest) h = refl
  outside-first ((greater_equal, w) ∷ rest) h = refl
  outside-first ((less_than, w) ∷ rest) h = cc
  outside-first ((less_equal, w) ∷ rest) h = cc

  -- At the start of a timeline.
  pub start-eq :
      (cs : List (Comparator × JavaVersion))
      → alternates (starts_included cs) cs ≡ true
      → region (starts_included cs) (bounds cs) ≡ (
          only_exclusions cs
          || (if first_is_upper cs then in_first (bounds cs) v else in_pairs (bounds cs) v))
  unfolding starts_included alternates bounds only_exclusions first_is_upper region in_first
      in_pairs
  start-eq [] h = refl
  start-eq ((not_equal, w) ∷ rest) h = start-eq rest (ground arith)
  start-eq ((equal, w) ∷ rest) h = ground (arith, outside-first rest h)
  start-eq ((greater_than, w) ∷ rest) h = refl
  start-eq ((greater_equal, w) ∷ rest) h = refl
  start-eq ((less_than, w) ∷ rest) h = refl
  start-eq ((less_equal, w) ∷ rest) h = refl
