-- ===== src/Version/Range/Accepted.antt =====
-- janex-format/src/version.rs: the timelines that `JavaRange::parse` accepts, and what `contains`
-- says of them.
use janex.Base.{
  ◌≡◌, refl, ap, ◌∙◌, Bool, true, false, not, ◌&&◌, ◌||◌, Option, none, some, List, [], ◌∷◌,
  if◌then◌else◌, Bytes, arith, all, leb, ascii, strip_prefix, split, is_empty,
}
use janex.Failure.{
  ok, Ensures, holds, failed, Ensures-ok, Ensures-bind, Ensures-reject_if, Ensures-if, ok_or, any,
  reject_if, Error,
}
use janex.Version.{JavaVersion}
use janex.Version.Syntax.{parse}
use janex.Version.Range.{
  Comparator, equal, not_equal, greater_than, greater_equal, less_than, less_equal, greater, less,
  is_meaningful, JavaRange, not_increasing, is_equality, is_boundary, same_side, Seen, see,
  check_constraint, parse_items, prefixes, find_prefix, parse_range, starts_included, contains_from,
  contains, is_star,
}
use janex.Version.Range.Meaning.{
  at_version, bounds, in_pairs, in_first, first_is_upper, only_exclusions, in_range, unwrap_or,
  alternates, increases, contains_from-eq, start-eq,
}

-- Whether what comes after the constraints seen so far starts inside an interval.
inside_of : Option Comparator → Option Comparator → List (Comparator × JavaVersion) → Bool
inside_of none non_exclusion cs = if is_equality non_exclusion then false else starts_included cs
inside_of (some comparator) non_exclusion cs = greater comparator

record Follows (seen : Seen) (cs : List (Comparator × JavaVersion)) : Type 0 where
  up : increases seen.last cs ≡ true
  turns : alternates (inside_of seen.boundary seen.non_exclusion cs) cs ≡ true

turn :
    (b n : Option Comparator) (c : Comparator) (w : JavaVersion)
    (rest : List (Comparator × JavaVersion))
    → (is_meaningful c && (is_equality n && less c)) ≡ false
    → (is_boundary c && same_side b c) ≡ false
    → alternates
        (inside_of
          (if is_boundary c then some c else b)
          (if is_meaningful c then some c else n)
          rest)
        rest
      ≡ true
    → alternates (inside_of b n ((c, w) ∷ rest)) ((c, w) ∷ rest) ≡ true
unfolding alternates inside_of starts_included
turn none n equal w rest h k e = ground arith
turn none n not_equal w rest h k e = ground arith
turn none n greater_than w rest h k e = ground arith
turn none n greater_equal w rest h k e = ground arith
turn none n less_than w rest h k e = ground arith
turn none n less_equal w rest h k e = ground arith
turn (some p) n equal w rest h k e = ground arith
turn (some p) n not_equal w rest h k e = ground arith
turn (some p) n greater_than w rest h k e = ground arith
turn (some p) n greater_equal w rest h k e = ground arith
turn (some p) n less_than w rest h k e = ground arith
turn (some p) n less_equal w rest h k e = ground arith

-- What the checks on a constraint that pass say.
checked :
    (seen : Seen) (c : Comparator) (w : JavaVersion) (canonical : Bool)
    → Ensures
        (λ _.
          (not_increasing seen.last w ≡ false)
          × ((is_meaningful c && (is_equality seen.non_exclusion && less c)) ≡ false)
          × ((is_boundary c && same_side seen.boundary c) ≡ false))
        (check_constraint seen c w canonical)
unfolding check_constraint
checked seen c w canonical = Ensures-reject_if (not canonical) _ λ _.
    Ensures-reject_if (not_increasing seen.last w) _ λ h1.
      Ensures-reject_if (is_meaningful c && (is_equality seen.non_exclusion && less c)) _
        λ h2. last_check (is_boundary c && same_side seen.boundary c) _ λ h3. (h1, h2, h3)
  where
    last_check :
        (b : Bool) (e : Error) {P : Unit {0} → Type 0}
        → (b ≡ false → P tt)
        → Ensures P (reject_if b e)
    last_check true e h = failed
    last_check false e h = holds (h refl)

-- A constraint that passes the checks, before constraints that do.
follows :
    (seen : Seen) (c : Comparator) (w : JavaVersion) (rest : List (Comparator × JavaVersion))
    → not_increasing seen.last w ≡ false
    → (is_meaningful c && (is_equality seen.non_exclusion && less c)) ≡ false
    → (is_boundary c && same_side seen.boundary c) ≡ false
    → Follows (see seen c w) rest
    → Follows seen ((c, w) ∷ rest)
unfolding increases
follows seen c w rest h1 h2 h3 k = record {
  up = ground (arith, k.up);
  turns = turn seen.boundary seen.non_exclusion c w rest h2 h3 k.turns;
}

items-Follows : (items : List Bytes) (seen : Seen) → Ensures (Follows seen) (parse_items items seen)
unfolding parse_items increases alternates
items-Follows [] seen = holds (record { up = refl; turns = refl })
items-Follows (item ∷ items) seen =
    let c = (find_prefix prefixes item).0 in
    Ensures-bind {P = λ _. Unit {0}} (any (parse (find_prefix prefixes item).1)) λ (w, canonical) _.
      Ensures-bind (checked seen c w canonical) λ _ passed.
        Ensures-bind (items-Follows items (see seen c w))
          λ rest k. holds (follows seen c w rest passed.0 passed.1 passed.2 k)

abbrev nothing_seen : Seen
nothing_seen = record { last = none; non_exclusion = none; boundary = none }

body-Follows :
    (body : Bytes)
    → Ensures
        (Follows nothing_seen)
        (if is_star body then ok [] else parse_items (split b'|' body) nothing_seen)
unfolding increases alternates
body-Follows body =
    Ensures-if (is_star body) (λ _. holds (record { up = refl; turns = refl }))
      (λ _. items-Follows (split b'|' body) nothing_seen)

-- The constraints of a range that is accepted.
range-Follows :
    (text : Bytes) → Ensures (λ range. Follows nothing_seen range.constraints) (parse_range text)
unfolding parse_range
range-Follows text =
    Ensures-bind (any (ok_or (strip_prefix (ascii "vers:jep322/") text) _)) λ body _.
      Ensures-reject_if (not (all (λ b. leb 33 b && leb b 126) text)) _
        λ _. Ensures-bind (body-Follows body) λ cs h. holds h

-- Of a range that `JavaRange::parse` accepts, `contains` says for each version what the timeline
-- means: the constraint on the version itself decides; without one, the version is in if there are
-- exclusions only, or if it is in one of the intervals that the bounds make, of which the first
-- has no lower end when the first bound is an upper one.
pub contains-in_range :
    (text : Bytes) (range : JavaRange) (v : JavaVersion)
    → parse_range text ≡ ok range
    → contains range v ≡ in_range range.constraints v
unfolding contains in_range inside_of
contains-in_range text range v h =
    by_constraints range.constraints (Ensures-ok (range-Follows text) h)
  where
    by_constraints :
        (cs : List (Comparator × JavaVersion))
        → Follows nothing_seen cs
        → (if is_empty cs then true else contains_from (starts_included cs) cs v)
          ≡ unwrap_or (at_version cs v) (
              only_exclusions cs
              || (if first_is_upper cs then in_first (bounds cs) v else in_pairs (bounds cs) v))
    by_constraints [] k = refl
    by_constraints (c ∷ rest) k =
        contains_from-eq v (starts_included (c ∷ rest)) none (c ∷ rest) k.up k.turns
        ∙ ap (λ b. unwrap_or (at_version (c ∷ rest) v) b) (start-eq v (c ∷ rest) k.turns)
