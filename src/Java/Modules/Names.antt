-- ===== src/Java/Modules/Names.antt =====
-- janex-java/src/modules.rs: the names and versions that `automatic` derives.
use janex.Base.{
  ℕ, suc, ◌+◌, ◌<◌, Bool, true, false, ◌&&◌, ◌≡◌, refl, ap, ◌∙◌, subst, ◌⊎◌, inl, inr, Option, none,
  some, List, [], ◌∷◌, ◌++◌, All, all, take, drop, ltb, ◌==◌, if◌then◌else◌, Bytes, ascii, split,
  strip_suffix, is_alphanumeric, is_empty, arith,
}
use janex.Java.Modules.{
  find_boundary, leading_digits, ends_or_dot, push_count, push_first, split_parts, filter_nonempty,
  join_dots, version_after, stem_before, is_version, unwrap_or, automatic,
}

-- A part of a module name: letters and digits, and at least one.
abbrev pub IsPart : Bytes → Type 0
IsPart part = (is_empty part ≡ false) × (all is_alphanumeric part ≡ true)

push_first-alphanumeric :
    (b : ℕ) (parts : List Bytes)
    → is_alphanumeric b ≡ true
    → All (λ part. all is_alphanumeric part ≡ true) parts
    → All (λ part. all is_alphanumeric part ≡ true) (push_first b parts)
push_first-alphanumeric b [] h k = (rw h refl, tt)
push_first-alphanumeric b (part ∷ parts) h k = (rw h k.0, k.1)

split_parts-alphanumeric :
    (bytes : Bytes) → All (λ part. all is_alphanumeric part ≡ true) (split_parts bytes)
unfolding split_parts
split_parts-alphanumeric [] = (refl, tt)
split_parts-alphanumeric (b ∷ bytes) =
    by_test (is_alphanumeric b) refl (split_parts-alphanumeric bytes)
  where
    by_test :
        (t : Bool)
        → is_alphanumeric b ≡ t
        → All (λ part. all is_alphanumeric part ≡ true) (split_parts bytes)
        → All
            (λ part. all is_alphanumeric part ≡ true)
            (if t then push_first b (split_parts bytes) else [] ∷ split_parts bytes)
    by_test true e h = push_first-alphanumeric b (split_parts bytes) e h
    by_test false e h = (refl, h)

filter_nonempty-IsPart :
    (parts : List Bytes)
    → All (λ part. all is_alphanumeric part ≡ true) parts
    → All IsPart (filter_nonempty parts)
unfolding filter_nonempty
filter_nonempty-IsPart [] h = tt
filter_nonempty-IsPart ([] ∷ parts) h = filter_nonempty-IsPart parts h.1
filter_nonempty-IsPart ((b ∷ part) ∷ parts) h = ((refl, h.0), filter_nonempty-IsPart parts h.1)

no_dot : (b : ℕ) → is_alphanumeric b ≡ true → (b == b'.') ≡ false
no_dot b h = ground arith

split-part : (part : Bytes) → all is_alphanumeric part ≡ true → split b'.' part ≡ part ∷ []
unfolding split
split-part [] h = refl
split-part (b ∷ part) h = rw (no_dot b (ground arith), split-part part (ground arith)) refl

split-dot :
    (part rest : Bytes)
    → all is_alphanumeric part ≡ true
    → split b'.' (part ++ b'.' ∷ rest) ≡ part ∷ split b'.' rest
unfolding split
split-dot [] rest h = refl
split-dot (b ∷ part) rest h = rw (no_dot b (ground arith), split-dot part rest (ground arith)) refl

-- Joined parts are the parts of the whole.
split-join_dots :
    (part : Bytes) (parts : List Bytes)
    → All IsPart (part ∷ parts)
    → split b'.' (join_dots (part ∷ parts)) ≡ part ∷ parts
unfolding join_dots
split-join_dots part [] h = split-part part h.0.1
split-join_dots part (next ∷ parts) h =
    split-dot part (join_dots (next ∷ parts)) h.0.1
    ∙ ap (λ (t : List Bytes). part ∷ t) (split-join_dots next parts h.1)

join_dots-parts :
    (parts : List Bytes)
    → All IsPart parts
    → (join_dots parts ≡ []) ⊎ All IsPart (split b'.' (join_dots parts))
unfolding join_dots
join_dots-parts [] h = inl refl
join_dots-parts (part ∷ parts) h = inr (rw (split-join_dots part parts h) h)

-- Without a name in the manifest, automatic derives a name that is empty, or whose parts between
-- dots are all letters and digits, and at least one of them.
pub automatic-IsPart :
    (file : Bytes)
    → ((automatic file none).name ≡ []) ⊎ All IsPart (split b'.' (automatic file none).name)
unfolding automatic
automatic-IsPart file =
    let stem = unwrap_or (strip_suffix (ascii ".jar") file) file in
    join_dots-parts (filter_nonempty (split_parts (stem_before (find_boundary stem) stem))) (
      filter_nonempty-IsPart (split_parts (stem_before (find_boundary stem) stem))
        (split_parts-alphanumeric (stem_before (find_boundary stem) stem)))

-- At `i` a hyphen stands before digits.
abbrev IsBoundary : Bytes → ℕ → Type 0
IsBoundary bytes i =
    (bytes ≡ take i bytes ++ b'-' ∷ drop (suc i) bytes) × (0 < leading_digits (drop (suc i) bytes))

find_boundary-digits : (bytes : Bytes) (i : ℕ) → find_boundary bytes ≡ some i → IsBoundary bytes i
unfolding find_boundary
find_boundary-digits [] i h = cc
find_boundary-digits (b ∷ bytes) i h =
    by_test
      (b == b'-' && ltb 0 (leading_digits bytes) && ends_or_dot (drop (leading_digits bytes) bytes))
      refl (find_boundary bytes) (find_boundary-digits bytes) h
  where
    by_test :
        (t : Bool)
        → (b == b'-'
            && ltb 0 (leading_digits bytes)
            && ends_or_dot (drop (leading_digits bytes) bytes))
          ≡ t
        → (found : Option ℕ) → ((j : ℕ) → found ≡ some j → IsBoundary bytes j)
        → (if t then some 0 else push_count found) ≡ some i
        → IsBoundary (b ∷ bytes) i
    by_test true e found rec k =
        let hyphen : b ≡ b'-' = ground arith in
        let digits : 0 < leading_digits bytes = ground arith in
        subst (IsBoundary (b ∷ bytes)) {x = 0} (cc) (ap (λ (t : ℕ). t ∷ bytes) hyphen, digits)
    by_test false e none rec k = cc
    by_test false e (some j) rec k =
        let there = rec j refl in
        subst (IsBoundary (b ∷ bytes)) {x = suc j} (cc) (ap (λ (t : Bytes). b ∷ t) there.0, there.1)

-- A version that automatic derives begins with a digit, and stands at the end of the file's name
-- without `.jar`, behind a hyphen.
pub automatic-version :
    (file : Bytes) (manifest_name : Option Bytes) (version : Bytes)
    → (automatic file manifest_name).version ≡ some version
    → (front : Bytes) × (unwrap_or (strip_suffix (ascii ".jar") file) file
        ≡ front ++ b'-' ∷ version)
      × (0 < leading_digits version)
unfolding automatic version_after
automatic-version file manifest_name version h = by_boundary (find_boundary stem) refl h
  where
    stem : Bytes
    stem = unwrap_or (strip_suffix (ascii ".jar") file) file

    by_version :
        (i : ℕ) (t : Bool)
        → IsBoundary stem i
        → (if t then some (drop (i + 1) stem) else none) ≡ some version
        → (front : Bytes) × (stem ≡ front ++ b'-' ∷ version) × (0 < leading_digits version)
    by_version i true there k =
        let same : drop (suc i) stem ≡ version =
          ap (λ (t : ℕ). drop t stem) {x = suc i} {y = i + 1} (omega arith) ∙ cc in
        (
          take i stem,
          there.0 ∙ ap (λ (t : Bytes). take i stem ++ b'-' ∷ t) same,
          subst (λ (t : Bytes). 0 < leading_digits t) same there.1,
        )
    by_version i false there k = cc

    by_boundary :
        (found : Option ℕ)
        → find_boundary stem ≡ found
        → version_after found stem ≡ some version
        → (front : Bytes) × (stem ≡ front ++ b'-' ∷ version) × (0 < leading_digits version)
    by_boundary none e k = cc
    by_boundary (some i) e k =
        by_version i (is_version (drop (i + 1) stem)) (find_boundary-digits stem i e) k
