-- ===== src/Java/Manifest/Reading.antt =====
-- janex-java/src/manifest.rs: what is found in the manifest that `parse` reads from what `for_runtime` wrote.
use janex.Base.{
  Bool, true, false, ◌≡◌, refl, sym, ap, ◌∙◌, subst, Option, none, some, List, [], ◌∷◌, All, Bytes,
  ascii, bytes_eq, if◌then◌else◌,
}
use janex.Failure.{ok}
use janex.Java.{Limits}
use janex.Java.Map
use janex.Java.Map.{Map, get-insert}
use janex.Java.Manifest.{
  Manifest, Header, to_ascii_lowercase, for_runtime, signature_header, left_out_of_main, unwrap_or,
  get, entry_attribute, parse,
}
use janex.Java.Manifest.Written.{kept}
use janex.Java.Manifest.Runtime.{insert_all, kept_entries}
use janex.Java.Manifest.Lookups.{
  Distinct, or_else, get-insert_all, get-kept, kept-Distinct, get-insert_entries, entered,
  kept_entry, get-kept_entries, kept_entries-Distinct, unwritten, is_written, if_none,
}
use janex.Java.Manifest.Rebuilt.{IsHeld, rebuilt, version, parse-rebuilt}

or_else-none {ℓ} : {A : Type ℓ} (o : Option A) → or_else o none ≡ o
or_else-none none = refl
or_else-none (some a) = refl

-- What is looked up among attributes that were put into an empty map.
get-insert_kept :
    (wanted : Bytes) (is_left_out : Bytes → Bool) (attributes : Map Bytes)
    → Distinct attributes
    → Map.get wanted (insert_all (kept is_left_out attributes) [])
      ≡ (if is_left_out wanted then none else Map.get wanted attributes)
unfolding Map.get
get-insert_kept wanted is_left_out attributes h =
    get-insert_all wanted (kept is_left_out attributes) [] (kept-Distinct is_left_out attributes h)
    ∙ or_else-none (Map.get wanted (kept is_left_out attributes))
    ∙ get-kept wanted is_left_out attributes

version_left_out : left_out_of_main (ascii "manifest-version") ≡ true
unfolding bytes_eq
version_left_out = refl

get-rebuilt :
    (manifest : Manifest) (name : Bytes)
    → Distinct manifest.main
    → get (rebuilt manifest) name ≡ (
        if bytes_eq (to_ascii_lowercase name) (ascii "manifest-version")
        then some (version manifest)
        else if left_out_of_main (to_ascii_lowercase name)
        then none
        else get manifest name)
unfolding get Map.get
get-rebuilt manifest name h =
    let wanted = to_ascii_lowercase name in
    let others = kept left_out_of_main manifest.main in
    let headers = (ascii "manifest-version", version manifest) ∷ others in
    let first : Map.get (ascii "manifest-version") others ≡ none =
      get-kept (ascii "manifest-version") left_out_of_main manifest.main
      ∙ ap (λ (b : Bool). if b then none else Map.get (ascii "manifest-version") manifest.main)
          version_left_out in
    get-insert_all wanted headers [] (first, kept-Distinct left_out_of_main manifest.main h)
    ∙ or_else-none (Map.get wanted headers)
    ∙ ap
        (λ (o : Option Bytes).
          if bytes_eq wanted (ascii "manifest-version") then some (version manifest) else o)
        (get-kept wanted left_out_of_main manifest.main)

found-Distinct :
    (entry : Bytes) (entries : Map (Map Bytes)) (attributes : Map Bytes)
    → All (λ (e : Bytes × Map Bytes). Distinct e.1) entries
    → Map.get entry entries ≡ some attributes
    → Distinct attributes
unfolding Map.get
found-Distinct entry [] attributes h e = cc
found-Distinct entry ((name, held) ∷ entries) attributes h e =
    by_test (bytes_eq entry name) (found-Distinct entry entries attributes h.1) e
  where
    by_test :
        (b : Bool)
        → (Map.get entry entries ≡ some attributes → Distinct attributes)
        → (if b then some held else Map.get entry entries) ≡ some attributes
        → Distinct attributes
    by_test true rec same =
        subst Distinct (ap (λ (o : Option (Map Bytes)). unwrap_or o held) same) h.0
    by_test false rec same = rec same

entry_attribute-rebuilt :
    (manifest : Manifest) (entry name : Bytes)
    → Distinct manifest.entries
    → All (λ (e : Bytes × Map Bytes). Distinct e.1) manifest.entries
    → entry_attribute (rebuilt manifest) entry name ≡ (
        if signature_header (to_ascii_lowercase name)
        then none
        else entry_attribute manifest entry name)
unfolding entry_attribute Map.get
entry_attribute-rebuilt manifest entry name h each =
    ap in_entry (
      get-insert_entries entry (kept_entries manifest.entries) []
        (kept_entries-Distinct manifest.entries h)
      ∙ ap (λ (o : Option (List Header)). entered o none)
          (get-kept_entries entry manifest.entries h))
    ∙ by_entry (Map.get entry manifest.entries) refl
  where
    wanted : Bytes
    wanted = to_ascii_lowercase name

    in_entry : Option (Map Bytes) → Option Bytes
    in_entry none = none
    in_entry (some attributes) = Map.get wanted attributes

    by_written :
        (attributes : Map Bytes) (b : Bool)
        → is_written attributes ≡ b
        → Distinct attributes
        → in_entry (entered (if b then some (kept signature_header attributes) else none) none)
          ≡ (if signature_header wanted then none else Map.get wanted attributes)
    by_written attributes true e k = get-insert_kept wanted signature_header attributes k
    by_written attributes false e k = sym (unwritten wanted attributes e)

    by_entry :
        (found : Option (Map Bytes))
        → Map.get entry manifest.entries ≡ found
        → in_entry (entered (kept_entry found) none)
          ≡ (if signature_header wanted then none else in_entry found)
    by_entry none e = sym (if_none (signature_header wanted) refl)
    by_entry (some attributes) e =
        by_written attributes (is_written attributes) refl
          (found-Distinct entry manifest.entries attributes each e)

-- parse reads back the bytes that for_runtime writes, and finds in them what the manifest had: the
-- same main attributes but for Class-Path and those of signatures, with Manifest-Version 1.0 where
-- there was none, and the same attributes of every entry but for those of signatures. The manifest
-- is as parse keeps one: names are valid, in lower case and once each, none of them is Name, entry
-- names are not empty, and values are UTF-8 without line break or NUL. The list
-- of entries and each section with one header more keep to the element limit, each value and the
-- whole text to the byte limit, which is at least three; lengths fit 64 bits.
pub parse-for_runtime :
    (limits : Limits) (manifest : Manifest) (wanted entry name : Bytes)
    → IsHeld limits manifest
    → (parsed : Manifest) × (parse (for_runtime manifest) limits ≡ ok parsed)
      × (get parsed wanted ≡ (
          if bytes_eq (to_ascii_lowercase wanted) (ascii "manifest-version")
          then some (unwrap_or (get manifest (ascii "Manifest-Version")) (ascii "1.0"))
          else if left_out_of_main (to_ascii_lowercase wanted)
          then none
          else get manifest wanted))
      × (entry_attribute parsed entry name ≡ (
          if signature_header (to_ascii_lowercase name)
          then none
          else entry_attribute manifest entry name))
parse-for_runtime limits manifest wanted entry name h = (
  rebuilt manifest,
  parse-rebuilt limits manifest h,
  get-rebuilt manifest wanted h.main_distinct,
  entry_attribute-rebuilt manifest entry name h.entries_distinct h.attributes_distinct,
)
