-- ===== src/Java/Manifest/Lookups.antt =====
-- janex-java/src/manifest.rs: what is found in maps that attributes and entries were put into.
use janex.Base.{
  Bool, true, false, not, ◌≡◌, refl, sym, ap, ◌∙◌, Option, none, some, List, [], ◌∷◌, any, Bytes,
  bytes_eq, bytes_eq→eq, if◌then◌else◌, arith,
}
use janex.Java.Map
use janex.Java.Map.{Map, get-insert}
use janex.Java.Manifest.{Header, unwrap_or, signature_header}
use janex.Java.Manifest.Written.{kept}
use janex.Java.Manifest.Runtime.{insert_all, insert_entries, kept_entries}

-- No key stands twice, as in every map.
abbrev pub Distinct {ℓ} : {V : Type ℓ} → Map V → Type ℓ
Distinct [] = Unit
Distinct ((key, value) ∷ map) = (Map.get key map ≡ none) × Distinct map

abbrev pub or_else {ℓ} : {A : Type ℓ} → Option A → Option A → Option A
or_else none other = other
or_else (some a) other = some a

pub get-same {ℓ} :
    {V : Type ℓ} (wanted key : Bytes) (map : Map V)
    → bytes_eq wanted key ≡ true
    → Map.get wanted map ≡ Map.get key map
get-same wanted key map e = ap (λ (t : Bytes). Map.get t map) (bytes_eq→eq wanted key e)

pub get-insert_all :
    (wanted : Bytes) (headers : List Header) (target : Map Bytes)
    → Distinct headers
    → Map.get wanted (insert_all headers target)
      ≡ or_else (Map.get wanted headers) (Map.get wanted target)
unfolding Map.get
get-insert_all wanted [] target h = refl
get-insert_all wanted ((name, value) ∷ headers) target h =
    get-insert_all wanted headers (Map.insert name value target) h.1
    ∙ ap (or_else (Map.get wanted headers)) (get-insert name wanted value target)
    ∙ by_test (bytes_eq wanted name) refl
  where
    by_test :
        (b : Bool)
        → bytes_eq wanted name ≡ b
        → or_else (Map.get wanted headers) (if b then some value else Map.get wanted target)
          ≡ or_else (if b then some value else Map.get wanted headers) (Map.get wanted target)
    by_test true e =
        ap (λ (t : Option Bytes). or_else t (some value)) (get-same wanted name headers e ∙ h.0)
    by_test false e = refl

pub get-kept :
    (wanted : Bytes) (is_left_out : Bytes → Bool) (attributes : List Header)
    → Map.get wanted (kept is_left_out attributes)
      ≡ (if is_left_out wanted then none else Map.get wanted attributes)
unfolding Map.get
get-kept wanted is_left_out [] = ground arith
get-kept wanted is_left_out ((name, value) ∷ attributes) =
    by_test (is_left_out name) refl (bytes_eq wanted name) refl
      (get-kept wanted is_left_out attributes)
  where
    by_test :
        (b : Bool)
        → is_left_out name ≡ b
        → (c : Bool) → bytes_eq wanted name ≡ c
        → Map.get wanted (kept is_left_out attributes)
          ≡ (if is_left_out wanted then none else Map.get wanted attributes)
        → Map.get wanted
            (if b then kept is_left_out attributes else (name, value) ∷ kept is_left_out attributes)
          ≡ (if is_left_out wanted
              then none
              else if c
              then some value
              else Map.get wanted attributes)
    by_test true left true same rec =
        let out : is_left_out wanted ≡ true =
          ap is_left_out (bytes_eq→eq wanted name same) ∙ left in
        rec ∙ ground arith
    by_test true left false same rec = rec
    by_test false left true same rec =
        let out : is_left_out wanted ≡ false =
          ap is_left_out (bytes_eq→eq wanted name same) ∙ left in
        ground arith
    by_test false left false same rec = ground (arith, rec)

pub if_none {ℓ} : {A : Type ℓ} {o : Option A} (b : Bool) → o ≡ none → (if b then none else o) ≡ none
if_none true h = refl
if_none false h = h

pub kept-Distinct :
    (is_left_out : Bytes → Bool) (attributes : List Header)
    → Distinct attributes
    → Distinct (kept is_left_out attributes)
kept-Distinct is_left_out [] h = tt
kept-Distinct is_left_out ((name, value) ∷ attributes) h =
    by_test (is_left_out name) (kept-Distinct is_left_out attributes h.1)
  where
    by_test :
        (b : Bool)
        → Distinct (kept is_left_out attributes)
        → Distinct
            (if b then kept is_left_out attributes else (name, value) ∷ kept is_left_out attributes)
    by_test true k = k
    by_test false k = (get-kept name is_left_out attributes ∙ if_none (is_left_out name) h.0, k)

-- What is put in for an entry that was found among those to put in.
abbrev pub entered : Option (List Header) → Option (Map Bytes) → Option (Map Bytes)
entered none old = old
entered (some attributes) old = some (insert_all attributes (unwrap_or old []))

pub get-insert_entries :
    (wanted : Bytes) (entries : List (Bytes × List Header)) (target : Map (Map Bytes))
    → Distinct entries
    → Map.get wanted (insert_entries entries target)
      ≡ entered (Map.get wanted entries) (Map.get wanted target)
unfolding Map.get
get-insert_entries wanted [] target h = refl
get-insert_entries wanted ((name, attributes) ∷ entries) target h =
    let put = insert_all attributes (unwrap_or (Map.get name target) []) in
    get-insert_entries wanted entries (Map.insert name put target) h.1
    ∙ ap (entered (Map.get wanted entries)) (get-insert name wanted put target)
    ∙ by_test (bytes_eq wanted name) refl
  where
    by_test :
        (b : Bool)
        → bytes_eq wanted name ≡ b
        → entered (Map.get wanted entries) (
            if b
            then some (insert_all attributes (unwrap_or (Map.get name target) []))
            else Map.get wanted target)
          ≡ entered (if b then some attributes else Map.get wanted entries) (Map.get wanted target)
    by_test true e =
        ap
          (λ (t : Option (List Header)).
            entered t (some (insert_all attributes (unwrap_or (Map.get name target) []))))
          (get-same wanted name entries e ∙ h.0)
        ∙ ap (λ (t : Option (Map Bytes)). some (insert_all attributes (unwrap_or t [])))
            (sym (get-same wanted name target e))
    by_test false e = refl

-- Some attribute of an entry is written.
abbrev pub is_written : List Header → Bool
is_written = any (λ (attribute : Header). not (signature_header attribute.0))

-- What is kept of an entry.
abbrev pub kept_entry : Option (List Header) → Option (List Header)
kept_entry none = none
kept_entry (some attributes) =
    if is_written attributes then some (kept signature_header attributes) else none

pub get-kept_entries :
    (wanted : Bytes) (entries : Map (Map Bytes))
    → Distinct entries
    → Map.get wanted (kept_entries entries) ≡ kept_entry (Map.get wanted entries)
unfolding Map.get
get-kept_entries wanted [] h = refl
get-kept_entries wanted ((name, attributes) ∷ entries) h =
    by_test (is_written attributes) (bytes_eq wanted name) refl
      (get-kept_entries wanted entries h.1)
    ∙ pushed (bytes_eq wanted name)
  where
    by_test :
        (b c : Bool)
        → bytes_eq wanted name ≡ c
        → Map.get wanted (kept_entries entries) ≡ kept_entry (Map.get wanted entries)
        → Map.get wanted (
            if b
            then (name, kept signature_header attributes) ∷ kept_entries entries
            else kept_entries entries)
          ≡ (if c
              then (if b then some (kept signature_header attributes) else none)
              else kept_entry (Map.get wanted entries))
    by_test true true e rec = rw e refl
    by_test true false e rec = rw e rec
    by_test false true e rec = rec ∙ ap kept_entry (get-same wanted name entries e ∙ h.0)
    by_test false false e rec = rec

    pushed :
        (c : Bool)
        → (if c
            then (if is_written attributes then some (kept signature_header attributes) else none)
            else kept_entry (Map.get wanted entries))
          ≡ kept_entry (if c then some attributes else Map.get wanted entries)
    pushed true = refl
    pushed false = refl

pub kept_entries-Distinct :
    (entries : Map (Map Bytes)) → Distinct entries → Distinct (kept_entries entries)
kept_entries-Distinct [] h = tt
kept_entries-Distinct ((name, attributes) ∷ entries) h =
    by_test (is_written attributes) (kept_entries-Distinct entries h.1)
  where
    by_test :
        (b : Bool)
        → Distinct (kept_entries entries)
        → Distinct (
            if b
            then (name, kept signature_header attributes) ∷ kept_entries entries
            else kept_entries entries)
    by_test true k = (get-kept_entries name entries h.1 ∙ ap kept_entry h.0, k)
    by_test false k = k

-- An entry of which nothing is written has signature attributes only.
pub unwritten :
    (wanted : Bytes) (attributes : List Header)
    → is_written attributes ≡ false
    → (if signature_header wanted then none else Map.get wanted attributes) ≡ none
unfolding Map.get
unwritten wanted [] h = if_none (signature_header wanted) refl
unwritten wanted ((name, value) ∷ attributes) h =
    by_test (bytes_eq wanted name) refl (unwritten wanted attributes (ground arith))
  where
    signed : signature_header name ≡ true
    signed = ground arith

    by_test :
        (c : Bool)
        → bytes_eq wanted name ≡ c
        → (if signature_header wanted then none else Map.get wanted attributes) ≡ none
        → (if signature_header wanted
            then none
            else if c
            then some value
            else Map.get wanted attributes)
          ≡ none
    by_test true e rec =
        let out : signature_header wanted ≡ true =
          ap signature_header (bytes_eq→eq wanted name e) ∙ signed in
        rw out refl
    by_test false e rec = rec
