-- ===== src/Java/Manifest/Kept.antt =====
-- janex-java/src/manifest.rs: what `parse` keeps in a manifest.
use janex.Base.{
  ℕ, ◌+◌, ◌<◌, Bool, true, false, ◌||◌, not, ◌≡◌, refl, Option, none, some, List, [], ◌∷◌, ◌++◌,
  All, All-append, all, length, Bytes, ascii, bytes_eq, is_utf8, is_empty, is_alphanumeric,
  if◌then◌else◌, arith, lt_wf, strip_prefix, split_once,
}
use janex.Failure.{
  Result, ok, Ensures, holds, failed, Ensures-bind, Ensures-if, Ensures-ok, Ensures-reject_if,
  Ensures-if_some, any, ok_or,
}
use janex.Java.{Limits, limit_bytes, limit_elements}
use janex.Java.Map
use janex.Java.Map.{Map}
use janex.Java.Map.Order.{Ordered, insert-All, insert-Ordered}
use janex.Java.Manifest.{
  Manifest, Header, Parser, add_section, insert_values, extend_last, is_header_name, is_name_byte,
  starts_with_space, read_header, take_line, lower, to_ascii_lowercase, unwrap_or, with_line,
  next_line, next_line-shrinks, parse_lines, shrunk, parse,
}
use mathlib.Core.WellFounded.{Acc}

-- A name as read_header gives it.
pub record IsName (name : Bytes) : Type 0 where
  pub valid : is_header_name name ≡ true
  pub lower_case : to_ascii_lowercase name ≡ name

-- An attribute of a section that was ended.
pub record IsAttribute (attribute : Header) : Type 0 where
  pub name : IsName attribute.0
  pub ordinary : bytes_eq attribute.0 (ascii "name") ≡ false
  pub utf8 : is_utf8 attribute.1 ≡ true

abbrev pub IsTable : Map Bytes → Type 0
IsTable table = Ordered table × All IsAttribute table

pub record IsSection (entry : Bytes × Map Bytes) : Type 0 where
  pub some_name : is_empty entry.0 ≡ false
  pub utf8 : is_utf8 entry.0 ≡ true
  pub table : IsTable entry.1

pub record IsKept (manifest : Manifest) : Type 0 where
  pub main : IsTable manifest.main
  pub ordered : Ordered manifest.entries
  pub sections : All IsSection manifest.entries

lower-lower : (b : ℕ) → lower (lower b) ≡ lower b
lower-lower b = ground arith

lower-name_byte : (b : ℕ) → is_name_byte b ≡ true → is_name_byte (lower b) ≡ true
lower-name_byte b h = ground arith

lower-is_alphanumeric : (b : ℕ) → is_alphanumeric b ≡ true → is_alphanumeric (lower b) ≡ true
lower-is_alphanumeric b h = ground arith

lowered_again :
    (name : Bytes) → to_ascii_lowercase (to_ascii_lowercase name) ≡ to_ascii_lowercase name
lowered_again [] = refl
lowered_again (b ∷ name) = λ i. lower-lower b i ∷ lowered_again name i

length-lowered : (name : Bytes) → length (to_ascii_lowercase name) ≡ length name
length-lowered [] = refl
length-lowered (b ∷ name) = omega (arith, length-lowered name)

all-lowered :
    (name : Bytes)
    → all is_name_byte name ≡ true
    → all is_name_byte (to_ascii_lowercase name) ≡ true
all-lowered [] h = refl
all-lowered (b ∷ name) h = rw (lower-name_byte b (ground arith)) (all-lowered name (ground arith))

lowered-IsName : (name : Bytes) → is_header_name name ≡ true → IsName (to_ascii_lowercase name)
unfolding is_header_name
lowered-IsName [] h = cc
lowered-IsName (b ∷ name) h =
    let short = length-lowered (b ∷ name) in
    let others : all is_name_byte (to_ascii_lowercase (b ∷ name)) ≡ true =
      all-lowered (b ∷ name) (ground arith) in
    let first : is_alphanumeric (lower b) ≡ true = lower-is_alphanumeric b (ground arith) in
    record { valid = ground (arith, short, others, first); lower_case = lowered_again (b ∷ name) }

insert_values-Ensures :
    (headers : List Header) (table : Map Bytes)
    → All (λ (header : Header). IsName header.0) headers
    → IsTable table
    → Ensures IsTable (insert_values headers table)
unfolding insert_values
insert_values-Ensures [] table named h = holds h
insert_values-Ensures ((key, value) ∷ headers) table named h =
    Ensures-reject_if (not (is_utf8 value)) _ λ utf8.
      Ensures-reject_if (bytes_eq key (ascii "name")) _ λ ordinary.
        let attribute : IsAttribute (key, value) = record {
          name = named.0;
          ordinary = ordinary;
          utf8 = ground arith;
        } in
        insert_values-Ensures headers (Map.insert key value table) named.1
          (insert-Ordered key value table h.0, insert-All IsAttribute key value table attribute h.1)

found-IsTable :
    (name : Bytes) (entries : Map (Map Bytes))
    → All IsSection entries
    → IsTable (unwrap_or (Map.get name entries) [])
unfolding Map.get
found-IsTable name [] h = (tt, tt)
found-IsTable name ((key, table) ∷ entries) h =
    by_test (bytes_eq name key) (found-IsTable name entries h.1)
  where
    by_test :
        (b : Bool)
        → IsTable (unwrap_or (Map.get name entries) [])
        → IsTable (unwrap_or (if b then some table else Map.get name entries) [])
    by_test true rec = h.0.table
    by_test false rec = rec

abbrev IsNamed : List Header → Type 0
IsNamed = All (λ header. IsName header.0)

add_section-Ensures :
    (manifest : Manifest) (section : List Header) (is_main : Bool)
    → IsNamed section
    → IsKept manifest
    → Ensures IsKept (add_section manifest section is_main)
unfolding add_section
add_section-Ensures manifest [] is_main named h = holds h
add_section-Ensures manifest (header ∷ section) true named h =
    Ensures-bind (insert_values-Ensures (header ∷ section) manifest.main named h.main)
      λ main table. holds (record { main = table; ordered = h.ordered; sections = h.sections })
add_section-Ensures manifest ((key, name) ∷ section) false named h =
    Ensures-reject_if (not (is_utf8 name)) _ λ utf8.
      Ensures-reject_if (not (bytes_eq key (ascii "name")) || is_empty name) _ λ some_name.
        Ensures-bind
          (insert_values-Ensures section (unwrap_or (Map.get name manifest.entries) []) named.1
            (found-IsTable name manifest.entries h.sections))
          λ target table.
            let kept : IsSection (name, target) = record {
              some_name = ground arith;
              utf8 = ground arith;
              table = table;
            } in
            holds (record {
              main = h.main;
              ordered = insert-Ordered name target manifest.entries h.ordered;
              sections = insert-All IsSection name target manifest.entries kept h.sections;
            })

extend_last-Ensures :
    (limits : Limits) (continuation : Bytes) (section : List Header)
    → IsNamed section
    → Ensures IsNamed (extend_last limits continuation section)
unfolding extend_last
extend_last-Ensures limits continuation [] named = failed
extend_last-Ensures limits continuation ((key, value) ∷ []) named =
    Ensures-bind (any _) λ _ _. holds {a = (key, value ++ continuation) ∷ []} (named.0, tt)
extend_last-Ensures limits continuation (header ∷ next ∷ section) named =
    Ensures-bind (extend_last-Ensures limits continuation (next ∷ section) named.1)
      λ extended h. holds {a = header ∷ extended} (named.0, h)

read_header-Ensures : (line : Bytes) → Ensures (λ (h : Header). IsName h.0) (read_header line)
unfolding read_header
read_header-Ensures line = Ensures-bind (any (ok_or (split_once b':' line) _)) λ parts _.
    Ensures-reject_if (not (is_header_name parts.0) || not (starts_with_space parts.1)) _
      λ fine. holds (lowered-IsName parts.0 (ground arith))

-- The parser keeps names in its section, and a manifest that is kept.
abbrev IsParser : Parser → Type 0
IsParser parser = IsKept parser.manifest × IsNamed parser.section

take_line-Ensures :
    (limits : Limits) (parser : Parser) (line : Bytes)
    → IsParser parser
    → Ensures IsParser (take_line limits parser line)
unfolding take_line
take_line-Ensures limits parser line h = Ensures-reject_if _ _ λ _.
    Ensures-if (is_empty line)
      (λ _.
        Ensures-bind (add_section-Ensures parser.manifest parser.section parser.is_main h.1 h.0)
          λ manifest kept.
            holds {a = record { manifest = manifest; section = []; is_main = false }} (kept, tt))
      (λ _.
        Ensures-if_some (strip_prefix (b' ' ∷ []) line)
          (λ continuation.
            Ensures-bind (extend_last-Ensures limits continuation parser.section h.1)
              λ section named. holds {a = record parser { section = section }} (h.0, named))
          (Ensures-bind (read_header-Ensures line) λ header named.
            Ensures-bind (any (limit_elements limits (length parser.section + 1))) λ _ _.
              holds {a = record parser { section = parser.section ++ header ∷ [] }} (
                h.0,
                All-append (λ (x : Header). IsName x.0) parser.section (header ∷ []) h.1
                    (named, tt),
              )))

with_line-Ensures :
    (n : ℕ) (limits : Limits) (parser : Parser) (found : Option (Bytes × Bytes))
    (shrinks : (line rest : Bytes) → found ≡ some (line, rest) → length rest < n)
    (go : (rest : Bytes) → length rest < n → Parser → Result Parser)
    → IsParser parser
    → ((rest : Bytes) (less : length rest < n) (next : Parser)
        → IsParser next
        → Ensures IsParser (go rest less next))
    → Ensures IsParser (with_line n limits parser found shrinks go)
unfolding with_line
with_line-Ensures n limits parser none shrinks go h k = failed
with_line-Ensures n limits parser (some (line, rest)) shrinks go h k =
    Ensures-bind (take_line-Ensures limits parser line h)
      λ next taken. k rest (shrinks line rest refl) next taken

parse_lines-Ensures :
    (limits : Limits) (bytes : Bytes) (left : ℕ) (w : Acc ◌<◌ left) (eq : left ≡ length bytes)
    (parser : Parser)
    → IsParser parser
    → Ensures IsParser (parse_lines limits bytes left w eq parser)
unfolding parse_lines
parse_lines-Ensures limits [] left w eq parser h = holds h
parse_lines-Ensures limits (b ∷ bytes) left (Acc.intro _ smaller) eq parser h =
    with_line-Ensures (length (b ∷ bytes)) limits parser (next_line (b ∷ bytes))
      (next_line-shrinks (b ∷ bytes)) _ h
      λ rest shorter next taken.
        parse_lines-Ensures limits rest (length rest) (smaller _ (shrunk eq shorter)) refl next
          taken

-- In every manifest that parse returns the keys of each map stand in their order, each once; names
-- of attributes are valid, in lower case and none is Name, entry names are not empty, and entry
-- names and values are UTF-8.
pub parse-IsKept :
    (bytes : Bytes) (limits : Limits) (manifest : Manifest)
    → parse bytes limits ≡ ok manifest
    → IsKept manifest
unfolding parse
parse-IsKept bytes limits manifest = Ensures-ok {P = IsKept} (
    Ensures-bind (any (limit_bytes limits (length bytes))) λ _ _.
      Ensures-bind
        (parse_lines-Ensures limits bytes (length bytes) (lt_wf.apply (length bytes)) refl
          (record { manifest = record { main = []; entries = [] }; section = []; is_main = true })
          (empty, tt))
        λ parser h.
          Ensures-bind (add_section-Ensures parser.manifest parser.section parser.is_main h.1 h.0)
            λ found kept.
              Ensures-bind (any (limit_elements limits (length found.entries))) λ _ _. holds kept)
  where
    empty : IsKept (record { main = []; entries = [] })
    empty = record { main = (tt, tt); ordered = tt; sections = tt }
