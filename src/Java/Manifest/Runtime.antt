-- ===== src/Java/Manifest/Runtime.antt =====
-- janex-java/src/manifest.rs: the manifest that `parse` reads from what `for_runtime` wrote.
use janex.Base.{
  suc, ◌≤◌, Bool, true, false, not, ◌≡◌, refl, sym, ap, ◌∙◌, List, [], ◌∷◌, ◌++◌, append_assoc,
  append-nil, All, any, length, Bytes, ascii, bytes_eq, is_utf8, is_empty, if◌then◌else◌, arith,
}
use janex.Failure.{ok}
use janex.Java.{Limits}
use janex.Java.Map
use janex.Java.Map.{Map, get-insert}
use janex.Java.Manifest.{
  Manifest, Header, Parser, add_section, insert_values, is_header_name, to_ascii_lowercase, crlf,
  write_header, write_attributes, write_entries, signature_header, unwrap_or,
}
use janex.Java.Manifest.Lines.{run, run-nil}
use janex.Java.Manifest.Folding.{IsClean}
use janex.Java.Manifest.RoundTrip.{Fits}
use janex.Java.Manifest.Written.{
  kept, WrittenAs, header, write_header-Folded, write_attributes-WrittenAs, IsReadable, lowered,
  HasRoom, run-WrittenAs, run-blank,
}

-- A value that a manifest may hold.
pub record IsValue (limits : Limits) (value : Bytes) : Type 0 where
  pub clean : IsClean value
  pub fits : Fits limits (length value)
  pub utf8 : is_utf8 value ≡ true

-- An attribute as parse keeps it: a valid name in lower case, other than that of an entry.
pub record IsStored (limits : Limits) (attribute : Header) : Type 0 where
  pub named : is_header_name attribute.0 ≡ true
  pub lower_case : to_ascii_lowercase attribute.0 ≡ attribute.0
  pub ordinary : bytes_eq attribute.0 (ascii "name") ≡ false
  pub held : IsValue limits attribute.1

pub IsReadable-stored :
    (limits : Limits) (headers : List Header)
    → All (IsStored limits) headers
    → All (IsReadable limits) headers
IsReadable-stored limits [] h = tt
IsReadable-stored limits ((name, value) ∷ headers) h =
    ((h.0.named, h.0.held.clean, h.0.held.fits), IsReadable-stored limits headers h.1)

pub lowered-same :
    (limits : Limits) (headers : List Header)
    → All (IsStored limits) headers
    → lowered headers ≡ headers
lowered-same limits [] h = refl
lowered-same limits ((name, value) ∷ headers) h =
    λ i. (h.0.lower_case i, value) ∷ lowered-same limits headers h.1 i

pub kept-All {κ} :
    (P : Header → Type κ) (is_left_out : Bytes → Bool) (attributes : List Header)
    → All P attributes
    → All P (kept is_left_out attributes)
kept-All P is_left_out [] h = tt
kept-All P is_left_out ((name, value) ∷ attributes) h =
    by_test (is_left_out name) (kept-All P is_left_out attributes h.1)
  where
    by_test :
        (b : Bool)
        → All P (kept is_left_out attributes)
        → All P
            (if b then kept is_left_out attributes else (name, value) ∷ kept is_left_out attributes)
    by_test true k = k
    by_test false k = (h.0, k)

pub length-kept :
    (is_left_out : Bytes → Bool) (attributes : List Header)
    → length (kept is_left_out attributes) ≤ length attributes
length-kept is_left_out [] = omega arith
length-kept is_left_out ((name, value) ∷ attributes) =
    ground (arith, length-kept is_left_out attributes)

-- The attributes put into a map one after the other.
abbrev pub insert_all : List Header → Map Bytes → Map Bytes
insert_all [] target = target
insert_all ((name, value) ∷ headers) target = insert_all headers (Map.insert name value target)

pub insert_values-insert_all :
    (limits : Limits) (headers : List Header) (target : Map Bytes)
    → All (IsStored limits) headers
    → insert_values headers target ≡ ok (insert_all headers target)
unfolding insert_values
insert_values-insert_all limits [] target h = refl
insert_values-insert_all limits ((name, value) ∷ headers) target h =
    rw (h.0.held.utf8, h.0.ordinary)
      (insert_values-insert_all limits headers (Map.insert name value target) h.1)

-- The entries that are written, and a text of their sections.
abbrev pub kept_entries : Map (Map Bytes) → List (Bytes × List Header)
kept_entries [] = []
kept_entries ((entry, attributes) ∷ entries) =
    let rest = kept_entries entries in
    if any (λ (attribute : Header). not (signature_header attribute.0)) attributes
    then (entry, kept signature_header attributes) ∷ rest
    else rest

pub data EntriesAs : Bytes → List (Bytes × List Header) → Type 0 where
  no_entry : EntriesAs [] []
  entry :
      (name text : Bytes) (attributes : List Header) {rest : Bytes}
      {entries : List (Bytes × List Header)}
      → WrittenAs text ((ascii "Name", name) ∷ attributes)
      → EntriesAs rest entries
      → EntriesAs (text ++ (crlf ++ rest)) ((name, attributes) ∷ entries)

regroup : (a b c d e : Bytes) → (a ++ b ++ c ++ d) ++ e ≡ a ++ ((b ++ c) ++ (d ++ e))
regroup a b c d e =
    append_assoc (a ++ b ++ c) d e
    ∙ ap (λ (t : Bytes). t ++ (d ++ e)) (append_assoc a b c)
    ∙ append_assoc a (b ++ c) (d ++ e)

pub write_entries-EntriesAs :
    (entries : Map (Map Bytes)) (bytes : Bytes)
    → (text : Bytes) × (write_entries entries bytes ≡ bytes ++ text)
      × EntriesAs text (kept_entries entries)
unfolding write_entries
write_entries-EntriesAs [] bytes = ([], sym (append-nil bytes), no_entry)
write_entries-EntriesAs ((name, attributes) ∷ entries) bytes =
    by_test (any (λ (attribute : Header). not (signature_header attribute.0)) attributes)
      λ more. write_entries-EntriesAs entries more
  where
    section : Bytes
    section =
        write_attributes signature_header attributes (write_header bytes (ascii "Name") name)
        ++ crlf

    by_test :
        (b : Bool)
        → ((more : Bytes)
            → (text : Bytes) × (write_entries entries more ≡ more ++ text)
              × EntriesAs text (kept_entries entries))
        → (text : Bytes) × (write_entries entries (if b then section else bytes) ≡ bytes ++ text)
          × EntriesAs text (
              if b
              then (name, kept signature_header attributes) ∷ kept_entries entries
              else kept_entries entries)
    by_test false rec = rec bytes
    by_test true rec =
        let (first, same, folded) = write_header-Folded bytes (ascii "Name") name in
        let (second, after, written) =
          write_attributes-WrittenAs signature_header attributes
            (write_header bytes (ascii "Name") name) in
        let (rest, last, others) = rec section in
        (
          (first ++ second) ++ (crlf ++ rest),
          last
              ∙ ap (λ (t : Bytes). t ++ crlf ++ rest) (after ∙ ap (λ (t : Bytes). t ++ second) same)
              ∙ regroup bytes first second crlf rest,
          entry name (first ++ second) (kept signature_header attributes)
              (header (ascii "Name") name first folded written) others,
        )

-- An entry as parse keeps it, with room for its attributes and its name in a section.
pub record IsEntry (limits : Limits) (entry : Bytes × List Header) : Type 0 where
  pub named : IsValue limits entry.0
  pub some_name : is_empty entry.0 ≡ false
  pub stored : All (IsStored limits) entry.1
  pub room : HasRoom limits (suc (length entry.1))

-- The entries put into a map one after the other.
abbrev pub insert_entries : List (Bytes × List Header) → Map (Map Bytes) → Map (Map Bytes)
insert_entries [] target = target
insert_entries ((name, attributes) ∷ entries) target =
    insert_entries entries
      (Map.insert name (insert_all attributes (unwrap_or (Map.get name target) [])) target)

name_header : is_header_name (ascii "Name") ≡ true
unfolding is_header_name
name_header = refl

-- The parser between two entry sections.
abbrev pub between : Manifest → Parser
between manifest = record { manifest = manifest; section = []; is_main = false }

add_section-entry :
    (limits : Limits) (manifest : Manifest) (name : Bytes) (attributes : List Header)
    → IsEntry limits (name, attributes)
    → add_section manifest ((ascii "name", name) ∷ attributes) false
      ≡ ok (record manifest { entries = insert_entries ((name, attributes) ∷ []) manifest.entries })
unfolding add_section bytes_eq
add_section-entry limits manifest name attributes h =
    rw
      (
        h.named.utf8,
        h.some_name,
        insert_values-insert_all limits attributes (unwrap_or (Map.get name manifest.entries) [])
            h.stored,
      )
      refl

pub run-EntriesAs :
    (limits : Limits) (manifest : Manifest) (text : Bytes) (entries : List (Bytes × List Header))
    → EntriesAs text entries
    → All (IsEntry limits) entries
    → run limits text (between manifest)
      ≡ ok (between (record manifest { entries = insert_entries entries manifest.entries }))
run-EntriesAs limits manifest text [] no_entry h = run-nil limits (between manifest)
run-EntriesAs limits manifest text (_ ∷ entries)
      (entry name section attributes {rest = rest} written others) h =
    run-WrittenAs limits (between manifest) section (crlf ++ rest)
      ((ascii "Name", name) ∷ attributes) written
      (
        (name_header, h.0.named.clean, h.0.named.fits),
        IsReadable-stored limits attributes h.0.stored,
      )
      (omega (arith, h.0.room.0), omega (arith, h.0.room.1))
    ∙ ap
        (λ (hs : List Header).
          run limits (crlf ++ rest)
            (record { manifest = manifest; section = (ascii "name", name) ∷ hs; is_main = false }))
        (lowered-same limits attributes h.0.stored)
    ∙ run-blank limits
        (record {
          manifest = manifest;
          section = (ascii "name", name) ∷ attributes;
          is_main = false;
        })
        rest
        (record manifest { entries = insert_entries ((name, attributes) ∷ []) manifest.entries })
        (add_section-entry limits manifest name attributes h.0)
    ∙ run-EntriesAs limits
        (record manifest { entries = insert_entries ((name, attributes) ∷ []) manifest.entries })
        rest entries others h.1
