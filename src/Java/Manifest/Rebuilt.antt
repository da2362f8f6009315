-- ===== src/Java/Manifest/Rebuilt.antt =====
-- janex-java/src/manifest.rs: `parse` on the bytes that `for_runtime` wrote.
use janex.Base.{
  suc, ◌+◌, ◌≤◌, Bool, true, false, ◌≡◌, refl, ap, ◌∙◌, some, List, [], ◌∷◌, ◌++◌, append_assoc,
  All, length, Bytes, ascii, bytes_eq, is_utf8, if◌then◌else◌, arith,
}
use janex.Failure.{ok}
use janex.Java.{Limits}
use janex.Java.Map
use janex.Java.Map.{Map, get-insert}
use janex.Java.Manifest.{
  Manifest, Header, Parser, add_section, is_header_name, to_ascii_lowercase, crlf, write_header,
  write_attributes, for_runtime, signature_header, left_out_of_main, unwrap_or, get, parse,
}
use janex.Java.Manifest.Lines.{run, parse-run}
use janex.Java.Manifest.RoundTrip.{Fits, limit_bytes-ok, limit_elements-ok}
use janex.Java.Manifest.Written.{
  kept, WrittenAs, header, write_header-Folded, write_attributes-WrittenAs, HasRoom, run-WrittenAs,
  run-blank,
}
use janex.Java.Manifest.Runtime.{
  IsValue, IsStored, IsReadable-stored, lowered-same, kept-All, length-kept, insert_all,
  insert_values-insert_all, kept_entries, EntriesAs, write_entries-EntriesAs, IsEntry,
  insert_entries, between, run-EntriesAs,
}
use janex.Java.Manifest.Lookups.{Distinct, is_written}

-- A manifest that its runtime form can hold.
pub record IsHeld (limits : Limits) (manifest : Manifest) : Type 0 where
  pub main_stored : All (IsStored limits) manifest.main
  pub main_distinct : Distinct manifest.main
  pub main_room : HasRoom limits (suc (length manifest.main))
  pub entries_held : All (IsEntry limits) manifest.entries
  pub entries_distinct : Distinct manifest.entries
  pub attributes_distinct : All (λ (entry : Bytes × Map Bytes). Distinct entry.1) manifest.entries
  pub entries_room : HasRoom limits (length manifest.entries)
  pub three : 3 ≤ limits.max_bytes
  pub fits : Fits limits (length (for_runtime manifest))

-- The version that is written.
abbrev pub version : Manifest → Bytes
version manifest = unwrap_or (get manifest (ascii "Manifest-Version")) (ascii "1.0")

-- What the written manifest is read back to.
abbrev pub rebuilt : Manifest → Manifest
rebuilt manifest = record {
  main =
      insert_all
        ((ascii "manifest-version", version manifest) ∷ kept left_out_of_main manifest.main) [];
  entries = insert_entries (kept_entries manifest.entries) [];
}

version_name : is_header_name (ascii "Manifest-Version") ≡ true
unfolding is_header_name
version_name = refl

abbrev start : Parser
start = record { manifest = record { main = []; entries = [] }; section = []; is_main = true }

get-IsValue :
    (limits : Limits) (name : Bytes) (map : Map Bytes)
    → All (IsStored limits) map
    → IsValue limits (ascii "1.0")
    → IsValue limits (unwrap_or (Map.get name map) (ascii "1.0"))
unfolding Map.get
get-IsValue limits name [] h standard = standard
get-IsValue limits name ((key, value) ∷ map) h standard =
    by_test (bytes_eq name key) (get-IsValue limits name map h.1 standard)
  where
    by_test :
        (b : Bool)
        → IsValue limits (unwrap_or (Map.get name map) (ascii "1.0"))
        → IsValue limits (unwrap_or (if b then some value else Map.get name map) (ascii "1.0"))
    by_test true rec = h.0.held
    by_test false rec = rec

one_zero-IsValue : (limits : Limits) → 3 ≤ limits.max_bytes → IsValue limits (ascii "1.0")
unfolding is_utf8
one_zero-IsValue limits h = record {
  clean = ((refl, refl), ((refl, refl), ((refl, refl), tt)));
  fits = (h, omega arith);
  utf8 = refl;
}

version-IsValue :
    (limits : Limits) (manifest : Manifest)
    → IsHeld limits manifest
    → IsValue limits (version manifest)
unfolding get
version-IsValue limits manifest h =
    get-IsValue limits (to_ascii_lowercase (ascii "Manifest-Version")) manifest.main h.main_stored
      (one_zero-IsValue limits h.three)

version-IsStored :
    (limits : Limits) (value : Bytes)
    → IsValue limits value
    → IsStored limits (ascii "manifest-version", value)
unfolding is_header_name bytes_eq
version-IsStored limits value h = record {
  named = refl;
  lower_case = refl;
  ordinary = refl;
  held = h;
}

kept_entries-All :
    (limits : Limits) (entries : Map (Map Bytes))
    → All (IsEntry limits) entries
    → All (IsEntry limits) (kept_entries entries)
kept_entries-All limits [] h = tt
kept_entries-All limits ((name, attributes) ∷ entries) h =
    by_test (is_written attributes) (kept_entries-All limits entries h.1)
  where
    shorter : IsEntry limits (name, kept signature_header attributes)
    shorter = record {
      named = h.0.named;
      some_name = h.0.some_name;
      stored = kept-All (IsStored limits) signature_header attributes h.0.stored;
      room = (
        omega (arith, h.0.room.0, length-kept signature_header attributes),
        omega (arith, h.0.room.1, length-kept signature_header attributes),
      );
    }

    by_test :
        (b : Bool)
        → All (IsEntry limits) (kept_entries entries)
        → All (IsEntry limits) (
            if b
            then (name, kept signature_header attributes) ∷ kept_entries entries
            else kept_entries entries)
    by_test true k = (shorter, k)
    by_test false k = k

-- The sections of a manifest that can be held are read into the rebuilt manifest.
run-sections :
    (limits : Limits) (manifest : Manifest) (main rest : Bytes)
    → IsHeld limits manifest
    → WrittenAs main
        ((ascii "Manifest-Version", version manifest) ∷ kept left_out_of_main manifest.main)
    → EntriesAs rest (kept_entries manifest.entries)
    → run limits (main ++ (crlf ++ rest)) start ≡ ok (between (rebuilt manifest))
unfolding add_section
run-sections limits manifest main rest h written others =
    let headers = kept left_out_of_main manifest.main in
    let value = version-IsValue limits manifest h in
    let stored : All (IsStored limits) headers =
      kept-All (IsStored limits) left_out_of_main manifest.main h.main_stored in
    let short = length-kept left_out_of_main manifest.main in
    run-WrittenAs limits start main (crlf ++ rest)
      ((ascii "Manifest-Version", version manifest) ∷ headers) written
      ((version_name, value.clean, value.fits), IsReadable-stored limits headers stored)
      (omega (arith, h.main_room.0, short), omega (arith, h.main_room.1, short))
    ∙ ap
        (λ (hs : List Header).
          run limits (crlf ++ rest)
            (record start { section = (ascii "manifest-version", version manifest) ∷ hs }))
        (lowered-same limits headers stored)
    ∙ run-blank limits
        (record start { section = (ascii "manifest-version", version manifest) ∷ headers }) rest
        (record { main = (rebuilt manifest).main; entries = [] })
        (rw
          (insert_values-insert_all limits ((ascii "manifest-version", version manifest) ∷ headers)
            [] (version-IsStored limits (version manifest) value, stored))
          refl)
    ∙ run-EntriesAs limits (record { main = (rebuilt manifest).main; entries = [] }) rest
        (kept_entries manifest.entries) others
        (kept_entries-All limits manifest.entries h.entries_held)

run-for_runtime :
    (limits : Limits) (manifest : Manifest)
    → IsHeld limits manifest
    → run limits (for_runtime manifest) start ≡ ok (between (rebuilt manifest))
unfolding for_runtime
run-for_runtime limits manifest h =
    let value = version manifest in
    let (first, same, folded) = write_header-Folded [] (ascii "Manifest-Version") value in
    let opening = write_header [] (ascii "Manifest-Version") value in
    let (second, after, written) =
      write_attributes-WrittenAs left_out_of_main manifest.main opening in
    let (rest, others_after, others) =
      write_entries-EntriesAs manifest.entries
        (write_attributes left_out_of_main manifest.main opening ++ crlf) in
    ap (λ (t : Bytes). run limits t start)
      (others_after
        ∙ ap (λ (t : Bytes). (t ++ crlf) ++ rest) (after ∙ ap (λ (t : Bytes). t ++ second) same)
        ∙ append_assoc (first ++ second) crlf rest)
    ∙ run-sections limits manifest (first ++ second) rest h
        (header (ascii "Manifest-Version") value first folded written) others

length-insert :
    (key : Bytes) (value : Map Bytes) (map : Map (Map Bytes))
    → length (Map.insert key value map) ≤ suc (length map)
unfolding Map.insert
length-insert key value [] = omega arith
length-insert key value ((k, v) ∷ map) = ground (arith, length-insert key value map)

length-insert_entries :
    (entries : List (Bytes × List Header)) (target : Map (Map Bytes))
    → length (insert_entries entries target) ≤ length entries + length target
length-insert_entries [] target = omega arith
length-insert_entries ((name, attributes) ∷ entries) target =
    let put = insert_all attributes (unwrap_or (Map.get name target) []) in
    omega (
      arith,
      length-insert_entries entries (Map.insert name put target),
      length-insert name put target,
    )

length-kept_entries : (entries : Map (Map Bytes)) → length (kept_entries entries) ≤ length entries
length-kept_entries [] = omega arith
length-kept_entries ((name, attributes) ∷ entries) = ground (arith, length-kept_entries entries)

pub parse-rebuilt :
    (limits : Limits) (manifest : Manifest)
    → IsHeld limits manifest
    → parse (for_runtime manifest) limits ≡ ok (rebuilt manifest)
parse-rebuilt limits manifest h =
    let n = length (rebuilt manifest).entries in
    let few : n ≤ length manifest.entries = omega (
      arith,
      length-insert_entries (kept_entries manifest.entries) [],
      length-kept_entries manifest.entries,
    ) in
    parse-run (for_runtime manifest) limits (rebuilt manifest) false
      (limit_bytes-ok limits (length (for_runtime manifest)) h.fits.0 h.fits.1)
      (run-for_runtime limits manifest h)
      (limit_elements-ok limits n (omega (arith, few, h.entries_room.0))
        (omega (arith, few, h.entries_room.1)))
