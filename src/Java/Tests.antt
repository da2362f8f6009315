-- ===== src/Java/Tests.antt =====
-- Runs of the code of janex-java/src/manifest.rs on small manifests.
use janex.Base.{
  ◌≤◌, ◌<◌, length, true, not, ◌&&◌, ◌||◌, ◌==◌, ◌⊎◌, Option, none, some, [], ◌∷◌, ◌++◌, ◌≡◌, refl,
  Bytes, All, all, any, ascii, bytes_eq, bytes_lt, is_utf8, split_once, strip_prefix, strip_suffix,
  split, arith,
}
use janex.Failure.{ok}
use janex.Java.{default_limits, limit_bytes, limit_elements}
use janex.Java.Map
use janex.Java.Map.{Map}
use janex.Java.Manifest.{
  Manifest, Parser, parse, for_runtime, take_line, add_section, insert_values, extend_last,
  read_header, is_header_name, is_break, next_line, write_header, write_attributes, write_entries,
  signature_header, contains, get, entry_attribute, crlf,
}
use janex.Java.Manifest.Lines.{run}
use janex.Java.Manifest.Folding.{with_header, IsClean, Lines}
use janex.Java.Manifest.RoundTrip.{run-write_header, write_header-Lines}
use janex.Java.Manifest.Runtime.{IsValue, IsStored, IsEntry}
use janex.Java.Manifest.Kept.{IsKept, parse-IsKept}
use janex.Java.Manifest.Rebuilt.{IsHeld}
use janex.Java.Manifest.Reading.{parse-for_runtime}
use janex.Java.Modules.{
  Module, system_roots, contains_key, required_names, add_modules, check_requirements,
  collect_roots, automatic, leading_digits, unwrap_or, find_boundary, is_version, find_byte,
  version_after,
}
use janex.Java.Modules.Roots.{is_asked, system_roots-eq, system_roots-available}
use janex.Java.Modules.Names.{IsPart, automatic-IsPart, automatic-version}

abbrev small : Bytes
small =
    ascii "Main-Class: a.b"
    ++ crlf
    ++ ascii " .c"
    ++ crlf
    ++ ascii "SHA-Digest-X: q"
    ++ crlf
    ++ crlf
    ++ ascii "Name: a/"
    ++ crlf
    ++ ascii "Sealed: true"
    ++ crlf
    ++ crlf

abbrev small_manifest : Manifest
small_manifest = record {
  main = (ascii "main-class", ascii "a.b.c") ∷ (ascii "sha-digest-x", ascii "q") ∷ [];
  entries = (ascii "a/", (ascii "sealed", ascii "true") ∷ []) ∷ [];
}

small_parses : parse small default_limits ≡ ok small_manifest
unfolding parse limit_bytes next_line take_line strip_prefix read_header split_once is_header_name
    limit_elements extend_last add_section insert_values is_utf8 bytes_eq Map.insert bytes_lt
    Map.get
small_parses = refl

-- A header longer than a line, read into an empty section.
abbrev long_value : Bytes
long_value =
    ascii "one/two/three/four/five/six/seven/eight/nine/ten/eleven/twelve/thirteen/fourteen"

abbrev start : Parser
start = record { manifest = record { main = []; entries = [] }; section = []; is_main = true }

clean : (bytes : Bytes) → all (λ b. not (is_break b || b == 0)) bytes ≡ true → IsClean bytes
clean [] h = tt
clean (b ∷ bytes) h = ((ground arith, ground arith), clean bytes (ground arith))

class_path_named : is_header_name (ascii "Class-Path") ≡ true
unfolding is_header_name
class_path_named = refl

small_again :
    parse (for_runtime small_manifest) default_limits
    ≡ ok (record small_manifest {
      main = (ascii "main-class", ascii "a.b.c") ∷ (ascii "manifest-version", ascii "1.0") ∷ [];
    })
unfolding for_runtime write_entries signature_header contains write_attributes write_header get
    parse limit_bytes next_line take_line strip_prefix read_header split_once is_header_name
    limit_elements extend_last add_section insert_values is_utf8 bytes_eq Map.insert bytes_lt
    Map.get
small_again = refl

run-write_header_example :
    run default_limits (write_header [] (ascii "Class-Path") long_value ++ []) start
    ≡ run default_limits [] (with_header start (ascii "class-path") long_value)
run-write_header_example =
    run-write_header default_limits start (ascii "Class-Path") long_value [] class_path_named
      (clean long_value refl) (omega arith, omega arith) (omega arith) (omega arith)

write_header-Lines_example : Lines 72 (write_header [] (ascii "Class-Path") long_value)
write_header-Lines_example =
    write_header-Lines (ascii "Class-Path") long_value (clean (ascii "Class-Path") refl)
      (clean long_value refl)

abbrev runtime_modules : Map (Option Bytes)
runtime_modules = (ascii "java.base", some (ascii "21")) ∷ (ascii "java.sql", none) ∷ []

abbrev app : Module
app = record { name = ascii "app"; version = none; requires = ascii "java.sql" ∷ ascii "app" ∷ [] }

abbrev found_roots : Map (Unit {0})
found_roots = (ascii "java.base", tt) ∷ (ascii "java.sql", tt) ∷ []

app_roots :
    system_roots runtime_modules
      (app ∷ [])
      ((ascii "java.base", some (ascii "21")) ∷ [])
      (some (ascii "java.base"))
    ≡ ok found_roots
unfolding system_roots add_modules Map.get bytes_eq check_requirements Map.insert bytes_lt
    collect_roots required_names
app_roots = refl

-- The main module is a root though no descriptor requires it.
system_roots-eq_example : contains_key (ascii "java.base") found_roots ≡ (
    is_asked (ascii "java.base") (app ∷ []) (some (ascii "java.base"))
    && contains_key (ascii "java.base") runtime_modules)
system_roots-eq_example =
    system_roots-eq runtime_modules (app ∷ []) ((ascii "java.base", some (ascii "21")) ∷ [])
      (some (ascii "java.base")) found_roots (ascii "java.base") app_roots

base_asked : is_asked (ascii "java.base") (app ∷ []) (some (ascii "java.base")) ≡ true
unfolding bytes_eq
base_asked = refl

system_roots-available_example :
    (contains_key (ascii "java.base") runtime_modules
      || any (λ (m : Module). bytes_eq (ascii "java.base") m.name) (app ∷ []))
    ≡ true
system_roots-available_example =
    system_roots-available runtime_modules (app ∷ []) ((ascii "java.base", some (ascii "21")) ∷ [])
      (some (ascii "java.base")) found_roots (ascii "java.base") app_roots base_asked

abbrev jar_file : Bytes
jar_file = ascii "commons_lang3-3.12.0.jar"

jar_module : (automatic jar_file none).version ≡ some (ascii "3.12.0")
unfolding automatic version_after find_boundary strip_suffix bytes_eq leading_digits is_version
    find_byte
jar_module = refl

automatic-IsPart_example :
    ((automatic jar_file none).name ≡ []) ⊎ All IsPart (split b'.' (automatic jar_file none).name)
automatic-IsPart_example = automatic-IsPart jar_file

automatic-version_example :
    (front : Bytes) × (unwrap_or (strip_suffix (ascii ".jar") jar_file) jar_file
      ≡ front ++ b'-' ∷ ascii "3.12.0")
    × (0 < leading_digits (ascii "3.12.0"))
automatic-version_example = automatic-version jar_file none (ascii "3.12.0") jar_module

held :
    (value : Bytes)
    → all (λ b. not (is_break b || b == 0)) value ≡ true
    → is_utf8 value ≡ true
    → length value ≤ 100
    → IsValue default_limits value
held value cleaned utf8 short = record {
  clean = clean value cleaned;
  fits = (omega arith, omega arith);
  utf8 = utf8;
}

main_class : IsStored default_limits (ascii "main-class", ascii "a.b.c")
unfolding is_header_name bytes_eq is_utf8
main_class = record {
  named = refl;
  lower_case = refl;
  ordinary = refl;
  held = held (ascii "a.b.c") refl refl (omega arith);
}

sha_digest : IsStored default_limits (ascii "sha-digest-x", ascii "q")
unfolding is_header_name bytes_eq is_utf8
sha_digest = record {
  named = refl;
  lower_case = refl;
  ordinary = refl;
  held = held (ascii "q") refl refl (omega arith);
}

sealed : IsStored default_limits (ascii "sealed", ascii "true")
unfolding is_header_name bytes_eq is_utf8
sealed = record {
  named = refl;
  lower_case = refl;
  ordinary = refl;
  held = held (ascii "true") refl refl (omega arith);
}

small-IsEntry : IsEntry default_limits (ascii "a/", (ascii "sealed", ascii "true") ∷ [])
unfolding is_utf8
small-IsEntry = record {
  named = held (ascii "a/") refl refl (omega arith);
  some_name = refl;
  stored = (sealed, tt);
  room = (omega arith, omega arith);
}

small_manifest-IsHeld : IsHeld default_limits small_manifest
unfolding Map.get bytes_eq for_runtime write_entries signature_header contains write_attributes
    write_header get
small_manifest-IsHeld = record {
  main_stored = (main_class, (sha_digest, tt));
  main_distinct = (refl, (refl, tt));
  main_room = (omega arith, omega arith);
  entries_held = (small-IsEntry, tt);
  entries_distinct = (refl, tt);
  attributes_distinct = ((refl, tt), tt);
  entries_room = (omega arith, omega arith);
  three = omega arith;
  fits = (omega arith, omega arith);
}

parse-for_runtime_example :
    (parsed : Manifest) × (parse (for_runtime small_manifest) default_limits ≡ ok parsed)
    × (get parsed (ascii "Main-Class") ≡ some (ascii "a.b.c"))
    × (entry_attribute parsed (ascii "a/") (ascii "Sealed") ≡ some (ascii "true"))
unfolding signature_header contains get entry_attribute bytes_eq Map.get
parse-for_runtime_example =
    parse-for_runtime default_limits small_manifest (ascii "Main-Class") (ascii "a/")
      (ascii "Sealed") small_manifest-IsHeld

parse-IsKept_example : IsKept small_manifest
parse-IsKept_example = parse-IsKept small default_limits small_manifest small_parses
