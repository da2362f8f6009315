-- ===== src/Java/Manifest/Written.antt =====
-- janex-java/src/manifest.rs: the sections that `for_runtime` writes, and how `parse` reads them.
use janex.Base.{
  ℕ, ◌+◌, ◌≤◌, Bool, true, false, ◌≡◌, refl, sym, ap, ◌∙◌, List, [], ◌∷◌, ◌++◌, append_assoc,
  append-nil, All, length, length-append, Bytes, if◌then◌else◌, IsU64, arith, lt_wf,
}
use janex.Failure.{ok}
use janex.Java.{Limits}
use janex.Java.Manifest.{
  Manifest, Header, Parser, take_line, add_section, is_header_name, to_ascii_lowercase, crlf,
  write_header, write_attributes, seventy_two,
}
use janex.Java.Manifest.Lines.{run, run_line, next_line-crlf}
use janex.Java.Manifest.Folding.{Folded, fold_lines-Folded, with_header, IsClean}
use janex.Java.Manifest.RoundTrip.{Fits, run-Folded, colon}

-- The attributes that are written: those that are not left out.
abbrev pub kept : (Bytes → Bool) → List Header → List Header
kept is_left_out [] = []
kept is_left_out ((name, value) ∷ attributes) =
    let rest = kept is_left_out attributes in
    if is_left_out name then rest else (name, value) ∷ rest

-- A text of folded headers.
pub data WrittenAs : Bytes → List Header → Type 0 where
  nothing : WrittenAs [] []
  header :
      (name value text : Bytes) {rest : Bytes} {headers : List Header}
      → Folded 72 ((name ++ colon) ++ value) text
      → WrittenAs rest headers
      → WrittenAs (text ++ rest) ((name, value) ∷ headers)

pub write_header-Folded :
    (bytes name value : Bytes)
    → (text : Bytes) × (write_header bytes name value ≡ bytes ++ text)
      × Folded 72 ((name ++ colon) ++ value) text
unfolding write_header
write_header-Folded bytes name value =
    let content = name ++ colon ++ value in
    fold_lines-Folded content 72 (length content) (lt_wf.apply (length content)) refl seventy_two
      bytes

pub write_attributes-WrittenAs :
    (is_left_out : Bytes → Bool) (attributes : List Header) (bytes : Bytes)
    → (text : Bytes) × (write_attributes is_left_out attributes bytes ≡ bytes ++ text)
      × WrittenAs text (kept is_left_out attributes)
unfolding write_attributes
write_attributes-WrittenAs is_left_out [] bytes = ([], sym (append-nil bytes), nothing)
write_attributes-WrittenAs is_left_out ((name, value) ∷ attributes) bytes =
    by_test (is_left_out name) λ more. write_attributes-WrittenAs is_left_out attributes more
  where
    by_test :
        (left_out : Bool)
        → ((more : Bytes)
            → (text : Bytes) × (write_attributes is_left_out attributes more ≡ more ++ text)
              × WrittenAs text (kept is_left_out attributes))
        → (text : Bytes) × (write_attributes is_left_out attributes
              (if left_out then bytes else write_header bytes name value)
            ≡ bytes ++ text)
          × WrittenAs text (
              if left_out
              then kept is_left_out attributes
              else (name, value) ∷ kept is_left_out attributes)
    by_test true rec = rec bytes
    by_test false rec =
        let (text, same, folded) = write_header-Folded bytes name value in
        let (rest, after, written) = rec (write_header bytes name value) in
        (
          text ++ rest,
          after ∙ ap (λ (t : Bytes). t ++ rest) same ∙ append_assoc bytes text rest,
          header name value text folded written,
        )

-- Headers that parse reads back: valid names, and values that a line can hold.
abbrev pub IsReadable : Limits → Header → Type 0
IsReadable limits (name, value) =
    (is_header_name name ≡ true) × IsClean value × Fits limits (length value)

abbrev pub lowered : List Header → List Header
lowered [] = []
lowered ((name, value) ∷ headers) = (to_ascii_lowercase name, value) ∷ lowered headers

-- The parser with all the headers in its section.
abbrev pub with_headers : Parser → List Header → Parser
with_headers parser headers = record parser { section = parser.section ++ headers }

-- The section has room for so many headers.
abbrev pub HasRoom : Limits → ℕ → Type 0
HasRoom limits n = (n ≤ limits.max_elements) × IsU64 n

pub run-WrittenAs :
    (limits : Limits) (parser : Parser) (text after : Bytes) (headers : List Header)
    → WrittenAs text headers
    → All (IsReadable limits) headers
    → HasRoom limits (length parser.section + length headers)
    → run limits (text ++ after) parser ≡ run limits after (with_headers parser (lowered headers))
run-WrittenAs limits parser text after [] nothing readable room =
    ap (λ (s : List Header). run limits after (record parser { section = s }))
      (sym (append-nil parser.section))
run-WrittenAs limits parser text after (_ ∷ headers)
      (header name value first {rest = rest} folded written) readable room =
    let next = with_header parser (to_ascii_lowercase name) value in
    let grown = length-append parser.section ((to_ascii_lowercase name, value) ∷ []) in
    ap (λ (t : Bytes). run limits t parser) (append_assoc first rest after)
    ∙ run-Folded limits parser name value ((name ++ colon) ++ value) first (rest ++ after)
        readable.0.0 readable.0.1 readable.0.2 (omega (arith, room.0)) (omega (arith, room.1)) refl
        folded
    ∙ run-WrittenAs limits next rest after headers written readable.1
        (omega (arith, room.0, grown), omega (arith, room.1, grown))
    ∙ ap (λ (s : List Header). run limits after (record parser { section = s }))
        (append_assoc parser.section ((to_ascii_lowercase name, value) ∷ []) (lowered headers))

-- An empty line ends the section.
pub run-blank :
    (limits : Limits) (parser : Parser) (rest : Bytes) (manifest : Manifest)
    → add_section parser.manifest parser.section parser.is_main ≡ ok manifest
    → run limits (crlf ++ rest) parser
      ≡ run limits rest (record { manifest = manifest; section = []; is_main = false })
unfolding take_line
run-blank limits parser rest manifest h =
    run_line limits (crlf ++ rest) [] rest parser
      (record { manifest = manifest; section = []; is_main = false }) (next_line-crlf [] rest tt)
      (rw h refl)
