-- ===== src/Java/Manifest.antt =====
-- janex-java/src/manifest.rs: `Manifest`, `parse` and `for_runtime`.
pub mod Lines
pub mod Folding
pub mod RoundTrip
pub mod Written
pub mod Runtime
pub mod Lookups
pub mod Rebuilt
pub mod Reading
pub mod Kept
use janex.Base.{
  ℕ, zero, suc, ◌+◌, ◌-◌, ◌≤◌, ◌<◌, min, Bool, true, false, ◌&&◌, ◌||◌, not, Option, none, some,
  List, [], ◌∷◌, ◌++◌, map, all, any, length, length-drop, take, drop, leb, ltb, ◌==◌,
  if◌then◌else◌, Bytes, ascii, bytes_eq, is_utf8, is_upper, is_alphanumeric, is_empty, strip_prefix,
  split_once, ◌≡◌, refl, arith, lt_wf,
}
use janex.Failure.{Result, ok, err, invalid, ok_or, if_some, reject_if, ◌>>=◌, ◌>>◌}
use janex.Java.{Limits, limit_bytes, limit_elements}
use janex.Java.Map
use janex.Java.Map.{Map}
use mathlib.Core.Logic.{dite}
use mathlib.Core.WellFounded.{Acc}
use native.Mathlib.Decide.{dec_lt}

pub record Manifest : Type 0 where
  pub main : Map Bytes
  pub entries : Map (Map Bytes)

abbrev pub Header : Type 0
Header = Bytes × Bytes

-- `text.to_ascii_lowercase()`.
abbrev pub lower : ℕ → ℕ
lower b = if is_upper b then b + 32 else b

abbrev pub to_ascii_lowercase : Bytes → Bytes
to_ascii_lowercase = map lower

-- The loop of `add_section` over the values that are left.
unfoldable pub insert_values : List Header → Map Bytes → Result (Map Bytes)
insert_values [] target = ok target
insert_values ((key, value) ∷ values) target = do
  reject_if (not (is_utf8 value)) (invalid "manifest value is not UTF-8")
  reject_if (bytes_eq key (ascii "name")) (invalid "misplaced manifest Name attribute")
  insert_values values (Map.insert key value target)

-- `option.unwrap_or(default)`.
abbrev pub unwrap_or {ℓ} : {A : Type ℓ} → Option A → A → A
unwrap_or none default = default
unwrap_or (some a) default = a

unfoldable pub add_section : Manifest → List Header → Bool → Result Manifest
add_section manifest [] is_main = ok manifest
add_section manifest (header ∷ section) true = do
  main ← insert_values (header ∷ section) manifest.main
  ok (record manifest { main = main })
add_section manifest ((key, name) ∷ section) false = do
  reject_if (not (is_utf8 name)) (invalid "manifest value is not UTF-8")
  reject_if (not (bytes_eq key (ascii "name")) || is_empty name)
      (invalid "manifest entry section must start with Name")
  target ← insert_values section (unwrap_or (Map.get name manifest.entries) [])
  ok (record manifest { entries = Map.insert name target manifest.entries })

-- The variables of the loop of `parse`.
pub record Parser : Type 0 where
  pub manifest : Manifest
  pub section : List Header
  pub is_main : Bool

-- A continuation of the last header.
unfoldable pub extend_last : Limits → Bytes → List Header → Result (List Header)
extend_last limits continuation [] = err (invalid "manifest continuation has no header")
extend_last limits continuation ((key, value) ∷ []) = do
  limit_bytes limits (length value + length continuation)
  ok ((key, value ++ continuation) ∷ [])
extend_last limits continuation (header ∷ next ∷ section) = do
  extended ← extend_last limits continuation (next ∷ section)
  ok (header ∷ extended)

abbrev pub starts_alphanumeric : Bytes → Bool
starts_alphanumeric [] = false
starts_alphanumeric (b ∷ bs) = is_alphanumeric b

abbrev pub starts_with_space : Bytes → Bool
starts_with_space [] = false
starts_with_space (b ∷ bs) = b == b' '

-- `matches!(byte, b'-' | b'_')` or an alphanumeric byte.
abbrev pub is_name_byte : ℕ → Bool
is_name_byte b = is_alphanumeric b || b == b'-' || b == b'_'

unfoldable pub is_header_name : Bytes → Bool
is_header_name name =
    not (is_empty name) && leb (length name) 70 && starts_alphanumeric name && all is_name_byte name

unfoldable pub read_header : Bytes → Result Header
read_header line = do
  (name, rest) ← ok_or (split_once b':' line) (invalid "manifest header has no colon")
  reject_if (not (is_header_name name) || not (starts_with_space rest))
      (invalid "invalid manifest attribute header")
  ok (to_ascii_lowercase name, drop 1 rest)

-- The body of the loop of `parse` for one line.
unfoldable pub take_line : Limits → Parser → Bytes → Result Parser
take_line limits parser line = do
  reject_if (any (λ b. b == 0) line) (invalid "NUL in manifest header")
  if is_empty line
      then (do
        manifest ← add_section parser.manifest parser.section parser.is_main
        ok (record { manifest = manifest; section = []; is_main = false }))
      else if_some (strip_prefix (b' ' ∷ []) line)
          (λ continuation. do
            section ← extend_last limits continuation parser.section
            ok (record parser { section = section }))
          (do
            header ← read_header line
            limit_elements limits (length parser.section + 1)
            ok (record parser { section = parser.section ++ header ∷ [] }))

-- `matches!(byte, b'\r' | b'\n')`.
abbrev pub is_break : ℕ → Bool
is_break b = b == b'\r' || b == b'\n'

-- What follows a line break: the line feed after a carriage return belongs to it.
abbrev pub after_break : ℕ → Bytes → Bytes
after_break b [] = []
after_break b (next ∷ bytes) = if b == b'\r' && next == b'\n' then bytes else next ∷ bytes

abbrev pub push_front : ℕ → Option (Bytes × Bytes) → Option (Bytes × Bytes)
push_front b none = none
push_front b (some (line, rest)) = some (b ∷ line, rest)

-- The line at the front, without its break, and what follows it.
unfoldable pub next_line : Bytes → Option (Bytes × Bytes)
next_line [] = none
next_line (b ∷ bytes) =
    if is_break b then some ([], after_break b bytes) else push_front b (next_line bytes)

length-after_break : (b : ℕ) (bytes : Bytes) → length (after_break b bytes) ≤ length bytes
length-after_break b [] = omega arith
length-after_break b (next ∷ bytes) = ground arith

pub shrunk : {left n m : ℕ} → left ≡ n → m < n → m < left
shrunk e h = omega arith

pub next_line-shrinks :
    (bytes line rest : Bytes) → next_line bytes ≡ some (line, rest) → length rest < length bytes
unfolding next_line
next_line-shrinks [] line rest h = cc
next_line-shrinks (b ∷ bytes) line rest h = by_rest (next_line bytes) (next_line-shrinks bytes) h
  where
    by_rest :
        (found : Option (Bytes × Bytes))
        → ((l r : Bytes) → found ≡ some (l, r) → length r < length bytes)
        → (if is_break b then some ([], after_break b bytes) else push_front b found)
          ≡ some (line, rest)
        → length rest < suc (length bytes)
    by_rest none k e = ground (arith, length-after_break b bytes)
    by_rest (some (l, r)) k e = ground (arith, length-after_break b bytes, k l r refl)

-- The rest of a round: the line is taken, and the bytes behind it are parsed by `go`.
unfoldable pub with_line :
    (n : ℕ) (limits : Limits) (parser : Parser) (found : Option (Bytes × Bytes))
    → ((line rest : Bytes) → found ≡ some (line, rest) → length rest < n)
    → ((rest : Bytes) → length rest < n → Parser → Result Parser)
    → Result Parser
with_line n limits parser none shrinks go = err (invalid "manifest ends without a newline")
with_line n limits parser (some (line, rest)) shrinks go = do
  next ← take_line limits parser line
  go rest (shrinks line rest refl) next

-- The loop of `parse` over the bytes that are left.
unfoldable pub parse_lines :
    (limits : Limits) (bytes : Bytes) (left : ℕ)
    → Acc ◌<◌ left
    → left ≡ length bytes
    → Parser
    → Result Parser
unfolding with_line
parse_lines limits [] left w eq parser = ok parser
parse_lines limits (b ∷ bytes) left (Acc.intro _ smaller) eq parser =
    with_line (length (b ∷ bytes)) limits parser (next_line (b ∷ bytes))
      (next_line-shrinks (b ∷ bytes))
      λ rest shorter next.
        parse_lines limits rest (length rest) (smaller _ (shrunk eq shorter)) refl next

unfoldable pub parse : Bytes → Limits → Result Manifest
unfolding parse_lines lt_wf
parse bytes limits = do
  limit_bytes limits (length bytes)
  parser ←
      parse_lines limits bytes (length bytes) (lt_wf.apply (length bytes)) refl
        (record { manifest = record { main = []; entries = [] }; section = []; is_main = true })
  manifest ← add_section parser.manifest parser.section parser.is_main
  limit_elements limits (length manifest.entries)
  ok manifest

-- `Manifest::get`, `entry_attribute` and `multi_release`.
unfoldable pub get : Manifest → Bytes → Option Bytes
get manifest name = Map.get (to_ascii_lowercase name) manifest.main

unfoldable pub entry_attribute : Manifest → Bytes → Bytes → Option Bytes
entry_attribute manifest entry name = elim (Map.get entry manifest.entries) [
  | none ↦ none
  | some attributes ↦ Map.get (to_ascii_lowercase name) attributes
]

unfoldable pub multi_release : Manifest → Bool
multi_release manifest = elim (get manifest (ascii "Multi-Release")) [
  | none ↦ false
  | some value ↦ bytes_eq (to_ascii_lowercase value) (ascii "true")
]

-- `text.contains(part)`.
unfoldable pub contains : Bytes → Bytes → Bool
contains part [] = is_empty part
contains part (b ∷ bytes) = bytes_eq (take (length part) (b ∷ bytes)) part || contains part bytes

-- `text.ends_with(part)`.
abbrev pub ends_with : Bytes → Bytes → Bool
ends_with part text = bytes_eq (drop (length text - length part) text) part

unfoldable pub signature_header : Bytes → Bool
signature_header name =
    bytes_eq name (ascii "signature-version")
    || bytes_eq name (ascii "magic")
    || ends_with (ascii "-digest") name
    || contains (ascii "-digest-") name

abbrev pub crlf : Bytes
crlf = b'\r' ∷ b'\n' ∷ []

pub seventy_one : 0 < 71
seventy_one = omega arith

pub seventy_two : 0 < 72
seventy_two = omega arith

pub fold_advances :
    (remaining : Bytes) (capacity left : ℕ)
    → left ≡ length remaining
    → 0 < capacity
    → 0 < length (drop capacity remaining)
    → length (drop capacity remaining) < left
fold_advances remaining capacity left eq h more = omega (arith, length-drop capacity remaining)

-- The loop of `write_header`: the first line holds `capacity` bytes, the others 71 after a space.
unfoldable pub fold_lines :
    (remaining : Bytes) (capacity left : ℕ)
    → Acc ◌<◌ left
    → left ≡ length remaining
    → 0 < capacity
    → Bytes
    → Bytes
fold_lines remaining capacity left (Acc.intro _ smaller) eq h bytes =
    let written = bytes ++ take capacity remaining ++ crlf in
    let rest = drop capacity remaining in
    dite (dec_lt 0 (length rest))
      (λ more.
        fold_lines rest 71 (length rest)
          (smaller _ (fold_advances remaining capacity left eq h more)) refl seventy_one
          (written ++ b' ' ∷ []))
      (λ _. written)

-- A header has a colon, so there is always a first line.
unfoldable pub write_header : Bytes → Bytes → Bytes → Bytes
unfolding fold_lines fold_advances lt_wf dec_lt
write_header bytes name value =
    let header = name ++ ascii ": " ++ value in
    fold_lines header 72 (length header) (lt_wf.apply (length header)) refl seventy_two bytes

-- The loops of `for_runtime` over the attributes of a section.
unfoldable pub write_attributes : (Bytes → Bool) → Map Bytes → Bytes → Bytes
write_attributes is_left_out [] bytes = bytes
write_attributes is_left_out ((name, value) ∷ attributes) bytes =
    write_attributes is_left_out attributes
      (if is_left_out name then bytes else write_header bytes name value)

abbrev pub left_out_of_main : Bytes → Bool
left_out_of_main name =
    bytes_eq name (ascii "manifest-version")
    || bytes_eq name (ascii "class-path")
    || signature_header name

-- The loop of `for_runtime` over the entries.
unfoldable pub write_entries : Map (Map Bytes) → Bytes → Bytes
write_entries [] bytes = bytes
write_entries ((entry, attributes) ∷ entries) bytes = write_entries entries (
    if any (λ (attribute : Bytes × Bytes). not (signature_header attribute.0)) attributes
    then write_attributes signature_header attributes (write_header bytes (ascii "Name") entry)
      ++ crlf
    else bytes)

unfoldable pub for_runtime : Manifest → Bytes
for_runtime manifest =
    let version = unwrap_or (get manifest (ascii "Manifest-Version")) (ascii "1.0") in
    let first = write_header [] (ascii "Manifest-Version") version in
    let attributes = write_attributes left_out_of_main manifest.main first in
    write_entries manifest.entries (attributes ++ crlf)
