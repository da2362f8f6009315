-- ===== src/Java/Manifest/Folding.antt =====
-- janex-java/src/manifest.rs: the lines that `write_header` writes, and how `parse` reads them.
use janex.Base.{
  ℕ, zero, suc, ◌+◌, ◌<◌, ◌≤◌, true, false, ◌≡◌, refl, ap, ◌∙◌, none, some, List, [], ◌∷◌, ◌++◌,
  append_assoc, All, All-append, any, all, length, length-drop, take, drop, ◌==◌, Bytes,
  strip_prefix, split_once, is_alphanumeric, arith,
}
use janex.Failure.{ok}
use janex.Java.{Limits, limit_bytes, limit_elements}
use janex.Java.Manifest.{
  Header, Parser, take_line, extend_last, read_header, is_header_name, is_name_byte,
  to_ascii_lowercase, is_break, crlf, fold_lines, fold_advances, seventy_one,
}
use janex.Java.Manifest.Lines.{Unbroken}
use mathlib.Core.Logic.{dite}
use mathlib.Core.WellFounded.{Acc}
use native.Mathlib.Decide.{dec_lt}

-- `text` holds `content` folded: lines of at most `capacity` bytes, and of 71 after a space.
pub data Folded : ℕ → Bytes → Bytes → Type 0 where
  last :
      {capacity : ℕ} {content : Bytes}
      → length content ≤ capacity
      → Folded capacity content (content ++ crlf)
  more :
      {capacity : ℕ} {content text : Bytes}
      → capacity < length content
      → Folded 71 (drop capacity content) text
      → Folded capacity content (take capacity content ++ (crlf ++ (b' ' ∷ text)))

pub take_all : (n : ℕ) (bytes : Bytes) → length bytes ≤ n → take n bytes ≡ bytes
take_all zero [] h = refl
take_all zero (b ∷ bytes) h = absurd (omega arith)
take_all (suc n) [] h = refl
take_all (suc n) (b ∷ bytes) h = ap (λ (t : Bytes). b ∷ t) (take_all n bytes (omega arith))

-- A text of lines that CRLF ends, none longer than `capacity` bytes.
pub data Lines (capacity : ℕ) : Bytes → Type 0 where
  no_line : Lines capacity []
  one_more :
      (content : Bytes) {rest : Bytes}
      → length content ≤ capacity
      → Unbroken content
      → Lines capacity rest
      → Lines capacity (content ++ (crlf ++ rest))

assoc_four : (a b c d e : Bytes) → (a ++ b ++ c ++ d) ++ e ≡ a ++ (b ++ (c ++ (d ++ e)))
assoc_four a b c d e =
    append_assoc (a ++ b ++ c) d e
    ∙ append_assoc (a ++ b) c (d ++ e)
    ∙ append_assoc a b (c ++ (d ++ e))

-- What the loop appends is the content folded.
pub fold_lines-Folded :
    (content : Bytes) (capacity left : ℕ) (w : Acc ◌<◌ left) (eq : left ≡ length content)
    (h : 0 < capacity) (bytes : Bytes)
    → (text : Bytes) × (fold_lines content capacity left w eq h bytes ≡ bytes ++ text)
      × Folded capacity content text
unfolding fold_lines
fold_lines-Folded content capacity left (Acc.intro _ smaller) eq h bytes =
    by_rest (dec_lt 0 (length (drop capacity content))) λ more.
      fold_lines-Folded (drop capacity content) 71 (length (drop capacity content))
        (smaller _ (fold_advances content capacity left eq h more)) refl seventy_one
        (bytes ++ take capacity content ++ crlf ++ b' ' ∷ [])
  where
    by_rest :
        (d : Dec (0 < length (drop capacity content)))
        → ((more : 0 < length (drop capacity content))
            → (text : Bytes) × (fold_lines
                  (drop capacity content)
                  71
                  (length (drop capacity content))
                  (smaller _ (fold_advances content capacity left eq h more))
                  refl
                  seventy_one
                  (bytes ++ take capacity content ++ crlf ++ b' ' ∷ [])
                ≡ (bytes ++ take capacity content ++ crlf ++ b' ' ∷ []) ++ text)
              × Folded 71 (drop capacity content) text)
        → (text : Bytes) × (dite d
              (λ more.
                fold_lines
                  (drop capacity content)
                  71
                  (length (drop capacity content))
                  (smaller _ (fold_advances content capacity left eq h more))
                  refl
                  seventy_one
                  (bytes ++ take capacity content ++ crlf ++ b' ' ∷ []))
              (λ _. bytes ++ take capacity content ++ crlf)
            ≡ bytes ++ text)
          × Folded capacity content text
    by_rest (yes m) rec =
        let (text, same, folded) = rec m in
        (
          take capacity content ++ (crlf ++ (b' ' ∷ text)),
          same ∙ assoc_four bytes (take capacity content) crlf (b' ' ∷ []) text,
          more (omega (arith, length-drop capacity content)) folded,
        )
    by_rest (no n) rec = (
      content ++ crlf,
      append_assoc bytes (take capacity content) crlf
          ∙ ap (λ (t : Bytes). bytes ++ (t ++ crlf))
              (take_all capacity content (omega (arith, length-drop capacity content))),
      last (omega (arith, length-drop capacity content)),
    )

-- The section of a parser with one more header, or with more of the last value.
abbrev pub with_header : Parser → Bytes → Bytes → Parser
with_header parser key value = record parser { section = parser.section ++ (key, value) ∷ [] }

pub extend_last-append :
    (limits : Limits) (section : List Header) (key value continuation : Bytes)
    → limit_bytes limits (length value + length continuation)
      ≡ ok (length value + length continuation)
    → extend_last limits continuation (section ++ (key, value) ∷ [])
      ≡ ok (section ++ (key, value ++ continuation) ∷ [])
unfolding extend_last
extend_last-append limits [] key value continuation h = rw h refl
extend_last-append limits (s ∷ []) key value continuation h = rw h refl
extend_last-append limits (s ∷ t ∷ section) key value continuation h =
    rw (extend_last-append limits (t ∷ section) key value continuation h) refl

-- What a value of a header may hold: no line break and no NUL.
abbrev pub IsClean : Bytes → Type 0
IsClean = All (λ b. (is_break b ≡ false) × ((b == 0) ≡ false))

pub Unbroken-clean : (bytes : Bytes) → IsClean bytes → Unbroken bytes
Unbroken-clean [] h = tt
Unbroken-clean (b ∷ bytes) h = (h.0.0, Unbroken-clean bytes h.1)

no_nul : (bytes : Bytes) → IsClean bytes → any (λ b. b == 0) bytes ≡ false
no_nul [] h = refl
no_nul (b ∷ bytes) h = rw (h.0.1) (no_nul bytes h.1)

pub take_line-continuation :
    (limits : Limits) (parser : Parser) (key value continuation : Bytes)
    → IsClean continuation
    → limit_bytes limits (length value + length continuation)
      ≡ ok (length value + length continuation)
    → take_line limits (with_header parser key value) (b' ' ∷ continuation)
      ≡ ok (with_header parser key (value ++ continuation))
unfolding take_line strip_prefix
take_line-continuation limits parser key value continuation clean h =
    rw
      (no_nul continuation clean, extend_last-append limits parser.section key value continuation h)
      refl

name_byte :
    (b : ℕ)
    → is_name_byte b ≡ true
    → ((is_break b ≡ false) × ((b == 0) ≡ false)) × ((b == b':') ≡ false)
name_byte b h = ground arith

pub name-IsClean : (name : Bytes) → all is_name_byte name ≡ true → IsClean name
name-IsClean [] h = tt
name-IsClean (b ∷ name) h = ((name_byte b (ground arith)).0, name-IsClean name (ground arith))

split_once-name :
    (name rest : Bytes)
    → all is_name_byte name ≡ true
    → split_once b':' (name ++ b':' ∷ rest) ≡ some (name, rest)
unfolding split_once
split_once-name [] rest h = refl
split_once-name (b ∷ name) rest h =
    rw ((name_byte b (ground arith)).1, split_once-name name rest (ground arith)) refl

header_name_parts :
    (b : ℕ) (name : Bytes)
    → is_header_name (b ∷ name) ≡ true
    → (is_alphanumeric b ≡ true) × (all is_name_byte (b ∷ name) ≡ true)
unfolding is_header_name
header_name_parts b name h = (ground arith, ground arith)

pub header_name-le : (name : Bytes) → is_header_name name ≡ true → length name ≤ 70
unfolding is_header_name
header_name-le [] h = omega arith
header_name-le (b ∷ name) h = ground arith

pub header_name-bytes : (name : Bytes) → is_header_name name ≡ true → all is_name_byte name ≡ true
unfolding is_header_name
header_name-bytes [] h = refl
header_name-bytes (b ∷ name) h = (header_name_parts b name h).1

header_name-nil : is_header_name [] ≡ true → ⊥
unfolding is_header_name
header_name-nil h = cc

no_space :
    (c : ℕ) (rest : Bytes) → is_alphanumeric c ≡ true → strip_prefix (b' ' ∷ []) (c ∷ rest) ≡ none
unfolding strip_prefix
no_space c rest h = ground arith

pub take_line-header :
    (limits : Limits) (parser : Parser) (name value : Bytes)
    → is_header_name name ≡ true
    → IsClean value
    → limit_elements limits (length parser.section + 1) ≡ ok (length parser.section + 1)
    → take_line limits parser (name ++ (b':' ∷ b' ' ∷ value))
      ≡ ok (with_header parser (to_ascii_lowercase name) value)
unfolding take_line read_header
take_line-header limits parser [] value named clean h = absurd (header_name-nil named)
take_line-header limits parser (b ∷ name) value named clean h =
    let parts = header_name_parts b name named in
    let line_clean : IsClean (b ∷ (name ++ (b':' ∷ b' ' ∷ value))) =
      All-append (λ b. (is_break b ≡ false) × ((b == 0) ≡ false)) (b ∷ name) (b':' ∷ b' ' ∷ value)
        (name-IsClean (b ∷ name) parts.1) ((refl, refl), ((refl, refl), clean)) in
    rw
      (
        no_nul (b ∷ (name ++ (b':' ∷ b' ' ∷ value))) line_clean,
        no_space b (name ++ (b':' ∷ b' ' ∷ value)) parts.0,
        split_once-name (b ∷ name) (b' ' ∷ value) parts.1,
        named,
        h,
      )
      refl
