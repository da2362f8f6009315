-- ===== src/Java/Manifest/RoundTrip.antt =====
-- janex-java/src/manifest.rs: a header that `write_header` folds, read by the loop of `parse`.
use janex.Base.{
  ℕ, zero, suc, ◌+◌, ◌-◌, ◌≤◌, true, ◌≡◌, refl, sym, ap, ◌∙◌, subst, false, ◌==◌, [], ◌∷◌, ◌++◌,
  append_assoc, append-nil, All-take, All-drop, All-append, length, length-append, length-take,
  length-drop, take, drop, take-append-drop, Bytes, IsU64, arith, lt_wf,
}
use janex.Failure.{ok}
use janex.Java.{Limits, limit_bytes, limit_elements}
use janex.Java.Manifest.{
  Parser, take_line, is_header_name, to_ascii_lowercase, is_break, crlf, write_header, seventy_two,
}
use janex.Java.Manifest.Lines.{run, run_line, Unbroken, next_line-crlf}
use janex.Java.Manifest.Folding.{
  Folded, last, more, Lines, one_more, no_line, fold_lines-Folded, with_header, IsClean,
  Unbroken-clean, take_line-continuation, take_line-header, name-IsClean, header_name-bytes,
  header_name-le,
}

pub limit_bytes-ok :
    (limits : Limits) (n : ℕ) → n ≤ limits.max_bytes → IsU64 n → limit_bytes limits n ≡ ok n
unfolding limit_bytes
limit_bytes-ok limits n h fits = ground arith

pub limit_elements-ok :
    (limits : Limits) (n : ℕ) → n ≤ limits.max_elements → IsU64 n → limit_elements limits n ≡ ok n
unfolding limit_elements
limit_elements-ok limits n h fits = ground arith

-- The limits let a value of `n` bytes pass.
abbrev pub Fits : Limits → ℕ → Type 0
Fits limits n = (n ≤ limits.max_bytes) × IsU64 n

-- One line with a line break behind it.
line_then :
    (limits : Limits) (line text after : Bytes) (parser next : Parser)
    → Unbroken line
    → take_line limits parser line ≡ ok next
    → run limits ((line ++ (crlf ++ text)) ++ after) parser ≡ run limits (text ++ after) next
line_then limits line text after parser next unbroken taken =
    ap (λ (t : Bytes). run limits t parser) (append_assoc line (crlf ++ text) after)
    ∙ run_line limits (line ++ (crlf ++ (text ++ after))) line (text ++ after) parser next
        (next_line-crlf line (text ++ after) unbroken) taken

IsClean-take : (n : ℕ) (bytes : Bytes) → IsClean bytes → IsClean (take n bytes)
IsClean-take n bytes h = All-take (λ b. (is_break b ≡ false) × ((b == 0) ≡ false)) n bytes h

IsClean-drop : (n : ℕ) (bytes : Bytes) → IsClean bytes → IsClean (drop n bytes)
IsClean-drop n bytes h = All-drop (λ b. (is_break b ≡ false) × ((b == 0) ≡ false)) n bytes h

-- The lines after the first one add what they hold to the value.
run-continued :
    (limits : Limits) (parser : Parser) (key value content text after : Bytes) (capacity : ℕ)
    → Folded capacity content text
    → IsClean content
    → Fits limits (length value + length content)
    → run limits ((b' ' ∷ text) ++ after) (with_header parser key value)
      ≡ run limits after (with_header parser key (value ++ content))
run-continued limits parser key value content text after capacity (last h) clean fits =
    ap (λ (t : Bytes). run limits (b' ' ∷ (t ++ after)) (with_header parser key value))
      (ap (λ (t : Bytes). content ++ t) (sym (append-nil crlf)))
    ∙ line_then limits (b' ' ∷ content) [] after (with_header parser key value)
        (with_header parser key (value ++ content)) (refl, Unbroken-clean content clean)
        (take_line-continuation limits parser key value content clean
          (limit_bytes-ok limits (length value + length content) fits.0 fits.1))
run-continued limits parser key value content text after capacity (more {text = text'} h folded)
      clean fits =
    let chunk = take capacity content in
    let total : length (value ++ chunk) + length (drop capacity content)
        ≡ length value + length content =
      omega (
        arith,
        length-append value chunk,
        length-take capacity content,
        length-drop capacity content,
      ) in
    let size : length chunk ≤ length content = omega (arith, length-take capacity content) in
    line_then limits (b' ' ∷ chunk) (b' ' ∷ text') after (with_header parser key value)
      (with_header parser key (value ++ chunk))
      (refl, Unbroken-clean chunk (IsClean-take capacity content clean))
      (take_line-continuation limits parser key value chunk (IsClean-take capacity content clean) (
        limit_bytes-ok limits (length value + length chunk) (omega (arith, fits.0))
          (omega (arith, fits.1))))
    ∙ run-continued limits parser key (value ++ chunk) (drop capacity content) text' after 71 folded
        (IsClean-drop capacity content clean)
        (omega (arith, total, fits.0), omega (arith, total, fits.1))
    ∙ ap (λ (t : Bytes). run limits after (with_header parser key t))
        (append_assoc value chunk (drop capacity content)
          ∙ ap (λ (t : Bytes). value ++ t) (take-append-drop capacity content))

take_past :
    (front back : Bytes) (n : ℕ)
    → length front ≤ n
    → take n (front ++ back) ≡ front ++ take (n - length front) back
take_past [] back n h = ap (λ (t : ℕ). take t back) (omega arith)
take_past (b ∷ front) back zero h = absurd (omega arith)
take_past (b ∷ front) back (suc n) h =
    ap (λ (t : Bytes). b ∷ t)
      (take_past front back n (omega arith)
        ∙ ap (λ (t : ℕ). front ++ take t back) {x = n - length front}
            {y = suc n - suc (length front)} (omega arith))

drop_past :
    (front back : Bytes) (n : ℕ)
    → length front ≤ n
    → drop n (front ++ back) ≡ drop (n - length front) back
drop_past [] back n h = ap (λ (t : ℕ). drop t back) (omega arith)
drop_past (b ∷ front) back zero h = absurd (omega arith)
drop_past (b ∷ front) back (suc n) h =
    drop_past front back n (omega arith)
    ∙ ap (λ (t : ℕ). drop t back) {x = n - length front} {y = suc n - suc (length front)}
        (omega arith)

abbrev pub colon : Bytes
colon = b':' ∷ b' ' ∷ []

-- The first line has the name, the colon and the front of the value.
first_line :
    (limits : Limits) (parser : Parser) (name value : Bytes)
    → is_header_name name ≡ true
    → IsClean value
    → length parser.section + 1 ≤ limits.max_elements
    → IsU64 (length parser.section + 1)
    → (Unbroken (name ++ (colon ++ value)))
      × (take_line limits parser (name ++ (colon ++ value))
          ≡ ok (with_header parser (to_ascii_lowercase name) value))
first_line limits parser name value named clean room word = (
  All-append (λ b. is_break b ≡ false) name (colon ++ value)
      (Unbroken-clean name (name-IsClean name (header_name-bytes name named)))
      (refl, (refl, Unbroken-clean value clean)),
  take_line-header limits parser name value named clean
      (limit_elements-ok limits (length parser.section + 1) room word),
)

pub run-Folded :
    (limits : Limits) (parser : Parser) (name value content text after : Bytes)
    → is_header_name name ≡ true
    → IsClean value
    → Fits limits (length value)
    → length parser.section + 1 ≤ limits.max_elements
    → IsU64 (length parser.section + 1)
    → content ≡ (name ++ colon) ++ value
    → Folded 72 content text
    → run limits (text ++ after) parser
      ≡ run limits after (with_header parser (to_ascii_lowercase name) value)
run-Folded limits parser name value content text after named clean fits room word e (last h) =
    let line = first_line limits parser name value named clean room word in
    let same : content ≡ name ++ (colon ++ value) = e ∙ append_assoc name colon value in
    ap (λ (t : Bytes). run limits ((t ++ crlf) ++ after) parser) same
    ∙ line_then limits (name ++ (colon ++ value)) [] after parser
        (with_header parser (to_ascii_lowercase name) value) line.0 line.1
run-Folded limits parser name value content text after named clean fits room word e
      (more {text = text'} h folded) =
    let n = 72 - length (name ++ colon) in
    let short : length (name ++ colon) ≤ 72 =
      omega (arith, length-append name colon, header_name-le name named) in
    let front = take n value in
    let line = first_line limits parser name front named (IsClean-take n value clean) room word in
    let chunk : take 72 content ≡ name ++ (colon ++ front) =
      ap (take 72) e ∙ take_past (name ++ colon) value 72 short ∙ append_assoc name colon front in
    let left : drop 72 content ≡ drop n value =
      ap (drop 72) e ∙ drop_past (name ++ colon) value 72 short in
    let total : length front + length (drop n value) ≡ length value =
      omega (arith, length-take n value, length-drop n value) in
    ap (λ (t : Bytes). run limits ((t ++ (crlf ++ (b' ' ∷ text'))) ++ after) parser) chunk
    ∙ line_then limits (name ++ (colon ++ front)) (b' ' ∷ text') after parser
        (with_header parser (to_ascii_lowercase name) front) line.0 line.1
    ∙ run-continued limits parser (to_ascii_lowercase name) front (drop n value) text' after 71
        (subst (λ (t : Bytes). Folded 71 t text') left folded) (IsClean-drop n value clean)
        (omega (arith, total, fits.0), omega (arith, total, fits.1))
    ∙ ap (λ (t : Bytes). run limits after (with_header parser (to_ascii_lowercase name) t))
        (take-append-drop n value)

-- Where the loop of parse meets what write_header wrote for a header, it reads the very header back
-- into the section, with the name in lower case, and goes on behind it: however the header is
-- folded, when the name is one that parse accepts, the value has no line break and no NUL and keeps
-- to the byte limit, and the section has room for one more; lengths fit 64 bits.
pub run-write_header :
    (limits : Limits) (parser : Parser) (name value after : Bytes)
    → is_header_name name ≡ true
    → IsClean value
    → Fits limits (length value)
    → length parser.section + 1 ≤ limits.max_elements
    → IsU64 (length parser.section + 1)
    → run limits (write_header [] name value ++ after) parser
      ≡ run limits after (with_header parser (to_ascii_lowercase name) value)
unfolding write_header
run-write_header limits parser name value after named clean fits room word =
    let header = name ++ colon ++ value in
    let (text, same, folded) =
      fold_lines-Folded header 72 (length header) (lt_wf.apply (length header)) refl seventy_two
        [] in
    ap (λ (t : Bytes). run limits (t ++ after) parser) same
    ∙ run-Folded limits parser name value header text after named clean fits room word refl folded

take-le : (n : ℕ) (bytes : Bytes) → length (take n bytes) ≤ n
take-le n bytes = omega (arith, length-take n bytes)

-- Every line after the first has a space and 71 bytes at most.
Folded-Lines :
    (content text : Bytes) → Folded 71 content text → IsClean content → Lines 72 (b' ' ∷ text)
Folded-Lines content text (last h) clean =
    subst (Lines 72) (ap (λ (t : Bytes). b' ' ∷ (content ++ t)) (append-nil crlf))
      (one_more (b' ' ∷ content) (omega arith) (refl, Unbroken-clean content clean) no_line)
Folded-Lines content text (more {text = text'} h folded) clean =
    one_more (b' ' ∷ take 71 content) (omega (arith, take-le 71 content))
      (refl, Unbroken-clean (take 71 content) (IsClean-take 71 content clean))
      (Folded-Lines (drop 71 content) text' folded (IsClean-drop 71 content clean))

first-Lines : (content text : Bytes) → Folded 72 content text → IsClean content → Lines 72 text
first-Lines content text (last h) clean =
    subst (Lines 72) (ap (λ (t : Bytes). content ++ t) (append-nil crlf))
      (one_more content h (Unbroken-clean content clean) no_line)
first-Lines content text (more {text = text'} h folded) clean =
    one_more (take 72 content) (take-le 72 content)
      (Unbroken-clean (take 72 content) (IsClean-take 72 content clean))
      (Folded-Lines (drop 72 content) text' folded (IsClean-drop 72 content clean))

-- write_header writes lines of at most 72 bytes, each ended by CRLF, when neither the name nor the
-- value has a line break or a NUL.
pub write_header-Lines :
    (name value : Bytes) → IsClean name → IsClean value → Lines 72 (write_header [] name value)
unfolding write_header
write_header-Lines name value named clean =
    let header = name ++ colon ++ value in
    let (text, same, folded) =
      fold_lines-Folded header 72 (length header) (lt_wf.apply (length header)) refl seventy_two
        [] in
    subst (Lines 72) (sym same) (
      first-Lines header text folded (
        All-append (λ b. (is_break b ≡ false) × ((b == 0) ≡ false)) (name ++ colon) value
          (All-append (λ b. (is_break b ≡ false) × ((b == 0) ≡ false)) name colon named
            ((refl, refl), ((refl, refl), tt)))
          clean))
