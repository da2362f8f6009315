-- ===== src/Java/Manifest/Lines.antt =====
-- janex-java/src/manifest.rs: the loop of `parse` one line at a time.
use janex.Base.{
  Bool, true, false, ℕ, ◌<◌, false, ◌≡◌, refl, ap, ◌∙◌, Option, none, some, [], ◌∷◌, ◌++◌, All,
  length, Bytes, lt_wf,
}
use janex.Failure.{Result, ok, err, ◌>>=◌}
use janex.Java.{Limits, limit_bytes, limit_elements}
use janex.Java.Manifest.{
  Manifest, parse, add_section, Parser, take_line, is_break, next_line, next_line-shrinks,
  push_front, crlf, with_line, parse_lines, shrunk,
}
use mathlib.Core.WellFounded.{Acc}

-- The loop of `parse` from a point of the input on.
pub run : Limits → Bytes → Parser → Result Parser
run limits bytes parser =
    parse_lines limits bytes (length bytes) (lt_wf.apply (length bytes)) refl parser

bind_path :
    {A B : Type 0} (r : Result A) {f g : A → Result B} → ((a : A) → f a ≡ g a) → r >>= f ≡ r >>= g
bind_path (ok a) h = h a
bind_path (err e) h = refl

with_line_path :
    (n : ℕ) (limits : Limits) (parser : Parser) (found : Option (Bytes × Bytes))
    (shrinks : (line rest : Bytes) → found ≡ some (line, rest) → length rest < n)
    {go go' : (rest : Bytes) → length rest < n → Parser → Result Parser}
    → ((rest : Bytes) (h : length rest < n) (next : Parser) → go rest h next ≡ go' rest h next)
    → with_line n limits parser found shrinks go ≡ with_line n limits parser found shrinks go'
unfolding with_line
with_line_path n limits parser none shrinks h = refl
with_line_path n limits parser (some (line, rest)) shrinks h =
    bind_path (take_line limits parser line) λ next. h rest (shrinks line rest refl) next

-- How the loop is seen to end does not matter.
parse_lines_path :
    (limits : Limits) (bytes : Bytes) (left left' : ℕ) (w : Acc ◌<◌ left) (w' : Acc ◌<◌ left')
    (eq : left ≡ length bytes) (eq' : left' ≡ length bytes) (parser : Parser)
    → parse_lines limits bytes left w eq parser ≡ parse_lines limits bytes left' w' eq' parser
unfolding parse_lines
parse_lines_path limits [] left left' w w' eq eq' parser = refl
parse_lines_path limits (b ∷ bytes) left left' (Acc.intro _ smaller) (Acc.intro _ smaller') eq eq'
      parser =
    with_line_path (length (b ∷ bytes)) limits parser (next_line (b ∷ bytes))
      (next_line-shrinks (b ∷ bytes))
      λ rest shorter next.
        parse_lines_path limits rest (length rest) (length rest) (smaller _ (shrunk eq shorter))
          (smaller' _ (shrunk eq' shorter)) refl refl next

with_line-some :
    (n : ℕ) (limits : Limits) (parser next : Parser) (found : Option (Bytes × Bytes))
    (shrinks : (line rest : Bytes) → found ≡ some (line, rest) → length rest < n)
    (go : (rest : Bytes) → length rest < n → Parser → Result Parser) (line rest : Bytes)
    → (e : found ≡ some (line, rest)) → take_line limits parser line ≡ ok next
    → (r : Result Parser) → ((m : Bytes) (h : length m < n) → m ≡ rest → go m h next ≡ r)
    → with_line n limits parser found shrinks go ≡ r
unfolding with_line
with_line-some n limits parser next none shrinks go line rest e taken r h = cc
with_line-some n limits parser next (some (l, m)) shrinks go line rest e taken r h =
    let same_line : l ≡ line = cc in
    let same_rest : m ≡ rest = cc in rw (same_line, taken) (h m (shrinks l m refl) same_rest)

-- One round: a line that is taken leaves the rest.
pub run_line :
    (limits : Limits) (bytes line rest : Bytes) (parser next : Parser)
    → next_line bytes ≡ some (line, rest)
    → take_line limits parser line ≡ ok next
    → run limits bytes parser ≡ run limits rest next
unfolding run parse_lines next_line
run_line limits [] line rest parser next e taken = cc
run_line limits (b ∷ bytes) line rest parser next e taken =
    by_access (lt_wf.apply (length (b ∷ bytes)))
  where
    by_access :
        (w : Acc ◌<◌ (length (b ∷ bytes)))
        → parse_lines limits (b ∷ bytes) (length (b ∷ bytes)) w refl parser ≡ run limits rest next
    by_access (Acc.intro _ smaller) =
        with_line-some (length (b ∷ bytes)) limits parser next (next_line (b ∷ bytes))
          (next_line-shrinks (b ∷ bytes)) _ line rest e taken (run limits rest next)
          λ m h same.
            parse_lines_path limits m (length m) (length m) (smaller (length m) (shrunk refl h))
              (lt_wf.apply (length m)) refl refl next
            ∙ ap (λ (t : Bytes). run limits t next) same

-- No byte breaks the line.
abbrev pub Unbroken : Bytes → Type 0
Unbroken = All (λ b. is_break b ≡ false)

-- A line that CRLF ends.
pub next_line-crlf :
    (line rest : Bytes) → Unbroken line → next_line (line ++ (crlf ++ rest)) ≡ some (line, rest)
unfolding next_line
next_line-crlf [] rest h = refl
next_line-crlf (b ∷ line) rest h = rw (h.0) (ap (push_front b) (next_line-crlf line rest h.1))

pub run-nil : (limits : Limits) (parser : Parser) → run limits [] parser ≡ ok parser
unfolding run parse_lines
run-nil limits parser = refl

-- `parse` is the loop from an empty manifest on, when the last section was ended by an empty line.
pub parse-run :
    (bytes : Bytes) (limits : Limits) (manifest : Manifest) (is_main : Bool)
    → limit_bytes limits (length bytes) ≡ ok (length bytes)
    → run limits bytes
        (record { manifest = record { main = []; entries = [] }; section = []; is_main = true })
      ≡ ok (record { manifest = manifest; section = []; is_main = is_main })
    → limit_elements limits (length manifest.entries) ≡ ok (length manifest.entries)
    → parse bytes limits ≡ ok manifest
unfolding run parse add_section
parse-run bytes limits manifest is_main fits ran room = rw (fits, ran, room) refl
