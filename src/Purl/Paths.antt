-- ===== src/Purl/Paths.antt =====
-- janex-format/src/purl.rs: `segments` against the one spelling of every path.
use janex.Base.{
  ℕ, Bool, true, false, ◌&&◌, ◌||◌, List, [], ◌∷◌, ◌++◌, append_assoc, map, any, ◌==◌,
  if◌then◌else◌, Bytes, ascii, bytes_eq, split, push_first, append-nil, ◌≡◌, refl, sym, ap, ◌∙◌,
  subst, arith, All,
}
use janex.Failure.{ok, Ensures, holds, Ensures-bind, Ensures-ok, Ensures-reject_if}
use janex.Purl.{decode_parts, join_slash, segments}
use janex.Purl.Canonical.{escape, escaped, IsComponent, component-Ensures}

-- The canonical spelling of a path: slashes stay, and all else is escaped where it must be.
abbrev pub escaped_path : Bytes → Bytes
escaped_path [] = []
escaped_path (byte ∷ path) =
    let rest = escaped_path path in if byte == b'/' then b'/' ∷ rest else escape byte ++ rest

abbrev pub is_dots : Bytes → Bool
is_dots part = bytes_eq part (ascii ".") || bytes_eq part (ascii "..")

-- A segment that a path may have.
pub record IsSegment (subpath : Bool) (part : Bytes) : Type 0 where
  pub text : IsComponent part
  pub no_dots : (subpath && is_dots part) ≡ false

abbrev Unslashed : Bytes → Type 0
Unslashed = All (λ b. (b == b'/') ≡ false)

unslashed : (part : Bytes) → any (λ b. b == b'/') part ≡ false → Unslashed part
unslashed [] h = tt
unslashed (b ∷ part) h = (ground arith, unslashed part (ground arith))

-- The parts of a path, as they are read.
record IsRead (subpath : Bool) (values parts : List Bytes) : Type 0 where
  same : values ≡ map escaped parts
  unslashed : All Unslashed parts
  segments : All (IsSegment subpath) parts

decode_parts-Ensures :
    (values : List Bytes) (subpath : Bool)
    → Ensures (IsRead subpath values) (decode_parts values subpath)
unfolding decode_parts
decode_parts-Ensures [] subpath = holds (record { same = refl; unslashed = tt; segments = tt })
decode_parts-Ensures (value ∷ values) subpath = Ensures-bind (component-Ensures value) λ part read.
    Ensures-reject_if (any (λ b. b == b'/') part || subpath && is_dots part) _ λ fine.
      Ensures-bind (decode_parts-Ensures values subpath) λ parts h.
        holds {a = part ∷ parts} (record {
          same = λ i. read.0 i ∷ h.same i;
          unslashed = (unslashed part (ground arith), h.unslashed);
          segments = (record { text = read.1; no_dots = ground arith }, h.segments);
        })

join_slash-push_first :
    (b : ℕ) (parts : List Bytes) → join_slash (push_first b parts) ≡ b ∷ join_slash parts
join_slash-push_first b [] = refl
join_slash-push_first b (part ∷ []) = refl
join_slash-push_first b (part ∷ next ∷ parts) = refl

-- There is always a part.
join_slash-slash :
    (path : Bytes) → join_slash ([] ∷ split b'/' path) ≡ b'/' ∷ join_slash (split b'/' path)
unfolding split
join_slash-slash [] = refl
join_slash-slash (b ∷ path) = by_slash (b == b'/') (split b'/' path)
  where
    by_slash :
        (c : Bool) (parts : List Bytes)
        → join_slash ([] ∷ (if c then [] ∷ parts else push_first b parts))
          ≡ b'/' ∷ join_slash (if c then [] ∷ parts else push_first b parts)
    by_slash true parts = refl
    by_slash false [] = refl
    by_slash false (part ∷ parts) = refl

-- A path is its parts put together.
join_slash-split : (path : Bytes) → join_slash (split b'/' path) ≡ path
unfolding split
join_slash-split [] = refl
join_slash-split (b ∷ path) = by_slash (b == b'/') refl (join_slash-split path)
  where
    by_slash :
        (c : Bool)
        → (b == b'/') ≡ c
        → join_slash (split b'/' path) ≡ path
        → join_slash (if c then [] ∷ split b'/' path else push_first b (split b'/' path)) ≡ b ∷ path
    by_slash true slash rec =
        let same : b'/' ≡ b = ground arith in join_slash-slash path ∙ (λ i. same i ∷ rec i)
    by_slash false _ rec = join_slash-push_first b (split b'/' path) ∙ ap (λ (t : Bytes). b ∷ t) rec

escaped_path-part :
    (part rest : Bytes)
    → Unslashed part
    → escaped_path (part ++ rest) ≡ escaped part ++ escaped_path rest
escaped_path-part [] rest h = refl
escaped_path-part (b ∷ part) rest h = rw (h.0) (
    ap (λ (t : Bytes). escape b ++ t) (escaped_path-part part rest h.1)
    ∙ sym (append_assoc (escape b) (escaped part) (escaped_path rest)))

escaped_path-join_slash :
    (parts : List Bytes)
    → All Unslashed parts
    → join_slash (map escaped parts) ≡ escaped_path (join_slash parts)
escaped_path-join_slash [] h = refl
escaped_path-join_slash (part ∷ []) h =
    sym (append-nil (escaped part))
    ∙ sym (escaped_path-part part [] h.0)
    ∙ ap escaped_path (append-nil part)
escaped_path-join_slash (part ∷ next ∷ parts) h =
    ap (λ (t : Bytes). escaped part ++ (b'/' ∷ t)) (escaped_path-join_slash (next ∷ parts) h.1)
    ∙ sym (escaped_path-part part (b'/' ∷ join_slash (next ∷ parts)) h.0)

split-part : (part : Bytes) → Unslashed part → split b'/' part ≡ part ∷ []
unfolding split
split-part [] h = refl
split-part (b ∷ part) h = rw (h.0, split-part part h.1) refl

split-slash :
    (part rest : Bytes)
    → Unslashed part
    → split b'/' (part ++ (b'/' ∷ rest)) ≡ part ∷ split b'/' rest
unfolding split
split-slash [] rest h = refl
split-slash (b ∷ part) rest h = rw (h.0, split-slash part rest h.1) refl

split-join_slash :
    (part : Bytes) (parts : List Bytes)
    → All Unslashed (part ∷ parts)
    → split b'/' (join_slash (part ∷ parts)) ≡ part ∷ parts
split-join_slash part [] h = split-part part h.0
split-join_slash part (next ∷ parts) h =
    split-slash part (join_slash (next ∷ parts)) h.0
    ∙ ap (λ (t : List Bytes). part ∷ t) (split-join_slash next parts h.1)

some_part : (path : Bytes) → split b'/' path ≡ [] → ⊥
unfolding split
some_part path h =
    let empty : path ≡ [] = sym (join_slash-split path) ∙ ap join_slash h in
    let same : split b'/' path ≡ [] ∷ [] = ap (split b'/') empty in cc

read-segments :
    (value : Bytes) (subpath : Bool) (parts : List Bytes)
    → IsRead subpath (split b'/' value) parts
    → (value ≡ escaped_path (join_slash parts))
      × All (IsSegment subpath) (split b'/' (join_slash parts))
read-segments value subpath [] h = absurd (some_part value h.same)
read-segments value subpath (part ∷ parts) h = (
  sym (join_slash-split value)
      ∙ ap join_slash h.same
      ∙ escaped_path-join_slash (part ∷ parts) h.unslashed,
  subst (All (IsSegment subpath)) (sym (split-join_slash part parts h.unslashed)) h.segments,
)

-- A path that segments accepts is spelled in the one canonical way, with its slashes kept and all
-- else escaped where it must be; each of its segments is UTF-8 and not empty, and in a subpath
-- none is `.` or `..`.
pub segments-escaped_path :
    (value path : Bytes) (subpath : Bool)
    → segments value subpath ≡ ok path
    → (value ≡ escaped_path path) × All (IsSegment subpath) (split b'/' path)
unfolding segments
segments-escaped_path value path subpath =
    Ensures-ok
      {P = λ (found : Bytes).
        (value ≡ escaped_path found) × All (IsSegment subpath) (split b'/' found)}
      (Ensures-bind (decode_parts-Ensures (split b'/' value) subpath)
        λ parts h. holds {a = join_slash parts} (read-segments value subpath parts h))
