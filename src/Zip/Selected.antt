-- ===== src/Zip/Selected.antt =====
-- janex-format/src/wrapper.rs: how `candidate_ends` comes out.
use janex.Base.{
  ℕ, zero, suc, ◌+◌, ◌-◌, Bool, true, false, ◌≡◌, inl, inr, refl, sym, ap, ◌∙◌, List, [], ◌∷◌, ◌++◌,
  append_assoc, append-nil, length, if◌then◌else◌, Bytes,
}
use janex.Failure.{
  Result, ok, err, Raises, fine, raised, Raises-bind, Raises-if, Ensures, holds, failed,
  Ensures-bind, Ensures-weaken, Ensures-if,
}
use janex.Binary.{Limits}
use janex.Binary.Decoder.{slice}
use janex.Zip.{Directory}
use janex.Zip.Locate.{directories}
use janex.Zip.Reads.{IsPart, read_at-IsPart}
use janex.Zip.Validate.{validate_directory}
use janex.Zip.Ends.{is_invalid, judge, judge_all, is_end_record, scan_tail, candidate_ends}
use janex.Zip.Errors.{IsStop, read_at-Raises, directories-Raises}
use janex.Zip.Refusals.{IsRefusal, validate_directory-Raises}

abbrev pub is_ok {ℓ} : {A : Type ℓ} → Result A → Bool
is_ok (err e) = false
is_ok (ok a) = true

-- The starts of the JARs whose directories are valid, in the order of the directories.
abbrev pub valid_starts : Bytes → Limits → List Directory → List ℕ
valid_starts source limits [] = []
valid_starts source limits (d ∷ found) =
    let rest = valid_starts source limits found in
    if is_ok (validate_directory source d limits) then d.jar_start ∷ rest else rest

abbrev pub all_found : Result (List Directory) → List Directory
all_found (err e) = []
all_found (ok found) = found

-- Those of all end records in the tail, of which `left` places from `index` on are to come.
abbrev pub selected_from : ℕ → Bytes → ℕ → Bytes → Limits → ℕ → List ℕ
selected_from zero source start tail limits index = []
selected_from (suc left) source start tail limits index =
    let rest = selected_from left source start tail limits (index + 1) in
    if is_end_record tail index
    then valid_starts source limits
        (all_found (directories source (start + index) (slice tail index (index + 22)) limits))
      ++ rest
    else rest

abbrev pub selected : Bytes → ℕ → Bytes → Limits → List ℕ
selected source start tail limits = selected_from (length tail - 21) source start tail limits 0

-- The search stops at a limit or a read that failed, or it has gone through the tail of the source.
pub Outcome : Bytes → ℕ → Limits → Result (List ℕ) → Type 0
Outcome source size limits (err e) = IsStop e
Outcome source size limits (ok ends) =
    (tail : Bytes) × IsPart source (size - 65557) (size - (size - 65557)) tail
    × (ends ≡ selected source (size - 65557) tail limits)

judge-Raises :
    (r : Result (Unit {0})) (jar_start : ℕ) (ends : List ℕ)
    → Raises IsRefusal r
    → Raises IsStop (judge r jar_start ends)
unfolding judge
judge-Raises (ok _) jar_start ends h = fine
judge-Raises (err e) jar_start ends (raised h) = by_kind (is_invalid e) refl h
  where
    by_kind :
        (b : Bool)
        → is_invalid e ≡ b
        → IsRefusal e
        → Raises {A = List ℕ} IsStop (if b then ok ends else err e)
    by_kind true _ h = fine
    by_kind false valid (inl invalid) = absurd (cc)
    by_kind false valid (inr stop) = raised stop

judge_all-Raises :
    (source : Bytes) (limits : Limits) (found : List Directory) (ends : List ℕ)
    → Raises IsStop (judge_all source limits found ends)
unfolding judge_all
judge_all-Raises source limits [] ends = fine
judge_all-Raises source limits (d ∷ rest) ends =
    Raises-bind
      (judge-Raises (validate_directory source d limits) d.jar_start ends
        (validate_directory-Raises source d limits))
      λ more. judge_all-Raises source limits rest more

scan_tail-Raises :
    (left : ℕ) (source : Bytes) (start : ℕ) (tail : Bytes) (limits : Limits) (index : ℕ)
    (ends : List ℕ)
    → Raises IsStop (scan_tail left source start tail limits index ends)
unfolding scan_tail
scan_tail-Raises zero source start tail limits index ends = fine
scan_tail-Raises (suc left) source start tail limits index ends =
    Raises-bind
      (Raises-if (is_end_record tail index)
        (Raises-bind
          (directories-Raises source (start + index) (slice tail index (index + 22)) limits)
          λ found. judge_all-Raises source limits found ends)
        fine)
      λ more. scan_tail-Raises left source start tail limits (index + 1) more

-- One directory appends its start when it is valid.
judge-Ensures :
    (r : Result (Unit {0})) (jar_start : ℕ) (ends rest : List ℕ)
    → Ensures
        (λ more. more ++ rest ≡ ends ++ (if is_ok r then jar_start ∷ rest else rest))
        (judge r jar_start ends)
unfolding judge
judge-Ensures (ok _) jar_start ends rest = holds (append_assoc ends (jar_start ∷ []) rest)
judge-Ensures (err e) jar_start ends rest =
    Ensures-if (is_invalid e) (λ _. holds refl) (λ _. failed)

judge_all-Ensures :
    (source : Bytes) (limits : Limits) (found : List Directory) (ends : List ℕ)
    → Ensures
        (λ more. more ≡ ends ++ valid_starts source limits found)
        (judge_all source limits found ends)
unfolding judge_all
judge_all-Ensures source limits [] ends = holds (sym (append-nil ends))
judge_all-Ensures source limits (d ∷ found) ends =
    Ensures-bind
      (judge-Ensures (validate_directory source d limits) d.jar_start ends
        (valid_starts source limits found))
      λ more h. Ensures-weaken (judge_all-Ensures source limits found more) λ last k. k ∙ h

Ensures-same {ℓ} : {A : Type ℓ} (r : Result A) → Ensures (λ a. r ≡ ok a) r
Ensures-same (err e) = failed
Ensures-same (ok a) = holds refl

scan_tail-Ensures :
    (left : ℕ) (source : Bytes) (start : ℕ) (tail : Bytes) (limits : Limits) (index : ℕ)
    (ends : List ℕ)
    → Ensures
        (λ last. last ≡ ends ++ selected_from left source start tail limits index)
        (scan_tail left source start tail limits index ends)
unfolding scan_tail
scan_tail-Ensures zero source start tail limits index ends = holds (sym (append-nil ends))
scan_tail-Ensures (suc left) source start tail limits index ends =
    Ensures-bind
      {P = λ more. more ++ rest ≡ ends ++ selected_from (suc left) source start tail limits index}
      (Ensures-if (is_end_record tail index)
        (λ test. Ensures-bind (Ensures-same found_here) λ found same.
          Ensures-weaken (judge_all-Ensures source limits found ends)
            λ more h. appended found test same more h)
        (λ none_here. holds (rw none_here refl)))
      λ more h.
        Ensures-weaken (scan_tail-Ensures left source start tail limits (index + 1) more)
          λ last k. k ∙ h
  where
    rest : List ℕ
    rest = selected_from left source start tail limits (index + 1)

    found_here : Result (List Directory)
    found_here = directories source (start + index) (slice tail index (index + 22)) limits

    appended :
        (found : List Directory)
        → is_end_record tail index ≡ true
        → found_here ≡ ok found
        → (more : List ℕ) → more ≡ ends ++ valid_starts source limits found
        → more ++ rest ≡ ends ++ selected_from (suc left) source start tail limits index
    appended found test same more h =
        rw (test, same)
          (ap (λ (t : List ℕ). t ++ rest) h
            ∙ append_assoc ends (valid_starts source limits found) rest)

either_way :
    (source : Bytes) (size : ℕ) (limits : Limits) (r : Result (List ℕ))
    → Raises IsStop r
    → Ensures (λ ends. Outcome source size limits (ok ends)) r
    → Outcome source size limits r
unfolding Outcome
either_way source size limits (err e) (raised h) k = h
either_way source size limits (ok ends) h (holds k) = k

-- candidate_ends fails only at a limit or at a read that failed. Otherwise it returns the starts of
-- the JARs whose directories validate_directory accepts, and only those, among all the directories
-- of the end records in the tail, in their order: one that is invalid is passed over.
pub candidate_ends-Outcome :
    (source : Bytes) (size : ℕ) (limits : Limits)
    → Outcome source size limits (candidate_ends source size limits)
unfolding candidate_ends Outcome
candidate_ends-Outcome source size limits =
    let start = size - 65557 in
    either_way source size limits (candidate_ends source size limits)
      (Raises-bind (read_at-Raises source start (size - start) limits)
        λ tail. scan_tail-Raises (length tail - 21) source start tail limits 0 [])
      (Ensures-bind (read_at-IsPart source start (size - start) limits) λ tail part.
        Ensures-weaken (scan_tail-Ensures (length tail - 21) source start tail limits 0 [])
          λ ends same. (tail, part, same))
