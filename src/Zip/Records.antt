-- ===== src/Zip/Records.antt =====
-- janex-format/src/wrapper.rs: `zip64_records` against a scan of the whole source at once.
use janex.Base.{
  ℕ, zero, suc, ◌+◌, ◌-◌, ◌<◌, ◌≤◌, min, Bool, true, false, ◌&&◌, not, ◌≡◌, refl, sym, ap, ◌∙◌,
  List, [], ◌∷◌, All, ◌++◌, append-nil, append_assoc, length, leb, ◌==◌, if◌then◌else◌, Bytes,
  bytes_eq, checked_add, IsU64, arith, lt_wf,
}
use janex.Failure.{
  ok, Ensures, holds, Ensures-bind, Ensures-dite, Ensures-weaken, Ensures-if, Ensures-ok, any,
}
use janex.Binary.{Limits, limit_elements}
use janex.Binary.Decoder.{slice}
use janex.Zip.{tag, u64_at, is_within, is_exactly}
use janex.Zip.Locate.{
  record_end, scan_index, scan_chunk, scan_records, zip64_records, chunk_advances,
}
use janex.Zip.Reads.{IsPart, read_at-IsPart, slice-IsPart, u64_at-IsPart, is_within-checked_add}
use mathlib.Core.WellFounded.{Acc}
use native.Mathlib.Decide.{dec_lt}

-- A ZIP64 end record stands at `position`: its signature, a size of at least 44 and an end at the
-- locator, the fixed part before it.
abbrev pub is_record : Bytes → ℕ → ℕ → Bool
is_record source locator position =
    bytes_eq (slice source position (position + 4)) (tag 6 6)
    && leb (position + 56) locator
    && leb 44 (u64_at source (position + 4))
    && position + 12 + u64_at source (position + 4) == locator

-- The places of the records among the `n` positions from `start` on.
abbrev pub records_from : Bytes → ℕ → ℕ → ℕ → List ℕ
records_from source locator start zero = []
records_from source locator start (suc n) =
    let rest = records_from source locator (start + 1) n in
    if is_record source locator start then start ∷ rest else rest

pub record_end-is_exactly :
    (locator position size : ℕ)
    → IsU64 locator
    → is_exactly locator (record_end position size) ≡ (position + 12 + size == locator)
unfolding record_end
record_end-is_exactly locator position size h = ground arith

pub within_test :
    (locator position : ℕ)
    → IsU64 locator
    → is_within locator (checked_add position 56) ≡ leb (position + 56) locator
within_test locator position h = ground arith

-- The count is a variable with an equation, since `suc m + n` does not compute.
records_from-add :
    (source : Bytes) (locator start m n total : ℕ)
    → total ≡ m + n
    → records_from source locator start total
      ≡ records_from source locator start m ++ records_from source locator (start + m) n
records_from-add source locator start zero n total e =
    λ i. records_from source locator (at_start i) (counted i)
  where
    counted : total ≡ n
    counted = omega arith

    at_start : start ≡ start + 0
    at_start = omega arith
records_from-add source locator start (suc m) n zero e = absurd (omega arith)
records_from-add source locator start (suc m) n (suc total) e =
    let rest = records_from-add source locator (start + 1) m n total (omega arith) in
    let there : start + 1 + m ≡ start + suc m = omega arith in
    ground (arith, rest, ap (λ (t : ℕ). records_from source locator t n) there)

none_behind :
    (source : Bytes) (locator start n : ℕ)
    → locator < start + 56
    → records_from source locator start n ≡ []
none_behind source locator start zero h = refl
none_behind source locator start (suc n) h =
    ground (arith, none_behind source locator (start + 1) n)

-- One index appends the position exactly when a record stands there.
abbrev pub appended : Bytes → ℕ → ℕ → List ℕ → List ℕ
appended source locator position positions =
    if is_record source locator position then positions ++ position ∷ [] else positions

pub scan_index-Ensures :
    (source : Bytes) (locator : ℕ) (limits : Limits) (start count : ℕ) (bytes : Bytes) (index : ℕ)
    (positions : List ℕ)
    → IsU64 locator
    → IsPart source start count bytes
    → index + 4 ≤ count
    → Ensures
        (λ found. found ≡ appended source locator (start + index) positions)
        (scan_index source locator limits start bytes index positions)
unfolding scan_index
scan_index-Ensures source locator limits start count bytes index positions word part fits =
    rw (slice-IsPart source start count bytes index 4 part fits) (
      Ensures-if (not (bytes_eq (slice source position (position + 4)) (tag 6 6)))
        (λ h. holds (ground arith))
        (λ signed.
          Ensures-if (not (is_within locator (checked_add position 56)))
            (λ h. holds (ground (arith, within_test locator position word)))
            λ inside. Ensures-bind (read_at-IsPart source position 12 limits) λ header p.
              rw (u64_at-IsPart source position 12 header 4 p (omega arith), record_end-is_exactly)
                (Ensures-if
                  (leb 44 (u64_at source (position + 4))
                    && position + 12 + u64_at source (position + 4) == locator)
                  (λ found.
                    Ensures-bind (any (limit_elements limits (length positions + 1)))
                      λ _ _. holds (ground (arith, within_test locator position word)))
                  (λ other. holds (ground arith)))))
  where
    position : ℕ
    position = start + index

pub appended-records_from :
    (source : Bytes) (locator start index left : ℕ) (positions : List ℕ)
    → appended source locator (start + index) positions
        ++ records_from source locator (start + (index + 1)) left
      ≡ positions ++ records_from source locator (start + index) (suc left)
appended-records_from source locator start index left positions =
    let there : start + (index + 1) ≡ start + index + 1 = omega arith in
    ground (
      arith,
      ap (λ (t : ℕ). records_from source locator t left) there,
      append_assoc positions ((start + index) ∷ [])
          (records_from source locator (start + index + 1) left),
    )

pub scan_chunk-Ensures :
    (left : ℕ) (source : Bytes) (locator : ℕ) (limits : Limits) (start count : ℕ) (bytes : Bytes)
    (index : ℕ) (positions : List ℕ)
    → IsU64 locator
    → IsPart source start count bytes
    → index + left + 3 ≤ count
    → Ensures
        (λ found. found ≡ positions ++ records_from source locator (start + index) left)
        (scan_chunk left source locator limits start bytes index positions)
unfolding scan_chunk
scan_chunk-Ensures zero source locator limits start count bytes index positions word part fits =
    holds (sym (append-nil positions))
scan_chunk-Ensures (suc left) source locator limits start count bytes index positions word part
      fits =
    Ensures-bind
      (scan_index-Ensures source locator limits start count bytes index positions word part
        (omega arith))
      λ more found.
        Ensures-weaken
          (scan_chunk-Ensures left source locator limits start count bytes (index + 1) more word
            part (omega arith))
          λ all rest.
            rest
            ∙ ap (λ (t : List ℕ). t ++ records_from source locator (start + (index + 1)) left) found
            ∙ appended-records_from source locator start index left positions

-- What one chunk found and what follows it.
pub joined :
    (source : Bytes) (locator start size count : ℕ) (more positions : List ℕ)
    → start + (size - 3) ≤ locator
    → count ≡ size
    → more ≡ positions ++ records_from source locator (start + 0) (count - 3)
    → more ++ records_from source locator (start + (size - 3)) (locator - (start + (size - 3)))
      ≡ positions ++ records_from source locator start (locator - start)
joined source locator start size count more positions h e found =
    let n = size - 3 in
    let rest = records_from source locator (start + n) (locator - (start + n)) in
    let here : start + 0 ≡ start = omega arith in
    let scanned : count - 3 ≡ n = omega arith in
    let first : more ≡ positions ++ records_from source locator start n =
      found ∙ λ i. positions ++ records_from source locator (here i) (scanned i) in
    ap (λ (t : List ℕ). t ++ rest) first
    ∙ append_assoc positions (records_from source locator start n) rest
    ∙ ap (λ (t : List ℕ). positions ++ t)
        (sym (
          records_from-add source locator start n (locator - (start + n)) (locator - start)
            (omega arith)))

-- From `start` to the locator the chunks leave no position out and meet none twice.
scan_records-Ensures :
    (source : Bytes) (locator : ℕ) (limits : Limits) (start left : ℕ) (w : Acc ◌<◌ left)
    (eq : left ≡ locator - start) (positions : List ℕ)
    → IsU64 locator
    → Ensures
        (λ found. found ≡ positions ++ records_from source locator start (locator - start))
        (scan_records source locator limits start left w eq positions)
unfolding scan_records
scan_records-Ensures source locator limits start left (Acc.intro _ smaller) eq positions word =
    Ensures-if (is_within locator (checked_add start 56))
      (λ inside.
        Ensures-bind (read_at-IsPart source start (min (locator - start) 65536) limits)
          λ bytes part.
            Ensures-bind
              (scan_chunk-Ensures (length bytes - 3) source locator limits start
                (min (locator - start) 65536) bytes 0 positions word part
                (omega (arith, part.1, is_within-checked_add locator start 56 inside)))
              λ more found.
                Ensures-dite (dec_lt 3 (min (locator - start) 65536))
                  (λ longer.
                    let next = start + (min (locator - start) 65536 - 3) in
                    Ensures-weaken
                      (scan_records-Ensures source locator limits next (locator - next)
                        (smaller _ (chunk_advances start locator left eq longer)) refl more word)
                      λ all rest.
                        rest
                        ∙ joined source locator start (min (locator - start) 65536) (length bytes)
                            more positions (omega arith) (part.1) found)
                  (λ short. absurd (omega (arith, is_within-checked_add locator start 56 inside))))
      (λ outside. holds (
        sym (append-nil positions)
        ∙ ap (λ (t : List ℕ). positions ++ t)
            (sym (none_behind source locator start (locator - start) (ground arith)))))

pub zip64_records-Ensures :
    (source : Bytes) (lower locator : ℕ) (limits : Limits)
    → IsU64 locator
    → Ensures
        (λ found. found ≡ records_from source locator lower (locator - lower))
        (zip64_records source lower locator limits)
unfolding zip64_records
zip64_records-Ensures source lower locator limits word =
    scan_records-Ensures source locator limits lower (locator - lower)
      (lt_wf.apply (locator - lower)) refl [] word

pub zip64_records-eq :
    (source : Bytes) (lower locator : ℕ) (limits : Limits) (positions : List ℕ)
    → IsU64 locator
    → zip64_records source lower locator limits ≡ ok positions
    → positions ≡ records_from source locator lower (locator - lower)
zip64_records-eq source lower locator limits positions word h =
    Ensures-ok (zip64_records-Ensures source lower locator limits word) h

-- Every record ends at the locator, so it begins before.
pub records_from-le :
    (source : Bytes) (locator start n : ℕ)
    → All (λ position. position + 56 ≤ locator) (records_from source locator start n)
records_from-le source locator start zero = tt
records_from-le source locator start (suc n) =
    by_test (is_record source locator start) refl (records_from-le source locator (start + 1) n)
  where
    by_test :
        (b : Bool)
        → is_record source locator start ≡ b
        → All (λ position. position + 56 ≤ locator) (records_from source locator (start + 1) n)
        → All
            (λ position. position + 56 ≤ locator)
            (if b
              then start ∷ records_from source locator (start + 1) n
              else records_from source locator (start + 1) n)
    by_test true e rest = (ground arith, rest)
    by_test false e rest = rest
