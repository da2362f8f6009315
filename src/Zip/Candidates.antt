-- ===== src/Zip/Candidates.antt =====
-- janex-format/src/wrapper.rs: the ends that `candidate_ends` returns.
use janex.Base.{
  ℕ, take, drop, zero, suc, ◌+◌, ◌-◌, ◌≤◌, true, ◌≡◌, ◌↔◌, ◌⊎◌, refl, sym, ap, ◌∙◌, some, List, [],
  ◌∷◌, All, All-append, length, Bytes, bytes_eq, bytes_eq→eq, IsByte, IsU64, arith,
}
use janex.Failure.{Result, ok, err, Ensures, holds, failed, Ensures-bind, Ensures-if, Ensures-ok}
use janex.Binary.{Limits}
use janex.Binary.Decoder.{slice}
use janex.Zip.{tag, u16_at, Directory, coordinates}
use janex.Zip.Reads.{IsPart, IsPart-slice, read_at-IsPart, slice-IsPart, u16_at-IsPart}
use janex.Zip.Validate.{validate_directory}
use janex.Zip.Framing.{IsDirectory, validate_directory_sound}
use janex.Zip.Ends.{is_invalid, judge, judge_all, is_end_record, scan_tail, candidate_ends}
use janex.Zip.Described.{
  IsDescribed, IsOrdered, IsDescribed-IsOrdered, directories-IsDescribed, coordinates-found,
}

-- `coordinates` finds the directory and the JAR exactly when the record's length and offset fit
-- before the end of the directory, and then they are exactly that far apart.
pub coordinates-some :
    (end size offset count : ℕ) (d : Directory)
    → coordinates end size offset count ≡ some d ↔ (
        (d.end ≡ end)
        × (d.start + size ≡ end)
        × (d.jar_start + offset ≡ d.start)
        × (d.count ≡ count))
unfolding coordinates
coordinates-some end size offset count d =
    (coordinates-found end size offset count d, λ h. ground arith)

-- An end that `candidate_ends` returns: an end record whose comment ends the file, and the directory
-- before it that the record or its ZIP64 record describes, with consistent entries, of a JAR that
-- begins there.
pub record IsCandidate (source : Bytes) (size candidate : ℕ) : Type 0 where
  pub eocd : ℕ
  pub directory : Directory
  pub here : directory.jar_start ≡ candidate
  pub signature : slice source eocd (eocd + 4) ≡ tag 5 6
  pub last : eocd + 22 + u16_at source (eocd + 20) ≡ size
  pub described : IsDescribed source eocd directory
  pub ordered : IsOrdered eocd directory
  pub entries : IsDirectory source directory

judge_all-IsCandidate :
    (source : Bytes) (size eocd : ℕ) (limits : Limits) (found : List Directory) (ends : List ℕ)
    → All IsByte source
    → IsU64 eocd
    → slice source eocd (eocd + 4) ≡ tag 5 6
    → eocd + 22 + u16_at source (eocd + 20) ≡ size
    → All (IsDescribed source eocd) found
    → All (IsCandidate source size) ends
    → Ensures (All (IsCandidate source size)) (judge_all source limits found ends)
unfolding judge_all judge
judge_all-IsCandidate source size eocd limits [] ends bytes word signed last described h = holds h
judge_all-IsCandidate source size eocd limits (d ∷ rest) ends bytes word signed last described h =
    Ensures-bind (judged (validate_directory source d limits) refl) λ more k.
      judge_all-IsCandidate source size eocd limits rest more bytes word signed last described.1 k
  where
    judged :
        (r : Result (Unit {0}))
        → validate_directory source d limits ≡ r
        → Ensures (All (IsCandidate source size)) (judge r d.jar_start ends)
    judged (ok _) e = holds (
        All-append (IsCandidate source size) ends (d.jar_start ∷ []) h (
          record {
            eocd = eocd;
            directory = d;
            here = refl;
            signature = signed;
            last = last;
            described = described.0;
            ordered = IsDescribed-IsOrdered source eocd d described.0;
            entries =
                let ordered = IsDescribed-IsOrdered source eocd d described.0 in
                validate_directory_sound source d limits bytes (omega (arith, ordered)) (ordered.1)
                  e;
          },
          tt,
        ))
    judged (err e) _ = Ensures-if (is_invalid e) (λ _. holds h) (λ _. failed)

end_record_facts :
    (source tail : Bytes) (start size index : ℕ)
    → IsPart source start (size - start) tail
    → index + 22 ≤ size - start
    → is_end_record tail index ≡ true
    → (slice source (start + index) (start + index + 4) ≡ tag 5 6)
      × (start + index + 22 + u16_at source (start + index + 20) ≡ size)
      × IsPart source (start + index) 22 (slice tail index (index + 22))
unfolding is_end_record
end_record_facts source tail start size index h fits test =
    let record_part = IsPart-slice tail index 22 (omega (arith, h.1)) in
    let comment =
      u16_at-IsPart tail index 22 (slice tail index (index + 22)) 20 record_part (omega arith)
      ∙ u16_at-IsPart source start (size - start) tail (index + 20) h (omega arith) in
    let there : start + (index + 20) ≡ start + index + 20 = omega arith in
    let same : bytes_eq (slice tail index (index + 4)) (tag 5 6) ≡ true = ground arith in
    let reaches : index + 22 + u16_at (slice tail index (index + 22)) 20 ≡ length tail =
      ground arith in
    (
      sym (slice-IsPart source start (size - start) tail index 4 h (omega arith))
          ∙ bytes_eq→eq (slice tail index (index + 4)) (tag 5 6) same,
      omega (arith, h.1, reaches, comment, ap (u16_at source) there),
      (
        slice-IsPart source start (size - start) tail index 22 h (omega arith)
            ∙ ap (λ (t : ℕ). take t (drop (start + index) source))
                {x = start + index + 22 - (start + index)} {y = 22} (omega arith),
        record_part.1,
      ),
    )

scan_tail-IsCandidate :
    (left : ℕ) (source : Bytes) (start size : ℕ) (tail : Bytes) (limits : Limits) (index : ℕ)
    (ends : List ℕ)
    → All IsByte source
    → IsU64 size
    → IsPart source start (size - start) tail
    → left + index + 21 ≤ size - start ⊎ (left ≡ 0)
    → All (IsCandidate source size) ends
    → Ensures (All (IsCandidate source size)) (scan_tail left source start tail limits index ends)
unfolding scan_tail
scan_tail-IsCandidate zero source start size tail limits index ends bytes word part room h = holds h
scan_tail-IsCandidate (suc left) source start size tail limits index ends bytes word part room h =
    Ensures-bind
      (Ensures-if (is_end_record tail index)
        (λ test.
          let facts = end_record_facts source tail start size index part (ground arith) test in
          Ensures-bind
            (directories-IsDescribed source (start + index) (slice tail index (index + 22)) limits
              (ground arith) facts.2)
            λ found described.
              judge_all-IsCandidate source size (start + index) limits found ends bytes
                (ground arith) facts.0 facts.1 described h)
        (λ _. holds h))
      λ more k.
        scan_tail-IsCandidate left source start size tail limits (index + 1) more bytes word part
          (ground arith) k

room : (n m : ℕ) → n ≡ m → (n - 21 + 0 + 21 ≤ m) ⊎ (n - 21 ≡ 0)
room n m e = ground arith

-- In a source of bytes below 256 and a size that fits 64 bits, every end that candidate_ends
-- returns is the start of a JAR: an end record of the source has a comment that reaches exactly to
-- the size, and the directory before it that this record describes, or a ZIP64 record to which a
-- locator before it leads, has that offset from the start of the JAR, the size and the number of
-- entries that the record holds. As many entries fill the directory, up to a digital signature
-- record, and each has a local header of the same name between the JAR's start and the directory,
-- and data that ends before the directory.
pub candidate_ends_sound :
    (source : Bytes) (size : ℕ) (limits : Limits) (ends : List ℕ)
    → All IsByte source
    → IsU64 size
    → candidate_ends source size limits ≡ ok ends
    → All (IsCandidate source size) ends
unfolding candidate_ends
candidate_ends_sound source size limits ends bytes word h =
    Ensures-ok {P = All (IsCandidate source size)}
      (Ensures-bind (read_at-IsPart source (size - 65557) (size - (size - 65557)) limits)
        λ tail part.
          scan_tail-IsCandidate (length tail - 21) source (size - 65557) size tail limits 0 [] bytes
            word part (room (length tail) (size - (size - 65557)) part.1) tt)
      h
