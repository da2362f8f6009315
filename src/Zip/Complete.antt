-- ===== src/Zip/Complete.antt =====
-- janex-format/src/wrapper.rs: `zip64_records` succeeds within the limits.
use janex.Base.{
  ℕ, zero, suc, ◌+◌, ◌-◌, ◌<◌, ◌≤◌, min, true, ◌&&◌, not, ◌≡◌, refl, ap, ◌∙◌, List, [], ◌∷◌, ◌++◌,
  length, length-append, length-drop, take, drop, leb, ◌==◌, Bytes, bytes_eq, checked_add, IsU64,
  arith, lt_wf,
}
use janex.Failure.{ok, Ensures-ok, Succeeds-dite, Succeeds, Succeeds-bind, Succeeds-if}
use janex.Binary.{Limits}
use janex.Binary.Writing.{limit_bytes-ok, limit_elements-ok}
use janex.Binary.Decoder.{slice}
use janex.Zip.{read_at, read_exact, tag, u64_at, is_within}
use janex.Zip.Locate.{scan_index, scan_chunk, scan_records, zip64_records, chunk_advances}
use janex.Zip.Reads.{IsPart, read_at-IsPart, slice-IsPart, u64_at-IsPart, is_within-checked_add}
use janex.Zip.Records.{
  is_record, records_from, scan_index-Ensures, scan_chunk-Ensures, appended-records_from, joined,
  within_test, record_end-is_exactly, zip64_records-eq,
}
use mathlib.Core.WellFounded.{Acc}
use native.Mathlib.Decide.{dec_lt}

pub read_at-ok :
    (source : Bytes) (offset count : ℕ) (limits : Limits)
    → count ≤ limits.max_bytes
    → IsU64 count
    → offset + count ≤ length source
    → read_at source offset count limits ≡ ok (take count (drop offset source))
unfolding read_at read_exact
read_at-ok source offset count limits h word inside =
    rw (limit_bytes-ok limits count h word) (ground (arith, length-drop offset source))

-- The limits have room for so many positions.
abbrev pub Room : Limits → ℕ → Type 0
Room limits n = (n ≤ limits.max_elements) × IsU64 n

module _ (source : Bytes) (locator : ℕ) (limits : Limits) (word : IsU64 locator)
    (inside : locator ≤ length source) (bytes_room : 65536 ≤ limits.max_bytes) where
  scan_index-Succeeds :
      (start count : ℕ) (bytes : Bytes) (index : ℕ) (positions : List ℕ)
      → IsPart source start count bytes
      → index + 4 ≤ count
      → (is_record source locator (start + index) ≡ true → Room limits (length positions + 1))
      → Succeeds (scan_index source locator limits start bytes index positions)
  unfolding scan_index
  scan_index-Succeeds start count bytes index positions part fits room =
      rw (slice-IsPart source start count bytes index 4 part fits) (
        Succeeds-if (not (bytes_eq (slice source position (position + 4)) (tag 6 6)))
          (λ _. (positions, refl))
          λ signed.
            Succeeds-if (not (is_within locator (checked_add position 56))) (λ _. (positions, refl))
              λ before.
                let ends : position + 56 ≤ locator =
                  is_within-checked_add locator position 56 (ground arith) in
                let header = take 12 (drop position source) in
                let read =
                  read_at-ok source position 12 limits (omega arith) (omega arith) (omega arith) in
                let part' : IsPart source position 12 header =
                  Ensures-ok (read_at-IsPart source position 12 limits) read in
                rw
                  (
                    read,
                    u64_at-IsPart source position 12 header 4 part' (omega arith),
                    record_end-is_exactly,
                  )
                  (Succeeds-if
                    (leb 44 (u64_at source (position + 4))
                      && position + 12 + u64_at source (position + 4) == locator)
                    (λ found.
                      let full = room (ground (arith, within_test locator position word)) in
                      rw (limit_elements-ok limits (length positions + 1) full.0 full.1)
                        (positions ++ position ∷ [], refl))
                    (λ _. (positions, refl))))
    where
      position : ℕ
      position = start + index

  -- The room that the rest of the positions leaves.
  Room-more :
      (start left : ℕ) (positions : List ℕ)
      → Room limits (length (positions ++ records_from source locator start (suc left)))
      → is_record source locator start ≡ true
      → Room limits (length positions + 1)
  Room-more start left positions room e =
      let more : length (records_from source locator start (suc left))
          ≡ suc (length (records_from source locator (start + 1) left)) =
        rw e refl in
      let total = length-append positions (records_from source locator start (suc left)) in
      (omega (arith, room.0, more, total), omega (arith, room.1, more, total))

  scan_chunk-Succeeds :
      (left start count : ℕ) (bytes : Bytes) (index : ℕ) (positions : List ℕ)
      → IsPart source start count bytes
      → index + left + 3 ≤ count
      → Room limits (length (positions ++ records_from source locator (start + index) left))
      → Succeeds (scan_chunk left source locator limits start bytes index positions)
  unfolding scan_chunk
  scan_chunk-Succeeds zero start count bytes index positions part fits room = (positions, refl)
  scan_chunk-Succeeds (suc left) start count bytes index positions part fits room =
      Succeeds-bind (scan_index source locator limits start bytes index positions)
        (scan_index-Succeeds start count bytes index positions part (omega arith)
          (Room-more (start + index) left positions room))
        λ more done.
          let found =
            Ensures-ok
              (scan_index-Ensures source locator limits start count bytes index positions word part
                (omega arith))
              done in
          let same =
            ap (λ (t : List ℕ). t ++ records_from source locator (start + (index + 1)) left) found
            ∙ appended-records_from source locator start index left positions in
          scan_chunk-Succeeds left start count bytes (index + 1) more part (omega arith)
            (omega (arith, room.0, ap length same), omega (arith, room.1, ap length same))

  scan_records-Succeeds :
      (start left : ℕ) (w : Acc ◌<◌ left) (eq : left ≡ locator - start) (positions : List ℕ)
      → Room limits (length (positions ++ records_from source locator start (locator - start)))
      → Succeeds (scan_records source locator limits start left w eq positions)
  unfolding scan_records
  scan_records-Succeeds start left (Acc.intro _ smaller) eq positions room =
      Succeeds-if (is_within locator (checked_add start 56))
        (λ before.
          let ends : start + 56 ≤ locator = is_within-checked_add locator start 56 before in
          let size = min (locator - start) 65536 in
          let read =
            read_at-ok source start size limits (omega arith) (omega arith) (omega arith) in
          Succeeds-bind (read_at source start size limits) (take size (drop start source), read)
            λ bytes taken.
              let part : IsPart source start size bytes =
                Ensures-ok (read_at-IsPart source start size limits) taken in
              let chunk =
                scan_chunk-Ensures (length bytes - 3) source locator limits start size bytes 0
                  positions word part (omega (arith, part.1)) in
              let here = positions ++ records_from source locator (start + 0) (length bytes - 3) in
              let later =
                records_from source locator (start + (size - 3)) (locator - (start + (size - 3))) in
              let split =
                joined source locator start size (length bytes) here positions (omega arith) part.1
                  refl in
              let counted = length-append here later in
              Succeeds-bind
                (scan_chunk (length bytes - 3) source locator limits start bytes 0 positions)
                (scan_chunk-Succeeds (length bytes - 3) start size bytes 0 positions part
                  (omega (arith, part.1))
                  (
                    omega (arith, room.0, ap length split, counted),
                    omega (arith, room.1, ap length split, counted),
                  ))
                λ more done.
                  let found = Ensures-ok chunk done in
                  let next = start + (size - 3) in
                  let whole =
                    joined source locator start size (length bytes) more positions (omega arith)
                      part.1 found in
                  Succeeds-dite (dec_lt 3 size)
                    (λ longer.
                      scan_records-Succeeds next (locator - next)
                        (smaller _ (chunk_advances start locator left eq longer)) refl more
                        (
                          omega (arith, room.0, ap length whole),
                          omega (arith, room.1, ap length whole),
                        ))
                    (λ _. (more, refl)))
        (λ _. (positions, refl))

-- Within the limits zip64_records succeeds, with exactly the positions from the lower bound to the
-- locator at which a ZIP64 end record stands that ends at the locator, in order and each once,
-- wherever the chunks are cut: when the locator lies in the source and fits 64 bits, a chunk of
-- 65536 bytes is within the byte limit, and the records are within the element limit.
pub zip64_records-records_from :
    (source : Bytes) (lower locator : ℕ) (limits : Limits)
    → IsU64 locator
    → locator ≤ length source
    → 65536 ≤ limits.max_bytes
    → Room limits (length (records_from source locator lower (locator - lower)))
    → zip64_records source lower locator limits
      ≡ ok (records_from source locator lower (locator - lower))
unfolding zip64_records
zip64_records-records_from source lower locator limits word inside bytes_room room =
    let (found, done) =
      scan_records-Succeeds source locator limits word inside bytes_room lower (locator - lower)
        (lt_wf.apply (locator - lower)) refl [] room in
    done ∙ ap ok (zip64_records-eq source lower locator limits found word done)
