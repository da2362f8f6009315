-- ===== src/Zip/Errors.antt =====
-- janex-format/src/wrapper.rs: the errors with which the search for directories fails.
use janex.Base.{
  ℕ, zero, suc, ◌+◌, ◌-◌, ◌<◌, min, ◌&&◌, ◌||◌, not, ◌≡◌, ◌⊎◌, inl, inr, refl, List, [], ◌∷◌,
  length, leb, ltb, ◌==◌, Bytes, bytes_eq, checked_add, try_usize, lt_wf,
}
use janex.Failure.{
  Error, ErrorKind, error, limit, io, at, Raises, fine, Raises-bind, Raises-if, Raises-ok_or,
  Raises-dite, Raises-if_some, Raises-reject_if,
}
use janex.Binary.{Limits, limit_bytes, limit_elements}
use janex.Binary.Decoder.{slice}
use janex.Zip.{
  read_at, read_exact, tag, u32_at, u64_at, starts_with, is_within, is_exactly, coordinates,
}
use janex.Zip.Locate.{
  record_end, scan_index, scan_chunk, scan_records, zip64_records, chunk_advances, contradicts,
  record_directories, directories,
}
use mathlib.Core.WellFounded.{Acc}
use native.Mathlib.Decide.{dec_lt}

-- The error is a limit or a read that failed.
abbrev pub IsStop : Error → Type 0
IsStop e = (e.kind ≡ ErrorKind.limit) ⊎ (e.kind ≡ ErrorKind.io)

limit_bytes-Raises : (limits : Limits) (n : ℕ) → Raises IsStop (limit_bytes limits n)
unfolding limit_bytes
limit_bytes-Raises limits n =
    Raises-bind
      (Raises-reject_if (ltb limits.max_bytes n) (error limit "byte limit exceeded") (inl refl))
      λ _. Raises-ok_or (try_usize n) (error limit "length does not fit usize") (inl refl)

pub limit_elements-Raises : (limits : Limits) (n : ℕ) → Raises IsStop (limit_elements limits n)
unfolding limit_elements
limit_elements-Raises limits n =
    Raises-bind
      (Raises-reject_if (ltb limits.max_elements n) (error limit "element limit exceeded")
        (inl refl))
      λ _. Raises-ok_or (try_usize n) (error limit "count does not fit usize") (inl refl)

pub read_at-Raises :
    (source : Bytes) (offset count : ℕ) (limits : Limits)
    → Raises IsStop (read_at source offset count limits)
unfolding read_at
read_at-Raises source offset count limits = Raises-bind (limit_bytes-Raises limits count) λ size.
    Raises-ok_or (read_exact source offset size)
      (at (error io "failed to fill whole buffer") offset) (inr refl)

scan_index-Raises :
    (source : Bytes) (locator : ℕ) (limits : Limits) (start : ℕ) (bytes : Bytes) (index : ℕ)
    (positions : List ℕ)
    → Raises IsStop (scan_index source locator limits start bytes index positions)
unfolding scan_index
scan_index-Raises source locator limits start bytes index positions =
    Raises-if (not (bytes_eq (slice bytes index (index + 4)) (tag 6 6))) fine (
      Raises-if (not (is_within locator (checked_add (start + index) 56))) fine (
        Raises-bind (read_at-Raises source (start + index) 12 limits) λ header.
          Raises-if
            (leb 44 (u64_at header 4)
              && is_exactly locator (record_end (start + index) (u64_at header 4)))
            (Raises-bind (limit_elements-Raises limits (length positions + 1)) λ _. fine) fine))

scan_chunk-Raises :
    (left : ℕ) (source : Bytes) (locator : ℕ) (limits : Limits) (start : ℕ) (bytes : Bytes)
    (index : ℕ) (positions : List ℕ)
    → Raises IsStop (scan_chunk left source locator limits start bytes index positions)
unfolding scan_chunk
scan_chunk-Raises zero source locator limits start bytes index positions = fine
scan_chunk-Raises (suc left) source locator limits start bytes index positions =
    Raises-bind (scan_index-Raises source locator limits start bytes index positions)
      λ more. scan_chunk-Raises left source locator limits start bytes (index + 1) more

scan_records-Raises :
    (source : Bytes) (locator : ℕ) (limits : Limits) (start left : ℕ) (w : Acc ◌<◌ left)
    (eq : left ≡ locator - start) (positions : List ℕ)
    → Raises IsStop (scan_records source locator limits start left w eq positions)
unfolding scan_records
scan_records-Raises source locator limits start left (Acc.intro _ smaller) eq positions =
    Raises-if (is_within locator (checked_add start 56))
      (Raises-bind (read_at-Raises source start (min (locator - start) 65536) limits) λ bytes.
        Raises-bind
          (scan_chunk-Raises (length bytes - 3) source locator limits start bytes 0 positions)
          λ more.
            Raises-dite (dec_lt 3 (min (locator - start) 65536))
              (λ longer.
                let next = start + (min (locator - start) 65536 - 3) in
                scan_records-Raises source locator limits next (locator - next)
                  (smaller _ (chunk_advances start locator left eq longer)) refl more)
              (λ _. fine))
      fine

zip64_records-Raises :
    (source : Bytes) (lower locator : ℕ) (limits : Limits)
    → Raises IsStop (zip64_records source lower locator limits)
unfolding zip64_records
zip64_records-Raises source lower locator limits =
    scan_records-Raises source locator limits lower (locator - lower)
      (lt_wf.apply (locator - lower)) refl []

record_directories-Raises :
    (source eocd_record : Bytes) (relative : ℕ) (limits : Limits) (positions : List ℕ)
    → Raises IsStop (record_directories source eocd_record relative limits positions)
unfolding record_directories
record_directories-Raises source eocd_record relative limits [] = fine
record_directories-Raises source eocd_record relative limits (position ∷ positions) =
    Raises-bind (read_at-Raises source position 56 limits) λ fixed.
      Raises-bind (record_directories-Raises source eocd_record relative limits positions) λ rest.
        Raises-if (contradicts eocd_record fixed) fine (
          Raises-if_some
            (coordinates position (u64_at fixed 40) (u64_at fixed 48) (u64_at fixed 32))
            (λ d. Raises-if (is_exactly position (checked_add d.jar_start relative)) fine fine)
            fine)

pub directories-Raises :
    (source : Bytes) (eocd : ℕ) (eocd_record : Bytes) (limits : Limits)
    → Raises IsStop (directories source eocd eocd_record limits)
unfolding directories
directories-Raises source eocd eocd_record limits =
    Raises-bind (Raises-if (leb 20 eocd) (read_at-Raises source (eocd - 20) 20 limits) fine)
      λ locator. Raises-if (not (starts_with locator (tag 6 7))) fine (
        Raises-if (not (u32_at locator 4 == 0) || not (u32_at locator 16 == 1)) fine (
          Raises-bind (zip64_records-Raises source (u64_at locator 8) (eocd - 20) limits)
            λ positions.
              record_directories-Raises source eocd_record (u64_at locator 8) limits positions))
