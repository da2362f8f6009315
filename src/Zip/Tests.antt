-- ===== src/Zip/Tests.antt =====
-- Runs of the code of janex-format/src/wrapper.rs on small archives: two bytes and then one stored
-- entry `a`, with a plain end record and with ZIP64 records.
use janex.Base.{sym, ap, length}
use janex.Base.{
  ◌+◌, true, some, List, [], ◌∷◌, ◌++◌, map, All, all, IsByte, ltb, ◌≡◌, ◌↔◌, refl, Bytes, bytes_eq,
  fold_be, be_bytes, arith,
}
use janex.Failure.{ok, err, error, io, at}
use janex.Zip.{Directory, Field}
use janex.Zip.Validate.{wide_field, disk_field}
use janex.Zip.Complete.{zip64_records-records_from}
use janex.Zip.Records.{records_from, zip64_records-eq}
use janex.Zip.Stored.{stored, zip64_extra, expand_zip64-stored}
use janex.Zip.Framing.{IsDirectory, validate_directory_sound}
use janex.Zip.Candidates.{IsCandidate, candidate_ends_sound, coordinates-some}
use janex.Zip.Selected.{Outcome, candidate_ends-Outcome}
use janex.Zip.{coordinates, read_at, read_exact, u16_at, u32_at, u64_at}
use janex.Binary.{default_limits, limit_bytes, limit_elements}
use janex.Zip.Ends.{candidate_ends, is_end_record, judge, judge_all, scan_tail}
use janex.Binary.Decoder.{from_le_bytes}
use janex.Zip.Locate.{
  contradicts, directories, plain_directories, record_directories, record_end, scan_chunk,
  scan_index, zip64_records,
}
use janex.Zip.Validate.{
  check_sizes, validate_directory, validate_entries, validate_entry, validate_local, validate_rest,
  value_at,
}
use janex.Zip.Extra.{expand_zip64, expand_block, replace_fields}

abbrev entry : Bytes
entry =
    74 ∷ 88 ∷ 80 ∷ 75 ∷ 3 ∷ 4 ∷ 20 ∷ 0 ∷ 0 ∷ 0 ∷ 0 ∷ 0 ∷ 0 ∷ 0 ∷ 0 ∷ 0 ∷ 172 ∷ 42 ∷ 147 ∷ 216 ∷ 2
    ∷ 0 ∷ 0 ∷ 0 ∷ 2 ∷ 0 ∷ 0 ∷ 0 ∷ 1 ∷ 0 ∷ 0 ∷ 0 ∷ 97 ∷ 104 ∷ 105 ∷ []

abbrev central : Bytes
central =
    80 ∷ 75 ∷ 1 ∷ 2 ∷ 20 ∷ 0 ∷ 20 ∷ 0 ∷ 0 ∷ 0 ∷ 0 ∷ 0 ∷ 0 ∷ 0 ∷ 0 ∷ 0 ∷ 172 ∷ 42 ∷ 147 ∷ 216 ∷ 2 ∷ 0
    ∷ 0 ∷ 0 ∷ 2 ∷ 0 ∷ 0 ∷ 0 ∷ 1 ∷ 0 ∷ 0 ∷ 0 ∷ 0 ∷ 0 ∷ 0 ∷ 0 ∷ 0 ∷ 0 ∷ 0 ∷ 0 ∷ 0 ∷ 0 ∷ 0 ∷ 0 ∷ 0 ∷ 0
    ∷ 97 ∷ []

abbrev plain_end : Bytes
plain_end =
    80 ∷ 75 ∷ 5 ∷ 6 ∷ 0 ∷ 0 ∷ 0 ∷ 0 ∷ 1 ∷ 0 ∷ 1 ∷ 0 ∷ 47 ∷ 0 ∷ 0 ∷ 0 ∷ 33 ∷ 0 ∷ 0 ∷ 0 ∷ 0 ∷ 0 ∷ []

abbrev zip64_record : Bytes
zip64_record =
    80 ∷ 75 ∷ 6 ∷ 6 ∷ 44 ∷ 0 ∷ 0 ∷ 0 ∷ 0 ∷ 0 ∷ 0 ∷ 0 ∷ 45 ∷ 0 ∷ 45 ∷ 0 ∷ 0 ∷ 0 ∷ 0 ∷ 0 ∷ 0 ∷ 0 ∷ 0
    ∷ 0 ∷ 1 ∷ 0 ∷ 0 ∷ 0 ∷ 0 ∷ 0 ∷ 0 ∷ 0 ∷ 1 ∷ 0 ∷ 0 ∷ 0 ∷ 0 ∷ 0 ∷ 0 ∷ 0 ∷ 47 ∷ 0 ∷ 0 ∷ 0 ∷ 0 ∷ 0 ∷ 0
    ∷ 0 ∷ 33 ∷ 0 ∷ 0 ∷ 0 ∷ 0 ∷ 0 ∷ 0 ∷ 0 ∷ []

abbrev zip64_locator : Bytes
zip64_locator =
    80 ∷ 75 ∷ 6 ∷ 7 ∷ 0 ∷ 0 ∷ 0 ∷ 0 ∷ 80 ∷ 0 ∷ 0 ∷ 0 ∷ 0 ∷ 0 ∷ 0 ∷ 0 ∷ 1 ∷ 0 ∷ 0 ∷ 0 ∷ []

abbrev zip64_end : Bytes
zip64_end =
    80 ∷ 75 ∷ 5 ∷ 6 ∷ 0 ∷ 0 ∷ 0 ∷ 0 ∷ 255 ∷ 255 ∷ 255 ∷ 255 ∷ 255 ∷ 255 ∷ 255 ∷ 255 ∷ 255 ∷ 255
    ∷ 255 ∷ 255 ∷ 0 ∷ 0 ∷ []

abbrev plain_archive : Bytes
plain_archive = entry ++ central ++ plain_end

abbrev zip64_archive : Bytes
zip64_archive = entry ++ central ++ zip64_record ++ zip64_locator ++ zip64_end

plain_archive_ends : candidate_ends plain_archive 104 default_limits ≡ ok (2 ∷ [])
unfolding candidate_ends read_at limit_bytes read_exact scan_tail is_end_record bytes_eq u16_at
    from_le_bytes directories judge_all u32_at coordinates judge validate_directory limit_elements
    validate_entries validate_entry expand_zip64 check_sizes validate_local validate_rest value_at
    plain_directories
plain_archive_ends = refl

zip64_archive_ends : candidate_ends zip64_archive 180 default_limits ≡ ok (2 ∷ [])
unfolding candidate_ends read_at limit_bytes read_exact scan_tail is_end_record bytes_eq u16_at
    from_le_bytes directories judge_all u32_at coordinates judge validate_directory limit_elements
    validate_entries validate_entry expand_zip64 check_sizes validate_local validate_rest value_at
    plain_directories contradicts record_directories record_end scan_chunk scan_index zip64_records
    u64_at
zip64_archive_ends = refl

all-IsByte : (bytes : Bytes) → all (λ b. ltb b 256) bytes ≡ true → All IsByte bytes
all-IsByte [] h = tt
all-IsByte (b ∷ bytes) h = (ground arith, all-IsByte bytes (ground arith))

plain_archive_bytes : All IsByte plain_archive
plain_archive_bytes = all-IsByte plain_archive refl

abbrev plain_directory : Directory
plain_directory = record { jar_start = 2; start = 35; end = 82; count = 1 }

plain_directory_valid : validate_directory plain_archive plain_directory default_limits ≡ ok tt
unfolding candidate_ends read_at limit_bytes read_exact scan_tail is_end_record bytes_eq u16_at
    from_le_bytes directories judge_all u32_at coordinates judge validate_directory limit_elements
    validate_entries validate_entry expand_zip64 check_sizes validate_local validate_rest value_at
    plain_directories
plain_directory_valid = refl

zip64_archive_records : zip64_records zip64_archive 80 138 default_limits ≡ ok (82 ∷ [])
unfolding candidate_ends read_at limit_bytes read_exact scan_tail is_end_record bytes_eq u16_at
    from_le_bytes directories judge_all u32_at coordinates judge validate_directory limit_elements
    validate_entries validate_entry expand_zip64 check_sizes validate_local validate_rest value_at
    plain_directories contradicts record_directories record_end scan_chunk scan_index zip64_records
    u64_at
zip64_archive_records = refl

short_archive_fails :
    candidate_ends plain_archive 105 default_limits
    ≡ err (at (error io "failed to fill whole buffer") 0)
unfolding candidate_ends read_at limit_bytes read_exact scan_tail is_end_record bytes_eq u16_at
    from_le_bytes directories judge_all u32_at coordinates judge validate_directory limit_elements
    validate_entries validate_entry expand_zip64 check_sizes validate_local validate_rest value_at
    plain_directories
short_archive_fails = refl

abbrev large_numbers : List Field
large_numbers = wide_field 5_000_000_000 ∷ wide_field 7 ∷ disk_field 70_000 ∷ []

candidate_ends_sound_example : All (IsCandidate zip64_archive 180) (2 ∷ [])
candidate_ends_sound_example =
    candidate_ends_sound zip64_archive 180 default_limits (2 ∷ []) (all-IsByte zip64_archive refl)
      (omega arith) zip64_archive_ends

-- The same entry with its compressed size in a ZIP64 block.
abbrev large_central : Bytes
large_central =
    80 ∷ 75 ∷ 1 ∷ 2 ∷ 20 ∷ 0 ∷ 20 ∷ 0 ∷ 0 ∷ 0 ∷ 0 ∷ 0 ∷ 0 ∷ 0 ∷ 0 ∷ 0 ∷ 172 ∷ 42 ∷ 147 ∷ 216 ∷ 255
    ∷ 255 ∷ 255 ∷ 255 ∷ 2 ∷ 0 ∷ 0 ∷ 0 ∷ 1 ∷ 0 ∷ 12 ∷ 0 ∷ 0 ∷ 0 ∷ 0 ∷ 0 ∷ 0 ∷ 0 ∷ 0 ∷ 0 ∷ 0 ∷ 0 ∷ 0
    ∷ 0 ∷ 0 ∷ 0 ∷ 97 ∷ 1 ∷ 0 ∷ 8 ∷ 0 ∷ 2 ∷ 0 ∷ 0 ∷ 0 ∷ 0 ∷ 0 ∷ 0 ∷ 0 ∷ []

abbrev large_source : Bytes
large_source = entry ++ large_central

abbrev large_directory : Directory
large_directory = record { jar_start = 2; start = 35; end = 94; count = 1 }

large_directory_valid : validate_directory large_source large_directory default_limits ≡ ok tt
unfolding read_at limit_bytes read_exact bytes_eq u16_at from_le_bytes u32_at validate_directory
    limit_elements validate_entries validate_entry expand_zip64 expand_block replace_fields
    check_sizes validate_local validate_rest value_at fold_be
large_directory_valid = refl

validate_directory_sound_example : IsDirectory large_source large_directory
validate_directory_sound_example =
    validate_directory_sound large_source large_directory default_limits
      (all-IsByte large_source refl) (omega arith) (omega arith) large_directory_valid

zip64_archive_found : records_from zip64_archive 138 80 58 ≡ 82 ∷ []
zip64_archive_found = sym (
    zip64_records-eq zip64_archive 80 138 default_limits (82 ∷ []) (omega arith)
      zip64_archive_records)

zip64_records-records_from_example :
    zip64_records zip64_archive 80 138 default_limits ≡ ok (records_from zip64_archive 138 80 58)
zip64_records-records_from_example =
    zip64_records-records_from zip64_archive 80 138 default_limits (omega arith) (omega arith)
      (omega arith)
      (omega (arith, ap length zip64_archive_found), omega (arith, ap length zip64_archive_found))

expand_zip64-stored_example :
    expand_zip64 (zip64_extra large_numbers) (map stored large_numbers) ≡ ok large_numbers
unfolding be_bytes
expand_zip64-stored_example =
    expand_zip64-stored large_numbers
      ((omega arith, omega arith), ((omega arith, omega arith), ((omega arith, omega arith), tt)))
      (omega arith)

coordinates-some_example : coordinates 82 47 33 1 ≡ some plain_directory ↔ (
    (plain_directory.end ≡ 82)
    × (plain_directory.start + 47 ≡ 82)
    × (plain_directory.jar_start + 33 ≡ plain_directory.start)
    × (plain_directory.count ≡ 1))
coordinates-some_example = coordinates-some 82 47 33 1 plain_directory

candidate_ends-Outcome_example :
    Outcome plain_archive 104 default_limits (candidate_ends plain_archive 104 default_limits)
candidate_ends-Outcome_example = candidate_ends-Outcome plain_archive 104 default_limits
