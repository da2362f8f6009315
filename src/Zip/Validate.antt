-- ===== src/Zip/Validate.antt =====
-- janex-format/src/wrapper.rs: `validate_local` and `validate_directory`.
use janex.Base.{
  ℕ, zero, suc, ◌+◌, ◌-◌, ◌%◌, min, bit_and, Bool, ◌&&◌, ◌||◌, not, Option, none, some, List, [],
  ◌∷◌, length, drop, leb, ltb, ◌==◌, if◌then◌else◌, Bytes, bytes_eq, checked_add, u64_mod,
}
use janex.Failure.{Result, ok, invalid, ok_or, reject_if, ◌>>=◌, ◌>>◌}
use janex.Binary.{Limits, limit_elements}
use janex.Binary.Decoder.{slice, within}
use janex.Zip.{
  read_at, starts_with, tag, u16_at, u32_at, u64_at, is_within, u16_max, u32_max, Directory, Field,
}
use janex.Zip.Extra.{expand_zip64}

abbrev pub wide_field : ℕ → Field
wide_field value = record { value = value; placeholder = u32_max; width = 8 }

abbrev pub disk_field : ℕ → Field
disk_field value = record { value = value; placeholder = u16_max; width = 4 }

-- The value of a field after expansion, by its place in the list.
unfoldable pub value_at : ℕ → List Field → ℕ
value_at n [] = 0
value_at zero (field ∷ fields) = field.value
value_at (suc n) (field ∷ fields) = value_at n fields

-- The closure of `validate_local` for one of the two ways to begin a data descriptor.
unfoldable pub descriptor_at : Bytes → Bytes → ℕ → ℕ → ℕ → Bool
descriptor_at descriptor central compressed uncompressed skip =
    let bytes = drop skip descriptor in
    not (skip == 4 && not (starts_with descriptor (tag 7 8)))
    && leb skip (length descriptor)
    && leb 12 (length bytes)
    && u32_at bytes 0 == u32_at central 16
    && ((u32_at bytes 4 == compressed && u32_at bytes 8 == uncompressed)
        || (leb 20 (length bytes)
            && u64_at bytes 4 == compressed
            && u64_at bytes 12 == uncompressed))

-- The end of `validate_local` when the sizes stand in the local header.
unfoldable pub check_sizes : Bytes → Bytes → Bytes → ℕ → ℕ → Result (Unit {0})
check_sizes header extra central compressed uncompressed = do
  expanded ← expand_zip64 extra (wide_field (u32_at header 22) ∷ wide_field (u32_at header 18) ∷ [])
  reject_if
      (not (value_at 1 expanded == compressed)
        || not (value_at 0 expanded == uncompressed)
        || not (u32_at header 14 == u32_at central 16))
      (invalid "ZIP local sizes or CRC disagree with directory")

-- The end of `validate_local` when they stand in a descriptor behind the data.
unfoldable pub check_descriptor : Bytes → Directory → ℕ → Bytes → ℕ → ℕ → Limits → Result (Unit {0})
check_descriptor source directory data_end central compressed uncompressed limits = do
  descriptor ← read_at source data_end (min (directory.start - data_end) 24) limits
  reject_if
      (not (
        descriptor_at descriptor central compressed uncompressed 0
        || descriptor_at descriptor central compressed uncompressed 4))
      (invalid "invalid ZIP data descriptor")

unfoldable pub validate_local :
    Bytes → Directory → ℕ → Bytes → Bytes → ℕ → ℕ → Limits → Result (Unit {0})
validate_local source directory position central name compressed uncompressed limits = do
  reject_if (not (is_within directory.start (checked_add position 30)))
      (invalid "truncated ZIP local header")
  header ← read_at source position 30 limits
  reject_if
      (not (starts_with header (tag 3 4))
        || not (u16_at header 6 == u16_at central 8)
        || not (u16_at header 8 == u16_at central 10))
      (invalid "ZIP local and central headers disagree")
  let name_length = u16_at header 26
  let variable_length = name_length + u16_at header 28
  data_start ←
      ok_or (within directory.start (checked_add position (30 + variable_length)))
        (invalid "ZIP local fields exceed data region")
  variable ← read_at source (position + 30) variable_length limits
  reject_if (not (bytes_eq (slice variable 0 name_length) name))
      (invalid "ZIP local and central filenames disagree")
  data_end ←
      ok_or (within directory.start (checked_add data_start compressed))
        (invalid "ZIP compressed data exceeds JAR data region")
  if bit_and (u16_at header 6) 8 == 0
      then check_sizes header (drop name_length variable) central compressed uncompressed
      else check_descriptor source directory data_end central compressed uncompressed limits

-- `option.filter(|&end| end < bound)`.
abbrev pub below : ℕ → Option ℕ → Option ℕ
below bound none = none
below bound (some n) = if ltb n bound then some n else none

-- The body of the loop of `validate_directory`: the entry at `position`, and where the next begins.
unfoldable pub validate_entry : Bytes → Directory → ℕ → Limits → Result ℕ
validate_entry source directory position limits = do
  reject_if (not (is_within directory.end (checked_add position 46)))
      (invalid "truncated ZIP directory")
  header ← read_at source position 46 limits
  reject_if (not (starts_with header (tag 1 2))) (invalid "incorrect ZIP directory signature")
  let name_length = u16_at header 28
  let extra_length = u16_at header 30
  let variable_length = name_length + extra_length + u16_at header 32
  next ←
      ok_or (within directory.end (checked_add position (46 + variable_length)))
        (invalid "ZIP directory entry exceeds directory")
  variable ← read_at source (position + 46) variable_length limits
  expanded ← expand_zip64 (slice variable name_length (name_length + extra_length)) (
      wide_field (u32_at header 24)
      ∷ wide_field (u32_at header 20)
      ∷ wide_field (u32_at header 42)
      ∷ disk_field (u16_at header 34)
      ∷ [])
  reject_if (not (value_at 3 expanded == 0)) (invalid "multidisk ZIP is not a JAR tail")
  local ←
      ok_or (below directory.start (checked_add directory.jar_start (value_at 2 expanded)))
        (invalid "ZIP local header is outside the JAR data region")
  validate_local source directory local header (slice variable 0 name_length) (value_at 1 expanded)
      (value_at 0 expanded) limits
  ok next

-- The loop of `validate_directory`, of which `left` entries are to come.
unfoldable pub validate_entries : ℕ → Bytes → Directory → ℕ → Limits → Result ℕ
validate_entries zero source directory position limits = ok position
validate_entries (suc left) source directory position limits = do
  next ← validate_entry source directory position limits
  validate_entries left source directory next limits

-- What may follow the last entry: nothing, or one digital signature record.
unfoldable pub validate_rest : Bytes → Directory → ℕ → Limits → Result (Unit {0})
validate_rest source directory position limits =
    if ltb position directory.end
    then (do
      reject_if (ltb (directory.end - position) 6) (invalid "trailing ZIP directory bytes")
      signature ← read_at source position 6 limits
      reject_if
          (not (starts_with signature (tag 5 5))
            || not ((position + 6 + u16_at signature 4) % u64_mod == directory.end))
          (invalid "invalid ZIP directory digital signature record"))
    else ok tt

unfoldable pub validate_directory : Bytes → Directory → Limits → Result (Unit {0})
validate_directory source directory limits = do
  limit_elements limits directory.count
  position ← validate_entries directory.count source directory directory.start limits
  validate_rest source directory position limits
