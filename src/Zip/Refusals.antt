-- ===== src/Zip/Refusals.antt =====
-- janex-format/src/wrapper.rs: the errors with which `validate_directory` fails.
use janex.Base.{
  ℕ, zero, suc, ◌+◌, ◌-◌, ◌<◌, ◌%◌, min, bit_and, Bool, true, false, ◌&&◌, ◌||◌, not, ◌≡◌, ◌⊎◌, inl,
  inr, refl, Option, List, [], ◌∷◌, any, length, ltb, ◌==◌, Bytes, bytes_eq, drop, checked_add,
  u64_mod, String, lt_wf,
}
use janex.Failure.{
  Error, Result, invalid, ok_or, reject_if, Raises, fine, raised, Raises-weaken, Raises-bind,
  Raises-if, Raises-ok_or, Raises-dite, Raises-reject_if,
}
use janex.Binary.{Limits}
use janex.Binary.Decoder.{slice, within}
use janex.Zip.{
  read_at, get_range, tag, u16_at, u32_at, starts_with, is_within, Directory, Field, is_placeholder,
}
use janex.Zip.Extra.{replace_fields, expand_block, expand_blocks, expand_zip64, block_advances}
use janex.Zip.Validate.{
  wide_field, disk_field, value_at, check_sizes, check_descriptor, validate_local, below,
  validate_entry, validate_entries, validate_rest, validate_directory,
}
use janex.Zip.Ends.{is_invalid}
use janex.Zip.Errors.{IsStop, limit_elements-Raises, read_at-Raises}
use mathlib.Core.WellFounded.{Acc}
use native.Mathlib.Decide.{dec_lt}

-- The directory is invalid, or the error ends the search.
abbrev pub IsRefusal : Error → Type 0
IsRefusal e = (is_invalid e ≡ true) ⊎ IsStop e

refused : (message : String) → IsRefusal (invalid message)
unfolding is_invalid
refused message = inl refl

guard : (b : Bool) (message : String) → Raises IsRefusal (reject_if b (invalid message))
guard b message = Raises-reject_if b (invalid message) (refused message)

given {ℓ} :
    {A : Type ℓ} (m : Option A) (message : String) → Raises IsRefusal (ok_or m (invalid message))
given m message = Raises-ok_or m (invalid message) (refused message)

stopped {ℓ} : {A : Type ℓ} {r : Result A} → Raises IsStop r → Raises IsRefusal r
stopped h = Raises-weaken h λ e stop. raised (inr stop)

read :
    (source : Bytes) (offset count : ℕ) (limits : Limits)
    → Raises IsRefusal (read_at source offset count limits)
read source offset count limits = stopped (read_at-Raises source offset count limits)

replace_fields-Raises :
    (value : Bytes) (offset : ℕ) (fields : List Field)
    → Raises IsRefusal (replace_fields value offset fields)
unfolding replace_fields
replace_fields-Raises value offset [] = fine
replace_fields-Raises value offset (field ∷ fields) =
    Raises-if (is_placeholder field)
      (Raises-bind (given (get_range value offset (offset + field.width)) _)
        λ _. Raises-bind (replace_fields-Raises value (offset + field.width) fields) λ _. fine)
      (Raises-bind (replace_fields-Raises value offset fields) λ _. fine)

expand_block-Raises :
    (id : ℕ) (value : Bytes) (expanded : Bool) (fields : List Field)
    → Raises IsRefusal (expand_block id value expanded fields)
unfolding expand_block
expand_block-Raises id value expanded fields =
    Raises-if (id == 1)
      (Raises-bind (guard expanded _)
        λ _. Raises-bind (replace_fields-Raises value 0 fields) λ _. fine)
      fine

expand_blocks-Raises :
    (extra : Bytes) (position left : ℕ) (w : Acc ◌<◌ left) (eq : left ≡ length extra - position)
    (expanded : Bool) (fields : List Field)
    → Raises IsRefusal (expand_blocks extra position left w eq expanded fields)
unfolding expand_blocks
expand_blocks-Raises extra position left (Acc.intro _ smaller) eq expanded fields =
    Raises-dite (dec_lt position (length extra))
      (λ inside.
        let size = u16_at extra (position + 2) in
        let next = position + 4 + size in
        Raises-bind (guard (ltb (length extra - position) 4) _) λ _.
          Raises-bind (given (get_range extra (position + 4) next) _) λ value.
            Raises-bind (expand_block-Raises (u16_at extra position) value expanded fields) λ out.
              expand_blocks-Raises extra next (length extra - next)
                (smaller _ (block_advances (length extra) position left size eq inside)) refl out.0
                out.1)
      (λ _. fine)

expand_zip64-Raises :
    (extra : Bytes) (fields : List Field) → Raises IsRefusal (expand_zip64 extra fields)
unfolding expand_zip64
expand_zip64-Raises extra fields =
    Raises-bind
      (expand_blocks-Raises extra 0 (length extra - 0) (lt_wf.apply (length extra - 0)) refl false
        fields)
      λ out. Raises-bind (guard (not out.0 && any is_placeholder out.1) _) λ _. fine

check_sizes-Raises :
    (header extra central : Bytes) (compressed uncompressed : ℕ)
    → Raises IsRefusal (check_sizes header extra central compressed uncompressed)
unfolding check_sizes
check_sizes-Raises header extra central compressed uncompressed =
    Raises-bind (expand_zip64-Raises extra _) λ _. guard _ _

check_descriptor-Raises :
    (source : Bytes) (d : Directory) (data_end : ℕ) (central : Bytes) (compressed uncompressed : ℕ)
    (limits : Limits)
    → Raises IsRefusal (check_descriptor source d data_end central compressed uncompressed limits)
unfolding check_descriptor
check_descriptor-Raises source d data_end central compressed uncompressed limits =
    Raises-bind (read source data_end (min (d.start - data_end) 24) limits) λ _. guard _ _

validate_local-Raises :
    (source : Bytes) (d : Directory) (position : ℕ) (central name : Bytes)
    (compressed uncompressed : ℕ) (limits : Limits)
    → Raises IsRefusal
        (validate_local source d position central name compressed uncompressed limits)
unfolding validate_local
validate_local-Raises source d position central name compressed uncompressed limits =
    Raises-bind
      (guard (not (is_within d.start (checked_add position 30))) "truncated ZIP local header")
      λ _. Raises-bind (read source position 30 limits) λ header.
        let name_length = u16_at header 26 in
        let variable_length = name_length + u16_at header 28 in
        Raises-bind
          (guard
            (not (starts_with header (tag 3 4))
              || not (u16_at header 6 == u16_at central 8)
              || not (u16_at header 8 == u16_at central 10))
            "ZIP local and central headers disagree")
          λ _.
            Raises-bind
              (given (within d.start (checked_add position (30 + variable_length)))
                "ZIP local fields exceed data region")
              λ data_start.
                Raises-bind (read source (position + 30) variable_length limits) λ variable.
                  Raises-bind
                    (guard (not (bytes_eq (slice variable 0 name_length) name))
                      "ZIP local and central filenames disagree")
                    λ _.
                      Raises-bind
                        (given (within d.start (checked_add data_start compressed))
                          "ZIP compressed data exceeds JAR data region")
                        λ data_end.
                          Raises-if (bit_and (u16_at header 6) 8 == 0)
                            (check_sizes-Raises header (drop name_length variable) central
                              compressed uncompressed)
                            (check_descriptor-Raises source d data_end central compressed
                              uncompressed limits)

validate_entry-Raises :
    (source : Bytes) (d : Directory) (position : ℕ) (limits : Limits)
    → Raises IsRefusal (validate_entry source d position limits)
unfolding validate_entry
validate_entry-Raises source d position limits =
    Raises-bind (guard (not (is_within d.end (checked_add position 46))) "truncated ZIP directory")
      λ _. Raises-bind (read source position 46 limits) λ header.
        let name_length = u16_at header 28 in
        let extra_length = u16_at header 30 in
        let variable_length = name_length + extra_length + u16_at header 32 in
        Raises-bind (guard (not (starts_with header (tag 1 2))) "incorrect ZIP directory signature")
          λ _.
            Raises-bind
              (given (within d.end (checked_add position (46 + variable_length)))
                "ZIP directory entry exceeds directory")
              λ next. Raises-bind (read source (position + 46) variable_length limits) λ variable.
                Raises-bind
                  (expand_zip64-Raises (slice variable name_length (name_length + extra_length)) (
                    wide_field (u32_at header 24)
                    ∷ wide_field (u32_at header 20)
                    ∷ wide_field (u32_at header 42)
                    ∷ disk_field (u16_at header 34)
                    ∷ []))
                  λ expanded.
                    Raises-bind
                      (guard (not (value_at 3 expanded == 0)) "multidisk ZIP is not a JAR tail")
                      λ _.
                        Raises-bind
                          (given (below d.start (checked_add d.jar_start (value_at 2 expanded)))
                            "ZIP local header is outside the JAR data region")
                          λ local.
                            Raises-bind
                              (validate_local-Raises source d local header
                                (slice variable 0 name_length) (value_at 1 expanded)
                                (value_at 0 expanded) limits)
                              λ _. fine

validate_entries-Raises :
    (left : ℕ) (source : Bytes) (d : Directory) (position : ℕ) (limits : Limits)
    → Raises IsRefusal (validate_entries left source d position limits)
unfolding validate_entries
validate_entries-Raises zero source d position limits = fine
validate_entries-Raises (suc left) source d position limits =
    Raises-bind (validate_entry-Raises source d position limits)
      λ next. validate_entries-Raises left source d next limits

validate_rest-Raises :
    (source : Bytes) (d : Directory) (position : ℕ) (limits : Limits)
    → Raises IsRefusal (validate_rest source d position limits)
unfolding validate_rest
validate_rest-Raises source d position limits =
    Raises-if (ltb position d.end)
      (Raises-bind (guard (ltb (d.end - position) 6) "trailing ZIP directory bytes") λ _.
        Raises-bind (read source position 6 limits) λ signature.
          guard
            (not (starts_with signature (tag 5 5))
              || not ((position + 6 + u16_at signature 4) % u64_mod == d.end))
            "invalid ZIP directory digital signature record")
      fine

pub validate_directory-Raises :
    (source : Bytes) (d : Directory) (limits : Limits)
    → Raises IsRefusal (validate_directory source d limits)
unfolding validate_directory
validate_directory-Raises source d limits =
    Raises-bind (stopped (limit_elements-Raises limits d.count)) λ _.
      Raises-bind (validate_entries-Raises d.count source d d.start limits)
        λ position. validate_rest-Raises source d position limits
