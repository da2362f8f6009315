-- ===== src/Zip/Local.antt =====
-- janex-format/src/wrapper.rs: the local headers that `validate_local` accepts.
use janex.Base.{
  ℕ, ◌+◌, ◌≤◌, bit_and, true, ◌||◌, not, ◌≡◌, sym, ap, ◌∙◌, ◌==◌, if◌then◌else◌, Bytes, bytes_eq,
  bytes_eq→eq, checked_add, arith, drop,
}
use janex.Failure.{invalid, Ensures, Ensures-bind, Ensures-weaken, Ensures-reject_if, any}
use janex.Binary.{Limits}
use janex.Binary.Decoder.{slice}
use janex.Zip.{tag, u16_at, starts_with, is_within, Directory}
use janex.Zip.Reads.{
  IsPart, read_at-IsPart, front-IsPart, u16_at-IsPart, starts_with-IsPart, within-Ensures,
}
use janex.Zip.Validate.{check_sizes, check_descriptor, validate_local}

-- The local header at `position` has its signature and the name, and its data of `compressed` bytes
-- ends before the directory begins.
pub record IsLocal (source : Bytes) (d : Directory) (position : ℕ) (name : Bytes) (compressed : ℕ)
    : Type 0 where
  pub signature : slice source position (position + 4) ≡ tag 3 4
  pub named : slice source (position + 30) (position + 30 + u16_at source (position + 26)) ≡ name
  pub inside :
      position + 30 + u16_at source (position + 26) + u16_at source (position + 28) + compressed
      ≤ d.start

-- What the tests of `validate_local` say of the source.
IsLocal-header :
    (source : Bytes) (d : Directory) (position compressed : ℕ) (header variable name : Bytes)
    → IsPart source position 30 header
    → IsPart source (position + 30) (u16_at header 26 + u16_at header 28) variable
    → starts_with header (tag 3 4) ≡ true
    → bytes_eq (slice variable 0 (u16_at header 26)) name ≡ true
    → position + 30 + u16_at header 26 + u16_at header 28 + compressed ≤ d.start
    → IsLocal source d position name compressed
IsLocal-header source d position compressed header variable name h v signed same fits = record {
  signature = starts_with-IsPart source position 30 header (tag 3 4) h (omega arith) signed;
  named =
      ap (λ (t : ℕ). slice source (position + 30) (position + 30 + t))
        (sym (u16_at-IsPart source position 30 header 26 h (omega arith)))
      ∙ sym (
          front-IsPart source (position + 30) (u16_at header 26 + u16_at header 28) variable
            (u16_at header 26) v (omega arith))
      ∙ bytes_eq→eq (slice variable 0 (u16_at header 26)) name same;
  inside =
      rw
        (
          ← u16_at-IsPart source position 30 header 26 h (omega arith),
          ← u16_at-IsPart source position 30 header 28 h (omega arith),
        )
        fits;
}

pub validate_local-IsLocal :
    (source : Bytes) (d : Directory) (position : ℕ) (central name : Bytes)
    (compressed uncompressed : ℕ) (limits : Limits)
    → Ensures
        (λ _. IsLocal source d position name compressed)
        (validate_local source d position central name compressed uncompressed limits)
unfolding validate_local
validate_local-IsLocal source d position central name compressed uncompressed limits =
    Ensures-reject_if (not (is_within d.start (checked_add position 30)))
      (invalid "truncated ZIP local header")
      λ _. Ensures-bind (read_at-IsPart source position 30 limits) λ header h.
        Ensures-reject_if
          (not (starts_with header (tag 3 4))
            || not (u16_at header 6 == u16_at central 8)
            || not (u16_at header 8 == u16_at central 10))
          (invalid "ZIP local and central headers disagree")
          λ agree.
            let name_length = u16_at header 26 in
            let variable_length = name_length + u16_at header 28 in
            Ensures-bind
              (within-Ensures d.start position (30 + variable_length)
                (invalid "ZIP local fields exceed data region"))
              λ data_start a.
                Ensures-bind (read_at-IsPart source (position + 30) variable_length limits)
                  λ variable v.
                    Ensures-reject_if (not (bytes_eq (slice variable 0 name_length) name))
                      (invalid "ZIP local and central filenames disagree")
                      λ same.
                        Ensures-bind
                          (within-Ensures d.start data_start compressed
                            (invalid "ZIP compressed data exceeds JAR data region"))
                          λ data_end b.
                            Ensures-weaken
                              (any (
                                if bit_and (u16_at header 6) 8 == 0
                                then check_sizes header (drop name_length variable) central
                                    compressed uncompressed
                                else check_descriptor source d data_end central compressed
                                    uncompressed limits))
                              λ _ _.
                                IsLocal-header source d position compressed header variable name h v
                                  (ground arith) (ground arith) (omega (arith, a, b))
