-- ===== src/Zip/Ends.antt =====
-- janex-format/src/wrapper.rs: `candidate_ends`.
use janex.Base.{
  ℕ, zero, suc, ◌+◌, ◌-◌, Bool, true, false, ◌&&◌, List, [], ◌∷◌, ◌++◌, length, ◌==◌, if◌then◌else◌,
  Bytes, bytes_eq,
}
use janex.Failure.{Error, ErrorKind, Result, ok, err, ◌>>=◌}
use janex.Binary.{Limits}
use janex.Binary.Decoder.{slice}
use janex.Zip.{read_at, tag, u16_at, Directory}
use janex.Zip.Locate.{directories}
use janex.Zip.Validate.{validate_directory}

-- `error.kind() == ErrorKind::Invalid`.
unfoldable pub is_invalid : Error → Bool
is_invalid e = elim e.kind [ ErrorKind.invalid_kind ↦ true | _ ↦ false ]

-- The match on what `validate_directory` returns.
unfoldable pub judge : Result (Unit {0}) → ℕ → List ℕ → Result (List ℕ)
judge (ok _) jar_start ends = ok (ends ++ jar_start ∷ [])
judge (err e) jar_start ends = if is_invalid e then ok ends else err e

-- The inner loop: the ends found so far, with those of valid directories appended.
unfoldable pub judge_all : Bytes → Limits → List Directory → List ℕ → Result (List ℕ)
judge_all source limits [] ends = ok ends
judge_all source limits (directory ∷ rest) ends = do
  more ← judge (validate_directory source directory limits) directory.jar_start ends
  judge_all source limits rest more

-- The tests of one index of the tail: a signature, a comment that ends the tail, one disk.
unfoldable pub is_end_record : Bytes → ℕ → Bool
is_end_record tail index =
    let eocd_record = slice tail index (index + 22) in
    bytes_eq (slice tail index (index + 4)) (tag 5 6)
    && index + 22 + u16_at eocd_record 20 == length tail
    && u16_at eocd_record 4 == 0
    && u16_at eocd_record 6 == 0

-- The indices from `index` on, of which `left` are to come.
unfoldable pub scan_tail : ℕ → Bytes → ℕ → Bytes → Limits → ℕ → List ℕ → Result (List ℕ)
scan_tail zero source start tail limits index ends = ok ends
scan_tail (suc left) source start tail limits index ends = do
  more ←
      if is_end_record tail index
      then (do
        found ← directories source (start + index) (slice tail index (index + 22)) limits
        judge_all source limits found ends)
      else ok ends
  scan_tail left source start tail limits (index + 1) more

unfoldable pub candidate_ends : Bytes → ℕ → Limits → Result (List ℕ)
candidate_ends source size limits = do
  let start = size - 65557
  tail ← read_at source start (size - start) limits
  scan_tail (length tail - 21) source start tail limits 0 []
