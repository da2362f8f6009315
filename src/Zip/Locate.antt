-- ===== src/Zip/Locate.antt =====
-- janex-format/src/wrapper.rs: `zip64_records` and `directories`.
use janex.Base.{
  ℕ, zero, suc, ◌+◌, ◌-◌, ◌<◌, min, Bool, ◌&&◌, ◌||◌, not, Option, none, some, List, [], ◌∷◌, ◌++◌,
  length, leb, ◌==◌, if◌then◌else◌, Bytes, bytes_eq, checked_add, arith, lt_wf, ◌≡◌, refl,
}
use janex.Failure.{Result, ok, if_some, ◌>>=◌, ◌>>◌}
use janex.Binary.{Limits, limit_elements}
use janex.Binary.Decoder.{slice}
use janex.Zip.{
  read_at, starts_with, u16_at, u32_at, u64_at, is_within, is_exactly, tag, u16_max, u32_max,
  Directory, coordinates,
}
use mathlib.Core.Logic.{dite}
use mathlib.Core.WellFounded.{Acc}
use native.Mathlib.Decide.{dec_lt}

-- `position.checked_add(12).and_then(|position| position.checked_add(size))`.
unfoldable pub record_end : ℕ → ℕ → Option ℕ
record_end position size = elim (checked_add position 12) [
  | none ↦ none
  | some fixed ↦ checked_add fixed size
]

-- One index of a chunk: the positions, with this one appended when a record begins here.
unfoldable pub scan_index : Bytes → ℕ → Limits → ℕ → Bytes → ℕ → List ℕ → Result (List ℕ)
scan_index source locator limits start bytes index positions =
    let position = start + index in
    if not (bytes_eq (slice bytes index (index + 4)) (tag 6 6))
    then ok positions
    else if not (is_within locator (checked_add position 56))
    then ok positions
    else (do
      header ← read_at source position 12 limits
      let size = u64_at header 4
      if leb 44 size && is_exactly locator (record_end position size)
          then (do limit_elements limits (length positions + 1); ok (positions ++ position ∷ []))
          else ok positions)

-- The indices from `index` on, of which `left` are to come.
unfoldable pub scan_chunk : ℕ → Bytes → ℕ → Limits → ℕ → Bytes → ℕ → List ℕ → Result (List ℕ)
scan_chunk zero source locator limits start bytes index positions = ok positions
scan_chunk (suc left) source locator limits start bytes index positions = do
  more ← scan_index source locator limits start bytes index positions
  scan_chunk left source locator limits start bytes (index + 1) more

pub chunk_advances :
    (start locator left : ℕ)
    → left ≡ locator - start
    → 3 < min (locator - start) 65536
    → locator - (start + (min (locator - start) 65536 - 3)) < left
chunk_advances start locator left eq h = omega arith

-- The loop over chunks from `start` on.
unfoldable pub scan_records :
    (source : Bytes) (locator : ℕ) (limits : Limits) (start left : ℕ)
    → Acc ◌<◌ left
    → left ≡ locator - start
    → List ℕ
    → Result (List ℕ)
scan_records source locator limits start left (Acc.intro _ smaller) eq positions =
    if is_within locator (checked_add start 56)
    then (do
      bytes ← read_at source start (min (locator - start) 65536) limits
      more ← scan_chunk (length bytes - 3) source locator limits start bytes 0 positions
      dite (dec_lt 3 (min (locator - start) 65536))
          (λ longer.
            let next = start + (min (locator - start) 65536 - 3) in
            scan_records source locator limits next (locator - next)
              (smaller _ (chunk_advances start locator left eq longer)) refl more)
          (λ _. ok more))
    else ok positions

unfoldable pub zip64_records : Bytes → ℕ → ℕ → Limits → Result (List ℕ)
unfolding scan_records chunk_advances lt_wf dec_lt
zip64_records source lower locator limits =
    scan_records source locator limits lower (locator - lower) (lt_wf.apply (locator - lower)) refl
      []

-- The disagreements for which `directories` passes over a ZIP64 record.
unfoldable pub contradicts : Bytes → Bytes → Bool
contradicts eocd_record fixed =
    not (u32_at fixed 16 == 0)
    || not (u32_at fixed 20 == 0)
    || not (u64_at fixed 24 == u64_at fixed 32)
    || (not (u16_at eocd_record 10 == u16_max) && not (u16_at eocd_record 10 == u64_at fixed 32))
    || (not (u16_at eocd_record 8 == u16_max) && not (u16_at eocd_record 8 == u64_at fixed 32))
    || (not (u32_at eocd_record 12 == u32_max) && not (u32_at eocd_record 12 == u64_at fixed 40))
    || (not (u32_at eocd_record 16 == u32_max) && not (u32_at eocd_record 16 == u64_at fixed 48))

-- The loop over the ZIP64 records of `directories`.
unfoldable pub record_directories : Bytes → Bytes → ℕ → Limits → List ℕ → Result (List Directory)
record_directories source eocd_record relative_record limits [] = ok []
record_directories source eocd_record relative_record limits (position ∷ positions) = do
  fixed ← read_at source position 56 limits
  rest ← record_directories source eocd_record relative_record limits positions
  let found = coordinates position (u64_at fixed 40) (u64_at fixed 48) (u64_at fixed 32)
  if contradicts eocd_record fixed
      then ok rest
      else if_some found
          (λ directory.
            if is_exactly position (checked_add directory.jar_start relative_record)
            then ok (directory ∷ rest)
            else ok rest)
          (ok rest)

-- `coordinates(..).into_iter().collect()`.
unfoldable pub option_list : Option Directory → List Directory
option_list none = []
option_list (some directory) = directory ∷ []

-- Without a ZIP64 locator the end record itself says where the directory is.
unfoldable pub plain_directories : ℕ → Bytes → List Directory
unfolding option_list
plain_directories eocd eocd_record =
    let count = u16_at eocd_record 10 in
    let size = u32_at eocd_record 12 in
    let offset = u32_at eocd_record 16 in
    if not (count == u16_at eocd_record 8)
      || count == u16_max
      || size == u32_max
      || offset == u32_max
    then []
    else option_list (coordinates eocd size offset count)

unfoldable pub directories : Bytes → ℕ → Bytes → Limits → Result (List Directory)
unfolding plain_directories
directories source eocd eocd_record limits = do
  locator ← if leb 20 eocd then read_at source (eocd - 20) 20 limits else ok []
  if not (starts_with locator (tag 6 7))
      then ok (plain_directories eocd eocd_record)
      else if not (u32_at locator 4 == 0) || not (u32_at locator 16 == 1)
      then ok []
      else (do
        positions ← zip64_records source (u64_at locator 8) (eocd - 20) limits
        record_directories source eocd_record (u64_at locator 8) limits positions)
