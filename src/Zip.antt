-- ===== src/Zip.antt =====
-- janex-format/src/wrapper.rs: the fields of ZIP records, directory coordinates and ZIP64 extra
-- fields. The source is an image in memory, read through container.rs's `read_at`; a number that
-- the code takes from a record stands at an offset that the record has.
mod Tests
pub mod Reads
pub mod Records
pub mod Complete
pub mod Expansion
pub mod Stored
pub mod Local
pub mod Entry
pub mod Framing
pub mod Described
pub mod Candidates
pub mod Errors
pub mod Refusals
pub mod Selected
pub mod Extra
pub mod Locate
pub mod Validate
pub mod Ends
use janex.Base.{
  ℕ, zero, suc, ◌+◌, ◌-◌, ◌<◌, Bool, true, false, ◌&&◌, not, Option, none, some, List, [], ◌∷◌, any,
  length, take, drop, leb, ltb, ◌==◌, if◌then◌else◌, Bytes, ascii, bytes_eq, checked_add,
  checked_sub, arith, lt_wf,
}
use janex.Failure.{Result, ok, err, error, invalid, io, at, ok_or, reject_if, ◌>>=◌, ◌>>◌}
use janex.Binary.{Limits, limit_bytes}
use janex.Binary.Decoder.{slice, from_le_bytes}
use mathlib.Core.Logic.{dite}
use mathlib.Core.WellFounded.{Acc}
use native.Mathlib.Decide.{dec_lt}

-- `seek` to an offset and `read_exact` of `size` bytes: an empty read succeeds anywhere.
unfoldable pub read_exact : Bytes → ℕ → ℕ → Option Bytes
read_exact source offset size =
    let rest = drop offset source in if leb size (length rest) then some (take size rest) else none

unfoldable pub read_at : Bytes → ℕ → ℕ → Limits → Result Bytes
read_at source offset count limits = do
  size ← limit_bytes limits count
  ok_or (read_exact source offset size) (at (error io "failed to fill whole buffer") offset)

-- `slice.get(start..end)`.
abbrev pub get_range : Bytes → ℕ → ℕ → Option Bytes
get_range bytes start end =
    if leb start end && leb end (length bytes) then some (slice bytes start end) else none

-- `slice.starts_with(prefix)`.
abbrev pub starts_with : Bytes → Bytes → Bool
starts_with bytes front = bytes_eq (take (length front) bytes) front

unfoldable pub u16_at : Bytes → ℕ → ℕ
u16_at bytes offset = from_le_bytes (slice bytes offset (offset + 2))

unfoldable pub u32_at : Bytes → ℕ → ℕ
u32_at bytes offset = from_le_bytes (slice bytes offset (offset + 4))

unfoldable pub u64_at : Bytes → ℕ → ℕ
u64_at bytes offset = from_le_bytes (slice bytes offset (offset + 8))

-- `option.is_some_and(|end| end <= bound)`; its negation is `is_none_or(|end| end > bound)`.
abbrev pub is_within : ℕ → Option ℕ → Bool
is_within bound none = false
is_within bound (some end) = leb end bound

-- `option == Some(value)`.
abbrev pub is_exactly : ℕ → Option ℕ → Bool
is_exactly value none = false
is_exactly value (some found) = found == value

-- The signature of a record: `PK` and two bytes.
abbrev pub tag : ℕ → ℕ → Bytes
tag a b = b'P' ∷ b'K' ∷ a ∷ b ∷ []

-- `u32::MAX` and `u16::MAX`, the placeholders of ZIP64 fields.
abbrev pub u32_max : ℕ
u32_max = 0xffff_ffff

abbrev pub u16_max : ℕ
u16_max = 0xffff

pub record Directory : Type 0 where
  pub jar_start : ℕ
  pub start : ℕ
  pub end : ℕ
  pub count : ℕ

unfoldable pub coordinates : ℕ → ℕ → ℕ → ℕ → Option Directory
coordinates end length offset count = elim (checked_sub end length) [
  | none ↦ none
  | some start ↦ elim (checked_sub start offset) [
    | none ↦ none
    | some jar_start ↦
        some (record { jar_start = jar_start; start = start; end = end; count = count })
  ]
]

-- A field that a ZIP64 extra field may replace, with its placeholder and the width there.
pub record Field : Type 0 where
  pub value : ℕ
  pub placeholder : ℕ
  pub width : ℕ

abbrev pub is_placeholder : Field → Bool
is_placeholder field = field.value == field.placeholder
