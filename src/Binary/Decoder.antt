-- ===== src/Binary/Decoder.antt =====
-- janex-format/src/binary.rs: `Decoder`, a cursor over one complete field. A failed read ends the
-- decoding of the value, so only a successful one returns the moved cursor.
use janex.Base.{
  is_utf8, ℕ, zero, suc, ◌+◌, ◌-◌, ◌*◌, ◌^◌, ◌%◌, bit_and, bit_or, Option, none, some, [], ◌∷◌, ltb,
  leb, ◌==◌, ◌&&◌, not, if◌then◌else◌, length, drop, Bytes, checked_add, u64_mod,
}
use janex.Base.{take as take_list}
use janex.Failure.{Result, ok, err, invalid, at, ok_or, reject_if, ◌>>=◌, ◌>>◌}
use janex.Binary.{Limits, limit_bytes, limit_elements}

pub record Decoder : Type 0 where
  pub bytes : Bytes
  pub position : ℕ
  pub limits : Limits

-- `Decoder::new`.
unfoldable pub new : Bytes → Limits → Result Decoder
new bytes limits = do
  limit_bytes limits (length bytes)
  ok (record { bytes = bytes; position = 0; limits = limits })

abbrev pub remaining : Decoder → ℕ
remaining d = length d.bytes - d.position

-- `option.filter(|&end| end <= bound)`.
abbrev pub within : ℕ → Option ℕ → Option ℕ
within bound none = none
within bound (some end) = if leb end bound then some end else none

-- `bytes[start..end]`.
abbrev pub slice : Bytes → ℕ → ℕ → Bytes
slice bytes start end = take_list (end - start) (drop start bytes)

unfoldable pub take : ℕ → Decoder → Result (Bytes × Decoder)
take count d = do
  end ←
      ok_or (within (length d.bytes) (checked_add d.position count))
        (at (invalid "truncated binary field") d.position)
  ok (slice d.bytes d.position end, record d { position = end })

first_byte : Bytes → ℕ
first_byte [] = 0
first_byte (b ∷ _) = b

unfoldable pub u8 : Decoder → Result (ℕ × Decoder)
unfolding first_byte
u8 d = do (field, rest) ← take 1 d; ok (first_byte field, rest)

-- `u32::from_le_bytes` and `u64::from_le_bytes`.
unfoldable pub from_le_bytes : Bytes → ℕ
from_le_bytes [] = 0
from_le_bytes (b ∷ bs) = b + 256 * from_le_bytes bs

unfoldable pub u32 : Decoder → Result (ℕ × Decoder)
u32 d = do (field, rest) ← take 4 d; ok (from_le_bytes field, rest)

unfoldable pub u64 : Decoder → Result (ℕ × Decoder)
u64 d = do (field, rest) ← take 8 d; ok (from_le_bytes field, rest)

-- `value |= u64::from(byte & 0x7f) << (index * 7)`.
abbrev pub add_group : ℕ → ℕ → ℕ → ℕ
add_group value byte index = bit_or value (bit_and byte 0x7f * 2 ^ (index * 7) % u64_mod)

-- The rounds `index..10` of the loop of `vuint`, of which `left` are to come.
unfoldable pub vuint_loop : ℕ → ℕ → ℕ → ℕ → Decoder → Result (ℕ × Decoder)
vuint_loop zero start index value d = err (at (invalid "unterminated ULEB128") start)
vuint_loop (suc left) start index value d = do
  (byte, rest) ← u8 d
  let value' = add_group value byte index
  let more = vuint_loop left start (index + 1) value' rest
  if index == 9 && ltb 1 byte
      then err (at (invalid "ULEB128 exceeds u64") start)
      else if bit_and byte 0x80 == 0
      then ok (value', rest)
      else more

unfoldable pub vuint : Decoder → Result (ℕ × Decoder)
unfolding vuint_loop
vuint d = vuint_loop 10 d.position 0 0 d

unfoldable pub count : Decoder → Result (ℕ × Decoder)
count d = do (n, rest) ← vuint d; elements ← limit_elements rest.limits n; ok (elements, rest)

unfoldable pub sized : Decoder → Result (Bytes × Decoder)
sized d = do (n, rest) ← vuint d; bytes ← limit_bytes rest.limits n; take bytes rest

unfoldable pub string : Decoder → Result (Bytes × Decoder)
unfolding sized
string d = do
  (bytes, rest) ← sized d
  reject_if (not (is_utf8 bytes)) (at (invalid "invalid UTF-8 string") d.position)
  ok (bytes, rest)

unfoldable pub finish : Decoder → Result (Unit {0})
finish d = reject_if (not (remaining d == 0)) (at (invalid "trailing bytes") d.position)
