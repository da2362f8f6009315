-- ===== src/Cbor/Sized.antt =====
-- janex-format/src/cbor.rs: `read_sized` and `write_sized`, where an empty map has length zero.
use janex.Base.{
  ◌+◌, ◌<◌, ◌≤◌, ◌≡◌, refl, sym, Bool, true, false, [], ◌∷◌, ◌++◌, if◌then◌else◌, length, Bytes,
  bytes_eq, bytes_eq→eq, is_empty, u64_mod, IsU64, arith,
}
use janex.Failure.{Result, ok, invalid, reject_if, ◌>>=◌, ◌>>◌}
use janex.Binary.{Limits, Write, vec_write}
use janex.Binary as Binary
use janex.Binary.Decoder
use janex.Binary.Decoder.{Decoder}
use janex.Binary.Cursor.{cursor}
use janex.Binary.Writing.{sized-write_sized}
use janex.Cbor.{Value, Half, from_bytes}

-- `Value::empty_map` and `is_empty_map`.
abbrev pub empty_map : Value
empty_map = record { bytes = 0xa0 ∷ [] }

abbrev pub is_empty_map : Value → Bool
is_empty_map value = bytes_eq value.bytes (0xa0 ∷ [])

module _ ⦃half : Half⦄ where
  -- `read_sized`, from the bytes of the field on.
  unfoldable pub read_value : Bytes → Limits → Result Value
  read_value bytes limits = if is_empty bytes then ok empty_map else (do
    value ← from_bytes bytes limits
    reject_if (is_empty_map value) (invalid "empty sized CBOR map must use zero length")
    ok value)

  unfoldable pub read_sized : Decoder → Result (Value × Decoder)
  unfolding read_value
  read_sized decoder = do
    (bytes, rest) ← Decoder.sized decoder
    value ← read_value bytes decoder.limits
    ok (value, rest)

module _ {W : Type 0} ⦃w : Write W⦄ where
  -- `write_sized`.
  unfoldable pub write_sized : Value → W → Result W
  write_sized value writer =
      Binary.write_sized (if is_empty_map value then [] else value.bytes) writer

not_empty : (bytes : Bytes) → 1 ≤ length bytes → is_empty bytes ≡ false
not_empty [] h = absurd (omega arith)
not_empty (b ∷ bytes) h = refl

content_le : (bytes : Bytes) (t : Bool) → length (if t then [] else bytes) ≤ length bytes
content_le bytes true = omega arith
content_le bytes false = omega arith

module _ ⦃half : Half⦄ where
  read_value-written :
      (limits : Limits) (v : Value) (empty : Bool)
      → is_empty_map v ≡ empty
      → 1 ≤ length v.bytes
      → from_bytes v.bytes limits ≡ ok v
      → read_value (if empty then [] else v.bytes) limits ≡ ok v
  unfolding read_value
  read_value-written limits v true e some_byte valid =
      λ i. ok (record { bytes = sym (bytes_eq→eq v.bytes (0xa0 ∷ []) e) i })
  read_value-written limits v false e some_byte valid =
      rw (not_empty v.bytes some_byte) (rw valid (rw e refl))

  -- `read_sized` reads back the value that `write_sized` appended, the empty map included, wherever
  -- it stands in an input that fits the address space, and leaves what follows, when the value is
  -- one that `Value::from_bytes` gives for its bytes under the limits, is within the byte limit and
  -- has bytes.
  pub read_sized-write_sized :
      (limits : Limits) (before after written : Bytes) (v : Value)
      → from_bytes v.bytes limits ≡ ok v
      → 1 ≤ length v.bytes
      → length v.bytes ≤ limits.max_bytes
      → write_sized v before ≡ ok written
      → length written + length after < u64_mod
      → IsU64 (length v.bytes)
      → (field : Bytes) × (written ≡ before ++ field)
        × (read_sized (cursor limits before (field ++ after)) ≡ ok (v, cursor limits written after))
  unfolding read_sized write_sized
  read_sized-write_sized limits before after written v valid some_byte fits run room word =
      let content = if is_empty_map v then [] else v.bytes in
      let shorter = content_le v.bytes (is_empty_map v) in
      let back =
        sized-write_sized limits before after written content (omega (arith, shorter)) run room
          (omega (arith, shorter)) in
      (
        back.0,
        back.1,
        rw back.2 (rw (read_value-written limits v (is_empty_map v) refl some_byte valid) refl),
      )
