-- ===== src/Cbor.antt =====
-- janex-format/src/cbor.rs: the validation of one core-deterministic CBOR item.
mod Tests
pub mod Item
pub mod Head
pub mod Simple
pub mod Accept
pub mod Sound
pub mod Sized
use janex.Base.{
  ℕ, zero, suc, ◌+◌, ◌-◌, ◌/◌, ◌%◌, ◌^◌, bit_and, Bool, true, false, not, ◌&&◌, ◌||◌, Option, none,
  some, ltb, leb, ◌==◌, if◌then◌else◌, length, Bytes, fold_be, be_num, bytes_lt, is_utf8,
}
use janex.Failure.{Result, ok, err, Error, error, invalid, limit, at, reject_if, ◌>>=◌, ◌>>◌}
use janex.Binary.{Limits, limit_bytes, limit_elements}
use janex.Binary.Decoder
use janex.Binary.Decoder.{Decoder, slice}

-- A validated item in its exact encoding.
pub record Value : Type 0 where
  pub bytes : Bytes

-- What the code uses of the crate `half`: `f16::from_bits(bits).is_nan()`, and the bits of
-- `f16::from_f32(value).to_f32()` for the bits of `value`.
pub record Half : Type 0 where
  pub is_nan : ℕ → Bool
  pub through_half : ℕ → ℕ

-- `f32::is_nan` and `f64::is_nan` on bit patterns.
abbrev pub is_nan32 : ℕ → Bool
is_nan32 bits = bits / 2 ^ 23 % 256 == 255 && not (bits % 2 ^ 23 == 0)

abbrev pub is_nan64 : ℕ → Bool
is_nan64 bits = bits / 2 ^ 52 % 2048 == 2047 && not (bits % 2 ^ 52 == 0)

-- Whether `(value as f32) as f64` has the bits of `value`, for a `value` that is not a NaN: it is
-- zero, infinite, or its significand fits the 24 bits of a normal `f32` or what a subnormal has.
unfoldable pub survives_f32 : ℕ → Bool
survives_f32 bits =
    let exponent = bits / 2 ^ 52 % 2048 in
    let fraction = bits % 2 ^ 52 in
    if exponent == 0
    then fraction == 0
    else if exponent == 2047
    then fraction == 0
    else if ltb 1150 exponent
    then false
    else if leb 897 exponent
    then fraction % 2 ^ 29 == 0
    else if leb 874 exponent
    then fraction % 2 ^ (29 + (897 - exponent)) == 0
    else false

-- `argument`: the preferred-width argument after an initial byte.
unfoldable pub wide_argument : Decoder → ℕ → ℕ → Result (ℕ × Decoder)
wide_argument cursor length minimum = do
  (bytes, rest) ← Decoder.take length cursor
  let value = fold_be 0 bytes
  reject_if (ltb value minimum)
      (at (invalid "nonminimal CBOR argument") (rest.position - length - 1))
  ok (value, rest)

unfoldable pub argument : Decoder → ℕ → Result (ℕ × Decoder)
argument cursor additional =
    if leb additional 23
    then ok (additional, cursor)
    else if additional == 24
    then wide_argument cursor 1 24
    else if additional == 25
    then wide_argument cursor 2 256
    else if additional == 26
    then wide_argument cursor 4 65536
    else if additional == 27
    then wide_argument cursor 8 (2 ^ 32)
    else err (at (invalid "reserved or indefinite CBOR argument") (cursor.position - 1))

module _ ⦃half : Half⦄ where
  -- The widths that `scan_simple` accepts; the cursor is returned behind the value.
  unfoldable pub simple_valid : Decoder → ℕ → Result (Bool × Decoder)
  simple_valid cursor additional =
      if leb additional 23
      then ok (true, cursor)
      else if additional == 24
      then (do (value, rest) ← Decoder.u8 cursor; ok (leb 32 value, rest))
      else if additional == 25
      then (do
        (bytes, rest) ← Decoder.take 2 cursor
        let bits = be_num bytes
        ok (not (half.is_nan bits) || bits == 0x7e00, rest))
      else if additional == 26
      then (do
        (bytes, rest) ← Decoder.take 4 cursor
        let bits = be_num bytes
        ok (not (is_nan32 bits) && not (half.through_half bits == bits), rest))
      else if additional == 27
      then (do
        (bytes, rest) ← Decoder.take 8 cursor
        let bits = be_num bytes
        ok (not (is_nan64 bits) && not (survives_f32 bits), rest))
      else ok (false, cursor)

  unfoldable pub scan_simple : Decoder → ℕ → ℕ → Result Decoder
  scan_simple cursor additional start = do
    (valid, rest) ← simple_valid cursor additional
    reject_if (not valid) (at (invalid "non-deterministic or invalid CBOR simple value") start)
    ok rest

-- A scan of one item: the cursor, the whole input and the depth to the cursor behind the item.
abbrev pub Scan : Type 0
Scan = Decoder → Bytes → ℕ → Result Decoder

-- The loop over the items of an array.
unfoldable pub scan_items : Scan → Bytes → ℕ → ℕ → Decoder → Result Decoder
scan_items scan input depth zero cursor = ok cursor
scan_items scan input depth (suc count) cursor = do
  rest ← scan cursor input depth
  scan_items scan input depth count rest

-- `previous.is_some_and(|previous| previous >= key)`.
unfoldable pub out_of_order : Option Bytes → Bytes → Bool
out_of_order none key = false
out_of_order (some previous) key = not (bytes_lt previous key)

-- The loop over the entries of a map.
unfoldable pub scan_entries : Scan → Bytes → ℕ → ℕ → Option Bytes → Decoder → Result Decoder
scan_entries scan input depth zero previous cursor = ok cursor
scan_entries scan input depth (suc count) previous cursor = do
  after_key ← scan cursor input depth
  let key = slice input cursor.position after_key.position
  reject_if (out_of_order previous key)
      (at (invalid "unordered or duplicate CBOR map key") cursor.position)
  after_value ← scan after_key input depth
  scan_entries scan input depth count (some key) after_value

-- A byte string or a text.
unfoldable pub scan_string : Bool → Decoder → ℕ → ℕ → Result Decoder
scan_string is_text cursor value start = do
  length ← limit_bytes cursor.limits value
  (bytes, rest) ← Decoder.take length cursor
  reject_if (is_text && not (is_utf8 bytes)) (at (invalid "invalid CBOR UTF-8 text") start)
  ok rest

-- What follows the argument, by the major type; `scan` is the scan one level down.
unfoldable pub scan_content : Scan → ℕ → Decoder → Bytes → ℕ → ℕ → ℕ → Result Decoder
scan_content scan major cursor input depth value start =
    if leb major 1
    then ok cursor
    else if leb major 3
    then scan_string (major == 3) cursor value start
    else if major == 4
    then (do
      count ← limit_elements cursor.limits value
      scan_items scan input (depth + 1) count cursor)
    else if major == 5
    then (do
      count ← limit_elements cursor.limits value
      scan_entries scan input (depth + 1) count none cursor)
    else scan cursor input (depth + 1)

abbrev pub too_deep : ℕ → Error
too_deep start = at (error limit "CBOR nesting limit exceeded") start

module _ ⦃half : Half⦄ where
  unfoldable pub scan_item : Scan → Scan
  scan_item scan cursor input depth =
      let start = cursor.position in
      do
        reject_if (ltb cursor.limits.max_depth depth) (too_deep start)
        (first, body) ← Decoder.u8 cursor
        let major = first / 32
        let additional = bit_and first 31
        if major == 7 then scan_simple body additional start else (do
          (value, rest) ← argument body additional
          scan_content scan major rest input depth value start)

  -- `scan`; `levels` bounds the nesting. Past `max_depth` levels the source stops with the error
  -- that ends the recursion here.
  unfoldable pub scan : ℕ → Scan
  scan zero cursor input depth = err (too_deep cursor.position)
  scan (suc levels) cursor input depth = scan_item (scan levels) cursor input depth

  -- `Value::from_bytes`.
  unfoldable pub from_bytes : Bytes → Limits → Result Value
  from_bytes bytes limits = do
    limit_bytes limits (length bytes)
    cursor ← Decoder.new bytes limits
    rest ← scan (suc limits.max_depth) cursor bytes 0
    Decoder.finish rest
    ok (record { bytes = bytes })
