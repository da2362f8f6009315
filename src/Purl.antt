-- ===== src/Purl.antt =====
-- janex-format/src/purl.rs: `token`, `literal`, `component`, `hex` and `segments`.
pub mod Canonical
pub mod Paths
mod Tests
use janex.Base.{
  ℕ, ◌+◌, ◌-◌, ◌*◌, Bool, true, false, not, ◌&&◌, ◌||◌, Option, none, some, List, [], ◌∷◌, ◌++◌,
  all, any, leb, ◌==◌, if◌then◌else◌, Bytes, ascii, bytes_eq, is_utf8, is_digit, is_upper, is_lower,
  is_alphanumeric, is_empty, split,
}
use janex.Failure.{Result, ok, err, invalid, ok_or, reject_if, ◌>>=◌, ◌>>◌}

abbrev pub starts_lower : Bytes → Bool
starts_lower [] = false
starts_lower (b ∷ bs) = is_lower b

-- `token(value, qualifier)`.
unfoldable pub token : Bytes → Bool → Result (Unit {0})
token value qualifier =
    reject_if
      (not (starts_lower value)
        || not (
            all (λ b. is_lower b || is_digit b || b == b'.' || b == b'-' || qualifier && b == b'_')
              value))
      (invalid "invalid Package URL type or qualifier key")

unfoldable pub literal : ℕ → Bool
literal byte =
    is_alphanumeric byte
    || byte == b'.'
    || byte == b'-'
    || byte == b'_'
    || byte == b'~'
    || byte == b':'

unfoldable pub hex : ℕ → Option ℕ
hex byte =
    if is_digit byte
    then some (byte - b'0')
    else if leb b'A' byte && leb byte b'F'
    then some (byte - b'A' + 10)
    else none

-- What of an escape has been read when the next byte of the input is taken.
pub data Escape : Type 0 where
  outside : Escape
  after_percent : Escape
  after_high : ℕ → Escape

-- The loop of `component` over the bytes that are left.
unfoldable pub decode_bytes : Escape → Bytes → Result Bytes
decode_bytes outside [] = ok []
decode_bytes after_percent [] = err (invalid "invalid Package URL escape")
decode_bytes (after_high high) [] = err (invalid "invalid Package URL escape")
decode_bytes outside (byte ∷ input) =
    let escaped = decode_bytes after_percent input in
    let rest = decode_bytes outside input in
    if byte == b'%'
    then escaped
    else if literal byte
    then (do bytes ← rest; ok (byte ∷ bytes))
    else err (invalid "unescaped Package URL component character")
decode_bytes after_percent (byte ∷ input) = do
  high ← ok_or (hex byte) (invalid "invalid Package URL escape")
  decode_bytes (after_high high) input
decode_bytes (after_high high) (byte ∷ input) = do
  low ← ok_or (hex byte) (invalid "invalid Package URL escape")
  reject_if (literal (high * 16 + low)) (invalid "unnecessary Package URL escape")
  bytes ← decode_bytes outside input
  ok ((high * 16 + low) ∷ bytes)

unfoldable pub component : Bytes → Result Bytes
component value = do
  reject_if (is_empty value) (invalid "empty Package URL component")
  bytes ← decode_bytes outside value
  reject_if (not (is_utf8 bytes)) (invalid "Package URL component is not UTF-8")
  ok bytes

-- The loop of `segments` over the parts.
unfoldable pub decode_parts : List Bytes → Bool → Result (List Bytes)
decode_parts [] subpath = ok []
decode_parts (part ∷ parts) subpath = do
  decoded ← component part
  reject_if
      (any (λ b. b == b'/') decoded
        || subpath && (bytes_eq decoded (ascii ".") || bytes_eq decoded (ascii "..")))
      (invalid "invalid Package URL path segment")
  rest ← decode_parts parts subpath
  ok (decoded ∷ rest)

-- `parts.join("/")`.
abbrev pub join_slash : List Bytes → Bytes
join_slash [] = []
join_slash (part ∷ []) = part
join_slash (part ∷ next ∷ parts) = part ++ (b'/' ∷ join_slash (next ∷ parts))

unfoldable pub segments : Bytes → Bool → Result Bytes
segments value subpath = do parts ← decode_parts (split b'/' value) subpath; ok (join_slash parts)
