-- ===== src/Names.antt =====
-- janex-format/src/strings.rs: names as entries of a pool, as texts of their own, or as several
-- entries one after the other.
mod Tests
pub mod Reading
pub mod RoundTrip
use janex.Base.{
  ℕ, zero, suc, ◌+◌, Bool, not, Option, none, some, [], ◌∷◌, ◌++◌, ltb, ◌==◌, if◌then◌else◌, length,
  Bytes, ascii, is_empty, is_utf8, strip_suffix, checked_add,
}
use janex.Failure.{Result, ok, err, invalid, reject_if, ok_or, if_some, ◌>>=◌, ◌>>◌}
use janex.Binary.{Limits, limit_bytes, vec_write, write_vuint}
use janex.Binary.Decoder
use janex.Binary.Decoder.{Decoder}
use janex.Pool.{DataPool, DataPoolBuilder, get, find, intern}

unfoldable pub text : DataPool → ℕ → Result Bytes
text pool index = do
  bytes ← get pool index
  reject_if (not (is_utf8 bytes)) (invalid "resource name is not valid UTF-8")
  ok bytes

-- The loop over the entries that are put together.
unfoldable pub concat_entries : DataPool → ℕ → Bytes → Decoder → Result (Bytes × Decoder)
unfolding text
concat_entries pool zero value decoder = ok (value, decoder)
concat_entries pool (suc left) value decoder = do
  (index, rest) ← Decoder.vuint decoder
  item ← text pool index
  total ←
      ok_or (checked_add (length value) (length item))
        (invalid "concatenated string length overflow")
  limit_bytes rest.limits total
  concat_entries pool left (value ++ item) rest

-- A name with index zero: it stands inline, or in parts.
unfoldable pub read_inline : DataPool → Decoder → Result (Bytes × Decoder)
unfolding concat_entries
read_inline pool decoder = do
  (inline, rest) ← Decoder.string decoder
  if not (is_empty inline) then ok (inline, rest) else (do
    (count, parts) ← Decoder.count rest
    reject_if (ltb count 2) (invalid "string concatenation requires at least two entries")
    concat_entries pool count [] parts)

unfoldable pub read_pooled : DataPool → ℕ → Decoder → Result (Bytes × Decoder)
unfolding text
read_pooled pool index decoder = do
  value ← text pool index
  limit_bytes decoder.limits (length value)
  ok (value, decoder)

-- `read_nonempty`.
unfoldable pub read_nonempty : DataPool → Decoder → Result (Bytes × Decoder)
unfolding read_inline read_pooled
read_nonempty pool decoder = do
  (index, rest) ← Decoder.vuint decoder
  (value, after) ← if index == 0 then read_inline pool rest else read_pooled pool index rest
  limit_bytes after.limits (length value)
  reject_if (is_empty value) (invalid "resolved name must not be empty")
  ok (value, after)

-- The index of what stands before `.class`, when it is not empty and in the pool.
abbrev pub filter_find : DataPoolBuilder → Option Bytes → Option ℕ
filter_find builder none = none
filter_find builder (some base) = if is_empty base then none else find builder base

unfoldable pub shared_base : DataPoolBuilder → Bytes → Option ℕ
shared_base builder value = filter_find builder (strip_suffix (ascii ".class") value)

-- `write_nonempty`.
unfoldable pub write_nonempty : DataPoolBuilder → Bytes → Bytes → Result (Bytes × DataPoolBuilder)
unfolding shared_base
write_nonempty builder value bytes = do
  reject_if (is_empty value) (invalid "name must not be empty")
  if_some (find builder value)
      (λ index. do written ← write_vuint index bytes; ok (written, builder))
      (if_some (shared_base builder value)
        (λ index. do
          let suffix = (intern (ascii ".class") builder).0
          let extended = (intern (ascii ".class") builder).1
          base_written ← write_vuint index (bytes ++ (0 ∷ 0 ∷ 2 ∷ []))
          written ← write_vuint suffix base_written
          ok (written, extended))
        (do
          written ← write_vuint (intern value builder).0 bytes
          ok (written, (intern value builder).1)))
