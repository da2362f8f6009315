-- ===== src/Names/Reading.antt =====
-- janex-format/src/strings.rs: what `read_nonempty` reads where an index, or the indices of a base
-- and a suffix, stand next.
use janex.Base.{
  ℕ, suc, ◌+◌, ◌<◌, ◌≤◌, ◌≡◌, ◌≢◌, refl, ◌∙◌, true, false, [], ◌∷◌, ◌++◌, ne→==, lt→ltb, length,
  length-append, Bytes, arith, append_assoc, is_empty, is_utf8, u64_mod, IsU64,
}
use janex.Failure.{ok}
use janex.Binary.{Limits, vec_write}
use janex.Binary.Decoder
use janex.Binary.Decoder.{Decoder}
use janex.Binary.Cursor.{cursor}
use janex.Binary.Uleb.{uleb}
use janex.Binary.Writing.{limit_bytes-ok}
use janex.Pool.{DataPool, get}
use janex.Pool.Codec.{read_entry, read_number, count-next}
use janex.Names.{text, concat_entries, read_inline, read_pooled, read_nonempty}

-- The entry at an index is a text.
pub record IsText (pool : DataPool) (index : ℕ) (value : Bytes) : Type 0 where
  pub entry : get pool index ≡ ok value
  pub utf8 : is_utf8 value ≡ true
  pub word : IsU64 index

text-entry : (pool : DataPool) (i : ℕ) (v : Bytes) → IsText pool i v → text pool i ≡ ok v
unfolding text
text-entry pool i v h = rw h.entry (rw h.utf8 refl)

pub not_empty : (v : Bytes) → 1 ≤ length v → is_empty v ≡ false
not_empty [] h = absurd (omega arith)
not_empty (b ∷ v) h = refl

module _ (limits : Limits) (pool : DataPool) where
  pub read_whole :
      (before after value : Bytes) (i : ℕ)
      → IsText pool i value
      → i ≢ 0
      → 1 ≤ length value
      → length value ≤ limits.max_bytes
      → IsU64 (length value)
      → length before + length (uleb 9 i) + length after < u64_mod
      → read_nonempty pool (cursor limits before (uleb 9 i ++ after))
        ≡ ok (value, cursor limits (before ++ uleb 9 i) after)
  unfolding read_nonempty read_pooled
  read_whole before after value i h nonzero some_byte fits size room =
      rw (read_number limits before after i h.word room) (
        rw (ne→== i 0 nonzero) (
          rw (text-entry pool i value h) (
            rw (limit_bytes-ok limits (length value) fits size) (
              rw (limit_bytes-ok limits (length value) fits size)
                (rw (not_empty value some_byte) refl)))))

  -- An entry of a name in parts.
  next_part :
      (before after value item : Bytes) (i left : ℕ)
      → IsText pool i item
      → length value + length item ≤ limits.max_bytes
      → IsU64 (length value + length item)
      → length before + length (uleb 9 i) + length after < u64_mod
      → concat_entries pool (suc left) value (cursor limits before (uleb 9 i ++ after))
        ≡ concat_entries pool left (value ++ item) (cursor limits (before ++ uleb 9 i) after)
  unfolding concat_entries
  next_part before after value item i left h fits size room =
      rw (read_number limits before after i h.word room) (
        rw (text-entry pool i item h) (
          rw (lt→ltb (length value + length item) u64_mod size)
            (rw (limit_bytes-ok limits (length value + length item) fits size) refl)))

  zero_next :
      (before after : Bytes)
      → length before + 1 + length after < u64_mod
      → Decoder.vuint (cursor limits before (0 ∷ after))
        ≡ ok (0, cursor limits (before ++ (0 ∷ [])) after)
  unfolding uleb
  zero_next before after room = read_number limits before after 0 (omega arith) (omega arith)

  empty_next :
      (before after : Bytes)
      → length before + 1 + length after < u64_mod
      → Decoder.string (cursor limits before (0 ∷ after))
        ≡ ok ([], cursor limits (before ++ (0 ∷ [])) after)
  unfolding Decoder.string uleb is_utf8
  empty_next before after room =
      rw (read_entry limits before [] after (omega arith) (omega arith)) refl

  two_next :
      (before after : Bytes)
      → 2 ≤ limits.max_elements
      → length before + 1 + length after < u64_mod
      → Decoder.count (cursor limits before (2 ∷ after))
        ≡ ok (2, cursor limits (before ++ (2 ∷ [])) after)
  unfolding uleb
  two_next before after few room = count-next limits before 2 after (omega arith) few (omega arith)

  -- A base and a suffix, one after the other.
  pub read_parts :
      (before after base suffix : Bytes) (i j : ℕ)
      → IsText pool i base
      → IsText pool j suffix
      → 1 ≤ length base
      → length base + length suffix ≤ limits.max_bytes
      → IsU64 (length base + length suffix)
      → 2 ≤ limits.max_elements
      → length before + 3 + length (uleb 9 i) + length (uleb 9 j) + length after < u64_mod
      → read_nonempty pool (cursor limits before (0 ∷ 0 ∷ 2 ∷ (uleb 9 i ++ (uleb 9 j ++ after))))
        ≡ ok (
          base ++ suffix,
          cursor limits (((before ++ (0 ∷ 0 ∷ 2 ∷ [])) ++ uleb 9 i) ++ uleb 9 j) after,
        )
  unfolding read_nonempty read_inline concat_entries
  read_parts before after base suffix i j hi hj some_byte fits size few room =
      let u = uleb 9 i in
      let v = uleb 9 j in
      let rest = u ++ (v ++ after) in
      let one = before ++ (0 ∷ []) in
      let two = one ++ (0 ∷ []) in
      let three = two ++ (2 ∷ []) in
      let sum1 = length-append before (0 ∷ []) in
      let sum2 = length-append one (0 ∷ []) in
      let sum3 = length-append two (2 ∷ []) in
      let sum4 = length-append u (v ++ after) in
      let sum5 = length-append v after in
      let sum6 = length-append three u in
      let total = length-append base suffix in
      let start : three ≡ before ++ (0 ∷ 0 ∷ 2 ∷ []) =
        append_assoc one (0 ∷ []) (2 ∷ []) ∙ append_assoc before (0 ∷ []) (0 ∷ 2 ∷ []) in
      rw (zero_next before (0 ∷ 2 ∷ rest) (omega (arith, sum4, sum5))) (
        rw (empty_next one (2 ∷ rest) (omega (arith, sum1, sum4, sum5))) (
          rw (two_next two rest few (omega (arith, sum1, sum2, sum4, sum5))) (
            rw
              (next_part three (v ++ after) [] base i 1 hi (omega arith) (omega arith)
                (omega (arith, sum1, sum2, sum3, sum5)))
              (rw
                (next_part (three ++ u) after base suffix j 0 hj fits size
                  (omega (arith, sum1, sum2, sum3, sum6)))
                (rw
                  (limit_bytes-ok limits (length (base ++ suffix)) (omega (arith, total))
                    (omega (arith, total)))
                  (rw (not_empty (base ++ suffix) (omega (arith, total)))
                    (λ t. ok (base ++ suffix, cursor limits ((start t ++ u) ++ v) after))))))))
