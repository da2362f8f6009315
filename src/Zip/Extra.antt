-- ===== src/Zip/Extra.antt =====
-- janex-format/src/wrapper.rs: `expand_zip64`.
use janex.Base.{
  ℕ, ◌+◌, ◌-◌, ◌<◌, Bool, true, false, ◌&&◌, not, List, [], ◌∷◌, any, length, ltb, ◌==◌,
  if◌then◌else◌, Bytes, fold_be, arith, lt_wf, ◌≡◌, refl,
}
use janex.Failure.{Result, ok, invalid, ok_or, reject_if, ◌>>=◌, ◌>>◌}
use janex.Zip.{get_range, u16_at, Field, is_placeholder}
use mathlib.Core.List.{reverse}
use mathlib.Core.Logic.{dite}
use mathlib.Core.WellFounded.{Acc}
use native.Mathlib.Decide.{dec_lt}

-- The loop over `fields` inside one ZIP64 block.
unfoldable pub replace_fields : Bytes → ℕ → List Field → Result (List Field)
replace_fields value offset [] = ok []
replace_fields value offset (field ∷ fields) =
    if is_placeholder field
    then (do
      bytes ←
          ok_or (get_range value offset (offset + field.width))
            (invalid "missing ZIP64 extra-field value")
      replaced ← replace_fields value (offset + field.width) fields
      ok (record field { value = fold_be 0 (reverse bytes) } ∷ replaced))
    else (do replaced ← replace_fields value offset fields; ok (field ∷ replaced))

-- What one block makes of the fields and the flag `expanded`.
unfoldable pub expand_block : ℕ → Bytes → Bool → List Field → Result (Bool × List Field)
expand_block id value expanded fields =
    if id == 1
    then (do
      reject_if expanded (invalid "duplicate ZIP64 extra field")
      replaced ← replace_fields value 0 fields
      ok (true, replaced))
    else ok (expanded, fields)

pub block_advances :
    (n position left size : ℕ)
    → left ≡ n - position
    → position < n
    → n - (position + 4 + size) < left
block_advances n position left size eq h = omega arith

-- The loop over the blocks from `position` on.
unfoldable pub expand_blocks :
    (extra : Bytes) (position left : ℕ)
    → Acc ◌<◌ left
    → left ≡ length extra - position
    → Bool
    → List Field
    → Result (Bool × List Field)
expand_blocks extra position left (Acc.intro _ smaller) eq expanded fields =
    dite (dec_lt position (length extra))
      (λ inside.
        let id = u16_at extra position in
        let size = u16_at extra (position + 2) in
        do
          reject_if (ltb (length extra - position) 4) (invalid "truncated ZIP extra field")
          value ←
              ok_or (get_range extra (position + 4) (position + 4 + size))
                (invalid "ZIP extra field exceeds header")
          (seen, replaced) ← expand_block id value expanded fields
          let next = position + 4 + size
          expand_blocks extra next (length extra - next)
              (smaller _ (block_advances (length extra) position left size eq inside)) refl seen
              replaced)
      (λ _. ok (expanded, fields))

unfoldable pub expand_zip64 : Bytes → List Field → Result (List Field)
unfolding expand_blocks block_advances lt_wf dec_lt
expand_zip64 extra fields = do
  (expanded, replaced) ←
      expand_blocks extra 0 (length extra - 0) (lt_wf.apply (length extra - 0)) refl false fields
  reject_if (not expanded && any is_placeholder replaced) (invalid "missing ZIP64 extra field")
  ok replaced
