-- ===== src/Zip/Expansion.antt =====
-- janex-format/src/wrapper.rs: what `expand_zip64` does to the fields.
use janex.Base.{
  ℕ, ◌+◌, ◌-◌, ◌<◌, ◌≤◌, Bool, true, false, ◌&&◌, ◌||◌, not, ◌≡◌, ◌≢◌, ◌⊎◌, inl, inr, refl, sym, ap,
  ◌∙◌, subst, some, List, [], ◌∷◌, any, length, ltb, ◌==◌, ==→eq, Bytes, fold_be, arith, lt_wf,
}
use janex.Failure.{
  Ensures, holds, Ensures-bind, Ensures-weaken, Ensures-if, Ensures-reject_if, Ensures-dite,
  Ensures-ok_or, invalid,
}
use janex.Binary.Decoder.{slice}
use janex.Zip.{get_range, u16_at, Field, is_placeholder}
use janex.Zip.Extra.{replace_fields, expand_block, expand_blocks, expand_zip64, block_advances}
use mathlib.Core.List.{reverse}
use mathlib.Core.WellFounded.{Acc}
use native.Mathlib.Decide.{dec_lt}

-- Place by place, a field that is not a placeholder is as it was.
abbrev pub Keeps : List Field → List Field → Type 0
Keeps [] [] = Unit
Keeps [] (g ∷ gs) = ⊥
Keeps (f ∷ fs) [] = ⊥
Keeps (f ∷ fs) (g ∷ gs) = (is_placeholder f ≡ false → g ≡ f) × Keeps fs gs

Keeps-refl : (fs : List Field) → Keeps fs fs
Keeps-refl [] = tt
Keeps-refl (f ∷ fs) = (λ _. refl, Keeps-refl fs)

Keeps-trans : (fs gs hs : List Field) → Keeps fs gs → Keeps gs hs → Keeps fs hs
Keeps-trans [] [] [] a b = tt
Keeps-trans [] [] (h ∷ hs) a b = b
Keeps-trans [] (g ∷ gs) hs a b = absurd a
Keeps-trans (f ∷ fs) [] hs a b = absurd a
Keeps-trans (f ∷ fs) (g ∷ gs) [] a b = b
Keeps-trans (f ∷ fs) (g ∷ gs) (h ∷ hs) a b =
    (λ plain. b.0 (ap is_placeholder (a.0 plain) ∙ plain) ∙ a.0 plain, Keeps-trans fs gs hs a.1 b.1)

-- The little-endian number of `width` bytes at a place.
abbrev pub number_at : Bytes → ℕ → ℕ → ℕ
number_at bytes offset width = fold_be 0 (reverse (slice bytes offset (offset + width)))

-- The placeholders among the fields are replaced by the numbers that stand in `value` from an
-- offset on, one behind the other in the order of the fields; the others stay.
pub data Replaces (value : Bytes) : ℕ → List Field → List Field → Type 0 where
  no_field : {offset : ℕ} → Replaces value offset [] []
  kept :
      {offset : ℕ} {field : Field} {fs gs : List Field}
      → is_placeholder field ≡ false
      → Replaces value offset fs gs
      → Replaces value offset (field ∷ fs) (field ∷ gs)
  replaced :
      {offset : ℕ} {field : Field} {fs gs : List Field}
      → is_placeholder field ≡ true
      → offset + field.width ≤ length value
      → Replaces value (offset + field.width) fs gs
      → Replaces value offset
          (field ∷ fs)
          (record field { value = number_at value offset field.width } ∷ gs)

-- Where the block at `position` of an extra field ends: an identifier, a size, and so many bytes.
abbrev pub block_end : Bytes → ℕ → ℕ
block_end extra position = position + 4 + u16_at extra (position + 2)

-- The blocks from a place of the extra field on fill it to its end; at most one of them, counted
-- with those before, has the identifier 1, and the fields are replaced from it.
pub data Blocks (extra : Bytes) : ℕ → Bool → List Field → Bool → List Field → Type 0 where
  no_block :
      {position : ℕ} {seen : Bool} {fs : List Field}
      → length extra ≤ position
      → Blocks extra position seen fs seen fs
  other_block :
      {position : ℕ} {seen last : Bool} {fs gs : List Field}
      → block_end extra position ≤ length extra
      → u16_at extra position ≢ 1
      → Blocks extra (block_end extra position) seen fs last gs
      → Blocks extra position seen fs last gs
  zip64_block :
      {position : ℕ} {last : Bool} {fs gs hs : List Field}
      → block_end extra position ≤ length extra
      → u16_at extra position ≡ 1
      → Replaces (slice extra (position + 4) (block_end extra position)) 0 fs gs
      → Blocks extra (block_end extra position) true gs last hs
      → Blocks extra position false fs last hs

-- The fields with their placeholders replaced from the one ZIP64 block of the extra field, without
-- which there may be no placeholder.
pub record IsExpanded (extra : Bytes) (fields expanded : List Field) : Type 0 where
  pub seen : Bool
  pub blocks : Blocks extra 0 false fields seen expanded
  pub complete : (seen || not (any is_placeholder expanded)) ≡ true

Replaces-Keeps :
    {value : Bytes} {offset : ℕ} {fs gs : List Field} → Replaces value offset fs gs → Keeps fs gs
Replaces-Keeps no_field = tt
Replaces-Keeps (kept plain rest) = (λ _. refl, Replaces-Keeps rest)
Replaces-Keeps (replaced held fits rest) = (λ plain. cc, Replaces-Keeps rest)

Blocks-Keeps :
    {extra : Bytes} {position : ℕ} {seen last : Bool} {fs gs : List Field}
    → Blocks extra position seen fs last gs
    → Keeps fs gs
Blocks-Keeps {fs = fs} (no_block h) = Keeps-refl fs
Blocks-Keeps (other_block fits id rest) = Blocks-Keeps rest
Blocks-Keeps (zip64_block {fs = fs} {gs = gs} {hs = hs} fits id block rest) =
    Keeps-trans fs gs hs (Replaces-Keeps block) (Blocks-Keeps rest)

pub IsExpanded-Keeps :
    (extra : Bytes) (fields expanded : List Field)
    → IsExpanded extra fields expanded
    → Keeps fields expanded
IsExpanded-Keeps extra fields expanded h = Blocks-Keeps h.blocks

-- What `get_range` gives.
abbrev IsRange : Bytes → ℕ → ℕ → Bytes → Type 0
IsRange bytes start end part = (part ≡ slice bytes start end) × (end ≤ length bytes)

get_range-IsRange :
    (bytes : Bytes) (start end : ℕ) (part : Bytes)
    → get_range bytes start end ≡ some part
    → IsRange bytes start end part
get_range-IsRange bytes start end part h = ground arith

replace_fields-Replaces :
    (value : Bytes) (offset : ℕ) (fields : List Field)
    → Ensures (Replaces value offset fields) (replace_fields value offset fields)
unfolding replace_fields
replace_fields-Replaces value offset [] = holds no_field
replace_fields-Replaces value offset (field ∷ fields) =
    Ensures-if (is_placeholder field)
      (λ held.
        Ensures-bind
          (Ensures-ok_or (get_range value offset (offset + field.width))
            (invalid "missing ZIP64 extra-field value")
            (get_range-IsRange value offset (offset + field.width)))
          λ bytes part.
            Ensures-bind (replace_fields-Replaces value (offset + field.width) fields) λ rest more.
              holds (
                subst
                  (λ (t : Bytes).
                    Replaces value offset (field ∷ fields)
                      (record field { value = fold_be 0 (reverse t) } ∷ rest))
                  (sym part.0) (replaced held part.1 more)))
      (λ plain.
        Ensures-bind (replace_fields-Replaces value offset fields)
          λ rest more. holds (kept plain more))

-- What one block does.
abbrev Block : ℕ → Bytes → Bool → List Field → Bool × List Field → Type 0
Block id value seen fields out =
    ((id ≢ 1) × (out.0 ≡ seen) × (out.1 ≡ fields))
    ⊎ ((id ≡ 1) × (seen ≡ false) × (out.0 ≡ true) × Replaces value 0 fields out.1)

expand_block-Block :
    (id : ℕ) (value : Bytes) (seen : Bool) (fields : List Field)
    → Ensures (Block id value seen fields) (expand_block id value seen fields)
unfolding expand_block
expand_block-Block id value seen fields =
    Ensures-if (id == 1)
      (λ one. Ensures-reject_if seen (invalid "duplicate ZIP64 extra field") λ fresh.
        Ensures-bind (replace_fields-Replaces value 0 fields)
          λ rest more. holds (inr (==→eq id 1 one, fresh, refl, more)))
      (λ other. holds (inl (λ e. ground arith, refl, refl)))

expand_blocks-Blocks :
    (extra : Bytes) (position left : ℕ) (w : Acc ◌<◌ left) (eq : left ≡ length extra - position)
    (seen : Bool) (fields : List Field)
    → Ensures
        (λ out. Blocks extra position seen fields out.0 out.1)
        (expand_blocks extra position left w eq seen fields)
unfolding expand_blocks
expand_blocks-Blocks extra position left (Acc.intro _ smaller) eq seen fields =
    Ensures-dite (dec_lt position (length extra))
      (λ inside.
        let next = block_end extra position in
        Ensures-reject_if (ltb (length extra - position) 4) (invalid "truncated ZIP extra field")
          λ _.
            Ensures-bind
              (Ensures-ok_or (get_range extra (position + 4) next)
                (invalid "ZIP extra field exceeds header")
                (get_range-IsRange extra (position + 4) next))
              λ value part.
                Ensures-bind (expand_block-Block (u16_at extra position) value seen fields)
                  λ out block.
                    Ensures-weaken
                      (expand_blocks-Blocks extra next (length extra - next)
                        (smaller _ (
                          block_advances (length extra) position left (u16_at extra (position + 2))
                            eq inside))
                        refl out.0 out.1)
                      λ last more. joined value part out last block more)
      (λ outside. holds (no_block (omega (arith, outside))))
  where
    joined :
        (value : Bytes)
        → IsRange extra (position + 4) (block_end extra position) value
        → (out last : Bool × List Field) → Block (u16_at extra position) value seen fields out
        → Blocks extra (block_end extra position) out.0 out.1 last.0 last.1
        → Blocks extra position seen fields last.0 last.1
    joined value part (seen', fields') last (inl (id, same, unchanged)) more =
        other_block part.1 id (
          subst (λ (t : Bool). Blocks extra (block_end extra position) t fields last.0 last.1) same
            (subst
              (λ (t : List Field). Blocks extra (block_end extra position) seen' t last.0 last.1)
              unchanged more))
    joined value part (seen', fields') last (inr (id, fresh, now, block)) more =
        subst (λ (t : Bool). Blocks extra position t fields last.0 last.1) (sym fresh)
          (zip64_block part.1 id (subst (λ (t : Bytes). Replaces t 0 fields fields') part.0 block) (
            subst (λ (t : Bool). Blocks extra (block_end extra position) t fields' last.0 last.1)
              now more))

pub expand_zip64-IsExpanded :
    (extra : Bytes) (fields : List Field)
    → Ensures (IsExpanded extra fields) (expand_zip64 extra fields)
unfolding expand_zip64
expand_zip64-IsExpanded extra fields =
    Ensures-bind
      (expand_blocks-Blocks extra 0 (length extra - 0) (lt_wf.apply (length extra - 0)) refl false
        fields)
      λ out blocks.
        Ensures-reject_if (not out.0 && any is_placeholder out.1)
          (invalid "missing ZIP64 extra field")
          λ complete. holds (record { seen = out.0; blocks = blocks; complete = ground arith })
