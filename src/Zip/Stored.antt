-- ===== src/Zip/Stored.antt =====
-- janex-format/src/wrapper.rs: `expand_zip64` on the extra field that a writer makes of numbers.
use janex.Base.{
  ℕ, ◌+◌, ◌-◌, ◌/◌, ◌%◌, ◌^◌, ◌≤◌, ◌<◌, min, Bool, true, false, ◌≡◌, refl, sym, ap, ◌∙◌, subst,
  some, List, [], ◌∷◌, ◌++◌, map, append_assoc, append-nil, All, length, length-append, take,
  take-append, drop-append, leb, ltb, ◌==◌, if◌then◌else◌, Bytes, fold_be, fold_be-eq, be_bytes,
  length-be_bytes, be_bytes-IsByte, be_num-be_bytes, arith, lt_wf, inl, inr, Bool-cases,
}
use janex.Failure.{ok}
use janex.Binary.Decoder.{slice, from_le_bytes}
use janex.Zip.{get_range, u16_at, Field}
use janex.Zip.Extra.{replace_fields, expand_block, expand_blocks, expand_zip64, block_advances}
use mathlib.Core.Logic.{dite}
use mathlib.Core.List.{reverse, reverse_aux, reverse-reverse}
use mathlib.Core.WellFounded.{Acc}
use native.Mathlib.Decide.{dec_lt}
use native.Mathlib.Nat.{pow-le-pow_right}

-- What a header holds of a number: the placeholder when it is too large.
abbrev pub stored : Field → Field
stored field = record field { value = min field.value field.placeholder }

-- The numbers for which a header holds the placeholder, little-endian, in the order of the fields.
abbrev pub payload : List Field → Bytes
payload [] = []
payload (field ∷ fields) =
    let rest = payload fields in
    if leb field.placeholder field.value
    then reverse (be_bytes field.width field.value) ++ rest
    else rest

-- The ZIP64 block: the identifier 1, the size and the numbers.
abbrev pub zip64_extra : List Field → Bytes
zip64_extra fields =
    let size = length (payload fields) in 1 ∷ 0 ∷ (size % 256) ∷ (size / 256) ∷ payload fields

abbrev pub IsStorable : Field → Type 0
IsStorable field = (field.width ≤ 8) × (field.value < 256 ^ field.width)

length-reverse_aux : (bs cs : Bytes) → length (reverse_aux bs cs) ≡ length bs + length cs
length-reverse_aux [] cs = omega arith
length-reverse_aux (b ∷ bs) cs = omega (arith, length-reverse_aux bs (b ∷ cs))

length-reverse : (bs : Bytes) → length (reverse bs) ≡ length bs
length-reverse bs = omega (arith, length-reverse_aux bs [])

number :
    (width value : ℕ) → width ≤ 8 → value < 256 ^ width → fold_be 0 (be_bytes width value) ≡ value
number width value narrow fits =
    let same = be_num-be_bytes width value fits in
    let bound : 256 ^ width ≤ 256 ^ 8 = pow-le-pow_right {n = 256} (omega arith) {j = 8} narrow in
    fold_be-eq 0 (be_bytes width value) (be_bytes-IsByte width value fits)
      (omega (arith, same, bound))
    ∙ omega (arith, same)

get_range-middle :
    (before middle after : Bytes) (width : ℕ)
    → length middle ≡ width
    → get_range (before ++ (middle ++ after)) (length before) (length before + width) ≡ some middle
get_range-middle before middle after width e =
    let inside : length before + width - length before ≡ length middle = omega arith in
    let cut : slice (before ++ (middle ++ after)) (length before) (length before + width) ≡ middle =
      (λ i. take (inside i) (drop-append before (middle ++ after) i)) ∙ take-append middle after in
    ground (arith, length-append before (middle ++ after), length-append middle after, cut)

replace_large :
    (value : Bytes) (offset : ℕ) (field : Field) (chunk : Bytes) (fields replaced : List Field)
    → field.placeholder ≤ field.value
    → get_range value offset (offset + field.width) ≡ some chunk
    → fold_be 0 (reverse chunk) ≡ field.value
    → replace_fields value (offset + field.width) fields ≡ ok replaced
    → replace_fields value offset (stored field ∷ fields) ≡ ok (field ∷ replaced)
unfolding replace_fields
replace_large value offset field chunk fields replaced large here number rest =
    rw (is_held, here, rest) (λ i. ok (record field { value = number i } ∷ replaced))
  where
    is_held : (min field.value field.placeholder == field.placeholder) ≡ true
    is_held = ground arith

replace_small :
    (value : Bytes) (offset : ℕ) (field : Field) (fields replaced : List Field)
    → field.value < field.placeholder
    → replace_fields value offset fields ≡ ok replaced
    → replace_fields value offset (stored field ∷ fields) ≡ ok (field ∷ replaced)
unfolding replace_fields
replace_small value offset field fields replaced small rest =
    rw (is_shown, rest) (λ i. ok (record field { value = exact i } ∷ replaced))
  where
    is_shown : (min field.value field.placeholder == field.placeholder) ≡ false
    is_shown = ground arith

    exact : min field.value field.placeholder ≡ field.value
    exact = omega arith

over :
    (before : Bytes) (fields replaced : List Field) {value value' : Bytes}
    → value ≡ value'
    → replace_fields (before ++ value') (length before) fields ≡ ok replaced
    → replace_fields (before ++ value) (length before) fields ≡ ok replaced
over before fields replaced e h =
    ap (λ (u : Bytes). replace_fields (before ++ u) (length before) fields) e ∙ h

replace_fields-payload :
    (before : Bytes) (fields : List Field)
    → All IsStorable fields
    → replace_fields (before ++ payload fields) (length before) (map stored fields) ≡ ok fields
unfolding replace_fields
replace_fields-payload before [] h = refl
replace_fields-payload before (field ∷ fields) h =
    let chunk = reverse (be_bytes field.width field.value) in
    let wide : length chunk ≡ field.width =
      length-reverse (be_bytes field.width field.value) ∙ length-be_bytes field.width field.value in
    let after =
      replace_fields-payload (before ++ reverse (be_bytes field.width field.value)) fields h.1 in
    elim (Bool-cases (leb field.placeholder field.value)) [
      | inl large ↦
          over before (stored field ∷ map stored fields) (field ∷ fields)
            (λ i. if large i then chunk ++ payload fields else payload fields)
            (replace_large (before ++ (chunk ++ payload fields)) (length before) field chunk
              (map stored fields) fields (ground arith)
              (get_range-middle before chunk (payload fields) field.width wide)
              (ap (fold_be 0) (reverse-reverse (be_bytes field.width field.value))
                ∙ number field.width field.value h.0.0 h.0.1)
              (subst
                (λ (n : ℕ).
                  replace_fields (before ++ (chunk ++ payload fields)) n (map stored fields)
                  ≡ ok fields)
                (length-append before chunk ∙ ap (λ (t : ℕ). length before + t) wide)
                (subst
                  (λ (t : Bytes).
                    replace_fields t (length (before ++ chunk)) (map stored fields) ≡ ok fields)
                  (append_assoc before chunk (payload fields)) after)))
      | inr small ↦
          over before (stored field ∷ map stored fields) (field ∷ fields)
            (λ i. if small i then chunk ++ payload fields else payload fields)
            (replace_small (before ++ payload fields) (length before) field (map stored fields)
              fields (ground arith) (replace_fields-payload before fields h.1))
    ]

dite_yes {ℓ κ} :
    {P : Type ℓ} {C : Type κ} (d : Dec P) (f : P → C) (g : ¬ P → C) (c : C)
    → P
    → ((h : P) → f h ≡ c)
    → dite d f g ≡ c
dite_yes (yes p) f g c h same = same p
dite_yes (no n) f g c h same = absurd (n h)

dite_no {ℓ κ} :
    {P : Type ℓ} {C : Type κ} (d : Dec P) (f : P → C) (g : ¬ P → C) (c : C)
    → ¬ P
    → ((h : ¬ P) → g h ≡ c)
    → dite d f g ≡ c
dite_no (yes p) f g c h same = absurd (h p)
dite_no (no n) f g c h same = same n

expand_blocks-end :
    (extra : Bytes) (position left : ℕ) (w : Acc ◌<◌ left) (eq : left ≡ length extra - position)
    (expanded : Bool) (fields : List Field)
    → length extra ≤ position
    → expand_blocks extra position left w eq expanded fields ≡ ok (expanded, fields)
unfolding expand_blocks
expand_blocks-end extra position left (Acc.intro _ smaller) eq expanded fields h =
    dite_no (dec_lt position (length extra)) _ _ _ (omega arith) λ _. refl

expand_blocks-only :
    (extra : Bytes) (left : ℕ) (w : Acc ◌<◌ left) (eq : left ≡ length extra - 0) (value : Bytes)
    (fields replaced : List Field)
    → u16_at extra 0 ≡ 1
    → length extra ≡ 4 + u16_at extra 2
    → get_range extra 4 (4 + u16_at extra 2) ≡ some value
    → replace_fields value 0 fields ≡ ok replaced
    → expand_blocks extra 0 left w eq false fields ≡ ok (true, replaced)
unfolding expand_blocks expand_block
expand_blocks-only extra left (Acc.intro _ smaller) eq value fields replaced id whole here done =
    dite_yes (dec_lt 0 (length extra)) _ _ _ (omega arith) λ inside.
      rw (is_whole, here, id, done)
        (expand_blocks-end extra (4 + u16_at extra 2) (length extra - (4 + u16_at extra 2))
          (smaller _ (block_advances (length extra) 0 left (u16_at extra 2) eq inside)) refl true
          replaced (omega arith))
  where
    is_whole : ltb (length extra - 0) 4 ≡ false
    is_whole = ground arith

id_field : (fields : List Field) → u16_at (zip64_extra fields) 0 ≡ 1
unfolding u16_at from_le_bytes
id_field fields = refl

size_field : (fields : List Field) → u16_at (zip64_extra fields) 2 ≡ length (payload fields)
unfolding u16_at from_le_bytes
size_field fields = omega arith

whole_payload :
    (a b c d : ℕ) (bytes : Bytes)
    → get_range (a ∷ b ∷ c ∷ d ∷ bytes) 4 (4 + length bytes) ≡ some bytes
whole_payload a b c d bytes =
    ap (λ (t : Bytes). get_range (a ∷ b ∷ c ∷ d ∷ t) 4 (4 + length bytes)) (sym (append-nil bytes))
    ∙ get_range-middle (a ∷ b ∷ c ∷ d ∷ []) bytes [] (length bytes) refl

-- On the ZIP64 block that holds the numbers too large for their header fields, `expand_zip64`
-- turns the header fields back into the numbers, when each number fits its width of at most eight
-- bytes and the size of the block fits 16 bits.
pub expand_zip64-stored :
    (fields : List Field)
    → All IsStorable fields
    → length (payload fields) < 65536
    → expand_zip64 (zip64_extra fields) (map stored fields) ≡ ok fields
unfolding expand_zip64
expand_zip64-stored fields h small =
    let extra = zip64_extra fields in
    let size = size_field fields in
    let run =
      expand_blocks-only extra (length extra - 0) (lt_wf.apply (length extra - 0)) refl
        (payload fields) (map stored fields) fields (id_field fields) (omega (arith, size))
        (rw size (
          whole_payload 1 0 (length (payload fields) % 256) (length (payload fields) / 256)
            (payload fields)))
        (replace_fields-payload [] fields h) in
    rw run refl
