-- ===== src/Binary/Uleb.antt =====
-- janex-format/src/binary.rs: the numbers of `Decoder::vuint` against plain arithmetic.
use janex.Base.{
  true, false, ◌==◌, ==→eq, ==→ne, ◌&&◌, ℕ, zero, suc, ◌+◌, ◌*◌, ◌/◌, ◌%◌, ◌^◌, ◌≤◌, ◌<◌, ◌≡◌, refl,
  sym, ap, ◌∙◌, Bool-cases, inl, inr, [], ◌∷◌, ◌++◌, length, length-append, ltb, if◌then◌else◌,
  Bytes, arith, u64_mod, IsU64, All, IsByte, mask7, bit7, bit_or_high, bit_and, subst,
}
use janex.Failure.{Ensures, holds, failed, Ensures-weaken}
use janex.Binary.{Limits, vec_write}
use janex.Binary.Decoder
use janex.Binary.Decoder.{Decoder, add_group}
use janex.Binary.Cursor.{cursor, Addressable, Reads, u8_next, u8_end, Reads-after}
use native.Mathlib.Numerals.{towards_suc}
use native.Mathlib.Nat.{le_trans, pow-le-pow_right, mul-le-mul, mul-le-mul_right}

-- The number that a field of seven-bit groups stands for, lowest group first.
abbrev pub uleb_value : Bytes → ℕ
uleb_value [] = 0
uleb_value (b ∷ bs) = b % 128 + 128 * uleb_value bs

-- Bit 7 is set on every byte of the field but the last.
abbrev pub IsTerminated : Bytes → Type 0
IsTerminated [] = ⊥
IsTerminated (b ∷ []) = b < 128
IsTerminated (b ∷ c ∷ bs) = (128 ≤ b) × IsTerminated (c ∷ bs)

-- The shortest form of numbers below 128 ^ (k + 1).
unfoldable pub uleb : ℕ → ℕ → Bytes
uleb zero v = v ∷ []
uleb (suc k) v = let rest = uleb k (v / 128) in if ltb v 128 then v ∷ [] else (v % 128 + 128) ∷ rest

seven_more : (s : ℕ) → 2 ^ (s + 7) ≡ 128 * 2 ^ s
seven_more s = simp towards_suc (omega arith)

pub next_scale : (index : ℕ) → 2 ^ ((index + 1) * 7) ≡ 128 * 2 ^ (index * 7)
next_scale index =
    ap (λ (t : ℕ). 2 ^ t) {x = (index + 1) * 7} {y = index * 7 + 7} (omega arith)
    ∙ seven_more (index * 7)

-- One more group lands above the bits that are there.
pub add_group-eq :
    (value byte index : ℕ)
    → value < 2 ^ (index * 7)
    → byte % 128 * 2 ^ (index * 7) < u64_mod
    → add_group value byte index ≡ value + byte % 128 * 2 ^ (index * 7)
add_group-eq value byte index h fits =
    ground (arith, mask7 byte, bit_or_high (index * 7) value (byte % 128) h)

scale_le : (index bound : ℕ) → index ≤ bound → 2 ^ (index * 7) ≤ 2 ^ (bound * 7)
scale_le index bound h = pow-le-pow_right {n = 2} (omega arith) {j = bound * 7} (omega arith)

-- A group fits 64 bits: the tenth byte has one bit.
pub group_fits :
    (index byte : ℕ) → index ≤ 9 → (index ≡ 9 → byte ≤ 1) → byte % 128 * 2 ^ (index * 7) ≤ 2 ^ 63
group_fits index byte h last = elim (Bool-cases (index == 9)) [
  | inl end ↦
      let low = last (==→eq index 9 end) in
      le_trans
        (mul-le-mul {n₁ = byte % 128} {m₁ = 2 ^ (index * 7)} {n₂ = 1} {m₂ = 2 ^ (9 * 7)}
          (omega arith) (scale_le index 9 h))
        (omega arith)
  | inr inner ↦
      let small : index ≤ 8 = omega (arith, ==→ne index 9 inner) in
      le_trans
        (mul-le-mul {n₁ = byte % 128} {m₁ = 2 ^ (index * 7)} {n₂ = 127} {m₂ = 2 ^ (8 * 7)}
          (omega arith) (scale_le index 8 small))
        (omega arith)
]

-- What the loop reads from round `index` on.
abbrev GroupsFrom : ℕ → ℕ → ℕ → ℕ → Bytes → Type 0
GroupsFrom left index value v field =
    IsTerminated field
    × (length field ≤ left)
    × (v ≡ value + uleb_value field * 2 ^ (index * 7))
    × IsU64 v

last_group :
    (left index value b : ℕ)
    → suc left + index ≡ 10
    → value < 2 ^ (index * 7)
    → (index ≡ 9 → b ≤ 1)
    → b < 128
    → GroupsFrom (suc left) index value (add_group value b index) (b ∷ [])
last_group left index value b hi hv last hb =
    let fits = group_fits index b (omega arith) last in
    let sum = add_group-eq value b index hv (omega arith) in
    let scale = scale_le index 9 (omega arith) in
    (hb, omega arith, sum ∙ omega arith, subst (λ (t : ℕ). t < u64_mod) (sym sum) (omega arith))

inner_group :
    (left index value b v : ℕ) (field : Bytes)
    → suc left + index ≡ 10
    → value < 2 ^ (index * 7)
    → index ≤ 8
    → 128 ≤ b
    → GroupsFrom left (index + 1) (add_group value b index) v field
    → GroupsFrom (suc left) index value v (b ∷ field)
inner_group left index value b v [] hi hv small hb h = absurd h.0
inner_group left index value b v (c ∷ field) hi hv small hb h =
    let sum =
      add_group-eq value b index hv
        (omega (arith, group_fits index b (omega arith) (λ e. absurd (omega arith)))) in
    (
      (hb, h.0),
      omega (arith, h.1),
      h.2 ∙ omega (arith, sum, ap (λ (t : ℕ). uleb_value (c ∷ field) * t) (next_scale index)),
      h.3,
    )

pub add_group_bound :
    (value b index : ℕ)
    → value < 2 ^ (index * 7)
    → index ≤ 8
    → add_group value b index < 2 ^ ((index + 1) * 7)
add_group_bound value b index hv small =
    subst (λ (t : ℕ). t < 2 ^ ((index + 1) * 7))
      (sym (
        add_group-eq value b index hv
          (omega (arith, group_fits index b (omega arith) (λ e. absurd (omega arith))))))
      (omega (
        arith,
        next_scale index,
        mul-le-mul_right {m = b % 128} {n = 127} (2 ^ (index * 7)) (omega arith),
      ))

tenth_byte : (index b : ℕ) → (index == 9 && ltb 1 b) ≡ false → index ≡ 9 → b ≤ 1
tenth_byte index b h e = ground arith

low_byte : (b : ℕ) → b < 256 → (bit_and b 0x80 == 0) ≡ true → b < 128
low_byte b h e = omega (arith, bit7 b h, ==→eq (bit_and b 0x80) 0 e)

high_byte : (b : ℕ) → b < 256 → (bit_and b 0x80 == 0) ≡ false → 128 ≤ b
high_byte b h e = ground (arith, bit7 b h)

vuint_loop_sound :
    (left start index value : ℕ) (limits : Limits) (before after : Bytes)
    → left + index ≡ 10
    → value < 2 ^ (index * 7)
    → All IsByte after
    → Addressable before after
    → Ensures
        (Reads (GroupsFrom left index value) limits before after)
        (Decoder.vuint_loop left start index value (cursor limits before after))
unfolding Decoder.vuint_loop
vuint_loop_sound zero start index value limits before after hi hv bytes room = failed
vuint_loop_sound (suc left) start index value limits before [] hi hv bytes room =
    rw (u8_end limits before room) failed
vuint_loop_sound (suc left) start index value limits before (b ∷ after) hi hv bytes room =
    rw (u8_next limits before after b room) (elim (Bool-cases (index == 9 && ltb 1 b)) [
      | inl wide ↦ rw wide failed
      | inr narrow ↦ rw narrow (elim (Bool-cases (bit_and b 0x80 == 0)) [
        | inl end ↦ rw end (
            holds (record {
              field = b ∷ [];
              rest = after;
              split = refl;
              moved = refl;
              meets =
                  last_group left index value b hi hv (tenth_byte index b narrow)
                    (low_byte b bytes.0 end);
            }))
        | inr more ↦ rw more (elim (Bool-cases (index == 9)) [
          | inl end ↦ absurd (
              omega
                (arith, high_byte b bytes.0 more, tenth_byte index b narrow (==→eq index 9 end)))
          | inr inner ↦
              let small : index ≤ 8 = omega (arith, ==→ne index 9 inner) in
              Ensures-weaken
                (vuint_loop_sound left start (index + 1) (add_group value b index) limits
                  (before ++ (b ∷ [])) after (omega arith) (add_group_bound value b index hv small)
                  bytes.1 (omega (arith, length-append before (b ∷ []))))
                (λ r h. Reads-after before (b ∷ []) after h (λ field g.
                  inner_group left index value b r.0 field hi hv small (high_byte b bytes.0 more)
                    g))
        ])
      ])
    ])

-- What `vuint` reads: a terminated field of at most ten bytes and the 64-bit number it stands for.
abbrev pub IsVuint : ℕ → Bytes → Type 0
IsVuint v field = IsTerminated field × (length field ≤ 10) × (v ≡ uleb_value field) × IsU64 v

-- `Decoder::vuint` at any place of an input of bytes that fits the address space: a result is the
-- value of the terminated field of 1 to 10 bytes that stands next, it fits 64 bits, and exactly that
-- field is consumed.
pub vuint_sound :
    (limits : Limits) (before after : Bytes)
    → All IsByte after
    → Addressable before after
    → Ensures (Reads IsVuint limits before after) (Decoder.vuint (cursor limits before after))
unfolding Decoder.vuint
vuint_sound limits before after bytes room =
    Ensures-weaken
      (vuint_loop_sound 10 (length before) 0 0 limits before after refl (omega arith) bytes room)
      (λ r h. record {
        field = h.field;
        rest = h.rest;
        split = h.split;
        moved = h.moved;
        meets = (h.meets.0, h.meets.1, h.meets.2 ∙ omega arith, h.meets.3);
      })
