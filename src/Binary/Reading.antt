-- ===== src/Binary/Reading.antt =====
-- janex-format/src/binary.rs: `Decoder::vuint` on fields that stand for a number.
use janex.Base.{
  eq→==, ne→==, le→ltb, true, false, ◌==◌, ==→eq, ◌&&◌, ℕ, zero, suc, ◌+◌, ◌*◌, ◌%◌, ◌^◌, ◌≤◌, ◌<◌,
  ◌≡◌, refl, sym, ap, ◌∙◌, Bool-cases, inl, inr, [], ◌∷◌, ◌++◌, append_assoc, length, length-append,
  ltb, Bytes, arith, u64_mod, IsU64, All, IsByte, bit7, bit_and, subst,
}
use janex.Failure.{ok}
use janex.Binary.{Limits, vec_write}
use janex.Binary.Decoder
use janex.Binary.Decoder.{Decoder, add_group}
use janex.Binary.Cursor.{cursor_path, cursor, Addressable, u8_next}
use janex.Binary.Uleb.{
  IsTerminated, add_group-eq, add_group_bound, group_fits, next_scale, uleb_value,
}

narrow_test : (index b : ℕ) → (index ≡ 9 → b ≤ 1) → (index == 9 && ltb 1 b) ≡ false
narrow_test index b h = elim (Bool-cases (index == 9)) [
  | inl e ↦ rw e (le→ltb 1 b (h (==→eq index 9 e)))
  | inr e ↦ rw e
]

end_test : (b : ℕ) → b < 128 → (bit_and b 0x80 == 0) ≡ true
end_test b h = eq→== (bit_and b 0x80) 0 (omega (arith, bit7 b (omega arith)))

more_test : (b : ℕ) → 128 ≤ b → b < 256 → (bit_and b 0x80 == 0) ≡ false
more_test b h lt = ne→== (bit_and b 0x80) 0 (omega (arith, bit7 b lt))

-- In the tenth round a number within 64 bits has at most one bit left.
tenth_of_fits :
    (index value b more : ℕ)
    → value + (b % 128 + 128 * more) * 2 ^ (index * 7) < u64_mod
    → index ≡ 9
    → b % 128 ≤ 1
tenth_of_fits index value b more fits e =
    let at_nine : value + (b % 128 + 128 * more) * 2 ^ 63 < u64_mod =
      subst (λ (t : ℕ). value + (b % 128 + 128 * more) * 2 ^ (t * 7) < u64_mod) e fits in
    omega arith

-- Every terminated field within 64 bits is read, padded or not.
vuint_loop_reads :
    (left start index value : ℕ) (limits : Limits) (before field after : Bytes)
    → left + index ≡ 10
    → value < 2 ^ (index * 7)
    → All IsByte field
    → IsTerminated field
    → length field ≤ left
    → value + uleb_value field * 2 ^ (index * 7) < u64_mod
    → Addressable before (field ++ after)
    → Decoder.vuint_loop left start index value (cursor limits before (field ++ after))
      ≡ ok (value + uleb_value field * 2 ^ (index * 7), cursor limits (before ++ field) after)
unfolding Decoder.vuint_loop
vuint_loop_reads left start index value limits before [] after hi hv bytes ends len fits room =
    absurd ends
vuint_loop_reads zero start index value limits before (b ∷ field) after hi hv bytes ends len fits
      room =
    absurd (omega arith)
vuint_loop_reads (suc left) start index value limits before (b ∷ []) after hi hv bytes ends len fits
      room =
    let last : (index ≡ 9 → b ≤ 1) = λ e. omega (arith, tenth_of_fits index value b 0 fits e) in
    let sum : add_group value b index ≡ value + (b % 128 + 0) * 2 ^ (index * 7) =
      add_group-eq value b index hv (omega arith) ∙ omega arith in
    rw (u8_next limits before after b room)
      (rw (narrow_test index b last, end_test b ends) (rw sum))
vuint_loop_reads (suc left) start index value limits before (b ∷ c ∷ field) after hi hv bytes ends
      len fits room =
    let small : index ≤ 8 = omega arith in
    let sum =
      add_group-eq value b index hv
        (omega (arith, group_fits index b (omega arith) (λ e. absurd (omega arith)))) in
    let total : add_group value b index + uleb_value (c ∷ field) * 2 ^ ((index + 1) * 7)
        ≡ value + uleb_value (b ∷ c ∷ field) * 2 ^ (index * 7) =
      omega (arith, sum, ap (λ (t : ℕ). uleb_value (c ∷ field) * t) (next_scale index)) in
    let again =
      vuint_loop_reads left start (index + 1) (add_group value b index) limits (before ++ (b ∷ []))
        (c ∷ field) after (omega arith) (add_group_bound value b index hv small) bytes.1 ends.1
        (omega arith) (subst (λ (t : ℕ). t < u64_mod) (sym total) fits)
        (omega (arith, length-append before (b ∷ []))) in
    rw (u8_next limits before (c ∷ field ++ after) b room) (
      rw (narrow_test index b (λ e. absurd (omega arith)), more_test b ends.0 bytes.0)
        (again ∙ λ i. ok (
          total i,
          cursor_path limits after after (append_assoc before (b ∷ []) (c ∷ field)) refl i,
        )))

-- `Decoder::vuint` accepts every terminated field of at most ten bytes below 256 whose number fits
-- 64 bits, zero padding included, and leaves what follows it, in an input that fits the address
-- space.
pub vuint_reads :
    (limits : Limits) (before field after : Bytes)
    → All IsByte field
    → IsTerminated field
    → length field ≤ 10
    → IsU64 (uleb_value field)
    → Addressable before (field ++ after)
    → Decoder.vuint (cursor limits before (field ++ after))
      ≡ ok (uleb_value field, cursor limits (before ++ field) after)
unfolding Decoder.vuint
vuint_reads limits before field after bytes ends len fits room =
    vuint_loop_reads 10 (length before) 0 0 limits before field after refl (omega arith) bytes ends
      len (omega arith) room
    ∙ λ i. ok (number i, cursor limits (before ++ field) after)
  where
    number : 0 + uleb_value field * 2 ^ (0 * 7) ≡ uleb_value field
    number = omega arith
