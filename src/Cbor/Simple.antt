-- ===== src/Cbor/Simple.antt =====
-- janex-format/src/cbor.rs: `scan_simple` on items of major type 7.
use janex.Base.{
  ℕ, suc, ◌+◌, ◌/◌, ◌%◌, ◌^◌, ◌≤◌, ◌<◌, ◌≡◌, refl, ◌∙◌, subst, inl, inr, [], ◌∷◌, ◌++◌, le→leb,
  lt→ltb, le→ltb, ne→==, length, length-append, Bytes, append_assoc, arith, mask5, be_bytes,
  be_num-be_bytes, length-be_bytes,
}
use janex.Failure.{ok}
use janex.Binary.{Limits}
use janex.Binary.Decoder
use janex.Binary.Decoder.{Decoder}
use janex.Binary.Cursor.{cursor, cursor_path, Addressable, take_next, u8_next}
use janex.Cbor.{Half, scan, scan_item, scan_simple, simple_valid}
use janex.Cbor.Item.{simple, half_float, single, double, encode, Fits}

module _ ⦃half : Half⦄ (limits : Limits) where
  scan_major_seven :
      (levels depth first : ℕ) (before after input : Bytes)
      → depth ≤ limits.max_depth
      → first / 32 ≡ 7
      → Addressable before (first ∷ after)
      → scan (suc levels) (cursor limits before (first ∷ after)) input depth
        ≡ scan_simple (cursor limits (before ++ (first ∷ [])) after) (first % 32) (length before)
  unfolding scan scan_item
  scan_major_seven levels depth first before after input deep seven room =
      rw (le→ltb limits.max_depth depth deep)
        (rw (u8_next limits before after first room) (rw (seven, mask5 first) refl))

  -- A float of `width` bytes is taken whole and tested by its bits.
  take_float :
      (width bits first : ℕ) (before after : Bytes)
      → bits < 256 ^ width
      → Addressable before ((first ∷ be_bytes width bits) ++ after)
      → Decoder.take width (cursor limits (before ++ (first ∷ [])) (be_bytes width bits ++ after))
        ≡ ok (be_bytes width bits, cursor limits (before ++ (first ∷ be_bytes width bits)) after)
  take_float width bits first before after h room =
      subst
        (λ (t : ℕ).
          Decoder.take t (cursor limits (before ++ (first ∷ [])) (be_bytes width bits ++ after))
          ≡ ok (
            be_bytes width bits,
            cursor limits ((before ++ (first ∷ [])) ++ be_bytes width bits) after,
          ))
        (length-be_bytes width bits)
        (take_next limits (before ++ (first ∷ [])) (be_bytes width bits) after
          (omega (arith, length-append before (first ∷ []))))
      ∙ λ i. ok (
        be_bytes width bits,
        cursor_path limits after after (append_assoc before (first ∷ []) (be_bytes width bits)) refl
            i,
      )

  pub accepts_half :
      (bits levels depth : ℕ) (before after input : Bytes)
      → Fits limits depth (half_float bits)
      → Addressable before (encode (half_float bits) ++ after)
      → scan (suc levels) (cursor limits before (encode (half_float bits) ++ after)) input depth
        ≡ ok (cursor limits (before ++ encode (half_float bits)) after)
  unfolding encode scan_simple simple_valid
  accepts_half bits levels depth before after input h room =
      scan_major_seven levels depth 249 before (be_bytes 2 bits ++ after) input h.0 refl room
      ∙ rw (take_float 2 bits 249 before after h.1 room) (rw (be_num-be_bytes 2 bits h.1) (rw h.2))

  pub accepts_single :
      (bits levels depth : ℕ) (before after input : Bytes)
      → Fits limits depth (single bits)
      → Addressable before (encode (single bits) ++ after)
      → scan (suc levels) (cursor limits before (encode (single bits) ++ after)) input depth
        ≡ ok (cursor limits (before ++ encode (single bits)) after)
  unfolding encode scan_simple simple_valid
  accepts_single bits levels depth before after input h room =
      scan_major_seven levels depth 250 before (be_bytes 4 bits ++ after) input h.0 refl room
      ∙ rw (take_float 4 bits 250 before after h.1 room)
          (rw (be_num-be_bytes 4 bits h.1) (rw (h.2, ne→== (half.through_half bits) bits h.3)))

  pub accepts_double :
      (bits levels depth : ℕ) (before after input : Bytes)
      → Fits limits depth (double bits)
      → Addressable before (encode (double bits) ++ after)
      → scan (suc levels) (cursor limits before (encode (double bits) ++ after)) input depth
        ≡ ok (cursor limits (before ++ encode (double bits)) after)
  unfolding encode scan_simple simple_valid
  accepts_double bits levels depth before after input h room =
      scan_major_seven levels depth 251 before (be_bytes 8 bits ++ after) input h.0 refl room
      ∙ rw (take_float 8 bits 251 before after h.1 room)
          (rw (be_num-be_bytes 8 bits h.1) (rw (h.2, h.3)))

  pub accepts_simple :
      (n levels depth : ℕ) (before after input : Bytes)
      → Fits limits depth (simple n)
      → Addressable before (encode (simple n) ++ after)
      → scan (suc levels) (cursor limits before (encode (simple n) ++ after)) input depth
        ≡ ok (cursor limits (before ++ encode (simple n)) after)
  unfolding encode scan_simple simple_valid
  accepts_simple n levels depth before after input (deep, inl low) room =
      let small = lt→ltb n 24 low in
      let value : (224 + n) % 32 ≡ n = omega arith in
      rw small (
        scan_major_seven levels depth (224 + n) before after input deep (omega arith)
          (rw small at room)
        ∙ rw value (rw (le→leb n 23 (omega arith))))
  accepts_simple n levels depth before after input (deep, inr high) room =
      let large = le→ltb n 24 (omega arith) in
      let fits = rw large at room in
      rw large (
        scan_major_seven levels depth 248 before (n ∷ after) input deep refl fits
        ∙ rw
            (u8_next limits (before ++ (248 ∷ [])) after n
              (omega (arith, length-append before (248 ∷ []))))
            (rw (le→leb 32 n high.0) (λ i.
              ok
                (cursor_path limits after after (append_assoc before (248 ∷ []) (n ∷ [])) refl i))))
