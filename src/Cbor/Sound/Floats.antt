-- ===== src/Cbor/Sound/Floats.antt =====
-- janex-format/src/cbor.rs: what `scan_simple` accepts.
use janex.Base.{
  le→ltb, lt→ltb, ℕ, ◌+◌, ◌/◌, ◌%◌, ◌^◌, ◌≤◌, ◌<◌, ◌≡◌, refl, sym, ap, ◌∙◌, subst, Bool, true,
  false, not, ◌&&◌, ◌||◌, inl, inr, [], ◌∷◌, ◌++◌, ltb, leb, leb→le, ◌==◌, ==→eq, if◌then◌else◌,
  All, IsByte, All-append_inv, Bytes, append-nil, arith,
}
use janex.Failure.{
  Result, ok, Ensures, holds, failed, Ensures-if, Ensures-bind, Ensures-reject_if, ◌>>=◌,
}
use janex.Binary.{Limits}
use janex.Binary.Decoder
use janex.Binary.Decoder.{Decoder, slice}
use janex.Binary.Cursor.{cursor, cursor_path, Addressable, take_sound, u8_next, u8_end}
use janex.Cbor.{Half, scan_simple, simple_valid, is_nan32, is_nan64, survives_f32}
use janex.Cbor.Item.{simple, half_float, single, double, Item, encode, Fits}
use janex.Base.{be_bytes, be_num, be_bytes-be_num, be_num-lt}
use janex.Cbor.Sound.{Content, Content-of}

module _ ⦃half : Half⦄ (limits : Limits) where
  -- The value is in preferred form if the test says so.
  abbrev IfValid : ℕ → ℕ → Bytes → Bytes → Bool × Decoder → Type 0
  IfValid first depth before after r =
      r.0 ≡ true → Content limits depth before (first ∷ []) after r.1

  float_sound :
      (x : ℕ → Item) (width first depth : ℕ) (before after : Bytes) (test : ℕ → Bool)
      → ((bits : ℕ) → encode (x bits) ≡ first ∷ be_bytes width bits)
      → ((bits : ℕ) → bits < 256 ^ width → test bits ≡ true → Fits limits depth (x bits))
      → All IsByte after
      → Addressable (before ++ (first ∷ [])) after
      → Ensures (IfValid first depth before after) (
          Decoder.take width (cursor limits (before ++ (first ∷ [])) after) >>= λ r.
          ok (test (be_num r.0), r.1))
  float_sound x width first depth before after test code fits bytes room =
      Ensures-bind (take_sound limits (before ++ (first ∷ [])) after width room) λ r read.
        holds λ valid.
          let field_bytes : All IsByte read.field =
            (All-append_inv IsByte read.field read.rest (subst (All IsByte) read.split bytes)).0 in
          let written : be_bytes width (be_num read.field) ≡ read.field =
            subst (λ (t : ℕ). be_bytes t (be_num read.field) ≡ read.field) read.meets.1
              (be_bytes-be_num read.field field_bytes) in
          Content-of limits (x (be_num read.field)) depth before (first ∷ []) read.field after
            read.rest (code (be_num read.field) ∙ ap (λ (t : Bytes). first ∷ t) written) read.split
            read.moved
            (fits (be_num read.field)
              (subst (λ (t : ℕ). be_num read.field < 256 ^ t) read.meets.1
                (be_num-lt read.field field_bytes))
              (subst (λ (t : Bytes). test (be_num t) ≡ true) read.meets.0 valid))

  byte_sound :
      (depth : ℕ) (before after : Bytes)
      → depth ≤ limits.max_depth
      → All IsByte after
      → Addressable (before ++ (248 ∷ [])) after
      → Ensures
          (IfValid 248 depth before after)
          (Decoder.u8 (cursor limits (before ++ (248 ∷ [])) after) >>= λ r. ok (leb 32 r.0, r.1))
  unfolding encode
  byte_sound depth before [] deep bytes room = rw (u8_end limits (before ++ (248 ∷ [])) room) failed
  byte_sound depth before (b ∷ after) deep bytes room =
      rw (u8_next limits (before ++ (248 ∷ [])) after b room) (
        holds λ valid.
          Content-of limits (simple b) depth before (248 ∷ []) (b ∷ []) (b ∷ after) after
            (rw (le→ltb b 24 (omega (arith, leb→le 32 b valid)))) refl refl
            (deep, inr (leb→le 32 b valid, bytes.0)))

  tests_half :
      (bits depth : ℕ)
      → depth ≤ limits.max_depth
      → bits < 256 ^ 2
      → (not (half.is_nan bits) || bits == 0x7e00) ≡ true
      → Fits limits depth (half_float bits)
  tests_half bits depth deep h valid = (deep, h, valid)

  tests_single :
      (bits depth : ℕ)
      → depth ≤ limits.max_depth
      → bits < 256 ^ 4
      → (not (is_nan32 bits) && not (half.through_half bits == bits)) ≡ true
      → Fits limits depth (single bits)
  tests_single bits depth deep h valid = (deep, h, ground arith, ground arith)

  tests_double :
      (bits depth : ℕ)
      → depth ≤ limits.max_depth
      → bits < 256 ^ 8
      → (not (is_nan64 bits) && not (survives_f32 bits)) ≡ true
      → Fits limits depth (double bits)
  tests_double bits depth deep h valid = (deep, h, ground arith, ground arith)

  of_info : (first k : ℕ) → first / 32 ≡ 7 → (first % 32 == k) ≡ true → 224 + k ≡ first
  of_info first k seven e = omega (arith, ==→eq (first % 32) k e)

  -- A valid test is passed by the preferred form of an item only.
  valid_sound :
      (first depth : ℕ) (before after : Bytes)
      → first / 32 ≡ 7
      → depth ≤ limits.max_depth
      → All IsByte after
      → Addressable (before ++ (first ∷ [])) after
      → Ensures
          (IfValid first depth before after)
          (simple_valid (cursor limits (before ++ (first ∷ [])) after) (first % 32))
  unfolding simple_valid encode
  valid_sound first depth before after seven deep bytes room =
      Ensures-if (leb (first % 32) 23)
        (λ a. holds λ _.
          Content-of limits (simple (first % 32)) depth before (first ∷ []) [] after after
            (small_simple a) refl
            (cursor_path limits after after (sym (append-nil (before ++ (first ∷ [])))) refl)
            (deep, inl (omega (arith, leb→le (first % 32) 23 a))))
        (λ _.
          Ensures-if (first % 32 == 24)
            (λ b.
              at_byte 24 b
                (λ t. Decoder.u8 (cursor limits (before ++ (t ∷ [])) after) >>= λ r.
                  ok (leb 32 r.0, r.1))
                (byte_sound depth before after deep bytes))
            (λ _.
              Ensures-if (first % 32 == 25)
                (λ b.
                  at_byte 25 b
                    (λ t. Decoder.take 2 (cursor limits (before ++ (t ∷ [])) after) >>= λ r.
                      ok (not (half.is_nan (be_num r.0)) || be_num r.0 == 0x7e00, r.1))
                    (float_sound half_float 2 249 depth before after
                      (λ bits. not (half.is_nan bits) || bits == 0x7e00) (λ bits. refl)
                      (λ bits h valid. tests_half bits depth deep h valid) bytes))
                (λ _.
                  Ensures-if (first % 32 == 26)
                    (λ b.
                      at_byte 26 b
                        (λ t. Decoder.take 4 (cursor limits (before ++ (t ∷ [])) after) >>= λ r.
                          ok (
                            not (is_nan32 (be_num r.0))
                                && not (half.through_half (be_num r.0) == be_num r.0),
                            r.1,
                          ))
                        (float_sound single 4 250 depth before after
                          (λ bits. not (is_nan32 bits) && not (half.through_half bits == bits))
                          (λ bits. refl) (λ bits h valid. tests_single bits depth deep h valid)
                          bytes))
                    (λ _.
                      Ensures-if (first % 32 == 27)
                        (λ b.
                          at_byte 27 b
                            (λ t. Decoder.take 8 (cursor limits (before ++ (t ∷ [])) after) >>= λ r.
                              ok (
                                not (is_nan64 (be_num r.0)) && not (survives_f32 (be_num r.0)),
                                r.1,
                              ))
                            (float_sound double 8 251 depth before after
                              (λ bits. not (is_nan64 bits) && not (survives_f32 bits))
                              (λ bits. refl) (λ bits h valid. tests_double bits depth deep h valid)
                              bytes))
                        (λ _. holds λ e. cc)))))
    where
      small_simple :
          leb (first % 32) 23 ≡ true
          → (if ltb (first % 32) 24 then (224 + first % 32) ∷ [] else 248 ∷ (first % 32) ∷ [])
            ≡ (first ∷ []) ++ []
      small_simple a =
          let low = leb→le (first % 32) 23 a in
          rw (lt→ltb (first % 32) 24 (omega arith)) (ap (λ (t : ℕ). t ∷ []) (omega arith))

      at_byte :
          (k : ℕ)
          → (first % 32 == k) ≡ true
          → (run : ℕ → Result (Bool × Decoder))
          → (Addressable (before ++ ((224 + k) ∷ [])) after
              → Ensures (IfValid (224 + k) depth before after) (run (224 + k)))
          → Ensures (IfValid first depth before after) (run first)
      at_byte k e run h =
          let same = of_info first k seven e in
          subst (λ (t : ℕ). Ensures (IfValid t depth before after) (run t)) same
            (h (subst (λ (t : ℕ). Addressable (before ++ (t ∷ [])) after) (sym same) room))

  not_rejected : (b : Bool) → not b ≡ false → b ≡ true
  not_rejected true h = refl
  not_rejected false h = cc

  -- Of major type 7 the scanner accepts simple values and floats in preferred form.
  pub simple_sound :
      (first depth start : ℕ) (before after : Bytes)
      → first / 32 ≡ 7
      → depth ≤ limits.max_depth
      → All IsByte after
      → Addressable (before ++ (first ∷ [])) after
      → Ensures
          (Content limits depth before (first ∷ []) after)
          (scan_simple (cursor limits (before ++ (first ∷ [])) after) (first % 32) start)
  unfolding scan_simple
  simple_sound first depth start before after seven deep bytes room =
      Ensures-bind (valid_sound first depth before after seven deep bytes room)
        λ r valid. Ensures-reject_if (not r.0) _ λ e. holds (valid (not_rejected r.0 e))
