-- ===== src/Cbor/Head.antt =====
-- janex-format/src/cbor.rs: the argument behind an initial byte, read by `argument`.
use janex.Base.{
  ℕ, ◌^◌, ◌≤◌, ◌<◌, ◌≡◌, refl, sym, ap, ◌∙◌, subst, Bool-cases, inl, inr, [], ◌++◌, ltb, leb,
  leb→le, ltb→le, ltb→lt, ◌==◌, ==→eq, if◌then◌else◌, length, All, All-append_inv, IsByte, Bytes,
  be_bytes, be_num, fold_be, fold_be-eq, be_num-be_bytes, be_bytes-be_num, be_bytes-IsByte,
  be_num-lt, length-be_bytes, append-nil, u64_mod, arith, le→ltb, le→leb, tests,
}
use janex.Failure.{Result, Ensures-if, ok, Ensures, holds, failed, Ensures-weaken, Ensures-bind}
use janex.Binary.{Limits}
use janex.Binary.Decoder
use janex.Binary.Decoder.{Decoder}
use janex.Binary.Cursor.{cursor, Addressable, Reads, take_next, take_sound, Reads-weaken}
use janex.Cbor.{argument, wide_argument}
use native.Mathlib.Nat.{lt_of_lt_of_le, pow-le-pow_right}
use janex.Cbor.Item.{info, extra}

fold_be-num : (bs : Bytes) → All IsByte bs → be_num bs < u64_mod → fold_be 0 bs ≡ be_num bs
fold_be-num bs h fits = fold_be-eq 0 bs h (omega arith) ∙ omega arith

-- A `width`-byte argument that is not below the least one of its width.
wide_reads :
    (limits : Limits) (before after : Bytes) (width minimum n : ℕ)
    → n < 256 ^ width
    → n < u64_mod
    → minimum ≤ n
    → Addressable before (be_bytes width n ++ after)
    → wide_argument (cursor limits before (be_bytes width n ++ after)) width minimum
      ≡ ok (n, cursor limits (before ++ be_bytes width n) after)
unfolding wide_argument
wide_reads limits before after width minimum n h fits low room =
    let number = be_num-be_bytes width n h in
    let value = fold_be-num (be_bytes width n) (be_bytes-IsByte width n h) (omega arith) ∙ number in
    let next =
      subst
        (λ (t : ℕ).
          Decoder.take t (cursor limits before (be_bytes width n ++ after))
          ≡ ok (be_bytes width n, cursor limits (before ++ be_bytes width n) after))
        (length-be_bytes width n) (take_next limits before (be_bytes width n) after room) in
    rw next (rw value (rw (le→ltb n minimum low)))

-- `argument` reads the preferred form of every 64-bit number.
pub argument_reads :
    (limits : Limits) (before after : Bytes) (n : ℕ)
    → n < u64_mod
    → Addressable before (extra n ++ after)
    → argument (cursor limits before (extra n ++ after)) (info n)
      ≡ ok (n, cursor limits (before ++ extra n) after)
unfolding argument info extra
argument_reads limits before after n h room = elim (Bool-cases (ltb n 24)) [
  | inl a ↦ rw a (
      rw (le→leb n 23 (omega (arith, ltb→lt n 24 a)))
        (λ i. ok (n, cursor limits (sym (append-nil before) i) after)))
  | inr a ↦ elim (Bool-cases (ltb n 256)) [
    | inl b ↦
        rw (a, b)
          (wide_reads limits before after 1 24 n (omega tests) h (omega tests) (rw (a, b) at room))
    | inr b ↦ elim (Bool-cases (ltb n 65536)) [
      | inl c ↦
          rw (a, b, c)
            (wide_reads limits before after 2 256 n (omega tests) h (omega tests)
              (rw (a, b, c) at room))
      | inr c ↦ elim (Bool-cases (ltb n 0x1_0000_0000)) [
        | inl d ↦
            rw (a, b, c, d)
              (wide_reads limits before after 4 65536 n (omega tests) h (omega tests)
                (rw (a, b, c, d) at room))
        | inr d ↦
            rw (a, b, c, d)
              (wide_reads limits before after 8 0x1_0000_0000 n (omega tests) h (omega tests)
                (rw (a, b, c, d) at room))
      ]
    ]
  ]
]

abbrev Wide : ℕ → ℕ → ℕ → Bytes → Type 0
Wide width minimum v field = (field ≡ be_bytes width v) × (minimum ≤ v) × (v < 256 ^ width)

width_fits : (width n : ℕ) → width ≤ 8 → n < 256 ^ width → n < u64_mod
width_fits width n h lt = lt_of_lt_of_le lt (pow-le-pow_right {n = 256} (omega arith) {j = 8} h)

widened_field :
    (limits : Limits) (before after : Bytes) (width minimum : ℕ) (r : Bytes × Decoder)
    → width ≤ 8
    → All IsByte after
    → minimum ≤ fold_be 0 r.0
    → Reads (λ value field. (value ≡ field) × (length field ≡ width)) limits before after r
    → Reads (Wide width minimum) limits before after (fold_be 0 r.0, r.1)
widened_field limits before after width minimum r h bytes enough read =
    let field_bytes : All IsByte read.field =
      (All-append_inv IsByte read.field read.rest (subst (All IsByte) read.split bytes)).0 in
    let bound : be_num read.field < 256 ^ width =
      subst (λ (t : ℕ). be_num read.field < 256 ^ t) read.meets.1
        (be_num-lt read.field field_bytes) in
    let value : fold_be 0 r.0 ≡ be_num read.field =
      ap (fold_be 0) read.meets.0
      ∙ fold_be-num read.field field_bytes (width_fits width (be_num read.field) h bound) in
    let written : be_bytes width (be_num read.field) ≡ read.field =
      subst (λ (t : ℕ). be_bytes t (be_num read.field) ≡ read.field) read.meets.1
        (be_bytes-be_num read.field field_bytes) in
    record {
      field = read.field;
      rest = read.rest;
      split = read.split;
      moved = read.moved;
      meets = (
        sym (ap (be_bytes width) value ∙ written),
        enough,
        subst (λ (t : ℕ). t < 256 ^ width) (sym value) bound,
      );
    }

widened_sound :
    (limits : Limits) (before after : Bytes) (width minimum : ℕ)
    → width ≤ 8
    → All IsByte after
    → Addressable before after
    → Ensures
        (Reads (Wide width minimum) limits before after)
        (wide_argument (cursor limits before after) width minimum)
unfolding wide_argument
widened_sound limits before after width minimum h bytes room =
    Ensures-bind (take_sound limits before after width room) λ r read.
      elim (Bool-cases (ltb (fold_be 0 r.0) minimum)) [
        | inl low ↦ rw low failed
        | inr enough ↦ rw enough (
            holds (
              widened_field limits before after width minimum r h bytes
                (ltb→le (fold_be 0 r.0) minimum enough) read))
      ]

-- What `argument` returns and consumes.
abbrev pub IsArgument : ℕ → ℕ → Bytes → Type 0
IsArgument additional v field = (field ≡ extra v) × (additional ≡ info v) × (v < u64_mod)

one_byte : (v : ℕ) (field : Bytes) → Wide 1 24 v field → IsArgument 24 v field
unfolding info extra
one_byte v field h = ground arith

two_bytes : (v : ℕ) (field : Bytes) → Wide 2 256 v field → IsArgument 25 v field
unfolding info extra
two_bytes v field h = ground arith

four_bytes : (v : ℕ) (field : Bytes) → Wide 4 65536 v field → IsArgument 26 v field
unfolding info extra
four_bytes v field h = ground arith

eight_bytes : (v : ℕ) (field : Bytes) → Wide 8 0x1_0000_0000 v field → IsArgument 27 v field
unfolding info extra
eight_bytes v field h = ground arith

small : (additional : ℕ) → additional ≤ 23 → IsArgument additional additional []
unfolding info extra
small additional h = ground arith

module _ (limits : Limits) (before after : Bytes) (bytes : All IsByte after)
    (room : Addressable before after) where
  if_width :
      (n additional width minimum : ℕ) {other : Result (ℕ × Decoder)}
      → width ≤ 8
      → ((v : ℕ) (field : Bytes) → Wide width minimum v field → IsArgument additional v field)
      → Ensures (Reads (IsArgument n) limits before after) other
      → Ensures (Reads (IsArgument n) limits before after) (
          if n == additional
          then wide_argument (cursor limits before after) width minimum
          else other)
  if_width n additional width minimum h k others =
      Ensures-if (n == additional)
        (λ e.
          subst
            (λ (t : ℕ).
              Ensures (Reads (IsArgument t) limits before after)
                (wide_argument (cursor limits before after) width minimum))
            (sym (==→eq n additional e))
            (Ensures-weaken (widened_sound limits before after width minimum h bytes room)
              (λ r read. Reads-weaken read (λ field. k r.0 field))))
        (λ _. others)

  -- Whatever `argument` accepts is the preferred form of the number that it returns.
  pub argument_sound :
      (additional : ℕ)
      → Ensures
          (Reads (IsArgument additional) limits before after)
          (argument (cursor limits before after) additional)
  unfolding argument
  argument_sound n =
      Ensures-if (leb n 23)
        (λ a. holds (record {
          field = [];
          rest = after;
          split = refl;
          moved = λ i. cursor limits (sym (append-nil before) i) after;
          meets = small n (leb→le n 23 a);
        }))
        (λ _. if_width n 24 1 24 (omega arith) one_byte (
          if_width n 25 2 256 (omega arith) two_bytes (
            if_width n 26 4 65536 (omega arith) four_bytes
              (if_width n 27 8 0x1_0000_0000 (omega arith) eight_bytes failed))))
