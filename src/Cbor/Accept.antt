-- ===== src/Cbor/Accept.antt =====
-- janex-format/src/cbor.rs: the scanner on the deterministic encoding of one item, from what is
-- known of its parts. The induction is in Accept/Nested.
pub mod Nested
use janex.Base.{
  ℕ, zero, suc, ◌+◌, ◌-◌, ◌*◌, ◌/◌, ◌%◌, ◌^◌, ◌≤◌, ◌<◌, ◌≡◌, refl, sym, ap, ◌∙◌, subst, Bool, true,
  false, not, ◌&&◌, ◌||◌, Bool-cases, inl, inr, Option, none, some, List, [], ◌∷◌, ◌++◌, ltb, leb,
  leb→le, le→leb, ltb→le, ltb→lt, lt→ltb, le→ltb, ◌==◌, ==→eq, ne→==, if◌then◌else◌, length,
  length-append, Bytes, append-nil, append_assoc, u64_mod, arith, mask5, bit_and, bytes_lt,
  be_bytes, be_num, be_num-be_bytes, take-append, drop-append, length-be_bytes, is_utf8, take, drop,
}
use janex.Failure.{Result, ok, err}
use janex.Binary.{Limits, limit_bytes, limit_elements}
use janex.Binary.Decoder
use janex.Binary.Decoder.{Decoder, slice}
use janex.Binary.Writing.{limit_bytes-ok, limit_elements-ok}
use janex.Binary.Cursor.{
  Addressable-assoc, Addressable-pass, Addressable-assoc-in, add-sub_cancel, cursor, cursor_path,
  Addressable, take_next, u8_next,
}
use janex.Cbor.{
  Half, Scan, scan, scan_item, scan_content, scan_string, scan_items, scan_entries, scan_simple,
  simple_valid, out_of_order, Value, from_bytes,
}
use janex.Cbor.Item.{
  Item, Items, Entries, uint, nint, byte_string, text, array, dict, tag, simple, half_float, single,
  double, nil, cons, end, entry, info, extra, head, encode, encode_items, encode_entries,
  encode_simple, count_items, count_entries, Follows, Fits, FitsItems, FitsEntries,
}
use janex.Cbor.Simple.{accepts_simple, accepts_half, accepts_single, accepts_double}
use janex.Cbor.Head.{argument_reads}

info-le : (n : ℕ) → info n ≤ 27
unfolding info
info-le n = ground arith

initial_major : (major n : ℕ) → (major * 32 + info n) / 32 ≡ major
initial_major major n = omega (arith, info-le n)

initial_info : (major n : ℕ) → bit_and (major * 32 + info n) 31 ≡ info n
initial_info major n = mask5 (major * 32 + info n) ∙ omega (arith, info-le n)

pub slice_key :
    (before key after : Bytes)
    → slice (before ++ (key ++ after)) (length before) (length (before ++ key)) ≡ key
slice_key before key after = rw (drop-append before (key ++ after)) (
    rw (length-append before key)
      (rw (add-sub_cancel (length before) (length key)) (take-append key after)))

module _ ⦃half : Half⦄ (limits : Limits) where
  -- An item with an argument is scanned by its content, one level down.
  scan-head :
      (levels depth major n : ℕ) (before after input : Bytes)
      → depth ≤ limits.max_depth
      → major < 7
      → n < u64_mod
      → Addressable before (head major n ++ after)
      → scan (suc levels) (cursor limits before (head major n ++ after)) input depth
        ≡ scan_content
            (scan levels)
            major
            (cursor limits (before ++ head major n) after)
            input
            depth
            n
            (length before)
  unfolding scan scan_item
  scan-head levels depth major n before after input deep low word room =
      let first = before ++ ((major * 32 + info n) ∷ []) in
      let joined = append_assoc before ((major * 32 + info n) ∷ []) (extra n) in
      rw (le→ltb limits.max_depth depth deep) (
        rw (u8_next limits before (extra n ++ after) (major * 32 + info n) room) (
          rw (initial_major major n, initial_info major n)
            (rw (ne→== major 7 (omega arith)) (
              rw
                (argument_reads limits first after n word
                  (omega (arith, length-append before ((major * 32 + info n) ∷ []))))
                (λ i.
                  scan_content (scan levels) major (cursor_path limits after after joined refl i)
                    input depth n (length before))))))

  -- The same with what belongs to the item behind the argument.
  scan_parts :
      (levels depth major n : ℕ) (body before after input : Bytes)
      → depth ≤ limits.max_depth
      → major < 7
      → n < u64_mod
      → Addressable before ((head major n ++ body) ++ after)
      → scan_content
          (scan levels)
          major
          (cursor limits (before ++ head major n) (body ++ after))
          input
          depth
          n
          (length before)
        ≡ ok (cursor limits ((before ++ head major n) ++ body) after)
      → scan (suc levels) (cursor limits before ((head major n ++ body) ++ after)) input depth
        ≡ ok (cursor limits (before ++ (head major n ++ body)) after)
  scan_parts levels depth major n body before after input deep low word room content =
      let split = append_assoc (head major n) body after in
      rw split (
        scan-head levels depth major n before (body ++ after) input deep low word
          (Addressable-assoc before (head major n) body after room)
        ∙ content
        ∙ λ i. ok (cursor_path limits after after (append_assoc before (head major n) body) refl i))

  accepts_string :
      (is_text : Bool) (b before after : Bytes) (start : ℕ)
      → length b ≤ limits.max_bytes
      → length b < u64_mod
      → (is_text && not (is_utf8 b)) ≡ false
      → Addressable before (b ++ after)
      → scan_string is_text (cursor limits before (b ++ after)) (length b) start
        ≡ ok (cursor limits (before ++ b) after)
  unfolding scan_string
  accepts_string is_text b before after start h word valid room =
      rw (limit_bytes-ok limits (length b) h word)
        (rw (take_next limits before b after room) (rw valid))

  -- The run over one item, wherever it stands.
  abbrev pub Accepts : Item → Type 0
  Accepts x =
      (levels depth : ℕ) (before after input : Bytes)
      → levels + depth ≡ suc limits.max_depth
      → Fits limits depth x
      → input ≡ before ++ (encode x ++ after)
      → Addressable before (encode x ++ after)
      → scan levels (cursor limits before (encode x ++ after)) input depth
        ≡ ok (cursor limits (before ++ encode x) after)

  abbrev pub AcceptsItems : Items → Type 0
  AcceptsItems xs =
      (levels depth : ℕ) (before after input : Bytes)
      → levels + depth ≡ suc limits.max_depth
      → FitsItems limits depth xs
      → input ≡ before ++ (encode_items xs ++ after)
      → Addressable before (encode_items xs ++ after)
      → scan_items (scan levels) input depth (count_items xs)
          (cursor limits before (encode_items xs ++ after))
        ≡ ok (cursor limits (before ++ encode_items xs) after)

  abbrev pub AcceptsEntries : Entries → Type 0
  AcceptsEntries es =
      (levels depth : ℕ) (previous : Option Bytes) (before after input : Bytes)
      → levels + depth ≡ suc limits.max_depth
      → FitsEntries limits depth previous es
      → input ≡ before ++ (encode_entries es ++ after)
      → Addressable before (encode_entries es ++ after)
      → scan_entries (scan levels) input depth (count_entries es) previous
          (cursor limits before (encode_entries es ++ after))
        ≡ ok (cursor limits (before ++ encode_entries es) after)

  Fits-deep : (x : Item) (depth : ℕ) → Fits limits depth x → depth ≤ limits.max_depth
  Fits-deep (uint n) depth h = h.0
  Fits-deep (nint n) depth h = h.0
  Fits-deep (byte_string b) depth h = h.0
  Fits-deep (text b) depth h = h.0
  Fits-deep (array xs) depth h = h.0
  Fits-deep (dict es) depth h = h.0
  Fits-deep (tag n x) depth h = h.0
  Fits-deep (simple n) depth h = h.0
  Fits-deep (half_float bits) depth h = h.0
  Fits-deep (single bits) depth h = h.0
  Fits-deep (double bits) depth h = h.0

  -- At a depth within the limit there is a level to spend.
  abbrev pub AcceptsBelow : Item → Type 0
  AcceptsBelow x =
      (levels depth : ℕ) (before after input : Bytes)
      → levels + (depth + 1) ≡ suc limits.max_depth
      → Fits limits depth x
      → input ≡ before ++ (encode x ++ after)
      → Addressable before (encode x ++ after)
      → scan (suc levels) (cursor limits before (encode x ++ after)) input depth
        ≡ ok (cursor limits (before ++ encode x) after)

  pub spend_level : (x : Item) → AcceptsBelow x → Accepts x
  spend_level x k zero depth before after input hl h e room =
      absurd (omega (arith, Fits-deep x depth h))
  spend_level x k (suc levels) depth before after input hl h e room =
      k levels depth before after input (omega arith) h e room

  pub below_uint : (n : ℕ) → AcceptsBelow (uint n)
  unfolding encode scan_content
  below_uint n levels depth before after input hl h e room =
      scan-head levels depth 0 n before after input h.0 (omega arith) h.1 room

  pub below_nint : (n : ℕ) → AcceptsBelow (nint n)
  unfolding encode scan_content
  below_nint n levels depth before after input hl h e room =
      scan-head levels depth 1 n before after input h.0 (omega arith) h.1 room

  pub below_byte_string : (b : Bytes) → AcceptsBelow (byte_string b)
  unfolding encode scan_content
  below_byte_string b levels depth before after input hl h e room =
      scan_parts levels depth 2 (length b) b before after input h.0 (omega arith) h.1 room (
        accepts_string false b (before ++ head 2 (length b)) after (length before) h.2 h.1 refl
          (Addressable-pass before (head 2 (length b)) b after room))

  pub below_text : (b : Bytes) → AcceptsBelow (text b)
  unfolding encode scan_content
  below_text b levels depth before after input hl h e room =
      scan_parts levels depth 3 (length b) b before after input h.0 (omega arith) h.1 room (
        accepts_string true b (before ++ head 3 (length b)) after (length before) h.2 h.1 (rw h.3)
          (Addressable-pass before (head 3 (length b)) b after room))

  pub regroup :
      (input before a b after : Bytes)
      → input ≡ before ++ ((a ++ b) ++ after)
      → input ≡ (before ++ a) ++ (b ++ after)
  regroup input before a b after e =
      e
      ∙ ap (λ (t : Bytes). before ++ t) (append_assoc a b after)
      ∙ sym (append_assoc before a (b ++ after))

  pub below_array : (xs : Items) → AcceptsItems xs → AcceptsBelow (array xs)
  unfolding encode scan_content
  below_array xs items levels depth before after input hl h e room =
      let start = head 4 (count_items xs) in
      scan_parts levels depth 4 (count_items xs) (encode_items xs) before after input h.0
        (omega arith) h.1 room
        (rw (limit_elements-ok limits (count_items xs) h.2 h.1) (
          items levels (depth + 1) (before ++ start) after input hl h.3
            (regroup input before start (encode_items xs) after e)
            (Addressable-pass before start (encode_items xs) after room)))

  pub below_dict : (es : Entries) → AcceptsEntries es → AcceptsBelow (dict es)
  unfolding encode scan_content
  below_dict es entries levels depth before after input hl h e room =
      let start = head 5 (count_entries es) in
      scan_parts levels depth 5 (count_entries es) (encode_entries es) before after input h.0
        (omega arith) h.1 room
        (rw (limit_elements-ok limits (count_entries es) h.2 h.1) (
          entries levels (depth + 1) none (before ++ start) after input hl h.3
            (regroup input before start (encode_entries es) after e)
            (Addressable-pass before start (encode_entries es) after room)))

  pub below_tag : (n : ℕ) (x : Item) → Accepts x → AcceptsBelow (tag n x)
  unfolding encode scan_content
  below_tag n x inner levels depth before after input hl h e room =
      scan_parts levels depth 6 n (encode x) before after input h.0 (omega arith) h.1 room (
        inner levels (depth + 1) (before ++ head 6 n) after input hl h.2
          (regroup input before (head 6 n) (encode x) after e)
          (Addressable-pass before (head 6 n) (encode x) after room))
