-- ===== src/Cbor/Sound.antt =====
-- janex-format/src/cbor.rs: what the scanner accepts among strings and arrays. Maps and the
-- induction on the nesting are in Sound/Nested.
pub mod Floats
pub mod Nested
use janex.Base.{
  ℕ, zero, suc, ◌+◌, ◌-◌, ◌*◌, ◌/◌, ◌%◌, ◌^◌, ◌≤◌, ◌<◌, ◌≡◌, ◌≢◌, refl, sym, ap, ◌∙◌, subst, Bool,
  true, false, not, ◌&&◌, ◌||◌, Bool-cases, inl, inr, ◌⊎◌, Option, none, some, List, [], ◌∷◌, ◌++◌,
  ltb, leb, leb→le, ltb→le, ltb→lt, ◌==◌, ==→eq, ==→ne, if◌then◌else◌, length, length-append, All,
  IsByte, All-append_inv, Bytes, append-nil, append_assoc, u64_mod, arith, mask5, bit_and, is_utf8,
  bytes_lt,
}
use janex.Failure.{
  Result, ok, err, Ensures, holds, failed, Ensures-if, Ensures-bind, Ensures-weaken,
  Ensures-reject_if,
}
use janex.Binary.{Limits, limit_bytes, limit_elements}
use janex.Binary.Decoder
use janex.Binary.Decoder.{Decoder, slice}
use janex.Binary.Cursor.{
  cursor, cursor_path, Addressable, Addressable-assoc-in, Reads, take_sound, u8_next, u8_end,
}
use janex.Cbor.{
  Half, Scan, scan, scan_item, scan_content, scan_string, scan_items, scan_entries, scan_simple,
  out_of_order, Value, from_bytes,
}
use janex.Cbor.Item.{
  Item, Items, Entries, uint, nint, byte_string, text, array, dict, tag, nil, cons, end, entry,
  info, extra, head, encode, encode_items, encode_entries, count_items, count_entries, Follows,
  Fits, FitsItems, FitsEntries,
}
use janex.Cbor.Head.{argument_sound}
use janex.Cbor.Accept.{slice_key}

module _ ⦃half : Half⦄ (limits : Limits) where
  -- The cursor has passed the encoding of an item that fits.
  pub record Scanned (depth : ℕ) (before after : Bytes) (d : Decoder) : Type 0 where
    pub item : Item
    pub rest : Bytes
    pub split : after ≡ encode item ++ rest
    pub moved : d ≡ cursor limits (before ++ encode item) rest
    pub within : Fits limits depth item

  -- The cursor stands behind `start`, of which the item begins.
  pub record Content (depth : ℕ) (before start after : Bytes) (d : Decoder) : Type 0 where
    pub item : Item
    pub rest : Bytes
    pub split : start ++ after ≡ encode item ++ rest
    pub moved : d ≡ cursor limits (before ++ encode item) rest
    pub within : Fits limits depth item

  -- What is asked of the scan one level down.
  abbrev pub IsSound : Scan → Type 0
  IsSound scan =
      (depth : ℕ) (before after input : Bytes)
      → All IsByte after
      → Addressable before after
      → input ≡ before ++ after
      → Ensures (Scanned depth before after) (scan (cursor limits before after) input depth)

  pub record ScannedItems (depth count : ℕ) (before after : Bytes) (d : Decoder) : Type 0 where
    pub items : Items
    pub rest : Bytes
    pub counted : count_items items ≡ count
    pub split : after ≡ encode_items items ++ rest
    pub moved : d ≡ cursor limits (before ++ encode_items items) rest
    pub within : FitsItems limits depth items

  pub record ScannedEntries (depth count : ℕ) (previous : Option Bytes) (before after : Bytes)
      (d : Decoder) : Type 0 where
    pub entries : Entries
    pub rest : Bytes
    pub counted : count_entries entries ≡ count
    pub split : after ≡ encode_entries entries ++ rest
    pub moved : d ≡ cursor limits (before ++ encode_entries entries) rest
    pub within : FitsEntries limits depth previous entries

  pub limit_bytes_sound :
      (n : ℕ) → Ensures (λ m. (m ≡ n) × (n ≤ limits.max_bytes)) (limit_bytes limits n)
  unfolding limit_bytes
  limit_bytes_sound n = Ensures-reject_if (ltb limits.max_bytes n) _ (λ h.
      elim (Bool-cases (ltb n u64_mod)) [
        | inl word ↦ rw word (holds (refl, ltb→le limits.max_bytes n h))
        | inr large ↦ rw large failed
      ])

  pub limit_elements_sound :
      (n : ℕ) → Ensures (λ m. (m ≡ n) × (n ≤ limits.max_elements)) (limit_elements limits n)
  unfolding limit_elements
  limit_elements_sound n = Ensures-reject_if (ltb limits.max_elements n) _ (λ h.
      elim (Bool-cases (ltb n u64_mod)) [
        | inl word ↦ rw word (holds (refl, ltb→le limits.max_elements n h))
        | inr large ↦ rw large failed
      ])

  pub Content-of :
      (x : Item) (depth : ℕ) (before start body after rest : Bytes) {d : Decoder}
      → encode x ≡ start ++ body
      → after ≡ body ++ rest
      → d ≡ cursor limits ((before ++ start) ++ body) rest
      → Fits limits depth x
      → Content depth before start after d
  Content-of x depth before start body after rest code split moved within = record {
    item = x;
    rest = rest;
    split =
        ap (λ (t : Bytes). start ++ t) split
        ∙ sym (append_assoc start body rest)
        ∙ ap (λ (t : Bytes). t ++ rest) (sym code);
    moved =
        moved
        ∙ cursor_path limits rest rest
            (append_assoc before start body ∙ ap (λ (t : Bytes). before ++ t) (sym code)) refl;
    within = within;
  }

  pub string-Content :
      (is_text : Bool) (x : Bytes → Item) (major depth n at : ℕ) (before after : Bytes)
      → ((field : Bytes) → encode (x field) ≡ head major (length field) ++ field)
      → ((field : Bytes)
          → length field < u64_mod
          → length field ≤ limits.max_bytes
          → (is_text && not (is_utf8 field)) ≡ false
          → Fits limits depth (x field))
      → n < u64_mod
      → Addressable (before ++ head major n) after
      → Ensures
          (Content depth before (head major n) after)
          (scan_string is_text (cursor limits (before ++ head major n) after) n at)
  unfolding scan_string
  string-Content is_text x major depth n at before after code fits word room =
      Ensures-bind (limit_bytes_sound n) λ m bound.
        Ensures-bind (take_sound limits (before ++ head major n) after m room) λ r read.
          Ensures-reject_if (is_text && not (is_utf8 r.0)) _ λ valid. holds (
            let size : length read.field ≡ n = read.meets.1 ∙ bound.0 in
            Content-of (x read.field) depth before (head major n) read.field after read.rest
              (code read.field ∙ ap (λ (t : ℕ). head major t ++ read.field) size) read.split
              read.moved
              (fits read.field (subst (λ (t : ℕ). t < u64_mod) (sym size) word)
                (subst (λ (t : ℕ). t ≤ limits.max_bytes) (sym size) bound.1)
                (subst (λ (t : Bytes). (is_text && not (is_utf8 t)) ≡ false) read.meets.0 valid)))

  pub rest_bytes :
      (front rest after : Bytes) → after ≡ front ++ rest → All IsByte after → All IsByte rest
  rest_bytes front rest after split bytes =
      (All-append_inv IsByte front rest (subst (All IsByte) split bytes)).1

  pub items_sound :
      (scan : Scan)
      → IsSound scan
      → (count depth : ℕ) (before after input : Bytes) → All IsByte after
      → Addressable before after
      → input ≡ before ++ after
      → Ensures
          (ScannedItems depth count before after)
          (scan_items scan input depth count (cursor limits before after))
  unfolding scan_items encode
  items_sound scan sound zero depth before after input bytes room e = holds (record {
    items = nil;
    rest = after;
    counted = refl;
    split = refl;
    moved = λ i. cursor limits (sym (append-nil before) i) after;
    within = tt;
  })
  items_sound scan sound (suc count) depth before after input bytes room e =
      Ensures-bind (sound depth before after input bytes room e) λ d read.
        let front = encode read.item in
        let whole =
          e
          ∙ ap (λ (t : Bytes). before ++ t) read.split
          ∙ sym (append_assoc before front read.rest) in
        let space =
          Addressable-assoc-in before front read.rest
            (subst (λ (t : Bytes). Addressable before t) read.split room) in
        rw read.moved (
          Ensures-weaken
            (items_sound scan sound count depth (before ++ front) read.rest input
              (rest_bytes front read.rest after read.split bytes) space whole)
            (λ d' more. record {
              items = cons read.item more.items;
              rest = more.rest;
              counted = ap suc more.counted;
              split =
                  read.split
                  ∙ ap (λ (t : Bytes). front ++ t) more.split
                  ∙ sym (append_assoc front (encode_items more.items) more.rest);
              moved =
                  more.moved
                  ∙ cursor_path limits more.rest more.rest
                      (append_assoc before front (encode_items more.items)) refl;
              within = (read.within, more.within);
            }))
