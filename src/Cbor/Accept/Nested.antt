-- ===== src/Cbor/Accept/Nested.antt =====
-- janex-format/src/cbor.rs: the scanner on nested items, and `from_bytes` on whole encodings.
use janex.Base.{
  ℕ, suc, ◌-◌, ◌≤◌, ◌<◌, ◌≡◌, refl, sym, ap, ◌∙◌, subst, false, Option, none, some, [], ◌++◌,
  length, Bytes, append-nil, append_assoc, u64_mod, arith,
}
use janex.Failure.{ok}
use janex.Binary.{Limits}
use janex.Binary.Decoder
use janex.Binary.Decoder.{Decoder, slice}
use janex.Binary.Writing.{limit_bytes-ok}
use janex.Binary.Cursor.{
  Addressable-assoc, Addressable-pass, Addressable-assoc-in, cursor, cursor_path, Addressable,
}
use janex.Cbor.{Half, Scan, scan, scan_items, scan_entries, out_of_order, from_bytes}
use janex.Cbor.Item.{
  Item, Items, Entries, uint, nint, byte_string, text, array, dict, tag, simple, half_float, single,
  double, nil, cons, end, entry, encode, encode_items, encode_entries, count_entries, Follows, Fits,
}
use janex.Cbor.Simple.{accepts_simple, accepts_half, accepts_single, accepts_double}
use janex.Cbor.Accept.{
  slice_key, Accepts, AcceptsItems, AcceptsEntries, spend_level, below_uint, below_nint,
  below_byte_string, below_text, below_array, below_dict, below_tag, regroup,
}

sub_self : (n : ℕ) → n - n ≡ 0
sub_self n = omega arith

module _ ⦃half : Half⦄ (limits : Limits) where
  accepts_no_items : AcceptsItems limits nil
  unfolding scan_items encode
  accepts_no_items levels depth before after input hl h e room =
      λ i. ok (cursor_path limits after after (sym (append-nil before)) refl i)

  accepts_no_entries : AcceptsEntries limits end
  unfolding scan_entries encode
  accepts_no_entries levels depth previous before after input hl h e room =
      λ i. ok (cursor_path limits after after (sym (append-nil before)) refl i)

  Accepts-next_item :
      (x : Item) (xs : Items)
      → Accepts limits x
      → AcceptsItems limits xs
      → AcceptsItems limits (cons x xs)
  unfolding scan_items encode
  Accepts-next_item x xs item items levels depth before after input hl h e room =
      let split = append_assoc (encode x) (encode_items xs) after in
      rw split (
        rw
          (item levels depth before (encode_items xs ++ after) input hl h.0
            (e ∙ ap (λ (t : Bytes). before ++ t) split)
            (Addressable-assoc before (encode x) (encode_items xs) after room))
          (items levels depth (before ++ encode x) after input hl h.1
              (regroup limits input before (encode x) (encode_items xs) after e)
              (Addressable-pass before (encode x) (encode_items xs) after room)
            ∙ λ i. ok (
                cursor_path limits after after (append_assoc before (encode x) (encode_items xs))
                  refl i)))

  in_order :
      (previous : Option Bytes) (key : Bytes)
      → Follows previous key
      → out_of_order previous key ≡ false
  unfolding out_of_order
  in_order none key h = refl
  in_order (some previous) key h = rw h

  scan_one_entry :
      (scan : Scan) (depth count : ℕ) (previous : Option Bytes)
      (before key value rest input : Bytes)
      → scan (cursor limits before (key ++ (value ++ rest))) input depth
        ≡ ok (cursor limits (before ++ key) (value ++ rest))
      → scan (cursor limits (before ++ key) (value ++ rest)) input depth
        ≡ ok (cursor limits ((before ++ key) ++ value) rest)
      → input ≡ before ++ (key ++ (value ++ rest))
      → out_of_order previous key ≡ false
      → scan_entries scan input depth
          (suc count)
          previous
          (cursor limits before (key ++ (value ++ rest)))
        ≡ scan_entries scan input depth count
            (some key)
            (cursor limits ((before ++ key) ++ value) rest)
  unfolding scan_entries
  scan_one_entry scan depth count previous before key value rest input hk hv e order =
      let read : slice input (length before) (length (before ++ key)) ≡ key =
        ap (λ (t : Bytes). slice t (length before) (length (before ++ key))) e
        ∙ slice_key before key (value ++ rest) in
      rw hk (rw read (rw order (rw hv)))

  Accepts-next_entry :
      (k v : Item) (es : Entries)
      → Accepts limits k
      → Accepts limits v
      → AcceptsEntries limits es
      → AcceptsEntries limits (entry k v es)
  unfolding scan_entries encode
  Accepts-next_entry k v es key value entries levels depth previous before after input hl h e room =
      let split = append_assoc (encode k) (encode v ++ encode_entries es) after in
      let inner = append_assoc (encode v) (encode_entries es) after in
      let rest = encode_entries es ++ after in
      let assoc = split ∙ ap (λ (t : Bytes). encode k ++ t) inner in
      let whole = e ∙ ap (λ (t : Bytes). before ++ t) assoc in
      let space = subst (λ (t : Bytes). Addressable before t) assoc room in
      let after_key = Addressable-assoc-in before (encode k) (encode v ++ rest) space in
      let after_value = Addressable-assoc-in (before ++ encode k) (encode v) rest after_key in
      let behind = before ++ encode k in
      let whole_value = whole ∙ sym (append_assoc before (encode k) (encode v ++ rest)) in
      let whole_rest = whole_value ∙ sym (append_assoc behind (encode v) rest) in
      let run : scan_entries (scan levels) input depth (suc (count_entries es)) previous
            (cursor limits before (encode k ++ (encode v ++ rest)))
          ≡ ok (cursor limits ((behind ++ encode v) ++ encode_entries es) after) =
        scan_one_entry (scan levels) depth (count_entries es) previous before (encode k) (encode v)
          rest input (key levels depth before (encode v ++ rest) input hl h.0 whole space)
          (value levels depth behind rest input hl h.2 whole_value after_key) whole
          (in_order previous (encode k) h.1)
        ∙ entries levels depth (some (encode k)) (behind ++ encode v) after input hl h.3 whole_rest
            after_value in
      rw assoc (
        run ∙ λ i. ok (
          cursor_path limits after after
            (append_assoc behind (encode v) (encode_entries es)
              ∙ append_assoc before (encode k) (encode v ++ encode_entries es))
            refl i))

  mutual
    accepts : (x : Item) → Accepts limits x
    accepts (uint n) = spend_level limits (uint n) (below_uint limits n)
    accepts (nint n) = spend_level limits (nint n) (below_nint limits n)
    accepts (byte_string b) = spend_level limits (byte_string b) (below_byte_string limits b)
    accepts (text b) = spend_level limits (text b) (below_text limits b)
    accepts (array xs) = spend_level limits (array xs) (below_array limits xs (accepts_items xs))
    accepts (dict es) = spend_level limits (dict es) (below_dict limits es (accepts_entries es))
    accepts (tag n x) = spend_level limits (tag n x) (below_tag limits n x (accepts x))
    accepts (simple n) =
        spend_level limits (simple n) (λ levels depth before after input hl h e room.
          accepts_simple limits n levels depth before after input h room)
    accepts (half_float n) =
        spend_level limits (half_float n) (λ levels depth before after input hl h e room.
          accepts_half limits n levels depth before after input h room)
    accepts (single n) =
        spend_level limits (single n) (λ levels depth before after input hl h e room.
          accepts_single limits n levels depth before after input h room)
    accepts (double n) =
        spend_level limits (double n) (λ levels depth before after input hl h e room.
          accepts_double limits n levels depth before after input h room)

    accepts_items : (xs : Items) → AcceptsItems limits xs
    accepts_items nil = accepts_no_items
    accepts_items (cons x xs) = Accepts-next_item x xs (accepts x) (accepts_items xs)

    accepts_entries : (es : Entries) → AcceptsEntries limits es
    accepts_entries end = accepts_no_entries
    accepts_entries (entry k v es) =
        Accepts-next_entry k v es (accepts k) (accepts v) (accepts_entries es)

  -- `Value::from_bytes` accepts the deterministic encoding of every CBOR item that keeps to the
  -- limits of the reader, when its length is within the byte limit and the address space, and retains
  -- exactly those bytes.
  pub from_bytes-encode :
      (x : Item)
      → Fits limits 0 x
      → length (encode x) ≤ limits.max_bytes
      → length (encode x) < u64_mod
      → from_bytes (encode x) limits ≡ ok (record { bytes = encode x })
  unfolding from_bytes Decoder.new Decoder.finish
  from_bytes-encode x h short word =
      let whole = append-nil (encode x) in
      let run : scan (suc limits.max_depth) (cursor limits [] (encode x)) (encode x) 0
          ≡ ok (cursor limits (encode x) []) =
        subst
          (λ (t : Bytes).
            scan (suc limits.max_depth) (cursor limits [] t) (encode x) 0
            ≡ ok (cursor limits (encode x) []))
          whole
          (accepts x (suc limits.max_depth) 0 [] [] (encode x) (omega arith) h (sym whole)
            (omega (arith, ap length whole))) in
      rw (limit_bytes-ok limits (length (encode x)) short word)
        (rw run (rw (ap length whole) (rw (sub_self (length (encode x))))))
