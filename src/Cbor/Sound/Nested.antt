-- ===== src/Cbor/Sound/Nested.antt =====
-- janex-format/src/cbor.rs: what the scanner accepts among maps and tags, and at any nesting.
use janex.Base.{
  ne→==, ℕ, zero, suc, ◌+◌, ◌-◌, ◌*◌, ◌/◌, ◌%◌, ◌≤◌, ◌<◌, ◌≡◌, ◌≢◌, refl, sym, ap, ◌∙◌, subst, Bool,
  true, false, not, ◌&&◌, Bool-cases, inl, inr, Option, none, some, [], ◌∷◌, ◌++◌, ltb, ltb→le,
  ◌==◌, ==→eq, ==→ne, length, length-append, All, IsByte, Bytes, append-nil, append_assoc, u64_mod,
  arith, mask5, is_utf8, bytes_lt,
}
use janex.Failure.{
  Ensures, holds, failed, Ensures-if, Ensures-bind, Ensures-weaken, Ensures-reject_if,
}
use janex.Binary.{Limits}
use janex.Binary.Decoder
use janex.Binary.Decoder.{Decoder, slice, remaining}
use janex.Binary.Cursor.{cursor, cursor_path, Addressable, Addressable-assoc-in, u8_next, u8_end}
use janex.Cbor.{
  Half, Scan, scan, scan_item, scan_content, scan_entries, out_of_order, Value, from_bytes,
}
use janex.Cbor.Item.{
  Item, uint, nint, byte_string, text, array, dict, tag, end, entry, info, extra, head, encode,
  encode_items, encode_entries, Follows, Fits,
}
use janex.Cbor.Head.{argument_sound, IsArgument}
use janex.Cbor.Accept.{slice_key}
use janex.Cbor.Sound.{
  Scanned, Content, ScannedEntries, IsSound, limit_elements_sound, Content-of, limit_bytes_sound,
  string-Content, rest_bytes, items_sound,
}
use janex.Cbor.Sound.Floats.{simple_sound}

in_order_sound :
    (previous : Option Bytes) (key : Bytes)
    → out_of_order previous key ≡ false
    → Follows previous key
unfolding out_of_order
in_order_sound none key h = tt
in_order_sound (some previous) key h = elim (Bool-cases (bytes_lt previous key)) [
  | inl below ↦ below
  | inr above ↦ cc
]

text_valid : (valid : Bool) → (true && not valid) ≡ false → valid ≡ true
text_valid true h = refl
text_valid false h = cc

initial_byte : (first v : ℕ) → first % 32 ≡ info v → first ≡ first / 32 * 32 + info v
initial_byte first v h = omega arith

nothing_left :
    (before rest : Bytes) → not (length (before ++ rest) - length before == 0) ≡ false → rest ≡ []
nothing_left before [] h = refl
nothing_left before (b ∷ rest) h =
    let more : length (before ++ (b ∷ rest)) - length before ≢ 0 =
      λ e. absurd (omega (arith, length-append before (b ∷ rest))) in
    cc (ne→== (length (before ++ (b ∷ rest)) - length before) 0 more)

module _ ⦃half : Half⦄ (limits : Limits) where
  new_sound : (bytes : Bytes) → Ensures (λ d. d ≡ cursor limits [] bytes) (Decoder.new bytes limits)
  unfolding Decoder.new
  new_sound bytes = Ensures-bind (limit_bytes_sound limits (length bytes)) λ _ _. holds refl

  next_entry :
      (depth count : ℕ) (previous : Option Bytes) (before after : Bytes) {d d' d'' : Decoder}
      (key : Scanned limits depth before after d)
      (value : Scanned limits depth (before ++ encode key.item) key.rest d')
      → Follows previous (encode key.item)
      → ScannedEntries limits depth count
          (some (encode key.item))
          ((before ++ encode key.item) ++ encode value.item)
          value.rest
          d''
      → ScannedEntries limits depth (suc count) previous before after d''
  unfolding encode
  next_entry depth count previous before after key value order more =
      let k = encode key.item in
      let v = encode value.item in
      let es = encode_entries more.entries in
      record {
        entries = entry key.item value.item more.entries;
        rest = more.rest;
        counted = ap suc more.counted;
        split =
            key.split
            ∙ ap (λ (t : Bytes). k ++ t) (value.split ∙ ap (λ (t : Bytes). v ++ t) more.split)
            ∙ ap (λ (t : Bytes). k ++ t) (sym (append_assoc v es more.rest))
            ∙ sym (append_assoc k (v ++ es) more.rest);
        moved =
            more.moved
            ∙ cursor_path limits more.rest more.rest
                (append_assoc (before ++ k) v es ∙ append_assoc before k (v ++ es)) refl;
        within = (key.within, order, value.within, more.within);
      }

  entries_sound :
      (scan : Scan)
      → IsSound limits scan
      → (count depth : ℕ) (previous : Option Bytes) (before after input : Bytes) → All IsByte after
      → Addressable before after
      → input ≡ before ++ after
      → Ensures
          (ScannedEntries limits depth count previous before after)
          (scan_entries scan input depth count previous (cursor limits before after))
  unfolding scan_entries encode
  entries_sound scan sound zero depth previous before after input bytes room e = holds (record {
    entries = end;
    rest = after;
    counted = refl;
    split = refl;
    moved = λ i. cursor limits (sym (append-nil before) i) after;
    within = tt;
  })
  entries_sound scan sound (suc count) depth previous before after input bytes room e =
      Ensures-bind (sound depth before after input bytes room e) λ d key.
        let k = encode key.item in
        let whole = e ∙ ap (λ (t : Bytes). before ++ t) key.split in
        let read : slice input (length before) (length (before ++ k)) ≡ k =
          ap (λ (t : Bytes). slice t (length before) (length (before ++ k))) whole
          ∙ slice_key before k key.rest in
        let space =
          Addressable-assoc-in before k key.rest
            (subst (λ (t : Bytes). Addressable before t) key.split room) in
        let behind = rest_bytes limits k key.rest after key.split bytes in
        let at_value = whole ∙ sym (append_assoc before k key.rest) in
        rw key.moved (
          rw read (
            Ensures-reject_if (out_of_order previous k) _ λ order.
              Ensures-bind (sound depth (before ++ k) key.rest input behind space at_value)
                λ d' value.
                  let v = encode value.item in
                  let last = rest_bytes limits v value.rest key.rest value.split behind in
                  let room_rest =
                    Addressable-assoc-in (before ++ k) v value.rest
                      (subst (λ (t : Bytes). Addressable (before ++ k) t) value.split space) in
                  let at_rest =
                    at_value
                    ∙ ap (λ (t : Bytes). (before ++ k) ++ t) value.split
                    ∙ sym (append_assoc (before ++ k) v value.rest) in
                  rw value.moved (
                    Ensures-weaken
                      (entries_sound scan sound count depth (some k) ((before ++ k) ++ v) value.rest
                        input last room_rest at_rest)
                      (λ d'' more.
                        next_entry depth count previous before after key value
                          (in_order_sound previous k order) more))))

  -- What stands behind the argument, by the major type.
  Content-sound :
      (scan : Scan)
      → IsSound limits scan
      → (major n depth start : ℕ) (before after input : Bytes) → major < 7
      → n < u64_mod
      → depth ≤ limits.max_depth
      → All IsByte after
      → Addressable (before ++ head major n) after
      → input ≡ (before ++ head major n) ++ after
      → Ensures (Content limits depth before (head major n) after) (
          scan_content scan major
            (cursor limits (before ++ head major n) after)
            input
            depth
            n
            start)
  unfolding scan_content encode
  Content-sound scan sound zero n depth start before after input low word deep bytes room e =
      holds (
        Content-of limits (uint n) depth before (head 0 n) [] after after
          (sym (append-nil (head 0 n))) refl
          (cursor_path limits after after (sym (append-nil (before ++ head 0 n))) refl)
          (deep, word))
  Content-sound scan sound (suc zero) n depth start before after input low word deep bytes room e =
      holds (
        Content-of limits (nint n) depth before (head 1 n) [] after after
          (sym (append-nil (head 1 n))) refl
          (cursor_path limits after after (sym (append-nil (before ++ head 1 n))) refl)
          (deep, word))
  Content-sound scan sound (suc (suc zero)) n depth start before after input low word deep bytes
        room e =
      string-Content limits false byte_string 2 depth n start before after (λ f. refl)
        (λ f size short _. (deep, size, short)) word room
  Content-sound scan sound (suc (suc (suc zero))) n depth start before after input low word deep
        bytes room e =
      string-Content limits true text 3 depth n start before after (λ f. refl)
        (λ f size short valid. (deep, size, short, text_valid (is_utf8 f) valid)) word room
  Content-sound scan sound (suc (suc (suc (suc zero)))) n depth start before after input low word
        deep bytes room e =
      Ensures-bind (limit_elements_sound limits n) λ count bound. rw bound.0 (
        Ensures-weaken
          (items_sound limits scan sound n (depth + 1) (before ++ head 4 n) after input bytes room
            e)
          (λ d r.
            Content-of limits (array r.items) depth before (head 4 n) (encode_items r.items) after
              r.rest (ap (λ (t : ℕ). head 4 t ++ encode_items r.items) r.counted) r.split r.moved
              (
                deep,
                subst (λ (t : ℕ). t < u64_mod) (sym r.counted) word,
                subst (λ (t : ℕ). t ≤ limits.max_elements) (sym r.counted) bound.1,
                r.within,
              )))
  Content-sound scan sound (suc (suc (suc (suc (suc zero))))) n depth start before after input low
        word deep bytes room e =
      Ensures-bind (limit_elements_sound limits n) λ count bound. rw bound.0 (
        Ensures-weaken
          (entries_sound scan sound n (depth + 1) none (before ++ head 5 n) after input bytes room
            e)
          (λ d r.
            Content-of limits (dict r.entries) depth before (head 5 n) (encode_entries r.entries)
              after r.rest (ap (λ (t : ℕ). head 5 t ++ encode_entries r.entries) r.counted) r.split
              r.moved
              (
                deep,
                subst (λ (t : ℕ). t < u64_mod) (sym r.counted) word,
                subst (λ (t : ℕ). t ≤ limits.max_elements) (sym r.counted) bound.1,
                r.within,
              )))
  Content-sound scan sound (suc (suc (suc (suc (suc (suc zero)))))) n depth start before after input
        low word deep bytes room e =
      Ensures-weaken (sound (depth + 1) (before ++ head 6 n) after input bytes room e) (λ d r.
        Content-of limits (tag n r.item) depth before (head 6 n) (encode r.item) after r.rest refl
          r.split r.moved (deep, word, r.within))
  Content-sound scan sound (suc (suc (suc (suc (suc (suc (suc m))))))) n depth start before after
        input low word deep bytes room e =
      absurd (omega arith)

  -- The bytes that `Content` splits are those from the initial byte on.
  Scanned-of_Content :
      (depth first v : ℕ) (before field rest after : Bytes) {d : Decoder}
      → first % 32 ≡ info v
      → field ≡ extra v
      → after ≡ field ++ rest
      → Content limits depth before (head (first / 32) v) rest d
      → Scanned limits depth before (first ∷ after) d
  Scanned-of_Content depth first v before field rest after info_eq field_eq split c = record {
    item = c.item;
    rest = c.rest;
    split =
        (λ i. initial_byte first v info_eq i ∷ (split ∙ ap (λ (t : Bytes). t ++ rest) field_eq) i)
        ∙ c.split;
    moved = c.moved;
    within = c.within;
  }

  with_argument :
      (scan : Scan)
      → IsSound limits scan
      → (depth first v : ℕ) (d : Decoder) (before field rest after input : Bytes)
      → IsArgument (first % 32) v field
      → after ≡ field ++ rest
      → d ≡ cursor limits ((before ++ (first ∷ [])) ++ field) rest
      → All IsByte (first ∷ after)
      → Addressable before (first ∷ after)
      → input ≡ before ++ (first ∷ after)
      → depth ≤ limits.max_depth
      → first / 32 ≢ 7
      → Ensures
          (Scanned limits depth before (first ∷ after))
          (scan_content scan (first / 32) d input depth v (length before))
  with_argument scan sound depth first v d before field rest after input arg split moved bytes room
        e deep other =
      let code : first ∷ field ≡ head (first / 32) v =
        λ i. initial_byte first v arg.1 i ∷ arg.0 i in
      let joined : (before ++ (first ∷ [])) ++ field ≡ before ++ head (first / 32) v =
        append_assoc before (first ∷ []) field ∙ ap (λ (t : Bytes). before ++ t) code in
      let parts : first ∷ after ≡ head (first / 32) v ++ rest =
        ap (λ (t : Bytes). first ∷ t) split ∙ ap (λ (t : Bytes). t ++ rest) code in
      let whole : input ≡ (before ++ head (first / 32) v) ++ rest =
        e
        ∙ ap (λ (t : Bytes). before ++ t) parts
        ∙ sym (append_assoc before (head (first / 32) v) rest) in
      rw (moved ∙ cursor_path limits rest rest joined refl) (
        Ensures-weaken
          (Content-sound scan sound (first / 32) v depth (length before) before rest input
            (omega arith) arg.2 deep (rest_bytes limits field rest after split bytes.1)
            (Addressable-assoc-in before (head (first / 32) v) rest
              (subst (λ (t : Bytes). Addressable before t) parts room))
            whole)
          (λ d' c. Scanned-of_Content depth first v before field rest after arg.1 arg.0 split c))

  scan_item-IsSound : (scan : Scan) → IsSound limits scan → IsSound limits (scan_item scan)
  unfolding scan_item
  scan_item-IsSound scan sound depth before [] input bytes room e =
      Ensures-reject_if (ltb limits.max_depth depth) _ λ _. rw (u8_end limits before room) failed
  scan_item-IsSound scan sound depth before (first ∷ after) input bytes room e =
      Ensures-reject_if (ltb limits.max_depth depth) _ λ deep.
        let within_depth = ltb→le limits.max_depth depth deep in
        let space = Addressable-assoc-in before (first ∷ []) after room in
        rw (u8_next limits before after first room) (
          rw (mask5 first) (
            Ensures-if (first / 32 == 7)
              (λ seven.
                Ensures-weaken
                  (simple_sound limits first depth (length before) before after
                    (==→eq (first / 32) 7 seven) within_depth bytes.1 space)
                  (λ d c. record {
                    item = c.item;
                    rest = c.rest;
                    split = c.split;
                    moved = c.moved;
                    within = c.within;
                  }))
              (λ other.
                Ensures-bind
                  (argument_sound limits (before ++ (first ∷ [])) after bytes.1 space (first % 32))
                  λ r read.
                    with_argument scan sound depth first r.0 r.1 before read.field read.rest after
                      input read.meets read.split read.moved bytes room e within_depth
                      (==→ne (first / 32) 7 other))))

  scan-IsSound : (levels : ℕ) → IsSound limits (scan levels)
  unfolding scan
  scan-IsSound zero depth before after input bytes room e = failed
  scan-IsSound (suc levels) depth before after input bytes room e =
      scan_item-IsSound (scan levels) (scan-IsSound levels) depth before after input bytes room e

  -- The item of which an accepted input is the encoding.
  pub record Decoded (bytes : Bytes) (v : Value) : Type 0 where
    pub item : Item
    pub encoded : encode item ≡ bytes
    pub within : Fits limits 0 item
    pub retained : v.bytes ≡ bytes

  -- `Value::from_bytes` accepts nothing but deterministic encodings: whenever it succeeds on bytes
  -- below 256 that fit the address space, its input is the deterministic encoding of a CBOR item
  -- within the limits, with no byte left over, and the value retains exactly that input.
  pub from_bytes_sound :
      (bytes : Bytes)
      → All IsByte bytes
      → length bytes < u64_mod
      → Ensures (Decoded bytes) (from_bytes bytes limits)
  unfolding from_bytes Decoder.finish
  from_bytes_sound bytes h word = Ensures-bind (limit_bytes_sound limits (length bytes)) λ n _.
      Ensures-bind (new_sound bytes) λ start fresh. rw fresh (
        Ensures-bind (scan-IsSound (suc limits.max_depth) 0 [] bytes bytes h (omega arith) refl)
          λ d run. rw run.moved (
            Ensures-reject_if (not (remaining (cursor limits (encode run.item) run.rest) == 0)) _
              λ none_left. holds (record {
                item = run.item;
                encoded =
                    sym (append-nil (encode run.item))
                    ∙ ap (λ (t : Bytes). encode run.item ++ t)
                        (sym (nothing_left (encode run.item) run.rest none_left))
                    ∙ sym run.split;
                within = run.within;
                retained = refl;
              })))
