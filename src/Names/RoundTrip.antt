-- ===== src/Names/RoundTrip.antt =====
-- janex-format/src/strings.rs: names that `write_nonempty` writes, read by `read_nonempty`.
use janex.Base.{
  ℕ, zero, suc, ◌+◌, ◌<◌, ◌≤◌, ◌≡◌, ◌≢◌, refl, sym, ap, ◌∙◌, subst, Bool, true, false, Option, none,
  some, List, [], ◌∷◌, ◌++◌, ltb, lt→ltb, ltb→lt, if◌then◌else◌, length, length-append, get_or,
  Bytes, ascii, arith, append_assoc, append-nil, is_utf8, is_utf8-front, strip_suffix,
  strip_suffix-append, u64_mod, IsU64,
}
use janex.Failure.{Result, ok, ok_injective, err, invalid, if_some, ◌>>=◌}
use janex.Binary.{Limits, vec_write, write_vuint}
use janex.Binary.Cursor.{cursor}
use janex.Binary.Uleb.{uleb}
use janex.Binary.Writing.{write_vuint-uleb, length-uleb}
use janex.Pool.{DataPool, DataPoolBuilder, get, intern}
use janex.Pool.Builder.{IsBuilder, intern-entry}
use janex.Pool.Entries.{get-entry, Holds}
use janex.Names.{read_nonempty, filter_find, shared_base, write_nonempty}
use janex.Names.Reading.{IsText, not_empty, read_whole, read_parts}

get_or-front :
    (es more : List Bytes) (i : ℕ) → i < length es → get_or (es ++ more) i [] ≡ get_or es i []
get_or-front [] more i h = absurd (omega arith)
get_or-front (e ∷ es) more zero h = refl
get_or-front (e ∷ es) more (suc i) h = get_or-front es more i (omega arith)

-- An index that leads to a value is one of the entries.
get-place :
    (pool : DataPool) (es : List Bytes) (i : ℕ) (v : Bytes)
    → Holds pool es
    → get pool i ≡ ok v
    → (i < length es) × (get_or es i [] ≡ v)
get-place pool es i v h e = by_test (ltb i (length es)) refl (sym (get-entry pool es i h) ∙ e)
  where
    by_test :
        (t : Bool)
        → ltb i (length es) ≡ t
        → (if t then ok (get_or es i []) else err (invalid "data pool index out of range")) ≡ ok v
        → (i < length es) × (get_or es i [] ≡ v)
    by_test true less k = (ltb→lt i (length es) less, ok_injective k)
    by_test false less k = cc

-- An index that leads to a text is no zero, where the first entry is empty.
usable :
    (pool : DataPool) (es : List Bytes) (i : ℕ) (v : Bytes)
    → Holds pool ([] ∷ es)
    → length es + 1 < u64_mod
    → is_utf8 v ≡ true
    → 1 ≤ length v
    → get pool i ≡ ok v
    → IsText pool i v × (i ≢ 0)
usable pool es i v h room utf8 some_byte e =
    let place = get-place pool ([] ∷ es) i v h e in
    (
      record { entry = e; utf8 = utf8; word = omega (arith, place.0) },
      λ z. absurd (first i z place.1),
    )
  where
    first : (n : ℕ) → n ≡ 0 → get_or ([] ∷ es) n [] ≡ v → ⊥
    first n z k =
        let none_there : [] ≡ v = ap (λ (t : ℕ). get_or ([] ∷ es) t []) (sym z) ∙ k in
        omega (arith, ap length none_there)

abbrev class : Bytes
class = ascii ".class"

class_utf8 : is_utf8 class ≡ true
unfolding is_utf8
class_utf8 = refl

module _ (limits : Limits) (b : DataPoolBuilder) (es : List Bytes)
    (before after value : Bytes) where
  -- What a call of `write_nonempty` comes to.
  pub record ReadBack (result : Bytes × DataPoolBuilder) : Type 0 where
    pub field : Bytes
    pub more : List Bytes
    pub whole : result.0 ≡ before ++ field
    pub kept : IsBuilder result.1 (([] ∷ es) ++ more)
    pub back :
        read_nonempty result.1.pool (cursor limits before (field ++ after))
        ≡ ok (value, cursor limits result.0 after)

  abbrev pub Writes : Result (Bytes × DataPoolBuilder) → Type 0
  Writes run = (r : Bytes × DataPoolBuilder) × (run ≡ ok r) × ReadBack r

  module _ (h : IsBuilder b ([] ∷ es)) (utf8 : is_utf8 value ≡ true) (some_byte : 1 ≤ length value)
      (fits : length value ≤ limits.max_bytes) (size : IsU64 (length value))
      (few : 2 ≤ limits.max_elements) (room : length before + length after + 23 < u64_mod)
      (indices : length es + 2 < u64_mod) where
    -- The name is an entry already, or becomes one.
    Writes-whole :
        (c : DataPoolBuilder) (i : ℕ) (more : List Bytes)
        → IsBuilder c (([] ∷ es) ++ more)
        → length more ≤ 1
        → get c.pool i ≡ ok value
        → Writes (write_vuint i before >>= λ written. ok (written, c))
    Writes-whole c i more kept short leads =
        let use' =
          usable c.pool (es ++ more) i value kept.holds (omega (arith, length-append es more)) utf8
            some_byte leads in
        (
          (before ++ uleb 9 i, c),
          rw (write_vuint-uleb i before use'.0.word) refl,
          record {
            field = uleb 9 i;
            more = more;
            whole = refl;
            kept = kept;
            back =
                read_whole limits c.pool before after value i use'.0 use'.1 some_byte fits size
                  (omega (arith, length-uleb 9 i));
          },
        )

    Writes-new :
        Writes
          (write_vuint (intern value b).0 before >>= λ written. ok (written, (intern value b).1))
    Writes-new =
        let new = intern-entry value b ([] ∷ es) h in
        Writes-whole (intern value b).1 (intern value b).0 new.more new.kept new.at_most_one
          new.leads

    -- The name is a base that is an entry, and `.class`.
    Writes-parts :
        (base : Bytes) (i : ℕ)
        → value ≡ base ++ ascii ".class"
        → 1 ≤ length base
        → b.indices base ≡ some i
        → Writes (
            write_vuint i (before ++ (0 ∷ 0 ∷ 2 ∷ [])) >>= λ base_written.
            write_vuint (intern (ascii ".class") b).0 base_written >>= λ written.
            ok (written, (intern (ascii ".class") b).1))
    Writes-parts base i whole base_byte found =
        let new = intern-entry class b ([] ∷ es) h in
        let c = (intern class b).1 in
        let j = (intern class b).0 in
        let u = uleb 9 i in
        let v = uleb 9 j in
        let place = h.indexes.found base i found in
        let sum = length-append es new.more in
        let total = ap length whole ∙ length-append base class in
        let old : get c.pool i ≡ ok base =
          get-entry c.pool (([] ∷ es) ++ new.more) i new.kept.holds
          ∙ rw (lt→ltb i (suc (length (es ++ new.more))) (omega (arith, place.0, sum)))
              (ap ok (get_or-front ([] ∷ es) new.more i place.0 ∙ place.1)) in
        let base_text =
          usable c.pool (es ++ new.more) i base new.kept.holds (omega (arith, sum, new.at_most_one))
            (is_utf8-front base b'.' (ascii "class") (omega arith) (ap is_utf8 (sym whole) ∙ utf8))
            base_byte old in
        let suffix_text =
          usable c.pool (es ++ new.more) j class new.kept.holds
            (omega (arith, sum, new.at_most_one)) class_utf8 (omega arith) new.leads in
        (
          (((before ++ (0 ∷ 0 ∷ 2 ∷ [])) ++ u) ++ v, c),
          rw (write_vuint-uleb i (before ++ (0 ∷ 0 ∷ 2 ∷ [])) base_text.0.word)
              (rw (write_vuint-uleb j ((before ++ (0 ∷ 0 ∷ 2 ∷ [])) ++ u) suffix_text.0.word) refl),
          record {
            field = 0 ∷ 0 ∷ 2 ∷ (u ++ v);
            more = new.more;
            whole =
                append_assoc (before ++ (0 ∷ 0 ∷ 2 ∷ [])) u v
                ∙ append_assoc before (0 ∷ 0 ∷ 2 ∷ []) (u ++ v);
            kept = new.kept;
            back =
                (λ t.
                  read_nonempty c.pool
                    (cursor limits before (0 ∷ 0 ∷ 2 ∷ append_assoc u v after t)))
                ∙ read_parts limits c.pool before after base class i j base_text.0 suffix_text.0
                    base_byte (omega (arith, total)) (omega (arith, total)) few
                    (omega (arith, length-uleb 9 i, length-uleb 9 j))
                ∙ λ t.
                    ok
                      (sym whole t, cursor limits (((before ++ (0 ∷ 0 ∷ 2 ∷ [])) ++ u) ++ v) after);
          },
        )

    -- Whether what stands before `.class` is an entry.
    Writes-shared :
        (o : Option Bytes)
        → ((base : Bytes) → o ≡ some base → value ≡ base ++ class)
        → Writes (
            if_some
              (filter_find b o)
              (λ i. write_vuint i (before ++ (0 ∷ 0 ∷ 2 ∷ [])) >>= λ base_written.
                write_vuint (intern class b).0 base_written >>= λ written.
                ok (written, (intern class b).1))
              (write_vuint (intern value b).0 before >>= λ written.
                ok (written, (intern value b).1)))
    Writes-shared none split = Writes-new
    Writes-shared (some []) split = Writes-new
    Writes-shared (some (c ∷ base)) split = by_index (b.indices (c ∷ base)) refl
      where
        by_index :
            (o : Option ℕ)
            → b.indices (c ∷ base) ≡ o
            → Writes (
                if_some o
                  (λ i. write_vuint i (before ++ (0 ∷ 0 ∷ 2 ∷ [])) >>= λ base_written.
                    write_vuint (intern class b).0 base_written >>= λ written.
                    ok (written, (intern class b).1))
                  (write_vuint (intern value b).0 before >>= λ written.
                    ok (written, (intern value b).1)))
        by_index none e = Writes-new
        by_index (some i) e = Writes-parts (c ∷ base) i (split (c ∷ base) refl) (omega arith) e

    -- Every name that is a nonempty UTF-8 text within the byte limit is written, whatever is in the
    -- pool: on a builder whose first entry is empty and whose index finds its entries and nothing
    -- else, `write_nonempty` keeps the entries and the index, appends a field to the bytes, and
    -- `read_nonempty` over the new pool reads the name back from that field and leaves what
    -- follows. The reader must allow two elements, and the bytes and indices fit 64 bits.
    pub read_nonempty-write_nonempty : Writes (write_nonempty b value before)
    unfolding write_nonempty shared_base
    read_nonempty-write_nonempty = rw (not_empty value some_byte) (by_find (b.indices value) refl)
      where
        by_find :
            (o : Option ℕ)
            → b.indices value ≡ o
            → Writes (
                if_some o
                  (λ i. write_vuint i before >>= λ written. ok (written, b))
                  (if_some
                    (filter_find b (strip_suffix class value))
                    (λ i. write_vuint i (before ++ (0 ∷ 0 ∷ 2 ∷ [])) >>= λ base_written.
                      write_vuint (intern class b).0 base_written >>= λ written.
                      ok (written, (intern class b).1))
                    (write_vuint (intern value b).0 before >>= λ written.
                      ok (written, (intern value b).1))))
        by_find none e = Writes-shared (strip_suffix class value) (strip_suffix-append class value)
        by_find (some i) e =
            let place = h.indexes.found value i e in
            Writes-whole b i [] (subst (IsBuilder b) (sym (append-nil ([] ∷ es))) h) (omega arith) (
              get-entry b.pool ([] ∷ es) i h.holds
              ∙ rw (lt→ltb i (length ([] ∷ es)) place.0) (ap ok place.1))
