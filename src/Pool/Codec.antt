-- ===== src/Pool/Codec.antt =====
-- janex-format/src/data_pool.rs: `encode` and `decode`.
use janex.Base.{
  ℕ, zero, suc, ◌+◌, ◌-◌, ◌<◌, ◌≤◌, ◌≡◌, ◌≢◌, refl, sym, ap, ◌∙◌, subst, List, [], ◌∷◌, ◌++◌, ne→==,
  length, length-append, Bytes, arith, append-nil, append_assoc, append_cancel, u64_mod, IsU64,
  le→ltb,
}
use janex.Failure.{ok, ◌>>=◌}
use janex.Binary.{Limits, vec_write, write_vuint, write_sized}
use janex.Binary.Decoder
use janex.Binary.Decoder.{Decoder, slice, remaining}
use janex.Binary.Cursor.{cursor}
use janex.Binary.Uleb.{uleb}
use janex.Binary.Writing.{
  write_vuint-uleb, sized-write_sized, vuint-write_vuint, limit_bytes-ok, limit_elements-ok,
}
use janex.Pool.{DataPool, push, encode, encode_entries, decode, decode_entries}
use janex.Pool.Entries.{concat, Holds, push-Holds, bounds_from, length-bounds_from, slice-part}

-- The bytes of one entry, of some, and of a pool.
abbrev pub entry_field : Bytes → Bytes
entry_field entry = uleb 9 (length entry) ++ entry

abbrev pub entry_fields : List Bytes → Bytes
entry_fields [] = []
entry_fields (entry ∷ entries) = entry_field entry ++ entry_fields entries

abbrev pub pool_field : List Bytes → Bytes
pool_field entries = uleb 9 (length entries) ++ entry_fields entries

write_sized-field :
    (entry out : Bytes)
    → IsU64 (length entry)
    → write_sized entry out ≡ ok (out ++ entry_field entry)
unfolding write_sized
write_sized-field entry out h =
    rw (write_vuint-uleb (length entry) out h)
      (ap ok (append_assoc out (uleb 9 (length entry)) entry))

length-uleb_pos : (k v : ℕ) → 1 ≤ length (uleb k v)
unfolding uleb
length-uleb_pos zero v = omega arith
length-uleb_pos (suc k) v = ground arith

length-entry_field : (entry : Bytes) → suc (length entry) ≤ length (entry_field entry)
length-entry_field entry =
    omega (arith, length-append (uleb 9 (length entry)) entry, length-uleb_pos 9 (length entry))

length-entry_fields : (es : List Bytes) → length es ≤ length (entry_fields es)
length-entry_fields [] = omega arith
length-entry_fields (e ∷ es) = omega (
  arith,
  length-append (entry_field e) (entry_fields es),
  length-entry_field e,
  length-entry_fields es,
)

module _ (limits : Limits) where
  pub read_entry :
      (before entry after : Bytes)
      → length entry ≤ limits.max_bytes
      → length before + length (entry_field entry) + length after < u64_mod
      → Decoder.sized (cursor limits before (entry_field entry ++ after))
        ≡ ok (entry, cursor limits (before ++ entry_field entry) after)
  read_entry before entry after fits room =
      let written = before ++ entry_field entry in
      let word : IsU64 (length entry) = omega (arith, length-entry_field entry) in
      let back =
        sized-write_sized limits before after written entry fits
          (write_sized-field entry before word)
          (omega (arith, length-append before (entry_field entry))) word in
      subst
        (λ (f : Bytes).
          Decoder.sized (cursor limits before (f ++ after))
          ≡ ok (entry, cursor limits written after))
        (sym (append_cancel before (entry_field entry) back.0 back.1)) back.2

  pub read_number :
      (before after : Bytes) (n : ℕ)
      → IsU64 n
      → length before + length (uleb 9 n) + length after < u64_mod
      → Decoder.vuint (cursor limits before (uleb 9 n ++ after))
        ≡ ok (n, cursor limits (before ++ uleb 9 n) after)
  read_number before after n word room =
      let written = before ++ uleb 9 n in
      let back =
        vuint-write_vuint limits before after written n word (write_vuint-uleb n before word)
          (omega (arith, length-append before (uleb 9 n))) in
      subst
        (λ (f : Bytes).
          Decoder.vuint (cursor limits before (f ++ after)) ≡ ok (n, cursor limits written after))
        (sym (append_cancel before (uleb 9 n) back.0 back.1)) back.2

abbrev push_all : DataPool → List Bytes → DataPool
push_all pool [] = pool
push_all pool (e ∷ es) = push_all (push pool e) es

push_all-Holds :
    (pool : DataPool) (es more : List Bytes)
    → Holds pool es
    → Holds (push_all pool more) (es ++ more)
push_all-Holds pool es [] h = subst (Holds pool) (sym (append-nil es)) h
push_all-Holds pool es (e ∷ more) h =
    subst (Holds (push_all pool (e ∷ more))) (append_assoc es (e ∷ []) more)
      (push_all-Holds (push pool e) (es ++ (e ∷ [])) more (push-Holds pool es e h))

-- The entries behind the first.
decode_entries-fields :
    (limits : Limits) (es : List Bytes) (index : ℕ) (pool : DataPool) (before after : Bytes)
    → index ≢ 0
    → length (entry_fields es) ≤ limits.max_bytes
    → length before + length (entry_fields es) + length after < u64_mod
    → decode_entries (length es) index (cursor limits before (entry_fields es ++ after)) pool
      ≡ ok (push_all pool es, cursor limits (before ++ entry_fields es) after)
unfolding decode_entries
decode_entries-fields limits [] index pool before after h fits room =
    λ i. ok (pool, cursor limits (sym (append-nil before) i) after)
decode_entries-fields limits (e ∷ es) index pool before after h fits room =
    let head = entry_field e in
    let tail = entry_fields es in
    let sum = length-append head tail in
    let step : Decoder.sized (cursor limits before ((head ++ tail) ++ after))
        ≡ ok (e, cursor limits (before ++ head) (tail ++ after)) =
      (λ i. Decoder.sized (cursor limits before (append_assoc head tail after i)))
      ∙ read_entry limits before e (tail ++ after) (omega (arith, sum, length-entry_field e))
          (omega (arith, sum, length-append tail after)) in
    rw step (
      rw (ne→== index 0 h) (
        decode_entries-fields limits es (index + 1) (push pool e) (before ++ head) after
          (omega arith) (omega (arith, sum)) (omega (arith, sum, length-append before head))
        ∙ λ i.
            ok (push_all (push pool e) es, cursor limits (append_assoc before head tail i) after)))

encode_entries-next :
    (payload : Bytes) (start bound : ℕ) (es : List Bytes) (out : Bytes)
    → encode_entries payload (start ∷ bounds_from bound es) out ≡ (
        write_sized (slice payload start bound) out >>= λ w.
        encode_entries payload (bounds_from bound es) w)
unfolding encode_entries bounds_from
encode_entries-next payload start bound [] out = refl
encode_entries-next payload start bound (e ∷ es) out = refl

encode_entries-fields :
    (before : Bytes) (es : List Bytes) (out : Bytes)
    → length (entry_fields es) < u64_mod
    → encode_entries (before ++ concat es) (bounds_from (length before) es) out
      ≡ ok (out ++ entry_fields es)
unfolding bounds_from encode_entries
encode_entries-fields before [] out h = ap ok (sym (append-nil out))
encode_entries-fields before (e ∷ es) out h =
    let sum = length-append (entry_field e) (entry_fields es) in
    encode_entries-next (before ++ (e ++ concat es)) (length before) (length before + length e) es
      out
    ∙ rw (slice-part before e (concat es)) (
        rw (write_sized-field e out (omega (arith, sum, length-entry_field e))) (
          (λ i.
            encode_entries (sym (append_assoc before e (concat es)) i)
              (bounds_from (sym (length-append before e) i) es) (out ++ entry_field e))
          ∙ encode_entries-fields (before ++ e) es (out ++ entry_field e) (omega (arith, sum))
          ∙ ap ok (append_assoc out (entry_field e) (entry_fields es))))

-- A pool is what its entries say.
Holds-same : (p q : DataPool) (es : List Bytes) → Holds p es → Holds q es → p ≡ q
Holds-same p q es h k =
    λ i. record { bytes = (h.payload ∙ sym k.payload) i; offsets = (h.bounds ∙ sym k.bounds) i }

abbrev empty_pool : DataPool
empty_pool = record { bytes = []; offsets = 0 ∷ [] }

encode-pool_field :
    (pool : DataPool) (es : List Bytes)
    → Holds pool es
    → length (pool_field es) < u64_mod
    → encode pool ≡ ok (pool_field es)
unfolding encode
encode-pool_field pool es h word =
    let sum = length-append (uleb 9 (length es)) (entry_fields es) in
    let count : length pool.offsets - 1 ≡ length es =
      omega (arith, ap length h.bounds, length-bounds_from 0 es) in
    (λ i. write_vuint {W = Bytes} (count i) [] >>= λ w. encode_entries (h.payload i) (h.bounds i) w)
    ∙ rw (write_vuint-uleb (length es) [] (omega (arith, sum, length-entry_fields es)))
        (encode_entries-fields [] es (uleb 9 (length es)) (omega (arith, sum)))

-- All the entries, from the empty one on.
decode_entries-all :
    (limits : Limits) (es : List Bytes) (before : Bytes)
    → length (entry_fields ([] ∷ es)) ≤ limits.max_bytes
    → length before + length (entry_fields ([] ∷ es)) < u64_mod
    → decode_entries (suc (length es)) 0 (cursor limits before (entry_fields ([] ∷ es))) empty_pool
      ≡ ok (push_all empty_pool ([] ∷ es), cursor limits (before ++ entry_fields ([] ∷ es)) [])
unfolding decode_entries
decode_entries-all limits es before fits room =
    let head = entry_field [] in
    let tail = entry_fields es in
    let sum = length-append head tail in
    rw (read_entry limits before [] tail (omega arith) (omega (arith, sum))) (
      (λ i.
        decode_entries (length es) 1 (cursor limits (before ++ head) (sym (append-nil tail) i))
          (push empty_pool []))
      ∙ decode_entries-fields limits es 1 (push empty_pool []) (before ++ head) [] (omega arith)
          (omega (arith, sum)) (omega (arith, sum, length-append before head))
      ∙ λ i. ok (push_all empty_pool ([] ∷ es), cursor limits (append_assoc before head tail i) []))

finish-end : (limits : Limits) (before : Bytes) → Decoder.finish (cursor limits before []) ≡ ok tt
unfolding Decoder.finish
finish-end limits before = rw (append-nil before) (rw (minus_self (length before)) refl)
  where
    minus_self : (n : ℕ) → n - n ≡ 0
    minus_self n = omega arith

pub count-next :
    (limits : Limits) (before : Bytes) (n : ℕ) (after : Bytes)
    → IsU64 n
    → n ≤ limits.max_elements
    → length before + length (uleb 9 n) + length after < u64_mod
    → Decoder.count (cursor limits before (uleb 9 n ++ after))
      ≡ ok (n, cursor limits (before ++ uleb 9 n) after)
unfolding Decoder.count
count-next limits before n after word few room =
    rw (read_number limits before after n word room) (rw (limit_elements-ok limits n few word) refl)

decode-pool_field :
    (limits : Limits) (pool : DataPool) (es : List Bytes)
    → Holds pool ([] ∷ es)
    → length (pool_field ([] ∷ es)) ≤ limits.max_bytes
    → length (pool_field ([] ∷ es)) < u64_mod
    → length ([] ∷ es) ≤ limits.max_elements
    → decode (pool_field ([] ∷ es)) limits ≡ ok pool
unfolding decode Decoder.new bounds_from
decode-pool_field limits pool es h fits word few =
    let n = suc (length es) in
    let number = uleb 9 n in
    let fields = entry_fields ([] ∷ es) in
    let sum = length-append number fields in
    let at_least = length-entry_fields ([] ∷ es) in
    let left : length (number ++ fields) - length number ≡ length fields = omega (arith, sum) in
    rw (limit_bytes-ok limits (length (number ++ fields)) fits word) (
      rw (count-next limits [] n fields (omega (arith, sum, at_least)) few (omega (arith, sum))) (
        rw (ne→== n 0 (omega arith)) (
          rw left (
            rw (le→ltb (length fields) n at_least) (
              rw (decode_entries-all limits es number (omega (arith, sum)) (omega (arith, sum))) (
                rw (finish-end limits (number ++ fields)) (
                  ap ok (
                    Holds-same (push_all empty_pool ([] ∷ es)) pool ([] ∷ es)
                      (push_all-Holds empty_pool [] ([] ∷ es)
                        (record { payload = refl; bounds = refl }))
                      h))))))))

-- A pool whose entry at index zero is empty is encoded, and `decode` reads the very pool back from
-- its encoding, when the encoding is within the byte limit and the address space, and the number of
-- entries within the element limit.
pub decode-encode :
    (limits : Limits) (pool : DataPool) (es : List Bytes)
    → Holds pool ([] ∷ es)
    → length (pool_field ([] ∷ es)) ≤ limits.max_bytes
    → length (pool_field ([] ∷ es)) < u64_mod
    → length ([] ∷ es) ≤ limits.max_elements
    → (encode pool >>= λ bytes. decode bytes limits) ≡ ok pool
decode-encode limits pool es h fits word few =
    rw (encode-pool_field pool ([] ∷ es) h word) (decode-pool_field limits pool es h fits word few)
