-- ===== src/Pool/Rollback.antt =====
-- janex-format/src/data_pool.rs: `truncate` after calls of `intern`.
use janex.Base.{
  ℕ, zero, suc, ◌+◌, ◌-◌, ◌<◌, ◌≤◌, ◌≡◌, refl, sym, ap, ◌∙◌, subst, Bool, true, false, ◌||◌, Option,
  none, some, List, [], ◌∷◌, ◌++◌, ltb, max, if◌then◌else◌, length, length-append, take-append,
  drop-append, drop, get_or, Bytes, bytes_eq, bytes_eq→eq, arith, append-nil, append_assoc, any,
  lt→ltb,
}
use janex.Base as Base
use janex.Binary.Decoder.{slice}
use janex.Pool.{
  DataPool, DataPoolBuilder, Indices, len, remove, append, intern, intern_found, remove_entries,
  truncate,
}
use janex.Pool.Entries.{concat, Holds, push-Holds, bounds_from, length-bounds_from, slice-part}
use janex.Pool.Builder.{IsBuilder, len-entries}

-- `intern` of several values, one after the other.
unfoldable pub intern_all : List Bytes → DataPoolBuilder → DataPoolBuilder
intern_all [] builder = builder
intern_all (v ∷ vs) builder = intern_all vs (intern v builder).1

-- A map without the keys of a list.
abbrev without : List Bytes → Indices → Indices
without keys indices = λ query. if any (bytes_eq query) keys then none else indices query

-- A builder that has got entries since an earlier one, whose index comes back without them.
record Since (b : DataPoolBuilder) (es : List Bytes) (c : DataPoolBuilder) (more : List Bytes)
    : Type 0 where
  holds : Holds c.pool (es ++ more)
  restores : (q : Bytes) → without more c.indices q ≡ b.indices q

any-snoc :
    (q : Bytes) (more : List Bytes) (v : Bytes)
    → any (bytes_eq q) (more ++ (v ∷ [])) ≡ (any (bytes_eq q) more || bytes_eq q v)
any-snoc q [] v = ground arith
any-snoc q (m ∷ more) v = ground (arith, any-snoc q more v)

module _ (b : DataPoolBuilder) (es : List Bytes) where
  append-Since :
      (c : DataPoolBuilder) (more : List Bytes) (v : Bytes)
      → Since b es c more
      → c.indices v ≡ none
      → Since b es (append c v) (more ++ (v ∷ []))
  append-Since c more v h fresh = record {
    holds =
        subst (Holds (append c v).pool) (append_assoc es more (v ∷ []))
          (push-Holds c.pool (es ++ more) v h.holds);
    restores = λ q.
        rw (any-snoc q more v) (back q (any (bytes_eq q) more) (bytes_eq q v) refl (h.restores q));
  }
    where
      back :
          (q : Bytes) (old new : Bool)
          → bytes_eq q v ≡ new
          → (if old then none else c.indices q) ≡ b.indices q
          → (if old || new then none else if new then some (len c.pool) else c.indices q)
            ≡ b.indices q
      back q true new e r = r
      back q false true e r = cc (fresh, r, ap c.indices (bytes_eq→eq q v e))
      back q false false e r = r

  found-Since :
      (c : DataPoolBuilder) (more : List Bytes) (v : Bytes) (o : Option ℕ)
      → Since b es c more
      → c.indices v ≡ o
      → (later : List Bytes) × Since b es (intern_found v c o).1 later
  found-Since c more v (some i) h e = (more, h)
  found-Since c more v none h e = (more ++ (v ∷ []), append-Since c more v h e)

  all-Since :
      (vs : List Bytes) (c : DataPoolBuilder) (more : List Bytes)
      → Since b es c more
      → (later : List Bytes) × Since b es (intern_all vs c) later
  unfolding intern_all intern
  all-Since [] c more h = (more, h)
  all-Since (v ∷ vs) c more h =
      let next = found-Since c more v (c.indices v) h refl in
      all-Since vs (intern v c).1 next.0 next.1

remove_entries-next :
    (payload : Bytes) (start bound : ℕ) (es : List Bytes) (m : Indices)
    → remove_entries payload (start ∷ bounds_from bound es) m
      ≡ remove_entries payload (bounds_from bound es) (remove (slice payload start bound) m)
unfolding remove_entries bounds_from
remove_entries-next payload start bound [] m = refl
remove_entries-next payload start bound (e ∷ es) m = refl

-- The windows of the bounds of some entries remove just these.
remove_entries-without :
    (before : Bytes) (more : List Bytes) (m : Indices) (q : Bytes)
    → remove_entries (before ++ concat more) (bounds_from (length before) more) m q
      ≡ without more m q
unfolding bounds_from remove_entries
remove_entries-without before [] m q = refl
remove_entries-without before (e ∷ more) m q =
    (λ i.
      remove_entries-next (before ++ (e ++ concat more)) (length before) (length before + length e)
        more m i q)
    ∙ (λ i.
        remove_entries (sym (append_assoc before e (concat more)) i)
          (bounds_from (sym (length-append before e) i) more)
          (remove (slice-part before e (concat more) i) m) q)
    ∙ remove_entries-without (before ++ e) more (remove e m) q
    ∙ both (any (bytes_eq q) more) (bytes_eq q e)
  where
    both :
        (x y : Bool)
        → (if x then none else if y then none else m q) ≡ (if y || x then none else m q)
    both true true = refl
    both true false = refl
    both false true = refl
    both false false = refl

concat-append : (es more : List Bytes) → concat (es ++ more) ≡ concat es ++ concat more
concat-append [] more = refl
concat-append (e ∷ es) more =
    ap (λ (t : Bytes). e ++ t) (concat-append es more)
    ∙ sym (append_assoc e (concat es) (concat more))

record SplitBounds (start : ℕ) (es more : List Bytes) : Type 0 where
  at_end : get_or (bounds_from start (es ++ more)) (length es) 0 ≡ start + length (concat es)
  first : Base.take (suc (length es)) (bounds_from start (es ++ more)) ≡ bounds_from start es
  second :
      drop (length es) (bounds_from start (es ++ more))
      ≡ bounds_from (start + length (concat es)) more

split_bounds : (start : ℕ) (es more : List Bytes) → SplitBounds start es more
unfolding bounds_from
split_bounds start [] [] = record {
  at_end = omega arith;
  first = refl;
  second = ap (λ (t : ℕ). t ∷ []) {x = start} {y = start + 0} (omega arith);
}
split_bounds start [] (m ∷ more) = record {
  at_end = omega arith;
  first = refl;
  second =
      ap (λ (t : ℕ). t ∷ bounds_from (t + length m) more) {x = start} {y = start + 0} (omega arith);
}
split_bounds start (e ∷ es) more =
    let rest = split_bounds (start + length e) es more in
    let total : start + length e + length (concat es) ≡ start + length (e ++ concat es) =
      omega (arith, length-append e (concat es)) in
    record {
      at_end = rest.at_end ∙ total;
      first = ap (λ (t : List ℕ). start ∷ t) rest.first;
      second = rest.second ∙ ap (λ (t : ℕ). bounds_from t more) total;
    }

abbrev pool_of : List Bytes → DataPool
pool_of es = record { bytes = concat es; offsets = bounds_from 0 es }

truncate-pool_of :
    (es more : List Bytes) (m : Indices)
    → 1 ≤ length es
    → truncate (length es) (record { pool = pool_of (es ++ more); indices = m })
      ≡ some (record { pool = pool_of es; indices = without more m })
unfolding truncate
truncate-pool_of es more m h =
    (λ i. if ltb (kept i) (count i) then cut (kept i) else none)
    ∙ rw (lt→ltb (length es) (suc (length es + length more)) (omega arith)) (λ i. some (record {
      pool = record { bytes = payload i; offsets = parts.first i };
      indices = λ q. index q i;
    }))
  where
    parts : SplitBounds 0 es more
    parts = split_bounds 0 es more

    kept : max (length es) 1 ≡ length es
    kept = omega arith

    count : length (bounds_from 0 (es ++ more)) ≡ suc (length es + length more)
    count = omega (arith, length-bounds_from 0 (es ++ more), length-append es more)

    origin : 0 + length (concat es) ≡ length (concat es)
    origin = omega arith

    cut : ℕ → Option DataPoolBuilder
    cut k = some (record {
      pool = record {
        bytes = Base.take (get_or (bounds_from 0 (es ++ more)) k 0) (concat (es ++ more));
        offsets = Base.take (suc k) (bounds_from 0 (es ++ more));
      };
      indices = remove_entries (concat (es ++ more)) (drop k (bounds_from 0 (es ++ more))) m;
    })

    payload :
        Base.take (get_or (bounds_from 0 (es ++ more)) (length es) 0) (concat (es ++ more))
        ≡ concat es
    payload =
        (λ i. Base.take ((parts.at_end ∙ origin) i) (concat-append es more i))
        ∙ take-append (concat es) (concat more)

    index :
        (q : Bytes)
        → remove_entries (concat (es ++ more)) (drop (length es) (bounds_from 0 (es ++ more))) m q
          ≡ without more m q
    index q =
        (λ i.
          remove_entries (concat-append es more i)
            ((parts.second ∙ ap (λ (t : ℕ). bounds_from t more) origin) i) m q)
        ∙ remove_entries-without (concat es) more m q

-- Entries that were interned since a checkpoint are taken back: on a builder with at least the
-- empty entry whose index finds its entries and nothing else, `truncate` to the length before the
-- calls of `intern` gives back the very builder, index included.
pub truncate-intern_all :
    (vs : List Bytes) (b : DataPoolBuilder) (es : List Bytes)
    → IsBuilder b es
    → 1 ≤ length es
    → truncate (len b.pool) (intern_all vs b) ≡ some b
truncate-intern_all vs b es h some_entry =
    (λ i. truncate (len-entries b.pool es h.holds i) (record {
      pool = record { bytes = since.holds.payload i; offsets = since.holds.bounds i };
      indices = (intern_all vs b).indices;
    }))
    ∙ truncate-pool_of es later.0 (intern_all vs b).indices some_entry
    ∙ λ i. some (record {
      pool = record { bytes = sym h.holds.payload i; offsets = sym h.holds.bounds i };
      indices = λ q. since.restores q i;
    })
  where
    start : Since b es b []
    start = record {
      holds = subst (Holds b.pool) (sym (append-nil es)) h.holds;
      restores = λ q. refl;
    }

    later : (more : List Bytes) × Since b es (intern_all vs b) more
    later = all-Since b es vs b [] start

    since : Since b es (intern_all vs b) later.0
    since = later.1
