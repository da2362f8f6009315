-- ===== src/Pool/Builder.antt =====
-- janex-format/src/data_pool.rs: `DataPoolBuilder::from` and `intern`, and the reverse index.
use janex.Base.{
  ℕ, zero, suc, ◌+◌, ◌<◌, ◌≤◌, ◌≡◌, ◌≢◌, refl, sym, ap, ◌∙◌, subst, Bool, true, false, Option, none,
  some, List, [], ◌∷◌, ◌++◌, ltb, if◌then◌else◌, length, length-append, get_or, Bytes, bytes_eq,
  bytes_eq→eq, bytes_eq_refl, arith, append-nil, append_assoc, Bool-cases, inl, inr, lt→ltb, ltb→lt,
  ltb→le,
}
use janex.Failure.{ok}
use janex.Pool.{
  DataPool, DataPoolBuilder, Indices, push, len, get, insert, append, intern, intern_found,
  index_entries, from_pool,
}
use janex.Pool.Entries.{
  Holds, push-Holds, get-entry, bounds_from, length-bounds_from, concat, slice-part,
}
use janex.Binary.Decoder.{slice}

-- A map leads from every entry to a place where it stands, and from nothing else.
pub record Indexes (indices : Indices) (entries : List Bytes) : Type 0 where
  pub found :
      (v : Bytes) (i : ℕ) → indices v ≡ some i → (i < length entries) × (get_or entries i [] ≡ v)
  pub missing :
      (v : Bytes) (i : ℕ) → indices v ≡ none → i < length entries → get_or entries i [] ≢ v

-- The index of a builder finds every entry, and nothing else.
pub record IsBuilder (builder : DataPoolBuilder) (entries : List Bytes) : Type 0 where
  pub holds : Holds builder.pool entries
  pub indexes : Indexes builder.indices entries

pub len-entries : (pool : DataPool) (es : List Bytes) → Holds pool es → len pool ≡ length es
len-entries pool es h = omega (arith, ap length h.bounds, length-bounds_from 0 es)

get_or-kept :
    (es : List Bytes) (v : Bytes) (i : ℕ)
    → i < length es
    → get_or (es ++ (v ∷ [])) i [] ≡ get_or es i []
get_or-kept [] v i h = absurd (omega arith)
get_or-kept (e ∷ es) v zero h = refl
get_or-kept (e ∷ es) v (suc i) h = get_or-kept es v i (omega arith)

get_or-snoc : (es : List Bytes) (v : Bytes) → get_or (es ++ (v ∷ [])) (length es) [] ≡ v
get_or-snoc [] v = refl
get_or-snoc (e ∷ es) v = get_or-snoc es v

length-snoc : (es : List Bytes) (v : Bytes) → length (es ++ (v ∷ [])) ≡ suc (length es)
length-snoc es v = omega (arith, length-append es (v ∷ []))

last_place :
    (es : List Bytes) (v : Bytes) (i : ℕ)
    → length es ≤ i
    → i < length (es ++ (v ∷ []))
    → i ≡ length es
last_place es v i low high = omega (arith, length-snoc es v)

some_injective : {m n : ℕ} → some m ≡ some n → m ≡ n
some_injective h = cc

-- A value that is appended is found from then on.
insert-Indexes :
    (m : Indices) (es : List Bytes) (v : Bytes)
    → Indexes m es
    → Indexes (insert v (length es) m) (es ++ (v ∷ []))
insert-Indexes m es v h = record {
  found = λ w i e. found w i (bytes_eq w v) refl e;
  missing = λ w i e k. missing w i (bytes_eq w v) refl e k;
}
  where
    found :
        (w : Bytes) (i : ℕ) (t : Bool)
        → bytes_eq w v ≡ t
        → (if t then some (length es) else m w) ≡ some i
        → (i < length (es ++ (v ∷ []))) × (get_or (es ++ (v ∷ [])) i [] ≡ w)
    found w i true e k = (
      omega (arith, length-snoc es v, place),
      ap (λ (n : ℕ). get_or (es ++ (v ∷ [])) n []) place
          ∙ get_or-snoc es v
          ∙ sym (bytes_eq→eq w v e),
    )
      where
        place : i ≡ length es
        place = sym (some_injective k)
    found w i false e k = (
      omega (arith, length-snoc es v, (h.found w i k).0),
      get_or-kept es v i (h.found w i k).0 ∙ (h.found w i k).1,
    )

    missing :
        (w : Bytes) (i : ℕ) (t : Bool)
        → bytes_eq w v ≡ t
        → (if t then some (length es) else m w) ≡ none
        → i < length (es ++ (v ∷ []))
        → get_or (es ++ (v ∷ [])) i [] ≢ w
    missing w i true e k bound same = cc
    missing w i false e k bound same = elim (Bool-cases (ltb i (length es))) [
      | inl old ↦
          h.missing w i k (ltb→lt i (length es) old)
            (sym (get_or-kept es v i (ltb→lt i (length es) old)) ∙ same)
      | inr new ↦ cc (
        e,
        bytes_eq_refl v,
        get_or-snoc es v,
        same,
        last_place es v i (ltb→le i (length es) new) bound,
      )
    ]

append-IsBuilder :
    (b : DataPoolBuilder) (es : List Bytes) (v : Bytes)
    → IsBuilder b es
    → IsBuilder (append b v) (es ++ (v ∷ []))
append-IsBuilder b es v h = record {
  holds = push-Holds b.pool es v h.holds;
  indexes =
      subst (λ (n : ℕ). Indexes (insert v n b.indices) (es ++ (v ∷ [])))
        (sym (len-entries b.pool es h.holds)) (insert-Indexes b.indices es v h.indexes);
}

index_entries-next :
    (payload : Bytes) (start bound : ℕ) (es : List Bytes) (i : ℕ) (m : Indices)
    → index_entries payload (start ∷ bounds_from bound es) i m
      ≡ index_entries payload
          (bounds_from bound es)
          (suc i)
          (insert (slice payload start bound) i m)
unfolding index_entries bounds_from
index_entries-next payload start bound [] i m = refl
index_entries-next payload start bound (e ∷ es) i m = refl

index_entries-Indexes :
    (before : Bytes) (past es : List Bytes) (m : Indices)
    → Indexes m past
    → Indexes
        (index_entries (before ++ concat es) (bounds_from (length before) es) (length past) m)
        (past ++ es)
unfolding bounds_from index_entries
index_entries-Indexes before past [] m h = subst (Indexes m) (sym (append-nil past)) h
index_entries-Indexes before past (e ∷ es) m h =
    let all : index_entries (before ++ (e ++ concat es))
          (length before ∷ bounds_from (length before + length e) es) (length past) m
        ≡ index_entries ((before ++ e) ++ concat es) (bounds_from (length (before ++ e)) es)
            (length (past ++ (e ∷ []))) (insert e (length past) m) =
      index_entries-next (before ++ (e ++ concat es)) (length before) (length before + length e) es
        (length past) m
      ∙ λ i.
          index_entries (sym (append_assoc before e (concat es)) i)
            (bounds_from (sym (length-append before e) i) es) (sym (length-snoc past e) i)
            (insert (slice-part before e (concat es) i) (length past) m) in
    subst (λ (t : Indices). Indexes t (past ++ (e ∷ es))) (sym all)
      (subst (Indexes _) (append_assoc past (e ∷ []) es) (
        index_entries-Indexes (before ++ e) (past ++ (e ∷ [])) es (insert e (length past) m)
          (insert-Indexes m past e h)))

-- A builder made from a pool, whatever its entries are, finds every entry of the pool, at a place
-- where it stands, and nothing else.
pub from_pool-IsBuilder :
    (pool : DataPool) (es : List Bytes) → Holds pool es → IsBuilder (from_pool pool) es
unfolding from_pool
from_pool-IsBuilder pool es h = record {
  holds = h;
  indexes =
      subst (λ (m : Indices). Indexes m es)
        (λ i. index_entries (sym h.payload i) (sym h.bounds i) 0 (λ _. none))
        (index_entries-Indexes [] [] es (λ _. none)
          (record { found = λ v i e. absurd (cc); missing = λ v i e k. absurd (omega arith) }));
}

module _ (v : Bytes) (b : DataPoolBuilder) (es : List Bytes) (h : IsBuilder b es) where
  -- What a call of `intern` comes to.
  pub record Interned (result : ℕ × DataPoolBuilder) : Type 0 where
    pub more : List Bytes
    pub kept : IsBuilder result.1 (es ++ more)
    pub at_most_one : length more ≤ 1
    pub leads : get result.1.pool result.0 ≡ ok v

  intern_found-Interned : (o : Option ℕ) → b.indices v ≡ o → Interned (intern_found v b o)
  intern_found-Interned (some i) e =
      let both = h.indexes.found v i e in
      record {
        more = [];
        kept = subst (IsBuilder b) (sym (append-nil es)) h;
        at_most_one = omega arith;
        leads = get-entry b.pool es i h.holds ∙ rw (lt→ltb i (length es) both.0) (ap ok both.1);
      }
  intern_found-Interned none e =
      let kept = append-IsBuilder b es v h in
      record {
        more = v ∷ [];
        kept = kept;
        at_most_one = omega arith;
        leads =
            get-entry (push b.pool v) (es ++ (v ∷ [])) (len b.pool) kept.holds
            ∙ rw (len-entries b.pool es h.holds) (
                rw (lt→ltb (length es) (length (es ++ (v ∷ []))) (omega (arith, length-snoc es v)))
                  (ap ok (get_or-snoc es v)));
      }

  -- After `intern`, on a builder whose index finds its entries and nothing else, the index does so
  -- for the old entries in their old places and at most one new entry, and the index that is
  -- returned leads to the value.
  pub intern-entry : Interned (intern v b)
  unfolding intern
  intern-entry = intern_found-Interned (b.indices v) refl
