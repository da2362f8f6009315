-- ===== src/Pool/Entries.antt =====
-- janex-format/src/data_pool.rs: the entries that a pool stands for, under `get` and appending.
use janex.Base.{
  ℕ, zero, suc, ◌+◌, ◌-◌, ◌<◌, ◌≤◌, ◌≡◌, refl, sym, ap, ◌∙◌, Bool, true, false, Option, none, some,
  List, [], ◌∷◌, ◌++◌, append_assoc, ltb, if◌then◌else◌, length, length-append, take-append,
  drop-append, drop, get_or, get_elem?, Bytes, arith, append-nil, Bool-cases, inl, inr, ltb→lt,
  ltb→le,
}
use janex.Base as Base
use janex.Failure.{ok, err, invalid}
use janex.Binary.Decoder.{slice}
use janex.Binary.Cursor.{add-sub_cancel}
use janex.Pool.{DataPool, push, get}

abbrev pub concat : List Bytes → Bytes
concat [] = []
concat (entry ∷ entries) = entry ++ concat entries

-- The bounds of entries that start at an offset.
unfoldable pub bounds_from : ℕ → List Bytes → List ℕ
bounds_from start [] = start ∷ []
bounds_from start (entry ∷ entries) = start ∷ bounds_from (start + length entry) entries

pub record Holds (pool : DataPool) (entries : List Bytes) : Type 0 where
  pub payload : pool.bytes ≡ concat entries
  pub bounds : pool.offsets ≡ bounds_from 0 entries

pub concat-snoc : (es : List Bytes) (v : Bytes) → concat (es ++ (v ∷ [])) ≡ concat es ++ v
concat-snoc [] v = append-nil v
concat-snoc (e ∷ es) v =
    ap (λ (t : Bytes). e ++ t) (concat-snoc es v) ∙ sym (append_assoc e (concat es) v)

pub bounds_from-snoc :
    (start : ℕ) (es : List Bytes) (v : Bytes)
    → bounds_from start (es ++ (v ∷ []))
      ≡ bounds_from start es ++ ((start + length (concat es) + length v) ∷ [])
unfolding bounds_from
bounds_from-snoc start [] v =
    ap (λ (t : ℕ). start ∷ t ∷ []) {x = start + length v} {y = start + 0 + length v} (omega arith)
bounds_from-snoc start (e ∷ es) v =
    ap (λ (t : List ℕ). start ∷ t)
      (bounds_from-snoc (start + length e) es v
        ∙ ap (λ (t : ℕ). bounds_from (start + length e) es ++ (t ∷ []))
            {x = start + length e + length (concat es) + length v}
            {y = start + length (e ++ concat es) + length v}
            (omega (arith, length-append e (concat es))))

pub length-bounds_from :
    (start : ℕ) (es : List Bytes) → length (bounds_from start es) ≡ suc (length es)
unfolding bounds_from
length-bounds_from start [] = refl
length-bounds_from start (e ∷ es) = ap suc (length-bounds_from (start + length e) es)

-- Appending an entry.
pub push-Holds :
    (pool : DataPool) (es : List Bytes) (v : Bytes)
    → Holds pool es
    → Holds (push pool v) (es ++ (v ∷ []))
push-Holds pool es v h = record {
  payload = ap (λ (t : Bytes). t ++ v) h.payload ∙ sym (concat-snoc es v);
  bounds =
      (λ i. h.bounds i ++ (length (h.payload i ++ v) ∷ []))
      ∙ ap (λ (t : ℕ). bounds_from 0 es ++ (t ∷ [])) {x = length (concat es ++ v)}
          {y = 0 + length (concat es) + length v} (omega (arith, length-append (concat es) v))
      ∙ sym (bounds_from-snoc 0 es v);
}

first_bound : (start : ℕ) (es : List Bytes) → get_or (bounds_from start es) 0 0 ≡ start
unfolding bounds_from
first_bound start [] = refl
first_bound start (e ∷ es) = refl

-- A part of a byte string is cut out by its bounds.
pub slice-part :
    (before e after : Bytes)
    → slice (before ++ (e ++ after)) (length before) (length before + length e) ≡ e
slice-part before e after = ground (
  arith,
  drop-append before (e ++ after),
  ap (λ (n : ℕ). Base.take n (e ++ after)) (add-sub_cancel (length before) (length e)),
  take-append e after,
)

-- The window of the bounds at an index cuts the entry out.
pub slice-entry :
    (before : Bytes) (es : List Bytes) (i : ℕ)
    → i < length es
    → slice
        (before ++ concat es)
        (get_or (bounds_from (length before) es) i 0)
        (get_or (bounds_from (length before) es) (suc i) 0)
      ≡ get_or es i []
unfolding bounds_from
slice-entry before [] i h = absurd (omega arith)
slice-entry before (e ∷ es) zero h =
    rw (first_bound (length before + length e) es) (slice-part before e (concat es))
slice-entry before (e ∷ es) (suc i) h =
    (λ j.
      slice (sym (append_assoc before e (concat es)) j)
        (get_or (bounds_from (sym (length-append before e) j) es) i 0)
        (get_or (bounds_from (sym (length-append before e) j) es) (suc i) 0))
    ∙ slice-entry (before ++ e) es i (omega arith)

-- `get` returns the entry at the index, and refuses an index past the entries.
pub get-entry :
    (pool : DataPool) (es : List Bytes) (i : ℕ)
    → Holds pool es
    → get pool i ≡ (
        if ltb i (length es)
        then ok (get_or es i [])
        else err (invalid "data pool index out of range"))
unfolding get
get-entry pool es i h =
    (λ j. get (record { bytes = h.payload j; offsets = h.bounds j }) i)
    ∙ (λ j.
        if ltb i (count j) then ok (cut 0 es i) else err (invalid "data pool index out of range"))
    ∙ found (ltb i (length es)) refl
  where
    cut : ℕ → List Bytes → ℕ → Bytes
    cut start es i =
        slice (concat es) (get_or (bounds_from start es) i 0)
          (get_or (bounds_from start es) (suc i) 0)

    count : length (bounds_from 0 es) - 1 ≡ length es
    count = omega (arith, length-bounds_from 0 es)

    found :
        (b : Bool)
        → ltb i (length es) ≡ b
        → (if b then ok (cut 0 es i) else err (invalid "data pool index out of range"))
          ≡ (if b then ok (get_or es i []) else err (invalid "data pool index out of range"))
    found true e = ap ok (slice-entry [] es i (ltb→lt i (length es) e))
    found false e = refl
