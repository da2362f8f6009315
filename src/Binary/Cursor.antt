-- ===== src/Binary/Cursor.antt =====
-- janex-format/src/binary.rs: the reads of a decoder at a cursor that stands between two parts of
-- its input.
use janex.Base.{
  subst, ℕ, ◌+◌, ◌-◌, ◌<◌, ◌≡◌, refl, sym, ap, ◌∙◌, Bool-cases, inl, inr, [], ◌∷◌, ◌++◌,
  append_assoc, length, length-append, length-take, take-append, drop-append, take,
  take-append-drop, drop, leb, leb→le, if◌then◌else◌, Bytes, arith, u64_mod,
}
use janex.Failure.{ok, err, invalid, at, Ensures, holds, failed}
use janex.Binary.{Limits}
use janex.Binary.Decoder
use janex.Binary.Decoder.{Decoder}

-- The decoder over `before ++ after` that has read `before`.
abbrev pub cursor : Limits → Bytes → Bytes → Decoder
cursor limits before after = record {
  bytes = before ++ after;
  position = length before;
  limits = limits;
}

-- A slice never reaches the end of the address space.
abbrev pub Addressable : Bytes → Bytes → Type 0
Addressable before after = length before + length after < u64_mod

pub add-sub_cancel : (a b : ℕ) → a + b - a ≡ b
add-sub_cancel a b = omega arith

-- `take` returns exactly the next bytes, or reports truncation where they are too few.
pub take-cursor :
    (limits : Limits) (before after : Bytes) (n : ℕ)
    → Addressable before after
    → Decoder.take n (cursor limits before after) ≡ (
        if leb n (length after)
        then ok (take n after, cursor limits (before ++ take n after) (drop n after))
        else err (at (invalid "truncated binary field") (length before)))
unfolding Decoder.take
take-cursor limits before after n h = ground (
  arith,
  length-append before after,
  drop-append before after,
  ap (λ (t : ℕ). take t after) (add-sub_cancel (length before) n),
  append_assoc before (take n after) (drop n after),
  ap (λ (t : Bytes). before ++ t) (take-append-drop n after),
  length-append before (take n after),
  length-take n after,
)

pub cursor_path :
    (limits : Limits) {before before' : Bytes} (after after' : Bytes)
    → before ≡ before'
    → after ≡ after'
    → cursor limits before after ≡ cursor limits before' after'
cursor_path limits after after' p q = λ i. cursor limits (p i) (q i)

-- The bytes wanted stand next: they are returned and the cursor passes them.
pub take_next :
    (limits : Limits) (before field after : Bytes)
    → Addressable before (field ++ after)
    → Decoder.take (length field) (cursor limits before (field ++ after))
      ≡ ok (field, cursor limits (before ++ field) after)
take_next limits before field after h = ground (
  arith,
  take-cursor limits before (field ++ after) (length field) h,
  length-append field after,
  take-append field after,
  drop-append field after,
)

-- A successful read splits what was left, and moves over the part that it returns.
pub record Reads {ℓ κ} {A : Type ℓ} (P : A → Bytes → Type κ) (limits : Limits)
    (before after : Bytes) (result : A × Decoder) : Type (ℓ ⊔ κ) where
  pub field : Bytes
  pub rest : Bytes
  pub split : after ≡ field ++ rest
  pub moved : result.1 ≡ cursor limits (before ++ field) rest
  pub meets : P result.0 field

pub take_sound :
    (limits : Limits) (before after : Bytes) (n : ℕ)
    → Addressable before after
    → Ensures
        (Reads (λ value field. (value ≡ field) × (length field ≡ n)) limits before after)
        (Decoder.take n (cursor limits before after))
take_sound limits before after n h = elim (Bool-cases (leb n (length after))) [
  | inl fits ↦
      rw (take-cursor limits before after n h, fits)
        (holds (record {
          field = take n after;
          rest = drop n after;
          split = sym (take-append-drop n after);
          moved = refl;
          meets = (refl, omega (arith, length-take n after, leb→le n (length after) fits));
        }))
  | inr short ↦ rw (take-cursor limits before after n h, short) failed
]

pub u8_next :
    (limits : Limits) (before after : Bytes) (b : ℕ)
    → Addressable before (b ∷ after)
    → Decoder.u8 (cursor limits before (b ∷ after))
      ≡ ok (b, cursor limits (before ++ (b ∷ [])) after)
unfolding Decoder.u8
u8_next limits before after b h = rw (take_next limits before (b ∷ []) after h)

pub u8_end :
    (limits : Limits) (before : Bytes)
    → Addressable before []
    → Decoder.u8 (cursor limits before [])
      ≡ err (at (invalid "truncated binary field") (length before))
unfolding Decoder.u8
u8_end limits before h = rw (take-cursor limits before [] 1 h)

-- Reading `more` first, and then as stated, reads both.
pub Reads-after {ℓ κ κ'} :
    {A : Type ℓ} {P : A → Bytes → Type κ} {Q : A → Bytes → Type κ'} {limits : Limits}
    (before more after : Bytes) {r : A × Decoder}
    → Reads P limits (before ++ more) after r
    → ((field : Bytes) → P r.0 field → Q r.0 (more ++ field))
    → Reads Q limits before (more ++ after) r
Reads-after before more after h k = record {
  field = more ++ h.field;
  rest = h.rest;
  split = ap (λ (t : Bytes). more ++ t) h.split ∙ sym (append_assoc more h.field h.rest);
  moved = h.moved ∙ cursor_path _ _ _ (append_assoc before more h.field) refl;
  meets = k h.field h.meets;
}

pub Reads-weaken {ℓ κ κ'} :
    {A : Type ℓ} {P : A → Bytes → Type κ} {Q : A → Bytes → Type κ'} {limits : Limits}
    {before after : Bytes} {r : A × Decoder}
    → Reads P limits before after r
    → ((field : Bytes) → P r.0 field → Q r.0 field)
    → Reads Q limits before after r
Reads-weaken h k = record {
  field = h.field;
  rest = h.rest;
  split = h.split;
  moved = h.moved;
  meets = k h.field h.meets;
}

-- Room for a field is room for its parts.
pub Addressable-assoc :
    (before a b after : Bytes)
    → Addressable before ((a ++ b) ++ after)
    → Addressable before (a ++ (b ++ after))
Addressable-assoc before a b after h =
    subst (λ (t : Bytes). Addressable before t) (append_assoc a b after) h

pub Addressable-pass :
    (before a b after : Bytes)
    → Addressable before ((a ++ b) ++ after)
    → Addressable (before ++ a) (b ++ after)
Addressable-pass before a b after h = omega (
  arith,
  Addressable-assoc before a b after h,
  length-append before a,
  length-append a (b ++ after),
)

pub Addressable-assoc-in :
    (before a after : Bytes) → Addressable before (a ++ after) → Addressable (before ++ a) after
Addressable-assoc-in before a after h =
    omega (arith, length-append before a, length-append a after, h)
