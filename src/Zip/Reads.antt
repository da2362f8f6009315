-- ===== src/Zip/Reads.antt =====
-- janex-format/src/wrapper.rs: what a successful read gives, and the fields of a part of it.
use janex.Base.{
  ℕ, ◌+◌, ◌-◌, ◌≤◌, ◌≡◌, sym, ap, ◌∙◌, some, length, length-take, length-drop, take, drop,
  drop-drop, take-drop-take, ◌<◌, [], ◌∷◌, All, All-take, All-drop, IsByte, Bytes, bytes_eq→eq,
  true, arith, checked_add, true,
}
use janex.Failure.{Error, ok_or, Ensures, Ensures-bind, Ensures-ok_or}
use janex.Binary.{Limits}
use janex.Binary.Decoder.{slice, from_le_bytes, within}
use janex.Binary.Bounds.{limit_bytes-Ensures}
use janex.Zip.{read_at, read_exact, u16_at, u32_at, u64_at, is_within, starts_with}

-- The bytes read are those of the source.
abbrev pub IsPart : Bytes → ℕ → ℕ → Bytes → Type 0
IsPart source offset count bytes =
    (bytes ≡ take count (drop offset source)) × (length bytes ≡ count)

pub read_exact-IsPart :
    (source : Bytes) (offset count : ℕ) (bytes : Bytes)
    → read_exact source offset count ≡ some bytes
    → IsPart source offset count bytes
unfolding read_exact
read_exact-IsPart source offset count bytes h =
    ground (arith, length-take count (drop offset source))

pub read_at-IsPart :
    (source : Bytes) (offset count : ℕ) (limits : Limits)
    → Ensures (IsPart source offset count) (read_at source offset count limits)
unfolding read_at
read_at-IsPart source offset count limits =
    Ensures-bind (limit_bytes-Ensures limits count) λ size h.
      Ensures-ok_or _ _ λ bytes k. read_exact-IsPart source offset count bytes (rw (← h) k)

-- A field of a part is the field of the source there.
module _ (source : Bytes) (offset count : ℕ) (bytes : Bytes) where
  pub slice-IsPart :
      (i k : ℕ)
      → IsPart source offset count bytes
      → i + k ≤ count
      → slice bytes i (i + k) ≡ slice source (offset + i) (offset + i + k)
  slice-IsPart i k h fits =
      ap (λ (t : ℕ). take t (drop i bytes)) {x = i + k - i} {y = k} (omega arith)
      ∙ ap (λ (t : Bytes). take k (drop i t)) (h.0)
      ∙ take-drop-take k i count (drop offset source) fits
      ∙ ap (λ (t : Bytes). take k t) (drop-drop offset i source)
      ∙ ap (λ (t : ℕ). take t (drop (offset + i) source)) {x = k}
          {y = offset + i + k - (offset + i)} (omega arith)

  pub u16_at-IsPart :
      (i : ℕ)
      → IsPart source offset count bytes
      → i + 2 ≤ count
      → u16_at bytes i ≡ u16_at source (offset + i)
  unfolding u16_at
  u16_at-IsPart i h fits = ap from_le_bytes (slice-IsPart i 2 h fits)

  pub u32_at-IsPart :
      (i : ℕ)
      → IsPart source offset count bytes
      → i + 4 ≤ count
      → u32_at bytes i ≡ u32_at source (offset + i)
  unfolding u32_at
  u32_at-IsPart i h fits = ap from_le_bytes (slice-IsPart i 4 h fits)

  -- The bytes at the front.
  pub front-IsPart :
      (k : ℕ)
      → IsPart source offset count bytes
      → k ≤ count
      → slice bytes 0 k ≡ slice source offset (offset + k)
  front-IsPart k h fits =
      ap (λ (t : ℕ). take (t - 0) bytes) {x = k} {y = 0 + k} (omega arith)
      ∙ slice-IsPart 0 k h (omega arith)
      ∙ ap (λ (t : ℕ). slice source t (t + k)) {x = offset + 0} {y = offset} (omega arith)

  pub starts_with-IsPart :
      (front : Bytes)
      → IsPart source offset count bytes
      → length front ≤ count
      → starts_with bytes front ≡ true
      → slice source offset (offset + length front) ≡ front
  starts_with-IsPart front h fits same =
      sym (front-IsPart (length front) h fits)
      ∙ ap (λ (t : ℕ). take t bytes) {x = length front - 0} {y = length front} (omega arith)
      ∙ bytes_eq→eq (take (length front) bytes) front same

  pub u64_at-IsPart :
      (i : ℕ)
      → IsPart source offset count bytes
      → i + 8 ≤ count
      → u64_at bytes i ≡ u64_at source (offset + i)
  unfolding u64_at
  u64_at-IsPart i h fits = ap from_le_bytes (slice-IsPart i 8 h fits)

pub within-checked_add :
    (bound a n end : ℕ) → within bound (checked_add a n) ≡ some end → (end ≡ a + n) × (end ≤ bound)
within-checked_add bound a n end h = ground arith

pub within-Ensures :
    (bound a n : ℕ) (e : Error)
    → Ensures (λ end. (end ≡ a + n) × (end ≤ bound)) (ok_or (within bound (checked_add a n)) e)
within-Ensures bound a n e =
    Ensures-ok_or (within bound (checked_add a n)) e (within-checked_add bound a n)

pub is_within-checked_add :
    (bound a n : ℕ) → is_within bound (checked_add a n) ≡ true → a + n ≤ bound
is_within-checked_add bound a n h = ground arith

pub IsPart-slice :
    (source : Bytes) (offset count : ℕ)
    → offset + count ≤ length source
    → IsPart source offset count (slice source offset (offset + count))
IsPart-slice source offset count h = (
  ap (λ (t : ℕ). take t (drop offset source)) {x = offset + count - offset} {y = count}
      (omega arith),
  omega (
    arith,
    length-take (offset + count - offset) (drop offset source),
    length-drop offset source,
  ),
)

two_bytes : (bytes : Bytes) → All IsByte bytes → length bytes ≤ 2 → from_le_bytes bytes < 65536
unfolding from_le_bytes
two_bytes [] h k = omega arith
two_bytes (a ∷ []) h k = omega (arith, h.0)
two_bytes (a ∷ b ∷ []) h k = omega (arith, h.0, h.1.0)
two_bytes (a ∷ b ∷ c ∷ bs) h k = absurd (omega arith)

pub u16_at-lt : (source : Bytes) (offset : ℕ) → All IsByte source → u16_at source offset < 65536
unfolding u16_at
u16_at-lt source offset h =
    two_bytes (slice source offset (offset + 2))
      (All-take IsByte (offset + 2 - offset) (drop offset source) (All-drop IsByte offset source h))
      (omega (arith, length-take (offset + 2 - offset) (drop offset source)))
