-- ===== src/Zip/Framing.antt =====
-- janex-format/src/wrapper.rs: the directories that `validate_directory` accepts.
use janex.Base.{
  ℕ, zero, suc, ◌+◌, ◌-◌, ◌%◌, ◌≤◌, ◌||◌, not, ◌≡◌, ◌⊎◌, inl, inr, subst, ltb, ◌==◌, Bytes, u64_mod,
  arith, All, IsByte, IsU64,
}
use janex.Failure.{
  ok, invalid, Ensures, holds, Ensures-bind, Ensures-weaken, Ensures-if, Ensures-ok,
  Ensures-reject_if, reject_if-Ensures, any,
}
use janex.Binary.{Limits, limit_elements}
use janex.Binary.Decoder.{slice}
use janex.Zip.{tag, u16_at, starts_with, Directory}
use janex.Zip.Reads.{read_at-IsPart, u16_at-lt, u16_at-IsPart, starts_with-IsPart}
use janex.Zip.Validate.{validate_entries, validate_rest, validate_directory}
use janex.Zip.Entry.{entry_size, IsEntry, validate_entry-IsEntry}

-- `n` entries stand one behind the other from `p` to `q`.
pub data Entries (source : Bytes) (d : Directory) : ℕ → ℕ → ℕ → Type 0 where
  done : {p : ℕ} → Entries source d p zero p
  entry :
      {p n q : ℕ}
      → IsEntry source d p
      → Entries source d (p + entry_size source p) n q
      → Entries source d p (suc n) q

validate_entries-Entries :
    (left : ℕ) (source : Bytes) (d : Directory) (position : ℕ) (limits : Limits)
    → Ensures (Entries source d position left) (validate_entries left source d position limits)
unfolding validate_entries
validate_entries-Entries zero source d position limits = holds done
validate_entries-Entries (suc left) source d position limits =
    Ensures-bind (validate_entry-IsEntry source d position limits) λ next h.
      Ensures-weaken (validate_entries-Entries left source d next limits)
        λ last rest. entry h.1 (subst (λ (t : ℕ). Entries source d t left last) h.0 rest)

Entries-le :
    (source : Bytes) (d : Directory) (p n q : ℕ) → Entries source d p n q → p ≤ d.end → q ≤ d.end
Entries-le source d p zero q done h = h
Entries-le source d p (suc n) q (entry e rest) h =
    Entries-le source d (p + entry_size source p) n q rest (e.within_directory)

-- Behind the entries stands nothing, or a digital signature record that ends the directory.
abbrev pub IsRest : Bytes → Directory → ℕ → Type 0
IsRest source d q =
    (q ≡ d.end) ⊎ ((slice source q (q + 4) ≡ tag 5 5) × (q + 6 + u16_at source (q + 4) ≡ d.end))

validate_rest-IsRest :
    (source : Bytes) (d : Directory) (q : ℕ) (limits : Limits)
    → All IsByte source
    → IsU64 d.end
    → q ≤ d.end
    → Ensures (λ _. IsRest source d q) (validate_rest source d q limits)
unfolding validate_rest
validate_rest-IsRest source d q limits bytes word h =
    Ensures-if (ltb q d.end)
      (λ more.
        Ensures-reject_if (ltb (d.end - q) 6) (invalid "trailing ZIP directory bytes") λ room.
          Ensures-bind (read_at-IsPart source q 6 limits) λ signature s.
            reject_if-Ensures
              (not (starts_with signature (tag 5 5))
                || not ((q + 6 + u16_at signature 4) % u64_mod == d.end))
              (invalid "invalid ZIP directory digital signature record")
              λ valid.
                let size = u16_at-IsPart source q 6 signature 4 s (omega arith) in
                let bound = u16_at-lt source (q + 4) bytes in
                let sum : (q + 6 + u16_at signature 4) % u64_mod ≡ d.end = ground arith in
                let here : q + 6 ≤ d.end = ground arith in
                inr (
                  starts_with-IsPart source q 6 signature (tag 5 5) s (omega arith) (ground arith),
                  omega (arith, size, bound, sum, here),
                ))
      (λ last. holds (inl (ground arith)))

-- The bytes of a directory that `validate_directory` accepts.
pub IsDirectory : Bytes → Directory → Type 0
IsDirectory source d = (q : ℕ) × Entries source d d.start d.count q × IsRest source d q

-- Over bytes below 256, validate_directory accepts a directory that does not begin behind its end,
-- which fits 64 bits, only when its entries follow one another from its start, one for each that
-- is counted, and nothing or one digital signature record stands between them and its end; when
-- every entry keeps to the directory, and its extra fields are well framed blocks, at most one of
-- them a ZIP64 block; and when its local header lies in the JAR before the directory, bears the
-- same name, and has its data end before the directory begins. The offset of the local header and
-- the compressed size of the data are those that the entry holds, or where it holds placeholders
-- those of its ZIP64 block, in the order of the format.
pub validate_directory_sound :
    (source : Bytes) (d : Directory) (limits : Limits)
    → All IsByte source
    → IsU64 d.end
    → d.start ≤ d.end
    → validate_directory source d limits ≡ ok tt
    → IsDirectory source d
unfolding validate_directory IsDirectory
validate_directory_sound source d limits bytes word h e =
    Ensures-ok {P = λ _. IsDirectory source d}
      (Ensures-bind (any (limit_elements limits d.count)) λ _ _.
        Ensures-bind (validate_entries-Entries d.count source d d.start limits) λ q entries.
          Ensures-weaken
            (validate_rest-IsRest source d q limits bytes word
              (Entries-le source d d.start d.count q entries h))
            λ _ rest. (q, entries, rest))
      e
