-- ===== src/Zip/Entry.antt =====
-- janex-format/src/wrapper.rs: the entries that `validate_entry` accepts.
use janex.Base.{
  ℕ, ◌+◌, ◌≤◌, ◌<◌, true, false, not, ◌≡◌, ◌≢◌, refl, sym, ap, ◌∙◌, subst, ne→==, some, List, [],
  ◌∷◌, ◌==◌, Bytes, checked_add, arith,
}
use janex.Failure.{invalid, Ensures, holds, Ensures-bind, Ensures-ok_or, Ensures-reject_if}
use janex.Binary.{Limits}
use janex.Binary.Decoder.{slice}
use janex.Zip.{
  tag, u16_at, u32_at, starts_with, is_within, u32_max, Directory, Field, is_placeholder,
}
use janex.Zip.Expansion.{Keeps, IsExpanded, IsExpanded-Keeps, expand_zip64-IsExpanded}
use janex.Zip.Reads.{
  IsPart, read_at-IsPart, front-IsPart, u16_at-IsPart, u32_at-IsPart, slice-IsPart,
  starts_with-IsPart, within-Ensures,
}
use janex.Zip.Validate.{wide_field, disk_field, value_at, below, validate_entry}
use janex.Zip.Local.{IsLocal, validate_local-IsLocal}

-- The length of the entry at `position`: the fixed part, the name, the extra fields and a comment.
abbrev pub entry_size : Bytes → ℕ → ℕ
entry_size source position =
    46
    + u16_at source (position + 28)
    + u16_at source (position + 30)
    + u16_at source (position + 32)

-- The four numbers of an entry that its ZIP64 block may replace: the sizes before and after
-- compression, the offset of the local header, and the disk.
abbrev pub entry_fields : Bytes → ℕ → List Field
entry_fields source position =
    wide_field (u32_at source (position + 24))
    ∷ wide_field (u32_at source (position + 20))
    ∷ wide_field (u32_at source (position + 42))
    ∷ disk_field (u16_at source (position + 34))
    ∷ []

-- The extra fields of the entry at `position`, behind its name.
abbrev pub entry_extra : Bytes → ℕ → Bytes
entry_extra source position =
    let start = position + 46 + u16_at source (position + 28) in
    slice source start (start + u16_at source (position + 30))

-- An entry at `position` that ends by the end of the directory, whose local header stands in the
-- JAR before the directory. The offset of that and the compressed size are those of the entry, and
-- where it holds placeholders those of its ZIP64 block; the entry is on the first disk.
pub record IsEntry (source : Bytes) (d : Directory) (position : ℕ) : Type 0 where
  pub signature : slice source position (position + 4) ≡ tag 1 2
  pub within_directory : position + entry_size source position ≤ d.end
  pub expanded : List Field
  pub expansion : IsExpanded (entry_extra source position) (entry_fields source position) expanded
  pub first_disk : value_at 3 expanded ≡ 0
  pub local : ℕ
  pub located : local ≡ d.jar_start + value_at 2 expanded
  pub in_jar : (d.jar_start ≤ local) × (local < d.start)
  pub local_offset :
      u32_at source (position + 42) ≢ u32_max → local ≡ d.jar_start + u32_at source (position + 42)
  pub compressed : ℕ
  pub sized : compressed ≡ value_at 1 expanded
  pub compressed_size :
      u32_at source (position + 20) ≢ u32_max → compressed ≡ u32_at source (position + 20)
  pub local_header :
      IsLocal source d local
        (slice source (position + 46) (position + 46 + u16_at source (position + 28)))
        compressed

-- What `expand_zip64` keeps of the four fields of an entry.
kept_size :
    (a b c e : Field) (out : List Field)
    → Keeps (a ∷ b ∷ c ∷ e ∷ []) out
    → is_placeholder b ≡ false
    → value_at 1 out ≡ b.value
unfolding value_at
kept_size a b c e [] k plain = absurd k
kept_size a b c e (g0 ∷ []) k plain = absurd k.1
kept_size a b c e (g0 ∷ g1 ∷ gs) k plain = ap (λ (f : Field). f.value) (k.1.0 plain)

kept_offset :
    (a b c e : Field) (out : List Field)
    → Keeps (a ∷ b ∷ c ∷ e ∷ []) out
    → is_placeholder c ≡ false
    → value_at 2 out ≡ c.value
unfolding value_at
kept_offset a b c e [] k plain = absurd k
kept_offset a b c e (g0 ∷ []) k plain = absurd k.1
kept_offset a b c e (g0 ∷ g1 ∷ []) k plain = absurd k.1.1
kept_offset a b c e (g0 ∷ g1 ∷ g2 ∷ gs) k plain = ap (λ (f : Field). f.value) (k.1.1.0 plain)

below-checked_add :
    (bound a n local : ℕ)
    → below bound (checked_add a n) ≡ some local
    → (local ≡ a + n) × (local < bound)
below-checked_add bound a n local h = ground arith

-- What the tests of `validate_entry` say of the source.
IsEntry-header :
    (source : Bytes) (d : Directory) (position next : ℕ) (header variable : Bytes)
    (expanded : List Field) (local : ℕ)
    → IsPart source position 46 header
    → IsPart source
        (position + 46)
        (u16_at header 28 + u16_at header 30 + u16_at header 32)
        variable
    → starts_with header (tag 1 2) ≡ true
    → next ≡ position + (46 + (u16_at header 28 + u16_at header 30 + u16_at header 32))
    → next ≤ d.end
    → IsExpanded
        (slice variable (u16_at header 28) (u16_at header 28 + u16_at header 30))
        (entry_fields header 0)
        expanded
    → value_at 3 expanded ≡ 0
    → (local ≡ d.jar_start + value_at 2 expanded) × (local < d.start)
    → IsLocal source d local (slice variable 0 (u16_at header 28)) (value_at 1 expanded)
    → (next ≡ position + entry_size source position) × IsEntry source d position
IsEntry-header source d position next header variable expanded local h v signed at_next fits grown
      disk there valid =
    (
      size,
      record {
        local = local;
        expanded = expanded;
        expansion =
            subst (λ (t : Bytes). IsExpanded t (entry_fields source position) expanded) extra
              (subst
                (λ (t : List Field).
                  IsExpanded
                    (slice variable (u16_at header 28) (u16_at header 28 + u16_at header 30)) t
                    expanded)
                same_fields grown);
        first_disk = disk;
        located = there.0;
        sized = refl;
        compressed = value_at 1 expanded;
        signature = starts_with-IsPart source position 46 header (tag 1 2) h (omega arith) signed;
        within_directory = omega (arith, size);
        in_jar = (omega (arith, there.0), there.1);
        local_offset = λ plain. omega (arith, there.0, offset plain);
        compressed_size = compressed_as;
        local_header =
            subst (λ (t : Bytes). IsLocal source d local t (value_at 1 expanded)) name valid;
      },
    )
  where
    n28 : u16_at header 28 ≡ u16_at source (position + 28)
    n28 = u16_at-IsPart source position 46 header 28 h (omega arith)

    n30 : u16_at header 30 ≡ u16_at source (position + 30)
    n30 = u16_at-IsPart source position 46 header 30 h (omega arith)

    n32 : u16_at header 32 ≡ u16_at source (position + 32)
    n32 = u16_at-IsPart source position 46 header 32 h (omega arith)

    size : next ≡ position + entry_size source position
    size = omega (arith, n28, n30, n32)

    n42 : u32_at header 42 ≡ u32_at source (position + 42)
    n42 = u32_at-IsPart source position 46 header 42 h (omega arith)

    n20 : u32_at header 20 ≡ u32_at source (position + 20)
    n20 = u32_at-IsPart source position 46 header 20 h (omega arith)

    same_fields : entry_fields header 0 ≡ entry_fields source position
    same_fields = λ i.
        wide_field (u32_at-IsPart source position 46 header 24 h (omega arith) i)
        ∷ wide_field (n20 i)
        ∷ wide_field (n42 i)
        ∷ disk_field (u16_at-IsPart source position 46 header 34 h (omega arith) i)
        ∷ []

    extra :
        slice variable (u16_at header 28) (u16_at header 28 + u16_at header 30)
        ≡ entry_extra source position
    extra =
        slice-IsPart source (position + 46) (u16_at header 28 + u16_at header 30 + u16_at header 32)
          variable (u16_at header 28) (u16_at header 30) v (omega arith)
        ∙ (λ i. slice source (position + 46 + n28 i) (position + 46 + n28 i + n30 i))

    kept : Keeps (entry_fields header 0) expanded
    kept = IsExpanded-Keeps _ (entry_fields header 0) expanded grown

    offset :
        u32_at source (position + 42) ≢ u32_max
        → value_at 2 expanded ≡ u32_at source (position + 42)
    offset plain =
        kept_offset _ _ _ _ expanded kept
          (ne→== (u32_at header 42) u32_max (λ e. plain (sym n42 ∙ e)))
        ∙ n42

    compressed_as :
        u32_at source (position + 20) ≢ u32_max
        → value_at 1 expanded ≡ u32_at source (position + 20)
    compressed_as plain =
        kept_size _ _ _ _ expanded kept
          (ne→== (u32_at header 20) u32_max (λ e. plain (sym n20 ∙ e)))
        ∙ n20

    name :
        slice variable 0 (u16_at header 28)
        ≡ slice source (position + 46) (position + 46 + u16_at source (position + 28))
    name =
        front-IsPart source (position + 46) (u16_at header 28 + u16_at header 30 + u16_at header 32)
          variable (u16_at header 28) v (omega arith)
        ∙ ap (λ (t : ℕ). slice source (position + 46) (position + 46 + t)) n28

pub validate_entry-IsEntry :
    (source : Bytes) (d : Directory) (position : ℕ) (limits : Limits)
    → Ensures
        (λ next. (next ≡ position + entry_size source position) × IsEntry source d position)
        (validate_entry source d position limits)
unfolding validate_entry
validate_entry-IsEntry source d position limits =
    Ensures-reject_if (not (is_within d.end (checked_add position 46)))
      (invalid "truncated ZIP directory")
      λ _. Ensures-bind (read_at-IsPart source position 46 limits) λ header h.
        Ensures-reject_if (not (starts_with header (tag 1 2)))
          (invalid "incorrect ZIP directory signature")
          λ signed.
            let name_length = u16_at header 28 in
            let extra_length = u16_at header 30 in
            let variable_length = name_length + extra_length + u16_at header 32 in
            Ensures-bind
              (within-Ensures d.end position (46 + variable_length)
                (invalid "ZIP directory entry exceeds directory"))
              λ next a.
                Ensures-bind (read_at-IsPart source (position + 46) variable_length limits)
                  λ variable v.
                    Ensures-bind
                      (expand_zip64-IsExpanded
                        (slice variable name_length (name_length + extra_length))
                        (entry_fields header 0))
                      λ expanded grown.
                        Ensures-reject_if (not (value_at 3 expanded == 0))
                          (invalid "multidisk ZIP is not a JAR tail")
                          λ disk.
                            Ensures-bind
                              (Ensures-ok_or
                                (below d.start (checked_add d.jar_start (value_at 2 expanded)))
                                (invalid "ZIP local header is outside the JAR data region")
                                (below-checked_add d.start d.jar_start (value_at 2 expanded)))
                              λ local there.
                                Ensures-bind
                                  (validate_local-IsLocal source d local header
                                    (slice variable 0 name_length) (value_at 1 expanded)
                                    (value_at 0 expanded) limits)
                                  λ _ valid. holds (
                                    IsEntry-header source d position next header variable expanded
                                      local h v (ground arith) (a.0) (a.1) grown (ground arith)
                                      there valid)
