-- ===== src/Zip/Described.antt =====
-- janex-format/src/wrapper.rs: the directories that end records describe.
use janex.Base.{
  ℕ, inl, inr, ◌≢◌, ne→==, zero, suc, ◌+◌, ◌-◌, ◌≤◌, Bool, true, false, ◌&&◌, ◌||◌, not, ◌≡◌, ◌⊎◌,
  refl, sym, ap, ◌∙◌, subst, Option, none, some, List, [], ◌∷◌, All, leb, ◌==◌, if◌then◌else◌,
  Bytes, bytes_eq, checked_add, IsU64, arith,
}
use janex.Failure.{ok, Ensures, holds, Ensures-bind, Ensures-if, Ensures-if_found, Ensures-weaken}
use janex.Binary.{Limits}
use janex.Binary.Decoder.{slice}
use janex.Zip.{
  read_at, tag, u16_at, u32_at, u64_at, starts_with, is_exactly, u16_max, u32_max, Directory,
  coordinates,
}
use janex.Zip.Locate.{contradicts, record_directories, option_list, plain_directories, directories}
use janex.Zip.Reads.{
  IsPart, read_at-IsPart, u16_at-IsPart, u32_at-IsPart, u64_at-IsPart, starts_with-IsPart,
}
use janex.Zip.Records.{is_record, records_from, zip64_records-Ensures}

-- The JAR, its directory and the end records in their order.
abbrev pub IsOrdered : ℕ → Directory → Type 0
IsOrdered bound d = (d.jar_start ≤ d.start) × (d.start ≤ d.end) × (d.end ≤ bound)

-- The end record at `eocd` describes the directory: it ends there, and the record holds its size,
-- its offset in the JAR and the number of its entries.
pub record IsPlain (source : Bytes) (eocd : ℕ) (d : Directory) : Type 0 where
  pub end : d.end ≡ eocd
  pub size : d.start + u32_at source (eocd + 12) ≡ eocd
  pub offset : d.jar_start + u32_at source (eocd + 16) ≡ d.start
  pub count : d.count ≡ u16_at source (eocd + 10)

-- A ZIP64 locator stands before the end record, and between the directory and the locator the
-- ZIP64 record, at the offset in the JAR that the locator holds. That record describes the
-- directory, and what the end record holds of it, placeholders apart, is the same.
pub record IsZip64 (source : Bytes) (eocd : ℕ) (d : Directory) : Type 0 where
  pub room : 20 ≤ eocd
  pub locator : slice source (eocd - 20) (eocd - 20 + 4) ≡ tag 6 7
  pub end_record : is_record source (eocd - 20) d.end ≡ true
  pub located : d.jar_start + u64_at source (eocd - 20 + 8) ≡ d.end
  pub size : d.start + u64_at source (d.end + 40) ≡ d.end
  pub offset : d.jar_start + u64_at source (d.end + 48) ≡ d.start
  pub count : d.count ≡ u64_at source (d.end + 32)
  pub same_count : u16_at source (eocd + 10) ≢ u16_max → d.count ≡ u16_at source (eocd + 10)
  pub same_size : u32_at source (eocd + 12) ≢ u32_max → d.start + u32_at source (eocd + 12) ≡ d.end
  pub same_offset :
      u32_at source (eocd + 16) ≢ u32_max → d.jar_start + u32_at source (eocd + 16) ≡ d.start

abbrev pub IsDescribed : Bytes → ℕ → Directory → Type 0
IsDescribed source eocd d = IsPlain source eocd d ⊎ IsZip64 source eocd d

pub IsDescribed-IsOrdered :
    (source : Bytes) (eocd : ℕ) (d : Directory) → IsDescribed source eocd d → IsOrdered eocd d
IsDescribed-IsOrdered source eocd d (inl h) =
    (omega (arith, h.offset), omega (arith, h.size, h.end), omega (arith, h.end))
IsDescribed-IsOrdered source eocd d (inr h) =
    let before : d.end + 56 ≤ eocd - 20 = ground (arith, h.end_record) in
    (omega (arith, h.offset), omega (arith, h.size), omega (arith, before))

pub coordinates-found :
    (end size offset count : ℕ) (d : Directory)
    → coordinates end size offset count ≡ some d
    → (d.end ≡ end) × (d.start + size ≡ end) × (d.jar_start + offset ≡ d.start) × (d.count ≡ count)
unfolding coordinates
coordinates-found end size offset count d h = ground arith

seven_false :
    (a b c d e f g : Bool)
    → (a || b || c || d || e || f || g) ≡ false
    → (d ≡ false) × (f ≡ false) × (g ≡ false)
seven_false a b c d e f g h = (ground arith, ground arith, ground arith)

agrees :
    (n placeholder m : ℕ)
    → (not (n == placeholder) && not (n == m)) ≡ false
    → n ≢ placeholder
    → n ≡ m
agrees n placeholder m h plain = let other = ne→== n placeholder plain in ground arith

-- What the two records hold where the code does not see a contradiction.
agreement :
    (eocd_record fixed : Bytes)
    → contradicts eocd_record fixed ≡ false
    → (u16_at eocd_record 10 ≢ u16_max → u16_at eocd_record 10 ≡ u64_at fixed 32)
      × (u32_at eocd_record 12 ≢ u32_max → u32_at eocd_record 12 ≡ u64_at fixed 40)
      × (u32_at eocd_record 16 ≢ u32_max → u32_at eocd_record 16 ≡ u64_at fixed 48)
unfolding contradicts
agreement eocd_record fixed h =
    let tests =
      seven_false (not (u32_at fixed 16 == 0)) (not (u32_at fixed 20 == 0))
        (not (u64_at fixed 24 == u64_at fixed 32)) _
        (not (u16_at eocd_record 8 == u16_max) && not (u16_at eocd_record 8 == u64_at fixed 32)) _ _
        h in
    (
      agrees (u16_at eocd_record 10) u16_max (u64_at fixed 32) tests.0,
      agrees (u32_at eocd_record 12) u32_max (u64_at fixed 40) tests.1,
      agrees (u32_at eocd_record 16) u32_max (u64_at fixed 48) tests.2,
    )

record_directory-IsZip64 :
    (source : Bytes) (eocd : ℕ) (eocd_record locator fixed : Bytes) (position : ℕ) (d : Directory)
    → 20 ≤ eocd
    → IsPart source eocd 22 eocd_record
    → IsPart source (eocd - 20) 20 locator
    → IsPart source position 56 fixed
    → starts_with locator (tag 6 7) ≡ true
    → is_record source (eocd - 20) position ≡ true
    → contradicts eocd_record fixed ≡ false
    → coordinates position (u64_at fixed 40) (u64_at fixed 48) (u64_at fixed 32) ≡ some d
    → is_exactly position (checked_add d.jar_start (u64_at locator 8)) ≡ true
    → IsZip64 source eocd d
record_directory-IsZip64 source eocd eocd_record locator fixed position d room e l f signed here
      agree found exact =
    let (end, size, offset, count) =
      coordinates-found position (u64_at fixed 40) (u64_at fixed 48) (u64_at fixed 32) d found in
    let there : d.jar_start + u64_at locator 8 ≡ position = ground arith in
    let same = agreement eocd_record fixed agree in
    let n8 = u64_at-IsPart source (eocd - 20) 20 locator 8 l (omega arith) in
    record {
      room = room;
      locator = starts_with-IsPart source (eocd - 20) 20 locator (tag 6 7) l (omega arith) signed;
      end_record = subst (λ (p : ℕ). is_record source (eocd - 20) p ≡ true) (sym end) here;
      located = omega (arith, there, n8, end);
      size = omega (arith, size, end, at end 40 (omega arith));
      offset = omega (arith, offset, at end 48 (omega arith));
      count = count ∙ sym (at end 32 (omega arith));
      same_count = λ plain. count ∙ sym (same.0 (λ held. plain (sym n10 ∙ held))) ∙ n10;
      same_size = λ plain. omega (arith, size, end, same.1 (λ held. plain (sym n12 ∙ held)), n12);
      same_offset = λ plain. omega (arith, offset, same.2 (λ held. plain (sym n16 ∙ held)), n16);
    }
  where
    at : d.end ≡ position → (k : ℕ) → k + 8 ≤ 56 → u64_at source (d.end + k) ≡ u64_at fixed k
    at end k fits =
        ap (λ (t : ℕ). u64_at source (t + k)) end
        ∙ sym (u64_at-IsPart source position 56 fixed k f fits)

    n10 : u16_at eocd_record 10 ≡ u16_at source (eocd + 10)
    n10 = u16_at-IsPart source eocd 22 eocd_record 10 e (omega arith)

    n12 : u32_at eocd_record 12 ≡ u32_at source (eocd + 12)
    n12 = u32_at-IsPart source eocd 22 eocd_record 12 e (omega arith)

    n16 : u32_at eocd_record 16 ≡ u32_at source (eocd + 16)
    n16 = u32_at-IsPart source eocd 22 eocd_record 16 e (omega arith)

-- The records that a locator leads to.
module _ (source : Bytes) (eocd : ℕ) (eocd_record locator : Bytes) (limits : Limits)
    (room : 20 ≤ eocd) (e : IsPart source eocd 22 eocd_record)
    (l : IsPart source (eocd - 20) 20 locator) (signed : starts_with locator (tag 6 7) ≡ true) where
  record_directories-IsZip64 :
      (positions : List ℕ)
      → All (λ position. is_record source (eocd - 20) position ≡ true) positions
      → Ensures
          (All (IsDescribed source eocd))
          (record_directories source eocd_record (u64_at locator 8) limits positions)
  unfolding record_directories
  record_directories-IsZip64 [] h = holds tt
  record_directories-IsZip64 (position ∷ positions) h =
      Ensures-bind (read_at-IsPart source position 56 limits) λ fixed f.
        Ensures-bind (record_directories-IsZip64 positions h.1) λ rest described.
          Ensures-if (contradicts eocd_record fixed) (λ _. holds described)
            λ agree.
              Ensures-if_found
                (coordinates position (u64_at fixed 40) (u64_at fixed 48) (u64_at fixed 32))
                (λ d found.
                  Ensures-if (is_exactly position (checked_add d.jar_start (u64_at locator 8)))
                    (λ exact. holds (
                      inr (
                          record_directory-IsZip64 source eocd eocd_record locator fixed position d
                            room e l f signed h.0 agree found exact),
                      described,
                    ))
                    (λ _. holds described))
                (holds described)

option_list-All {κ} :
    (P : Directory → Type κ) (found : Option Directory)
    → ((d : Directory) → found ≡ some d → P d)
    → All P (option_list found)
unfolding option_list
option_list-All P none h = tt
option_list-All P (some d) h = (h d refl, tt)

plain_directories-IsPlain :
    (source : Bytes) (eocd : ℕ) (eocd_record : Bytes)
    → IsPart source eocd 22 eocd_record
    → All (IsDescribed source eocd) (plain_directories eocd eocd_record)
unfolding plain_directories
plain_directories-IsPlain source eocd eocd_record e =
    All-if
      (not (u16_at eocd_record 10 == u16_at eocd_record 8)
        || u16_at eocd_record 10 == u16_max
        || u32_at eocd_record 12 == u32_max
        || u32_at eocd_record 16 == u32_max)
      _
      (option_list-All (IsDescribed source eocd)
        (coordinates eocd (u32_at eocd_record 12) (u32_at eocd_record 16) (u16_at eocd_record 10))
        λ d found. inl (plain d found))
  where
    plain :
        (d : Directory)
        → coordinates eocd (u32_at eocd_record 12) (u32_at eocd_record 16) (u16_at eocd_record 10)
          ≡ some d
        → IsPlain source eocd d
    plain d found =
        let (end, size, offset, count) =
          coordinates-found eocd (u32_at eocd_record 12) (u32_at eocd_record 16)
            (u16_at eocd_record 10) d found in
        record {
          end = end;
          size = omega (arith, size, u32_at-IsPart source eocd 22 eocd_record 12 e (omega arith));
          offset =
              omega (arith, offset, u32_at-IsPart source eocd 22 eocd_record 16 e (omega arith));
          count = count ∙ u16_at-IsPart source eocd 22 eocd_record 10 e (omega arith);
        }

    All-if :
        (b : Bool) (found : List Directory)
        → All (IsDescribed source eocd) found
        → All (IsDescribed source eocd) (if b then [] else found)
    All-if true found h = tt
    All-if false found h = h

records_from-All :
    (source : Bytes) (locator start n : ℕ)
    → All
        (λ position. is_record source locator position ≡ true)
        (records_from source locator start n)
records_from-All source locator start zero = tt
records_from-All source locator start (suc n) =
    by_test (is_record source locator start) refl (records_from-All source locator (start + 1) n)
  where
    by_test :
        (b : Bool)
        → is_record source locator start ≡ b
        → All
            (λ position. is_record source locator position ≡ true)
            (records_from source locator (start + 1) n)
        → All
            (λ position. is_record source locator position ≡ true)
            (if b
              then start ∷ records_from source locator (start + 1) n
              else records_from source locator (start + 1) n)
    by_test true e rest = (e, rest)
    by_test false _ rest = rest

-- The locator that is read, if there is room for one.
abbrev IsLocator : Bytes → ℕ → Bytes → Type 0
IsLocator source eocd locator =
    ((20 ≤ eocd) × IsPart source (eocd - 20) 20 locator) ⊎ (locator ≡ [])

read_at-IsLocator :
    (source : Bytes) (eocd : ℕ) (limits : Limits)
    → Ensures
        (IsLocator source eocd)
        (if leb 20 eocd then read_at source (eocd - 20) 20 limits else ok [])
read_at-IsLocator source eocd limits =
    Ensures-if (leb 20 eocd)
      (λ room.
        Ensures-weaken (read_at-IsPart source (eocd - 20) 20 limits)
          λ locator l. inl (ground arith, l))
      (λ _. holds (inr refl))

unsigned : (locator : Bytes) → starts_with locator (tag 6 7) ≡ true → locator ≡ [] → ⊥
unfolding bytes_eq
unsigned locator signed none_read =
    let refused : starts_with locator (tag 6 7) ≡ false =
      ap (λ (t : Bytes). starts_with t (tag 6 7)) none_read in
    cc

pub directories-IsDescribed :
    (source : Bytes) (eocd : ℕ) (eocd_record : Bytes) (limits : Limits)
    → IsU64 eocd
    → IsPart source eocd 22 eocd_record
    → Ensures (All (IsDescribed source eocd)) (directories source eocd eocd_record limits)
unfolding directories
directories-IsDescribed source eocd eocd_record limits word e =
    Ensures-bind (read_at-IsLocator source eocd limits) λ locator l.
      Ensures-if (not (starts_with locator (tag 6 7)))
        (λ _. holds (plain_directories-IsPlain source eocd eocd_record e))
        λ signed.
          Ensures-if (not (u32_at locator 4 == 0) || not (u32_at locator 16 == 1)) (λ _. holds tt)
            λ _.
              Ensures-bind
                (zip64_records-Ensures source (u64_at locator 8) (eocd - 20) limits (omega arith))
                λ positions found.
                  by_locator locator (ground arith) positions
                    (subst (λ (ps : List ℕ). All (λ p. is_record source (eocd - 20) p ≡ true) ps)
                      (sym found)
                      (records_from-All source (eocd - 20) (u64_at locator 8)
                        (eocd - 20 - u64_at locator 8)))
                    l
  where
    by_locator :
        (locator : Bytes)
        → starts_with locator (tag 6 7) ≡ true
        → (positions : List ℕ) → All (λ p. is_record source (eocd - 20) p ≡ true) positions
        → IsLocator source eocd locator
        → Ensures
            (All (IsDescribed source eocd))
            (record_directories source eocd_record (u64_at locator 8) limits positions)
    by_locator locator signed positions h (inl (room, l)) =
        record_directories-IsZip64 source eocd eocd_record locator limits room e l signed positions
          h
    by_locator locator signed positions h (inr none_read) =
        absurd (unsigned locator signed none_read)
