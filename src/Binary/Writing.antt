-- ===== src/Binary/Writing.antt =====
-- janex-format/src/binary.rs: what `write_vuint` and `write_sized` append to a byte vector, and
-- reads of it.
use janex.Base.{
  append_cancel, ltb→lt, ℕ, zero, suc, ◌+◌, ◌*◌, ◌/◌, ◌%◌, ◌^◌, ◌≤◌, ◌<◌, ◌≡◌, refl, sym, ap, ◌∙◌,
  Bool-cases, inl, inr, [], ◌∷◌, ◌++◌, append_assoc, length, length-append, ltb, if◌then◌else◌,
  ◌==◌, Bytes, arith, u64_mod, IsU64, All, IsByte, mask7, set_bit7, bit_or-zero, bit_or, bit_and,
  lt_wf, subst,
}
use janex.Failure.{ok, ok_injective}
use janex.Binary.Decoder
use janex.Binary.Cursor.{cursor, take_next}
use janex.Binary.{
  limit_bytes, limit_elements, Limits, write_groups, write_vuint, write_sized, vec_write,
}
use janex.Binary.Uleb.{uleb, uleb_value, IsTerminated}
use janex.Binary.Reading.{vuint_reads}
use mathlib.Core.WellFounded.{Acc}

written_byte :
    (v : ℕ)
    → bit_or (bit_and v 0x7f) (if v / 128 == 0 then 0 else 0x80)
      ≡ (if ltb v 128 then v else v % 128 + 128)
written_byte v = ground (arith, mask7 v, bit_or-zero (v % 128), set_bit7 (v % 128) (omega arith))

write_groups-uleb :
    (k v : ℕ) (w : Acc ◌<◌ v) (out : Bytes)
    → v < 128 ^ suc k
    → write_groups v w out ≡ ok (out ++ uleb k v)
unfolding write_groups uleb
write_groups-uleb zero v (Acc.intro _ smaller) out h = ground (arith, written_byte v)
write_groups-uleb (suc k) v (Acc.intro _ smaller) out h = grind (
  arith,
  written_byte v,
  λ (w : Acc ◌<◌ (v / 128)).
      write_groups-uleb k (v / 128) w (out ++ ((v % 128 + 128) ∷ [])) (omega arith),
  append_assoc out ((v % 128 + 128) ∷ []) (uleb k (v / 128)),
)

-- On every 64-bit number `write_vuint` keeps the vector and appends the shortest form.
pub write_vuint-uleb : (v : ℕ) (out : Bytes) → IsU64 v → write_vuint v out ≡ ok (out ++ uleb 9 v)
unfolding write_vuint
write_vuint-uleb v out h = write_groups-uleb 9 v (lt_wf.apply v) out (omega arith)

IsTerminated-cons : (b : ℕ) (bs : Bytes) → 128 ≤ b → IsTerminated bs → IsTerminated (b ∷ bs)
IsTerminated-cons b [] h t = absurd t
IsTerminated-cons b (c ∷ bs) h t = (h, t)

-- The shortest form is a terminated field of bytes that stands for its number.
uleb-IsTerminated : (k v : ℕ) → v < 128 ^ suc k → IsTerminated (uleb k v)
unfolding uleb
uleb-IsTerminated zero v h = omega arith
uleb-IsTerminated (suc k) v h = elim (Bool-cases (ltb v 128)) [
  | inl small ↦ rw small (ltb→lt v 128 small)
  | inr large ↦ rw large (
      IsTerminated-cons _ (uleb k (v / 128)) (omega arith)
        (uleb-IsTerminated k (v / 128) (omega arith)))
]

uleb-IsByte : (k v : ℕ) → v < 128 ^ suc k → All IsByte (uleb k v)
unfolding uleb
uleb-IsByte zero v h = omega arith
uleb-IsByte (suc k) v h = ground (arith, uleb-IsByte k (v / 128) (omega arith))

uleb_value-uleb : (k v : ℕ) → v < 128 ^ suc k → uleb_value (uleb k v) ≡ v
unfolding uleb
uleb_value-uleb zero v h = omega arith
uleb_value-uleb (suc k) v h = ground (arith, uleb_value-uleb k (v / 128) (omega arith))

pub length-uleb : (k v : ℕ) → length (uleb k v) ≤ suc k
unfolding uleb
length-uleb zero v = omega arith
length-uleb (suc k) v = ground (arith, length-uleb k (v / 128))

-- No terminated field for a number is shorter than the form that is written.
uleb_shortest :
    (k : ℕ) (field : Bytes)
    → All IsByte field
    → IsTerminated field
    → length (uleb k (uleb_value field)) ≤ length field
unfolding uleb
uleb_shortest k [] bytes ends = absurd ends
uleb_shortest zero (b ∷ field) bytes ends = omega arith
uleb_shortest (suc k) (b ∷ []) bytes ends = ground arith
uleb_shortest (suc k) (b ∷ c ∷ field) bytes ends =
    let tail = uleb_value (c ∷ field) in
    let shifted : (b % 128 + 128 * tail) / 128 ≡ tail = omega arith in
    ground
      (arith, ap (λ (t : ℕ). length (uleb k t)) shifted, uleb_shortest k (c ∷ field) bytes.1 ends.1)

-- On a 64-bit number `write_vuint` writes a terminated field of 1 to 10 bytes, and no terminated
-- field of bytes that stands for the same number is shorter.
pub write_vuint_shortest :
    (v : ℕ) (out written field : Bytes)
    → IsU64 v
    → write_vuint v out ≡ ok (out ++ written)
    → All IsByte field
    → IsTerminated field
    → uleb_value field ≡ v
    → IsTerminated written × (length written ≤ 10) × (length written ≤ length field)
write_vuint_shortest v out written field h run bytes ends value =
    subst (λ (w : Bytes). IsTerminated w × (length w ≤ 10) × (length w ≤ length field))
      (append_cancel out (uleb 9 v) written (cc (write_vuint-uleb v out h)))
      (
        uleb-IsTerminated 9 v (omega arith),
        length-uleb 9 v,
        subst (λ (t : ℕ). length (uleb 9 t) ≤ length field) value
            (uleb_shortest 9 field bytes ends),
      )

read_uleb :
    (limits : Limits) (before after written : Bytes) (v : ℕ)
    → IsU64 v
    → written ≡ before ++ uleb 9 v
    → length written + length after < u64_mod
    → Decoder.vuint (cursor limits before (uleb 9 v ++ after)) ≡ ok (v, cursor limits written after)
read_uleb limits before after written v h whole room =
    vuint_reads limits before (uleb 9 v) after (uleb-IsByte 9 v (omega arith))
      (uleb-IsTerminated 9 v (omega arith)) (length-uleb 9 v)
      (subst (λ (t : ℕ). t < u64_mod) (sym value) h)
      (omega
        (arith, length-append before (uleb 9 v), length-append (uleb 9 v) after, ap length whole))
    ∙ λ i. ok (value i, cursor limits (sym whole i) after)
  where
    value : uleb_value (uleb 9 v) ≡ v
    value = uleb_value-uleb 9 v (omega arith)

-- `Decoder::vuint` reads back the 64-bit number that `write_vuint` appended, wherever it stands in an
-- input that fits the address space, and leaves what follows it.
pub vuint-write_vuint :
    (limits : Limits) (before after written : Bytes) (v : ℕ)
    → IsU64 v
    → write_vuint v before ≡ ok written
    → length written + length after < u64_mod
    → (field : Bytes) × (written ≡ before ++ field)
      × (Decoder.vuint (cursor limits before (field ++ after))
          ≡ ok (v, cursor limits written after))
vuint-write_vuint limits before after written v h run room =
    let whole : written ≡ before ++ uleb 9 v = ok_injective (cc (write_vuint-uleb v before h)) in
    (uleb 9 v, whole, read_uleb limits before after written v h whole room)

pub limit_bytes-ok :
    (limits : Limits) (n : ℕ) → n ≤ limits.max_bytes → IsU64 n → limit_bytes limits n ≡ ok n
unfolding limit_bytes
limit_bytes-ok limits n h fits = ground arith

pub limit_elements-ok :
    (limits : Limits) (n : ℕ) → n ≤ limits.max_elements → IsU64 n → limit_elements limits n ≡ ok n
unfolding limit_elements
limit_elements-ok limits n h fits = ground arith

-- `Decoder::sized` reads back the bytes that `write_sized` appended, wherever they stand in an input
-- that fits the address space, and leaves what follows, whenever they are within the byte limit and
-- their length fits 64 bits.
pub sized-write_sized :
    (limits : Limits) (before after written bytes : Bytes)
    → length bytes ≤ limits.max_bytes
    → write_sized bytes before ≡ ok written
    → length written + length after < u64_mod
    → IsU64 (length bytes)
    → (field : Bytes) × (written ≡ before ++ field)
      × (Decoder.sized (cursor limits before (field ++ after))
          ≡ ok (bytes, cursor limits written after))
unfolding Decoder.sized write_sized
sized-write_sized limits before after written bytes fits run room word =
    let prefix = uleb 9 (length bytes) in
    let whole : written ≡ (before ++ prefix) ++ bytes =
      ok_injective (sym run ∙ rw (write_vuint-uleb (length bytes) before word)) in
    let space = ap length whole ∙ length-append (before ++ prefix) bytes in
    (
      prefix ++ bytes,
      whole ∙ append_assoc before prefix bytes,
      rw (append_assoc prefix bytes after) (
          rw
            (read_uleb limits before (bytes ++ after) (before ++ prefix) (length bytes) word refl
              (omega (arith, length-append bytes after)))
            (rw (limit_bytes-ok limits (length bytes) fits word) (
              take_next limits (before ++ prefix) bytes after
                (omega (arith, length-append bytes after))
              ∙ λ i. ok (bytes, cursor limits (sym whole i) after)))),
    )
