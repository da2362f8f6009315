-- ===== src/Binary/Tests.antt =====
-- Runs of the binary codec, and its theorems at concrete inputs.
use janex.Base.{◌≤◌, ◌≡◌, refl, [], ◌∷◌, ◌++◌, length, Bytes, arith}
use janex.Failure.{ok, err, at, invalid, Ensures}
use janex.Binary.{default_limits, vec_write, write_vuint, write_sized}
use janex.Binary.Decoder
use janex.Binary.Cursor.{cursor, Reads}
use janex.Binary.Uleb.{uleb_value, IsTerminated, IsVuint, vuint_sound}
use janex.Binary.Reading.{vuint_reads}
use janex.Binary.Writing.{write_vuint_shortest, vuint-write_vuint, sized-write_sized}

-- 300 and its field, and a field for 5 that is padded with a zero group.
abbrev field300 : Bytes
field300 = 0xac ∷ 0x02 ∷ []

abbrev padded5 : Bytes
padded5 = 0x85 ∷ 0x00 ∷ []

abbrev padded300 : Bytes
padded300 = 0xac ∷ 0x82 ∷ 0 ∷ []

write300 : write_vuint {W = Bytes} 300 (7 ∷ []) ≡ ok (7 ∷ field300)
unfolding write_vuint
write300 = refl

read_padded :
    Decoder.vuint (cursor default_limits [] padded5) ≡ ok (5, cursor default_limits padded5 [])
unfolding Decoder.vuint Decoder.u8 Decoder.take
read_padded = refl

-- The tenth byte has one bit.
read_too_wide :
    Decoder.vuint (
      cursor default_limits []
        (0xff ∷ 0xff ∷ 0xff ∷ 0xff ∷ 0xff ∷ 0xff ∷ 0xff ∷ 0xff ∷ 0xff ∷ 0x02 ∷ []))
    ≡ err (at (invalid "ULEB128 exceeds u64") 0)
unfolding Decoder.vuint Decoder.u8 Decoder.take
read_too_wide = refl

vuint_sound_example :
    Ensures
      (Reads IsVuint default_limits (9 ∷ []) (0xac ∷ 0x02 ∷ 1 ∷ []))
      (Decoder.vuint (cursor default_limits (9 ∷ []) (0xac ∷ 0x02 ∷ 1 ∷ [])))
vuint_sound_example =
    vuint_sound default_limits (9 ∷ []) (0xac ∷ 0x02 ∷ 1 ∷ [])
      (omega arith, (omega arith, (omega arith, tt))) (omega arith)

vuint_reads_example :
    Decoder.vuint (cursor default_limits (9 ∷ []) (padded5 ++ (1 ∷ [])))
    ≡ ok (uleb_value padded5, cursor default_limits ((9 ∷ []) ++ padded5) (1 ∷ []))
vuint_reads_example =
    vuint_reads default_limits (9 ∷ []) padded5 (1 ∷ []) (omega arith, (omega arith, tt))
      (omega arith, omega arith) (omega arith) (omega arith) (omega arith)

write_vuint_shortest_example :
    IsTerminated field300 × (length field300 ≤ 10) × (length field300 ≤ length padded300)
write_vuint_shortest_example =
    write_vuint_shortest 300 (7 ∷ []) field300 padded300 (omega arith) write300
      (omega arith, (omega arith, (omega arith, tt))) (omega arith, (omega arith, omega arith))
      (omega arith)

vuint-write_vuint_example :
    (field : Bytes) × ((7 ∷ field300) ≡ (7 ∷ []) ++ field)
    × (Decoder.vuint (cursor default_limits (7 ∷ []) (field ++ (1 ∷ [])))
        ≡ ok (300, cursor default_limits (7 ∷ field300) (1 ∷ [])))
vuint-write_vuint_example =
    vuint-write_vuint default_limits (7 ∷ []) (1 ∷ []) (7 ∷ field300) 300 (omega arith) write300
      (omega arith)

write_field : write_sized {W = Bytes} (10 ∷ 20 ∷ []) (7 ∷ []) ≡ ok (7 ∷ 2 ∷ 10 ∷ 20 ∷ [])
unfolding write_sized write_vuint
write_field = refl

sized-write_sized_example :
    (field : Bytes) × ((7 ∷ 2 ∷ 10 ∷ 20 ∷ []) ≡ (7 ∷ []) ++ field)
    × (Decoder.sized (cursor default_limits (7 ∷ []) (field ++ (1 ∷ [])))
        ≡ ok (10 ∷ 20 ∷ [], cursor default_limits (7 ∷ 2 ∷ 10 ∷ 20 ∷ []) (1 ∷ [])))
sized-write_sized_example =
    sized-write_sized default_limits (7 ∷ []) (1 ∷ []) (7 ∷ 2 ∷ 10 ∷ 20 ∷ []) (10 ∷ 20 ∷ [])
      (omega arith) write_field (omega arith) (omega arith)
