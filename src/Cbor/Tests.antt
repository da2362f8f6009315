-- ===== src/Cbor/Tests.antt =====
-- Runs of the CBOR validation, and its theorems at concrete inputs.
use janex.Base.{
  ◌*◌, ◌/◌, ◌%◌, ◌^◌, ◌≡◌, refl, not, ◌&&◌, ◌==◌, some, [], ◌∷◌, Bytes, arith, All, IsByte, ascii,
  be_bytes, is_utf8, bytes_lt,
}
use janex.Failure.{ok, Ensures}
use janex.Binary.{default_limits}
use janex.Cbor.{Half, from_bytes}
use janex.Base.{bytes_eq, ◌++◌}
use janex.Binary as Binary
use janex.Binary.{vec_write}
use janex.Binary.Cursor.{cursor}
use janex.Cbor.Sized.{empty_map, read_sized, write_sized, read_sized-write_sized}
use janex.Cbor.Item.{
  Item, uint, text, array, dict, nil, cons, end, entry, encode, info, extra, FitsEntries,
  half_float,
}
use janex.Cbor.Accept.Nested.{from_bytes-encode}
use janex.Cbor.Sound.Nested.{Decoded, from_bytes_sound}

-- The test for NaN on half floats, and a rounding that cuts the bits that a normal half float lacks.
instance abbrev cut : Half
cut = record {
  is_nan = λ bits. bits / 2 ^ 10 % 32 == 31 && not (bits % 2 ^ 10 == 0);
  through_half = λ bits. bits / 2 ^ 13 * 2 ^ 13;
}

-- `{1: "a", 2: [NaN]}`.
abbrev item : Item
item =
    dict (
      entry (uint 1) (text (ascii "a")) (entry (uint 2) (array (cons (half_float 0x7e00) nil)) end))

abbrev item_bytes : Bytes
item_bytes = 0xa2 ∷ 0x01 ∷ 0x61 ∷ 0x61 ∷ 0x02 ∷ 0x81 ∷ 0xf9 ∷ 0x7e ∷ 0x00 ∷ []

encode_item : encode item ≡ item_bytes
unfolding encode info extra be_bytes
encode_item = refl

second :
    FitsEntries default_limits 1
      (some (encode (uint 1)))
      (entry (uint 2) (array (cons (half_float 0x7e00) nil)) end)
unfolding encode info extra be_bytes bytes_lt
second = (
  (omega arith, omega arith),
  refl,
  (omega arith, omega arith, omega arith, ((omega arith, omega arith, refl), tt)),
  tt,
)

from_bytes-encode_example :
    from_bytes (encode item) default_limits ≡ ok (record { bytes = encode item })
unfolding encode info extra be_bytes is_utf8 bytes_lt
from_bytes-encode_example =
    from_bytes-encode default_limits item
      (
        omega arith,
        omega arith,
        omega arith,
        ((omega arith, omega arith), tt, (omega arith, omega arith, omega arith, refl), second),
      )
      (omega arith) (omega arith)

small4 : All IsByte (0x81 ∷ 0xf9 ∷ 0x7e ∷ 0x00 ∷ [])
small4 = (omega arith, (omega arith, (omega arith, (omega arith, tt))))

from_bytes_sound_example :
    Ensures (Decoded default_limits item_bytes) (from_bytes item_bytes default_limits)
from_bytes_sound_example =
    from_bytes_sound default_limits item_bytes
      (omega arith, (omega arith, (omega arith, (omega arith, (omega arith, small4)))))
      (omega arith)

item_valid : from_bytes item_bytes default_limits ≡ ok (record { bytes = item_bytes })
unfolding encode info extra be_bytes
item_valid = from_bytes-encode_example

item_written :
    write_sized {W = Bytes} (record { bytes = item_bytes }) (5 ∷ []) ≡ ok (5 ∷ 9 ∷ item_bytes)
unfolding write_sized Binary.write_sized Binary.write_vuint bytes_eq
item_written = refl

empty_written : write_sized {W = Bytes} empty_map (5 ∷ []) ≡ ok (5 ∷ 0 ∷ [])
unfolding write_sized Binary.write_sized Binary.write_vuint bytes_eq
empty_written = refl

read_sized-write_sized_example :
    (field : Bytes) × ((5 ∷ 9 ∷ item_bytes) ≡ (5 ∷ []) ++ field)
    × (read_sized (cursor default_limits (5 ∷ []) (field ++ (1 ∷ [])))
        ≡ ok (record { bytes = item_bytes }, cursor default_limits (5 ∷ 9 ∷ item_bytes) (1 ∷ [])))
read_sized-write_sized_example =
    read_sized-write_sized default_limits (5 ∷ []) (1 ∷ []) (5 ∷ 9 ∷ item_bytes)
      (record { bytes = item_bytes }) item_valid (omega arith) (omega arith) item_written
      (omega arith) (omega arith)
