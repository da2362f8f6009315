-- ===== src/Names/Tests.antt =====
-- Runs of names, and their round trip at a concrete input.
use janex.Base.{◌≡◌, refl, List, [], ◌∷◌, Bytes, arith, bytes_eq, ascii, is_utf8, strip_suffix}
use janex.Failure.{ok, err, invalid}
use janex.Binary.{default_limits, vec_write, write_vuint, limit_bytes, limit_elements}
use janex.Binary.Decoder
use janex.Binary.Cursor.{cursor}
use janex.Pool.{DataPool, get, from_pool, intern}
use janex.Pool.Entries.{Holds, bounds_from}
use janex.Pool.Builder.{from_pool-IsBuilder}
use janex.Names.{read_nonempty, write_nonempty}
use janex.Names.RoundTrip.{Writes, read_nonempty-write_nonempty}

-- The empty entry and `Main`.
abbrev entries : List Bytes
entries = [] ∷ ascii "Main" ∷ []

abbrev pool : DataPool
pool = record { bytes = ascii "Main"; offsets = 0 ∷ 0 ∷ 4 ∷ [] }

pool-Holds : Holds pool entries
unfolding bounds_from
pool-Holds = record { payload = refl; bounds = refl }

-- The base is there, so the name is written in parts.
write_class :
    write_nonempty (from_pool pool) (ascii "Main.class") (9 ∷ [])
    ≡ ok (9 ∷ 0 ∷ 0 ∷ 2 ∷ 1 ∷ 2 ∷ [], (intern (ascii ".class") (from_pool pool)).1)
unfolding write_nonempty from_pool bytes_eq strip_suffix intern write_vuint
write_class = refl

write_nothing : write_nonempty (from_pool pool) [] (9 ∷ []) ≡ err (invalid "name must not be empty")
unfolding write_nonempty
write_nothing = refl

read_pair :
    read_nonempty pool (cursor default_limits [] (0 ∷ 0 ∷ 2 ∷ 1 ∷ 1 ∷ []))
    ≡ ok (ascii "MainMain", cursor default_limits (0 ∷ 0 ∷ 2 ∷ 1 ∷ 1 ∷ []) [])
unfolding read_nonempty Decoder.string Decoder.count Decoder.vuint Decoder.u8 Decoder.take get
    is_utf8 limit_bytes limit_elements
read_pair = refl

read_nonempty-write_nonempty_example :
    Writes default_limits
      (from_pool pool)
      (ascii "Main" ∷ [])
      (9 ∷ [])
      (7 ∷ [])
      (ascii "Main.class")
      (write_nonempty (from_pool pool) (ascii "Main.class") (9 ∷ []))
unfolding is_utf8
read_nonempty-write_nonempty_example =
    read_nonempty-write_nonempty default_limits (from_pool pool) (ascii "Main" ∷ []) (9 ∷ [])
      (7 ∷ []) (ascii "Main.class") (from_pool-IsBuilder pool entries pool-Holds) refl (omega arith)
      (omega arith) (omega arith) (omega arith) (omega arith) (omega arith)
