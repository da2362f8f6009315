-- ===== src/Pool/Tests.antt =====
-- Runs of the data pool, and its theorems at concrete inputs.
use janex.Base.{◌≡◌, refl, some, List, [], ◌∷◌, Bytes, arith, bytes_eq, ascii}
use janex.Failure.{ok, err, invalid, ◌>>=◌}
use janex.Binary.{default_limits, vec_write, write_vuint, write_sized}
use janex.Binary.Uleb.{uleb}
use janex.Pool.{DataPool, len, get, encode, decode, from_pool, intern, truncate}
use janex.Pool.Entries.{Holds, bounds_from}
use janex.Pool.Codec.{decode-encode}
use janex.Pool.Builder.{IsBuilder, Interned, from_pool-IsBuilder, intern-entry}
use janex.Pool.Rollback.{intern_all, truncate-intern_all}

-- The empty entry, `ab` and `c`.
abbrev entries : List Bytes
entries = [] ∷ ascii "ab" ∷ ascii "c" ∷ []

abbrev pool : DataPool
pool = record { bytes = ascii "abc"; offsets = 0 ∷ 0 ∷ 2 ∷ 3 ∷ [] }

pool-Holds : Holds pool entries
unfolding bounds_from
pool-Holds = record { payload = refl; bounds = refl }

interned : (intern (ascii "c") (from_pool pool)).0 ≡ 2
unfolding intern from_pool bytes_eq
interned = refl

interned_new : get (intern (ascii "d") (from_pool pool)).1.pool 3 ≡ ok (ascii "d")
unfolding intern from_pool bytes_eq get
interned_new = refl

out_of_range : get pool 3 ≡ err (invalid "data pool index out of range")
unfolding get
out_of_range = refl

encode_pool : encode pool ≡ ok (3 ∷ 0 ∷ 2 ∷ 97 ∷ 98 ∷ 1 ∷ 99 ∷ [])
unfolding encode write_vuint write_sized
encode_pool = refl

from_builder : IsBuilder (from_pool pool) entries
from_builder = from_pool-IsBuilder pool entries pool-Holds

from_pool-IsBuilder_example : IsBuilder (from_pool pool) entries
from_pool-IsBuilder_example = from_pool-IsBuilder pool entries pool-Holds

intern-entry_example :
    Interned (ascii "d") (from_pool pool) entries from_builder (intern (ascii "d") (from_pool pool))
intern-entry_example = intern-entry (ascii "d") (from_pool pool) entries from_builder

truncate-intern_all_example :
    truncate
      (len (from_pool pool).pool)
      (intern_all (ascii "d" ∷ ascii "ab" ∷ ascii "e" ∷ []) (from_pool pool))
    ≡ some (from_pool pool)
truncate-intern_all_example =
    truncate-intern_all (ascii "d" ∷ ascii "ab" ∷ ascii "e" ∷ []) (from_pool pool) entries
      from_builder (omega arith)

decode-encode_example : (encode pool >>= λ bytes. decode bytes default_limits) ≡ ok pool
unfolding uleb
decode-encode_example =
    decode-encode default_limits pool (ascii "ab" ∷ ascii "c" ∷ []) pool-Holds (omega arith)
      (omega arith) (omega arith)
