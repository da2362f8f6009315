-- ===== src/Pool.antt =====
-- janex-format/src/data_pool.rs: pools of byte sequences that are found by index, and the builder
-- that shares equal entries.
mod Tests
pub mod Entries
pub mod Codec
pub mod Builder
pub mod Rollback
use janex.Base.{
  ℕ, zero, suc, ◌+◌, ◌-◌, Bool, true, false, not, ◌&&◌, Option, none, some, List, [], ◌∷◌, ◌++◌,
  ltb, ◌==◌, if◌then◌else◌, length, drop, get_or, Bytes, bytes_eq, is_empty, max,
}
use janex.Base as Base
use janex.Failure.{Result, ok, err, invalid, reject_if, ◌>>=◌, ◌>>◌}
use janex.Binary.{Limits, vec_write, write_vuint, write_sized}
use janex.Binary.Decoder
use janex.Binary.Decoder.{Decoder, slice, remaining}

-- The payloads one after the other, and the bounds of the entries among them.
pub record DataPool : Type 0 where
  pub bytes : Bytes
  pub offsets : List ℕ

-- `DataPool::default()`.
abbrev pub new_pool : DataPool
new_pool = record { bytes = []; offsets = 0 ∷ 0 ∷ [] }

-- The entry that the code appends in `decode` and `intern`.
abbrev pub push : DataPool → Bytes → DataPool
push pool value = record {
  bytes = pool.bytes ++ value;
  offsets = pool.offsets ++ (length (pool.bytes ++ value) ∷ []);
}

-- `DataPool::len`.
abbrev pub len : DataPool → ℕ
len pool = length pool.offsets - 1

-- `DataPool::get`.
unfoldable pub get : DataPool → ℕ → Result Bytes
get pool index =
    if ltb index (len pool)
    then ok (slice pool.bytes (get_or pool.offsets index 0) (get_or pool.offsets (suc index) 0))
    else err (invalid "data pool index out of range")

-- The loop of `encode` over `offsets.windows(2)`.
unfoldable pub encode_entries : Bytes → List ℕ → Bytes → Result Bytes
encode_entries payload [] out = ok out
encode_entries payload (start ∷ []) out = ok out
encode_entries payload (start ∷ end ∷ offsets) out = do
  written ← write_sized (slice payload start end) out
  encode_entries payload (end ∷ offsets) written

-- `DataPool::encode`.
unfoldable pub encode : DataPool → Result Bytes
unfolding encode_entries
encode pool = do written ← write_vuint (len pool) []; encode_entries pool.bytes pool.offsets written

-- The loop of `decode`, of which `left` rounds are to come.
unfoldable pub decode_entries : ℕ → ℕ → Decoder → DataPool → Result (DataPool × Decoder)
decode_entries zero index decoder pool = ok (pool, decoder)
decode_entries (suc left) index decoder pool = do
  (value, rest) ← Decoder.sized decoder
  reject_if (index == 0 && not (is_empty value)) (invalid "data pool index zero must be empty")
  decode_entries left (index + 1) rest (push pool value)

-- `DataPool::decode`.
unfoldable pub decode : Bytes → Limits → Result DataPool
unfolding decode_entries
decode bytes limits = do
  start ← Decoder.new bytes limits
  (count, decoder) ← Decoder.count start
  reject_if (count == 0) (invalid "data pool must contain index zero")
  reject_if (ltb (remaining decoder) count) (invalid "truncated data pool entries")
  (pool, rest) ← decode_entries count 0 decoder (record { bytes = []; offsets = 0 ∷ [] })
  Decoder.finish rest
  ok pool

-- `HashMap<Vec<u8>, u64>`: what each key is mapped to.
abbrev pub Indices : Type 0
Indices = Bytes → Option ℕ

abbrev pub insert : Bytes → ℕ → Indices → Indices
insert key index indices = λ query. if bytes_eq query key then some index else indices query

abbrev pub remove : Bytes → Indices → Indices
remove key indices = λ query. if bytes_eq query key then none else indices query

pub record DataPoolBuilder : Type 0 where
  pub pool : DataPool
  pub indices : Indices

-- `DataPoolBuilder::from`: the windows of the offsets, from the entry `index` on.
unfoldable pub index_entries : Bytes → List ℕ → ℕ → Indices → Indices
index_entries payload [] index indices = indices
index_entries payload (start ∷ []) index indices = indices
index_entries payload (start ∷ end ∷ offsets) index indices =
    index_entries payload (end ∷ offsets) (suc index)
      (insert (slice payload start end) index indices)

unfoldable pub from_pool : DataPool → DataPoolBuilder
unfolding index_entries
from_pool pool = record {
  pool = pool;
  indices = index_entries pool.bytes pool.offsets 0 (λ _. none);
}

-- `DataPoolBuilder::find`.
abbrev pub find : DataPoolBuilder → Bytes → Option ℕ
find builder value = builder.indices value

-- The body of `intern` when the value is not found.
abbrev pub append : DataPoolBuilder → Bytes → DataPoolBuilder
append builder value = record {
  pool = push builder.pool value;
  indices = insert value (len builder.pool) builder.indices;
}

-- `intern`, by what `find` says of the value.
abbrev pub intern_found : Bytes → DataPoolBuilder → Option ℕ → ℕ × DataPoolBuilder
intern_found value builder (some index) = (index, builder)
intern_found value builder none = (len builder.pool, append builder value)

-- `DataPoolBuilder::intern`.
unfoldable pub intern : Bytes → DataPoolBuilder → ℕ × DataPoolBuilder
intern value builder = intern_found value builder (find builder value)

-- The loop of `truncate` over the windows of the offsets that go.
unfoldable pub remove_entries : Bytes → List ℕ → Indices → Indices
remove_entries payload [] indices = indices
remove_entries payload (start ∷ []) indices = indices
remove_entries payload (start ∷ end ∷ offsets) indices =
    remove_entries payload (end ∷ offsets) (remove (slice payload start end) indices)

-- `DataPoolBuilder::truncate`. `none` is the panic at a length that the pool does not have.
unfoldable pub truncate : ℕ → DataPoolBuilder → Option DataPoolBuilder
unfolding remove_entries
truncate checkpoint builder =
    let kept = max checkpoint 1 in
    let pool = builder.pool in
    if ltb kept (length pool.offsets)
    then some (record {
      pool = record {
        bytes = Base.take (get_or pool.offsets kept 0) pool.bytes;
        offsets = Base.take (suc kept) pool.offsets;
      };
      indices = remove_entries pool.bytes (drop kept pool.offsets) builder.indices;
    })
    else none
