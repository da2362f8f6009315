-- ===== src/Checksum.antt =====
-- janex-format/src/checksum.rs: algorithms and checksums, their encoding, and how they are computed
-- over a stream. The hash functions of the crates are the record Hashes.
mod Tests
pub mod Laws
use janex.Base.{
  ℕ, ◌+◌, ◌/◌, ◌%◌, Bool, true, false, not, Option, none, some, List, [], ◌∷◌, ltb, ◌==◌,
  if◌then◌else◌, length, Bytes, bytes_eq, String,
}
use Prim.Native.String.{◌++◌}
use janex.Failure.{
  Result, ok, err, Error, error, invalid, unsupported, verification, io, reject_if, ◌>>=◌, ◌>>◌,
}

pub data Algorithm : Type 0 where
  xxh3_64 xxh3_128 sha256 sha512 sm3 : Algorithm

-- `algorithm as u8`.
abbrev pub id : Algorithm → ℕ
id xxh3_64 = 0x11
id xxh3_128 = 0x12
id sha256 = 0x21
id sha512 = 0x22
id sm3 = 0x31

abbrev pub digest_length : Algorithm → ℕ
digest_length xxh3_64 = 8
digest_length xxh3_128 = 16
digest_length sha256 = 32
digest_length sha512 = 64
digest_length sm3 = 32

abbrev pub is_secure : Algorithm → Bool
is_secure xxh3_64 = false
is_secure xxh3_128 = false
is_secure sha256 = true
is_secure sha512 = true
is_secure sm3 = true

-- `format!("{id}")` for a byte.
digit : ℕ → String
digit n =
    if n == 0
    then "0"
    else if n == 1
    then "1"
    else if n == 2
    then "2"
    else if n == 3
    then "3"
    else if n == 4
    then "4"
    else if n == 5
    then "5"
    else if n == 6
    then "6"
    else if n == 7
    then "7"
    else if n == 8
    then "8"
    else "9"

show_byte : ℕ → String
unfolding digit
show_byte n =
    if ltb n 10
    then digit n
    else if ltb n 100
    then digit (n / 10) ++ digit (n % 10)
    else digit (n / 100) ++ digit (n / 10 % 10) ++ digit (n % 10)

unfoldable pub from_id : ℕ → Result Algorithm
unfolding show_byte
from_id n =
    if n == 0
    then err (invalid "checksum algorithm zero is reserved")
    else if n == 0x11
    then ok xxh3_64
    else if n == 0x12
    then ok xxh3_128
    else if n == 0x21
    then ok sha256
    else if n == 0x22
    then ok sha512
    else if n == 0x31
    then ok sm3
    else err (error unsupported ("checksum algorithm " ++ show_byte n))

pub record Checksum : Type 0 where
  pub algorithm : Algorithm
  pub digest : Bytes

-- `Checksum::decode`.
unfoldable pub decode : Bytes → Result Checksum
unfolding from_id
decode [] = err (invalid "empty checksum")
decode (n ∷ digest) = do
  algorithm ← from_id n
  reject_if (not (length digest == digest_length algorithm)) (invalid "incorrect checksum length")
  ok (record { algorithm = algorithm; digest = digest })

-- `Checksum::encode`.
abbrev pub encode : Checksum → Bytes
encode c = id c.algorithm ∷ c.digest

-- What the code uses of the crates xxhash_rust, sha2 and sm3: a state that takes bytes in.
pub record Hashes : Type 1 where
  pub State : Algorithm → Type 0
  pub new : (a : Algorithm) → State a
  pub update : (a : Algorithm) → Bytes → State a → State a
  pub finalize : (a : Algorithm) → State a → Bytes

-- The answers of `reader.read`, one after the other; behind the last there is only `Ok(0)`.
pub data Read : Type 0 where
  chunk : Bytes → Read
  interrupted : Read
  failed : String → Read

module _ {S : Type 0} (consume : Bytes → S → S) where
  -- `read_chunks`, with the state that the consumer changes.
  unfoldable pub read_chunks : List Read → S → Result S
  read_chunks [] state = ok state
  read_chunks (chunk [] ∷ reads) state = ok state
  read_chunks (chunk (b ∷ bytes) ∷ reads) state = read_chunks reads (consume (b ∷ bytes) state)
  read_chunks (interrupted ∷ reads) state = read_chunks reads state
  read_chunks (failed message ∷ reads) state = err (error io message)

module _ ⦃hashes : Hashes⦄ where
  -- The digest of a state, under its algorithm.
  abbrev pub checksum_of : (a : Algorithm) → hashes.State a → Checksum
  checksum_of a state = record { algorithm = a; digest = hashes.finalize a state }

  -- `Checksum::compute`, with `hash`.
  unfoldable pub compute : Algorithm → List Read → Result Checksum
  unfolding read_chunks
  compute a reads = do
    state ← read_chunks (hashes.update a) reads (hashes.new a)
    ok (checksum_of a state)

  -- `Checksum::verify`.
  unfoldable pub verify : Checksum → List Read → Result (Unit {0})
  unfolding compute
  verify c reads = do
    actual ← compute c.algorithm reads
    reject_if (not (bytes_eq actual.digest c.digest)) (error verification "checksum mismatch")
