-- ===== src/Binary.antt =====
-- janex-format/src/binary.rs: limits, ULEB128 writing and length-prefixed fields. The cursor is in
-- Binary/Decoder.
mod Tests
pub mod Decoder
pub mod Bounds
pub mod Cursor
pub mod Uleb
pub mod Reading
pub mod Writing
use janex.Base.{
  ℕ, zero, suc, ◌+◌, ◌*◌, ◌/◌, ◌<◌, bit_and, bit_or, Bool, true, false, List, [], ◌∷◌, ◌++◌, length,
  ltb, ◌==◌, if◌then◌else◌, Bytes, try_usize, arith, lt_wf, ◌≡◌, refl,
}
use janex.Failure.{Result, ok, err, error, limit, ok_or, reject_if, ◌>>=◌, ◌>>◌}
use mathlib.Core.Logic.{dite}
use mathlib.Core.WellFounded.{Acc}
use native.Mathlib.Decide.{dec_lt}

pub record Limits : Type 0 where
  pub max_bytes : ℕ
  pub max_elements : ℕ
  pub max_depth : ℕ

-- `Limits::default()`.
abbrev pub default_limits : Limits
default_limits = record { max_bytes = 256 * 1024 * 1024; max_elements = 1_000_000; max_depth = 64 }

-- `Limits::bytes` and `Limits::elements`.
unfoldable pub limit_bytes : Limits → ℕ → Result ℕ
limit_bytes limits n = do
  reject_if (ltb limits.max_bytes n) (error limit "byte limit exceeded")
  ok_or (try_usize n) (error limit "length does not fit usize")

unfoldable pub limit_elements : Limits → ℕ → Result ℕ
limit_elements limits n = do
  reject_if (ltb limits.max_elements n) (error limit "element limit exceeded")
  ok_or (try_usize n) (error limit "count does not fit usize")

-- `std::io::Write`, of which the code uses `write_all`; the writer is returned with the bytes in it.
pub record Write (W : Type 0) : Type 0 where
  pub write_all : Bytes → W → Result W

-- `Vec<u8>` as a writer: it appends and cannot fail.
instance abbrev pub vec_write : Write Bytes
vec_write = record { write_all = λ bytes out. ok (out ++ bytes) }

group_shrinks : (v : ℕ) → 0 < v / 128 → v / 128 < v
group_shrinks v h = omega arith

module _ {W : Type 0} ⦃w : Write W⦄ where
  -- The loop of `write_vuint`; `value >>= 7` is a division by 128.
  write_groups : (value : ℕ) → Acc ◌<◌ value → W → Result W
  write_groups value (Acc.intro _ smaller) writer =
      let byte = bit_and value 0x7f in
      let rest = value / 128 in
      do
        written ← w.write_all (bit_or byte (if rest == 0 then 0 else 0x80) ∷ []) writer
        dite (dec_lt 0 rest)
            (λ more. write_groups rest (smaller rest (group_shrinks value more)) written)
            (λ _. ok written)

  unfoldable pub write_vuint : ℕ → W → Result W
  unfolding write_groups group_shrinks lt_wf dec_lt
  write_vuint value writer = write_groups value (lt_wf.apply value) writer

  unfoldable pub write_sized : Bytes → W → Result W
  unfolding write_vuint
  write_sized bytes writer = do
    written ← write_vuint (length bytes) writer
    w.write_all bytes written
