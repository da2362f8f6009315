-- ===== src/Java.antt =====
-- janex-java/src/limits.rs and error.rs. An `Error` of this crate is an error without an offset:
-- `InvalidInput` is the kind of `invalid`.
pub mod Map
pub mod Manifest
pub mod Modules
mod Tests
use janex.Base.{ℕ, ◌*◌, ltb, try_usize, none, some}
use janex.Failure.{Result, ok, err, error, limit, ok_or, reject_if, ◌>>=◌, ◌>>◌}

pub record Limits : Type 0 where
  pub max_bytes : ℕ
  pub max_elements : ℕ

-- `Limits::default()`.
abbrev pub default_limits : Limits
default_limits = record { max_bytes = 256 * 1024 * 1024; max_elements = 1_000_000 }

-- `Limits::bytes` and `Limits::elements`.
unfoldable pub limit_bytes : Limits → ℕ → Result ℕ
limit_bytes limits n = do
  reject_if (ltb limits.max_bytes n) (error limit "byte limit exceeded")
  ok_or (try_usize n) (error limit "length does not fit usize")

unfoldable pub limit_elements : Limits → ℕ → Result ℕ
limit_elements limits n = do
  reject_if (ltb limits.max_elements n) (error limit "element limit exceeded")
  ok_or (try_usize n) (error limit "count does not fit usize")
