-- ===== src/Binary/Bounds.antt =====
-- janex-format/src/binary.rs: what a length or a count that passes the limits is.
use janex.Base.{ℕ, ◌≤◌, ◌≡◌, ltb, try_usize, IsU64, arith}
use janex.Failure.{Ensures, Ensures-reject_if, Ensures-ok_or, error, limit}
use janex.Binary.{Limits, limit_bytes, limit_elements}

pub limit_bytes-Ensures : (limits : Limits) (n : ℕ) → Ensures (λ m. m ≡ n) (limit_bytes limits n)
unfolding limit_bytes
limit_bytes-Ensures limits n =
    Ensures-reject_if (ltb limits.max_bytes n) (error limit "byte limit exceeded")
      λ _. Ensures-ok_or (try_usize n) (error limit "length does not fit usize") λ m h. ground arith

pub limit_elements-Ensures :
    (limits : Limits) (n : ℕ)
    → Ensures (λ m. (n ≤ limits.max_elements) × IsU64 n) (limit_elements limits n)
unfolding limit_elements
limit_elements-Ensures limits n =
    Ensures-reject_if (ltb limits.max_elements n) (error limit "element limit exceeded") λ below.
      Ensures-ok_or (try_usize n) (error limit "count does not fit usize")
        λ m fits. (ground arith, ground arith)
