-- ===== src/Base/Text.antt =====
-- The operations of `str` that the code uses, on text as ASCII bytes or UTF-8 bytes.
use Prim.Native.Nat.{ℕ, ◌+◌, ◌-◌, ◌*◌}
use mathlib.Core.Path.{◌≡◌, refl}
use mathlib.Core.List.{List, [], ◌∷◌, ◌++◌}
use mathlib.Core.Bool.{Bool, true, false, ◌&&◌, ◌||◌}
use mathlib.Core.Option.{Option, none, some}
use janex.Base.Tests.{leb, ◌==◌, if◌then◌else◌}
use janex.Base.Lists.{length, take, drop, take-append-drop}
use janex.Base.Slices.{Bytes, bytes_eq, bytes_eq→eq}

abbrev pub is_digit : ℕ → Bool
is_digit b = leb b'0' b && leb b b'9'

abbrev pub is_upper : ℕ → Bool
is_upper b = leb b'A' b && leb b b'Z'

abbrev pub is_lower : ℕ → Bool
is_lower b = leb b'a' b && leb b b'z'

abbrev pub is_alphanumeric : ℕ → Bool
is_alphanumeric b = is_digit b || is_upper b || is_lower b

abbrev pub is_empty {ℓ} : {A : Type ℓ} → List A → Bool
is_empty [] = true
is_empty (b ∷ bs) = false

-- `text.strip_prefix(prefix)`.
unfoldable pub strip_prefix : Bytes → Bytes → Option Bytes
strip_prefix [] text = some text
strip_prefix (p ∷ ps) [] = none
strip_prefix (p ∷ ps) (b ∷ bs) = if p == b then strip_prefix ps bs else none

abbrev push_front : ℕ → Option (Bytes × Bytes) → Option (Bytes × Bytes)
push_front b none = none
push_front b (some (front, back)) = some (b ∷ front, back)

-- `text.split_once(separator)`.
unfoldable pub split_once : ℕ → Bytes → Option (Bytes × Bytes)
split_once separator [] = none
split_once separator (b ∷ bs) =
    if b == separator then some ([], bs) else push_front b (split_once separator bs)

abbrev pub push_first : ℕ → List Bytes → List Bytes
push_first b [] = (b ∷ []) ∷ []
push_first b (part ∷ parts) = (b ∷ part) ∷ parts

-- `text.split(separator)`: there is always a first part.
unfoldable pub split : ℕ → Bytes → List Bytes
split separator [] = [] ∷ []
split separator (b ∷ bs) =
    if b == separator then [] ∷ split separator bs else push_first b (split separator bs)

-- `text.trim_start_matches(byte)`.
unfoldable pub trim_start : ℕ → Bytes → Bytes
trim_start byte [] = []
trim_start byte (b ∷ bs) = if b == byte then trim_start byte bs else b ∷ bs

-- The number that decimal digits stand for.
unfoldable pub decimal_value : ℕ → Bytes → ℕ
decimal_value value [] = value
decimal_value value (b ∷ bs) = decimal_value (value * 10 + (b - b'0')) bs

-- `text.strip_suffix(suffix)`.
unfoldable pub strip_suffix : Bytes → Bytes → Option Bytes
strip_suffix suffix text =
    let front = length text - length suffix in
    if leb (length suffix) (length text) && bytes_eq (drop front text) suffix
    then some (take front text)
    else none

pub strip_suffix-append :
    (suffix text front : Bytes) → strip_suffix suffix text ≡ some front → text ≡ front ++ suffix
unfolding strip_suffix
strip_suffix-append suffix text front h =
    by_test (leb (length suffix) (length text))
      (bytes_eq (drop (length text - length suffix) text) suffix) refl h
  where
    by_test :
        (x y : Bool)
        → bytes_eq (drop (length text - length suffix) text) suffix ≡ y
        → (if x && y then some (take (length text - length suffix) text) else none) ≡ some front
        → text ≡ front ++ suffix
    by_test true true e k = cc (
      k,
      take-append-drop (length text - length suffix) text,
      bytes_eq→eq (drop (length text - length suffix) text) suffix e,
    )
    by_test true false e k = cc
    by_test false y e k = cc
