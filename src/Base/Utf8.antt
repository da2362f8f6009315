-- ===== src/Base/Utf8.antt =====
-- `std::str::from_utf8`: the ranges of the first byte of a character, and of the bytes behind it.
use Prim.Native.Nat.{ℕ, zero, suc, ◌<◌, ◌≤◌}
use native.Mathlib.Omega.{arith}
use mathlib.Core.Path.{◌≡◌, refl}
use mathlib.Core.List.{[], ◌∷◌, ◌++◌}
use mathlib.Core.Bool.{Bool, true, false, ◌&&◌}
use mathlib.Core.Option.{Option, none, some}
use janex.Base.Tests.{ltb, leb, ◌==◌, if◌then◌else◌}
use janex.Base.Slices.{Bytes}

-- What a first byte asks for: how many bytes follow it, and the range of the next one.
lead : ℕ → Option (ℕ × ℕ × ℕ)
lead b =
    if ltb b 0x80
    then some (0, 0, 0)
    else if ltb b 0xc2
    then none
    else if ltb b 0xe0
    then some (1, 0x80, 0xbf)
    else if b == 0xe0
    then some (2, 0xa0, 0xbf)
    else if b == 0xed
    then some (2, 0x80, 0x9f)
    else if ltb b 0xf0
    then some (2, 0x80, 0xbf)
    else if b == 0xf0
    then some (3, 0x90, 0xbf)
    else if ltb b 0xf4
    then some (3, 0x80, 0xbf)
    else if b == 0xf4
    then some (3, 0x80, 0x8f)
    else none

-- `pending` bytes of the current character are to come, the next one between `low` and `high`.
utf8_from : ℕ → ℕ → ℕ → Bytes → Bool
utf8_from zero low high [] = true
utf8_from (suc pending) low high [] = false
utf8_from zero low high (b ∷ bs) = elim (lead b) [
  | none ↦ false
  | some (more, low', high') ↦ utf8_from more low' high' bs
]
utf8_from (suc pending) low high (b ∷ bs) =
    leb low b && leb b high && utf8_from pending 0x80 0xbf bs

unfoldable pub is_utf8 : Bytes → Bool
unfolding utf8_from lead
is_utf8 bs = utf8_from 0 0 0 bs

-- What may follow a first byte is no ASCII byte.
follows_high : (b more low high : ℕ) → lead b ≡ some (suc more, low, high) → 128 ≤ low
unfolding lead
follows_high b more low high h = ground arith

utf8_from-front :
    (pending low high : ℕ) (front : Bytes) (b : ℕ) (rest : Bytes)
    → b < 128
    → (0 < pending → 128 ≤ low)
    → utf8_from pending low high (front ++ (b ∷ rest)) ≡ true
    → utf8_from pending low high front ≡ true
unfolding utf8_from
utf8_from-front zero low high [] b rest ascii h k = refl
utf8_from-front (suc pending) low high [] b rest ascii h k = ground (arith, h)
utf8_from-front (suc pending) low high (c ∷ front) b rest ascii h k =
    ground (arith, utf8_from-front pending 0x80 0xbf front b rest ascii (λ _. omega arith))
utf8_from-front zero low high (c ∷ front) b rest ascii h k =
    by_lead (λ p l u. utf8_from-front p l u front b rest ascii) (lead c) refl k
  where
    by_lead :
        ((p l u : ℕ)
          → (0 < p → 128 ≤ l)
          → utf8_from p l u (front ++ (b ∷ rest)) ≡ true
          → utf8_from p l u front ≡ true)
        → (o : Option (ℕ × ℕ × ℕ)) → lead c ≡ o
        → elim o [ none ↦ false | some (p, l, u) ↦ utf8_from p l u (front ++ (b ∷ rest)) ] ≡ true
        → elim o [ none ↦ false | some (p, l, u) ↦ utf8_from p l u front ] ≡ true
    by_lead shorter none e t = t
    by_lead shorter (some (zero, l, u)) e t = shorter zero l u (λ pos. absurd (omega arith)) t
    by_lead shorter (some (suc p, l, u)) e t = shorter (suc p) l u (λ _. follows_high c p l u e) t

-- A text without what follows it from an ASCII byte on is a text.
pub is_utf8-front :
    (front : Bytes) (b : ℕ) (rest : Bytes)
    → b < 128
    → is_utf8 (front ++ (b ∷ rest)) ≡ true
    → is_utf8 front ≡ true
unfolding is_utf8
is_utf8-front front b rest low h =
    utf8_from-front 0 0 0 front b rest low (λ pos. absurd (omega arith)) h
