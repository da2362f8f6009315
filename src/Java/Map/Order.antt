-- ===== src/Java/Map/Order.antt =====
-- The order of the keys of a `BTreeMap`.
use janex.Base.{
  Bool, true, false, ◌≡◌, refl, sym, subst, [], ◌∷◌, All, Bytes, bytes_eq, bytes_eq→eq, bytes_lt,
  bytes_lt_trans, if◌then◌else◌, arith,
}
use janex.Java.Map
use janex.Java.Map.{Map}

-- The keys stand in their order, each once.
abbrev pub Ordered {ℓ} : {V : Type ℓ} → Map V → Type ℓ
Ordered [] = Unit
Ordered ((key, value) ∷ map) = All (λ entry. bytes_lt key entry.0 ≡ true) map × Ordered map

pub insert-All {ℓ κ} :
    {V : Type ℓ} (P : Bytes × V → Type κ) (key : Bytes) (value : V) (table : Map V)
    → P (key, value)
    → All P table
    → All P (Map.insert key value table)
unfolding Map.insert
insert-All P key value [] p h = (p, tt)
insert-All P key value ((k, v) ∷ table) p h =
    by_test (bytes_eq key k) (bytes_lt key k) (insert-All P key value table p h.1)
  where
    by_test :
        (b c : Bool)
        → All P (Map.insert key value table)
        → All P (
            if b
            then (key, value) ∷ table
            else if c
            then (key, value) ∷ (k, v) ∷ table
            else (k, v) ∷ Map.insert key value table)
    by_test true c rec = (p, h.1)
    by_test false true rec = (p, h)
    by_test false false rec = (h.0, rec)

bytes_lt_total : (a b : Bytes) → bytes_eq a b ≡ false → bytes_lt a b ≡ false → bytes_lt b a ≡ true
unfolding bytes_lt bytes_eq
bytes_lt_total [] [] h k = cc
bytes_lt_total [] (b ∷ bs) h k = cc
bytes_lt_total (a ∷ as') [] h k = refl
bytes_lt_total (a ∷ as') (b ∷ bs) h k = ground (arith, bytes_lt_total as' bs)

smaller_than {ℓ} :
    {V : Type ℓ} (key k : Bytes) (table : Map V)
    → bytes_lt key k ≡ true
    → All (λ entry. bytes_lt k entry.0 ≡ true) table
    → All (λ entry. bytes_lt key entry.0 ≡ true) table
smaller_than key k [] e h = tt
smaller_than key k ((other, v) ∷ table) e h =
    (bytes_lt_trans key k other e h.0, smaller_than key k table e h.1)

pub insert-Ordered {ℓ} :
    {V : Type ℓ} (key : Bytes) (value : V) (table : Map V)
    → Ordered table
    → Ordered (Map.insert key value table)
unfolding Map.insert
insert-Ordered key value [] h = (tt, tt)
insert-Ordered key value ((k, v) ∷ table) h =
    by_test (bytes_eq key k) refl (bytes_lt key k) refl (insert-Ordered key value table h.1)
  where
    by_test :
        (b : Bool)
        → bytes_eq key k ≡ b
        → (c : Bool) → bytes_lt key k ≡ c
        → Ordered (Map.insert key value table)
        → Ordered (
            if b
            then (key, value) ∷ table
            else if c
            then (key, value) ∷ (k, v) ∷ table
            else (k, v) ∷ Map.insert key value table)
    by_test true e c l rec = (
      subst (λ (t : Bytes). All (λ entry. bytes_lt t entry.0 ≡ true) table)
          (sym (bytes_eq→eq key k e)) h.0,
      h.1,
    )
    by_test false e true l rec = ((l, smaller_than key k table l h.0), h)
    by_test false e false l rec = (
      insert-All (λ entry. bytes_lt k entry.0 ≡ true) key value table (bytes_lt_total key k e l)
          h.0,
      rec,
    )
