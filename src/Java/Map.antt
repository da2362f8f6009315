-- ===== src/Java/Map.antt =====
-- `BTreeMap` with texts as keys: a list of entries in the order of the keys.
pub mod Order
use janex.Base.{
  Bool, true, false, Option, none, some, List, [], ◌∷◌, ◌≡◌, refl, sym, ap, ◌∙◌, if◌then◌else◌,
  Bytes, bytes_eq, bytes_lt, bytes_eq→eq, arith,
}

abbrev pub Map {ℓ} : Type ℓ → Type ℓ
Map V = List (Bytes × V)

module _ {ℓ} {V : Type ℓ} where
  -- `map.get(key)`.
  unfoldable pub get : Bytes → Map V → Option V
  get key [] = none
  get key ((k, v) ∷ map) = if bytes_eq key k then some v else get key map

  -- `map.insert(key, value)`.
  unfoldable pub insert : Bytes → V → Map V → Map V
  insert key value [] = (key, value) ∷ []
  insert key value ((k, v) ∷ map) =
      let rest = insert key value map in
      if bytes_eq key k
      then (key, value) ∷ map
      else if bytes_lt key k
      then (key, value) ∷ (k, v) ∷ map
      else (k, v) ∷ rest

exclusive :
    (wanted key k : Bytes)
    → bytes_eq wanted k ≡ true
    → bytes_eq wanted key ≡ true
    → bytes_eq key k ≡ true
exclusive wanted key k a b = ap (λ (t : Bytes). bytes_eq t k) (sym (bytes_eq→eq wanted key b)) ∙ a

module _ {ℓ} {V : Type ℓ} where
  -- The law of `insert`, for every map and in any order of its entries.
  pub get-insert :
      (key wanted : Bytes) (value : V) (map : Map V)
      → get wanted (insert key value map)
        ≡ (if bytes_eq wanted key then some value else get wanted map)
  unfolding get insert
  get-insert key wanted value [] = refl
  get-insert key wanted value ((k, v) ∷ map) =
      by_test (bytes_eq key k) refl (bytes_lt key k) (get-insert key wanted value map)
    where
      by_test :
          (b : Bool)
          → bytes_eq key k ≡ b
          → (c : Bool)
          → get wanted (insert key value map)
            ≡ (if bytes_eq wanted key then some value else get wanted map)
          → get wanted (
              if b
              then (key, value) ∷ map
              else if c
              then (key, value) ∷ (k, v) ∷ map
              else (k, v) ∷ insert key value map)
            ≡ (if bytes_eq wanted key
                then some value
                else if bytes_eq wanted k
                then some v
                else get wanted map)
      by_test true e c rec = ground (arith, ap (bytes_eq wanted) (bytes_eq→eq key k e))
      by_test false e true rec = refl
      by_test false e false rec = ground (arith, exclusive wanted key k, rec)
