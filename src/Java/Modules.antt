-- ===== src/Java/Modules.antt =====
-- janex-java/src/modules.rs: `system_roots` and `automatic`. The name that a message ends with is
-- left out of it.
pub mod Roots
pub mod Names
use janex.Base.{
  ℕ, zero, suc, ◌+◌, ◌-◌, ◌<◌, Bool, true, false, ◌&&◌, ◌||◌, not, Option, none, some, List, [],
  ◌∷◌, ◌++◌, length, take, drop, ltb, ◌==◌, if◌then◌else◌, Bytes, ascii, bytes_eq, is_digit,
  is_alphanumeric, is_empty, strip_suffix,
}
use janex.Failure.{Result, ok, err, invalid, ok_or, reject_if, ◌>>=◌, ◌>>◌}
use janex.Java.Map
use janex.Java.Map.{Map}

pub record Module : Type 0 where
  pub name : Bytes
  pub version : Option Bytes
  pub requires : List Bytes

-- `map.contains_key(name)` and `option.is_some()`.
abbrev pub is_some {ℓ} : {A : Type ℓ} → Option A → Bool
is_some none = false
is_some (some a) = true

abbrev pub contains_key {ℓ} : {V : Type ℓ} → Bytes → Map V → Bool
contains_key name map = is_some (Map.get name map)

-- The loop of `system_roots` over the modules.
unfoldable pub add_modules : List Module → Map (Option Bytes) → Result (Map (Option Bytes))
add_modules [] available = ok available
add_modules (module' ∷ modules) available = do
  reject_if (contains_key module'.name available) (invalid "duplicate or shadowed module")
  add_modules modules (Map.insert module'.name module'.version available)

-- `actual.as_ref() != Some(version)`, for a requirement that names a version.
abbrev pub disagrees : Option Bytes → Option Bytes → Bool
disagrees none actual = false
disagrees (some version) none = true
disagrees (some version) (some actual) = not (bytes_eq actual version)

-- The loop over the requirements.
unfoldable pub check_requirements :
    List (Bytes × Option Bytes) → Map (Option Bytes) → Result (Unit {0})
check_requirements [] available = ok tt
check_requirements ((name, version) ∷ requirements) available = do
  actual ← ok_or (Map.get name available) (invalid "required module is unavailable")
  reject_if (disagrees version actual) (invalid "required module version is unavailable")
  check_requirements requirements available

-- The loop over the required names: the set of roots is a map to nothing.
unfoldable pub collect_roots :
    List Bytes → Map (Option Bytes) → Map (Option Bytes) → Map (Unit {0}) → Result (Map (Unit {0}))
collect_roots [] runtime available roots = ok roots
collect_roots (name ∷ names) runtime available roots = do
  reject_if (not (contains_key name available)) (invalid "required module is unavailable")
  collect_roots names runtime available
      (if contains_key name runtime then Map.insert name tt roots else roots)

-- `option.into_iter()`.
abbrev pub option_list : Option Bytes → List Bytes
option_list none = []
option_list (some name) = name ∷ []

-- `modules.iter().flat_map(|module| &module.requires).chain(main)`.
unfoldable pub required_names : List Module → Option Bytes → List Bytes
required_names [] main = option_list main
required_names (module' ∷ modules) main = module'.requires ++ required_names modules main

unfoldable pub system_roots :
    Map (Option Bytes)
    → List Module
    → List (Bytes × Option Bytes)
    → Option Bytes
    → Result (Map (Unit {0}))
system_roots runtime modules requirements main = do
  available ← add_modules modules runtime
  check_requirements requirements available
  collect_roots (required_names modules main) runtime available []

-- `bytes.iter().take_while(|b| b.is_ascii_digit()).count()`.
unfoldable pub leading_digits : Bytes → ℕ
leading_digits [] = 0
leading_digits (b ∷ bytes) = if is_digit b then suc (leading_digits bytes) else 0

-- The text ends here, or goes on with a dot.
abbrev pub ends_or_dot : Bytes → Bool
ends_or_dot [] = true
ends_or_dot (b ∷ bytes) = b == b'.'

abbrev pub push_count : Option ℕ → Option ℕ
push_count none = none
push_count (some n) = some (suc n)

-- `(0..bytes.len()).find(..)`: the first hyphen before digits that end the text or a dot follows.
unfoldable pub find_boundary : Bytes → Option ℕ
find_boundary [] = none
find_boundary (b ∷ bytes) =
    let digits = leading_digits bytes in
    if b == b'-' && ltb 0 digits && ends_or_dot (drop digits bytes)
    then some 0
    else push_count (find_boundary bytes)

-- `text.find(test)`.
unfoldable pub find_byte : (ℕ → Bool) → Bytes → Option ℕ
find_byte test [] = none
find_byte test (b ∷ bytes) = if test b then some 0 else push_count (find_byte test bytes)

-- The filter on the version: no part behind `-` or `+` may be empty.
unfoldable pub is_version : Bytes → Bool
is_version version = elim (find_byte (λ b. b == b'-' || b == b'+') version) [
  | none ↦ true
  | some first ↦
      not (first + 1 == length version)
      && (elim (find_byte (λ b. b == b'+') (drop (first + 1) version)) [
        | none ↦ true
        | some next ↦ ltb (first + next + 2) (length version)
      ])
]

abbrev pub push_first : ℕ → List Bytes → List Bytes
push_first b [] = (b ∷ []) ∷ []
push_first b (part ∷ parts) = (b ∷ part) ∷ parts

-- `text.split(|c| !c.is_ascii_alphanumeric())`.
unfoldable pub split_parts : Bytes → List Bytes
split_parts [] = [] ∷ []
split_parts (b ∷ bytes) =
    if is_alphanumeric b then push_first b (split_parts bytes) else [] ∷ split_parts bytes

unfoldable pub filter_nonempty : List Bytes → List Bytes
filter_nonempty [] = []
filter_nonempty (part ∷ parts) =
    let rest = filter_nonempty parts in if is_empty part then rest else part ∷ rest

-- `parts.join(".")`.
unfoldable pub join_dots : List Bytes → Bytes
join_dots [] = []
join_dots (part ∷ []) = part
join_dots (part ∷ next ∷ parts) = part ++ b'.' ∷ join_dots (next ∷ parts)

abbrev pub unwrap_or {ℓ} : {A : Type ℓ} → Option A → A → A
unwrap_or none default = default
unwrap_or (some a) default = a

-- `boundary.map(|i| &stem[i + 1..]).filter(..)`.
unfoldable pub version_after : Option ℕ → Bytes → Option Bytes
version_after none stem = none
version_after (some i) stem =
    if is_version (drop (i + 1) stem) then some (drop (i + 1) stem) else none

abbrev pub stem_before : Option ℕ → Bytes → Bytes
stem_before none stem = stem
stem_before (some i) stem = take i stem

unfoldable pub automatic : Bytes → Option Bytes → Module
automatic file manifest_name =
    let stem = unwrap_or (strip_suffix (ascii ".jar") file) file in
    let boundary = find_boundary stem in
    record {
      name =
          unwrap_or manifest_name
            (join_dots (filter_nonempty (split_parts (stem_before boundary stem))));
      version = version_after boundary stem;
      requires = [];
    }
