-- ===== src/Java/Modules/Roots.antt =====
-- janex-java/src/modules.rs: the roots that `system_roots` returns.
use janex.Base.{
  Bool, true, false, ◌&&◌, ◌||◌, not, ◌≡◌, refl, sym, ap, ◌∙◌, subst, Option, none, some, List, [],
  ◌∷◌, ◌++◌, All, any, if◌then◌else◌, Bytes, bytes_eq, bytes_eq→eq, Bool-cases, inl, inr, arith,
}
use janex.Failure.{
  Result, ok, err, invalid, Ensures, holds, Ensures-bind, Ensures-weaken, Ensures-ok,
  Ensures-reject_if, any as any_result, ◌>>=◌,
}
use janex.Java.Map
use janex.Java.Map.{Map, get-insert}
use janex.Java.Modules.{
  Module, contains_key, add_modules, check_requirements, collect_roots, required_names,
  system_roots,
}

contains_key-insert {ℓ} :
    {V : Type ℓ} (key wanted : Bytes) (value : V) (map : Map V)
    → contains_key wanted (Map.insert key value map)
      ≡ (bytes_eq wanted key || contains_key wanted map)
contains_key-insert key wanted value map = rw (get-insert key wanted value map) (ground arith)

-- The names that end up as roots are those wanted that the runtime has.
abbrev pub is_member : Bytes → List Bytes → Bool
is_member wanted names = any (bytes_eq wanted) names

same_key {ℓ} :
    {V : Type ℓ} (wanted name : Bytes) (map : Map V)
    → bytes_eq wanted name ≡ true
    → contains_key wanted map ≡ contains_key name map
same_key wanted name map e = ap (λ (t : Bytes). contains_key t map) (bytes_eq→eq wanted name e)

step :
    (wanted name : Bytes) (names : List Bytes) (runtime : Map (Option Bytes))
    (roots : Map (Unit {0}))
    → (contains_key wanted (if contains_key name runtime then Map.insert name tt roots else roots)
        || (is_member wanted names && contains_key wanted runtime))
      ≡ (contains_key wanted roots
          || (is_member wanted (name ∷ names) && contains_key wanted runtime))
step wanted name names runtime roots = elim (Bool-cases (contains_key name runtime)) [
  | inl there ↦
      rw (there, contains_key-insert name wanted tt roots)
        (by_tests (bytes_eq wanted name) (contains_key wanted roots) (is_member wanted names)
          (contains_key wanted runtime) λ e. same_key wanted name runtime e ∙ there)
  | inr missing ↦ rw missing (
      by_absence (bytes_eq wanted name) (contains_key wanted roots) (is_member wanted names)
        (contains_key wanted runtime) λ e. same_key wanted name runtime e ∙ missing)
]
  where
    by_tests :
        (same in_roots member in_runtime : Bool)
        → (same ≡ true → in_runtime ≡ true)
        → ((same || in_roots) || (member && in_runtime))
          ≡ (in_roots || ((same || member) && in_runtime))
    by_tests same in_roots member in_runtime h = ground arith

    by_absence :
        (same in_roots member in_runtime : Bool)
        → (same ≡ true → in_runtime ≡ false)
        → (in_roots || (member && in_runtime)) ≡ (in_roots || ((same || member) && in_runtime))
    by_absence same in_roots member in_runtime h = ground arith

collect_roots-Ensures :
    (names : List Bytes) (runtime available : Map (Option Bytes)) (roots : Map (Unit {0}))
    (wanted : Bytes)
    → Ensures
        (λ found.
          (contains_key wanted found ≡ (
            contains_key wanted roots || (is_member wanted names && contains_key wanted runtime)))
          × All (λ name. contains_key name available ≡ true) names)
        (collect_roots names runtime available roots)
unfolding collect_roots
collect_roots-Ensures [] runtime available roots wanted = holds (ground arith, tt)
collect_roots-Ensures (name ∷ names) runtime available roots wanted =
    Ensures-reject_if (not (contains_key name available)) (invalid "required module is unavailable")
      λ there.
        Ensures-weaken
          (collect_roots-Ensures names runtime available
            (if contains_key name runtime then Map.insert name tt roots else roots) wanted)
          λ found h. (h.0 ∙ step wanted name names runtime roots, (ground arith, h.1))

-- The modules that can be named: those of the runtime and the ones selected.
add_modules-Ensures :
    (modules : List Module) (start : Map (Option Bytes)) (wanted : Bytes)
    → Ensures
        (λ available.
          contains_key wanted available
          ≡ (contains_key wanted start || any (λ (m : Module). bytes_eq wanted m.name) modules))
        (add_modules modules start)
unfolding add_modules
add_modules-Ensures [] start wanted = holds (ground arith)
add_modules-Ensures (m ∷ modules) start wanted =
    Ensures-reject_if (contains_key m.name start) (invalid "duplicate or shadowed module") λ fresh.
      Ensures-weaken (add_modules-Ensures modules (Map.insert m.name m.version start) wanted)
        λ available h.
          h
          ∙ ap (λ (t : Bool). t || any (λ (m : Module). bytes_eq wanted m.name) modules)
              (contains_key-insert m.name wanted m.version start)
          ∙ regroup (bytes_eq wanted m.name) (contains_key wanted start)
              (any (λ (m : Module). bytes_eq wanted m.name) modules)
  where
    regroup : (a b c : Bool) → ((a || b) || c) ≡ (b || (a || c))
    regroup a b c = ground arith

-- The module is the main one, or a descriptor of those selected requires it.
abbrev pub is_main : Bytes → Option Bytes → Bool
is_main wanted none = false
is_main wanted (some name) = bytes_eq wanted name

abbrev pub is_asked : Bytes → List Module → Option Bytes → Bool
is_asked wanted modules main =
    any (λ (m : Module). is_member wanted m.requires) modules || is_main wanted main

is_member-append :
    (wanted : Bytes) (names more : List Bytes)
    → is_member wanted (names ++ more) ≡ (is_member wanted names || is_member wanted more)
is_member-append wanted [] more = refl
is_member-append wanted (name ∷ names) more = ground (arith, is_member-append wanted names more)

required_names-is_asked :
    (wanted : Bytes) (modules : List Module) (main : Option Bytes)
    → is_member wanted (required_names modules main) ≡ is_asked wanted modules main
unfolding required_names
required_names-is_asked wanted [] none = refl
required_names-is_asked wanted [] (some name) = ground arith
required_names-is_asked wanted (m ∷ modules) main = ground (
  arith,
  is_member-append wanted m.requires (required_names modules main),
  required_names-is_asked wanted modules main,
)

-- A name is among the roots that system_roots returns exactly when a selected descriptor requires it
-- or it is the main module, and the runtime has it.
pub system_roots-eq :
    (runtime : Map (Option Bytes)) (modules : List Module)
    (requirements : List (Bytes × Option Bytes)) (main : Option Bytes) (roots : Map (Unit {0}))
    (wanted : Bytes)
    → system_roots runtime modules requirements main ≡ ok roots
    → contains_key wanted roots ≡ (is_asked wanted modules main && contains_key wanted runtime)
unfolding system_roots Map.get
system_roots-eq runtime modules requirements main roots wanted h =
    Ensures-ok
      {P = λ found.
        contains_key wanted found
        ≡ (is_member wanted (required_names modules main) && contains_key wanted runtime)}
      (Ensures-bind (any_result (add_modules modules runtime)) λ available _.
        Ensures-bind (any_result (check_requirements requirements available)) λ _ _.
          Ensures-weaken
            (collect_roots-Ensures (required_names modules main) runtime available [] wanted)
            λ found k. k.0)
      h
    ∙ ap (λ (b : Bool). b && contains_key wanted runtime)
        (required_names-is_asked wanted modules main)

all_required :
    (runtime : Map (Option Bytes)) (modules : List Module)
    (requirements : List (Bytes × Option Bytes)) (main : Option Bytes) (roots : Map (Unit {0}))
    → system_roots runtime modules requirements main ≡ ok roots
    → All
        (λ name.
          (contains_key name runtime || any (λ (m : Module). bytes_eq name m.name) modules) ≡ true)
        (required_names modules main)
unfolding system_roots
all_required runtime modules requirements main roots h =
    by_modules (add_modules modules runtime) refl h
  where
    Available : List Bytes → Type 0
    Available = All λ name.
        (contains_key name runtime || any (λ (m : Module). bytes_eq name m.name) modules) ≡ true

    by_name :
        (names : List Bytes) (available : Map (Option Bytes))
        → add_modules modules runtime ≡ ok available
        → All (λ name. contains_key name available ≡ true) names
        → Available names
    by_name [] available e all = tt
    by_name (name ∷ names) available e all = (
      sym (Ensures-ok (add_modules-Ensures modules runtime name) e) ∙ all.0,
      by_name names available e all.1,
    )

    by_modules :
        (added : Result (Map (Option Bytes)))
        → add_modules modules runtime ≡ added
        → (added >>= λ available. check_requirements requirements available >>= λ _.
            collect_roots (required_names modules main) runtime available [])
          ≡ ok roots
        → Available (required_names modules main)
    by_modules (err e) same k = cc
    by_modules (ok available) same k = by_name (required_names modules main) available same (
        Ensures-ok
          {P = λ _. All (λ name. contains_key name available ≡ true) (required_names modules main)}
          (Ensures-bind (any_result (check_requirements requirements available)) λ _ _.
            Ensures-weaken
              (collect_roots-Ensures (required_names modules main) runtime available [] [])
              λ found q. q.1)
          k)

All-member {κ} :
    (P : Bytes → Type κ) (wanted : Bytes) (names : List Bytes)
    → All P names
    → is_member wanted names ≡ true
    → P wanted
All-member P wanted [] h e = cc
All-member P wanted (name ∷ names) h e = elim (Bool-cases (bytes_eq wanted name)) [
  | inl same ↦ subst P (sym (bytes_eq→eq wanted name same)) h.0
  | inr other ↦ All-member P wanted names h.1 (ground arith)
]

-- When system_roots succeeds, every module that a selected descriptor requires, and the main module,
-- is one of the runtime or one of those selected.
pub system_roots-available :
    (runtime : Map (Option Bytes)) (modules : List Module)
    (requirements : List (Bytes × Option Bytes)) (main : Option Bytes) (roots : Map (Unit {0}))
    (wanted : Bytes)
    → system_roots runtime modules requirements main ≡ ok roots
    → is_asked wanted modules main ≡ true
    → (contains_key wanted runtime || any (λ (m : Module). bytes_eq wanted m.name) modules) ≡ true
system_roots-available runtime modules requirements main roots wanted h asked =
    All-member
      (λ name.
        (contains_key name runtime || any (λ (m : Module). bytes_eq name m.name) modules) ≡ true)
      wanted (required_names modules main) (all_required runtime modules requirements main roots h)
      (required_names-is_asked wanted modules main ∙ asked)
