-- ===== src/Failure.antt =====
-- janex-format/src/error.rs: failures as values. The source error of an I/O failure is represented
-- by its message.
use janex.Base.{if◌then◌else◌, refl, Bool, true, false, ℕ, ◌≡◌, Option, none, some, String, subst}
use mathlib.Core.Logic.{dite}
use Prim.Native.String.{◌++◌}

pub data ErrorKind : Type 0 where
  invalid_kind unsupported limit verification io : ErrorKind

pub record Error : Type 0 where
  pub kind : ErrorKind
  pub offset : Option ℕ
  pub message : String

pub data Result {ℓ} (A : Type ℓ) : Type ℓ where
  err : Error → Result A
  ok : A → Result A

-- `Error::new`, `invalid`, `at` and `context`.
abbrev pub error : ErrorKind → String → Error
error kind message = record { kind = kind; offset = none; message = message }

abbrev pub invalid : String → Error
invalid message = error invalid_kind message

abbrev pub at : Error → ℕ → Error
at e offset = record e { offset = some offset }

abbrev pub context : Error → String → Error
context e outer = record e { message = outer ++ ": " ++ e.message }

-- The operator `?`: an error ends the function.
infixl 5 ◌>>=◌
abbrev pub ◌>>=◌ {ℓ κ} : {A : Type ℓ} {B : Type κ} → Result A → (A → Result B) → Result B
◌>>=◌ (err e) next = err e
◌>>=◌ (ok a) next = next a

infixl 5 ◌>>◌
abbrev pub ◌>>◌ {ℓ κ} : {A : Type ℓ} {B : Type κ} → Result A → Result B → Result B
◌>>◌ first next = first >>= λ _. next

-- `if test { return Err(e) }`.
abbrev pub reject_if : Bool → Error → Result (Unit {0})
reject_if true e = err e
reject_if false e = ok tt

-- `option.ok_or_else(|| e)`.
abbrev pub ok_or {ℓ} : {A : Type ℓ} → Option A → Error → Result A
ok_or none e = err e
ok_or (some a) e = ok a

-- `if let Some(a) = option { f(a) } else { otherwise }`.
abbrev pub if_some {ℓ κ} : {A : Type ℓ} {B : Type κ} → Option A → (A → B) → B → B
if_some none f otherwise = otherwise
if_some (some a) f otherwise = f a

pub ok_injective {ℓ} : {A : Type ℓ} {a b : A} → ok a ≡ ok b → a ≡ b
ok_injective h = cc

-- The run succeeded with a value of which `P` holds, or failed.
pub data Ensures {ℓ κ} {A : Type ℓ} (P : A → Type κ) : Result A → Type (ℓ ⊔ κ) where
  holds : {a : A} → P a → Ensures P (ok a)
  failed : {e : Error} → Ensures P (err e)

module _ {ℓ κ} {A : Type ℓ} {P : A → Type κ} where
  pub Ensures-weaken {κ'} :
      {Q : A → Type κ'} {r : Result A} → Ensures P r → ((a : A) → P a → Q a) → Ensures Q r
  Ensures-weaken (holds {a} h) k = holds (k a h)
  Ensures-weaken failed k = failed

  pub Ensures-bind {ℓ' κ'} :
      {B : Type ℓ'} {Q : B → Type κ'} {r : Result A} {f : A → Result B}
      → Ensures P r
      → ((a : A) → P a → Ensures Q (f a))
      → Ensures Q (r >>= f)
  Ensures-bind (holds {a} h) k = k a h
  Ensures-bind failed k = failed

  pub Ensures-ok : {r : Result A} {a : A} → Ensures P r → r ≡ ok a → P a
  Ensures-ok (holds h) e = subst P (cc) h
  Ensures-ok failed e = cc

  pub Ensures-if :
      (b : Bool) {x y : Result A}
      → (b ≡ true → Ensures P x)
      → (b ≡ false → Ensures P y)
      → Ensures P (if b then x else y)
  Ensures-if true hx hy = hx refl
  Ensures-if false hx hy = hy refl

  -- A guard that passes gives its test to what follows.
  pub Ensures-reject_if :
      (b : Bool) (e : Error) {m : Result A}
      → (b ≡ false → Ensures P m)
      → Ensures P (reject_if b e >> m)
  Ensures-reject_if true e h = failed
  Ensures-reject_if false e h = h refl

  pub Ensures-ok_or :
      (m : Option A) (e : Error) → ((a : A) → m ≡ some a → P a) → Ensures P (ok_or m e)
  Ensures-ok_or none e h = failed
  Ensures-ok_or (some a) e h = holds (h a refl)

  pub Ensures-dite {κ'} :
      {Q : Type κ'} (d : Dec Q) {f : Q → Result A} {g : ¬ Q → Result A}
      → ((h : Q) → Ensures P (f h))
      → ((h : ¬ Q) → Ensures P (g h))
      → Ensures P (dite d f g)
  Ensures-dite (yes q) hf hg = hf q
  Ensures-dite (no q) hf hg = hg q

  pub Ensures-if_some {κ'} :
      {B : Type κ'} (m : Option B) {f : B → Result A} {r : Result A}
      → ((b : B) → Ensures P (f b))
      → Ensures P r
      → Ensures P (if_some m f r)
  Ensures-if_some none hf hr = hr
  Ensures-if_some (some b) hf hr = hf b

  -- The same, where the value found matters.
  pub Ensures-if_found {κ'} :
      {B : Type κ'} (m : Option B) {f : B → Result A} {r : Result A}
      → ((b : B) → m ≡ some b → Ensures P (f b))
      → Ensures P r
      → Ensures P (if_some m f r)
  Ensures-if_found none hf hr = hr
  Ensures-if_found (some b) hf hr = hf b refl

-- A guard that ends the function.
pub reject_if-Ensures {κ} :
    {Q : Type κ} (b : Bool) (e : Error) → (b ≡ false → Q) → Ensures (λ _. Q) (reject_if b e)
reject_if-Ensures true e h = failed
reject_if-Ensures false e h = holds (h refl)

-- A step of which nothing is said.
pub any {ℓ} : {A : Type ℓ} (r : Result A) → Ensures (λ _. Unit {0}) r
any (ok a) = holds tt
any (err e) = failed

-- Every error of the run is one of which `P` holds.
pub data Raises {ℓ κ} {A : Type ℓ} (P : Error → Type κ) : Result A → Type (ℓ ⊔ κ) where
  fine : {a : A} → Raises P (ok a)
  raised : {e : Error} → P e → Raises P (err e)

module _ {ℓ κ} {A : Type ℓ} {P : Error → Type κ} where
  pub Raises-weaken {κ'} :
      {Q : Error → Type κ'} {r : Result A}
      → Raises P r
      → ((e : Error) → P e → Raises {A = A} Q (err e))
      → Raises Q r
  Raises-weaken fine k = fine
  Raises-weaken (raised {e} h) k = k e h

  pub Raises-bind {ℓ'} :
      {B : Type ℓ'} {r : Result A} {f : A → Result B}
      → Raises P r
      → ((a : A) → Raises P (f a))
      → Raises P (r >>= f)
  Raises-bind (fine {a}) k = k a
  Raises-bind (raised h) k = raised h

  pub Raises-err : {r : Result A} {e : Error} → Raises P r → r ≡ err e → P e
  Raises-err fine h = cc
  Raises-err (raised k) h = subst P (cc) k

  pub Raises-if :
      (b : Bool) {x y : Result A} → Raises P x → Raises P y → Raises P (if b then x else y)
  Raises-if true hx hy = hx
  Raises-if false hx hy = hy

  pub Raises-ok_or : (m : Option A) (e : Error) → P e → Raises P (ok_or m e)
  Raises-ok_or none e h = raised h
  Raises-ok_or (some a) e h = fine

  pub Raises-dite {κ'} :
      {Q : Type κ'} (d : Dec Q) {f : Q → Result A} {g : ¬ Q → Result A}
      → ((h : Q) → Raises P (f h))
      → ((h : ¬ Q) → Raises P (g h))
      → Raises P (dite d f g)
  Raises-dite (yes q) hf hg = hf q
  Raises-dite (no q) hf hg = hg q

  pub Raises-if_some {κ'} :
      {B : Type κ'} (m : Option B) {f : B → Result A} {r : Result A}
      → ((b : B) → Raises P (f b))
      → Raises P r
      → Raises P (if_some m f r)
  Raises-if_some none hf hr = hr
  Raises-if_some (some b) hf hr = hf b

pub Raises-reject_if {κ} :
    {P : Error → Type κ} (b : Bool) (e : Error) → P e → Raises P (reject_if b e)
Raises-reject_if true e h = raised h
Raises-reject_if false e h = fine

-- Where the first run succeeds the second does too, and `P` holds of their values.
pub data Follows {ℓ κ μ} {A : Type ℓ} {B : Type κ} (P : A → B → Type μ)
    : Result A → Result B → Type (ℓ ⊔ κ ⊔ μ) where
  no_claim : {e : Error} {s : Result B} → Follows P (err e) s
  follows : {a : A} {b : B} → P a b → Follows P (ok a) (ok b)

module _ {ℓ κ μ} {A : Type ℓ} {B : Type κ} {P : A → B → Type μ} where
  -- Both runs begin with the same step.
  pub Follows-same {ℓ'} :
      {X : Type ℓ'} (r : Result X) {f : X → Result A} {g : X → Result B}
      → ((x : X) → r ≡ ok x → Follows P (f x) (g x))
      → Follows P (r >>= f) (r >>= g)
  Follows-same (err e) k = no_claim
  Follows-same (ok x) k = k x refl

  -- A step of the first run alone.
  pub Follows-first {ℓ'} :
      {X : Type ℓ'} (r : Result X) {f : X → Result A} {s : Result B}
      → ((x : X) → r ≡ ok x → Follows P (f x) s)
      → Follows P (r >>= f) s
  Follows-first (err e) k = no_claim
  Follows-first (ok x) k = k x refl

  pub Follows-bind {ℓ' κ' μ'} :
      {X : Type ℓ'} {Y : Type κ'} {Q : X → Y → Type μ'} {r : Result X} {s : Result Y}
      {f : X → Result A} {g : Y → Result B}
      → Follows Q r s
      → ((x : X) (y : Y) → Q x y → Follows P (f x) (g y))
      → Follows P (r >>= f) (s >>= g)
  Follows-bind no_claim k = no_claim
  Follows-bind (follows {a} {b} h) k = k a b h

  pub Follows-map {ℓ' μ'} :
      {X : Type ℓ'} {Q : X → B → Type μ'} (f : X → A) {r : Result X} {s : Result B}
      → Follows Q r s
      → ((x : X) (b : B) → Q x b → P (f x) b)
      → Follows P (r >>= λ x. ok (f x)) s
  Follows-map f no_claim k = no_claim
  Follows-map f (follows {a} {b} h) k = follows (k a b h)

  pub Follows-if :
      (b : Bool) {x x' : Result A} {y y' : Result B}
      → (b ≡ true → Follows P x y)
      → (b ≡ false → Follows P x' y')
      → Follows P (if b then x else x') (if b then y else y')
  Follows-if true h k = h refl
  Follows-if false h k = k refl

  pub Follows-ok :
      {r : Result A} {s : Result B} {a : A}
      → Follows P r s
      → r ≡ ok a
      → (b : B) × (s ≡ ok b) × P a b
  Follows-ok no_claim e = cc
  Follows-ok (follows {a} {b} h) e = (b, refl, subst (λ t. P t b) (cc) h)

-- The run succeeds.
abbrev pub Succeeds {ℓ} : {A : Type ℓ} → Result A → Type ℓ
Succeeds {A = A} r = (a : A) × (r ≡ ok a)

pub Succeeds-bind {ℓ κ} :
    {A : Type ℓ} {B : Type κ} (r : Result A) {f : A → Result B}
    → Succeeds r
    → ((a : A) → r ≡ ok a → Succeeds (f a))
    → Succeeds (r >>= f)
Succeeds-bind (err e) (a, h) k = cc
Succeeds-bind (ok b) h k = k b refl

pub Succeeds-if {ℓ} :
    {A : Type ℓ} (b : Bool) {x y : Result A}
    → (b ≡ true → Succeeds x)
    → (b ≡ false → Succeeds y)
    → Succeeds (if b then x else y)
Succeeds-if true h k = h refl
Succeeds-if false h k = k refl

pub Succeeds-dite {ℓ κ} :
    {A : Type ℓ} {Q : Type κ} (d : Dec Q) {f : Q → Result A} {g : ¬ Q → Result A}
    → ((h : Q) → Succeeds (f h))
    → ((h : ¬ Q) → Succeeds (g h))
    → Succeeds (dite d f g)
Succeeds-dite (yes q) hf hg = hf q
Succeeds-dite (no q) hf hg = hg q
