-- ===== src/Version/Normal.antt =====
-- janex-format/src/version.rs: the normal form of the versions that `parse` builds.
use Prim.Native.Nat.{Ordering}
use janex.Base.{
  ℕ, zero, suc, ◌≤◌, ◌≡◌, ◌≢◌, ◌↔◌, refl, ap, ◌∙◌, subst, Bool, true, false, not, ◌||◌, Option,
  none, some, List, [], ◌∷◌, ltb, ltb→le, all, Bytes, arith, ascii, is_empty, strip_prefix, split,
}
use janex.Failure.{
  Result, ok, err, Ensures, holds, failed, Ensures-bind, Ensures-ok, any, Ensures-if,
  Ensures-if_some, if_some, Ensures-reject_if, ◌>>=◌, ◌>>◌, reject_if, invalid,
}
use janex.Version.{
  JavaVersion, cmp_numbers, numeric, cmp_identifiers, cmp_pre, cmp, decimal, validate_pre,
  validate_optional,
}
use janex.Version.Order.{cmp_text→eq, cmp-IsComparison, numbers-IsComparison, flip}
use janex.Version.Syntax.{
  pop_zeros, strip_zeros, keep_number, ends_in_zero, first_number, canonical_pre, split_option,
  pre_of, optional_of, build_suffix, parse_plain, parse_step, parse_within, parse, parse_version,
  java_eight, update_alias, decimals, check_option, check_build,
}

-- No zero ends the numbers, and the feature version is 8 or later.
pub record IsNormal (v : JavaVersion) : Type 0 where
  pub feature : 8 ≤ first_number v.numbers
  pub no_end_zero : ends_in_zero v.numbers ≡ false

-- What is left of the numbers behind the first ends in no zero, whatever number stands before.
keep-ends :
    (y : ℕ) (ys : List ℕ) → ends_in_zero ys ≡ false → ends_in_zero (keep_number y ys) ≡ false
unfolding ends_in_zero
keep-ends y [] h = ground arith
keep-ends y (z ∷ zs) h = h

strip-ends : (xs : List ℕ) → ends_in_zero (strip_zeros xs) ≡ false
unfolding ends_in_zero strip_zeros
strip-ends [] = refl
strip-ends (x ∷ xs) = keep-ends x (strip_zeros xs) (strip-ends xs)

ends_in_zero-cons :
    (x : ℕ) (xs : List ℕ) → x ≢ 0 → ends_in_zero xs ≡ false → ends_in_zero (x ∷ xs) ≡ false
unfolding ends_in_zero
ends_in_zero-cons x [] h k = ground arith
ends_in_zero-cons x (y ∷ ys) h k = k

pop_zeros-IsNormal :
    (numbers : List ℕ) (pre : Option Bytes)
    → 8 ≤ first_number numbers
    → IsNormal (record { numbers = pop_zeros numbers; pre = pre })
unfolding pop_zeros
pop_zeros-IsNormal [] pre h = absurd (omega arith)
pop_zeros-IsNormal (x ∷ xs) pre h = record {
  feature = h;
  no_end_zero = ends_in_zero-cons x (strip_zeros xs) (omega arith) (strip-ends xs);
}

Ensures-next {ℓ κ λ'} :
    {A : Type ℓ} {B : Type κ} {Q : B → Type λ'} (r : Result A) {f : A → Result B}
    → ((a : A) → Ensures Q (f a))
    → Ensures Q (r >>= f)
Ensures-next r k = Ensures-bind {P = λ _. Unit {0}} (any r) (λ a _. k a)

plain-IsNormal : (text : Bytes) → Ensures (λ r. IsNormal r.0) (parse_plain text)
unfolding parse_plain
plain-IsNormal text =
    let before = (split_option b'+' text).0 in
    let build = (split_option b'+' text).1 in
    let rest = (split_option b'-' before).1 in
    Ensures-next (decimals (split b'.' (split_option b'-' before).0)) λ numbers.
      Ensures-reject_if (ltb (first_number numbers) 8) _ λ feature.
        Ensures-next (check_option validate_pre (pre_of rest)) λ _.
          Ensures-next (check_option validate_optional (optional_of rest)) λ _.
            Ensures-next (check_build (pre_of rest) (optional_of rest) build) λ _. holds (
              pop_zeros-IsNormal numbers (canonical_pre (pre_of rest))
                (ltb→le (first_number numbers) 8 feature))

module _ (again : Bytes → Result (JavaVersion × Bool))
    (recursive : (t : Bytes) → Ensures (λ r. IsNormal r.0) (again t)) where
  step-IsNormal : (text : Bytes) → Ensures (λ r. IsNormal r.0) (parse_step again text)
  unfolding parse_step
  step-IsNormal text = Ensures-reject_if (is_empty text || not (all (λ b. ltb b 128) text)) _ λ _.
      Ensures-if_some (strip_prefix (ascii "8u") text)
        (λ alias. Ensures-next (decimal alias) λ _. Ensures-bind (recursive _) λ r h. holds h)
        (Ensures-if_some (strip_prefix (ascii "1.8.0") text)
          (λ alias. Ensures-next (java_eight alias) λ _. Ensures-bind (recursive _) λ r h. holds h)
          (plain-IsNormal text))

-- A version or an alias, however deep the aliases are.
within-IsNormal : (fuel : ℕ) (text : Bytes) → Ensures (λ r. IsNormal r.0) (parse_within fuel text)
unfolding parse_within
within-IsNormal zero text = failed
within-IsNormal (suc fuel) text = step-IsNormal (parse_within fuel) (within-IsNormal fuel) text

-- Whatever text `JavaVersion::parse` accepts, the version it builds has a feature version of at
-- least 8 and no trailing zero number.
pub parse_version-IsNormal :
    (text : Bytes) (v : JavaVersion) → parse_version text ≡ ok v → IsNormal v
unfolding parse_version parse
parse_version-IsNormal text v h =
    Ensures-ok (Ensures-bind (within-IsNormal 2 text) λ r n. holds n) h

-- A written alias is expanded to a text that is none.
pub record IsPlain (text : Bytes) : Type 0 where
  pub no_update : strip_prefix (ascii "8u") text ≡ none
  pub no_eight : strip_prefix (ascii "1.8.0") text ≡ none

alias-IsPlain :
    (number : Bytes) (suffix build : Option Bytes)
    → Ensures IsPlain (update_alias number suffix build)
unfolding update_alias strip_prefix
alias-IsPlain number suffix (some build) =
    Ensures-next (decimal build) λ _. holds (record { no_update = refl; no_eight = refl })
alias-IsPlain number (some pre) none =
    Ensures-next (validate_pre pre) λ _. holds (record { no_update = refl; no_eight = refl })
alias-IsPlain number none none = holds (record { no_update = refl; no_eight = refl })

java_eight-IsPlain : (alias : Bytes) → Ensures IsPlain (java_eight alias)
unfolding java_eight strip_prefix
java_eight-IsPlain alias =
    Ensures-if_some (strip_prefix (ascii "_") alias)
      (λ update. Ensures-next (decimal (split_option b'-' update).0) λ _.
        alias-IsPlain (split_option b'-' update).0 (split_option b'-' update).1
          (build_suffix (split_option b'-' update).1))
      (Ensures-if_some (strip_prefix (ascii "-") alias)
        (λ pre.
          Ensures-next (validate_pre pre) λ _. holds (record { no_update = refl; no_eight = refl }))
        (Ensures-if (is_empty alias) (λ _. holds (record { no_update = refl; no_eight = refl }))
          (λ _. failed)))

module _ (f g : Bytes → Result (JavaVersion × Bool)) where
  plain_same : (text : Bytes) → IsPlain text → parse_step f text ≡ parse_step g text
  unfolding parse_step
  plain_same text h = rw (h.no_update, h.no_eight)

bind-same {ℓ κ κ'} :
    {A : Type ℓ} {B : Type κ} {P : A → Type κ'} (r : Result A) {f g : A → Result B}
    → Ensures P r
    → ((a : A) → P a → f a ≡ g a)
    → (r >>= f) ≡ (r >>= g)
bind-same (ok a) (holds h) k = k a h
bind-same (err e) failed k = refl

if_some-same {ℓ κ} :
    {A : Type ℓ} {B : Type κ} (m : Option A) {f g : A → B} {x y : B}
    → ((a : A) → f a ≡ g a)
    → x ≡ y
    → if_some m f x ≡ if_some m g y
if_some-same none hf hx = hx
if_some-same (some a) hf hx = hf a

module _ (f g : Bytes → Result (JavaVersion × Bool))
    (same : (t : Bytes) → IsPlain t → f t ≡ g t) where
  aliased :
      (t : Bytes)
      → IsPlain t
      → ◌>>=◌ {B = JavaVersion × Bool} (f t) (λ r. ok (r.0, true))
        ≡ ◌>>=◌ {B = JavaVersion × Bool} (g t) (λ r. ok (r.0, true))
  aliased t h = ap (λ m. ◌>>=◌ {B = JavaVersion × Bool} m (λ r. ok (r.0, true))) (same t h)

  same_step : (text : Bytes) → parse_step f text ≡ parse_step g text
  unfolding parse_step strip_prefix
  same_step text =
      ap
        (λ m.
          reject_if (is_empty text || not (all (λ b. ltb b 128) text))
            (invalid "invalid Java version")
          >> m)
        (if_some-same (strip_prefix (ascii "8u") text)
          (λ alias.
            bind-same (decimal alias) (any _)
              λ _ _. aliased _ (record { no_update = refl; no_eight = refl }))
          (if_some-same (strip_prefix (ascii "1.8.0") text)
            (λ alias.
              bind-same (java_eight alias) (java_eight-IsPlain alias)
                λ canonical plain. aliased canonical plain)
            refl))

-- Two rounds of `parse` are enough for every text: with more rounds the result is the same.
pub parse_within-parse : (fuel : ℕ) (text : Bytes) → parse_within (suc (suc fuel)) text ≡ parse text
unfolding parse_within parse
parse_within-parse fuel text =
    same_step (parse_step (parse_within fuel)) (parse_step (parse_within 0))
      (plain_same (parse_within fuel) (parse_within 0)) text

-- Numbers that compare equal to no numbers are all zero.
zero_tail :
    (b : ℕ) (bs : List ℕ) → cmp_numbers [] (b ∷ bs) ≡ Ordering.eq → ends_in_zero (b ∷ bs) ≡ true
unfolding cmp_numbers ends_in_zero
zero_tail b [] h = ground arith
zero_tail b (c ∷ cs) h = zero_tail c cs (ground arith)

tail-ends : (x : ℕ) (xs : List ℕ) → ends_in_zero (x ∷ xs) ≡ false → ends_in_zero xs ≡ false
unfolding ends_in_zero
tail-ends x [] h = refl
tail-ends x (y ∷ ys) h = h

numbers-cmp :
    (a b : List ℕ)
    → ends_in_zero a ≡ false
    → ends_in_zero b ≡ false
    → cmp_numbers a b ≡ Ordering.eq
    → a ≡ b
unfolding cmp_numbers
numbers-cmp [] [] ha hb h = refl
numbers-cmp [] (b ∷ bs) ha hb h = absurd (cc (zero_tail b bs h, hb))
numbers-cmp (a ∷ as') [] ha hb h = absurd (cc (zero_tail a as' flipped, ha))
  where
    flipped : cmp_numbers [] (a ∷ as') ≡ Ordering.eq
    flipped = numbers-IsComparison.flips (a ∷ as') [] ∙ ap flip h
numbers-cmp (a ∷ as') (b ∷ bs) ha hb h =
    ground (arith, numbers-cmp as' bs (tail-ends a as' ha) (tail-ends b bs hb))

pre-cmp : (a b : Option Bytes) → cmp_pre a b ≡ Ordering.eq → a ≡ b
unfolding cmp_pre
pre-cmp none none h = refl
pre-cmp none (some b) h = cc
pre-cmp (some a) none h = cc
pre-cmp (some a) (some b) h = ap some (same (numeric a) (numeric b) h)
  where
    same : (x y : Bool) → cmp_identifiers x y a b ≡ Ordering.eq → a ≡ b
    same true true k = cmp_text→eq a b (ground arith)
    same true false k = cc
    same false true k = cc
    same false false k = cmp_text→eq a b k

-- Of versions in normal form, as `parse` builds them, only equal ones compare equal: `Ord` agrees
-- with the derived `Eq`.
pub cmp-eq : (a b : JavaVersion) → IsNormal a → IsNormal b → (cmp a b ≡ Ordering.eq) ↔ (a ≡ b)
unfolding cmp
cmp-eq a b ha hb = (equal, λ h. subst (λ v. cmp a v ≡ Ordering.eq) h (same a))
  where
    equal : cmp a b ≡ Ordering.eq → a ≡ b
    equal h = λ i. record {
      numbers = numbers-cmp a.numbers b.numbers ha.no_end_zero hb.no_end_zero (ground arith) i;
      pre = pre-cmp a.pre b.pre (ground arith) i;
    }

    same : (v : JavaVersion) → cmp v v ≡ Ordering.eq
    same v = ground (arith, cmp-IsComparison.flips v v)
