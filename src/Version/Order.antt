-- ===== src/Version/Order.antt =====
-- janex-format/src/version.rs: the order of Java versions, part by part.
use Prim.Native.Nat.{Ordering, compare}
use janex.Base.{
  ℕ, ◌≡◌, refl, ap, Bool, true, false, Option, none, some, List, [], ◌∷◌, length, Bytes, arith,
}
use janex.Version.{then_with, cmp_numbers, cmp_text, numeric, cmp_identifiers, cmp_pre, cmp}

abbrev pub flip : Ordering → Ordering
flip Ordering.lt = Ordering.gt
flip Ordering.eq = Ordering.eq
flip Ordering.gt = Ordering.lt

-- What a comparison keeps to.
pub record IsComparison {ℓ} {A : Type ℓ} (cmp : A → A → Ordering) : Type ℓ where
  pub flips : (a b : A) → cmp b a ≡ flip (cmp a b)
  pub lt_trans : (a b c : A) → cmp a b ≡ Ordering.lt → cmp b c ≡ Ordering.lt → cmp a c ≡ Ordering.lt
  pub eq_left : (a b c : A) → cmp a b ≡ Ordering.eq → cmp a c ≡ cmp b c

numbers_flip : (a b : List ℕ) → cmp_numbers b a ≡ flip (cmp_numbers a b)
unfolding cmp_numbers
numbers_flip [] [] = refl
numbers_flip [] (b ∷ bs) = ground (arith, numbers_flip [] bs)
numbers_flip (a ∷ as') [] = ground (arith, numbers_flip as' [])
numbers_flip (a ∷ as') (b ∷ bs) = ground (arith, numbers_flip as' bs)

numbers_eq_left :
    (a b c : List ℕ) → cmp_numbers a b ≡ Ordering.eq → cmp_numbers a c ≡ cmp_numbers b c
unfolding cmp_numbers
numbers_eq_left [] [] c h = refl
numbers_eq_left [] (b ∷ bs) [] h = ground (arith, numbers_eq_left [] bs [])
numbers_eq_left [] (b ∷ bs) (c ∷ cs) h = ground (arith, numbers_eq_left [] bs cs)
numbers_eq_left (a ∷ as') [] [] h = ground (arith, numbers_eq_left as' [] [])
numbers_eq_left (a ∷ as') [] (c ∷ cs) h = ground (arith, numbers_eq_left as' [] cs)
numbers_eq_left (a ∷ as') (b ∷ bs) [] h = ground (arith, numbers_eq_left as' bs [])
numbers_eq_left (a ∷ as') (b ∷ bs) (c ∷ cs) h = ground (arith, numbers_eq_left as' bs cs)

numbers_trans :
    (a b c : List ℕ)
    → cmp_numbers a b ≡ Ordering.lt
    → cmp_numbers b c ≡ Ordering.lt
    → cmp_numbers a c ≡ Ordering.lt
unfolding cmp_numbers
numbers_trans [] [] c h k = cc
numbers_trans [] (b ∷ bs) [] h k = ground (arith, numbers_trans [] bs [], numbers_eq_left [] bs [])
numbers_trans [] (b ∷ bs) (c ∷ cs) h k = ground (arith, numbers_trans [] bs cs)
numbers_trans (a ∷ as') [] [] h k = cc
numbers_trans (a ∷ as') [] (c ∷ cs) h k = ground (arith, numbers_trans as' [] cs)
numbers_trans (a ∷ as') (b ∷ bs) [] h k = ground (arith, numbers_trans as' bs [])
numbers_trans (a ∷ as') (b ∷ bs) (c ∷ cs) h k = ground (arith, numbers_trans as' bs cs)

-- A missing element counts as zero.
pub numbers-IsComparison : IsComparison cmp_numbers
numbers-IsComparison = record {
  flips = numbers_flip;
  lt_trans = numbers_trans;
  eq_left = numbers_eq_left;
}

text_flip : (a b : Bytes) → cmp_text b a ≡ flip (cmp_text a b)
unfolding cmp_text
text_flip [] [] = refl
text_flip [] (b ∷ bs) = refl
text_flip (a ∷ as') [] = refl
text_flip (a ∷ as') (b ∷ bs) = ground (arith, text_flip as' bs)

pub cmp_text→eq : (a b : Bytes) → cmp_text a b ≡ Ordering.eq → a ≡ b
unfolding cmp_text
cmp_text→eq [] [] h = refl
cmp_text→eq [] (b ∷ bs) h = cc
cmp_text→eq (a ∷ as') [] h = cc
cmp_text→eq (a ∷ as') (b ∷ bs) h = ground (arith, cmp_text→eq as' bs)

pub cmp_text_refl : (a : Bytes) → cmp_text a a ≡ Ordering.eq
unfolding cmp_text
cmp_text_refl [] = refl
cmp_text_refl (a ∷ as') = ground (arith, cmp_text_refl as')

text_trans :
    (a b c : Bytes)
    → cmp_text a b ≡ Ordering.lt
    → cmp_text b c ≡ Ordering.lt
    → cmp_text a c ≡ Ordering.lt
unfolding cmp_text
text_trans [] [] c h k = cc
text_trans [] (b ∷ bs) [] h k = cc
text_trans [] (b ∷ bs) (c ∷ cs) h k = refl
text_trans (a ∷ as') [] c h k = cc
text_trans (a ∷ as') (b ∷ bs) [] h k = cc
text_trans (a ∷ as') (b ∷ bs) (c ∷ cs) h k = ground (arith, text_trans as' bs cs)

pub text-IsComparison : IsComparison cmp_text
text-IsComparison = record {
  flips = text_flip;
  lt_trans = text_trans;
  eq_left = λ a b c h. ap (λ (t : Bytes). cmp_text t c) (cmp_text→eq a b h);
}

module _ {ℓ} {A : Type ℓ} (f g : A → A → Ordering) (F : IsComparison f) (G : IsComparison g) where
  -- Comparing by one and then by another.
  pub then_with-IsComparison : IsComparison (λ a b. then_with (f a b) (g a b))
  then_with-IsComparison = record {
    flips = λ a b. ground (arith, F.flips a b, G.flips a b);
    lt_trans = λ a b c h k. ground (
      arith,
      F.lt_trans a b c,
      G.lt_trans a b c,
      F.eq_left a b c,
      F.eq_left b c a,
      F.flips a b,
      F.flips a c,
    );
    eq_left = λ a b c h. ground (arith, F.eq_left a b c, G.eq_left a b c);
  }

length_cmp : Bytes → Bytes → Ordering
length_cmp a b = compare (length a) (length b)

length-IsComparison : IsComparison length_cmp
unfolding length_cmp
length-IsComparison = record {
  flips = λ a b. ground arith;
  lt_trans = λ a b c h k. ground arith;
  eq_left = λ a b c h. ground arith;
}

numeric_order : IsComparison (λ a b. then_with (length_cmp a b) (cmp_text a b))
numeric_order = then_with-IsComparison length_cmp cmp_text length-IsComparison text-IsComparison

module _ (a b c : Bytes) where
  identifiers_flip : (x y : Bool) → cmp_identifiers y x b a ≡ flip (cmp_identifiers x y a b)
  unfolding cmp_identifiers length_cmp
  identifiers_flip true true = numeric_order.flips a b
  identifiers_flip true false = refl
  identifiers_flip false true = refl
  identifiers_flip false false = text_flip a b

  identifiers_trans :
      (x y z : Bool)
      → cmp_identifiers x y a b ≡ Ordering.lt
      → cmp_identifiers y z b c ≡ Ordering.lt
      → cmp_identifiers x z a c ≡ Ordering.lt
  unfolding cmp_identifiers length_cmp
  identifiers_trans true true true h k = numeric_order.lt_trans a b c h k
  identifiers_trans true true false h k = refl
  identifiers_trans true false true h k = cc
  identifiers_trans true false false h k = refl
  identifiers_trans false true z h k = cc
  identifiers_trans false false true h k = cc
  identifiers_trans false false false h k = text_trans a b c h k

  identifiers_eq_left :
      (x y z : Bool)
      → cmp_identifiers x y a b ≡ Ordering.eq
      → cmp_identifiers x z a c ≡ cmp_identifiers y z b c
  unfolding cmp_identifiers length_cmp
  identifiers_eq_left true true true h = numeric_order.eq_left a b c h
  identifiers_eq_left true true false h = refl
  identifiers_eq_left true false z h = cc
  identifiers_eq_left false true z h = cc
  identifiers_eq_left false false true h = refl
  identifiers_eq_left false false false h = text-IsComparison.eq_left a b c h

pre-IsComparison : IsComparison cmp_pre
unfolding cmp_pre
pre-IsComparison = record { flips = flips; lt_trans = trans; eq_left = eq_left }
  where
    flips : (a b : Option Bytes) → cmp_pre b a ≡ flip (cmp_pre a b)
    flips none none = refl
    flips none (some b) = refl
    flips (some a) none = refl
    flips (some a) (some b) = identifiers_flip a b b (numeric a) (numeric b)

    trans :
        (a b c : Option Bytes)
        → cmp_pre a b ≡ Ordering.lt
        → cmp_pre b c ≡ Ordering.lt
        → cmp_pre a c ≡ Ordering.lt
    trans none none c h k = cc
    trans none (some b) c h k = cc
    trans (some a) none none h k = cc
    trans (some a) none (some c) h k = cc
    trans (some a) (some b) none h k = refl
    trans (some a) (some b) (some c) h k =
        identifiers_trans a b c (numeric a) (numeric b) (numeric c) h k

    eq_left : (a b c : Option Bytes) → cmp_pre a b ≡ Ordering.eq → cmp_pre a c ≡ cmp_pre b c
    eq_left none none c h = refl
    eq_left none (some b) c h = cc
    eq_left (some a) none c h = cc
    eq_left (some a) (some b) none h = refl
    eq_left (some a) (some b) (some c) h =
        identifiers_eq_left a b c (numeric a) (numeric b) (numeric c) h

-- The order of Java versions is a total preorder: the comparison of two versions is the reverse of
-- the comparison the other way round, `Less` is transitive, and versions that compare equal compare
-- alike with every version.
pub cmp-IsComparison : IsComparison cmp
unfolding cmp
cmp-IsComparison = record {
  flips = λ a b. both.flips (a.numbers, a.pre) (b.numbers, b.pre);
  lt_trans = λ a b c. both.lt_trans (a.numbers, a.pre) (b.numbers, b.pre) (c.numbers, c.pre);
  eq_left = λ a b c. both.eq_left (a.numbers, a.pre) (b.numbers, b.pre) (c.numbers, c.pre);
}
  where
    by_numbers : IsComparison {A = List ℕ × Option Bytes} (λ a b. cmp_numbers a.0 b.0)
    by_numbers = record {
      flips = λ a b. numbers_flip a.0 b.0;
      lt_trans = λ a b c. numbers_trans a.0 b.0 c.0;
      eq_left = λ a b c. numbers_eq_left a.0 b.0 c.0;
    }

    by_pre : IsComparison {A = List ℕ × Option Bytes} (λ a b. cmp_pre a.1 b.1)
    by_pre = record {
      flips = λ a b. pre-IsComparison.flips a.1 b.1;
      lt_trans = λ a b c. pre-IsComparison.lt_trans a.1 b.1 c.1;
      eq_left = λ a b c. pre-IsComparison.eq_left a.1 b.1 c.1;
    }

    both :
        IsComparison {A = List ℕ × Option Bytes}
          (λ a b. then_with (cmp_numbers a.0 b.0) (cmp_pre a.1 b.1))
    both =
        then_with-IsComparison (λ a b. cmp_numbers a.0 b.0) (λ a b. cmp_pre a.1 b.1) by_numbers
          by_pre
