-- ===== src/Openpgp/Accepted.antt =====
-- janex-signature/src/openpgp/framing.rs: how many subpackets `signature_at` counts.
use janex.Base.{
  ℕ, zero, suc, ◌+◌, ◌<◌, ◌≤◌, ◌≡◌, refl, sym, ap, ◌∙◌, subst, true, false, some, get_or, ◌⊎◌, inl,
  inr, drop, ◌==◌, Bytes, arith, lt_wf,
}
use janex.Failure.{
  Result, ok, err, invalid, Ensures, holds, failed, Ensures-bind, Ensures-weaken, Ensures-if,
  Ensures-ok,
}
use janex.Binary.{Limits}
use janex.Binary.Decoder.{Decoder, remaining}
use janex.Binary.Bounds.{limit_elements-Ensures}
use janex.Openpgp.{subpacket}
use janex.Openpgp.Signature.{
  with_subpacket, is_embedded, scan_area, subpackets, length_width, signature_at,
}
use janex.Openpgp.Layout.{
  IsAt, area_bytes, area_end, new-IsAt, u8-IsAt, width_or-Ensures, take-IsAt, area-IsAt,
}
use mathlib.Core.WellFounded.{Acc}

-- The subpackets that are left at a cursor, or those of the two areas of a body.
pub data Part : Type 0 where
  left_at : Decoder → Part
  areas_of : Bytes → Part

-- How many they are, those of the signatures nested in them included.
pub data Counts : Part → ℕ → Type 0 where
  ended : {d : Decoder} → remaining d ≡ 0 → Counts (left_at d) 0
  plain :
      {d rest : Decoder} {bytes : Bytes} {n : ℕ}
      → subpacket d ≡ ok (bytes, rest)
      → is_embedded bytes ≡ false
      → Counts (left_at rest) n
      → Counts (left_at d) (suc n)
  nested :
      {d rest : Decoder} {bytes : Bytes} {inside n : ℕ}
      → subpacket d ≡ ok (bytes, rest)
      → is_embedded bytes ≡ true
      → Counts (areas_of (drop 1 bytes)) inside
      → Counts (left_at rest) n
      → Counts (left_at d) (suc (inside + n))
  areas :
      {body : Bytes} {width n m : ℕ} {hashed unhashed : Decoder}
      → length_width (get_or body 0 0) ≡ some width
      → IsAt hashed (area_bytes body 4 width) 0
      → IsAt unhashed (area_bytes body (area_end body 4 width) width) 0
      → Counts (left_at hashed) n
      → Counts (left_at unhashed) m
      → Counts (areas_of body) (n + m)

-- The count has grown from `before` to `after`, and not beyond the limit.
abbrev pub Counted : Limits → ℕ → ℕ → Type 0
Counted limits before after = (before ≤ after) × ((after ≡ before) ⊎ (after ≤ limits.max_elements))

Counted-then :
    (limits : Limits) (a b c : ℕ) → Counted limits a b → Counted limits b c → Counted limits a c
Counted-then limits a b c h k = ground arith

with_subpacket-Ensures {ℓ κ} :
    {A : Type ℓ} (P : A → Type κ) (n : ℕ) (read : Result (Bytes × Decoder))
    (shrinks : (rest : Decoder) (bytes : Bytes) → read ≡ ok (bytes, rest) → remaining rest < n)
    (go : Bytes → (rest : Decoder) → remaining rest < n → Result A)
    → ((bytes : Bytes) (rest : Decoder) (h : remaining rest < n)
        → read ≡ ok (bytes, rest)
        → Ensures P (go bytes rest h))
    → Ensures P (with_subpacket n read shrinks go)
unfolding with_subpacket
with_subpacket-Ensures P n (err e) shrinks go h = failed
with_subpacket-Ensures P n (ok (bytes, rest)) shrinks go h =
    h bytes rest (shrinks rest bytes refl) refl

-- The count has grown by the subpackets of a part.
abbrev Grown : Limits → Part → ℕ → ℕ → Type 0
Grown limits part before after =
    (n : ℕ) × Counts part n × (after ≡ before + n) × Counted limits before after

-- The subpacket at a cursor is counted, and what is nested in it.
abbrev First : Limits → Bytes → ℕ → ℕ → Type 0
First limits bytes before after =
    ((is_embedded bytes ≡ false) × (after ≡ before + 1))
    ⊎ ((is_embedded bytes ≡ true) × Grown limits (areas_of (drop 1 bytes)) (before + 1) after)

Grown-First :
    (limits : Limits) (d rest : Decoder) (bytes : Bytes) (before between after : ℕ)
    → before + 1 ≤ limits.max_elements
    → subpacket d ≡ ok (bytes, rest)
    → First limits bytes before between
    → Grown limits (left_at rest) between after
    → Grown limits (left_at d) before after
Grown-First limits d rest bytes before between after room e (inl (simple, one))
      (n, left, sum, grown) =
    (suc n, plain e simple left, omega (arith, one, sum), ground (arith, one))
Grown-First limits d rest bytes before between after room e (inr (deep, (k, inside, more, below)))
      (n, left, sum, grown) =
    (suc (k + n), nested e deep inside left, omega (arith, more, sum), ground arith)

module _ (limits : Limits) (scan_body : Bytes → ℕ → Result (ℕ × ℕ))
    (counts : (body : Bytes) (count : ℕ)
      → Ensures (λ out. Grown limits (areas_of body) count out.1) (scan_body body count)) where
  scan_area-Grown :
      (d : Decoder) (left : ℕ) (w : Acc ◌<◌ left) (eq : left ≡ remaining d) (count : ℕ)
      → Ensures (Grown limits (left_at d) count) (scan_area scan_body limits d left w eq count)
  unfolding scan_area
  scan_area-Grown d left (Acc.intro _ smaller) eq count =
      Ensures-if (remaining d == 0)
        (λ none_left. holds (0, ended (ground arith), omega arith, (omega arith, inl refl)))
        λ _. Ensures-bind (limit_elements-Ensures limits (count + 1)) λ m room.
          with_subpacket-Ensures (Grown limits (left_at d) count) left (subpacket d) _ _
            λ bytes rest shorter read.
              Ensures-bind
                (Ensures-if {P = First limits bytes count} (is_embedded bytes)
                  (λ deep.
                    Ensures-bind (counts (drop 1 bytes) (count + 1)) λ out h. holds (inr (deep, h)))
                  (λ simple. holds (inl (simple, refl))))
                λ counted h.
                  Ensures-weaken
                    (scan_area-Grown rest (remaining rest) (smaller _ shorter) refl counted)
                    λ last k. Grown-First limits d rest bytes count counted last room.0 read h k

  subpackets-Grown :
      (bytes : Bytes) (count : ℕ)
      → Ensures
          (λ after. (d : Decoder) × IsAt d bytes 0 × Grown limits (left_at d) count after)
          (subpackets scan_body bytes limits count)
  unfolding subpackets
  subpackets-Grown bytes count = Ensures-bind (new-IsAt bytes limits) λ d here.
      Ensures-weaken (scan_area-Grown d (remaining d) (lt_wf.apply (remaining d)) refl count)
        λ after grown. (d, here, grown)

Grown-areas :
    (limits : Limits) (body : Bytes) (width before between after : ℕ) (hashed unhashed : Decoder)
    → length_width (get_or body 0 0) ≡ some width
    → IsAt hashed (area_bytes body 4 width) 0
    → IsAt unhashed (area_bytes body (area_end body 4 width) width) 0
    → Grown limits (left_at hashed) before between
    → Grown limits (left_at unhashed) between after
    → Grown limits (areas_of body) before after
Grown-areas limits body width before between after hashed unhashed version a b
      (n, first, one, grown) (m, second, two, more) =
    (
      n + m,
      areas version a b first second,
      omega (arith, one, two),
      Counted-then limits before between after grown more,
    )

signature_at-Grown :
    (levels : ℕ) (limits : Limits) (body : Bytes) (count : ℕ)
    → Ensures
        (λ out. Grown limits (areas_of body) count out.1)
        (signature_at levels limits body count)
unfolding signature_at
signature_at-Grown zero limits body count = failed
signature_at-Grown (suc levels) limits body count =
    let inner =
      subpackets-Grown limits (λ body m. signature_at levels limits body m)
        (λ body m. signature_at-Grown levels limits body m) in
    Ensures-bind (new-IsAt body limits) λ start a. Ensures-bind (u8-IsAt start body a) λ version b.
      Ensures-bind
        (width_or-Ensures (length_width version.0)
          (invalid "OpenPGP signature version must be 4 or 6"))
        λ width w. Ensures-bind (take-IsAt 3 version.1 body 1 b.1) λ skipped c.
          Ensures-bind (area-IsAt width skipped.1 body 4 c.1) λ hashed h.
            Ensures-bind (inner hashed.0 count) λ counted first.
              Ensures-bind (area-IsAt width hashed.1 body (area_end body 4 width) h.1) λ unhashed u.
                Ensures-bind (inner unhashed.0 counted) λ counted' second. holds (
                  Grown-areas limits body width count counted counted' first.0 second.0
                    (sym (ap length_width b.0) ∙ w)
                    (subst (λ (t : Bytes). IsAt first.0 t 0) h.0 first.1)
                    (subst (λ (t : Bytes). IsAt second.0 t 0) u.0 second.1) first.2 second.2)

pub signature_at-Counted :
    (levels : ℕ) (limits : Limits) (body : Bytes) (count : ℕ)
    → Ensures (λ out. Counted limits count out.1) (signature_at levels limits body count)
signature_at-Counted levels limits body count =
    Ensures-weaken (signature_at-Grown levels limits body count) λ out grown. grown.3

-- The count that signature_at returns when it begins at zero is that of the subpackets in the two
-- areas of the body, where the lengths before them say that they stand, each embedded signature
-- counted with the subpackets nested in it; and it is never more than max_elements.
pub signature_at-Counts :
    (levels : ℕ) (limits : Limits) (body : Bytes) (hashed_end count : ℕ)
    → signature_at levels limits body 0 ≡ ok (hashed_end, count)
    → Counts (areas_of body) count × (count ≤ limits.max_elements)
signature_at-Counts levels limits body hashed_end count h =
    exactly (Ensures-ok (signature_at-Grown levels limits body 0) h)
  where
    exactly :
        Grown limits (areas_of body) 0 count
        → Counts (areas_of body) count × (count ≤ limits.max_elements)
    exactly (n, counted, sum, bound) =
        (subst (Counts (areas_of body)) (omega (arith, sum)) counted, ground arith)
