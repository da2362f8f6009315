-- ===== src/Openpgp/Layout.antt =====
-- janex-signature/src/openpgp/framing.rs: where `signature` says that the hashed fields end.
use janex.Base.{
  ℕ, zero, suc, ◌+◌, ◌≤◌, ◌≡◌, refl, sym, ap, ◌∙◌, subst, Option, none, some, [], ◌∷◌, length,
  get_or, Bytes, fold_be, checked_add, arith,
}
use janex.Failure.{
  Error, Result, ok, err, invalid, at, Ensures, holds, failed, Ensures-bind, Ensures-weaken,
  Ensures-ok, Ensures-ok_or, any,
}
use janex.Binary.{Limits, limit_bytes}
use janex.Binary.Decoder
use janex.Binary.Decoder.{Decoder, slice, within}
use janex.Binary.Bounds.{limit_bytes-Ensures}
use janex.Openpgp.{number}
use janex.Openpgp.Signature.{area, subpackets, length_width, width_or, signature_at, signature}

-- The cursor over the same bytes at another place.
abbrev pub IsAt : Decoder → Bytes → ℕ → Type 0
IsAt d bytes position = (d.bytes ≡ bytes) × (d.position ≡ position) × (position ≤ length bytes)

take-slice :
    (n : ℕ) (d : Decoder)
    → Ensures
        (λ out.
          (out.0 ≡ slice d.bytes d.position (d.position + n)) × IsAt out.1 d.bytes (d.position + n))
        (Decoder.take n d)
unfolding Decoder.take
take-slice n d =
    Ensures-bind
      (Ensures-ok_or {P = λ end. (end ≡ d.position + n) × (end ≤ length d.bytes)}
        (within (length d.bytes) (checked_add d.position n))
        (at (invalid "truncated binary field") d.position) λ end e. ground arith)
      λ end e. holds (ap (slice d.bytes d.position) e.0, (refl, e.0, omega (arith, e.0, e.1)))

-- The number that stands at a place of the body.
abbrev pub number_at : Bytes → ℕ → ℕ → ℕ
number_at body position width = fold_be 0 (slice body position (position + width))

pub take-IsAt :
    (n : ℕ) (d : Decoder) (body : Bytes) (position : ℕ)
    → IsAt d body position
    → Ensures
        (λ out. (out.0 ≡ slice body position (position + n)) × IsAt out.1 body (position + n))
        (Decoder.take n d)
take-IsAt n d body position here = Ensures-weaken (take-slice n d) λ out h. (
  h.0 ∙ (λ i. slice (here.0 i) (here.1 i) (here.1 i + n)),
  (
    h.1.0 ∙ here.0,
    h.1.1 ∙ ap (λ (t : ℕ). t + n) here.1,
    omega (arith, h.1.2, here.1, ap length here.0),
  ),
)

number-IsAt :
    (width : ℕ) (d : Decoder) (body : Bytes) (position : ℕ)
    → IsAt d body position
    → Ensures
        (λ out. (out.0 ≡ number_at body position width) × IsAt out.1 body (position + width))
        (number width d)
unfolding number
number-IsAt width d body position here =
    Ensures-bind (take-IsAt width d body position here) λ out h.
      Ensures-bind (limit_bytes-Ensures out.1.limits (fold_be 0 out.0))
        λ m e. holds (e ∙ ap (fold_be 0) h.0, h.1)

-- An area begins behind its length and ends where that says.
abbrev pub area_end : Bytes → ℕ → ℕ → ℕ
area_end body position width = position + width + number_at body position width

abbrev pub area_bytes : Bytes → ℕ → ℕ → Bytes
area_bytes body position width = slice body (position + width) (area_end body position width)

pub area-IsAt :
    (width : ℕ) (d : Decoder) (body : Bytes) (position : ℕ)
    → IsAt d body position
    → Ensures
        (λ out.
          (out.0 ≡ area_bytes body position width) × IsAt out.1 body (area_end body position width))
        (area width d)
unfolding area
area-IsAt width d body position here =
    Ensures-bind (number-IsAt width d body position here) λ size h.
      Ensures-weaken (take-IsAt size.0 size.1 body (position + width) h.1) λ out k.
        subst
          (λ (n : ℕ).
            (out.0 ≡ slice body (position + width) (position + width + n))
            × IsAt out.1 body (position + width + n))
          h.0 k

pub new-IsAt :
    (body : Bytes) (limits : Limits) → Ensures (λ d. IsAt d body 0) (Decoder.new body limits)
unfolding Decoder.new
new-IsAt body limits =
    Ensures-bind (any (limit_bytes limits (length body))) λ _ _. holds (refl, refl, omega arith)

abbrev first : Bytes → ℕ
first [] = 0
first (b ∷ bytes) = b

front : (body : Bytes) → first (slice body 0 1) ≡ get_or body 0 0
front [] = refl
front (b ∷ body) = refl

pub u8-IsAt :
    (d : Decoder) (body : Bytes)
    → IsAt d body 0
    → Ensures (λ out. (out.0 ≡ get_or body 0 0) × IsAt out.1 body 1) (Decoder.u8 d)
unfolding Decoder.u8
u8-IsAt d body here =
    Ensures-bind (take-IsAt 1 d body 0 here) λ out h. holds (ap first h.0 ∙ front body, h.1)

pub width_or-Ensures :
    (width : Option ℕ) (e : Error) → Ensures (λ n. width ≡ some n) (width_or width (err e))
width_or-Ensures none e = failed
width_or-Ensures (some n) e = holds refl

-- The body of a signature of version 4 or 6 whose hashed fields end at `hashed_end`.
pub record IsLaidOut (body : Bytes) (hashed_end : ℕ) : Type 0 where
  pub width : ℕ
  pub version : length_width (get_or body 0 0) ≡ some width
  pub hashed : hashed_end ≡ 4 + width + number_at body 4 width
  pub unhashed : hashed_end + width + number_at body hashed_end width ≤ length body

signature_at-IsLaidOut :
    (levels : ℕ) (limits : Limits) (body : Bytes) (count : ℕ)
    → Ensures (λ out. IsLaidOut body out.0) (signature_at levels limits body count)
unfolding signature_at
signature_at-IsLaidOut zero limits body count = failed
signature_at-IsLaidOut (suc levels) limits body count =
    Ensures-bind (new-IsAt body limits) λ start a. Ensures-bind (u8-IsAt start body a) λ version b.
      Ensures-bind
        (width_or-Ensures (length_width version.0)
          (invalid "OpenPGP signature version must be 4 or 6"))
        λ width w. Ensures-bind (take-IsAt 3 version.1 body 1 b.1) λ skipped c.
          Ensures-bind (area-IsAt width skipped.1 body 4 c.1) λ hashed h.
            Ensures-bind (any (subpackets scan_body hashed.0 limits count)) λ counted _.
              Ensures-bind (area-IsAt width hashed.1 body (area_end body 4 width) h.1) λ unhashed u.
                Ensures-bind (any (subpackets scan_body unhashed.0 limits counted)) λ _ _.
                  holds (record {
                    width = width;
                    version = sym (ap length_width b.0) ∙ w;
                    hashed = h.1.1;
                    unhashed =
                        subst (λ (t : ℕ). t + width + number_at body t width ≤ length body)
                          (sym h.1.1) u.1.2;
                  })
  where
    scan_body : Bytes → ℕ → Result (ℕ × ℕ)
    scan_body inner n = signature_at levels limits inner n

-- signature accepts only bodies of version 4 or 6, and the end that it returns is that of the
-- hashed fields: the four bytes at the front, the length of the hashed area and that area; the
-- unhashed area with its length follows within the body.
pub signature-IsLaidOut :
    (body : Bytes) (limits : Limits) (hashed_end : ℕ)
    → signature body limits ≡ ok hashed_end
    → IsLaidOut body hashed_end
unfolding signature
signature-IsLaidOut body limits hashed_end h =
    Ensures-ok
      (Ensures-bind (signature_at-IsLaidOut (suc limits.max_depth) limits body 0) λ out k. holds k)
      h
