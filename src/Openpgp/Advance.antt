-- ===== src/Openpgp/Advance.antt =====
-- janex-signature/src/openpgp/framing.rs: each read of a subpacket moves the cursor.
use janex.Base.{ℕ, ◌+◌, ◌≤◌, ◌≡◌, refl, ◌∙◌, length, leb, ◌==◌, fold_be, checked_add, arith}
use janex.Failure.{
  invalid, at, Ensures, holds, Ensures-bind, Ensures-weaken, Ensures-if, Ensures-ok_or,
  Ensures-reject_if, any,
}
use janex.Binary.{limit_bytes}
use janex.Binary.Decoder
use janex.Binary.Decoder.{Decoder, within}
use janex.Openpgp.{number, subpacket_length, subpacket}

-- The cursor over the same input stands at least `n` bytes further and still within it.
pub record Moves (n : ℕ) (d rest : Decoder) : Type 0 where
  pub same : rest.bytes ≡ d.bytes
  pub limits : rest.limits ≡ d.limits
  pub ahead : d.position + n ≤ rest.position
  pub inside : rest.position ≤ length rest.bytes

Moves-then : {n m : ℕ} {a b c : Decoder} → Moves n a b → Moves m b c → Moves (n + m) a c
Moves-then h k = record {
  same = k.same ∙ h.same;
  limits = k.limits ∙ h.limits;
  ahead = omega (arith, h.ahead, k.ahead);
  inside = k.inside;
}

pub take-Moves : (n : ℕ) (d : Decoder) → Ensures (λ out. Moves n d out.1) (Decoder.take n d)
unfolding Decoder.take
take-Moves n d =
    Ensures-bind
      (Ensures-ok_or (within (length d.bytes) (checked_add d.position n))
        (at (invalid "truncated binary field") d.position) λ end e. e)
      λ end e.
        holds (record { same = refl; limits = refl; ahead = ground arith; inside = ground arith })

pub u8-Moves : (d : Decoder) → Ensures (λ out. Moves 1 d out.1) (Decoder.u8 d)
unfolding Decoder.u8
u8-Moves d = Ensures-bind (take-Moves 1 d) λ out h. holds h

pub number-Moves : (n : ℕ) (d : Decoder) → Ensures (λ out. Moves n d out.1) (number n d)
unfolding number
number-Moves n d =
    Ensures-bind (take-Moves n d)
      λ out h. Ensures-bind (any (limit_bytes out.1.limits (fold_be 0 out.0))) λ m _. holds h

Moves-weaken : {n m : ℕ} {a b : Decoder} → m ≤ n → Moves n a b → Moves m a b
Moves-weaken le h = record {
  same = h.same;
  limits = h.limits;
  ahead = omega (arith, h.ahead);
  inside = h.inside;
}

subpacket_length-Moves : (d : Decoder) → Ensures (λ out. Moves 1 d out.1) (subpacket_length d)
unfolding subpacket_length
subpacket_length-Moves d = Ensures-bind (u8-Moves d) λ out h.
    Ensures-if (leb out.0 191) (λ _. holds h)
      (λ _.
        Ensures-if (leb out.0 254)
          (λ _.
            Ensures-bind (u8-Moves out.1)
              λ out' h'. holds (Moves-weaken (omega arith) (Moves-then h h')))
          (λ _.
            Ensures-weaken (number-Moves 4 out.1)
              λ out' h'. Moves-weaken (omega arith) (Moves-then h h')))

pub subpacket-Moves : (d : Decoder) → Ensures (λ out. Moves 2 d out.1) (subpacket d)
unfolding subpacket
subpacket-Moves d = Ensures-bind (subpacket_length-Moves d) λ out h.
    Ensures-reject_if (out.0 == 0) (invalid "empty OpenPGP signature subpacket") λ full.
      Ensures-weaken (take-Moves out.0 out.1)
        λ out' h'. Moves-weaken (ground arith) (Moves-then h h')
