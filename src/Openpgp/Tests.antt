-- ===== src/Openpgp/Tests.antt =====
-- Runs of the code of janex-signature/src/openpgp/framing.rs on small signatures.
use janex.Base.{List, [], ◌∷◌, ◌++◌, ◌≡◌, refl, Bytes, All, fold_be, ◌≤◌}
use janex.Failure.{ok}
use janex.Binary.{default_limits, limit_bytes, limit_elements}
use janex.Binary.Decoder
use janex.Openpgp.Signature.{signature, signature_at, embedded, area, subpackets}
use janex.Openpgp.{number, subpacket, subpacket_length}
use janex.Openpgp.Layout.{IsLaidOut, signature-IsLaidOut}
use janex.Openpgp.Accepted.{Counts, areas_of, signature_at-Counts}
use janex.Openpgp.Embedded.{IsScanned, embedded-signature}

-- Version 4 with one subpacket in the hashed area and none in the other.
abbrev inner : Bytes
inner = 4 ∷ 0 ∷ 1 ∷ 8 ∷ 0 ∷ 3 ∷ 2 ∷ 9 ∷ 7 ∷ 0 ∷ 0 ∷ []

-- The same, embedded in the unhashed area of another.
abbrev outer : Bytes
outer = 4 ∷ 0 ∷ 1 ∷ 8 ∷ 0 ∷ 0 ∷ 0 ∷ 13 ∷ 12 ∷ 32 ∷ []

abbrev nested : Bytes
nested = outer ++ inner

nested_accepted : signature nested default_limits ≡ ok 6
unfolding signature signature_at Decoder.new limit_bytes Decoder.u8 Decoder.take area number fold_be
    subpackets limit_elements subpacket subpacket_length
nested_accepted = refl

nested_counted : signature_at 65 default_limits nested 0 ≡ ok (6, 2)
unfolding signature_at Decoder.new limit_bytes Decoder.u8 Decoder.take area number fold_be
    subpackets limit_elements subpacket subpacket_length
nested_counted = refl

embedded-signature_example :
    (bodies : List Bytes) × (embedded nested default_limits ≡ ok bodies)
    × All (IsScanned 64 default_limits) bodies
embedded-signature_example = embedded-signature nested default_limits 6 nested_accepted

signature_at-Counts_example : Counts (areas_of nested) 2 × (2 ≤ 1_000_000)
signature_at-Counts_example = signature_at-Counts 65 default_limits nested 6 2 nested_counted

signature-IsLaidOut_example : IsLaidOut nested 6
signature-IsLaidOut_example = signature-IsLaidOut nested default_limits 6 nested_accepted
