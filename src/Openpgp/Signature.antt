-- ===== src/Openpgp/Signature.antt =====
-- janex-signature/src/openpgp/framing.rs: `signature`, `signature_at`, `subpackets` and `embedded`.
use janex.Base.{
  ℕ, zero, suc, ◌+◌, ◌<◌, bit_and, Bool, false, Option, none, some, List, [], ◌∷◌, ◌++◌, length,
  drop, ◌==◌, if◌then◌else◌, Bytes, arith, lt_wf, ◌≡◌, refl, ap,
}
use janex.Failure.{Result, ok, err, error, limit, invalid, ◌>>=◌, ◌>>◌, Ensures-ok}
use janex.Binary.{Limits, limit_elements}
use janex.Binary.Decoder
use janex.Binary.Decoder.{Decoder, remaining}
use janex.Openpgp.{number, subpacket}
use janex.Openpgp.Advance.{Moves, subpacket-Moves}
use mathlib.Core.WellFounded.{Acc}

-- Bytes are left, and a subpacket is read: fewer are left then.
pub subpacket-shrinks :
    {left : ℕ} (d rest : Decoder) (bytes : Bytes)
    → left ≡ remaining d
    → subpacket d ≡ ok (bytes, rest)
    → remaining rest < left
subpacket-shrinks d rest bytes e h =
    let moved : Moves 2 d rest = Ensures-ok (subpacket-Moves d) h in
    let size : length rest.bytes ≡ length d.bytes = ap length moved.same in
    omega (arith, moved.ahead, moved.inside, size)

-- What is done with a subpacket that was read and with the cursor behind it.
unfoldable pub with_subpacket {ℓ} :
    {A : Type ℓ} (n : ℕ) (read : Result (Bytes × Decoder))
    → ((rest : Decoder) (bytes : Bytes) → read ≡ ok (bytes, rest) → remaining rest < n)
    → (Bytes → (rest : Decoder) → remaining rest < n → Result A)
    → Result A
with_subpacket n (err e) shrinks go = err e
with_subpacket n (ok (bytes, rest)) shrinks go = go bytes rest (shrinks rest bytes refl)

-- `bytes[0] & 0x7f == 32`: the subpacket is an embedded signature.
abbrev pub is_embedded : Bytes → Bool
is_embedded [] = false
is_embedded (kind ∷ bytes) = bit_and kind 0x7f == 32

-- The loop of `subpackets`; `scan_body` is `signature_at` one level deeper, and the count of
-- subpackets is returned.
unfoldable pub scan_area :
    (Bytes → ℕ → Result (ℕ × ℕ))
    → (limits : Limits) (d : Decoder) (left : ℕ) → Acc ◌<◌ left
    → left ≡ remaining d
    → ℕ
    → Result ℕ
scan_area scan_body limits d left (Acc.intro _ smaller) eq count =
    if remaining d == 0 then ok count else (do
      limit_elements limits (count + 1)
      with_subpacket left (subpacket d) (λ rest bytes. subpacket-shrinks d rest bytes eq)
          λ bytes rest shorter. do
            counted ←
                if is_embedded bytes
                then (do scanned ← scan_body (drop 1 bytes) (count + 1); ok (scanned.1))
                else ok (count + 1)
            scan_area scan_body limits rest (remaining rest) (smaller _ shorter) refl counted)

unfoldable pub subpackets : (Bytes → ℕ → Result (ℕ × ℕ)) → Bytes → Limits → ℕ → Result ℕ
unfolding scan_area with_subpacket lt_wf
subpackets scan_body bytes limits count = do
  d ← Decoder.new bytes limits
  scan_area scan_body limits d (remaining d) (lt_wf.apply (remaining d)) refl count

-- An area with its length before it.
unfoldable pub area : ℕ → Decoder → Result (Bytes × Decoder)
area width d = do (count, rest) ← number width d; Decoder.take count rest

-- The width of the lengths for the version of a signature.
abbrev pub length_width : ℕ → Option ℕ
length_width version = if version == 4 then some 2 else if version == 6 then some 4 else none

-- `ok_or` for the match on the version.
abbrev pub width_or : Option ℕ → Result ℕ → Result ℕ
width_or none otherwise = otherwise
width_or (some width) otherwise = ok width

-- `signature_at` with `levels` levels of nesting left: the end of the hashed fields, and the count.
unfoldable pub signature_at : ℕ → Limits → Bytes → ℕ → Result (ℕ × ℕ)
signature_at zero limits body count = err (error limit "OpenPGP signature nesting limit exceeded")
signature_at (suc levels) limits body count = do
  start ← Decoder.new body limits
  (version, d1) ← Decoder.u8 start
  width ← width_or (length_width version) (err (invalid "OpenPGP signature version must be 4 or 6"))
  (_, d2) ← Decoder.take 3 d1
  (hashed, d3) ← area width d2
  counted ← subpackets (λ inner n. signature_at levels limits inner n) hashed limits count
  (unhashed, _) ← area width d3
  counted' ← subpackets (λ inner n. signature_at levels limits inner n) unhashed limits counted
  ok (d3.position, counted')

-- `signature`: a nesting deeper than `max_depth` is refused.
unfoldable pub signature : Bytes → Limits → Result ℕ
signature body limits = do
  (hashed_end, _) ← signature_at (suc limits.max_depth) limits body 0
  ok hashed_end

-- The inner loop of `embedded`: the bodies found so far, with those of one area appended.
unfoldable pub embedded_area :
    (limits : Limits) (d : Decoder) (left : ℕ)
    → Acc ◌<◌ left
    → left ≡ remaining d
    → List Bytes
    → Result (List Bytes)
embedded_area limits d left (Acc.intro _ smaller) eq found =
    if remaining d == 0
    then ok found
    else with_subpacket left (subpacket d) (λ rest bytes. subpacket-shrinks d rest bytes eq)
        λ bytes rest shorter. do
          more ←
              if is_embedded bytes
              then (do limit_elements limits (length found + 1); ok (found ++ drop 1 bytes ∷ []))
              else ok found
          embedded_area limits rest (remaining rest) (smaller _ shorter) refl more

-- The inner loop over all of an area.
unfoldable pub embedded_bytes : Bytes → Limits → List Bytes → Result (List Bytes)
unfolding embedded_area with_subpacket lt_wf
embedded_bytes bytes limits found = do
  d ← Decoder.new bytes limits
  embedded_area limits d (remaining d) (lt_wf.apply (remaining d)) refl found

-- The outer loop has two rounds.
unfoldable pub embedded : Bytes → Limits → Result (List Bytes)
embedded body limits = do
  start ← Decoder.new body limits
  (version, d1) ← Decoder.u8 start
  width ← width_or (length_width version) (err (invalid "unsupported embedded signature version"))
  (_, d2) ← Decoder.take 3 d1
  (hashed, d3) ← area width d2
  found ← embedded_bytes hashed limits []
  (unhashed, _) ← area width d3
  embedded_bytes unhashed limits found
