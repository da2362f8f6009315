-- ===== src/Openpgp/Embedded.antt =====
-- janex-signature/src/openpgp/framing.rs: the bodies that `embedded` borrows are those that
-- `signature_at` has scanned.
use janex.Base.{
  ℕ, suc, ◌+◌, ◌<◌, ◌≤◌, ◌≡◌, refl, Option, none, some, List, [], ◌∷◌, ◌++◌, All, All-append,
  length, length-append, drop, ◌==◌, if◌then◌else◌, Bytes, arith, lt_wf,
}
use janex.Failure.{
  Error, Result, ok, err, invalid, Follows, no_claim, follows, Follows-same, Follows-first,
  Follows-bind, Follows-if, Follows-map, Follows-ok, Ensures-ok, ◌>>=◌,
}
use janex.Binary.{Limits, limit_elements}
use janex.Binary.Decoder
use janex.Binary.Decoder.{Decoder, remaining}
use janex.Openpgp.{subpacket}
use janex.Openpgp.Signature.{
  with_subpacket, is_embedded, scan_area, subpackets, area, length_width, width_or, signature_at,
  signature, embedded_area, embedded_bytes, embedded,
}
use janex.Openpgp.Accepted.{signature_at-Counted}
use mathlib.Core.WellFounded.{Acc}

-- A body that `signature_at` accepts with so many levels left.
pub IsScanned : ℕ → Limits → Bytes → Type 0
IsScanned levels limits body =
    (count : ℕ) × (out : ℕ × ℕ) × (signature_at levels limits body count ≡ ok out)

limit_elements-smaller :
    (limits : Limits) (n m k : ℕ)
    → limit_elements limits n ≡ ok m
    → k ≤ n
    → limit_elements limits k ≡ ok k
unfolding limit_elements
limit_elements-smaller limits n m k h le = ground arith

-- The two functions read the version alike, whatever they say of a wrong one.
width_or-Follows {μ} :
    {A B : Type 0} {P : A → B → Type μ} (width : Option ℕ) (e e' : Error) {f : ℕ → Result A}
    {g : ℕ → Result B}
    → ((n : ℕ) → Follows P (f n) (g n))
    → Follows P (width_or width (err e) >>= f) (width_or width (err e') >>= g)
width_or-Follows none e e' h = no_claim
width_or-Follows (some n) e e' h = h n

with_subpacket-Follows {ℓ κ μ} :
    {A : Type ℓ} {B : Type κ} (P : A → B → Type μ) (n : ℕ) (read : Result (Bytes × Decoder))
    (shrinks : (rest : Decoder) (bytes : Bytes) → read ≡ ok (bytes, rest) → remaining rest < n)
    (go : Bytes → (rest : Decoder) → remaining rest < n → Result A)
    (go' : Bytes → (rest : Decoder) → remaining rest < n → Result B)
    → ((bytes : Bytes) (rest : Decoder) (h : remaining rest < n)
        → Follows P (go bytes rest h) (go' bytes rest h))
    → Follows P (with_subpacket n read shrinks go) (with_subpacket n read shrinks go')
unfolding with_subpacket
with_subpacket-Follows P n (err e) shrinks go go' h = no_claim
with_subpacket-Follows P n (ok (bytes, rest)) shrinks go go' h =
    h bytes rest (shrinks rest bytes refl)

-- The bodies found so far are scanned, and no more than the subpackets that were counted.
abbrev pub Covered : ℕ → Limits → ℕ → List Bytes → Type 0
Covered levels limits count found = All (IsScanned levels limits) found × (length found ≤ count)

module _ (levels : ℕ) (limits : Limits) where
  abbrev scan_body : Bytes → ℕ → Result (ℕ × ℕ)
  scan_body body n = signature_at levels limits body n

  found_more :
      (bytes : Bytes) (count : ℕ) (found : List Bytes)
      → Covered levels limits count found
      → (m : ℕ) → limit_elements limits (count + 1) ≡ ok m
      → Follows
          (Covered levels limits)
          (if is_embedded bytes
            then (scan_body (drop 1 bytes) (count + 1) >>= λ scanned. ok (scanned.1))
            else ok (count + 1))
          (if is_embedded bytes
            then (limit_elements limits (length found + 1) >>= λ _. ok (found ++ drop 1 bytes ∷ []))
            else ok found)
  unfolding IsScanned
  found_more bytes count found (scanned, le) m room =
      Follows-if (is_embedded bytes)
        (λ _. Follows-first (scan_body (drop 1 bytes) (count + 1)) λ out accepted.
          rw (limit_elements-smaller limits (count + 1) m (length found + 1) room (omega arith)) (
            follows (
              All-append (IsScanned levels limits) found (drop 1 bytes ∷ []) scanned
                  ((count + 1, out, accepted), tt),
              omega (
                arith,
                length-append found (drop 1 bytes ∷ []),
                (Ensures-ok (signature_at-Counted levels limits (drop 1 bytes) (count + 1))
                    accepted).0,
              ),
            )))
        (λ _. follows (scanned, omega arith))

  area-Follows :
      (d : Decoder) (left : ℕ) (w : Acc ◌<◌ left) (eq : left ≡ remaining d) (count : ℕ)
      (found : List Bytes)
      → Covered levels limits count found
      → Follows
          (Covered levels limits)
          (scan_area scan_body limits d left w eq count)
          (embedded_area limits d left w eq found)
  unfolding scan_area embedded_area
  area-Follows d left (Acc.intro _ smaller) eq count found h =
      Follows-if (remaining d == 0) (λ _. follows h)
        λ _. Follows-first (limit_elements limits (count + 1)) λ m room.
          with_subpacket-Follows (Covered levels limits) left (subpacket d) _ _ _
            λ bytes rest shorter.
              Follows-bind (found_more bytes count found h m room) λ counted more k.
                area-Follows rest (remaining rest) (smaller _ shorter) refl counted more k

  subpackets-Follows :
      (bytes : Bytes) (count : ℕ) (found : List Bytes)
      → Covered levels limits count found
      → Follows
          (Covered levels limits)
          (subpackets scan_body bytes limits count)
          (embedded_bytes bytes limits found)
  unfolding subpackets embedded_bytes
  subpackets-Follows bytes count found h =
      Follows-same (Decoder.new bytes limits)
        λ d _. area-Follows d (remaining d) (lt_wf.apply (remaining d)) refl count found h

  signature_at-Follows :
      (body : Bytes)
      → Follows
          (λ out found. All (IsScanned levels limits) found)
          (signature_at (suc levels) limits body 0)
          (embedded body limits)
  unfolding signature_at embedded
  signature_at-Follows body = Follows-same (Decoder.new body limits) λ start _.
      Follows-same (Decoder.u8 start) λ version _.
        width_or-Follows (length_width version.0)
          (invalid "OpenPGP signature version must be 4 or 6")
          (invalid "unsupported embedded signature version")
          λ width. Follows-same (Decoder.take 3 version.1) λ skipped _.
            Follows-same (area width skipped.1) λ hashed _.
              Follows-bind (subpackets-Follows hashed.0 0 [] (tt, omega arith)) λ counted found h.
                Follows-same (area width hashed.1) λ unhashed _.
                  Follows-map (λ (n : ℕ). (hashed.1.position, n))
                    (subpackets-Follows unhashed.0 counted found h) λ _ all k. k.0

-- When signature accepts a body, embedded succeeds on it, and every body that it borrows was
-- scanned by signature_at, with one level of nesting less than the limit.
pub embedded-signature :
    (body : Bytes) (limits : Limits) (hashed_end : ℕ)
    → signature body limits ≡ ok hashed_end
    → (bodies : List Bytes) × (embedded body limits ≡ ok bodies)
      × All (IsScanned limits.max_depth limits) bodies
unfolding signature
embedded-signature body limits hashed_end h =
    by_scan (signature_at (suc limits.max_depth) limits body 0) refl h
  where
    by_scan :
        (r : Result (ℕ × ℕ))
        → signature_at (suc limits.max_depth) limits body 0 ≡ r
        → (r >>= λ out. ok (out.0)) ≡ ok hashed_end
        → (bodies : List Bytes) × (embedded body limits ≡ ok bodies)
          × All (IsScanned limits.max_depth limits) bodies
    by_scan (err e) same k = cc
    by_scan (ok out) same k = Follows-ok (signature_at-Follows limits.max_depth limits body) same
