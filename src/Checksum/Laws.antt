-- ===== src/Checksum/Laws.antt =====
-- janex-format/src/checksum.rs: the encoding of checksums, and checksums over streams of reads.
use janex.Base.{
  ℕ, ◌≡◌, ◌↔◌, refl, sym, ap, ◌∙◌, Bool, true, false, not, List, [], ◌∷◌, ◌++◌, append-nil,
  append_assoc, ◌==◌, eq→==, ==→eq, length, Bytes, bytes_eq, bytes_eq→eq, bytes_eq_refl, arith,
}
use janex.Failure.{
  Result, ok, ok_injective, err, error, verification, io, Ensures, holds, failed, Ensures-ok,
  Ensures-bind, Ensures-if, Ensures-reject_if, reject_if, ◌>>=◌,
}
use janex.Checksum.{
  Algorithm, xxh3_64, xxh3_128, sha256, sha512, sm3, id, digest_length, from_id, Checksum, decode,
  encode, Hashes, Read, chunk, interrupted, read_chunks, checksum_of, compute, verify,
}
use janex.Checksum as Checksum

from_id-id : (a : Algorithm) → from_id (id a) ≡ ok a
unfolding from_id
from_id-id xxh3_64 = refl
from_id-id xxh3_128 = refl
from_id-id sha256 = refl
from_id-id sha512 = refl
from_id-id sm3 = refl

from_id_sound : (n : ℕ) → Ensures (λ a. id a ≡ n) (from_id n)
unfolding from_id
from_id_sound n =
    Ensures-if (n == 0) (λ _. failed)
      λ _.
        Ensures-if (n == 0x11) (λ e. holds (sym (==→eq n 0x11 e)))
          λ _.
            Ensures-if (n == 0x12) (λ e. holds (sym (==→eq n 0x12 e)))
              λ _.
                Ensures-if (n == 0x21) (λ e. holds (sym (==→eq n 0x21 e)))
                  λ _.
                    Ensures-if (n == 0x22) (λ e. holds (sym (==→eq n 0x22 e)))
                      λ _. Ensures-if (n == 0x31) (λ e. holds (sym (==→eq n 0x31 e))) λ _. failed

-- The digest has the length of its algorithm.
pub record IsChecksum (c : Checksum) : Type 0 where
  pub fits : length c.digest ≡ digest_length c.algorithm

-- `Checksum::decode` accepts exactly the encodings of the checksums whose digest has the length of
-- the algorithm, and each as the one checksum that has this encoding.
pub decode-encode_iff :
    (bytes : Bytes) (c : Checksum) → (decode bytes ≡ ok c) ↔ (IsChecksum c × (bytes ≡ encode c))
unfolding decode
decode-encode_iff bytes c = (λ h. Ensures-ok (sound bytes) h, λ h. ap decode h.1 ∙ accepted h.0)
  where
    accepted : IsChecksum c → decode (encode c) ≡ ok c
    accepted h =
        rw (from_id-id c.algorithm)
          (rw (eq→== (length c.digest) (digest_length c.algorithm) h.fits) refl)

    sound : (bytes : Bytes) → Ensures (λ d. IsChecksum d × (bytes ≡ encode d)) (decode bytes)
    sound [] = failed
    sound (n ∷ digest) = Ensures-bind (from_id_sound n) λ a e.
        Ensures-reject_if (not (length digest == digest_length a)) _ λ same. holds (
          record { fits = ==→eq (length digest) (digest_length a) (ground arith) },
          ap (λ (t : ℕ). t ∷ digest) (sym e),
        )

-- All the bytes that a stream gives before its end, or the failure that comes first.
abbrev pub stream : List Read → Result Bytes
stream [] = ok []
stream (chunk [] ∷ reads) = ok []
stream (chunk (b ∷ bytes) ∷ reads) = stream reads >>= λ rest. ok ((b ∷ bytes) ++ rest)
stream (interrupted ∷ reads) = stream reads
stream (Checksum.failed message ∷ reads) = err (error io message)

module _ ⦃hashes : Hashes⦄ where
  -- Taking bytes in is taking them in piece by piece.
  pub record IsStreaming : Type 0 where
    pub none_taken : (a : Algorithm) (s : hashes.State a) → hashes.update a [] s ≡ s
    pub pieces :
        (a : Algorithm) (xs ys : Bytes) (s : hashes.State a)
        → hashes.update a (xs ++ ys) s ≡ hashes.update a ys (hashes.update a xs s)

  streamed :
      (law : IsStreaming) (a : Algorithm) (s : hashes.State a) (reads : List Read) (taken : Bytes)
      → read_chunks (hashes.update a) reads (hashes.update a taken s)
        ≡ (stream reads >>= λ bytes. ok (hashes.update a (taken ++ bytes) s))
  unfolding read_chunks
  streamed law a s [] taken = λ i. ok (hashes.update a (sym (append-nil taken) i) s)
  streamed law a s (chunk [] ∷ reads) taken = λ i. ok (hashes.update a (sym (append-nil taken) i) s)
  streamed law a s (chunk (b ∷ bytes) ∷ reads) taken =
      (λ i. read_chunks (hashes.update a) reads (sym (law.pieces a taken (b ∷ bytes) s) i))
      ∙ streamed law a s reads (taken ++ (b ∷ bytes))
      ∙ regroup (stream reads)
    where
      regroup :
          (r : Result Bytes)
          → (r >>= λ rest. ok (hashes.update a ((taken ++ (b ∷ bytes)) ++ rest) s)) ≡ (
              (r >>= λ rest. ok ((b ∷ bytes) ++ rest)) >>= λ rest.
              ok (hashes.update a (taken ++ rest) s))
      regroup (err e) = refl
      regroup (ok rest) = λ i. ok (hashes.update a (append_assoc taken (b ∷ bytes) rest i) s)
  streamed law a s (interrupted ∷ reads) taken = streamed law a s reads taken
  streamed law a s (Checksum.failed message ∷ reads) taken = refl

  -- For hash functions that take bytes in piece by piece, `Checksum::compute` over a stream is the
  -- checksum of all its bytes taken in at once: those of its reads up to the first empty one,
  -- however they are cut and interrupted. It fails, with the very message, when a read before that
  -- fails.
  pub compute-stream :
      (law : IsStreaming) (a : Algorithm) (reads : List Read)
      → compute a reads
        ≡ (stream reads >>= λ bytes. ok (checksum_of a (hashes.update a bytes (hashes.new a))))
  unfolding compute
  compute-stream law a reads =
      (λ i.
        read_chunks (hashes.update a) reads (sym (law.none_taken a (hashes.new a)) i) >>= λ state.
        ok (checksum_of a state))
      ∙ ap (λ (r : Result (hashes.State a)). r >>= λ state. ok (checksum_of a state))
          (streamed law a (hashes.new a) reads [])
      ∙ after (stream reads)
    where
      after :
          (r : Result Bytes)
          → ((r >>= λ bytes. ok (hashes.update a bytes (hashes.new a))) >>= λ state.
              ok (checksum_of a state))
            ≡ (r >>= λ bytes. ok (checksum_of a (hashes.update a bytes (hashes.new a))))
      after (ok bytes) = refl
      after (err e) = refl

  -- `Checksum::verify` passes on a stream exactly when `compute` gives the very checksum.
  pub verify-compute :
      (c : Checksum) (reads : List Read)
      → (verify c reads ≡ ok tt) ↔ (compute c.algorithm reads ≡ ok c)
  unfolding verify compute
  verify-compute c reads =
      by_run (read_chunks (hashes.update c.algorithm) reads (hashes.new c.algorithm))
    where
      by_digest :
          (d : Bytes) (t : Bool)
          → bytes_eq d c.digest ≡ t
          → (reject_if (not t) (error verification "checksum mismatch") ≡ ok tt)
            ↔ (ok (record { algorithm = c.algorithm; digest = d }) ≡ ok c)
      by_digest d true e = (
        λ _ i. ok (record { algorithm = c.algorithm; digest = bytes_eq→eq d c.digest e i }),
        λ _. refl,
      )
      by_digest d false e = (
        λ k. absurd (cc),
        λ k.
            absurd
              (cc (e, bytes_eq_refl c.digest, ap (λ (x : Checksum). x.digest) (ok_injective k))),
      )

      by_run :
          (r : Result (hashes.State c.algorithm))
          → (((r >>= λ state. ok (checksum_of c.algorithm state)) >>= λ actual.
                reject_if
                  (not (bytes_eq actual.digest c.digest))
                  (error verification "checksum mismatch"))
              ≡ ok tt)
            ↔ ((r >>= λ state. ok (checksum_of c.algorithm state)) ≡ ok c)
      by_run (err e) = (λ k. absurd (cc), λ k. absurd (cc))
      by_run (ok state) =
          by_digest (hashes.finalize c.algorithm state)
            (bytes_eq (hashes.finalize c.algorithm state) c.digest) refl
