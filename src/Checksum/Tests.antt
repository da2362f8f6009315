-- ===== src/Checksum/Tests.antt =====
-- Runs of checksums, and their laws at concrete inputs.
use janex.Base.{◌≡◌, ◌↔◌, refl, sym, [], ◌∷◌, ◌++◌, append_assoc, bytes_eq, append-nil, Bytes}
use janex.Failure.{ok, err, error, invalid, unsupported}
use janex.Checksum.{
  xxh3_64, sha256, Checksum, decode, encode, from_id, Hashes, chunk, interrupted, compute, verify,
}
use janex.Checksum.Laws.{IsChecksum, decode-encode_iff, IsStreaming, compute-stream, verify-compute}

-- A hash that keeps the bytes it has taken in.
instance abbrev keep : Hashes
keep = record {
  State = λ a. Bytes;
  new = λ a. [];
  update = λ a bytes state. state ++ bytes;
  finalize = λ a state. state;
}

keep-IsStreaming : IsStreaming
keep-IsStreaming = record {
  none_taken = λ a s. append-nil s;
  pieces = λ a xs ys s. sym (append_assoc s xs ys);
}

abbrev eight : Checksum
eight = record { algorithm = xxh3_64; digest = 1 ∷ 2 ∷ 3 ∷ 4 ∷ 5 ∷ 6 ∷ 7 ∷ 8 ∷ [] }

unknown_algorithm : decode (0x99 ∷ []) ≡ err (error unsupported "checksum algorithm 153")
unfolding decode
unknown_algorithm = refl

short_digest : decode (0x21 ∷ 1 ∷ []) ≡ err (invalid "incorrect checksum length")
unfolding decode from_id
short_digest = refl

verify_cut :
    verify eight (chunk (1 ∷ 2 ∷ 3 ∷ []) ∷ interrupted ∷ chunk (4 ∷ 5 ∷ 6 ∷ 7 ∷ 8 ∷ []) ∷ [])
    ≡ ok tt
unfolding verify bytes_eq
verify_cut = refl

decode-encode_iff_example :
    (decode (encode eight) ≡ ok eight) ↔ (IsChecksum eight × (encode eight ≡ encode eight))
decode-encode_iff_example = decode-encode_iff (encode eight) eight

compute-stream_example :
    compute sha256 (chunk (1 ∷ []) ∷ interrupted ∷ chunk (2 ∷ []) ∷ [])
    ≡ ok (record { algorithm = sha256; digest = 1 ∷ 2 ∷ [] })
compute-stream_example =
    compute-stream keep-IsStreaming sha256 (chunk (1 ∷ []) ∷ interrupted ∷ chunk (2 ∷ []) ∷ [])

verify-compute_example :
    (verify eight (chunk (1 ∷ 2 ∷ []) ∷ []) ≡ ok tt)
    ↔ (compute xxh3_64 (chunk (1 ∷ 2 ∷ []) ∷ []) ≡ ok eight)
verify-compute_example = verify-compute eight (chunk (1 ∷ 2 ∷ []) ∷ [])
