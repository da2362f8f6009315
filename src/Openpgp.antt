-- ===== src/Openpgp.antt =====
-- janex-signature/src/openpgp/framing.rs: `packet`, `signature` and `embedded`. The crate's own
-- Limits, Decoder and Error have the code of janex-format's, which stand for them here.
mod Tests
pub mod Advance
pub mod Signature
pub mod Accepted
pub mod Layout
pub mod Embedded
use janex.Base.{
  ℕ, zero, suc, ◌+◌, ◌-◌, ◌*◌, ◌<◌, bit_and, Bool, true, false, not, Option, none, some, List, [],
  ◌∷◌, ◌++◌, length, take, drop, leb, ltb, ◌==◌, if◌then◌else◌, Bytes, fold_be, try_usize, is_empty,
  arith, ◌≡◌,
}
use janex.Failure.{Result, ok, err, invalid, ok_or, reject_if, ◌>>=◌, ◌>>◌}
use janex.Binary.{Limits, limit_bytes}
use janex.Binary.Decoder
use janex.Binary.Decoder.{Decoder}

-- `pgp::types::PacketLength` and what `packet` uses of `pgp::packet::PacketHeader`.
pub data PacketLength : Type 0 where
  fixed : ℕ → PacketLength
  indeterminate : PacketLength
  partial : ℕ → PacketLength

pub record PacketHeaders (Header : Type 0) : Type 0 where
  pub try_from_reader : Bytes → Option (Header × Bytes)
  pub packet_length : Header → PacketLength

abbrev pub body_length : PacketLength → Bytes → Result ℕ
body_length (fixed n) bytes =
    ok_or (try_usize n) (invalid "OpenPGP packet length does not fit usize")
body_length indeterminate bytes = ok (length bytes)
body_length (partial n) bytes =
    err (invalid "partial lengths are not valid for signature or key packets")

-- The header, the body and what follows the packet.
unfoldable pub packet :
    {Header : Type 0} → PacketHeaders Header → Bytes → Result (Header × Bytes × Bytes)
packet headers bytes = do
  (header, rest) ← ok_or (headers.try_from_reader bytes) (invalid "invalid OpenPGP packet header")
  count ← body_length (headers.packet_length header) rest
  reject_if (ltb (length rest) count) (invalid "truncated OpenPGP packet")
  ok (header, take count rest, drop count rest)

-- A big-endian length.
unfoldable pub number : ℕ → Decoder → Result (ℕ × Decoder)
number width d = do
  (bytes, rest) ← Decoder.take width d
  n ← limit_bytes rest.limits (fold_be 0 bytes)
  ok (n, rest)

-- The length of a subpacket in its one, two or five bytes.
unfoldable pub subpacket_length : Decoder → Result (ℕ × Decoder)
subpacket_length d = do
  (first, rest) ← Decoder.u8 d
  if leb first 191
      then ok (first, rest)
      else if leb first 254
      then (do (second, rest') ← Decoder.u8 rest; ok ((first - 192) * 256 + second + 192, rest'))
      else number 4 rest

unfoldable pub subpacket : Decoder → Result (Bytes × Decoder)
subpacket d = do
  (count, rest) ← subpacket_length d
  reject_if (count == 0) (invalid "empty OpenPGP signature subpacket")
  Decoder.take count rest
