-- ===== src/Lib.antt =====
-- Janex: the binary format of Java applications, the Rust implementation.
--
-- The crate janex-format reads and writes the format. Its parts stand on one another: failures
-- (janex-format/src/error.rs) are the results of all; the binary codec (binary.rs) is the cursor
-- over one field, with its limits and ULEB128 numbers; the CBOR values (cbor.rs) are validated
-- over that cursor; data pools (data_pool.rs) share the byte strings of names (strings.rs); ZIP
-- tails (wrapper.rs) are found in the bytes behind a file in the format; versions and ranges of
-- Java (version.rs) and package URLs (purl.rs) are read from texts that the CBOR values hold.
--
--   Base        byte strings, words of 64 bits, tests, UTF-8 and text functions of Rust's library
--   Failure     janex-format/src/error.rs: ErrorKind, Error, Result, and Ensures, which says that a
--               run fails or returns a value with a property
--   Binary      janex-format/src/binary.rs: Limits, write_vuint, write_sized
--     Decoder   the cursor: take, u8, u32, u64, vuint, count, sized, string, finish
--     Cursor    what a read does to a cursor that stands between two parts of its input
--     Uleb, Reading   the reads of numbers against plain arithmetic, both ways
--     Writing   the writers against the same arithmetic, and the round trips
--   Cbor        janex-format/src/cbor.rs: from_bytes, scan, argument, scan_simple
--     Item      data items and their deterministic encoding, stated without the scanner
--     Head, Simple    arguments, simple values and floats, both ways
--     Accept, Sound   the scanner against the encodings, both ways
--     Sized           read_sized and write_sized
--   Pool        janex-format/src/data_pool.rs: DataPool and DataPoolBuilder
--     Entries   the entries that a pool stands for, and get
--     Codec     decode and encode
--     Builder, Rollback    intern and its index; truncate after intern
--   Names       janex-format/src/strings.rs: text, read_nonempty and write_nonempty
--     Reading, RoundTrip   reads at an index; names written and read again
--   Checksum    janex-format/src/checksum.rs: Algorithm, decode, encode, compute and verify
--     Laws      the encoding, and streams against all their bytes at once
--   Purl        janex-format/src/purl.rs: token, literal, hex, component and segments
--     Canonical, Paths   the one spelling of a text, and of a path
--   Version     janex-format/src/version.rs: JavaVersion::cmp, decimal and the validations
--     Syntax    parse, with the aliases of Java 8
--     Order, Normal   the order of versions, and the form of those that are parsed
--     Range     Comparator, JavaRange::parse and contains
--       Meaning, Accepted   the intervals that a range stands for, and what is accepted
--   Zip         janex-format/src/wrapper.rs over read_at of container.rs: fields, coordinates
--     Extra, Locate, Validate, Ends   expand_zip64; zip64_records and directories; validate_local
--               and validate_directory; candidate_ends
--     Reads, Records, Complete   what a read gives; the scan in chunks against one over the whole
--               source
--     Expansion, Stored   the fields that a ZIP64 block replaces; the block that a writer makes of numbers
--     Local, Entry, Framing   accepted local headers, entries and directories
--     Described, Candidates   the directories that end records describe; the ends returned
--     Errors, Refusals   the errors that end a search, and those of a directory
--     Selected  the search as a whole: what ends it and what is passed over
--   Openpgp     janex-signature/src/openpgp/framing.rs: packet, number, subpacket
--     Signature signature_at, subpackets, signature and embedded
--     Advance, Layout   how reads move the cursor; where the hashed fields end
--     Accepted, Embedded   the subpackets that are counted; embedded against signature
--   Java        janex-java/src/limits.rs, and the crate's errors
--     Map       BTreeMap with texts as keys; Order: the keys stand in their order
--     Manifest  janex-java/src/manifest.rs: parse, the lookups, for_runtime, write_header
--       Lines, Folding, RoundTrip   parse line by line; folded headers, written and read again
--       Written, Runtime, Rebuilt   the sections that for_runtime writes, and parse on them
--       Lookups, Reading   what is found in maps that were filled, and in the manifest read back
--       Kept      what every manifest that parse returns keeps to
--     Modules   janex-java/src/modules.rs: system_roots and automatic
--       Roots, Names   the roots returned; the names and versions derived
--   The modules Tests hold runs at concrete inputs.
--
-- State and failures. A cursor is a record of the whole input, the position and the limits. A read
-- returns the moved cursor with its value, or an error; after an error the cursor is not used
-- again, since every caller gives the error on. A message is a String, and of an I/O error the
-- message is all that is kept. `&str` and `&[u8]` are lists of bytes; a theorem that needs bytes
-- below 256 says so.
--
-- Other crates. janex-signature has its own copies of Limits, Decoder and Error, whose code is
-- that of janex-format; the definitions of Binary and Failure stand for them. janex-java's Error
-- has no offset: its InvalidInput is the kind of `invalid`. The names at the end of the messages
-- of modules.rs are left out.
--
-- Machine integers. usize has 64 bits. The shift of a group in vuint is reduced modulo 2 ^ 64 and
-- bounded by the guard on the tenth byte; checked_add is an option. That an input fits the address
-- space (its length is below 2 ^ 64) is a condition of the theorems where it matters.
--
-- Recursion. vuint has ten rounds, as the source's loop. write_vuint recurs on the value that it
-- shifts. scan recurs on max_depth + 1 levels: one level deeper the source stops with the same
-- limit error, so the levels are never used up before. parse has two rounds: the text that an
-- alias stands for is no alias. The scan for ZIP64 records recurs on the distance to the locator
-- and expand_zip64 on the bytes that are left, both well founded, as each chunk and each block
-- moves ahead. parse of a manifest and write_header recur on the bytes that are left, and the
-- loops over subpackets on those of their area, well founded too. signature_at recurs on max_depth
-- + 1 levels, as scan does.
--
-- Parameters. A seekable source is an image in memory: a list of bytes, of which an exact read
-- gives the bytes or an I/O error at the offset. The packet headers of the crate pgp are the
-- record PacketHeaders, with no law assumed. The hash functions are the record Hashes: a state,
-- and how bytes are taken in; that bytes may be taken in piece by piece is a hypothesis of the
-- theorem that uses it. A stream is the list of the answers of its reads. The crate half (16-bit
-- floats) is the record Half: a test for NaN and the rounding of a 32-bit float through 16 bits;
-- no law of it is assumed. The destination of a writer is the record Write, with vectors as an
-- instance. The conversion of a 64-bit float to 32 bits and back is written out on the bit
-- patterns.
--
-- Not modelled. The constructors and accessors of CBOR values, which run on the crate minicbor;
-- parse of package URLs, which lowers texts with the tables of Unicode and ends in the crate
-- packageurl; the container but for read_at, resources, blobs and class files of janex-format; of
-- janex-signature all but the framing of OpenPGP packets, and there armor, which run on
-- cryptographic libraries; of janex-java the archives, runtimes and launch arguments, which run on
-- the file system and processes; the crates janex-host, janex-cli, janex-launcher and
-- janex-platform, which call the file system, processes and the network; the Java programs.
-- Display of versions and errors is output only.
pub mod Base
pub mod Binary
pub mod Cbor
pub mod Checksum
pub mod Failure
pub mod Java
pub mod Names
pub mod Openpgp
pub mod Pool
pub mod Purl
pub mod Version
pub mod Zip
