-- ===== src/Purl/Tests.antt =====
-- Runs of the code of janex-format/src/purl.rs on small texts.
use janex.Base.{true, false, Bytes, All, ascii, is_utf8, split, bytes_eq, ◌≡◌, refl, arith, ◌↔◌}
use janex.Failure.{ok, err, invalid}
use janex.Purl.{token, literal, hex, decode_bytes, component, decode_parts, segments}
use janex.Purl.Canonical.{escaped, IsComponent, component-escaped}
use janex.Purl.Paths.{escaped_path, IsSegment, segments-escaped_path}

type_token : token (ascii "maven-2.x") false ≡ ok tt
unfolding token
type_token = refl

no_underline : token (ascii "a_b") false ≡ err (invalid "invalid Package URL type or qualifier key")
unfolding token
no_underline = refl

lower_escape : component (ascii "a%2f") ≡ err (invalid "invalid Package URL escape")
unfolding component decode_bytes literal hex
lower_escape = refl

needless_escape : component (ascii "%41") ≡ err (invalid "unnecessary Package URL escape")
unfolding component decode_bytes literal hex
needless_escape = refl

encoded_slash :
    segments (ascii "org/a%2Fb") false ≡ err (invalid "invalid Package URL path segment")
unfolding segments decode_parts component decode_bytes literal hex split is_utf8
encoded_slash = refl

-- A name with two bytes that are escaped.
abbrev plus_name : Bytes
plus_name = ascii "c++"

component-escaped_example :
    (component (ascii "c%2B%2B") ≡ ok plus_name)
    ↔ ((ascii "c%2B%2B" ≡ escaped plus_name) × IsComponent plus_name)
component-escaped_example =
    component-escaped (ascii "c%2B%2B") plus_name (omega arith, (omega arith, (omega arith, tt)))

group_read : segments (ascii "org/a%40b") true ≡ ok (ascii "org/a@b")
unfolding segments decode_parts component decode_bytes literal hex split is_utf8 bytes_eq
group_read = refl

segments-escaped_path_example :
    (ascii "org/a%40b" ≡ escaped_path (ascii "org/a@b"))
    × All (IsSegment true) (split b'/' (ascii "org/a@b"))
segments-escaped_path_example =
    segments-escaped_path (ascii "org/a%40b") (ascii "org/a@b") true group_read
