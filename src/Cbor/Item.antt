-- ===== src/Cbor/Item.antt =====
-- Data items of CBOR and their core-deterministic encoding (RFC 8949, section 4.2.1), independently
-- of the scanner.
use janex.Base.{
  ℕ, suc, ◌+◌, ◌*◌, ◌^◌, ◌≤◌, ◌<◌, ◌≡◌, ◌⊎◌, ◌≢◌, not, ◌||◌, ◌==◌, true, false, Option, none, some,
  [], ◌∷◌, ◌++◌, ltb, if◌then◌else◌, length, Bytes, be_bytes, bytes_lt, is_utf8,
}
use janex.Binary.{Limits}
use janex.Cbor.{Half, is_nan32, is_nan64, survives_f32}

-- `half_float`, `single` and `double` hold bit patterns. A text holds its UTF-8 bytes.
mutual
  pub data Item : Type 0 where
    uint : ℕ → Item
    nint : ℕ → Item
    byte_string : Bytes → Item
    text : Bytes → Item
    array : Items → Item
    dict : Entries → Item
    tag : ℕ → Item → Item
    simple : ℕ → Item
    half_float : ℕ → Item
    single : ℕ → Item
    double : ℕ → Item

  pub data Items : Type 0 where
    nil : Items
    cons : Item → Items → Items

  pub data Entries : Type 0 where
    end : Entries
    entry : Item → Item → Entries → Entries

-- The additional information of an argument, and the bytes behind the initial byte.
unfoldable pub info : ℕ → ℕ
info n =
    if ltb n 24
    then n
    else if ltb n 256
    then 24
    else if ltb n 65536
    then 25
    else if ltb n 0x1_0000_0000
    then 26
    else 27

unfoldable pub extra : ℕ → Bytes
extra n =
    if ltb n 24
    then []
    else if ltb n 256
    then be_bytes 1 n
    else if ltb n 65536
    then be_bytes 2 n
    else if ltb n 0x1_0000_0000
    then be_bytes 4 n
    else be_bytes 8 n

abbrev pub head : ℕ → ℕ → Bytes
head major n = (major * 32 + info n) ∷ extra n

abbrev pub encode_simple : ℕ → Bytes
encode_simple n = if ltb n 24 then (224 + n) ∷ [] else 248 ∷ n ∷ []

abbrev pub count_items : Items → ℕ
count_items nil = 0
count_items (cons x xs) = suc (count_items xs)

abbrev pub count_entries : Entries → ℕ
count_entries end = 0
count_entries (entry k v es) = suc (count_entries es)

unfoldable mutual
  pub encode : Item → Bytes
  encode (uint n) = head 0 n
  encode (nint n) = head 1 n
  encode (byte_string b) = head 2 (length b) ++ b
  encode (text b) = head 3 (length b) ++ b
  encode (array xs) = head 4 (count_items xs) ++ encode_items xs
  encode (dict es) = head 5 (count_entries es) ++ encode_entries es
  encode (tag n x) = head 6 n ++ encode x
  encode (simple n) = encode_simple n
  encode (half_float bits) = 249 ∷ be_bytes 2 bits
  encode (single bits) = 250 ∷ be_bytes 4 bits
  encode (double bits) = 251 ∷ be_bytes 8 bits

  pub encode_items : Items → Bytes
  encode_items nil = []
  encode_items (cons x xs) = encode x ++ encode_items xs

  pub encode_entries : Entries → Bytes
  encode_entries end = []
  encode_entries (entry k v es) = encode k ++ (encode v ++ encode_entries es)

-- The key comes behind the previous one in the order of encoded bytes.
abbrev pub Follows : Option Bytes → Bytes → Type 0
Follows none key = Unit
Follows (some previous) key = bytes_lt previous key ≡ true

-- What an item keeps to within the limits of a reader, at a depth of nesting: the sizes, the
-- order of map keys, and the preferred forms of simple values and floats.
module _ ⦃half : Half⦄ (limits : Limits) where
  abbrev mutual
    pub Fits : ℕ → Item → Type 0
    Fits depth (uint n) = (depth ≤ limits.max_depth) × (n < 2 ^ 64)
    Fits depth (nint n) = (depth ≤ limits.max_depth) × (n < 2 ^ 64)
    Fits depth (byte_string b) =
        (depth ≤ limits.max_depth) × (length b < 2 ^ 64) × (length b ≤ limits.max_bytes)
    Fits depth (text b) =
        (depth ≤ limits.max_depth)
        × (length b < 2 ^ 64)
        × (length b ≤ limits.max_bytes)
        × (is_utf8 b ≡ true)
    Fits depth (array xs) =
        (depth ≤ limits.max_depth)
        × (count_items xs < 2 ^ 64)
        × (count_items xs ≤ limits.max_elements)
        × FitsItems (depth + 1) xs
    Fits depth (dict es) =
        (depth ≤ limits.max_depth)
        × (count_entries es < 2 ^ 64)
        × (count_entries es ≤ limits.max_elements)
        × FitsEntries (depth + 1) none es
    Fits depth (tag n x) = (depth ≤ limits.max_depth) × (n < 2 ^ 64) × Fits (depth + 1) x
    Fits depth (simple n) = (depth ≤ limits.max_depth) × ((n < 24) ⊎ ((32 ≤ n) × (n < 256)))
    Fits depth (half_float bits) =
        (depth ≤ limits.max_depth)
        × (bits < 2 ^ 16)
        × (not (half.is_nan bits) || bits == 0x7e00 ≡ true)
    Fits depth (single bits) =
        (depth ≤ limits.max_depth)
        × (bits < 2 ^ 32)
        × (is_nan32 bits ≡ false)
        × (half.through_half bits ≢ bits)
    Fits depth (double bits) =
        (depth ≤ limits.max_depth)
        × (bits < 2 ^ 64)
        × (is_nan64 bits ≡ false)
        × (survives_f32 bits ≡ false)

    pub FitsItems : ℕ → Items → Type 0
    FitsItems depth nil = Unit
    FitsItems depth (cons x xs) = Fits depth x × FitsItems depth xs

    pub FitsEntries : ℕ → Option Bytes → Entries → Type 0
    FitsEntries depth previous end = Unit
    FitsEntries depth previous (entry k v es) =
        Fits depth k
        × Follows previous (encode k)
        × Fits depth v
        × FitsEntries depth (some (encode k)) es
