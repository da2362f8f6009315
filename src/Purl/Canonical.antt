-- ===== src/Purl/Canonical.antt =====
-- janex-format/src/purl.rs: `component` against the one spelling of every text.
use janex.Base.{
  ℕ, ◌+◌, ◌-◌, ◌*◌, ◌/◌, ◌%◌, ◌<◌, Bool, true, false, not, some, [], ◌∷◌, ◌++◌, ltb, ◌==◌,
  if◌then◌else◌, Bytes, is_utf8, is_empty, ◌≡◌, refl, sym, ap, ◌∙◌, arith, All, IsByte, ◌↔◌,
}
use janex.Failure.{
  ok, Ensures, holds, failed, Ensures-bind, Ensures-weaken, Ensures-if, Ensures-ok, Ensures-ok_or,
  Ensures-reject_if,
}
use janex.Purl.{literal, hex, outside, after_percent, after_high, decode_bytes, component}

-- The uppercase hexadecimal digit of a number below 16.
abbrev pub digit : ℕ → ℕ
digit n = if ltb n 10 then n + b'0' else n - 10 + b'A'

-- The canonical spelling of a byte, and of a text.
abbrev pub escape : ℕ → Bytes
escape byte = if literal byte then byte ∷ [] else b'%' ∷ digit (byte / 16) ∷ digit (byte % 16) ∷ []

abbrev pub escaped : Bytes → Bytes
escaped [] = []
escaped (byte ∷ bytes) = escape byte ++ escaped bytes

hex-digit : (n : ℕ) → n < 16 → hex (digit n) ≡ some n
unfolding hex
hex-digit n h = ground arith

-- A digit that is read, and its value.
abbrev IsDigit : ℕ → ℕ → Type 0
IsDigit byte n = (byte ≡ digit n) × (n < 16)

hex-IsDigit : (byte n : ℕ) → hex byte ≡ some n → IsDigit byte n
unfolding hex
hex-IsDigit byte n h = ground arith

percent_escaped : literal b'%' ≡ false
unfolding literal
percent_escaped = refl

spelled :
    (high low : ℕ)
    → high < 16
    → low < 16
    → literal (high * 16 + low) ≡ false
    → escape (high * 16 + low) ≡ b'%' ∷ digit high ∷ digit low ∷ []
spelled high low h l needed =
    let front : (high * 16 + low) / 16 ≡ high = omega arith in
    let back : (high * 16 + low) % 16 ≡ low = omega arith in rw (needed, front, back) refl

-- A text that is decoded is spelled in the one canonical way.
decode_bytes-Ensures :
    (input : Bytes)
    → Ensures (λ (bytes : Bytes). input ≡ escaped bytes) (decode_bytes outside input)
      × Ensures (λ (bytes : Bytes). b'%' ∷ input ≡ escaped bytes) (decode_bytes after_percent input)
      × ((byte high : ℕ)
          → IsDigit byte high
          → Ensures
              (λ (bytes : Bytes). b'%' ∷ byte ∷ input ≡ escaped bytes)
              (decode_bytes (after_high high) input))
unfolding decode_bytes
decode_bytes-Ensures [] = (holds refl, failed, λ byte high h. failed)
decode_bytes-Ensures (next ∷ input) =
    let (here, percent, high) = decode_bytes-Ensures input in
    (
      Ensures-if (next == b'%') (λ same. Ensures-weaken percent λ bytes e. first_byte bytes same e)
          (λ _.
            Ensures-if (literal next)
              (λ plain. Ensures-bind here λ bytes e. holds (plain_byte bytes plain e))
              (λ _. failed)),
      Ensures-bind (Ensures-ok_or (hex next) _ (hex-IsDigit next)) λ h digit. high next h digit,
      λ byte h byte_digit.
          Ensures-bind (Ensures-ok_or (hex next) _ (hex-IsDigit next)) λ low low_digit.
            Ensures-reject_if (literal (h * 16 + low)) _ λ needed.
              Ensures-bind here
                λ bytes e. holds (escaped_byte byte h low bytes byte_digit low_digit needed e),
    )
  where
    first_byte :
        (bytes : Bytes)
        → (next == b'%') ≡ true
        → b'%' ∷ input ≡ escaped bytes
        → next ∷ input ≡ escaped bytes
    first_byte bytes same e =
        let percent : next ≡ b'%' = ground arith in ap (λ (b : ℕ). b ∷ input) percent ∙ e

    plain_byte :
        (bytes : Bytes)
        → literal next ≡ true
        → input ≡ escaped bytes
        → next ∷ input ≡ escaped (next ∷ bytes)
    plain_byte bytes plain e = rw plain (ap (λ (t : Bytes). next ∷ t) e)

    escaped_byte :
        (byte high low : ℕ) (bytes : Bytes)
        → IsDigit byte high
        → IsDigit next low
        → literal (high * 16 + low) ≡ false
        → input ≡ escaped bytes
        → b'%' ∷ byte ∷ next ∷ input ≡ escaped ((high * 16 + low) ∷ bytes)
    escaped_byte byte high low bytes h l needed e =
        (λ i. b'%' ∷ h.0 i ∷ l.0 i ∷ e i)
        ∙ ap (λ (t : Bytes). t ++ escaped bytes) (sym (spelled high low h.1 l.1 needed))

literal-percent : (byte : ℕ) → literal byte ≡ true → (byte == b'%') ≡ false
unfolding literal
literal-percent byte h = ground arith

decode_bytes-escaped :
    (bytes : Bytes) → All IsByte bytes → decode_bytes outside (escaped bytes) ≡ ok bytes
unfolding decode_bytes
decode_bytes-escaped [] h = refl
decode_bytes-escaped (byte ∷ bytes) h =
    by_literal (literal byte) refl (decode_bytes-escaped bytes h.1)
  where
    by_literal :
        (b : Bool)
        → literal byte ≡ b
        → decode_bytes outside (escaped bytes) ≡ ok bytes
        → decode_bytes outside (
            (if b then byte ∷ [] else b'%' ∷ digit (byte / 16) ∷ digit (byte % 16) ∷ [])
            ++ escaped bytes)
          ≡ ok (byte ∷ bytes)
    by_literal true plain rec = rw (literal-percent byte plain, plain, rec) refl
    by_literal false needed rec =
        let whole : byte / 16 * 16 + byte % 16 ≡ byte = omega arith in
        let small : byte / 16 < 16 = omega (arith, h.0) in
        let rest : byte % 16 < 16 = omega arith in
        rw (hex-digit (byte / 16) small, hex-digit (byte % 16) rest, whole, needed, rec) refl

escaped-is_empty : (bytes : Bytes) → is_empty bytes ≡ false → is_empty (escaped bytes) ≡ false
escaped-is_empty [] h = cc
escaped-is_empty (byte ∷ bytes) h = by_literal (literal byte)
  where
    by_literal :
        (b : Bool)
        → is_empty (
            (if b then byte ∷ [] else b'%' ∷ digit (byte / 16) ∷ digit (byte % 16) ∷ [])
            ++ escaped bytes)
          ≡ false
    by_literal true = refl
    by_literal false = refl

-- A text that component may return.
abbrev pub IsComponent : Bytes → Type 0
IsComponent bytes = (is_empty bytes ≡ false) × (is_utf8 bytes ≡ true)

pub component-Ensures :
    (value : Bytes)
    → Ensures (λ (bytes : Bytes). (value ≡ escaped bytes) × IsComponent bytes) (component value)
unfolding component
component-Ensures value = Ensures-reject_if (is_empty value) _ λ some_byte.
    Ensures-bind (decode_bytes-Ensures value).0 λ bytes e.
      Ensures-reject_if (not (is_utf8 bytes)) _
        λ utf8. holds (e, (some_text bytes e some_byte, ground arith))
  where
    some_text :
        (bytes : Bytes) → value ≡ escaped bytes → is_empty value ≡ false → is_empty bytes ≡ false
    some_text [] e h = sym (ap is_empty e) ∙ h
    some_text (byte ∷ bytes) e h = refl

-- component accepts exactly the canonical spellings of the texts that are UTF-8 and not empty, each
-- as that text: the spelling keeps the literal bytes and escapes every other with two uppercase
-- digits. The text consists of bytes.
pub component-escaped :
    (value bytes : Bytes)
    → All IsByte bytes
    → (component value ≡ ok bytes) ↔ ((value ≡ escaped bytes) × IsComponent bytes)
unfolding component
component-escaped value bytes byte = (accepted, accepts)
  where
    accepted : component value ≡ ok bytes → (value ≡ escaped bytes) × IsComponent bytes
    accepted = Ensures-ok (component-Ensures value)

    accepts : (value ≡ escaped bytes) × IsComponent bytes → component value ≡ ok bytes
    accepts (same, (some_text, utf8)) =
        ap component same
        ∙ rw (escaped-is_empty bytes some_text, decode_bytes-escaped bytes byte, utf8) refl
