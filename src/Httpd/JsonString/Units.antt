-- ===== src/Httpd/JsonString/Units.antt =====
-- internal/httpd/jsonstream.go: every way that RFC 8259 has to write a character is read.
use clipbeam_cli.Prelude.{
  ℕ, ◌+◌, ◌-◌, ◌/◌, ◌%◌, ◌≤◌, ◌<◌, ◌≡◌, ◌≢◌, ◌⊎◌, true, List, [], ◌∷◌, ◌++◌, ltb, if◌then◌else◌,
  Bytes,
}
use clipbeam_cli.Httpd.JsonString.RoundTrip.{hex_digit, short_letter}

-- A byte as it is, a byte with a short escape, a code point as `\uXXXX`, and one as two surrogates.
pub data Mark : Type 0 where
  raw : ℕ → Mark
  short : ℕ → Mark
  code : ℕ → Mark
  paired : ℕ → Mark

unfoldable pub IsMark : Mark → Type 0
IsMark (raw c) = (c ≢ 34) × (c ≢ 92)
IsMark (short c) = ltb 0 (short_letter c) ≡ true
IsMark (code r) = (r < 0xD800) ⊎ ((0xDFFF < r) × (r < 0x10000))
IsMark (paired r) = (0x10000 ≤ r) × (r < 0x110000)

hex4 : ℕ → Bytes → Bytes
hex4 n s =
    hex_digit (n / 4096)
    ∷ hex_digit (n / 256 % 16)
    ∷ hex_digit (n / 16 % 16)
    ∷ hex_digit (n % 16)
    ∷ s

escape4 : ℕ → Bytes → Bytes
unfolding hex4
escape4 n s = 92 ∷ (b'u' ∷ hex4 n s)

pub print_mark : Mark → Bytes → Bytes
unfolding escape4
print_mark (raw c) s = c ∷ s
print_mark (short c) s = 92 ∷ (short_letter c ∷ s)
print_mark (code r) s = escape4 r s
print_mark (paired r) s =
    escape4 (0xD800 + (r - 0x10000) / 1024) (escape4 (0xDC00 + (r - 0x10000) % 1024) s)

-- The marks, the closing quote, and what follows.
pub print_marks : List Mark → Bytes → Bytes
unfolding print_mark
print_marks [] t = 34 ∷ t
print_marks (m ∷ ms) t = print_mark m (print_marks ms t)

-- RFC 3629, section 3: six bits to a continuation byte.
utf8 : ℕ → Bytes
utf8 r =
    if ltb r 128
    then r ∷ []
    else if ltb r 2048
    then (192 + r / 64) ∷ (128 + r % 64) ∷ []
    else if ltb r 65536
    then (224 + r / 4096) ∷ (128 + r % 4096 / 64) ∷ (128 + r % 64) ∷ []
    else (240 + r / 262144)
      ∷ (128 + r % 262144 / 4096)
      ∷ (128 + r % 4096 / 64)
      ∷ (128 + r % 64)
      ∷ []

pub meaning : Mark → Bytes
unfolding utf8
meaning (raw c) = c ∷ []
meaning (short c) = c ∷ []
meaning (code r) = utf8 r
meaning (paired r) = utf8 r

pub meanings : List Mark → Bytes
unfolding meaning
meanings [] = []
meanings (m ∷ ms) = meaning m ++ meanings ms
