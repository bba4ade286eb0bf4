-- ===== src/Httpd/JsonString/RoundTrip.antt =====
-- internal/httpd/jsonstream.go: a string written with JSON's escapes is read back.
use clipbeam_cli.Prelude.{
  ℕ, zero, suc, ◌+◌, ◌-◌, ◌/◌, ◌%◌, ◌<◌, ◌≡◌, ◌≢◌, refl, ap, inl, inr, Bool, true, false, ◌&&◌,
  ◌||◌, Option, some, [], ◌∷◌, ◌++◌, append_assoc, arith, ltb, ◌==◌, if◌then◌else◌, Bool-cases,
  length, Bytes,
}
use clipbeam_cli.Httpd.Outcome.{ClipError, ok}
use clipbeam_cli.Httpd.JsonString.{
  hex_value, read_hex, encode_rune, unicode_escape, read_unicode_escape, one, read_escape, emitted,
  escaped, next_unit, prefixed, read_rest, read_string,
}

unfoldable pub hex_digit : ℕ → ℕ
hex_digit n = if ltb n 10 then b'0' + n else b'a' + (n - 10)

-- The letter of a byte's short escape, or 0.
unfoldable pub short_letter : ℕ → ℕ
short_letter c =
    if c == 34 || c == 92
    then c
    else if c == 8
    then b'b'
    else if c == 12
    then b'f'
    else if c == 10
    then b'n'
    else if c == 13
    then b'r'
    else if c == 9
    then b't'
    else 0

-- One byte as encoding/json writes it: with a short escape where there is one, other control bytes
-- and what `extra` asks for (`<`, `>` and `&` there) as `\u00XX`, all else as it is.
unfoldable pub escape_byte : (ℕ → Bool) → ℕ → Bytes
unfolding hex_digit short_letter
escape_byte extra c =
    if ltb 0 (short_letter c)
    then 92 ∷ (short_letter c ∷ [])
    else if ltb c 32 || ltb c 128 && extra c
    then 92 ∷ (b'u' ∷ (b'0' ∷ (b'0' ∷ (hex_digit (c / 16) ∷ (hex_digit (c % 16) ∷ [])))))
    else c ∷ []

-- The text of a JSON string after its opening quote, the closing one included.
unfoldable pub json_string : (ℕ → Bool) → Bytes → Bytes
unfolding escape_byte
json_string extra [] = 34 ∷ []
json_string extra (c ∷ s) = escape_byte extra c ++ json_string extra s

pub hex_value-hex_digit : (n : ℕ) → n < 16 → hex_value (hex_digit n) ≡ some n
unfolding hex_value hex_digit
hex_value-hex_digit n lt = ground arith

read_hex-two :
    (c : ℕ) (s : Bytes)
    → c < 128
    → read_hex 4 0 (b'0' ∷ (b'0' ∷ (hex_digit (c / 16) ∷ (hex_digit (c % 16) ∷ s)))) ≡ some (c, s)
unfolding read_hex hex_value
read_hex-two c s lt =
    rw (hex_value-hex_digit (c / 16) (omega arith))
      (rw (hex_value-hex_digit (c % 16) (omega arith)) (ap (λ v. some (v, s)) (omega arith)))

eq_of : (a b : ℕ) → (a == b) ≡ true → a ≡ b
eq_of a b y = ground (arith, y)

unicode_low : (c : ℕ) (s : Bytes) → c < 128 → unicode_escape (c, s) ≡ some (c ∷ [], s)
unfolding unicode_escape encode_rune
unicode_low c s lt = ground arith

escape_low :
    (c : ℕ) (s : Bytes)
    → c < 128
    → escaped
        (read_escape (b'u' ∷ (b'0' ∷ (b'0' ∷ (hex_digit (c / 16) ∷ (hex_digit (c % 16) ∷ s))))))
      ≡ emitted (c ∷ []) s
unfolding read_escape read_unicode_escape escaped
escape_low c s lt = rw (read_hex-two c s lt) (ap escaped (unicode_low c s lt))

module _ (broken : Option ClipError) (extra : ℕ → Bool) where
  pub short_escape :
      (c : ℕ) (s : Bytes)
      → ltb 0 (short_letter c) ≡ true
      → read_escape (short_letter c ∷ s) ≡ some (c ∷ [], s)
  unfolding short_letter read_escape one
  short_escape c s y = elim (Bool-cases (c == 34)) [
    | inl e ↦ rw (eq_of c 34 e) refl
    | inr n₁ ↦ elim (Bool-cases (c == 92)) [
      | inl e ↦ rw (eq_of c 92 e) refl
      | inr n₂ ↦ elim (Bool-cases (c == 8)) [
        | inl e ↦ rw (eq_of c 8 e) refl
        | inr n₃ ↦ elim (Bool-cases (c == 12)) [
          | inl e ↦ rw (eq_of c 12 e) refl
          | inr n₄ ↦ elim (Bool-cases (c == 10)) [
            | inl e ↦ rw (eq_of c 10 e) refl
            | inr n₅ ↦ elim (Bool-cases (c == 13)) [
              | inl e ↦ rw (eq_of c 13 e) refl
              | inr n₆ ↦ elim (Bool-cases (c == 9)) [
                | inl e ↦ rw (eq_of c 9 e) refl
                | inr n₇ ↦ absurd (ground (arith, y))
              ]
            ]
          ]
        ]
      ]
    ]
  ]

  plain : (c : ℕ) → ltb 0 (short_letter c) ≡ false → (c ≢ 34) × (c ≢ 92)
  unfolding short_letter
  plain c n = ground (arith, n)

  pub next_unit-plain :
      (c : ℕ) (s : Bytes) → c ≢ 34 → c ≢ 92 → next_unit broken (c ∷ s) ≡ emitted (c ∷ []) s
  unfolding next_unit
  next_unit-plain c s n m = ground arith

  next_unit-escape_byte :
      (c : ℕ) (s : Bytes) → next_unit broken (escape_byte extra c ++ s) ≡ emitted (c ∷ []) s
  unfolding escape_byte next_unit escaped
  next_unit-escape_byte c s = elim (Bool-cases (ltb 0 (short_letter c))) [
    | inl y ↦ rw y (ap escaped (short_escape c s y))
    | inr n ↦ elim (Bool-cases (ltb c 32 || ltb c 128 && extra c)) [
      | inl y ↦ rw (n, y) (escape_low c s (ground (arith, y)))
      | inr k ↦ rw (n, k, escape_byte) (next_unit-plain c s (plain c n).0 (plain c n).1)
    ]
  ]

  -- A string that is written byte by byte is read back, and what follows its closing quote
  -- is left.
  pub read_string-json_string :
      (fuel : ℕ) (s t : Bytes)
      → length s < fuel
      → read_string broken fuel (json_string extra s ++ t) ≡ ok s t
  unfolding read_string json_string read_rest next_unit prefixed
  read_string-json_string zero s t lt = absurd (omega arith)
  read_string-json_string (suc f) [] t lt = refl
  read_string-json_string (suc f) (c ∷ s) t lt =
      rw
        (
          append_assoc (escape_byte extra c) (json_string extra s) t,
          next_unit-escape_byte c (json_string extra s ++ t),
        )
        (ap (prefixed (c ∷ [])) (read_string-json_string f s t (omega (arith, lt))))
