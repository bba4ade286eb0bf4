-- ===== src/Wire.antt =====
-- internal/wire/ceiling.go: the raw ceiling of a request, and the decoded length of a base64
-- string.
pub mod Base64
use clipbeam_cli.Prelude.{
  ℕ, zero, suc, ◌+◌, ◌-◌, ◌*◌, ◌/◌, ◌%◌, ◌^◌, ◌≤◌, ◌<◌, ◌≡◌, refl, sym, ap, ◌∙◌, ◌≢◌, ◌↔◌, ◌⊎◌, inl,
  inr, Bool, true, false, not, ◌&&◌, ◌||◌, Option, none, some, List, [], ◌∷◌, ◌++◌, map,
  append_assoc, append-nil, arith, ltb, leb, ◌==◌, if◌then◌else◌, between, ==_iff, lt→ltb, ltb→lt,
  ltb→le, leb→le, leb→lt, le→leb, lt→leb-false, le→ltb-false, All-left, All-right, All-map,
  Bool-cases, Option-cases, length, replicate, take, drop, All, last, get_or, length-append,
  length-take, length-drop, take-append-drop, take-length-append, drop-length-append, All-append,
  All-take, All-drop, Bytes, codes, bytes_eq, bytes_eq_refl, bytes_eq_iff, has_prefix,
  has_prefix-append,
}

abbrev pub default_max_bytes : ℕ
default_max_bytes = 52428800

-- Sums and differences of the 64-bit `int`.
infix 65 ◌+int◌
abbrev ◌+int◌ : ℕ → ℕ → ℕ
a +int b = (a + b) % 18446744073709551616

-- Of an `int` as its two's complement: the quotient by 3, towards zero.
third : ℕ → ℕ
third n =
    if ltb n 9223372036854775808
    then n / 3
    else (18446744073709551616 - (18446744073709551616 - n) / 3) % 18446744073709551616

-- An `int` is its bit pattern: the product wraps at 2^64, and one of 2^63 or more is negative.
unfoldable pub hard_ceiling : ℕ → ℕ
unfolding third
hard_ceiling max_bytes = third (max_bytes * 4 % 18446744073709551616) +int 64 * 1024

pub is_whitespace : ℕ → Bool
is_whitespace c = c == 32 || (c == 9 || (c == 10 || c == 13))

-- The characters counted so far and the pads.
pub count_chars : ℕ → ℕ → Bytes → ℕ × ℕ
count_chars chars pad [] = (chars, pad)
count_chars chars pad (c ∷ b64) =
    if c == b'='
    then count_chars chars (suc pad) b64
    else if is_whitespace c
    then count_chars chars pad b64
    else count_chars (suc chars) pad b64

-- A difference below 0 is clamped to 0, which the subtraction on ℕ does.
pub clamped : ℕ × ℕ → ℕ
clamped (chars, pad) = (chars + pad) / 4 * 3 - pad

pub decoded_length : Bytes → ℕ
decoded_length b64 = clamped (count_chars 0 0 b64)
