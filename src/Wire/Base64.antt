-- ===== src/Wire/Base64.antt =====
-- internal/wire/ceiling.go against the base64 encoding of RFC 4648, and against the size of the
-- requests that carry a payload of the largest size.
use clipbeam_cli.Prelude.{
  ℕ, zero, suc, ◌+◌, ◌*◌, ◌/◌, ◌%◌, ◌^◌, ◌<◌, ◌≤◌, ◌≡◌, refl, ap, ◌∙◌, Bool, true, not, ◌&&◌, ◌||◌,
  [], ◌∷◌, arith, ◌==◌, length, get_or, Bytes, codes,
}
use clipbeam_cli.Wire.{hard_ceiling, decoded_length, clamped, count_chars, is_whitespace}

alphabet : Bytes
alphabet = codes "ABCDEFGHIJKLMNOPQRSTUVWXYZabcdefghijklmnopqrstuvwxyz0123456789+/"

letter : ℕ → ℕ
letter i = get_or alphabet i b'A'

-- The encoding of RFC 4648, section 4, with its padding.
pub base64 : Bytes → Bytes
base64 [] = []
base64 (a ∷ []) = letter (a / 4) ∷ (letter (a % 4 * 16) ∷ (b'=' ∷ (b'=' ∷ [])))
base64 (a ∷ (b ∷ [])) =
    letter (a / 4) ∷ (letter (a % 4 * 16 + b / 16) ∷ (letter (b % 16 * 4) ∷ (b'=' ∷ [])))
base64 (a ∷ (b ∷ (c ∷ bytes))) =
    letter (a / 4)
    ∷ (letter (a % 4 * 16 + b / 16)
        ∷ (letter (b % 16 * 4 + c / 64) ∷ (letter (c % 64) ∷ base64 bytes)))

is_letter : ℕ → Bool
is_letter c = not (c == b'=' || is_whitespace c)

all_letters : Bytes → Bool
all_letters [] = true
all_letters (c ∷ cs) = is_letter c && all_letters cs

get_or-letter :
    (cs : Bytes) (i d : ℕ)
    → all_letters cs ≡ true
    → is_letter d ≡ true
    → is_letter (get_or cs i d) ≡ true
unfolding all_letters
get_or-letter [] i d h hd = hd
get_or-letter (c ∷ cs) zero d h hd = ground arith
get_or-letter (c ∷ cs) (suc i) d h hd = get_or-letter cs i d (ground arith) hd

alphabet_letters : all_letters alphabet ≡ true
unfolding all_letters is_letter is_whitespace alphabet
alphabet_letters = refl

letter_lem : (i : ℕ) → is_letter (letter i) ≡ true
unfolding letter is_letter is_whitespace
letter_lem i = get_or-letter alphabet i b'A' alphabet_letters refl

count_letter :
    (chars pad c : ℕ) (b64 : Bytes)
    → is_letter c ≡ true
    → count_chars chars pad (c ∷ b64) ≡ count_chars (suc chars) pad b64
unfolding count_chars is_letter is_whitespace
count_letter chars pad c b64 h = ground arith

count_pad :
    (chars pad : ℕ) (b64 : Bytes)
    → count_chars chars pad (b'=' ∷ b64) ≡ count_chars chars (suc pad) b64
unfolding count_chars
count_pad chars pad b64 = refl

count_end : (chars pad : ℕ) → count_chars chars pad [] ≡ (chars, pad)
unfolding count_chars
count_end chars pad = refl

-- The count before an encoding that `quanta` whole quanta precede.
decoded_from :
    (quanta : ℕ) (bytes : Bytes)
    → clamped (count_chars (4 * quanta) 0 (base64 bytes)) ≡ 3 * quanta + length bytes
unfolding base64 clamped
decoded_from quanta [] = rw (count_end (4 * quanta) 0) (omega arith)
decoded_from quanta (a ∷ []) =
    rw
      (
        count_letter (4 * quanta) 0 _ _ (letter_lem (a / 4)),
        count_letter (suc (4 * quanta)) 0 _ _ (letter_lem (a % 4 * 16)),
        count_pad (suc (suc (4 * quanta))) 0 (b'=' ∷ []),
        count_pad (suc (suc (4 * quanta))) 1 [],
        count_end (suc (suc (4 * quanta))) 2,
      )
      (omega arith)
decoded_from quanta (a ∷ (b ∷ [])) =
    rw
      (
        count_letter (4 * quanta) 0 _ _ (letter_lem (a / 4)),
        count_letter (suc (4 * quanta)) 0 _ _ (letter_lem (a % 4 * 16 + b / 16)),
        count_letter (suc (suc (4 * quanta))) 0 _ _ (letter_lem (b % 16 * 4)),
        count_pad (suc (suc (suc (4 * quanta)))) 0 [],
        count_end (suc (suc (suc (4 * quanta)))) 1,
      )
      (omega arith)
decoded_from quanta (a ∷ (b ∷ (c ∷ bytes))) =
    rw
      (
        count_letter (4 * quanta) 0 _ _ (letter_lem (a / 4)),
        count_letter (suc (4 * quanta)) 0 _ _ (letter_lem (a % 4 * 16 + b / 16)),
        count_letter (suc (suc (4 * quanta))) 0 _ _ (letter_lem (b % 16 * 4 + c / 64)),
        count_letter (suc (suc (suc (4 * quanta)))) 0 _ _ (letter_lem (c % 64)),
      )
      (ap (λ (n : ℕ). clamped (count_chars n 0 (base64 bytes))) (omega arith)
        ∙ (decoded_from (suc quanta) bytes ∙ omega arith))

-- DecodedLength gives the number of bytes from their padded base64 encoding of RFC 4648.
pub decoded_length-base64 : (bytes : Bytes) → decoded_length (base64 bytes) ≡ length bytes
unfolding decoded_length
decoded_length-base64 bytes = decoded_from 0 bytes ∙ omega arith

length-base64 : (bytes : Bytes) → length (base64 bytes) ≡ (length bytes + 2) / 3 * 4
unfolding base64
length-base64 [] = omega arith
length-base64 (a ∷ []) = omega arith
length-base64 (a ∷ (b ∷ [])) = omega arith
length-base64 (a ∷ (b ∷ (c ∷ bytes))) = omega (arith, length-base64 bytes)

-- A payload within the decoded cap, base64-encoded, fits under HardCeiling of that cap together
-- with up to 64 KiB less 3 bytes of other text of the request, where the fourfold of the cap is an
-- `int` still (less than 2^63).
pub hard_ceiling_fits :
    (max_bytes other : ℕ) (payload : Bytes)
    → max_bytes * 4 < 2 ^ 63
    → length payload ≤ max_bytes
    → other + 3 ≤ 64 * 1024
    → length (base64 payload) + other ≤ hard_ceiling max_bytes
unfolding hard_ceiling
hard_ceiling_fits max_bytes other payload int h small =
    ground (arith, length-base64 payload, int, h, small)
