-- ===== src/Go/Utf8.antt =====
-- unicode/utf8 of the standard library on the bytes of a string: the width that `range` and
-- DecodeRune give to the first rune (1 for a byte that starts no valid rune), and whether
-- DecodeLastRune finds a valid rune at the end.
use clipbeam_cli.Prelude.{
  ℕ, suc, ◌-◌, ◌<◌, Bool, true, false, [], ◌∷◌, ◌≡◌, ◌&&◌, ◌||◌, lt→ltb, zero, not, Bytes, ltb, leb,
  ◌==◌, between, if◌then◌else◌, length, drop, All, arith, get_or,
}

-- The width that a first byte announces; 0 for a byte that starts no rune.
declared_width : ℕ → ℕ
declared_width b =
    if ltb b 0x80
    then 1
    else if ltb b 0xC2
    then 0
    else if ltb b 0xE0
    then 2
    else if ltb b 0xF0
    then 3
    else if ltb b 0xF5
    then 4
    else 0

-- The accepted range of the second byte.
accept_low : ℕ → ℕ
accept_low b = if b == 0xE0 then 0xA0 else if b == 0xF0 then 0x90 else 0x80

accept_high : ℕ → ℕ
accept_high b = if b == 0xED then 0x9F else if b == 0xF4 then 0x8F else 0xBF

-- `n` bytes in the range of a continuation.
tails : ℕ → Bytes → Bool
tails n [] = n == 0
tails n (c ∷ s) = n == 0 || (between 0x80 0xBF c && tails (n - 1) s)

second_fits : ℕ → Bytes → Bool
unfolding accept_low accept_high
second_fits b [] = false
second_fits b (c ∷ s) = between (accept_low b) (accept_high b) c

unfoldable pub rune_width : Bytes → ℕ
unfolding declared_width tails second_fits
rune_width [] = 0
rune_width (b ∷ s) =
    let w = declared_width b in
    if ltb w 2 then 1 else if second_fits b s && tails (w - 2) (drop 1 s) then w else 1

-- utf8.RuneStart
is_rune_start : ℕ → Bool
is_rune_start b = not (between 0x80 0xBF b)

-- The rune start nearest to the end, looked for at most four bytes back.
ends_at : ℕ → Bytes → Bool
unfolding is_rune_start
ends_at k s = leb k (length s) && is_rune_start (get_or s (length s - k) 0x80)

unfoldable pub last_rune_ok : Bytes → Bool
unfolding ends_at rune_width
last_rune_ok s =
    if ltb (get_or s (length s - 1) 0x80) 0x80
    then true
    else if ends_at 2 s
    then rune_width (drop (length s - 2) s) == 2
    else if ends_at 3 s
    then rune_width (drop (length s - 3) s) == 3
    else if ends_at 4 s
    then rune_width (drop (length s - 4) s) == 4
    else false

abbrev pub IsAscii : Bytes → Type 0
IsAscii = All (λ c. c < 0x80)

pub rune_width-ascii : (c : ℕ) (s : Bytes) → c < 0x80 → rune_width (c ∷ s) ≡ 1
unfolding rune_width
rune_width-ascii c s h = ground arith

get_or-ascii : (s : Bytes) (i : ℕ) → IsAscii s → i < length s → get_or s i 0x80 < 0x80
get_or-ascii [] i h lt = elim lt [ ]
get_or-ascii (c ∷ s) zero (h, t) lt = h
get_or-ascii (c ∷ s) (suc i) (h, t) lt = get_or-ascii s i t (omega arith)

last_rune_ok_of_lt : (s : Bytes) → get_or s (length s - 1) 0x80 < 0x80 → last_rune_ok s ≡ true
unfolding last_rune_ok
last_rune_ok_of_lt s h = rw (lt→ltb _ _ h)

pub last_rune_ok-ascii : (s : Bytes) → IsAscii s → 0 < length s → last_rune_ok s ≡ true
last_rune_ok-ascii s h n = last_rune_ok_of_lt s (get_or-ascii s (length s - 1) h (omega arith))
