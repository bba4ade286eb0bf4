-- ===== src/Go/Strconv.antt =====
-- Go's strconv: Atoi of a 64-bit int.
use clipbeam_cli.Prelude.{
  ℕ, zero, suc, ◌+◌, ◌-◌, ◌*◌, ◌^◌, Option, none, some, [], ◌∷◌, ltb, ◌==◌, if◌then◌else◌, between,
  Bytes,
}

pub data ℤ : Type 0 where
  pos : ℕ → ℤ
  -- One more, negated.
  negsuc : ℕ → ℤ

-- The digits after a value so far.
pub decimal : ℕ → Bytes → Option ℕ
decimal n [] = some n
decimal n (b ∷ s) =
    let later = decimal (n * 10 + (b - b'0')) s in if between b'0' b'9' b then later else none

-- One digit at least.
unsigned : Bytes → Option ℕ
unfolding decimal
unsigned [] = none
unsigned (b ∷ s) = decimal 0 (b ∷ s)

positive : Option ℕ → Option ℤ
positive none = none
positive (some n) = if ltb n (2 ^ 63) then some (pos n) else none

negative : Option ℕ → Option ℤ
negative none = none
negative (some zero) = some (pos zero)
negative (some (suc n)) = if ltb n (2 ^ 63) then some (negsuc n) else none

unfoldable pub atoi : Bytes → Option ℤ
unfolding unsigned positive negative
atoi [] = none
atoi (b ∷ s) =
    if b == b'-'
    then negative (unsigned s)
    else if b == b'+'
    then positive (unsigned s)
    else positive (unsigned (b ∷ s))
