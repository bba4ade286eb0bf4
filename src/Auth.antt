-- ===== src/Auth.antt =====
-- internal/auth/auth.go: the comparison of tokens and their Base32 form. `random` of `make_token`
-- is what crypto/rand delivers, `none` where it fails.
pub mod Compare
pub mod Base32
use clipbeam_cli.Prelude.{
  ℕ, zero, suc, ◌+◌, ◌-◌, ◌*◌, ◌/◌, ◌%◌, ◌^◌, ◌≤◌, ◌<◌, ◌≡◌, refl, sym, ap, ◌∙◌, ◌≢◌, ◌↔◌, ◌⊎◌, inl,
  inr, Bool, true, false, not, ◌&&◌, ◌||◌, Option, none, some, List, [], ◌∷◌, ◌++◌, map,
  append_assoc, append-nil, arith, ltb, leb, ◌==◌, if◌then◌else◌, between, ==_iff, lt→ltb, ltb→lt,
  ltb→le, leb→le, leb→lt, le→leb, lt→leb-false, le→ltb-false, All-left, All-right, All-map,
  Bool-cases, Option-cases, length, replicate, take, drop, All, last, get_or, length-append,
  length-take, length-drop, take-append-drop, take-length-append, drop-length-append, All-append,
  All-take, All-drop, Bytes, codes, bytes_eq, bytes_eq_refl, bytes_eq_iff, has_prefix,
  has_prefix-append,
}
use mathlib.Core.Option

abbrev pub base32_alphabet : Bytes
base32_alphabet = codes "ABCDEFGHIJKLMNOPQRSTUVWXYZ234567"

abbrev pub token_random_bytes : ℕ
token_random_bytes = 15

abbrev pub token_chars : ℕ
token_chars = 24

-- `diff |= x ^ y` keeps one fact of diff, whether it is zero: `differs` is that fact, and the
-- bytes past an end count as 0.
pub fold_diff : Bool → Bytes → Bytes → Bool
fold_diff differs [] [] = differs
fold_diff differs (x ∷ pres) [] = fold_diff (differs || not (x == 0)) pres []
fold_diff differs [] (y ∷ exp) = fold_diff (differs || not (0 == y)) [] exp
fold_diff differs (x ∷ pres) (y ∷ exp) = fold_diff (differs || not (x == y)) pres exp

-- crypto/subtle.ConstantTimeCompare is a parameter.
module _ (constant_time_compare : Bytes → Bytes → ℕ) where
  pub constant_time_equals : Option Bytes → Bytes → Bool
  constant_time_equals none exp = false
  constant_time_equals (some pres) exp =
      let same_length = length pres == length exp in
      let equal = not (fold_diff (not same_length) pres exp) in
      if same_length then constant_time_compare pres exp == 1 && equal else equal

-- The 5-bit groups that the accumulator of `bits` bits (below 8 + 5) gives up, from the highest;
-- `fuel` bounds them, and 3 are never needed.
pub emit : ℕ → ℕ → ℕ → Bytes × ℕ
emit zero buffer bits = ([], bits)
emit (suc fuel) buffer bits =
    let rest = emit fuel buffer (bits - 5) in
    if leb 5 bits
    then (get_or base32_alphabet (buffer / 2 ^ (bits - 5) % 32) 0 ∷ rest.0, rest.1)
    else ([], bits)

pub encode_loop : ℕ → ℕ → Bytes → Bytes
unfolding emit
encode_loop buffer bits [] =
    if ltb 0 bits then get_or base32_alphabet (buffer * 2 ^ (5 - bits) % 2 ^ 32 % 32) 0 ∷ [] else []
encode_loop buffer bits (b ∷ bytes) =
    let next = (buffer * 2 ^ 8 % 2 ^ 32) + b in
    let out = emit 3 next (bits + 8) in out.0 ++ encode_loop next out.1 bytes

pub base32_encode : Bytes → Bytes
base32_encode bytes = encode_loop 0 0 bytes

pub make_token : Option Bytes → Option Bytes
make_token random = Option.map base32_encode random
