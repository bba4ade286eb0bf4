-- ===== src/Prelude/Text.antt =====
-- A Go string is its bytes. Equality of byte strings, and the tests of package strings that the
-- source uses.
use Prim.Native.Nat.{ℕ}
use Prim.Native.Char.{code}
use Prim.Native.String.{String}
use mathlib.Core.Path.{◌≡◌, refl}
use mathlib.Core.Logic.{◌↔◌}
use mathlib.Core.Bool.{Bool, true, false, ◌&&◌}
use mathlib.Core.List.{List, [], ◌∷◌, ◌++◌}
use native.Mathlib.Omega.{arith}
use clipbeam_cli.Prelude.Tests.{◌==◌}

abbrev pub Bytes : Type 0
Bytes = List ℕ

-- The code points of a literal; these are its bytes, since every literal here is ASCII.
abbrev pub codes : String → Bytes
codes String.[] = []
codes (String.◌∷◌ c s) = code c ∷ codes s

-- `a == b` on strings.
unfoldable pub bytes_eq : Bytes → Bytes → Bool
bytes_eq [] [] = true
bytes_eq (a ∷ as') (b ∷ bs) = a == b && bytes_eq as' bs
bytes_eq _ _ = false

pub bytes_eq_refl : (a : Bytes) → bytes_eq a a ≡ true
unfolding bytes_eq
bytes_eq_refl [] = refl
bytes_eq_refl (a ∷ as') = ground (arith, bytes_eq_refl as')

bytes_eq_sound : (a b : Bytes) → bytes_eq a b ≡ true → a ≡ b
unfolding bytes_eq
bytes_eq_sound [] [] h = refl
bytes_eq_sound [] (b ∷ bs) h = cc
bytes_eq_sound (a ∷ as') [] h = cc
bytes_eq_sound (a ∷ as') (b ∷ bs) h = ground (arith, bytes_eq_sound as' bs)

pub bytes_eq_iff : (a b : Bytes) → (bytes_eq a b ≡ true) ↔ (a ≡ b)
bytes_eq_iff a b = (bytes_eq_sound a b, λ e. rw e (bytes_eq_refl b))

-- strings.HasPrefix(s, p)
unfoldable pub has_prefix : Bytes → Bytes → Bool
has_prefix s [] = true
has_prefix [] (c ∷ p) = false
has_prefix (d ∷ s) (c ∷ p) = d == c && has_prefix s p

pub has_prefix-append : (p s : Bytes) → has_prefix (p ++ s) p ≡ true
unfolding has_prefix
has_prefix-append [] s = refl
has_prefix-append (c ∷ p) s = ground (arith, has_prefix-append p s)
