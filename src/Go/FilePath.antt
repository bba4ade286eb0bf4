-- ===== src/Go/FilePath.antt =====
-- path/filepath of the standard library on Unix, on byte strings: Base.
use clipbeam_cli.Prelude.{
  ℕ, suc, none, some, [], ◌∷◌, ◌≡◌, ◌≢◌, refl, Bytes, codes, ◌==◌, drop, All, arith,
}
use clipbeam_cli.Go.Strings.{last_index, last_index-none, trim_right}

abbrev pub slash : ℕ
slash = b'/'

-- The file name of the path `p` behind its last slash.
after_slash : Bytes → Bytes
after_slash p = elim (last_index slash p) [ none ↦ p | some i ↦ drop (suc i) p ]

or_root : Bytes → Bytes
or_root [] = slash ∷ []
or_root (c ∷ s) = c ∷ s

-- filepath.Base
unfoldable pub base : Bytes → Bytes
unfolding after_slash or_root trim_right
base [] = b'.' ∷ []
base (c ∷ s) = or_root (after_slash (trim_right (λ d. d == slash) (c ∷ s)))

base_examples :
    (base (codes "a/b.txt//") ≡ codes "b.txt")
    × (base (codes "//") ≡ codes "/")
    × (base (codes "../../etc/passwd") ≡ codes "passwd")
unfolding base last_index trim_right
base_examples = (refl, refl, refl)

trim_right-id : (s : Bytes) → All (λ c. c ≢ slash) s → trim_right (λ d. d == slash) s ≡ s
unfolding trim_right
trim_right-id [] h = refl
trim_right-id (c ∷ []) (hc, h) = ground arith
trim_right-id (c ∷ d ∷ s) (hc, h) = rw (trim_right-id (d ∷ s) h, trim_right)

after_slash-none : (p : Bytes) → last_index slash p ≡ none → after_slash p ≡ p
unfolding after_slash
after_slash-none p e = rw (e, after_slash)

-- A name with no slash is its own base.
pub base-id : (s : Bytes) → s ≢ [] → All (λ c. c ≢ slash) s → base s ≡ s
unfolding base
base-id [] n h = absurd (n refl)
base-id (c ∷ s) n h =
    rw (trim_right-id (c ∷ s) h, after_slash-none (c ∷ s) (last_index-none slash (c ∷ s) h)) refl
