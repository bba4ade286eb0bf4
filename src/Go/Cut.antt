-- ===== src/Go/Cut.antt =====
-- strings.IndexByte of the standard library, as its callers use it: the text before the first `c`
-- and the text behind it.
use clipbeam_cli.Prelude.{
  ℕ, ◌<◌, ◌≡◌, refl, sym, ap, ◌≢◌, inl, inr, Bool, true, false, Option, none, some, [], ◌∷◌, ◌++◌,
  arith, ◌==◌, if◌then◌else◌, ==_iff, Bool-cases, Option-cases, length, All, Bytes,
}
use mathlib.Core.Option

unfoldable pub cut : ℕ → Bytes → Option (Bytes × Bytes)
cut c [] = none
cut c (x ∷ s) =
    let rest = Option.map (λ (p : Bytes × Bytes). (x ∷ p.0, p.1)) (cut c s) in
    if x == c then some ([], s) else rest

-- A text without `c` in front of a `c` is what `cut` finds.
pub cut-append :
    (c : ℕ) (s rest : Bytes) → All (λ x. x ≢ c) s → cut c (s ++ c ∷ rest) ≡ some (s, rest)
unfolding cut
cut-append c [] rest h = ground arith
cut-append c (x ∷ s) rest (hx, h) = elim (Bool-cases (x == c)) [
  | inl y ↦ absurd (hx ((==_iff x c).0 y))
  | inr n ↦ rw (n, cut-append c s rest h) refl
]

pub cut-none : (c : ℕ) (s : Bytes) → All (λ x. x ≢ c) s → cut c s ≡ none
unfolding cut
cut-none c [] h = refl
cut-none c (x ∷ s) (hx, h) = elim (Bool-cases (x == c)) [
  | inl y ↦ absurd (hx ((==_iff x c).0 y))
  | inr n ↦ rw (n, cut-none c s h) refl
]

same_after : {p q : Bytes × Bytes} → some p ≡ some q → p.1 ≡ q.1
same_after e = cc

no_pair : {p : Bytes × Bytes} → none ≢ some p
no_pair h = cc

-- What stands behind the first `c` is shorter than the text.
pub length-cut :
    (c : ℕ) (s before after : Bytes) → cut c s ≡ some (before, after) → length after < length s
unfolding cut
length-cut c [] before after h = cc
length-cut c (x ∷ s) before after h = elim (Bool-cases (x == c)) [
  | inl y ↦ (let e = rw y at h in omega (arith, ap length (same_after e)))
  | inr n ↦ elim (Option-cases (cut c s)) [
    | inl missing ↦ absurd (no_pair (rw (n, missing) at h))
    | inr ((b, a), found) ↦
        (let e = rw (n, found) at h in
          omega (arith, ap length (same_after e), length-cut c s b a found))
  ]
]

same_before : {p q : Bytes × Bytes} → some p ≡ some q → p.0 ≡ q.0
same_before e = cc

not_same : {b : Bool} → b ≡ false → b ≢ true
not_same n y = cc

abbrev CutIs : Bytes → Bytes → Bytes → Bytes → Type 0
CutIs b a before after = (let found : Bytes × Bytes = (b, a) in some found ≡ some (before, after))

split_here :
    (c x : ℕ) (s before after : Bytes)
    → x ≡ c
    → CutIs [] s before after
    → (x ∷ s ≡ before ++ c ∷ after) × All (λ y. y ≢ c) before
split_here c x s before after e h = rw (e, ← same_before h, ← same_after h) (refl, tt)

split_there :
    (c x : ℕ) (s b a before after : Bytes)
    → x ≢ c
    → (s ≡ b ++ c ∷ a) × All (λ y. y ≢ c) b
    → CutIs (x ∷ b) a before after
    → (x ∷ s ≡ before ++ c ∷ after) × All (λ y. y ≢ c) before
split_there c x s b a before after ne (e, h) same =
    rw (← same_before same, ← same_after same) (ap (λ (t : Bytes). x ∷ t) e, (ne, h))

-- What `cut` finds is the text again, with no `c` before it.
pub cut-splits :
    (c : ℕ) (s before after : Bytes)
    → cut c s ≡ some (before, after)
    → (s ≡ before ++ c ∷ after) × All (λ x. x ≢ c) before
unfolding cut
cut-splits c [] before after h = cc
cut-splits c (x ∷ s) before after h = elim (Bool-cases (x == c)) [
  | inl y ↦ split_here c x s before after ((==_iff x c).0 y) (rw y at h)
  | inr n ↦ elim (Option-cases (cut c s)) [
    | inl missing ↦ absurd (no_pair (rw (n, missing) at h))
    | inr ((b, a), found) ↦
        split_there c x s b a before after (λ e. not_same n ((==_iff x c).1 e))
          (cut-splits c s b a found) (rw (n, found) at h)
  ]
]

-- A text that `cut` does not split holds no `c`.
pub cut-none-All : (c : ℕ) (s : Bytes) → cut c s ≡ none → All (λ x. x ≢ c) s
unfolding cut
cut-none-All c [] h = tt
cut-none-All c (x ∷ s) h = elim (Bool-cases (x == c)) [
  | inl y ↦ absurd (no_pair (sym (rw y at h)))
  | inr n ↦ elim (Option-cases (cut c s)) [
    | inl missing ↦ (λ e. not_same n ((==_iff x c).1 e), cut-none-All c s missing)
    | inr (found, e) ↦ absurd (no_pair (sym (rw (n, e) at h)))
  ]
]
