-- ===== src/Go/Strings.antt =====
-- strings.LastIndex, strings.Trim and strings.TrimRight of the standard library.
use clipbeam_cli.Prelude.{
  ℕ, suc, ◌-◌, ◌<◌, ◌≡◌, refl, ap, ◌≢◌, inl, inr, Bool, true, false, ◌&&◌, ◌||◌, Option, none, some,
  [], ◌∷◌, ◌++◌, arith, leb, ◌==◌, if◌then◌else◌, ==_iff, Bool-cases, Option-cases, length, take,
  drop, All, Bytes, bytes_eq,
}

unfoldable pub is_empty : Bytes → Bool
is_empty [] = true
is_empty (c ∷ s) = false

-- The position of the last `c`; `none` is the source's -1.
unfoldable pub last_index : ℕ → Bytes → Option ℕ
last_index c [] = none
last_index c (x ∷ s) = elim (last_index c s) [
  | some i ↦ some (suc i)
  | none ↦ if x == c then some 0 else none
]

unfoldable pub trim_left : (ℕ → Bool) → Bytes → Bytes
trim_left cut [] = []
trim_left cut (c ∷ s) = let rest = trim_left cut s in if cut c then rest else c ∷ s

unfoldable pub trim_right : (ℕ → Bool) → Bytes → Bytes
trim_right cut [] = []
trim_right cut (c ∷ s) = elim (trim_right cut s) [
  | [] ↦ if cut c then [] else c ∷ []
  | d ∷ t ↦ c ∷ d ∷ t
]

-- The set " \t".
abbrev pub is_blank : ℕ → Bool
is_blank c = c == b' ' || c == 9

unfoldable pub trim : (ℕ → Bool) → Bytes → Bytes
unfolding trim_left trim_right
trim cut s = trim_right cut (trim_left cut s)

abbrev pub OnSome {ℓ κ} : {A : Type ℓ} → (A → Type κ) → Option A → Type κ
OnSome P none = Unit
OnSome P (some a) = P a

-- A hit lies inside the text, splits it at `c`, and leaves no `c` behind it.
pub record IsLastIndex (c : ℕ) (s : Bytes) (i : ℕ) : Type 0 where
  pub within : i < length s
  pub splits : take i s ++ c ∷ drop (suc i) s ≡ s
  pub rest : last_index c (drop (suc i) s) ≡ none

last_index-cons_none :
    (c x : ℕ) (s : Bytes)
    → last_index c s ≡ none
    → last_index c (x ∷ s) ≡ (if x == c then some 0 else none)
unfolding last_index
last_index-cons_none c x s e = rw (e, last_index)

last_index-cons_some :
    (c x : ℕ) (s : Bytes) (j : ℕ) → last_index c s ≡ some j → last_index c (x ∷ s) ≡ some (suc j)
unfolding last_index
last_index-cons_some c x s j e = rw (e, last_index)

trim_right-cons_nil :
    (cut : ℕ → Bool) (c : ℕ) (s : Bytes)
    → trim_right cut s ≡ []
    → trim_right cut (c ∷ s) ≡ (if cut c then [] else c ∷ [])
unfolding trim_right
trim_right-cons_nil cut c s e = rw (e, trim_right)

trim_right-cons_cons :
    (cut : ℕ → Bool) (c : ℕ) (s : Bytes) {d : ℕ} {t : Bytes}
    → trim_right cut s ≡ d ∷ t
    → trim_right cut (c ∷ s) ≡ c ∷ d ∷ t
unfolding trim_right
trim_right-cons_cons cut c s e = rw (e, trim_right)

there : (c x : ℕ) (s : Bytes) (j : ℕ) → IsLastIndex c s j → IsLastIndex c (x ∷ s) (suc j)
there c x s j h = record {
  within = omega (arith, h.within);
  splits = ap (λ (t : Bytes). x ∷ t) h.splits;
  rest = h.rest;
}

here : (c x : ℕ) (s : Bytes) → x ≡ c → last_index c s ≡ none → IsLastIndex c (x ∷ s) 0
here c x s e h = record { within = omega arith; splits = rw e; rest = h }

last_index_at : (c : ℕ) (s : Bytes) → OnSome (IsLastIndex c s) (last_index c s)
last_index_at c [] = unfold last_index in tt
last_index_at c (x ∷ s) = elim (Option-cases (last_index c s)) [
  | inl e ↦ elim (Bool-cases (x == c)) [
    | inl y ↦ rw (last_index-cons_none c x s e, y) (here c x s ((==_iff x c).0 y) e)
    | inr n ↦ rw (last_index-cons_none c x s e, n) tt
  ]
  | inr (j, e) ↦ rw (last_index-cons_some c x s j e) (there c x s j (rw e at (last_index_at c s)))
]

pub last_index-IsLastIndex :
    (c : ℕ) (s : Bytes) {i : ℕ} → last_index c s ≡ some i → IsLastIndex c s i
last_index-IsLastIndex c s h = rw h at (last_index_at c s)

-- A text without `c` has no last `c`.
pub last_index-none : (c : ℕ) (s : Bytes) → All (λ x. x ≢ c) s → last_index c s ≡ none
unfolding last_index
last_index-none c [] h = refl
last_index-none c (x ∷ s) (hx, hs) = rw (last_index-none c s hs) (ground (arith, (==_iff x c).0))

module _ (P : ℕ → Type 0) where
  trim_left-All : (cut : ℕ → Bool) (s : Bytes) → All P s → All P (trim_left cut s)
  unfolding trim_left
  trim_left-All cut [] h = tt
  trim_left-All cut (c ∷ s) (hc, hs) = elim (Bool-cases (cut c)) [
    | inl e ↦ rw e (trim_left-All cut s hs)
    | inr e ↦ rw e (hc, hs)
  ]

  trim_right-All : (cut : ℕ → Bool) (s : Bytes) → All P s → All P (trim_right cut s)
  trim_right-All cut [] h = unfold trim_right in tt
  trim_right-All cut (c ∷ s) (hc, hs) = go (trim_right cut s) refl (trim_right-All cut s hs)
    where
      go : (t : Bytes) → trim_right cut s ≡ t → All P t → All P (trim_right cut (c ∷ s))
      go [] e ht = elim (Bool-cases (cut c)) [
        | inl y ↦ rw (trim_right-cons_nil cut c s e, y) tt
        | inr n ↦ rw (trim_right-cons_nil cut c s e, n) (hc, tt)
      ]
      go (d ∷ t) e ht = rw (trim_right-cons_cons cut c s e) (hc, ht)

  pub trim-All : (cut : ℕ → Bool) (s : Bytes) → All P s → All P (trim cut s)
  unfolding trim
  trim-All cut s h = trim_right-All cut (trim_left cut s) (trim_left-All cut s h)

pub is_empty-false : (s : Bytes) → 0 < length s → is_empty s ≡ false
unfolding is_empty
is_empty-false [] h = elim h [ ]
is_empty-false (c ∷ s) h = refl

pub is_empty→nil : (s : Bytes) → is_empty s ≡ true → s ≡ []
unfolding is_empty
is_empty→nil [] h = refl
is_empty→nil (c ∷ s) h = cc

-- strings.HasSuffix(s, p)
unfoldable pub has_suffix : Bytes → Bytes → Bool
unfolding bytes_eq
has_suffix s p = leb (length p) (length s) && bytes_eq (drop (length s - length p) s) p
