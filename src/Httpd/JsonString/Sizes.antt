-- ===== src/Httpd/JsonString/Sizes.antt =====
-- internal/httpd/jsonstream.go: each round takes bytes off the body and puts bytes out, so the rounds
-- that the model allows are enough.
use clipbeam_cli.Prelude.{
  ℕ, zero, suc, ◌+◌, ◌*◌, ◌≤◌, ◌<◌, ◌≡◌, refl, ap, inl, inr, Bool, true, false, ◌||◌, Option, none,
  some, [], ◌∷◌, arith, ltb, ◌==◌, if◌then◌else◌, between, Bool-cases, length, Bytes,
}
use clipbeam_cli.Go.Strings.{OnSome}
use clipbeam_cli.Httpd.Outcome.{Within, ClipError, Outcome, ok, err, spent}
use clipbeam_cli.Httpd.JsonString.{
  ◌>>=◌, hex_value, read_hex, encode_rune, expect, pair, low_surrogate, unicode_escape,
  read_unicode_escape, one, read_escape, Piece, closed, emitted, failed, escaped, next_unit,
  prefixed, read_rest, read_string,
}

OnSome-bind {ℓ κ} :
    {A : Type ℓ} {B : Type κ} (P : A → Type 0) (Q : B → Type 0) (m : Option A) (f : A → Option B)
    → OnSome P m
    → ((a : A) → P a → OnSome Q (f a))
    → OnSome Q (m >>= f)
OnSome-bind P Q none f h k = tt
OnSome-bind P Q (some a) f h k = k a h

OnSome-weaken {ℓ} :
    {A : Type ℓ} (P Q : A → Type 0) (o : Option A) → ((a : A) → P a → Q a) → OnSome P o → OnSome Q o
OnSome-weaken P Q none k h = tt
OnSome-weaken P Q (some a) k h = k a h

-- What an escape leaves is no longer than the input, and it puts one to four bytes.
Fewer : Bytes → Bytes × Bytes → Type 0
Fewer s p = (length p.1 ≤ length s) × ((0 < length p.0) × (length p.0 ≤ 4))

read_hex-length :
    (n v : ℕ) (s : Bytes) → OnSome (λ (p : ℕ × Bytes). length p.1 ≤ length s) (read_hex n v s)
unfolding read_hex
read_hex-length zero v s = omega arith
read_hex-length (suc n) v [] = tt
read_hex-length (suc n) v (b ∷ s) =
    elim (hex_value b)
      as (λ o.
        OnSome (λ (p : ℕ × Bytes). length p.1 ≤ length (b ∷ s))
          (o >>= λ d. read_hex n (v * 16 + d) s)) [
            | none ↦ tt
            | some d ↦
                OnSome-weaken (λ (p : ℕ × Bytes). length p.1 ≤ length s) _
                  (read_hex n (v * 16 + d) s) (λ p h. omega (arith, h))
                  (read_hex-length n (v * 16 + d) s)
          ]

encode_rune-length : (cp : ℕ) → (0 < length (encode_rune cp)) × (length (encode_rune cp) ≤ 4)
unfolding encode_rune
encode_rune-length cp = (ground arith, ground arith)

expect-length : (want : ℕ) (s : Bytes) → OnSome (λ t. length t ≤ length s) (expect want s)
unfolding expect
expect-length want [] = tt
expect-length want (b ∷ s) = elim (Bool-cases (b == want)) [
  | inl y ↦ rw y (omega arith)
  | inr n ↦ rw n tt
]

pair-Fewer : (r₁ r₂ : ℕ) (s : Bytes) → OnSome (Fewer s) (pair r₁ r₂ s)
unfolding pair Fewer
pair-Fewer r₁ r₂ s = elim (Bool-cases (ltb r₂ 0xDC00 || ltb 0xDFFF r₂)) [
  | inl y ↦ rw y tt
  | inr n ↦ rw n (omega arith, encode_rune-length _)
]

Fewer-weaken :
    (s t : Bytes) (o : Option (Bytes × Bytes))
    → length s ≤ length t
    → OnSome (Fewer s) o
    → OnSome (Fewer t) o
unfolding Fewer
Fewer-weaken s t o le h =
    OnSome-weaken (Fewer s) (Fewer t) o (λ p k. (omega (arith, k.0, le), k.1)) h

low_surrogate-Fewer : (r₁ : ℕ) (s : Bytes) → OnSome (Fewer s) (low_surrogate r₁ s)
unfolding low_surrogate
low_surrogate-Fewer r₁ s =
    OnSome-bind (λ t. length t ≤ length s) (Fewer s) (expect 92 s) _ (expect-length 92 s)
      λ s₁ h₁.
        OnSome-bind (λ t. length t ≤ length s₁) (Fewer s) (expect b'u' s₁) _ (expect-length b'u' s₁)
          λ s₂ h₂.
            OnSome-bind (λ (p : ℕ × Bytes). length p.1 ≤ length s₂) (Fewer s) (read_hex 4 0 s₂) _
              (read_hex-length 4 0 s₂)
              λ p h₃.
                Fewer-weaken p.1 s (pair r₁ p.0 p.1) (omega (arith, h₁, h₂, h₃))
                  (pair-Fewer r₁ p.0 p.1)

unicode_escape-Fewer : (p : ℕ × Bytes) → OnSome (Fewer p.1) (unicode_escape p)
unfolding unicode_escape Fewer
unicode_escape-Fewer (r₁, s) = elim (Bool-cases (between 0xD800 0xDBFF r₁)) [
  | inl y ↦ rw y (low_surrogate-Fewer r₁ s)
  | inr n ↦ elim (Bool-cases (between 0xDC00 0xDFFF r₁)) [
    | inl y ↦ rw (n, y) tt
    | inr m ↦ rw (n, m) (omega arith, encode_rune-length r₁)
  ]
]

read_unicode_escape-Fewer : (s : Bytes) → OnSome (Fewer s) (read_unicode_escape s)
unfolding read_unicode_escape
read_unicode_escape-Fewer s =
    OnSome-bind (λ (p : ℕ × Bytes). length p.1 ≤ length s) (Fewer s) (read_hex 4 0 s) _
      (read_hex-length 4 0 s)
      λ p h. Fewer-weaken p.1 s (unicode_escape p) h (unicode_escape-Fewer p)

one-Fewer : (c : ℕ) (s : Bytes) → OnSome (Fewer s) (one c s)
unfolding one Fewer
one-Fewer c s = (omega arith, (omega arith, omega arith))

OnSome-if :
    (b : Bool) (s : Bytes) (x y : Option (Bytes × Bytes))
    → OnSome (Fewer s) x
    → OnSome (Fewer s) y
    → OnSome (Fewer s) (if b then x else y)
OnSome-if true s x y h k = h
OnSome-if false s x y h k = k

read_escape-Fewer : (s : Bytes) → OnSome (Fewer s) (read_escape s)
unfolding read_escape
read_escape-Fewer [] = tt
read_escape-Fewer (c ∷ s) = Fewer-weaken s (c ∷ s) _ (omega arith) (
    OnSome-if (c == 34) s _ _ (one-Fewer 34 s) (
      OnSome-if (c == 92) s _ _ (one-Fewer 92 s) (
        OnSome-if (c == b'/') s _ _ (one-Fewer b'/' s) (
          OnSome-if (c == b'b') s _ _ (one-Fewer 8 s) (
            OnSome-if (c == b'f') s _ _ (one-Fewer 12 s) (
              OnSome-if (c == b'n') s _ _ (one-Fewer 10 s) (
                OnSome-if (c == b'r') s _ _ (one-Fewer 13 s) (
                  OnSome-if (c == b't') s _ _ (one-Fewer 9 s)
                    (OnSome-if (c == b'u') s _ _ (read_unicode_escape-Fewer s) tt)))))))))

-- A piece is shorter than the input by a byte at least, and puts one to four bytes.
abbrev pub Progress : Bytes → Piece → Type 0
Progress s (closed s') = length s' < length s
Progress s (emitted out s') = (length s' < length s) × ((0 < length out) × (length out ≤ 4))
Progress s (failed e) = Unit

escaped-Progress :
    (s t : Bytes) (o : Option (Bytes × Bytes))
    → length s < length t
    → OnSome (Fewer s) o
    → Progress t (escaped o)
unfolding escaped Fewer
escaped-Progress s t none lt h = tt
escaped-Progress s t (some (out, s')) lt h = (omega (arith, h.0), h.1)

pub next_unit-Progress : (broken : Option ClipError) (s : Bytes) → Progress s (next_unit broken s)
unfolding next_unit
next_unit-Progress broken [] = tt
next_unit-Progress broken (b ∷ s) = elim (Bool-cases (b == 34)) [
  | inl y ↦ rw y (omega arith)
  | inr n ↦ elim (Bool-cases (b == 92)) [
    | inl y ↦
        rw (n, y) (escaped-Progress s (b ∷ s) (read_escape s) (omega arith) (read_escape-Fewer s))
    | inr m ↦ rw (n, m) (omega arith, (omega arith, omega arith))
  ]
]

-- What follows a piece, where the rest of the string is read in two ways that agree on shorter input.
read_rest-agree :
    (broken : Option ClipError) (m m' : Bytes → Outcome Bytes) (s : Bytes) (u : Piece)
    → Progress s u
    → ((s' : Bytes) → length s' < length s → m s' ≡ m' s')
    → read_rest broken m u ≡ read_rest broken m' u
unfolding read_rest
read_rest-agree broken m m' s (closed s') p h = refl
read_rest-agree broken m m' s (failed e) p h = refl
read_rest-agree broken m m' s (emitted out s') p h = ap (prefixed out) (h s' p.0)

-- More rounds than bytes change nothing.
pub read_string-enough :
    (broken : Option ClipError) (f g : ℕ) (s : Bytes)
    → length s < f
    → length s < g
    → read_string broken f s ≡ read_string broken g s
unfolding read_string
read_string-enough broken zero g s hf hg = absurd (omega arith)
read_string-enough broken (suc f) zero s hf hg = absurd (omega arith)
read_string-enough broken (suc f) (suc g) s hf hg =
    read_rest-agree broken _ _ s (next_unit broken s) (next_unit-Progress broken s)
      λ s' lt. read_string-enough broken f g s' (omega arith) (omega arith)

prefixed-Within :
    (out s s' : Bytes) (o : Outcome Bytes)
    → length s' < length s
    → Within (length s') o
    → Within (length s) (prefixed out o)
unfolding prefixed
prefixed-Within out s s' (ok text rest) p lt = omega (arith, lt, p)
prefixed-Within out s s' (err e) p lt = tt
prefixed-Within out s s' spent p b = b

read_rest-Within :
    (broken : Option ClipError) (m : Bytes → Outcome Bytes) (s : Bytes) (u : Piece)
    → Progress s u
    → ((s' : Bytes) → length s' < length s → Within (length s') (m s'))
    → Within (length s) (read_rest broken m u)
unfolding read_rest
read_rest-Within broken m s (closed s') p h = p
read_rest-Within broken m s (failed e) p h = tt
read_rest-Within broken m s (emitted out s') p h = prefixed-Within out s s' (m s') p.0 (h s' p.0)

-- A string is read to its end, or to an error, in as many rounds as there are bytes and one more.
pub read_string-Within :
    (broken : Option ClipError) (f : ℕ) (s : Bytes)
    → length s < f
    → Within (length s) (read_string broken f s)
unfolding read_string
read_string-Within broken zero s hf = absurd (omega arith)
read_string-Within broken (suc f) s hf =
    read_rest-Within broken _ s (next_unit broken s) (next_unit-Progress broken s)
      λ s' lt. read_string-Within broken f s' (omega arith)
